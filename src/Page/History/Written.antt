-- ===== src/Page/History/Written.antt =====
-- What `page_history` sends to a connection that takes every call.
use hash_archive.Prelude.{
  ℕ, Bool, true, false, Bytes, List, [], ◌∷◌, ◌++◌, append-nil, map, concat, Option, none, some,
  codes, length, bytes_eq, if◌then◌else◌, ◌≡◌, refl, sym, ap, ◌∙◌,
}
use hash_archive.Error.{Result, ok, err}
use hash_archive.Step.{go_on, ◌>>=◌, pure, lift}
use hash_archive.Hash.Algo.{Algo}
use hash_archive.Hash.Uri.Parse.{Link}
use hash_archive.Db.Response.{Response}
use hash_archive.Db.Merge.{is_ok_status}
use hash_archive.Db.Store.{Kvs}
use hash_archive.Queue.{queue_add, queue_add_rc}
use hash_archive.Template.{TemplateStep, template_static_var}
use hash_archive.Template.Written.{value_of}
use hash_archive.Page.Site.{
  Site, World, wr, template_chunk, write_item, write_all, chain, html_head, html_end,
}
use hash_archive.Page.Output.{
  both_texts, both_texts-some, with_values, IsConn, Says-pure, Says-wr, Says-eq, Says-template,
  Says-static, Says-all, SaysValue, Says-some, Says-none, Says-both, Says-if, Ran, Ran-then,
  Answered, Ran-Answered, tells_lem,
}
use hash_archive.Page.History.{
  HistoryTemplates, algos, list_type, has_prev, date_of, item_of, error_text, write_items,
  write_list, hist_var, queue_url, rc_of, committed, is_outdated, write_outdated, history_body,
  write_entry, write_entries,
}
use hash_archive.Page.History.Runs.{sections, unlinked}

-- A text that is not there is empty.
abbrev pub text_of_item : Option (Result Bytes) → Option Bytes
text_of_item none = some []
text_of_item (some (ok x)) = some x
text_of_item (some (err e)) = none

module _ (site : Site) where
  abbrev pub items_text : Link → Response → List Algo → Option Bytes
  items_text type r [] = some []
  items_text type r (a ∷ rest) =
      both_texts (text_of_item (item_of site type r a)) (items_text type r rest)

  abbrev pub list_text : Option Link → Response → Option Bytes
  list_text none r = none
  list_text (some type) r = items_text type r algos

  -- The value of a variable in the section of `r` and of the responses `later`.
  unfoldable pub section_value : Response → List Response → Bytes → Option Bytes
  section_value r later var =
      if bytes_eq var (codes "date")
      then some (date_of site (codes "As of ") r)
      else if bytes_eq var (codes "dates")
      then some (concat (map (date_of site (codes "Also seen ")) later))
      else if bytes_eq var (codes "error")
      then some (error_text site r)
      else list_text (list_type var) r

  -- What `queue_add` returns and leaves, if the page calls it.
  abbrev pub after_queue :
      Bool → ℕ → ℕ → Bytes → Kvs.Txn (Site.kvs site) → Result (Unit {0}) × Kvs.Txn (Site.kvs site)
  after_queue true now id url t = (
    rc_of site (queue_add_rc (Site.kvs site) (queue_add (Site.kvs site) t now id url [])),
    committed site t (queue_add (Site.kvs site) t now id url []),
  )
  after_queue false now id url t = (ok tt, t)

  module _ (ts : HistoryTemplates) where
    -- A section: the template of a success or of an error.
    abbrev pub section_text : List Response → Option Bytes
    section_text [] = some []
    section_text (r ∷ later) =
        with_values (section_value r later)
          (if is_ok_status (Response.status r) then ts.entry else ts.error)

    abbrev pub sections_text : List (List Response) → Option Bytes
    sections_text [] = some []
    sections_text (s ∷ ss) = both_texts (section_text s) (sections_text ss)

    -- The whole page of a URL, whose responses are given in sections.
    unfoldable pub history_text :
        List (Bytes × Option Bytes) → Bool → List (List Response) → Option Bytes
    history_text args outdated ss = both_texts (with_values (value_of args) ts.header) (
        both_texts (if outdated then with_values (value_of args) ts.outdated else some [])
          (both_texts (sections_text ss) (with_values (value_of args) ts.footer)))

module _ (site : Site) (sent : Site.Conn site → List hash_archive.Api.Event)
    (law : IsConn site sent) where
  item_Says :
      (i : Option (Result Bytes)) → SaysValue site sent law (write_item site i) (text_of_item i)
  item_Says none = Says-some site sent law (pure tt) [] (Says-pure site sent law)
  item_Says (some (ok y)) = Says-some site sent law (wr site y) y (Says-wr site sent law y)
  item_Says (some (err y)) = Says-none site sent law (write_item site (some (err y)))

  items_Says :
      (type : Link) (r : Response) (l : List Algo)
      → SaysValue site sent law (write_items site type r l) (items_text site type (unlinked r) l)
  unfolding item_of
  items_Says type r [] = item_Says none
  items_Says type r (a ∷ l) =
      Says-both site sent law (write_item site (item_of site type r a)) (write_items site type r l)
        (text_of_item (item_of site type r a)) (items_text site type (unlinked r) l)
        (item_Says (item_of site type r a)) (items_Says type r l)

  list_Says :
      (type : Option Link) (r : Response)
      → SaysValue site sent law (write_list site type r) (list_text site type (unlinked r))
  list_Says none r = Says-none site sent law (write_list site none r)
  list_Says (some type) r = items_Says type r algos

  dates_lem :
      (rows : List Response)
      → concat (map (date_of site (codes "Also seen ")) rows)
        ≡ concat (map (date_of site (codes "Also seen ")) (map unlinked rows))
  dates_lem [] = refl
  dates_lem (r ∷ rows) = ap (λ x. date_of site (codes "Also seen ") r ++ x) (dates_lem rows)

  hist_var_Says :
      (all : List Response) (r : Response) (name : Bytes)
      → SaysValue site sent law (hist_var site all r name) (
          section_value site
            (unlinked r)
            (map unlinked (chain (length all) all (Response.next r)))
            name)
  unfolding section_value hist_var error_text
  hist_var_Says all r name =
      let rows = chain (length all) all (Response.next r) in
      let later = map (date_of site (codes "Also seen ")) rows in
      Says-if site sent law _ _ _ _ _
        (Says-some site sent law (wr site (date_of site (codes "As of ") r)) _
          (Says-wr site sent law _))
        (Says-if site sent law _ _ _ _ _
          (Says-some site sent law (write_all site later) _ (
            Says-eq site sent law (write_all site later) _ _ (ok tt) (dates_lem rows)
              (Says-all site sent law later)))
          (Says-if site sent law _ _ _ _ _
            (Says-some site sent law (wr site (error_text site r)) _ (Says-wr site sent law _))
            (list_Says (list_type name) r)))

  module _ (ts : HistoryTemplates) where
    entries_Says :
        (all rs : List Response)
        → SaysValue site sent law
            (write_entries site ts all rs)
            (sections_text site ts (map (map unlinked) (sections (length all) all rs)))
    unfolding write_entry sections
    entries_Says all [] = Says-some site sent law (pure tt) [] (Says-pure site sent law)
    entries_Says all (r ∷ rs) = go (has_prev (Response.prev r)) (entries_Says all rs)
      where
        s : List Response
        s = r ∷ chain (length all) all (Response.next r)

        tpl : List TemplateStep
        tpl = if is_ok_status (Response.status r) then ts.entry else ts.error

        go :
            (b : Bool)
            → SaysValue site sent law
                (write_entries site ts all rs)
                (sections_text site ts (map (map unlinked) (sections (length all) all rs)))
            → SaysValue site sent law
                ((if b then pure tt else template_chunk site tpl (hist_var site all r)) >>= λ u.
                  write_entries site ts all rs)
                (sections_text site ts (
                  map
                    (map unlinked)
                    (if b then sections (length all) all rs else s ∷ sections (length all) all rs)))
        go true ih = ih
        go false ih =
            Says-both site sent law (template_chunk site tpl (hist_var site all r))
              (write_entries site ts all rs) (section_text site ts (map unlinked s)) _
              (λ out.
                Says-template site sent law _ (hist_var site all r) tpl out (hist_var_Says all r))
              ih

    outdated_lem :
        (b : Bool) (args : List (Bytes × Option Bytes)) (now id : ℕ) (url x : Bytes)
        (c : Site.Conn site) (t : Kvs.Txn (Site.kvs site))
        → (if b then with_values (value_of args) ts.outdated else some []) ≡ some x
        → (c' : Site.Conn site) × ((if b
                then (template_chunk site ts.outdated
                      (template_static_var (World site) (wr site) args)
                    >>= λ u. queue_url site now id url)
                else pure (ok tt))
              (c, t)
            ≡ (ok (after_queue site b now id url t).0, (c', (after_queue site b now id url t).1)))
          × Ran site sent law c x c'
    unfolding queue_url
    outdated_lem true args now id url x c t e =
        let (c', bs, p, q, r) = Says-static site sent law args ts.outdated x e c t in
        (c', ap (λ z. go_on z (λ u. queue_url site now id url)) p, (bs, q, r))
    outdated_lem false args now id url x c t e =
        let same : [] ≡ x = cc in (c, refl, ([], sym (append-nil (sent c)), same))

    pub body_lem :
        (now id : ℕ) (url : Bytes) (args : List (Bytes × Option Bytes)) (all : List Response)
        (out : Bytes) (c : Site.Conn site) (t : Kvs.Txn (Site.kvs site))
        → history_text site ts args
            (is_outdated all now)
            (map (map unlinked) (sections (length all) all all))
          ≡ some out
        → (c' : Site.Conn site) × (history_body site ts now id url args all (c, t) ≡ (
          (after_queue site (is_outdated all now) now id url t).0,
          (c', (after_queue site (is_outdated all now) now id url t).1),
        ))
          × Answered site sent law c out c'
    unfolding history_text history_body write_outdated
    body_lem now id url args all out c t e =
        let (a, r1, ea, e1, g1) = both_texts-some _ _ out e in
        let (b, r2, eb, e2, g2) = both_texts-some _ _ r1 e1 in
        let (d, f, ed, ef, g3) = both_texts-some _ _ r2 e2 in
        let (c0, p0, s0) = tells_lem site sent law html_head c t in
        let (c1, b1, p1, q1, t1) = Says-static site sent law args ts.header a ea c0 t in
        let (c2, p2, ran2) = outdated_lem (is_outdated all now) args now id url b c1 t eb in
        let t' = (after_queue site (is_outdated all now) now id url t).1 in
        let (c3, b3, p3, q3, t3) = entries_Says all all d ed c2 t' in
        let (c4, b4, p4, q4, t4) = Says-static site sent law args ts.footer f ef c3 t' in
        let (c5, p5, s5) = tells_lem site sent law html_end c4 t' in
        let ran34 = Ran-then site sent law c2 c3 c4 d f (b3, q3, t3) (b4, q4, t4) in
        let ran24 = Ran-then site sent law c1 c2 c4 b (d ++ f) ran2 ran34 in
        let ran04 = Ran-then site sent law c0 c1 c4 a (b ++ (d ++ f)) (b1, q1, t1) ran24 in
        let (bs, u, v) = Ran-Answered site sent law c c0 c4 c5 (a ++ (b ++ (d ++ f))) s0 ran04 s5 in
        (
          c5,
          rw (p0, p1, p2, p3, p4)
              (ap (λ z. go_on z (λ u. lift (after_queue site (is_outdated all now) now id url t).0))
                p5),
          (bs, u, v ∙ ap (λ z. a ++ (b ++ z)) g3 ∙ ap (λ z. a ++ z) g2 ∙ g1),
        )
