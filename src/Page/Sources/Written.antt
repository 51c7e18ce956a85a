-- ===== src/Page/Sources/Written.antt =====
-- What `page_sources` sends to a connection that takes every call.
use hash_archive.Prelude.{
  All, ℕ, ◌*◌, ◌+◌, Bool, true, false, Bytes, List, [], ◌∷◌, ◌++◌, map, Option, none, some, codes,
  bytes_eq, if◌then◌else◌, ◌≡◌, refl, ap, ◌∙◌,
}
use hash_archive.Error.{uv_enoent, ok}
use hash_archive.Step.{◌>>=◌, pure, fail}
use hash_archive.Hash.Algo.{hash_digest_max}
use hash_archive.Hash.Hex.{hex_encode}
use hash_archive.Hash.Uri.Parse.{link_web_url, link_multihash, HashUri, hash_uri_parse}
use hash_archive.Hash.Uri.Format.{hash_uri_variant}
use hash_archive.Html.Laws.{escaped, html_encode-escaped}
use hash_archive.Db.Response.{Response, uri_max}
use hash_archive.Db.Merge.Urls.{IsFresh, heads, first_urls, heads-merge_common_urls}
use hash_archive.Db.Merge.{res_merge_common_urls}
use hash_archive.Db.Store.{Kvs}
use hash_archive.Db.Query.{hx_get_sources}
use hash_archive.Template.{TemplateStep}
use hash_archive.Template.Written.{value_of}
use hash_archive.Page.{link_text, link_html}
use hash_archive.Db.Query.Fresh.{hx_get_sources-IsFresh}
use hash_archive.Page.Sources.Link.{sources_values, sources_args_lem, hash_uri_parse-IsParsed}
use hash_archive.Page.Site.{Site, wr, template_chunk, write_found, html_head, html_end, zeroed}
use hash_archive.Page.Output.{
  both_texts, both_texts-some, with_values, IsConn, SaysValue, Says-pure, Says-wr, Says-some,
  Says-none, Says-both, Says-if, Says-template, Says-static, Ran-then, Answered, Ran-Answered,
  tells_lem,
}
use hash_archive.Page.History.{has_prev, date_of}
use hash_archive.Page.Sources.{
  SourcesTemplates, config_sources_max, or_empty, source_label, source_var, write_source,
  write_sources, sources_body, page_sources,
}

-- The responses on the page: those without a link back.
unfoldable pub shown : List Response → List Response
shown [] = []
shown (r ∷ rs) = let rest = shown rs in if has_prev (Response.prev r) then rest else r ∷ rest

pub url-shown : (rs : List Response) → map Response.url (shown rs) ≡ heads rs
unfolding shown heads
url-shown [] = refl
url-shown (r ∷ rs) = go (Response.prev r) (url-shown rs)
  where
    go :
        (p : Option ℕ)
        → map Response.url (shown rs) ≡ heads rs
        → map Response.url (if has_prev p then shown rs else r ∷ shown rs)
          ≡ elim p [ none ↦ Response.url r ∷ heads rs | some j ↦ heads rs ]
    go none ih = ap (◌∷◌ (Response.url r)) ih
    go (some j) ih = ih

module _ (site : Site) where
  -- The value of a variable in the entry of a response.
  unfoldable pub source_value : Response → Bytes → Option Bytes
  source_value r var =
      if bytes_eq var (codes "date")
      then some (date_of site (source_label site (Response.latest r)) r)
      else if bytes_eq var (codes "url")
      then some (link_text link_web_url (escaped (Response.url r)))
      else if bytes_eq var (codes "obsolete")
      then (if Response.latest r then some [] else some (codes "obsolete"))
      else none

  abbrev pub entries_text : List TemplateStep → List Response → Option Bytes
  entries_text entry [] = some []
  entries_text entry (r ∷ rs) =
      both_texts (with_values (source_value r) entry) (entries_text entry rs)

  -- The whole page of a hash.
  unfoldable pub sources_text :
      SourcesTemplates → List (Bytes × Option Bytes) → List Response → Option Bytes
  sources_text ts args rs = both_texts (with_values (value_of args) (SourcesTemplates.header ts)) (
      both_texts (entries_text (SourcesTemplates.entry ts) rs)
        (with_values (value_of args) (SourcesTemplates.footer ts)))

module _ (site : Site) (sent : Site.Conn site → List hash_archive.Api.Event)
    (law : IsConn site sent) where
  url_Says :
      (r : Response)
      → SaysValue site sent law
          (write_found site (link_html link_web_url (some (Response.url r))))
          (some (link_text link_web_url (escaped (Response.url r))))
  unfolding link_html
  url_Says r = rw (html_encode-escaped (Response.url r)) (
      Says-some site sent law (wr site (link_text link_web_url (escaped (Response.url r)))) _
        (Says-wr site sent law _))

  source_var_Says :
      (r : Response) (name : Bytes)
      → SaysValue site sent law (source_var site r name) (source_value site r name)
  unfolding source_var source_value
  source_var_Says r name =
      Says-if site sent law _ _ _ _ _
        (Says-some site sent law (wr site (date_of site (source_label site (Response.latest r)) r))
          _ (Says-wr site sent law _))
        (Says-if site sent law _ _ _ _ _ (url_Says r) (
          Says-if site sent law _ _ _ _ _
            (Says-if site sent law (Response.latest r) (pure tt) (wr site (codes "obsolete")) _ _
              (Says-some site sent law (pure tt) [] (Says-pure site sent law))
              (Says-some site sent law (wr site (codes "obsolete")) _ (Says-wr site sent law _)))
            (Says-none site sent law (fail uv_enoent))))

  module _ (ts : SourcesTemplates) where
    sources_Says :
        (rs : List Response)
        → SaysValue site sent law
            (write_sources site ts rs)
            (entries_text site (SourcesTemplates.entry ts) (shown rs))
    unfolding write_source shown
    sources_Says [] = Says-some site sent law (pure tt) [] (Says-pure site sent law)
    sources_Says (r ∷ rs) = go (has_prev (Response.prev r)) (sources_Says rs)
      where
        go :
            (b : Bool)
            → SaysValue site sent law
                (write_sources site ts rs)
                (entries_text site (SourcesTemplates.entry ts) (shown rs))
            → SaysValue site sent law
                ((if b then pure tt else template_chunk site ts.entry (source_var site r)) >>= λ u.
                  write_sources site ts rs)
                (entries_text site
                  (SourcesTemplates.entry ts)
                  (if b then shown rs else r ∷ shown rs))
        go true ih = ih
        go false ih =
            Says-both site sent law (template_chunk site ts.entry (source_var site r))
              (write_sources site ts rs) _ _
              (λ out.
                Says-template site sent law _ (source_var site r) ts.entry out (source_var_Says r))
              ih

    body_lem :
        (args : List (Bytes × Option Bytes)) (rs : List Response) (out : Bytes) (c : Site.Conn site)
        (t : Kvs.Txn (Site.kvs site))
        → sources_text site ts args (shown rs) ≡ some out
        → (c' : Site.Conn site) × (sources_body site ts args rs (c, t) ≡ (ok tt, (c', t)))
          × Answered site sent law c out c'
    unfolding sources_text sources_body
    body_lem args rs out c t e =
        let (a, r1, ea, e1, g1) = both_texts-some _ _ out e in
        let (b, d, eb, ed, g2) = both_texts-some _ _ r1 e1 in
        let (c0, p0, s0) = tells_lem site sent law html_head c t in
        let (c1, b1, p1, q1, t1) = Says-static site sent law args ts.header a ea c0 t in
        let (c2, b2, p2, q2, t2) = sources_Says rs b eb c1 t in
        let (c3, b3, p3, q3, t3) = Says-static site sent law args ts.footer d ed c2 t in
        let (c4, p4, s4) = tells_lem site sent law html_end c3 t in
        let ran13 = Ran-then site sent law c1 c2 c3 b d (b2, q2, t2) (b3, q3, t3) in
        let ran03 = Ran-then site sent law c0 c1 c3 a (b ++ d) (b1, q1, t1) ran13 in
        let (bs, u, v) = Ran-Answered site sent law c c0 c3 c4 (a ++ (b ++ d)) s0 ran03 s4 in
        (c4, rw (p0, p1, p2, p3) p4, (bs, u, v ∙ ap (λ z. a ++ z) g2 ∙ g1))

    -- To a connection that takes every call, the page of a hash URI is the head, chunks of one text, and
    -- the end, and it returns success, if the query succeeds, the multihash is made or is not supported,
    -- and all variables of the templates have values. The text is the header, an entry for each response
    -- without a link back, in order, and the footer. The responses are the merged ones of rows without
    -- links, and the entries show every URL of the rows once, in the order of first appearance.
    pub page_sources-urls :
        (uri multihash out : Bytes) (obj : HashUri) (rs : List Response) (c : Site.Conn site)
        (t : Kvs.Txn (Site.kvs site))
        → hash_uri_parse (Site.b58 site) (some uri) ≡ ok obj
        → hx_get_sources (Site.kvs site) t (some obj) zeroed config_sources_max ≡ ok rs
        → or_empty (hash_uri_variant (Site.b58 site) obj link_multihash uri_max) ≡ ok multihash
        → sources_text site ts
            (sources_values uri
              (HashUri.type obj)
              (hex_encode (HashUri.buf obj) (hash_digest_max * 2 + 1))
              multihash)
            (shown rs)
          ≡ some out
        → (c' : Site.Conn site) × (page_sources site ts uri (c, t) ≡ (ok tt, (c', t)))
          × Answered site sent law c out c'
          × ((rows : List Response) × All IsFresh rows
              × (rs ≡ res_merge_common_urls rows)
              × (map Response.url (shown rs) ≡ first_urls [] rows))
    unfolding page_sources
    page_sources-urls uri multihash out obj rs c t p q m e =
        let parsed = hash_uri_parse-IsParsed (Site.b58 site) (some uri) obj p in
        let hex = hex_encode (HashUri.buf obj) (hash_digest_max * 2 + 1) in
        let s = sources_args_lem uri hex multihash (HashUri.type obj) parsed in
        let (c', f, g) = body_lem _ rs out c t e in
        let (rows, fresh, h) =
          hx_get_sources-IsFresh (Site.kvs site) t obj zeroed config_sources_max rs (refl, refl)
            q in
        (
          c',
          rw (p, q, m, s) f,
          g,
          (rows, fresh, h, url-shown rs ∙ ap heads h ∙ heads-merge_common_urls rows fresh),
        )
