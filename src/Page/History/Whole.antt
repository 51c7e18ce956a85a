-- ===== src/Page/History/Whole.antt =====
-- The whole page of a URL, from the responses that are stored.
use hash_archive.Prelude.{
  ℕ, Bool, true, false, Bytes, List, [], ◌∷◌, ◌++◌, All, All-append, map, length, some, ltb,
  if◌then◌else◌, ◌≡◌, refl,
}
use hash_archive.Error.{ok, ◌>>=◌, >>=-eq-ok}
use hash_archive.Url.{Url, url_parse}
use hash_archive.Url.Surt.{url_normalize_surt}
use hash_archive.Db.Response.{Response, uri_max}
use hash_archive.Db.Merge.{res_content_eq, res_merge_common_content}
use hash_archive.Db.Merge.Urls.{IsFresh}
use hash_archive.Db.Store.{Kvs, Key, url_surt}
use hash_archive.Db.Query.{unless_notfound, of_url_key, read_response, history_from, hx_get_history}
use hash_archive.Queue.{is_due}
use hash_archive.Db.Query.Fresh.{read_response-IsFresh}
use hash_archive.Page.Args.{history_values, history_args_lem}
use hash_archive.Page.Site.{Site, zeroed}
use hash_archive.Page.Output.{IsConn, Answered}
use hash_archive.Page.History.{
  HistoryTemplates, config_history_max, check_scheme, is_outdated, page_history,
}
use hash_archive.Page.History.Runs.{runs, sections, unlinked, sections-merge_content}
use hash_archive.Page.History.Written.{history_text, after_queue, body_lem}

module _ (kvs : Kvs) where
  open kvs use {Txn, keys_down}

  history_from-IsFresh :
      (t : Txn) (max : ℕ) (done rs : List Response) (ks : List Key)
      → All IsFresh done
      → history_from kvs t zeroed max done ks ≡ ok rs
      → All IsFresh rs
  unfolding history_from
  history_from-IsFresh t max done rs [] h e = let same : done ≡ rs = cc in rw (← same) h
  history_from-IsFresh t max done rs (k ∷ ks) h e =
      go (λ done' h' f. history_from-IsFresh t max done' rs ks h' f) (ltb (length done) max) e
    where
      go :
          ((done' : List Response)
            → All IsFresh done'
            → history_from kvs t zeroed max done' ks ≡ ok rs
            → All IsFresh rs)
          → (b : Bool)
          → (if b
              then (of_url_key k >>= λ at. read_response kvs t zeroed at >>= λ r.
                  history_from kvs t zeroed max (done ++ r ∷ []) ks)
              else ok done)
            ≡ ok rs
          → All IsFresh rs
      go ih false f = let same : done ≡ rs = cc in rw (← same) h
      go ih true f =
          let (at, ea, g) = >>=-eq-ok (of_url_key k) _ f in
          let (r, er, g') = >>=-eq-ok (read_response kvs t zeroed at) _ g in
          ih (done ++ r ∷ [])
            (All-append IsFresh done (r ∷ []) h
              (read_response-IsFresh kvs t zeroed r at (refl, refl) er, tt))
            g'

  -- What a URL's part of the index leads to, the newest first.
  pub record AreRows (t : Txn) (url : Bytes) (rs : List Response) : Type 0 where
    pub surt : Bytes
    pub keys : List Key
    pub normal : url_normalize_surt (some url) uri_max ≡ ok surt
    pub found : unless_notfound (keys_down t (url_surt surt)) ≡ ok keys
    pub rows : history_from kvs t zeroed config_history_max [] keys ≡ ok rs

  AreRows-IsFresh : (t : Txn) (url : Bytes) (rs : List Response) → AreRows t url rs → All IsFresh rs
  AreRows-IsFresh t url rs h = history_from-IsFresh t config_history_max [] rs h.keys tt h.rows

  hx_get_history-AreRows :
      (t : Txn) (url : Bytes) (rs : List Response)
      → AreRows t url rs
      → hx_get_history kvs t url zeroed config_history_max ≡ ok (res_merge_common_content rs)
  unfolding hx_get_history
  hx_get_history-AreRows t url rs h = rw (h.normal, h.found, h.rows) refl

outdated-merge :
    (rs : List Response) (now : ℕ)
    → is_outdated (res_merge_common_content rs) now ≡ is_outdated rs now
unfolding is_outdated res_merge_common_content hash_archive.Db.Merge.merge_content_from
outdated-merge [] now = refl
outdated-merge (a ∷ []) now = refl
outdated-merge (a ∷ b ∷ rest) now = go (res_content_eq a b)
  where
    go :
        (j : Bool)
        → is_due (Response.time (if j then record a { next = some 1 } else a)) now
          ≡ is_due (Response.time a) now
    go true = refl
    go false = refl

module _ (site : Site) (sent : Site.Conn site → List hash_archive.Api.Event)
    (law : IsConn site sent) where
  -- To a connection that takes every call, the page of a web URL whose stored responses are `rs` is the
  -- head, chunks of one text, and the end. The text is the header, the notice if the newest response is
  -- more than a day old or there is none, a section for each run of responses of one content with the
  -- dates of all of them, and the footer, if all variables of the templates have values. Only behind the
  -- notice is the URL queued, and what `queue_add` returns is what the page returns.
  pub page_history-runs :
      (ts : HistoryTemplates) (now id : ℕ) (url out : Bytes) (obj : Url) (rs : List Response)
      (c : Site.Conn site) (t : Kvs.Txn (Site.kvs site))
      → url_parse (some url) ≡ ok obj
      → check_scheme obj ≡ ok tt
      → AreRows (Site.kvs site) t url rs
      → history_text site ts (history_values url) (is_outdated rs now) (runs rs) ≡ some out
      → (c' : Site.Conn site) × (page_history site ts now id url (c, t) ≡ (
        (after_queue site (is_outdated rs now) now id url t).0,
        (c', (after_queue site (is_outdated rs now) now id url t).1),
      ))
        × Answered site sent law c out c'
  unfolding page_history
  page_history-runs ts now id url out obj rs c t p s h e =
      let all = res_merge_common_content rs in
      let shown = sections-merge_content rs (AreRows-IsFresh (Site.kvs site) t url rs h) in
      let old = outdated-merge rs now in
      let text : history_text site ts (history_values url) (is_outdated all now)
            (map (map unlinked) (sections (length all) all all))
          ≡ some out =
        rw (shown.0, old) e in
      let (c', f, g) = body_lem site sent law ts now id url (history_values url) all out c t text in
      (
        c',
        rw (p, s, history_args_lem url, hx_get_history-AreRows (Site.kvs site) t url rs h, ← old) f,
        g,
      )
