-- ===== src/Page/Escaped/Whole.antt =====
-- What `page_history` and `page_sources` send for different texts from outside.
use hash_archive.Prelude.{
  ℕ, Bytes, List, map, Option, none, some, ◌*◌, ◌+◌, ◌≡◌, refl, sym, ap, ◌∙◌,
}
use hash_archive.Error.{Result, ok}
use hash_archive.Hash.Algo.{hash_digest_max}
use hash_archive.Hash.Hex.{hex_encode}
use hash_archive.Hash.Uri.Parse.{link_multihash, HashUri, hash_uri_parse}
use hash_archive.Hash.Uri.Format.{hash_uri_variant}
use hash_archive.Url.{Url, url_parse}
use hash_archive.Db.Response.{Response, uri_max}
use hash_archive.Db.Query.{hx_get_sources}
use hash_archive.Db.Store.{Kvs}
use hash_archive.Page.Args.{history_values}
use hash_archive.Page.Markup.{markup}
use hash_archive.Page.Site.{Site, World, zeroed}
use hash_archive.Page.Output.{IsConn, Answered}
use hash_archive.Page.History.{HistoryTemplates, check_scheme, is_outdated, page_history}
use hash_archive.Page.History.Runs.{runs}
use hash_archive.Page.History.Written.{history_text}
use hash_archive.Page.History.Whole.{AreRows, page_history-runs}
use hash_archive.Page.Sources.{SourcesTemplates, config_sources_max, or_empty, page_sources}
use hash_archive.Page.Sources.Link.{sources_values}
use hash_archive.Page.Sources.Written.{shown, sources_text, page_sources-urls}
use hash_archive.Page.Escaped.{markups, unnamed, same_sources}
use hash_archive.Page.Escaped.Sections.{same_history}

markups-some :
    (x : Bytes) (o : Option Bytes)
    → markups (some x) ≡ markups o
    → (y : Bytes) × (o ≡ some y) × (markup x ≡ markup y)
markups-some x none e = cc
markups-some x (some y) e = (y, refl, cc)

module _ (site : Site) (sent : Site.Conn site → List hash_archive.Api.Event)
    (law : IsConn site sent) where
  -- Two runs of a page that begin with the connection `c` each sent a whole answer, and the texts of the
  -- two bodies have the same markup.
  abbrev pub SameMarkup :
      Site.Conn site → Result (Unit {0}) × World site → Result (Unit {0}) × World site → Type 0
  SameMarkup c a b =
      (x : Bytes) × (y : Bytes) × Answered site sent law c x a.1.0
      × Answered site sent law c y b.1.0
      × (markup x ≡ markup y)

  module _ (c : Site.Conn site) (t t' : Kvs.Txn (Site.kvs site)) (rs qs : List Response) where
    history-SameMarkup :
        (ts : HistoryTemplates) (now id : ℕ) (u v x : Bytes) (url_u url_v : Url)
        → url_parse (some u) ≡ ok url_u
        → check_scheme url_u ≡ ok tt
        → AreRows (Site.kvs site) t u rs
        → url_parse (some v) ≡ ok url_v
        → check_scheme url_v ≡ ok tt
        → AreRows (Site.kvs site) t' v qs
        → map unnamed rs ≡ map unnamed qs
        → history_text site ts (history_values u) (is_outdated rs now) (runs rs) ≡ some x
        → SameMarkup c
            (page_history site ts now id u (c, t))
            (page_history site ts now id v (c, t'))
    history-SameMarkup ts now id u v x url_u url_v pu su ru pv sv rv e f =
        let (y, g, same) =
          markups-some x _ (ap markups (sym f) ∙ same_history site ts u v now rs qs e) in
        let (c1, p1, a1) = page_history-runs site sent law ts now id u x url_u rs c t pu su ru f in
        let (c2, p2, a2) = page_history-runs site sent law ts now id v y url_v qs c t' pv sv rv g in
        (x, y, rw p1 a1, rw p2 a2, same)

    sources-SameMarkup :
        (ts : SourcesTemplates) (u v multihash x : Bytes) (obj : HashUri)
        → hash_uri_parse (Site.b58 site) (some u) ≡ ok obj
        → hash_uri_parse (Site.b58 site) (some v) ≡ ok obj
        → hx_get_sources (Site.kvs site) t (some obj) zeroed config_sources_max ≡ ok rs
        → hx_get_sources (Site.kvs site) t' (some obj) zeroed config_sources_max ≡ ok qs
        → or_empty (hash_uri_variant (Site.b58 site) obj link_multihash uri_max) ≡ ok multihash
        → map unnamed (shown rs) ≡ map unnamed (shown qs)
        → sources_text site ts
            (sources_values u
              (HashUri.type obj)
              (hex_encode (HashUri.buf obj) (hash_digest_max * 2 + 1))
              multihash)
            (shown rs)
          ≡ some x
        → SameMarkup c (page_sources site ts u (c, t)) (page_sources site ts v (c, t'))
    sources-SameMarkup ts u v multihash x obj pu pv qu qv m e f =
        let hex = hex_encode (HashUri.buf obj) (hash_digest_max * 2 + 1) in
        let (y, g, same) = markups-some x _ (
          ap markups (sym f)
          ∙ same_sources site ts u v hex multihash (HashUri.type obj) (shown rs) (shown qs) e) in
        let (c1, p1, a1, _) =
          page_sources-urls site sent law ts u multihash x obj rs c t pu qu m f in
        let (c2, p2, a2, _) =
          page_sources-urls site sent law ts v multihash y obj qs c t' pv qv m g in
        (x, y, rw p1 a1, rw p2 a2, same)

  -- To a connection that takes every call, `page_history` sends pages of the same markup for any two
  -- web URLs `u` and `v` whose stored responses differ in their URLs at most, and `page_sources` for any
  -- two texts `k` and `l` of one hash URI and lists of shown responses that differ in their URLs at
  -- most, if the first page of each pair has a value for every variable of its templates: none of these
  -- texts can open or close a tag, or leave the value of an attribute.
  pub markups-pages :
      (hts : HistoryTemplates) (sts : SourcesTemplates) (now id : ℕ) (u v k l multihash x y : Bytes)
      (url_u url_v : Url) (obj : HashUri) (rs qs found found' : List Response) (c : Site.Conn site)
      (t t' : Kvs.Txn (Site.kvs site))
      → url_parse (some u) ≡ ok url_u
      → check_scheme url_u ≡ ok tt
      → AreRows (Site.kvs site) t u rs
      → url_parse (some v) ≡ ok url_v
      → check_scheme url_v ≡ ok tt
      → AreRows (Site.kvs site) t' v qs
      → map unnamed rs ≡ map unnamed qs
      → history_text site hts (history_values u) (is_outdated rs now) (runs rs) ≡ some x
      → hash_uri_parse (Site.b58 site) (some k) ≡ ok obj
      → hash_uri_parse (Site.b58 site) (some l) ≡ ok obj
      → hx_get_sources (Site.kvs site) t (some obj) zeroed config_sources_max ≡ ok found
      → hx_get_sources (Site.kvs site) t' (some obj) zeroed config_sources_max ≡ ok found'
      → or_empty (hash_uri_variant (Site.b58 site) obj link_multihash uri_max) ≡ ok multihash
      → map unnamed (shown found) ≡ map unnamed (shown found')
      → sources_text site sts
          (sources_values k
            (HashUri.type obj)
            (hex_encode (HashUri.buf obj) (hash_digest_max * 2 + 1))
            multihash)
          (shown found)
        ≡ some y
      → SameMarkup c
          (page_history site hts now id u (c, t))
          (page_history site hts now id v (c, t'))
        × SameMarkup c (page_sources site sts k (c, t)) (page_sources site sts l (c, t'))
  markups-pages hts sts now id u v k l multihash x y url_u url_v obj rs qs found found' c t t' pu su
        ru pv sv rv e f pk pl qk ql m same g =
      (
        history-SameMarkup c t t' rs qs hts now id u v x url_u url_v pu su ru pv sv rv e f,
        sources-SameMarkup c t t' found found' sts k l multihash y obj pk pl qk ql m same g,
      )
