-- ===== src/Tests/Escapes.antt =====
-- The pages of a URL that tries to add markup, against those of another.
use hash_archive.Prelude.{
  ℕ, zero, suc, All, Bytes, List, [], ◌∷◌, ◌++◌, map, Option, none, some, true, false, codes, ◌≡◌,
  refl,
}
use hash_archive.Error.{ok}
use hash_archive.Hash.Algo.{sha1}
use hash_archive.Hash.Uri.Parse.{link_hash_uri, link_multihash, HashUri, Base58, hash_uri_parse}
use hash_archive.Hash.Hex.{hex_encode}
use hash_archive.Url.{Url, url_parse}
use hash_archive.Db.Response.{pos, Response, Field, num, text, blob, uri_max}
use hash_archive.Db.Merge.{res_merge_common_urls}
use hash_archive.Db.Store.{url_surt}
use hash_archive.Db.Query.{hx_get_sources, hx_get_latest}
use hash_archive.Page.Site.{Site, zeroed}
use hash_archive.Page.History.{check_scheme, page_history}
use hash_archive.Page.History.Whole.{AreRows}
use hash_archive.Page.Sources.{page_sources}
use hash_archive.Page.Sources.Written.{shown}
use hash_archive.Page.Escaped.{unnamed}
use hash_archive.Page.Escaped.Whole.{SameMarkup, markups-pages}
use hash_archive.Url.Surt.{url_normalize_surt}
use hash_archive.Tests.Queues.{page}
use hash_archive.Tests.Rendered.{
  evil, at, renamed, keys_of, two_responses, site, site-IsConn, history_templates, history_page,
  page_url, page_parsed, page_scheme, page_rows, page_text, sources_templates, asked, asked_uri,
  rows, asked_parsed, asked_found, asked_multihash, sources_page, asked_text,
}

abbrev evil_url : Url
evil_url = record {
  scheme = codes "http";
  host = codes "a.org";
  path = codes "/\"><i>";
  query = [];
}

abbrev evil_surt : Bytes
evil_surt = codes "http://(org,a,)/\"><i>"

url_normalize_surt-evil : url_normalize_surt (some evil) uri_max ≡ ok evil_surt
unfolding url_normalize_surt url_parse hash_archive.Url.parse_text hash_archive.Url.absolute
    hash_archive.Url.scan_absolute hash_archive.Url.Scan.run hash_archive.Prelude.strip
    hash_archive.Url.scan_host hash_archive.Url.check_url hash_archive.Url.scan_path
    hash_archive.Url.host_parse hash_archive.Prelude.is_alnum hash_archive.Prelude.to_lower
    hash_archive.Url.Surt.domain_reverse hash_archive.Url.host_format hash_archive.Url.print_fits
    hash_archive.Url.scan_port hash_archive.Prelude.is_digit hash_archive.Prelude.one_of
    hash_archive.Url.Surt.append_labels hash_archive.Url.Surt.labels hash_archive.Url.url_format
url_normalize_surt-evil = refl

evil_parsed : url_parse (some evil) ≡ ok evil_url
unfolding url_parse hash_archive.Url.parse_text hash_archive.Url.absolute
    hash_archive.Url.scan_absolute hash_archive.Url.Scan.run hash_archive.Prelude.strip
    hash_archive.Url.scan_host hash_archive.Url.check_url hash_archive.Url.scan_path
    hash_archive.Prelude.to_lower
evil_parsed = refl

evil_rows : AreRows two_responses 1 evil (renamed 1700000000 7 ∷ renamed 1600000000 3 ∷ [])
unfolding hash_archive.Db.Query.unless_notfound hash_archive.Db.Query.history_from
    hash_archive.Db.Query.of_url_key hash_archive.Db.Query.read_response
    hash_archive.Db.Response.unpack_value hash_archive.Db.Response.read_text
    hash_archive.Db.Response.read_num hash_archive.Db.Response.read_digests
    hash_archive.Db.Response.read_digest hash_archive.Hash.Algo.hash_algo_digest_len
    hash_archive.Db.Response.read_blob hash_archive.Db.Response.unpack_status
evil_rows = record {
  surt = evil_surt;
  keys = keys_of (url_surt evil_surt);
  normal = url_normalize_surt-evil;
  found = refl;
  rows = refl;
}

evil_scheme : check_scheme evil_url ≡ ok tt
unfolding check_scheme hash_archive.Prelude.case_eq
evil_scheme = refl

abbrev respelled : Bytes
respelled = codes "HASH://sha1/0001"

respelled_parsed : hash_uri_parse (Site.b58 site) (some respelled) ≡ ok asked_uri
unfolding hash_archive.Hash.Uri.Parse.hash_uri_parse
    hash_archive.Hash.Uri.Parse.hash_uri_parse_hash_uri hash_archive.Hash.Uri.Match.match_hash_uri
    hash_archive.Prelude.strip_case hash_archive.Prelude.span hash_archive.Prelude.is_alnum
    hash_archive.Prelude.one_of hash_archive.Prelude.strip
    hash_archive.Hash.Uri.Match.optional_group hash_archive.Hash.Uri.Parse.hex_decode_copy
    hash_archive.Hash.Hex.hex_decode hash_archive.Hash.Hex.hex_char
    hash_archive.Hash.Algo.hash_algo_parse hash_archive.Hash.Hex.hex_byte
respelled_parsed = refl

abbrev evil_found : List Response
evil_found =
    record (renamed 1700000000 7) { latest = true; next = some 1 }
    ∷ record (renamed 1600000000 3) { prev = some 0 }
    ∷ []

latest_evil : hx_get_latest two_responses 1 evil ≡ ok (1700000000, 7)
unfolding hx_get_latest hash_archive.Db.Query.of_url_key
latest_evil = rw url_normalize_surt-evil refl

respelled_found : hx_get_sources two_responses 1 (some asked_uri) zeroed 30 ≡ ok evil_found
unfolding hx_get_sources hash_archive.Db.Query.sources_of hash_archive.Db.Query.sources_from
    hash_archive.Db.Query.or_nothing hash_archive.Db.Query.of_hash_key
    hash_archive.Db.Query.read_response hash_archive.Db.Response.unpack_value
    hash_archive.Db.Response.read_text hash_archive.Db.Response.read_num
    hash_archive.Db.Response.read_digests hash_archive.Db.Response.read_digest
    hash_archive.Hash.Algo.hash_algo_digest_len hash_archive.Db.Response.read_blob
    hash_archive.Db.Query.add_source hash_archive.Db.Query.is_source
    hash_archive.Db.Response.digest_at hash_archive.Prelude.bytes_eq hash_archive.Db.Merge.find_tail
    hash_archive.Db.Merge.merge_url hash_archive.Db.Merge.merge_urls_from res_merge_common_urls
    hash_archive.Db.Merge.set_next hash_archive.Db.Merge.timeidcmp hash_archive.Db.Query.latest_flag
    hash_archive.Db.Response.to_int hash_archive.Db.Response.unpack_status
respelled_found = rw latest_evil refl

shown-unnamed : map unnamed (shown rows) ≡ map unnamed (shown evil_found)
unfolding shown
shown-unnamed = refl

markups-pages_example :
    SameMarkup site
      (λ c. c)
      site-IsConn
      []
      (page_history site history_templates 1800000000 9 page ([], 0))
      (page_history site history_templates 1800000000 9 evil ([], 1))
    × SameMarkup site
        (λ c. c)
        site-IsConn
        []
        (page_sources site sources_templates asked ([], 0))
        (page_sources site sources_templates respelled ([], 1))
markups-pages_example =
    markups-pages site (λ c. c) site-IsConn history_templates sources_templates 1800000000 9 page
      evil asked respelled (codes "5d") history_page sources_page page_url evil_url asked_uri
      (at 1700000000 7 ∷ at 1600000000 3 ∷ []) (renamed 1700000000 7 ∷ renamed 1600000000 3 ∷ [])
      rows evil_found [] 0 1 page_parsed page_scheme page_rows evil_parsed evil_scheme evil_rows
      refl page_text asked_parsed respelled_parsed asked_found respelled_found asked_multihash
      shown-unnamed asked_text
