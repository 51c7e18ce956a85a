-- ===== src/Tests/Rendered.antt =====
-- The page of a URL with two responses of one content, and the page of a hash.
use hash_archive.Prelude.{
  ℕ, zero, suc, All, Bytes, List, [], ◌∷◌, ◌++◌, map, Option, none, some, true, false, codes, ◌≡◌,
  refl,
}
use hash_archive.Error.{ok}
use hash_archive.Hash.Algo.{sha1}
use hash_archive.Hash.Uri.Parse.{link_hash_uri, link_multihash, HashUri, Base58, hash_uri_parse}
use hash_archive.Hash.Uri.Format.{hash_uri_variant}
use hash_archive.Hash.Hex.{hex_encode}
use hash_archive.Url.{Url, url_parse}
use hash_archive.Db.Response.{pos, Response, Field, num, text, blob, uri_max}
use hash_archive.Db.Merge.{res_merge_common_urls}
use hash_archive.Db.Merge.Urls.{IsFresh, first_urls}
use hash_archive.Db.Store.{
  Kvs, Key, Range, url_surt, algo_hash, url_surt_and_time_id, hash_and_time_id,
}
use hash_archive.Db.Query.{hx_get_sources, hx_get_latest}
use hash_archive.Api.{Event}
use hash_archive.Template.{TemplateStep}
use hash_archive.Page.{Tm, suffix_of}
use hash_archive.Page.Args.{history_values, history_args_lem}
use hash_archive.Page.Site.{Site, zeroed}
use hash_archive.Page.Output.{IsConn, Answered}
use hash_archive.Page.History.{HistoryTemplates, check_scheme, is_outdated, page_history}
use hash_archive.Page.History.Runs.{runs}
use hash_archive.Page.History.Written.{history_text, after_queue}
use hash_archive.Page.History.Whole.{AreRows, page_history-runs}
use hash_archive.Page.Sources.{SourcesTemplates, or_empty, page_sources}
use hash_archive.Page.Sources.Link.{sources_values}
use hash_archive.Page.Sources.Written.{shown, sources_text, page_sources-urls}
use hash_archive.Tests.Queues.{page, surt, page-surt}

abbrev long_digest : Bytes
long_digest =
    0 ∷ 1 ∷ 2 ∷ 3 ∷ 4 ∷ 5 ∷ 6 ∷ 7 ∷ 8 ∷ 9 ∷ 10 ∷ 11 ∷ 12 ∷ 13 ∷ 14 ∷ 15 ∷ 16 ∷ 17 ∷ 18 ∷ 19 ∷ []

abbrev pub evil : Bytes
evil = codes "http://a.org/\"><i>"

-- The first database has the responses of `page`, the others have them under another URL.
abbrev stored_url : ℕ → Bytes
stored_url zero = page
stored_url (suc n) = evil

abbrev stored : Bytes → List Field
stored url =
    text url
    ∷ num 65735
    ∷ text (codes "text/html")
    ∷ num 6
    ∷ num 0
    ∷ blob []
    ∷ num 20
    ∷ blob long_digest
    ∷ num 0
    ∷ blob []
    ∷ num 0
    ∷ blob []
    ∷ num 0
    ∷ blob []
    ∷ []

abbrev pub at : ℕ → ℕ → Response
at time id = record {
  time = time;
  id = id;
  url = page;
  status = pos 200;
  type = codes "text/html";
  length = 5;
  digests = record {
    d_md5 = [];
    d_sha1 = long_digest;
    d_sha256 = [];
    d_sha384 = [];
    d_sha512 = [];
  };
  next = none;
  prev = none;
  latest = false;
}

abbrev pub renamed : ℕ → ℕ → Response
renamed time id = record (at time id) { url = evil }

abbrev pub keys_of : Range → List Key
keys_of (url_surt s) =
    url_surt_and_time_id surt 1700000000 7 ∷ url_surt_and_time_id surt 1600000000 3 ∷ []
keys_of (algo_hash a h) =
    hash_and_time_id sha1 (0 ∷ 1 ∷ 2 ∷ 3 ∷ 4 ∷ 5 ∷ 6 ∷ 7 ∷ []) 1700000000 7
    ∷ hash_and_time_id sha1 (0 ∷ 1 ∷ 2 ∷ 3 ∷ 4 ∷ 5 ∷ 6 ∷ 7 ∷ []) 1600000000 3
    ∷ []
keys_of r = []

abbrev pub two_responses : Kvs
two_responses = record {
  Txn = ℕ;
  get = λ t k. ok (stored (stored_url t));
  put = λ t k v. ok t;
  put_new = λ t k v. ok t;
  del = λ t k. ok t;
  newest = λ t r. ok (url_surt_and_time_id surt 1700000000 7);
  keys_down = λ t r. ok (keys_of r);
  keys_from = λ t r k dir. ok (keys_of r);
}

abbrev pub site : Site
site = record {
  kvs = two_responses;
  b58 = record { encode = λ b n. some (codes "5d"); decode = λ b n. none };
  gmtime = λ t. record { tm_mday = 1; tm_mon = 4; tm_year = 116 };
  statusstr = λ n. codes "OK";
  lib_strerror = λ n. codes "error";
  Conn = List Event;
  send = λ e c. (ok tt, c ++ e ∷ []);
}

pub site-IsConn : IsConn site (λ c. c)
site-IsConn = record { succeeds = λ e c. refl; adds = λ e c. refl }

abbrev only : Bytes → List TemplateStep
only str = record { str = str; var = none } ∷ []

abbrev with_one : Bytes → Bytes → List TemplateStep
with_one str name = record { str = str; var = some name } ∷ []

abbrev pub history_templates : HistoryTemplates
history_templates = record {
  header = with_one (codes "History of ") (codes "query");
  footer = only (codes ".");
  entry = with_one (codes ": ") (codes "date") ++ with_one [] (codes "dates");
  error = with_one (codes "! ") (codes "error");
  outdated = only (codes "?");
}

abbrev pub history_page : Bytes
history_page =
    codes
      "History of http:&#x2F;&#x2F;a.org&#x2F;?: <div class=\"date\">As of May 1<sup>st</sup>, 2016</div><div class=\"date\">Also seen May 1<sup>st</sup>, 2016</div>."

abbrev pub page_url : Url
page_url = record { scheme = codes "http"; host = codes "a.org"; path = codes "/"; query = [] }

pub page_parsed : url_parse (some page) ≡ ok page_url
unfolding url_parse hash_archive.Url.parse_text hash_archive.Url.absolute
    hash_archive.Url.scan_absolute hash_archive.Url.Scan.run hash_archive.Prelude.strip
    hash_archive.Url.scan_host hash_archive.Url.check_url hash_archive.Url.scan_path
    hash_archive.Prelude.to_lower
page_parsed = refl

pub page_scheme : check_scheme page_url ≡ ok tt
unfolding check_scheme hash_archive.Prelude.case_eq
page_scheme = refl

pub page_rows : AreRows two_responses 0 page (at 1700000000 7 ∷ at 1600000000 3 ∷ [])
unfolding hash_archive.Db.Query.unless_notfound hash_archive.Db.Query.history_from
    hash_archive.Db.Query.of_url_key hash_archive.Db.Query.read_response
    hash_archive.Db.Response.unpack_value hash_archive.Db.Response.read_text
    hash_archive.Db.Response.read_num hash_archive.Db.Response.read_digests
    hash_archive.Db.Response.read_digest hash_archive.Hash.Algo.hash_algo_digest_len
    hash_archive.Db.Response.read_blob hash_archive.Db.Response.unpack_status
page_rows = record {
  surt = surt;
  keys = keys_of (url_surt surt);
  normal = page-surt;
  found = refl;
  rows = refl;
}

pub page_text :
    history_text site history_templates
      (history_values page)
      (is_outdated (at 1700000000 7 ∷ at 1600000000 3 ∷ []) 1800000000)
      (runs (at 1700000000 7 ∷ at 1600000000 3 ∷ []))
    ≡ some history_page
unfolding history_text history_values is_outdated hash_archive.Queue.is_due runs
    hash_archive.Page.History.Runs.runs_from hash_archive.Db.Merge.res_content_eq
    hash_archive.Db.Merge.match_digests hash_archive.Db.Response.digest_at
    hash_archive.Page.History.Written.section_value hash_archive.Page.Output.with_values
    hash_archive.Template.Written.value_of hash_archive.Prelude.bytes_eq
    hash_archive.Html.Laws.escaped hash_archive.Html.entity hash_archive.Page.date_html
    hash_archive.Page.months hash_archive.Page.suffix_of hash_archive.Page.decimal_from
page_text = refl

page_history-runs_example :
    (c' : List Event) × (page_history site history_templates 1800000000 9 page ([], 0) ≡ (
      (after_queue site
          (is_outdated (at 1700000000 7 ∷ at 1600000000 3 ∷ []) 1800000000)
          1800000000
          9
          page
          0).0,
      (
        c',
        (after_queue site
            (is_outdated (at 1700000000 7 ∷ at 1600000000 3 ∷ []) 1800000000)
            1800000000
            9
            page
            0).1,
      ),
    ))
    × Answered site (λ c. c) site-IsConn [] history_page c'
page_history-runs_example =
    page_history-runs site (λ c. c) site-IsConn history_templates 1800000000 9 page history_page
      page_url (at 1700000000 7 ∷ at 1600000000 3 ∷ []) [] 0 page_parsed page_scheme page_rows
      page_text

abbrev pub sources_templates : SourcesTemplates
sources_templates = record {
  header = with_one (codes "Sources of ") (codes "query");
  footer = with_one (codes " ") (codes "ipfs-block-url");
  entry = with_one (codes ": ") (codes "date") ++ with_one [] (codes "obsolete");
}

abbrev pub asked : Bytes
asked = codes "hash://sha1/0001"

abbrev pub asked_uri : HashUri
asked_uri = record { type = link_hash_uri; algo = some sha1; buf = 0 ∷ 1 ∷ [] }

abbrev pub rows : List Response
rows =
    record (at 1700000000 7) { latest = true; next = some 1 }
    ∷ record (at 1600000000 3) { prev = some 0 }
    ∷ []

pub asked_parsed : hash_uri_parse (Site.b58 site) (some asked) ≡ ok asked_uri
unfolding hash_archive.Hash.Uri.Parse.hash_uri_parse
    hash_archive.Hash.Uri.Parse.hash_uri_parse_hash_uri hash_archive.Hash.Uri.Match.match_hash_uri
    hash_archive.Prelude.strip_case hash_archive.Prelude.span hash_archive.Prelude.is_alnum
    hash_archive.Prelude.one_of hash_archive.Prelude.strip
    hash_archive.Hash.Uri.Match.optional_group hash_archive.Hash.Uri.Parse.hex_decode_copy
    hash_archive.Hash.Hex.hex_decode hash_archive.Hash.Hex.hex_char
    hash_archive.Hash.Algo.hash_algo_parse hash_archive.Hash.Hex.hex_byte
asked_parsed = refl

latest_one : hx_get_latest two_responses 0 page ≡ ok (1700000000, 7)
unfolding hx_get_latest hash_archive.Db.Query.of_url_key
latest_one = rw page-surt refl

pub asked_found : hx_get_sources two_responses 0 (some asked_uri) zeroed 30 ≡ ok rows
unfolding hx_get_sources hash_archive.Db.Query.sources_of hash_archive.Db.Query.sources_from
    hash_archive.Db.Query.or_nothing hash_archive.Db.Query.of_hash_key
    hash_archive.Db.Query.read_response hash_archive.Db.Response.unpack_value
    hash_archive.Db.Response.read_text hash_archive.Db.Response.read_num
    hash_archive.Db.Response.read_digests hash_archive.Db.Response.read_digest
    hash_archive.Hash.Algo.hash_algo_digest_len hash_archive.Db.Response.read_blob
    hash_archive.Db.Query.add_source hash_archive.Db.Query.is_source
    hash_archive.Db.Response.digest_at hash_archive.Prelude.bytes_eq hash_archive.Db.Merge.find_tail
    hash_archive.Db.Merge.merge_url hash_archive.Db.Merge.merge_urls_from res_merge_common_urls
    hash_archive.Db.Merge.set_next hash_archive.Db.Merge.timeidcmp hash_archive.Db.Query.latest_flag
    hash_archive.Db.Response.to_int hash_archive.Db.Response.unpack_status
asked_found = rw latest_one refl

pub asked_multihash :
    or_empty (hash_uri_variant (Site.b58 site) asked_uri link_multihash uri_max) ≡ ok (codes "5d")
unfolding hash_uri_variant hash_archive.Hash.Uri.Format.hash_uri_format
    hash_archive.Hash.Uri.Format.uri_text hash_archive.Hash.Uri.Format.multihash_text
    hash_archive.Hash.Algo.multihash_algo_encode hash_archive.Hash.Uri.Format.b58_encode
    hash_archive.Hash.Uri.Format.snprintf
asked_multihash = refl

abbrev pub sources_page : Bytes
sources_page =
    codes
      "Sources of hash:&#x2F;&#x2F;sha1&#x2F;0001: <div class=\"date\">Active as of May 1<sup>st</sup>, 2016</div> https://ipfs.io/api/v0/block/get?arg=5d"

pub asked_text :
    sources_text site sources_templates
      (sources_values asked link_hash_uri (hex_encode (0 ∷ 1 ∷ []) 129) (codes "5d"))
      (shown rows)
    ≡ some sources_page
unfolding sources_text sources_values shown hash_archive.Page.Sources.Written.source_value
    hash_archive.Page.Args.ipfs_url_of hash_archive.Page.Output.with_values
    hash_archive.Template.Written.value_of hash_archive.Prelude.bytes_eq
    hash_archive.Html.Laws.escaped hash_archive.Html.entity hash_archive.Page.date_html
    hash_archive.Page.months hash_archive.Page.suffix_of hash_archive.Page.decimal_from
asked_text = refl

page_sources-urls_example :
    (c' : List Event) × (page_sources site sources_templates asked ([], 0) ≡ (ok tt, (c', 0)))
    × Answered site (λ c. c) site-IsConn [] sources_page c'
    × ((rs : List Response) × All IsFresh rs
        × (rows ≡ res_merge_common_urls rs)
        × (map Response.url (shown rows) ≡ first_urls [] rs))
page_sources-urls_example =
    page_sources-urls site (λ c. c) site-IsConn sources_templates asked (codes "5d") sources_page
      asked_uri rows [] 0 asked_parsed asked_found asked_multihash asked_text
