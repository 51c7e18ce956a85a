-- ===== src/Tests/Pages.antt =====
-- URLs, pages and stored responses, at concrete inputs.
use hash_archive.Prelude.{
  ℕ, ◌<◌, ◌≤◌, ◌^◌, ◌++◌, Bytes, [], ◌∷◌, List, Option, none, some, codes, length, All, true, false,
  Bool, one_of, is_digit, ◌≡◌, ◌≢◌, refl, arith,
}
use hash_archive.Error.{ok}
use hash_archive.Path.{path_subpath_secure}
use hash_archive.Path.Inside.{levels, components, path_subpath_secure-inside}
use hash_archive.Html.{html_encode}
use hash_archive.Html.Laws.{IsSafe, html_encode-IsSafe, escaped, html_encode-escaped}
use hash_archive.Url.{Url, url_parse, url_text, url_normalize}
use hash_archive.Url.Surt.{domain_reverse}
use hash_archive.Url.Laws.{url_normalize_again, dotted, reversed, IsLabel, domain_reverse-dotted}
use hash_archive.Db.Response.{
  ℤ, pos, negsuc, Digests, Response, Field, text, num, blob, pack_value, unpack_value, unpack-pack,
}
use hash_archive.Db.Merge.{res_merge_common_urls}
use hash_archive.Db.Merge.Urls.{heads, first_urls, heads-merge_common_urls}

abbrev page : Url
page = record { scheme = codes "http"; host = codes "a.org"; path = codes "/B"; query = codes "?c" }

abbrev loud_page : Bytes
loud_page = codes "HTTP://A.org/B?c#d"

loud_page_parsed : url_parse (some loud_page) ≡ ok page
unfolding url_parse hash_archive.Url.parse_text hash_archive.Url.absolute
    hash_archive.Url.scan_absolute hash_archive.Url.Scan.run hash_archive.Prelude.strip
    hash_archive.Url.scan_host hash_archive.Url.check_url hash_archive.Url.scan_path
    hash_archive.Prelude.to_lower
loud_page_parsed = refl

loud_page_normalized : url_normalize (some loud_page) 1024 ≡ ok (codes "http://a.org/B?c")
unfolding url_normalize url_parse hash_archive.Url.parse_text hash_archive.Url.absolute
    hash_archive.Url.scan_absolute hash_archive.Url.Scan.run hash_archive.Prelude.strip
    hash_archive.Url.scan_host hash_archive.Url.check_url hash_archive.Url.scan_path
    hash_archive.Url.url_format hash_archive.Url.print_fits hash_archive.Prelude.to_lower
loud_page_normalized = refl

url_normalize_again_example :
    (url_parse (some (codes "http://a.org/B?c")) ≡ ok page)
    × (url_normalize (some (codes "http://a.org/B?c")) 1024 ≡ ok (codes "http://a.org/B?c"))
url_normalize_again_example =
    url_normalize_again loud_page (codes "http://a.org/B?c") page 1024 loud_page_parsed refl
      loud_page_normalized

abbrev domain : List Bytes
domain = codes "a" ∷ codes "x" ∷ codes "co" ∷ []

domain-IsLabel : All IsLabel domain
unfolding one_of is_digit
domain-IsLabel = ((refl, (refl, tt)), ((refl, (refl, tt)), ((refl, (refl, (refl, tt))), tt)))

domain_reverse-dotted_example :
    domain_reverse (some (dotted domain)) 256 ≡ ok (codes "(" ++ (reversed domain ++ codes ")"))
unfolding reversed
domain_reverse-dotted_example =
    domain_reverse-dotted domain domain-IsLabel (omega arith) (omega arith)

html_encode-escaped_example : html_encode (some (codes "<b>")) ≡ some (ok (escaped (codes "<b>")))
html_encode-escaped_example = html_encode-escaped (codes "<b>")

html_encode-IsSafe_example : All IsSafe (escaped (codes "a<b"))
html_encode-IsSafe_example =
    html_encode-IsSafe (codes "a<b") (escaped (codes "a<b")) (html_encode-escaped (codes "a<b"))

abbrev no_digests : Digests
no_digests = record { d_md5 = []; d_sha1 = []; d_sha256 = []; d_sha384 = []; d_sha512 = [] }

abbrev some_digests : Digests
some_digests = record no_digests { d_sha1 = 1 ∷ 2 ∷ 3 ∷ [] }

abbrev response : ℕ → Bytes → Digests → Response
response id url digests = record {
  time = 1700000000;
  id = id;
  url = url;
  status = pos 200;
  type = codes "text/html";
  length = 5;
  digests = digests;
  next = none;
  prev = none;
  latest = false;
}

abbrev stored : List Field
stored =
    text (codes "http://a.org/")
    ∷ num 65735
    ∷ text (codes "text/html")
    ∷ num 6
    ∷ num 0
    ∷ blob []
    ∷ num 3
    ∷ blob (1 ∷ 2 ∷ 3 ∷ [])
    ∷ num 0
    ∷ blob []
    ∷ num 0
    ∷ blob []
    ∷ num 0
    ∷ blob []
    ∷ []

packed : pack_value (response 4 (codes "http://a.org/") some_digests) ≡ ok stored
unfolding pack_value hash_archive.Db.Response.pack_status hash_archive.Db.Response.pack_digests
    hash_archive.Db.Response.pack_digest hash_archive.Hash.Algo.hash_algo_digest_len
packed = refl

unpack-pack_example :
    unpack_value stored (response 9 [] no_digests)
    ≡ ok (record (response 9 [] no_digests) { url = codes "http://a.org/"; digests = some_digests })
unpack-pack_example =
    unpack-pack (response 4 (codes "http://a.org/") some_digests) (response 9 [] no_digests) stored
      (omega arith) (omega arith) (omega arith) (omega arith) packed

abbrev results : List Response
results =
    response 1 (codes "a") no_digests
    ∷ response 2 (codes "b") no_digests
    ∷ response 3 (codes "a") no_digests
    ∷ []

heads-merge_common_urls_example : heads (res_merge_common_urls results) ≡ first_urls [] results
heads-merge_common_urls_example =
    heads-merge_common_urls results ((refl, refl), ((refl, refl), ((refl, refl), tt)))

style_path :
    path_subpath_secure (some (codes "/srv")) (some (codes "/css/a.css")) 64
    ≡ ok (codes "/srv//css/a.css")
unfolding path_subpath_secure hash_archive.Path.subpath_secure hash_archive.Path.begins_with
    hash_archive.Path.has_dots
style_path = refl

path_subpath_secure-inside_example :
    (codes "/srv//css/a.css" ≡ codes "/srv" ++ (codes "/" ++ codes "/css/a.css"))
    × (d : ℕ) × (levels 0 (components (codes "/css/a.css")) ≡ some d)
path_subpath_secure-inside_example =
    path_subpath_secure-inside (codes "/srv") (codes "/css/a.css") (codes "/srv//css/a.css") 64
      style_path
