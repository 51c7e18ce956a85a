-- ===== src/Tests/Routes.antt =====
-- A lookup of a hash, and the file of a style sheet.
use hash_archive.Prelude.{ℕ, Bytes, none, some, ◌++◌, codes, ◌⊎◌, ◌≡◌, refl, arith}
use hash_archive.Error.{ok}
use hash_archive.Hash.Uri.Parse.{Base58}
use hash_archive.Hash.Uri.Format.{hash_uri_normalize}
use hash_archive.Url.{Url, url_parse}
use hash_archive.Path.Inside.{levels, components}
use hash_archive.Server.{redirect, lookup_answer, static_file}
use hash_archive.Server.Lookup.{Served, route-lookup_answer}
use hash_archive.Server.Static.{static_file-inside}

abbrev no_base58 : Base58
no_base58 = record { encode = λ b n. none; decode = λ b n. none }

abbrev asked : Bytes
asked = codes "hash://sha1/00"

normalized : hash_uri_normalize no_base58 (some asked) 1024 ≡ ok asked
unfolding hash_uri_normalize hash_archive.Hash.Uri.Parse.hash_uri_parse
    hash_archive.Hash.Uri.Parse.hash_uri_parse_hash_uri hash_archive.Hash.Uri.Match.match_hash_uri
    hash_archive.Prelude.strip_case hash_archive.Prelude.span hash_archive.Prelude.is_alnum
    hash_archive.Prelude.one_of hash_archive.Prelude.strip
    hash_archive.Hash.Uri.Match.optional_group hash_archive.Hash.Uri.Parse.hex_decode_copy
    hash_archive.Hash.Hex.hex_decode hash_archive.Hash.Hex.hex_char
    hash_archive.Hash.Algo.hash_algo_parse hash_archive.Hash.Hex.hex_byte
    hash_archive.Hash.Uri.Format.hash_uri_format hash_archive.Hash.Uri.Format.uri_text
    hash_archive.Hash.Uri.Format.snprintf hash_archive.Hash.Algo.hash_algo_names
    hash_archive.Hash.Hex.hex_encode hash_archive.Hash.Hex.hex_hi hash_archive.Hash.Hex.hex_lo
normalized = refl

redirected : lookup_answer no_base58 asked ≡ redirect (codes "/sources/hash://sha1/00")
unfolding lookup_answer
redirected = rw normalized refl

route-lookup_answer_example : Served no_base58 asked (lookup_answer no_base58 asked)
route-lookup_answer_example =
    route-lookup_answer no_base58 b'h' (codes "ash://sha1/00") (omega arith) (ground arith)

style : static_file (codes "/style.css") ≡ ok (codes "./static//style.css")
unfolding static_file url_parse hash_archive.Url.parse_text hash_archive.Url.host_relative
    hash_archive.Url.scan_path hash_archive.Url.Scan.run hash_archive.Url.check_url
    hash_archive.Path.path_subpath_secure hash_archive.Path.subpath_secure
    hash_archive.Path.begins_with hash_archive.Path.has_dots
style = refl

static_file-inside_example :
    (u : Url) × (url_parse (some (codes "/style.css")) ≡ ok u)
    × (codes "./static//style.css" ≡ codes "./static" ++ (codes "/" ++ u.path))
    × (d : ℕ) × (levels 0 (components u.path) ≡ some d)
static_file-inside_example =
    static_file-inside (codes "/style.css") (codes "./static//style.css") style
