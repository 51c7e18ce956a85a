-- ===== src/Tests/Fetches.antt =====
-- Fetches from a server that redirects for ever, from one that has a page, and from none.
use hash_archive.Prelude.{
  ℕ, zero, suc, ◌+◌, Bytes, List, [], ◌∷◌, Option, none, some, codes, fit, take, bytes_eq,
  if◌then◌else◌, ◌≡◌, refl, arith,
}
use hash_archive.Error.{Error, uv_enoent, Result, ok, err}
use hash_archive.Hash.Algo.{hash_algo_digest_len}
use hash_archive.Db.Response.{ℤ, pos, negsuc}
use hash_archive.Fetch.{
  Http, url_fetch, open_response, location, failed, blank_response, is_redirect, status_of,
  with_type,
}
use hash_archive.Fetch.Body.{Body, ends, piece, with_body}
use hash_archive.Fetch.Hops.{Hops, here, hop, url_fetch-Hops, url_fetch-failed, url_fetch-with_body}
use hash_archive.Tests.Archive.{response}
use hash_archive.Tests.Imports.{checksum, checksum-IsDigest}

abbrev site : Bytes
site = codes "http://a/"

-- The world counts the reads; the body is two bytes in two pieces.
abbrev body : ℕ → Result Bytes × ℕ
body zero = (ok (7 ∷ []), 1)
body (suc zero) = (ok (8 ∷ []), 2)
body (suc (suc n)) = (ok [], suc (suc n))

abbrev server : ℤ → Option Bytes → Http
server status to = record {
  World = ℕ;
  Conn = Unit {0};
  Headers = Unit {0};
  code = λ e. negsuc 1;
  connect = λ d p s w. (ok tt, w);
  write_request = λ c p h w. (ok tt, w);
  write_header = λ c k v w. (ok tt, w);
  set_keep_alive = λ c b w. (ok tt, w);
  begin_body = λ c w. (ok tt, w);
  end_message = λ c w. (ok tt, w);
  read_status = λ c w. (ok status, w);
  read_headers = λ c w. (ok tt, w);
  get_header = λ h k. if bytes_eq k (codes "Location") then to else none;
  read_body = λ c w. body w;
}

-- One that is not there.
abbrev no_server : Http
no_server = record (server (pos 200) none) { connect = λ d p s w. (err uv_enoent, suc w) }

abbrev looping : Http
looping = server (pos 301) (some site)

abbrev page_server : Http
page_server = server (pos 200) none

opened : open_response page_server site [] 0 ≡ (ok (tt, pos 200, tt), 0)
unfolding open_response hash_archive.Fetch.send_get hash_archive.Url.url_parse
    hash_archive.Url.parse_text hash_archive.Url.absolute hash_archive.Url.scan_absolute
    hash_archive.Url.Scan.run hash_archive.Prelude.strip hash_archive.Url.scan_host
    hash_archive.Url.check_url hash_archive.Url.scan_path hash_archive.Url.host_parse
    hash_archive.Prelude.is_alnum hash_archive.Prelude.to_lower hash_archive.Fetch.secure_of
    bytes_eq
opened = refl

not_moved : location page_server (pos 200) tt ≡ none
unfolding location hash_archive.Fetch.moved
not_moved = refl

moved_again : open_response looping site [] 0 ≡ (ok (tt, pos 301, tt), 0)
unfolding open_response hash_archive.Fetch.send_get hash_archive.Url.url_parse
    hash_archive.Url.parse_text hash_archive.Url.absolute hash_archive.Url.scan_absolute
    hash_archive.Url.Scan.run hash_archive.Prelude.strip hash_archive.Url.scan_host
    hash_archive.Url.check_url hash_archive.Url.scan_path hash_archive.Url.host_parse
    hash_archive.Prelude.is_alnum hash_archive.Prelude.to_lower hash_archive.Fetch.secure_of
    bytes_eq
moved_again = refl

to_itself : location looping (pos 301) tt ≡ some site
unfolding location hash_archive.Fetch.moved bytes_eq
to_itself = refl

not_there : open_response no_server site [] 0 ≡ (err uv_enoent, 1)
unfolding open_response hash_archive.Fetch.send_get hash_archive.Url.url_parse
    hash_archive.Url.parse_text hash_archive.Url.absolute hash_archive.Url.scan_absolute
    hash_archive.Url.Scan.run hash_archive.Prelude.strip hash_archive.Url.scan_host
    hash_archive.Url.check_url hash_archive.Url.scan_path hash_archive.Url.host_parse
    hash_archive.Prelude.is_alnum hash_archive.Prelude.to_lower hash_archive.Fetch.secure_of
    bytes_eq
not_there = refl

five : Hops looping [] 5 site 0 site 0
five = hop 4 site site site 0 0 0 tt (pos 301) tt moved_again to_itself (
    hop 3 site site site 0 0 0 tt (pos 301) tt moved_again to_itself (
      hop 2 site site site 0 0 0 tt (pos 301) tt moved_again to_itself (
        hop 1 site site site 0 0 0 tt (pos 301) tt moved_again to_itself
          (hop 0 site site site 0 0 0 tt (pos 301) tt moved_again to_itself (here site 0)))))

url_fetch-Hops_example :
    url_fetch looping checksum 3 (some site) [] 1700000000 response 0
    ≡ some (
      ok (failed looping hash_archive.Error.hx_redirect (blank_response 1700000000 site response)),
      0,
    )
url_fetch-Hops_example = url_fetch-Hops looping checksum 3 1700000000 site [] site response 0 0 five

unavailable : is_redirect (status_of no_server uv_enoent) ≡ hash_archive.Prelude.false
unfolding is_redirect status_of
unavailable = refl

url_fetch-failed_example :
    url_fetch no_server checksum 3 (some site) [] 1700000000 response 0
    ≡ some (
      ok (record response {
        time = 1700000000;
        url = fit 1024 site;
        status = status_of no_server uv_enoent;
        type = [];
        length = 0;
        digests = record { d_md5 = []; d_sha1 = []; d_sha256 = []; d_sha384 = []; d_sha512 = [] };
      }),
      1,
    )
url_fetch-failed_example =
    url_fetch-failed no_server checksum 3 1700000000 0 site [] site response 0 0 1 uv_enoent
      (here site 0) (omega arith) not_there unavailable

two_pieces : Body page_server tt 0 ((7 ∷ []) ∷ (8 ∷ []) ∷ []) 2
two_pieces = piece 0 1 2 7 [] ((8 ∷ []) ∷ []) refl (piece 1 2 2 8 [] [] refl (ends 2 2 refl))

url_fetch-with_body_example :
    url_fetch page_server checksum 3 (some site) [] 1700000000 response 0
    ≡ some (
      ok (
          with_body page_server checksum
            (λ a t. take (hash_algo_digest_len a) t)
            (λ a s t. s ≡ t)
            checksum-IsDigest
            ((7 ∷ []) ∷ (8 ∷ []) ∷ [])
            (with_type page_server none
              (record (blank_response 1700000000 site response) { status = pos 200 }))),
      2,
    )
unfolding bytes_eq
url_fetch-with_body_example =
    url_fetch-with_body page_server checksum (λ a t. take (hash_algo_digest_len a) t)
      (λ a s t. s ≡ t) checksum-IsDigest 3 1700000000 0 200 site [] site response 0 0 0 2 tt tt
      ((7 ∷ []) ∷ (8 ∷ []) ∷ []) (here site 0) (omega arith) opened not_moved two_pieces
      (omega arith)
