-- ===== src/Fetch.antt =====
-- src/fetch.c. libasync's HTTP client is the parameter `Http`, OpenSSL the parameter of the hasher.
pub mod Body
pub mod Hops
use hash_archive.Prelude.{
  ℕ, zero, suc, ◌+◌, ◌%◌, ◌^◌, ◌==◌, Bool, true, false, ◌&&◌, Bytes, List, [], ◌∷◌, Option, none,
  some, codes, fit, strlcat, bytes_eq, length, leb, ltb, if◌then◌else◌,
}
use hash_archive.Error.{
  Error, einval, url_eparse, other, uv_eprotonosupport, hx_redirect, Result, ok, err,
}
use hash_archive.Step.{Reading, go_on, ◌>>=◌, pure, lift}
use hash_archive.Url.{Url, Host, is_empty, url_parse, host_parse}
use hash_archive.Db.Response.{ℤ, pos, negsuc, Digests, Response, uri_max, type_max}
use hash_archive.Hasher.{
  Openssl, Hasher, hasher_algos_all, hasher_create, hasher_update, hasher_digests,
}

-- Each call acts on the world. `code` gives the numbers of the errors that src/ does not define.
-- `connect` takes a domain, a port, and whether to use TLS; `write_request` the path and the host.
pub record Http : Type 1 where
  pub World : Type 0
  pub Conn : Type 0
  pub Headers : Type 0
  pub code : Error → ℤ
  pub connect : Bytes → Bytes → Bool → Reading World Conn
  pub write_request : Conn → Bytes → Bytes → Reading World (Unit {0})
  pub write_header : Conn → Bytes → Bytes → Reading World (Unit {0})
  pub set_keep_alive : Conn → Bool → Reading World (Unit {0})
  pub begin_body : Conn → Reading World (Unit {0})
  pub end_message : Conn → Reading World (Unit {0})
  pub read_status : Conn → Reading World ℤ
  pub read_headers : Conn → Reading World Headers
  pub get_header : Headers → Bytes → Option Bytes
  pub read_body : Conn → Reading World Bytes

abbrev pub user_agent : Bytes
user_agent = codes "Hash Archive (https://github.com/btrask/hash-archive)"

abbrev pub redirect_max : ℕ
redirect_max = 5

-- The test for HX_ERR_REDIRECT, -12404.
unfoldable pub is_redirect : ℤ → Bool
is_redirect (pos n) = false
is_redirect (negsuc n) = n == 12403

unfoldable pub secure_of : Bytes → Result Bool
secure_of scheme =
    if bytes_eq scheme (codes "http")
    then ok false
    else if bytes_eq scheme (codes "https")
    then ok true
    else err uv_eprotonosupport

-- The path and the query share the buffer of the path.
unfoldable pub request_path : Url → Bytes
request_path u = strlcat (if is_empty u.path then codes "/" else u.path) u.query 1024

-- `res->status >= 300 && res->status < 400`
unfoldable pub moved : ℤ → Bool
moved (pos n) = leb 300 n && ltb n 400
moved (negsuc n) = false

-- The fields that `url_fetch` sets before the first request.
unfoldable pub blank_response : ℕ → Bytes → Response → Response
blank_response now url out = record out {
  time = now;
  url = fit uri_max url;
  status = pos 0;
  type = [];
  length = 0;
  digests = record { d_md5 = []; d_sha1 = []; d_sha256 = []; d_sha384 = []; d_sha512 = [] };
}

module _ (http : Http) where
  open http use {
    World, Conn, Headers, code, connect, write_request, write_header, set_keep_alive, begin_body,
    end_message, read_status, read_headers, get_header, read_body,
  }

  -- The steps of the chain behind a failure are skipped, among them here `set_keep_alive`.
  unfoldable pub send_get : Bytes → Bytes → Reading World Conn
  send_get url client = lift (url_parse (some url)) >>= λ u.
      lift (host_parse (some u.host)) >>= λ h. lift (secure_of u.scheme) >>= λ secure.
      connect h.domain h.port secure >>= λ conn. write_request conn (request_path u) u.host >>= λ _.
      write_header conn (codes "User-Agent") user_agent >>= λ _.
      write_header conn (codes "Referer") url >>= λ _.
      write_header conn (codes "X-Forwarded-For") client >>= λ _. set_keep_alive conn false >>= λ _.
      begin_body conn >>= λ _. end_message conn >>= λ _. pure conn

  -- What is known after the headers: the connection, the status and the headers.
  unfoldable pub open_response : Bytes → Bytes → Reading World (Conn × ℤ × Headers)
  open_response url client = send_get url client >>= λ conn.
      read_status conn >>= λ status. read_headers conn >>= λ headers. pure (conn, status, headers)

  unfoldable pub location : ℤ → Headers → Option Bytes
  location status headers = if moved status then get_header headers (codes "Location") else none

  unfoldable pub with_type : Option Bytes → Response → Response
  with_type none res = res
  with_type (some t) res = record res { type = fit type_max t }

  -- An error as a number.
  unfoldable pub status_of : Error → ℤ
  status_of hx_redirect = negsuc 12403
  status_of url_eparse = negsuc 15800
  status_of (other n) = negsuc n
  status_of e = code e

  -- `if(rc < 0) { res->status = rc; return 0; }`
  unfoldable pub failed : Error → Response → Response
  failed e res = record res { status = status_of e }

  module _ (ssl : Openssl) where
    abbrev pub updated :
        Result (Hasher ssl)
        → ℕ
        → World
        → (Hasher ssl → ℕ → World → Option (Result (Hasher ssl × ℕ) × World))
        → Option (Result (Hasher ssl × ℕ) × World)
    updated (err e) len w more = some (err e, w)
    updated (ok h) len w more = more h len w

    -- One round of the loop, after the read.
    abbrev pub take_piece :
        Result Bytes × World
        → Hasher ssl
        → ℕ
        → (Hasher ssl → ℕ → World → Option (Result (Hasher ssl × ℕ) × World))
        → Option (Result (Hasher ssl × ℕ) × World)
    take_piece (err e, w) h len more = some (err e, w)
    take_piece (ok [], w) h len more = some (ok (h, len), w)
    take_piece (ok (c ∷ buf), w) h len more =
        updated (hasher_update ssl h (c ∷ buf))
          ((len + hash_archive.Prelude.length (c ∷ buf)) % 2 ^ 64) w more

    -- The loop over the body; `none` if the fuel ends.
    unfoldable pub read_all :
        ℕ → Conn → Hasher ssl → ℕ → World → Option (Result (Hasher ssl × ℕ) × World)
    read_all zero conn h len w = none
    read_all (suc fuel) conn h len w = take_piece (read_body conn w) h len (read_all fuel conn)

    abbrev pub with_digests : Result Digests → Response → Response
    with_digests (err e) res = failed e res
    with_digests (ok ds) res = record res { digests = ds }

    abbrev pub finish :
        Bytes
        → Response
        → Option (Result (Hasher ssl × ℕ) × World)
        → Option ((Bytes × Response) × World)
    finish url res none = none
    finish url res (some (err e, w)) = some ((url, failed e res), w)
    finish url res (some (ok (h, len), w)) =
        some ((url, with_digests (hasher_digests ssl h) (record res { length = len })), w)

    abbrev pub with_hasher :
        Result (Hasher ssl)
        → ℕ
        → Conn
        → Bytes
        → Response
        → World
        → Option ((Bytes × Response) × World)
    with_hasher (err e) fuel conn url res w = some ((url, failed e res), w)
    with_hasher (ok h) fuel conn url res w = finish url res (read_all fuel conn h 0 w)

    unfoldable pub hash_body :
        ℕ → Conn → Bytes → Response → World → Option ((Bytes × Response) × World)
    hash_body fuel conn url res w =
        with_hasher (hasher_create ssl hasher_algos_all) fuel conn url res w

    abbrev pub follow_or_hash :
        Option Bytes
        → ℕ
        → Conn
        → Headers
        → Bytes
        → Response
        → World
        → Option ((Bytes × Response) × World)
    follow_or_hash (some loc) fuel conn headers url res w =
        some ((fit uri_max loc, failed hx_redirect res), w)
    follow_or_hash none fuel conn headers url res w =
        hash_body fuel conn url (with_type (get_header headers (codes "Content-Type")) res) w

    abbrev pub after_headers :
        ℕ
        → Result (Conn × ℤ × Headers) × World
        → Bytes
        → Response
        → Option ((Bytes × Response) × World)
    after_headers fuel (err e, w) url res = some ((url, failed e res), w)
    after_headers fuel (ok (conn, status, headers), w) url res =
        follow_or_hash (location status headers) fuel conn headers url
          (record res { status = status }) w

    -- The URL is a buffer of the caller, into which a redirect is written. The code is always 0.
    unfoldable pub url_fetch_internal :
        ℕ → Bytes → Bytes → Response → World → Option ((Bytes × Response) × World)
    url_fetch_internal fuel url client res w =
        after_headers fuel (open_response url client w) url res

    abbrev pub next_hop :
        Option ((Bytes × Response) × World)
        → (Bytes → Response → World → Option (Response × World))
        → Option (Response × World)
    next_hop none more = none
    next_hop (some ((url, res), w)) more =
        if is_redirect res.status then more url res w else some (res, w)

    unfoldable pub fetch_loop : ℕ → ℕ → Bytes → Bytes → Response → World → Option (Response × World)
    fetch_loop fuel zero client url res w = some (res, w)
    fetch_loop fuel (suc i) client url res w =
        next_hop (url_fetch_internal fuel url client res w) (fetch_loop fuel i client)

    abbrev pub returned : Option (Response × World) → Option (Result Response × World)
    returned none = none
    returned (some (res, w)) = some (ok res, w)

    unfoldable pub url_fetch :
        ℕ → Option Bytes → Bytes → ℕ → Response → World → Option (Result Response × World)
    url_fetch fuel none client now out w = some (err einval, w)
    url_fetch fuel (some url) client now out w =
        returned
          (fetch_loop fuel redirect_max client (fit uri_max url) (blank_response now url out) w)
