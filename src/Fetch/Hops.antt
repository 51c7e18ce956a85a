-- ===== src/Fetch/Hops.antt =====
-- Redirects: a fetch sends at most five requests, and always leaves a status.
use hash_archive.Prelude.{
  ℕ, zero, suc, ◌+◌, ◌-◌, ◌<◌, false, Bytes, List, [], Option, none, some, fit, codes, length, ◌≡◌,
  refl, ap, ◌∙◌, arith,
}
use hash_archive.Error.{Error, ok, err, hx_redirect}
use hash_archive.Hash.Algo.{Algo}
use hash_archive.Db.Response.{ℤ, pos, Response, uri_max}
use hash_archive.Hasher.{Openssl}
use hash_archive.Hasher.Whole.{IsDigest}
use hash_archive.Fetch.{
  Http, is_redirect, blank_response, open_response, location, with_type, status_of, failed,
  url_fetch_internal, fetch_loop, returned, url_fetch,
}
use hash_archive.Fetch.Body.{Body, with_body, hash_body_lem}

module _ (http : Http) where
  open http use {World, Conn, Headers, get_header}

  -- `n` requests in a row that are answered by a redirect: from the first URL and world to the last.
  pub data Hops (client : Bytes) : ℕ → Bytes → World → Bytes → World → Type 0 where
    here : (url : Bytes) (w : World) → Hops client 0 url w url w
    hop :
        (n : ℕ) (url loc url' : Bytes) (w w1 w' : World) (conn : Conn) (status : ℤ)
        (headers : Headers)
        → open_response http url client w ≡ (ok (conn, status, headers), w1)
        → location http status headers ≡ some loc
        → Hops client n (fit uri_max loc) w1 url' w'
        → Hops client (suc n) url w url' w'

  typed_status :
      (t : Option Bytes) (res : Response) (st : ℕ)
      → is_redirect (Response.status (with_type http t (record res { status = pos st }))) ≡ false
  unfolding with_type is_redirect
  typed_status none res st = refl
  typed_status (some t) res st = refl

  module _ (ssl : Openssl) where
    -- What the response is after `n` redirects.
    abbrev redirected : ℕ → Response → Response
    redirected zero res = res
    redirected (suc n) res = failed http hx_redirect res

    redirected_again :
        (n : ℕ) (res : Response)
        → redirected n (failed http hx_redirect res) ≡ redirected (suc n) res
    unfolding failed
    redirected_again zero res = refl
    redirected_again (suc n) res = refl

    internal_redirect :
        (fuel : ℕ) (client url loc : Bytes) (res : Response) (w w1 : World) (conn : Conn)
        (status : ℤ) (headers : Headers)
        → open_response http url client w ≡ (ok (conn, status, headers), w1)
        → location http status headers ≡ some loc
        → url_fetch_internal http ssl fuel url client res w
          ≡ some ((fit uri_max loc, failed http hx_redirect res), w1)
    unfolding url_fetch_internal failed
    internal_redirect fuel client url loc res w w1 conn status headers e f = rw (e, f) refl

    fetch_loop-Hops :
        (fuel i k n : ℕ) (client url url' : Bytes) (res : Response) (w w' : World)
        → Hops client n url w url' w'
        → i ≡ n + k
        → fetch_loop http ssl fuel i client url res w
          ≡ fetch_loop http ssl fuel k client url' (redirected n res) w'
    unfolding fetch_loop is_redirect status_of failed
    fetch_loop-Hops fuel i k zero client url url' res w w' (here _ _) same =
        ap (λ j. fetch_loop http ssl fuel j client url res w) (omega arith)
    fetch_loop-Hops fuel zero k (suc n) client url url' res w w' hops same = absurd (omega arith)
    fetch_loop-Hops fuel (suc i) k (suc n) client url url' res w w'
          (hop _ _ loc _ _ w1 _ conn status headers e f hops) same =
        rw (internal_redirect fuel client url loc res w w1 conn status headers e f) (
          fetch_loop-Hops fuel i k n client (fit uri_max loc) url' (failed http hx_redirect res) w1
            w' hops (omega arith)
          ∙ ap (λ r. fetch_loop http ssl fuel k client url' r w') (redirected_again n res))

    restored :
        (n : ℕ) (res : Response) (s : ℤ)
        → record (redirected n res) { status = s } ≡ record res { status = s }
    unfolding failed
    restored zero res s = refl
    restored (suc n) res s = refl

    last_hop :
        (fuel k : ℕ) (client url url' : Bytes) (res res' : Response) (w w' : World)
        → url_fetch_internal http ssl fuel url client res w ≡ some ((url', res'), w')
        → is_redirect res'.status ≡ false
        → fetch_loop http ssl fuel (suc k) client url res w ≡ some (res', w')
    unfolding fetch_loop
    last_hop fuel k client url url' res res' w w' e f = rw (e, f) refl

    fetch_ends :
        (fuel now n : ℕ) (url client url' url'' : Bytes) (out res' : Response) (w w1 w2 : World)
        → Hops client n (fit uri_max url) w url' w1
        → n < 5
        → url_fetch_internal http ssl fuel url' client
            (redirected n (blank_response now url out))
            w1
          ≡ some ((url'', res'), w2)
        → is_redirect res'.status ≡ false
        → url_fetch http ssl fuel (some url) client now out w ≡ some (ok res', w2)
    unfolding url_fetch
    fetch_ends fuel now n url client url' url'' out res' w w1 w2 hops few e f =
        ap (returned http ssl) (
          fetch_loop-Hops fuel 5 (suc (4 - n)) n client (fit uri_max url) url'
            (blank_response now url out) w w1 hops (omega arith)
          ∙ last_hop fuel (4 - n) client url' url'' (redirected n (blank_response now url out)) res'
              w1 w2 e f)

    -- After five redirects the response is the error `too many redirects`, and no sixth request is
    -- sent: the world is that of the fifth answer.
    pub url_fetch-Hops :
        (fuel now : ℕ) (url client url' : Bytes) (out : Response) (w w' : World)
        → Hops client 5 (fit uri_max url) w url' w'
        → url_fetch http ssl fuel (some url) client now out w
          ≡ some (ok (failed http hx_redirect (blank_response now url out)), w')
    unfolding url_fetch fetch_loop
    url_fetch-Hops fuel now url client url' out w w' hops =
        rw
          (fetch_loop-Hops fuel 5 0 5 client (fit uri_max url) url' (blank_response now url out) w
            w' hops (omega arith))
          refl

    -- Behind fewer than five redirects, a request that fails with another code than that for too many
    -- redirects is no failure of the fetch: the code's number is the status of the response, which has
    -- the time given, the URL asked for, cut to its buffer, and an empty type, length 0 and no digest,
    -- whatever the response held before.
    pub url_fetch-failed :
        (fuel now n : ℕ) (url client url' : Bytes) (out : Response) (w w1 w2 : World) (e : Error)
        → Hops client n (fit uri_max url) w url' w1
        → n < 5
        → open_response http url' client w1 ≡ (err e, w2)
        → is_redirect (status_of http e) ≡ false
        → url_fetch http ssl fuel (some url) client now out w
          ≡ some (
            ok (record out {
              time = now;
              url = fit uri_max url;
              status = status_of http e;
              type = [];
              length = 0;
              digests = record {
                d_md5 = [];
                d_sha1 = [];
                d_sha256 = [];
                d_sha384 = [];
                d_sha512 = [];
              };
            }),
            w2,
          )
    unfolding url_fetch_internal failed blank_response
    url_fetch-failed fuel now n url client url' out w w1 w2 e hops few f other =
        fetch_ends fuel now n url client url' url' out (failed http e (blank_response now url out))
          w w1 w2 hops few
          (rw f (
            ap (λ r. some ((url', r), w2))
              (restored n (blank_response now url out) (status_of http e))))
          other

    module _ (hash : Algo → Bytes → Bytes) (Holds : (a : Algo) → Openssl.Ctx ssl a → Bytes → Type 0)
        (law : IsDigest ssl hash Holds) where
      -- With digests as OpenSSL documents them, a page behind fewer than five redirects, which is no
      -- redirect itself and whose body ends, is recorded with its status, its type, its length in 64
      -- bits and every digest of its whole body, whatever pieces the body comes in. One round for each
      -- piece and one for the end are enough.
      pub url_fetch-with_body :
          (fuel now n st : ℕ) (url client url' : Bytes) (out : Response) (w w1 w2 w3 : World)
          (conn : Conn) (headers : Headers) (ps : List Bytes)
          → Hops client n (fit uri_max url) w url' w1
          → n < 5
          → open_response http url' client w1 ≡ (ok (conn, pos st, headers), w2)
          → location http (pos st) headers ≡ none
          → Body http conn w2 ps w3
          → length ps < fuel
          → url_fetch http ssl fuel (some url) client now out w
            ≡ some (
              ok (
                  with_body http ssl hash Holds law ps (
                    with_type http
                      (get_header headers (codes "Content-Type"))
                      (record (blank_response now url out) { status = pos st }))),
              w3,
            )
      unfolding url_fetch_internal
      url_fetch-with_body fuel now n st url client url' out w w1 w2 w3 conn headers ps hops few e f
            body enough =
          let b = blank_response now url out in
          let whole =
            hash_body_lem http ssl hash Holds law fuel conn url'
              (with_type http (get_header headers (codes "Content-Type"))
                (record (redirected n b) { status = pos st }))
              w2 w3 ps body enough in
          fetch_ends fuel now n url client url' url' out
            (with_body http ssl hash Holds law ps (
              with_type http (get_header headers (codes "Content-Type"))
                (record b { status = pos st })))
            w w1 w3 hops few
            (rw (e, f)
              (whole
                ∙ ap
                    (λ r. some (
                      (
                        url',
                        with_body http ssl hash Holds law ps
                            (with_type http (get_header headers (codes "Content-Type")) r),
                      ),
                      w3,
                    ))
                    (restored n b (pos st))))
            (typed_status (get_header headers (codes "Content-Type")) b st)
