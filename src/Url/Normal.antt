-- ===== src/Url/Normal.antt =====
-- What `url_parse` returns is in normal form, and a URL in normal form is printed and parsed back.
use hash_archive.Prelude.{
  ℕ, zero, suc, ◌≤◌, Bool, true, false, Bytes, [], ◌∷◌, ◌++◌, codes, map, to_lower, length, ◌||◌,
  some, append-nil, All, Stops, strip, ◌≡◌, refl, ◌∙◌, subst, arith,
}
use hash_archive.Error.{ok}
use hash_archive.Url.Scan.{run}
use hash_archive.Url.{
  Url, scheme_char, host_char, path_char, query_char, scan_path, scan_host, scan_absolute, is_empty,
  begins, check_url, absolute, parse_text, url_parse, url_text,
}

-- A run stops by its set or by its width, and its bytes are of the set.
pub run-All :
    (width : ℕ) (p : ℕ → Bool) (s : Bytes)
    → All (λ c. p c ≡ true) (run width p s).0 × (length (run width p s).0 ≤ width)
unfolding run
run-All zero p s = (tt, omega arith)
run-All (suc width) p [] = (tt, omega arith)
run-All (suc width) p (c ∷ s) = ground (arith, run-All width p s)

pub run-append :
    (width : ℕ) (p : ℕ → Bool) (s rest : Bytes)
    → All (λ c. p c ≡ true) s
    → length s ≤ width
    → Stops p rest
    → run width p (s ++ rest) ≡ (s, rest)
unfolding run
run-append zero p [] rest h n stops = refl
run-append zero p (c ∷ s) rest h n stops = absurd (omega arith)
run-append (suc width) p [] [] h n stops = refl
run-append (suc width) p [] (c ∷ rest) h n stops = rw stops
run-append (suc width) p (c ∷ s) rest (pc, h) n stops =
    rw (pc, run-append width p s rest h (omega arith) stops)

run-nil : (width : ℕ) (p : ℕ → Bool) → run width p [] ≡ ([], [])
unfolding run
run-nil zero p = refl
run-nil (suc width) p = refl

pub run_whole :
    (width : ℕ) (p : ℕ → Bool) (s : Bytes)
    → All (λ c. p c ≡ true) s
    → length s ≤ width
    → run width p s ≡ (s, [])
run_whole width p s h n =
    subst (λ t. run width p t ≡ (s, [])) (append-nil s) (run-append width p s [] h n tt)

-- An absolute URL in normal form.
pub record IsNormal (u : Url) : Type 0 where
  pub scheme_set : All (λ c. scheme_char c ≡ true) u.scheme
  pub scheme_width : length u.scheme ≤ 31
  pub scheme_there : is_empty u.scheme ≡ false
  pub scheme_lead : begins b'/' u.scheme ≡ false
  pub scheme_lower : map to_lower u.scheme ≡ u.scheme
  pub host_set : All (λ c. host_char c ≡ true) u.host
  pub host_width : length u.host ≤ 255
  pub host_there : is_empty u.host ≡ false
  pub host_lower : map to_lower u.host ≡ u.host
  pub path_set : All (λ c. path_char c ≡ true) u.path
  pub path_width : length u.path ≤ 1023
  pub path_lead : (is_empty u.path || begins b'/' u.path) ≡ true
  pub query_set : All (λ c. query_char c ≡ true) u.query
  pub query_width : length u.query ≤ 1023
  pub query_lead : (is_empty u.query || begins b'?' u.query) ≡ true
  pub query_behind : is_empty u.path ≡ true → is_empty u.query ≡ true

scan_path-append :
    (path query : Bytes)
    → All (λ c. path_char c ≡ true) path
    → length path ≤ 1023
    → All (λ c. query_char c ≡ true) query
    → length query ≤ 1023
    → (is_empty query || begins b'?' query) ≡ true
    → (is_empty path ≡ true → is_empty query ≡ true)
    → scan_path (path ++ query) ≡ (path, query)
unfolding scan_path
scan_path-append [] [] hp np hq nq lead behind = rw (run-nil 1023 path_char, scan_path)
scan_path-append [] (c ∷ query) hp np hq nq lead behind = cc (behind refl)
scan_path-append (a ∷ path) [] hp np hq nq lead behind =
    let e = run-append 1023 path_char (a ∷ path) [] hp np tt in
    rw (e, scan_path) (rw (run-nil 1023 query_char))
scan_path-append (a ∷ path) (c ∷ query) hp np hq nq lead behind =
    let e = run-append 1023 path_char (a ∷ path) (c ∷ query) hp np (ground arith) in
    let f = run_whole 1023 query_char (c ∷ query) hq nq in rw (e, scan_path) (rw f)

scan_host-append :
    (scheme host rest : Bytes)
    → All (λ c. host_char c ≡ true) host
    → length host ≤ 255
    → is_empty host ≡ false
    → Stops host_char rest
    → scan_host scheme (host ++ rest) ≡ record {
      scheme = scheme;
      host = host;
      path = (scan_path rest).0;
      query = (scan_path rest).1;
    }
unfolding scan_host
scan_host-append scheme [] rest h n there stops = cc
scan_host-append scheme (a ∷ host) rest h n there stops =
    rw (run-append 255 host_char (a ∷ host) rest h n stops, scan_host)

scan_absolute-append :
    (scheme rest : Bytes)
    → All (λ c. scheme_char c ≡ true) scheme
    → length scheme ≤ 31
    → is_empty scheme ≡ false
    → scan_absolute (scheme ++ (codes "://" ++ rest)) ≡ scan_host scheme rest
unfolding scan_absolute strip
scan_absolute-append [] rest h n there = cc
scan_absolute-append (a ∷ scheme) rest h n there =
    rw (run-append 31 scheme_char (a ∷ scheme) (codes "://" ++ rest) h n refl, scan_absolute)

tail-Stops :
    (path query : Bytes)
    → (is_empty path || begins b'/' path) ≡ true
    → (is_empty path ≡ true → is_empty query ≡ true)
    → Stops host_char (path ++ query)
tail-Stops [] [] lead behind = tt
tail-Stops [] (c ∷ query) lead behind = cc (behind refl)
tail-Stops (a ∷ path) query lead behind = ground arith

-- The text of a URL in normal form is scanned into its fields.
pub scan-url_text : (u : Url) → IsNormal u → scan_absolute (url_text u) ≡ u
scan-url_text u n = rw (
  scan_absolute-append u.scheme (u.host ++ (u.path ++ u.query)) n.scheme_set n.scheme_width
      n.scheme_there,
  scan_host-append u.scheme u.host (u.path ++ u.query) n.host_set n.host_width n.host_there
      (tail-Stops u.path u.query n.path_lead n.query_behind),
  scan_path-append u.path u.query n.path_set n.path_width n.query_set n.query_width n.query_lead
      n.query_behind,
)

absolute_lem : (u : Url) → IsNormal u → absolute u ≡ ok u
unfolding absolute check_url
absolute_lem u n = rw (n.scheme_there, n.host_there, n.scheme_lower, n.host_lower) (ground arith)

parse_absolute : (s : Bytes) → begins b'/' s ≡ false → parse_text s ≡ absolute (scan_absolute s)
unfolding parse_text
parse_absolute [] h = refl
parse_absolute (a ∷ []) h = rw h
parse_absolute (a ∷ b ∷ s) h = rw h

begins-append : (s rest : Bytes) → is_empty s ≡ false → begins b'/' (s ++ rest) ≡ begins b'/' s
begins-append [] rest h = cc
begins-append (c ∷ s) rest h = refl

pub parse-url_text : (u : Url) → IsNormal u → url_parse (some (url_text u)) ≡ ok u
unfolding url_parse
parse-url_text u n = rw (
  parse_absolute (url_text u) (begins-append u.scheme _ n.scheme_there ∙ n.scheme_lead),
  scan-url_text u n,
  absolute_lem u n,
)
