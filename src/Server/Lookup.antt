-- ===== src/Server/Lookup.antt =====
-- What a lookup is answered by, for every outcome of the two normalizations.
use hash_archive.Prelude.{
  ℕ, zero, suc, ◌≤◌, Bool, true, false, not, Bytes, [], ◌∷◌, ◌++◌, none, some, codes, fit, strip,
  strip-append, take_all, length, length-append, Bool-cases, inl, inr, All, ◌≡◌, ◌≢◌, refl, ap, ◌∙◌,
  arith,
}
use hash_archive.Error.{Error, hash_eparse, url_eparse, Result, ok, err}
use hash_archive.Hash.Uri.Parse.{Base58}
use hash_archive.Hash.Uri.Format.{hash_uri_normalize}
use hash_archive.Url.{url_normalize}
use hash_archive.Url.Scan.{run}
use hash_archive.Db.Response.{uri_max}
use hash_archive.Server.{
  http_get, to_history, to_sources, is_space, skip_space, path_arg, with_arg, uripathcmp, at_path,
  get_index, post_lookup, get_history, get_sources, route, Answer, redirect, parse_error, fails,
  is_url_eparse, is_hash_eparse, of_url, of_hash, lookup_answer,
}

run_whole :
    (width : ℕ) (p : ℕ → Bool) (s : Bytes)
    → length s ≤ width
    → All (λ c. p c ≡ true) s
    → run width p s ≡ (s, [])
unfolding run
run_whole zero p [] h ok' = refl
run_whole zero p (c ∷ s) h ok' = absurd (omega arith)
run_whole (suc width) p [] h ok' = refl
run_whole (suc width) p (c ∷ s) h (pc, ok') = rw (run_whole width p s (omega arith) ok', pc) refl

-- A text without spaces that fits is read whole.
path_arg_whole :
    (prefix : Bytes) (c : ℕ) (s : Bytes)
    → length (c ∷ s) ≤ 1023
    → All (λ x. not (is_space x) ≡ true) (c ∷ s)
    → path_arg prefix (prefix ++ c ∷ s) ≡ some (c ∷ s)
unfolding path_arg skip_space
path_arg_whole prefix c s h (pc, ok') =
    let solid : is_space c ≡ false = ground arith in
    rw
      (
        strip-append prefix (c ∷ s),
        solid,
        run_whole 1023 (λ x. not (is_space x)) (c ∷ s) h (pc, ok'),
      )
      refl

route-history :
    (c : ℕ) (s : Bytes)
    → length (c ∷ s) ≤ 1023
    → All (λ x. not (is_space x) ≡ true) (c ∷ s)
    → route http_get (codes "/history/" ++ c ∷ s) ≡ ok (some (to_history (c ∷ s)))
unfolding route get_index at_path uripathcmp post_lookup get_history with_arg strip
route-history c s h solid = rw (path_arg_whole (codes "/history/") c s h solid) refl

no_history : (c : ℕ) (s : Bytes) → path_arg (codes "/history/") (codes "/sources/" ++ c ∷ s) ≡ none
unfolding path_arg strip
no_history c s = refl

route-sources :
    (c : ℕ) (s : Bytes)
    → length (c ∷ s) ≤ 1023
    → All (λ x. not (is_space x) ≡ true) (c ∷ s)
    → route http_get (codes "/sources/" ++ c ∷ s) ≡ ok (some (to_sources (c ∷ s)))
unfolding route get_index at_path uripathcmp post_lookup get_history get_sources with_arg strip
route-sources c s h solid = rw (no_history c s, path_arg_whole (codes "/sources/") c s h solid) refl

is_hash_eparse-eq : (e : Error) → is_hash_eparse e ≡ true → e ≡ hash_eparse
unfolding is_hash_eparse
is_hash_eparse-eq hash_eparse h = refl
is_hash_eparse-eq e h = cc

is_url_eparse-eq : (e : Error) → is_url_eparse e ≡ true → e ≡ url_eparse
unfolding is_url_eparse
is_url_eparse-eq url_eparse h = refl
is_url_eparse-eq e h = cc

is_hash_eparse-neq : (e : Error) → is_hash_eparse e ≡ false → e ≢ hash_eparse
unfolding is_hash_eparse
is_hash_eparse-neq hash_eparse h = cc
is_hash_eparse-neq e h = λ same. cc

is_url_eparse-neq : (e : Error) → is_url_eparse e ≡ false → e ≢ url_eparse
unfolding is_url_eparse
is_url_eparse-neq url_eparse h = cc
is_url_eparse-neq e h = λ same. cc

-- What answers fit a lookup of `str`. A redirect leads to a place whose handler gets `str` itself.
pub data Served (b58 : Base58) (str : Bytes) : Answer → Type 0 where
  hash_page :
      (uri loc : Bytes)
      → hash_uri_normalize b58 (some str) uri_max ≡ ok uri
      → route http_get loc ≡ ok (some (to_sources str))
      → Served b58 str (redirect loc)
  url_page :
      (url loc : Bytes)
      → hash_uri_normalize b58 (some str) uri_max ≡ err hash_eparse
      → url_normalize (some str) uri_max ≡ ok url
      → route http_get loc ≡ ok (some (to_history str))
      → Served b58 str (redirect loc)
  no_page :
      hash_uri_normalize b58 (some str) uri_max ≡ err hash_eparse
      → url_normalize (some str) uri_max ≡ err url_eparse
      → Served b58 str (parse_error str)
  url_fails :
      (e : Error)
      → hash_uri_normalize b58 (some str) uri_max ≡ err hash_eparse
      → url_normalize (some str) uri_max ≡ err e
      → e ≢ url_eparse
      → Served b58 str (fails e)
  hash_fails :
      (e : Error)
      → hash_uri_normalize b58 (some str) uri_max ≡ err e
      → e ≢ hash_eparse
      → Served b58 str (fails e)

-- A lookup of a text that is not empty, has no spaces and is 1014 bytes long at most: if the text can be
-- normalized as a hash URI, the answer is a redirect to a place that the handler of the sources takes,
-- with that very text; if it is no hash URI and can be normalized as a URL, a redirect to a place that
-- the handler of the history takes, with that text; if it is neither, the page of a parse error for it;
-- and any other error of the two is the one that the lookup fails with.
pub route-lookup_answer :
    (b58 : Base58) (c : ℕ) (s : Bytes)
    → length (c ∷ s) ≤ 1014
    → All (λ x. not (is_space x) ≡ true) (c ∷ s)
    → Served b58 (c ∷ s) (lookup_answer b58 (c ∷ s))
unfolding lookup_answer
route-lookup_answer b58 c s h solid =
    of_hash_case (hash_uri_normalize b58 (some (c ∷ s)) uri_max) refl
  where
    whole : (page : Bytes) → length page ≡ 9 → fit uri_max (page ++ c ∷ s) ≡ page ++ c ∷ s
    whole page nine = take_all 1023 (page ++ c ∷ s) (omega (arith, length-append page (c ∷ s)))

    of_url_case :
        (u : Result Bytes)
        → hash_uri_normalize b58 (some (c ∷ s)) uri_max ≡ err hash_eparse
        → url_normalize (some (c ∷ s)) uri_max ≡ u
        → Served b58 (c ∷ s) (of_url u (c ∷ s))
    of_url_case (ok url) q r =
        url_page url _ q r
          (rw (whole (codes "/history/") refl) (route-history c s (omega arith) solid))
    of_url_case (err x) q r = elim (Bool-cases (is_url_eparse x)) [
      | inl parse ↦ rw parse (no_page q (r ∙ ap err (is_url_eparse-eq x parse)))
      | inr other ↦ rw other (url_fails x q r (is_url_eparse-neq x other))
    ]

    of_hash_case :
        (r : Result Bytes)
        → hash_uri_normalize b58 (some (c ∷ s)) uri_max ≡ r
        → Served b58 (c ∷ s) (of_hash r (c ∷ s))
    of_hash_case (ok uri) q =
        hash_page uri _ q
          (rw (whole (codes "/sources/") refl) (route-sources c s (omega arith) solid))
    of_hash_case (err x) q = elim (Bool-cases (is_hash_eparse x)) [
      | inl parse ↦ rw parse (
          of_url_case (url_normalize (some (c ∷ s)) uri_max)
            (q ∙ ap err (is_hash_eparse-eq x parse)) refl)
      | inr other ↦ rw other (hash_fails x q (is_hash_eparse-neq x other))
    ]
