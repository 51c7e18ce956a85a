-- ===== src/Url/Parsed.antt =====
-- The fields that `url_parse` fills are in normal form.
use hash_archive.Prelude.{
  ℕ, zero, suc, ◌≤◌, Bool, true, false, Bytes, [], ◌∷◌, codes, map, to_lower, length, ◌||◌, Option,
  none, some, All, strip, ◌≡◌, refl, ◌∙◌, subst, arith, inl, inr, ◌⊎◌,
}
use mathlib.Core.Path.{ap₂}
use hash_archive.Error.{ok}
use hash_archive.Url.Scan.{run, scan, non_empty}
use hash_archive.Url.{
  Url, scheme_char, host_char, path_char, query_char, scan_path, scan_host, scan_absolute, is_empty,
  begins, check_url, scheme_relative, host_relative, absolute, parse_text, url_parse, scan_relative,
}
use hash_archive.Url.Normal.{IsNormal, run-All}

-- What the scan alone gives.
record IsScanned (u : Url) : Type 0 where
  scheme_set : All (λ c. scheme_char c ≡ true) u.scheme
  scheme_width : length u.scheme ≤ 31
  host_set : All (λ c. host_char c ≡ true) u.host
  host_width : length u.host ≤ 255
  path_set : All (λ c. path_char c ≡ true) u.path
  path_width : length u.path ≤ 1023
  query_set : All (λ c. query_char c ≡ true) u.query
  query_width : length u.query ≤ 1023
  query_behind : is_empty u.path ≡ true → is_empty u.query ≡ true

-- A field of a set and a width, as `scan` fills it.
abbrev Field : ℕ → (ℕ → Bool) → Bytes → Type 0
Field width p s = All (λ c. p c ≡ true) s × (length s ≤ width)

data Fills (width : ℕ) (p : ℕ → Bool) : Option (Bytes × Bytes) → Type 0 where
  fills :
      {c : ℕ} {front rest : Bytes}
      → Field width p (c ∷ front)
      → Fills width p (some (c ∷ front, rest))
  fails : Fills width p none

scan-Fills : (width : ℕ) (p : ℕ → Bool) (s : Bytes) → Fills width p (scan width p s)
scan-Fills width p s = go (run width p s) (run-All width p s)
  where
    go : (r : Bytes × Bytes) → Field width p r.0 → Fills width p (non_empty r)
    go ([], rest) h = fails
    go (c ∷ front, rest) h = fills h

abbrev PathField : Bytes × Bytes → Type 0
PathField r =
    Field 1023 path_char r.0
    × Field 1023 query_char r.1
    × (is_empty r.0 ≡ true → is_empty r.1 ≡ true)

scan_path-Field : (s : Bytes) → PathField (scan_path s)
unfolding scan_path
scan_path-Field s = outer (scan 1023 path_char s) (scan-Fills 1023 path_char s)
  where
    inner :
        (c : ℕ) (front : Bytes) (o : Option (Bytes × Bytes))
        → Field 1023 path_char (c ∷ front)
        → Fills 1023 query_char o
        → PathField (elim o [ none ↦ (c ∷ front, []) | some (query, rest') ↦ (c ∷ front, query) ])
    inner c front none hp f = (hp, (tt, omega arith), λ e. refl)
    inner c front (some ([], rest)) hp f = elim f [ ]
    inner c front (some (q ∷ query, rest)) hp (fills hq) = (hp, hq, λ e. cc)

    outer :
        (o : Option (Bytes × Bytes))
        → Fills 1023 path_char o
        → PathField (elim o [
          | none ↦ ([], [])
          | some (path, rest) ↦ elim (scan 1023 query_char rest) [
            | none ↦ (path, [])
            | some (query, rest') ↦ (path, query)
          ]
        ])
    outer none f = ((tt, omega arith), (tt, omega arith), λ e. refl)
    outer (some ([], rest)) f = elim f [ ]
    outer (some (c ∷ front, rest)) (fills h) =
        inner c front (scan 1023 query_char rest) h (scan-Fills 1023 query_char rest)

scan_host-IsScanned :
    (scheme s : Bytes) → Field 31 scheme_char scheme → IsScanned (scan_host scheme s)
unfolding scan_host
scan_host-IsScanned scheme s h = go (scan 255 host_char s) (scan-Fills 255 host_char s)
  where
    go :
        (o : Option (Bytes × Bytes))
        → Fills 255 host_char o
        → IsScanned (elim o [
          | none ↦ record { scheme = scheme; host = []; path = []; query = [] }
          | some (host, rest) ↦ record {
            scheme = scheme;
            host = host;
            path = (scan_path rest).0;
            query = (scan_path rest).1;
          }
        ])
    go none f = record {
      scheme_set = h.0;
      scheme_width = h.1;
      host_set = tt;
      host_width = omega arith;
      path_set = tt;
      path_width = omega arith;
      query_set = tt;
      query_width = omega arith;
      query_behind = λ e. refl;
    }
    go (some ([], rest)) f = elim f [ ]
    go (some (c ∷ front, rest)) (fills k) =
        let p = scan_path-Field rest in
        record {
          scheme_set = h.0;
          scheme_width = h.1;
          host_set = k.0;
          host_width = k.1;
          path_set = p.0.0;
          path_width = p.0.1;
          query_set = p.1.0;
          query_width = p.1.1;
          query_behind = p.2;
        }

scan_absolute-IsScanned : (s : Bytes) → IsScanned (scan_absolute s)
unfolding scan_absolute
scan_absolute-IsScanned s = go (scan 31 scheme_char s) (scan-Fills 31 scheme_char s)
  where
    nothing :
        (scheme : Bytes)
        → Field 31 scheme_char scheme
        → IsScanned (record { scheme = scheme; host = []; path = []; query = [] })
    nothing scheme h = record {
      scheme_set = h.0;
      scheme_width = h.1;
      host_set = tt;
      host_width = omega arith;
      path_set = tt;
      path_width = omega arith;
      query_set = tt;
      query_width = omega arith;
      query_behind = λ e. refl;
    }

    behind :
        (scheme : Bytes) (o : Option Bytes)
        → Field 31 scheme_char scheme
        → IsScanned (elim o [
          | none ↦ record { scheme = scheme; host = []; path = []; query = [] }
          | some rest ↦ scan_host scheme rest
        ])
    behind scheme none h = nothing scheme h
    behind scheme (some rest) h = scan_host-IsScanned scheme rest h

    go :
        (o : Option (Bytes × Bytes))
        → Fills 31 scheme_char o
        → IsScanned (elim o [
          | none ↦ record { scheme = []; host = []; path = []; query = [] }
          | some (scheme, rest) ↦ elim (strip (codes "://") rest) [
            | none ↦ record { scheme = scheme; host = []; path = []; query = [] }
            | some rest' ↦ scan_host scheme rest'
          ]
        ])
    go none f = nothing [] (tt, omega arith)
    go (some ([], rest)) f = elim f [ ]
    go (some (c ∷ front, rest)) (fills h) = behind (c ∷ front) (strip (codes "://") rest) h

run_first :
    (width : ℕ) (p : ℕ → Bool) (s : Bytes)
    → begins b'/' s ≡ false
    → begins b'/' (run width p s).0 ≡ false
unfolding run
run_first zero p s h = refl
run_first (suc width) p [] h = refl
run_first (suc width) p (c ∷ s) h = ground arith

scan_host_scheme : (scheme s : Bytes) → (scan_host scheme s).scheme ≡ scheme
unfolding scan_host
scan_host_scheme scheme s = ground arith

-- The scheme is a run at the beginning of the text, and so begins as the text does.
scheme_first : (s : Bytes) → begins b'/' s ≡ false → begins b'/' (scan_absolute s).scheme ≡ false
unfolding scan_absolute
scheme_first s h = go (run 31 scheme_char s) (run_first 31 scheme_char s h)
  where
    behind :
        (scheme : Bytes) (o : Option Bytes)
        → begins b'/' scheme ≡ false
        → begins b'/' (
            Url.scheme (elim o [
              | none ↦ record { scheme = scheme; host = []; path = []; query = [] }
              | some rest ↦ scan_host scheme rest
            ]))
          ≡ false
    behind scheme none k = k
    behind scheme (some rest) k = rw (scan_host_scheme scheme rest) k

    go :
        (r : Bytes × Bytes)
        → begins b'/' r.0 ≡ false
        → begins b'/' (
            Url.scheme (elim (non_empty r) [
              | none ↦ record { scheme = []; host = []; path = []; query = [] }
              | some (scheme, rest) ↦ elim (strip (codes "://") rest) [
                | none ↦ record { scheme = scheme; host = []; path = []; query = [] }
                | some rest' ↦ scan_host scheme rest'
              ]
            ]))
          ≡ false
    go ([], rest) k = refl
    go (c ∷ front, rest) k = behind (c ∷ front) (strip (codes "://") rest) k

lower_set :
    (p : ℕ → Bool) (s : Bytes)
    → ((c : ℕ) → p c ≡ true → p (to_lower c) ≡ true)
    → All (λ c. p c ≡ true) s
    → All (λ c. p c ≡ true) (map to_lower s)
lower_set p [] f h = tt
lower_set p (c ∷ s) f (pc, h) = (f c pc, lower_set p s f h)

length-lower : (s : Bytes) → length (map to_lower s) ≡ length s
length-lower [] = refl
length-lower (c ∷ s) = omega (arith, length-lower s)

to_lower-to_lower : (c : ℕ) → to_lower (to_lower c) ≡ to_lower c
unfolding to_lower
to_lower-to_lower c = ground arith

lower_twice : (s : Bytes) → map to_lower (map to_lower s) ≡ map to_lower s
lower_twice [] = refl
lower_twice (c ∷ s) = ap₂ (◌∷◌) (to_lower-to_lower c) (lower_twice s)

lower_empty : (s : Bytes) → is_empty (map to_lower s) ≡ is_empty s
lower_empty [] = refl
lower_empty (c ∷ s) = refl

lower_begins : (s : Bytes) → begins b'/' s ≡ false → begins b'/' (map to_lower s) ≡ false
unfolding to_lower
lower_begins [] h = refl
lower_begins (c ∷ s) h = ground arith

scheme_lower : (c : ℕ) → scheme_char c ≡ true → scheme_char (to_lower c) ≡ true
unfolding to_lower
scheme_lower c h = ground arith

host_lower : (c : ℕ) → host_char c ≡ true → host_char (to_lower c) ≡ true
unfolding to_lower
host_lower c h = ground arith

abbrev lower : Url → Url
lower u = record u { scheme = map to_lower u.scheme; host = map to_lower u.host }

absolute_ok :
    (u v : Url)
    → absolute u ≡ ok v
    → (is_empty u.scheme ≡ false)
      × (is_empty u.host ≡ false)
      × ((is_empty u.path || begins b'/' u.path) ≡ true)
      × ((is_empty u.query || begins b'?' u.query) ≡ true)
      × (lower u ≡ v)
unfolding absolute check_url
absolute_ok u v e = ground arith

absolute-IsNormal :
    (u v : Url) → IsScanned u → begins b'/' u.scheme ≡ false → absolute u ≡ ok v → IsNormal v
absolute-IsNormal u v s first e =
    let (there, host, path, query, same) = absolute_ok u v e in
    subst IsNormal same (record {
      scheme_set = lower_set scheme_char u.scheme scheme_lower s.scheme_set;
      scheme_width = rw (length-lower u.scheme) s.scheme_width;
      scheme_there = lower_empty u.scheme ∙ there;
      scheme_lead = lower_begins u.scheme first;
      scheme_lower = lower_twice u.scheme;
      host_set = lower_set host_char u.host host_lower s.host_set;
      host_width = rw (length-lower u.host) s.host_width;
      host_there = lower_empty u.host ∙ host;
      host_lower = lower_twice u.host;
      path_set = s.path_set;
      path_width = s.path_width;
      path_lead = path;
      query_set = s.query_set;
      query_width = s.query_width;
      query_lead = query;
      query_behind = s.query_behind;
    })

relative_scheme : (u v : Url) → check_url u ≡ ok v → u.scheme ≡ [] → is_empty v.scheme ≡ true
unfolding check_url
relative_scheme u v e h = ground arith

host_relative_scheme :
    (u v : Url) → host_relative u ≡ ok v → u.scheme ≡ [] → is_empty v.scheme ≡ true
unfolding host_relative
host_relative_scheme u v e h = ground (arith, relative_scheme u v)

scheme_relative_scheme :
    (u v : Url) → scheme_relative u ≡ ok v → u.scheme ≡ [] → is_empty v.scheme ≡ true
unfolding scheme_relative
scheme_relative_scheme u v e h = ground (arith, relative_scheme u v)

parse_cases :
    (s : Bytes) (u : Url)
    → parse_text s ≡ ok u
    → (is_empty u.scheme ≡ true) ⊎ ((begins b'/' s ≡ false) × (absolute (scan_absolute s) ≡ ok u))
unfolding parse_text
parse_cases [] u e = inr (refl, e)
parse_cases (a ∷ []) u e = ground (arith, host_relative_scheme (scan_relative (a ∷ [])) u)
parse_cases (a ∷ b ∷ s) u e = ground (
  arith,
  host_relative_scheme (scan_relative (a ∷ b ∷ s)) u,
  scheme_relative_scheme (scan_host [] s) u,
  scan_host_scheme [] s,
)

-- A parsed URL that has a scheme is in normal form.
pub parse-IsNormal :
    (s : Bytes) (u : Url) → url_parse (some s) ≡ ok u → is_empty u.scheme ≡ false → IsNormal u
unfolding url_parse
parse-IsNormal s u e h = elim (parse_cases s u e) [
  | inl none_there ↦ cc
  | inr (lead, e') ↦ absolute-IsNormal _ u (scan_absolute-IsScanned s) (scheme_first s lead) e'
]
