-- ===== src/Hash/Uri/Match.antt =====
-- The regular expressions of src/util/hash.c, as `regexec` matches them on the whole text. In each of
-- them what follows a repeated class begins outside of that class, so the longest run is the match.
use hash_archive.Prelude.{
  ℕ, Bool, Bytes, [], ◌∷◌, ◌++◌, Option, none, some, codes, span, strip, strip_case, is_alnum,
  is_digit, one_of, length, leb, ltb, ◌==◌, ◌&&◌, ◌||◌, if◌then◌else◌,
}

infixl 5 ◌>>=◌
abbrev pub ◌>>=◌ {ℓ κ} : {A : Type ℓ} {B : Type κ} → Option A → (A → Option B) → Option B
none >>= f = none
some a >>= f = f a

-- `[class]+` and `[class]*`: the run, and what stands behind it
abbrev pub run_of : ℕ → (ℕ → Bool) → Bytes → Option (Bytes × Bytes)
run_of least p s = if leb least (length (span p s).0) then some (span p s) else none

-- `$`
abbrev pub at_end {ℓ} : {A : Type ℓ} → Bytes → A → Option A
at_end [] a = some a
at_end (c ∷ s) a = none

-- `(\?[class]+)?` for the byte `lead`: what stands behind it
unfoldable pub optional_group : ℕ → (ℕ → Bool) → Bytes → Bytes
unfolding span
optional_group lead p [] = []
optional_group lead p (c ∷ s) =
    if c == lead && ltb 0 (length (span p s).0) then (span p s).1 else c ∷ s

abbrev pub name_char : ℕ → Bool
name_char c = is_alnum c || one_of (codes ".-") c

abbrev pub path_char : ℕ → Bool
path_char c = is_alnum c || one_of (codes ".%_-") c

abbrev pub query_char : ℕ → Bool
query_char c = is_alnum c || one_of (codes ".%_=&-") c

-- `^hash://([[:alnum:].-]+)/([[:alnum:].%_-]*)(\?[[:alnum:].%_=&-]+)?(#[[:alnum:].%_-]+)?$`
unfoldable pub match_hash_uri : Bytes → Option (Bytes × Bytes)
match_hash_uri uri = strip_case (codes "hash://") uri >>= λ s. run_of 1 name_char s >>= λ m1.
    strip (codes "/") m1.1 >>= λ t. run_of 0 path_char t >>= λ m2.
    at_end (optional_group b'#' path_char (optional_group b'?' query_char m2.1)) (m1.0, m2.0)

-- `^([[:alnum:]]+)-([[:alnum:]/+=]*)$`
abbrev pub prefix_char : ℕ → Bool
prefix_char c = is_alnum c || one_of (codes "/+=") c

unfoldable pub match_prefix : Bytes → Option (Bytes × Bytes)
match_prefix uri = run_of 1 is_alnum uri >>= λ m1.
    strip (codes "-") m1.1 >>= λ t. run_of 0 prefix_char t >>= λ m2. at_end m2.1 (m1.0, m2.0)

-- `^ni:///([[:alnum:].-]+);([[:alnum:]_-]*)$`
abbrev pub named_char : ℕ → Bool
named_char c = is_alnum c || one_of (codes "_-") c

unfoldable pub match_named_info : Bytes → Option (Bytes × Bytes)
match_named_info uri = strip_case (codes "ni:///") uri >>= λ s. run_of 1 name_char s >>= λ m1.
    strip (codes ";") m1.1 >>= λ t. run_of 0 named_char t >>= λ m2. at_end m2.1 (m1.0, m2.0)

-- `^&([a-zA-Z0-9+/]*={0,3})\.([a-z0-9]{3,})$`: the group before the dot is the digest.
abbrev pub ssb_char : ℕ → Bool
ssb_char c = is_alnum c || one_of (codes "+/") c

abbrev pub ssb_name_char : ℕ → Bool
ssb_name_char c = is_digit c || (leb b'a' c && leb c b'z')

unfoldable pub match_ssb : Bytes → Option (Bytes × Bytes)
match_ssb uri = strip (codes "&") uri >>= λ s. run_of 0 ssb_char s >>= λ m1.
    run_of 0 (λ c. c == b'=') m1.1 >>= λ pad.
    (if leb (length pad.0) 3 then some pad else none) >>= λ pad'. strip (codes ".") pad'.1 >>= λ t.
    run_of 3 ssb_name_char t >>= λ m2. at_end m2.1 (m1.0 ++ pad.0, m2.0)

-- `^[1-9A-HJ-NP-Za-km-z]{8,}$`, which the source writes out
abbrev pub base58_char : ℕ → Bool
base58_char = one_of (codes "123456789ABCDEFGHJKLMNPQRSTUVWXYZabcdefghijkmnopqrstuvwxyz")

unfoldable pub match_multihash : Bytes → Option Bytes
match_multihash uri = run_of 8 base58_char uri >>= λ m. at_end m.1 m.0

-- `^magnet:.*(\?|&)xt=urn:([a-z0-9]+):([a-z0-9]*)`: of the places that match, the match from the last
-- one ends last, and the longest match is the one reported.
unfoldable pub magnet_at : ℕ → Bytes → Option (Bytes × Bytes)
magnet_at c rest =
    let found = strip_case (codes "xt=urn:") rest >>= λ s. run_of 1 is_alnum s >>= λ m1.
    strip (codes ":") m1.1 >>= λ t. run_of 0 is_alnum t >>= λ m2. some (m1.0, m2.0) in
    if c == b'?' || c == b'&' then found else none

unfoldable pub magnet_last : Bytes → Option (Bytes × Bytes)
magnet_last [] = none
magnet_last (c ∷ s) = elim (magnet_last s) [ some m ↦ some m | none ↦ magnet_at c s ]

unfoldable pub match_magnet : Bytes → Option (Bytes × Bytes)
match_magnet uri = strip_case (codes "magnet:") uri >>= λ s. magnet_last s
