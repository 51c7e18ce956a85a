-- ===== src/Prelude/Text.antt =====
-- Byte strings, and the functions of the C library that the program calls on them. A C string is the
-- list of the bytes before its terminator.
use Prim.Native.Nat.{ℕ, ◌+◌, ◌-◌, ◌<◌}
use Prim.Native.Char.{code}
use Prim.Native.String.{String}
use mathlib.Core.Path.{◌≡◌, refl, subst}
use mathlib.Core.Bool.{Bool, true, false, ◌&&◌, ◌||◌}
use mathlib.Core.List.{List, [], ◌∷◌, ◌++◌, append-nil}
use mathlib.Core.Option.{Option, none, some}
use native.Mathlib.Omega.{arith}
use hash_archive.Prelude.Tests.{leb, ◌==◌, if◌then◌else◌}
use hash_archive.Prelude.Lists.{take, All}

abbrev pub Bytes : Type 0
Bytes = List ℕ

abbrev pub codes : String → Bytes
codes String.[] = []
codes (String.◌∷◌ c s) = code c ∷ codes s

abbrev pub IsByte : ℕ → Type 0
IsByte b = b < 256

-- A byte of a C string: no terminator.
abbrev pub IsChar : ℕ → Type 0
IsChar b = (0 < b) × (b < 256)

-- `strcmp(a, b) == 0`
unfoldable pub bytes_eq : Bytes → Bytes → Bool
bytes_eq [] [] = true
bytes_eq [] (y ∷ ys) = false
bytes_eq (x ∷ xs) [] = false
bytes_eq (x ∷ xs) (y ∷ ys) = x == y && bytes_eq xs ys

-- `tolower` in the C locale
unfoldable pub to_lower : ℕ → ℕ
to_lower c = if leb b'A' c && leb c b'Z' then c + 32 else c

-- `strcasecmp(a, b) == 0`, and `strncasecmp` on two texts of one length
unfoldable pub case_eq : Bytes → Bytes → Bool
unfolding to_lower
case_eq [] [] = true
case_eq [] (y ∷ ys) = false
case_eq (x ∷ xs) [] = false
case_eq (x ∷ xs) (y ∷ ys) = to_lower x == to_lower y && case_eq xs ys

-- What `snprintf`, `strlcpy` leave in a buffer of `max` bytes for the text `s`.
abbrev pub fit : ℕ → Bytes → Bytes
fit max s = take (max - 1) s

-- `strlcat(dst, src, max)`, for a text `dst` that fits its buffer
abbrev pub strlcat : Bytes → Bytes → ℕ → Bytes
strlcat dst src max = fit max (dst ++ src)

-- A scanset, or a bracket expression under `*`: the longest prefix of bytes that pass.
unfoldable pub span : (ℕ → Bool) → Bytes → Bytes × Bytes
span p [] = ([], [])
span p (c ∷ s) = let (front, rest) = span p s in if p c then (c ∷ front, rest) else ([], c ∷ s)

-- The rest behind a literal prefix.
unfoldable pub strip : Bytes → Bytes → Option Bytes
strip [] s = some s
strip (x ∷ p) [] = none
strip (x ∷ p) (y ∷ s) = if x == y then strip p s else none

-- As `strip`, where the case of letters does not count.
unfoldable pub strip_case : Bytes → Bytes → Option Bytes
unfolding to_lower
strip_case [] s = some s
strip_case (x ∷ p) [] = none
strip_case (x ∷ p) (y ∷ s) = if to_lower x == to_lower y then strip_case p s else none

-- `[[:alnum:]]` in the C locale
unfoldable pub is_digit : ℕ → Bool
is_digit c = leb b'0' c && leb c b'9'

unfoldable pub is_alnum : ℕ → Bool
unfolding is_digit
is_alnum c = is_digit c || (leb b'a' c && leb c b'z') || (leb b'A' c && leb c b'Z')

-- Membership in a written-out set of bytes.
unfoldable pub one_of : Bytes → ℕ → Bool
one_of [] c = false
one_of (x ∷ xs) c = c == x || one_of xs c

pub bytes_eq_self : (s : Bytes) → bytes_eq s s ≡ true
unfolding bytes_eq
bytes_eq_self [] = refl
bytes_eq_self (x ∷ s) = ground (arith, bytes_eq_self s)

pub eq_of_bytes_eq : (s t : Bytes) → bytes_eq s t ≡ true → s ≡ t
unfolding bytes_eq
eq_of_bytes_eq [] [] h = refl
eq_of_bytes_eq [] (y ∷ t) h = ground arith
eq_of_bytes_eq (x ∷ s) [] h = ground arith
eq_of_bytes_eq (x ∷ s) (y ∷ t) h = ground (arith, eq_of_bytes_eq s t)

pub case_eq_self : (s : Bytes) → case_eq s s ≡ true
unfolding case_eq
case_eq_self [] = refl
case_eq_self (x ∷ s) = ground (arith, case_eq_self s)

-- A text that passes is taken whole, up to a rest whose first byte does not pass.
abbrev pub Stops : (ℕ → Bool) → Bytes → Type 0
Stops p [] = Unit
Stops p (c ∷ s) = p c ≡ false

pub span-append :
    (p : ℕ → Bool) (s rest : Bytes)
    → All (λ c. p c ≡ true) s
    → Stops p rest
    → span p (s ++ rest) ≡ (s, rest)
unfolding span
span-append p [] [] h stops = refl
span-append p [] (c ∷ rest) h stops = ground arith
span-append p (c ∷ s) rest (pc, h) stops = rw (pc, span-append p s rest h stops)

pub strip-append : (p s : Bytes) → strip p (p ++ s) ≡ some s
unfolding strip
strip-append [] s = refl
strip-append (x ∷ p) s = ground (arith, strip-append p s)

pub strip_case-append : (p s : Bytes) → strip_case p (p ++ s) ≡ some s
unfolding strip_case
strip_case-append [] s = refl
strip_case-append (x ∷ p) s = ground (arith, strip_case-append p s)

pub span_whole : (p : ℕ → Bool) (s : Bytes) → All (λ c. p c ≡ true) s → span p s ≡ (s, [])
span_whole p s h = subst (λ t. span p t ≡ (s, [])) (append-nil s) (span-append p s [] h tt)
