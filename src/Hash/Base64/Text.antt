-- ===== src/Hash/Base64/Text.antt =====
-- The characters and the length of a base64 text.
use hash_archive.Prelude.{
  ℕ, ◌+◌, ◌*◌, ◌/◌, ◌%◌, ◌≤◌, Bytes, [], ◌∷◌, ◌++◌, true, length, All, IsByte, codes, ◌≡◌, refl,
  arith, ◌⊎◌, inl, inr, bit_and,
}
use hash_archive.Hash.Base64.{
  Alphabet, std, url, digit, first, second, third, fourth, padding, tail_one, tail_two, b64_text,
}
use hash_archive.Hash.Base64.Tables.{masks, second_lem, third_lem, digit_char, alphabet_char}

pub length-b64_text : (t : Alphabet) (buf : Bytes) → 4 * length buf ≤ 3 * length (b64_text t buf)
unfolding b64_text tail_one tail_two padding
length-b64_text t [] = omega arith
length-b64_text std (a ∷ []) = omega arith
length-b64_text url (a ∷ []) = omega arith
length-b64_text std (a ∷ b ∷ []) = omega arith
length-b64_text url (a ∷ b ∷ []) = omega arith
length-b64_text t (a ∷ b ∷ c ∷ buf) = omega (arith, length-b64_text t buf)

-- The text in the standard alphabet ends in at most two `=`.
pub body : Alphabet → Bytes → Bytes
body t [] = []
body t (a ∷ []) = digit t (first a) ∷ digit t (bit_and a 3 * 16) ∷ []
body t (a ∷ b ∷ []) = digit t (first a) ∷ digit t (second a b) ∷ digit t (bit_and b 15 * 4) ∷ []
body t (a ∷ b ∷ c ∷ buf) =
    digit t (first a) ∷ digit t (second a b) ∷ digit t (third b c) ∷ digit t (fourth c) ∷ body t buf

pub pad : Bytes → Bytes
pad [] = []
pad (a ∷ []) = codes "=="
pad (a ∷ b ∷ []) = codes "="
pad (a ∷ b ∷ c ∷ buf) = pad buf

pub b64_text-std : (buf : Bytes) → b64_text std buf ≡ body std buf ++ pad buf
unfolding b64_text tail_one tail_two padding body pad
b64_text-std [] = refl
b64_text-std (a ∷ []) = refl
b64_text-std (a ∷ b ∷ []) = refl
b64_text-std (a ∷ b ∷ c ∷ buf) = rw (b64_text-std buf)

pub b64_text-url : (buf : Bytes) → b64_text url buf ≡ body url buf
unfolding b64_text tail_one tail_two padding body
b64_text-url [] = refl
b64_text-url (a ∷ []) = refl
b64_text-url (a ∷ b ∷ []) = refl
b64_text-url (a ∷ b ∷ c ∷ buf) = rw (b64_text-url buf)

pub pad_cases : (buf : Bytes) → (pad buf ≡ []) ⊎ (pad buf ≡ codes "=") ⊎ (pad buf ≡ codes "==")
unfolding pad
pad_cases [] = inl refl
pad_cases (a ∷ []) = inr (inr refl)
pad_cases (a ∷ b ∷ []) = inr (inl refl)
pad_cases (a ∷ b ∷ c ∷ buf) = pad_cases buf

abbrev Written : Alphabet → ℕ → Type 0
Written t c = alphabet_char t c ≡ true

first-Written : (t : Alphabet) (a : ℕ) → IsByte a → Written t (digit t (first a))
first-Written t a ha = rw ((masks a ha).0) (digit_char t (a / 4) (omega arith))

pub body-Written :
    (t : Alphabet) (buf : Bytes) → All IsByte buf → All (λ c. alphabet_char t c ≡ true) (body t buf)
unfolding body
body-Written t [] h = tt
body-Written t (a ∷ []) (ha, h) =
    (first-Written t a ha, (rw ((masks a ha).1) (digit_char t (a % 4 * 16) (omega arith)), tt))
body-Written t (a ∷ b ∷ []) (ha, (hb, h)) = (
  first-Written t a ha,
  (
    rw (second_lem a b ha hb) (digit_char t (a % 4 * 16 + b / 16) (omega arith)),
    (rw ((masks b hb).3) (digit_char t (b % 16 * 4) (omega arith)), tt),
  ),
)
body-Written t (a ∷ b ∷ c ∷ buf) (ha, (hb, (hc, h))) = (
  first-Written t a ha,
  (
    rw (second_lem a b ha hb) (digit_char t (a % 4 * 16 + b / 16) (omega arith)),
    (
      rw (third_lem b c hb hc) (digit_char t (b % 16 * 4 + c / 64) (omega arith)),
      (rw ((masks c hc).5) (digit_char t (c % 64) (omega arith)), body-Written t buf h),
    ),
  ),
)
