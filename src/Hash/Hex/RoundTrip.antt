-- ===== src/Hash/Hex/RoundTrip.antt =====
-- What `hex_encode` and `hex_decode` promise one another.
use hash_archive.Prelude.{
  and-true, ◌%◌, ◌∙◌, sym, take-nil, ℕ, zero, suc, ◌-◌, ◌*◌, ◌/◌, ◌<◌, Bytes, [], ◌∷◌, ◌++◌, true,
  ◌&&◌, length, take, All, IsByte, holds_below, holds_below-eq, ◌==◌, ==_iff, ◌≡◌, refl, ap, arith,
  leb, is_alnum,
}
use hash_archive.Error.{is_ok, is_ok-eq, ok, ◌>>=◌}
use hash_archive.Hash.Hex.{hex_char, hex_hi, hex_lo, hex_byte, hex_encode, hex_decode, hex_text}

-- Reading the two digits of a byte gives the byte.
byte_table :
    holds_below 256 (λ b.
      is_ok (hex_char (hex_hi b)) (b / 16)
      && is_ok (hex_char (hex_lo b)) (b % 16)
      && hex_byte (b / 16) (b % 16) == b)
    ≡ true
unfolding holds_below is_ok hex_char hex_hi hex_lo hex_byte
byte_table = refl

digit_table :
    holds_below 256
      (λ b. is_alnum (hex_hi b) && is_alnum (hex_lo b) && leb 1 (hex_hi b) && leb 1 (hex_lo b))
    ≡ true
unfolding holds_below is_alnum hex_hi hex_lo
digit_table = refl

hex_step :
    (b : ℕ)
    → IsByte b
    → (hex_char (hex_hi b) ≡ ok (b / 16))
      × (hex_char (hex_lo b) ≡ ok (b % 16))
      × (hex_byte (b / 16) (b % 16) ≡ b)
hex_step b h =
    let t = and-true _ _ (holds_below-eq 256 _ b byte_table h) in
    let u = and-true _ _ t.0 in (is_ok-eq _ _ u.0, is_ok-eq _ _ u.1, (==_iff _ b).0 t.1)

digits_alnum :
    (b : ℕ)
    → IsByte b
    → (is_alnum (hex_hi b) ≡ true) × (is_alnum (hex_lo b) ≡ true) × (0 < hex_hi b) × (0 < hex_lo b)
digits_alnum b h = ground (arith, holds_below-eq 256 _ b digit_table h)

pub hex_text-alnum : (buf : Bytes) → All IsByte buf → All (λ c. is_alnum c ≡ true) (hex_text buf)
unfolding hex_text
hex_text-alnum [] h = tt
hex_text-alnum (b ∷ buf) (hb, h) = let d = digits_alnum b hb in (d.0, (d.1, hex_text-alnum buf h))

pub length-hex_text : (buf : Bytes) → length (hex_text buf) ≡ 2 * length buf
unfolding hex_text
length-hex_text [] = refl
length-hex_text (b ∷ buf) = omega (arith, length-hex_text buf)

hex_cut : (buf : Bytes) (max q : ℕ) → (max - 1) / 2 ≡ q → hex_encode buf max ≡ hex_text (take q buf)
unfolding hex_encode hex_text
hex_cut [] max q e = rw take-nil
hex_cut (b ∷ buf) max zero e = ground arith
hex_cut (b ∷ buf) max (suc q) e = ground (arith, hex_cut buf (max - 2) q (omega arith))

-- The text is cut where there is no room for two more digits and the terminator.
pub hex_encode-take :
    (buf : Bytes) (max : ℕ) → hex_encode buf max ≡ hex_text (take ((max - 1) / 2) buf)
hex_encode-take buf max = hex_cut buf max _ refl

decode_round :
    (b : ℕ) (str : Bytes) (len max : ℕ)
    → IsByte b
    → hex_decode (hex_hi b ∷ hex_lo b ∷ str) (suc (suc len)) (suc max)
      ≡ (hex_decode str len max >>= λ out. ok (b ∷ out))
unfolding hex_decode
decode_round b str len max h = ground (arith, hex_step b h, digits_alnum b h)

hex_decode-zero : (str : Bytes) (len : ℕ) → hex_decode str len zero ≡ ok []
unfolding hex_decode
hex_decode-zero [] len = refl
hex_decode-zero (a ∷ []) len = refl
hex_decode-zero (a ∷ b ∷ str) len = refl

hex_decode_end : (str : Bytes) (max : ℕ) → hex_decode str 0 max ≡ ok []
unfolding hex_decode
hex_decode_end [] max = refl
hex_decode_end (a ∷ []) max = refl
hex_decode_end (a ∷ b ∷ str) zero = refl
hex_decode_end (a ∷ b ∷ str) (suc max) = refl

-- The digits of a buffer, whatever stands behind them, are decoded to the buffer, as far as there is
-- room for it.
pub hex_decode-hex_text :
    (buf rest : Bytes) (max : ℕ)
    → All IsByte buf
    → hex_decode (hex_text buf ++ rest) (2 * length buf) max ≡ ok (take max buf)
unfolding hex_text
hex_decode-hex_text [] rest max h = hex_decode_end rest max ∙ ap ok (sym (take-nil max))
hex_decode-hex_text (b ∷ buf) rest zero h = hex_decode-zero _ _
hex_decode-hex_text (b ∷ buf) rest (suc max) (hb, h) =
    let e : 2 * suc (length buf) ≡ suc (suc (2 * length buf)) = omega arith in
    rw (e, decode_round b (hex_text buf ++ rest) _ max hb, hex_decode-hex_text buf rest max h)
