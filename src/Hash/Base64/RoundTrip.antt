-- ===== src/Hash/Base64/RoundTrip.antt =====
-- What `b64_encode` and `b64_decode` promise one another.
use hash_archive.Prelude.{
  bit_and, get_or, ◌||◌, ℕ, zero, suc, ◌+◌, ◌-◌, ◌*◌, ◌/◌, ◌%◌, ◌≤◌, ◌<◌, Bytes, [], ◌∷◌, true,
  false, length, take, take-nil, All, IsByte, ◌≡◌, refl, arith, leb,
}
use hash_archive.Error.{Result, ok, ◌>>=◌}
use hash_archive.Hash.Base64.{
  Alphabet, std, url, b64_term, b64_char, digit, first, second, third, fourth, join, padding,
  tail_one, tail_two, b64_encode, b64_round, b64_decode, b64_text,
}
use hash_archive.Hash.Base64.Tables.{masks, second_lem, third_lem, joins, digit_read}

cut :
    (t : Alphabet) (buf : Bytes) (max q : ℕ)
    → (max - 1) / 4 ≡ q
    → b64_encode t buf max ≡ b64_text t (take (3 * q) buf)
unfolding b64_encode b64_text
cut t [] max q e = rw take-nil
cut t (a ∷ []) max zero e = ground arith
cut t (a ∷ b ∷ []) max zero e = ground arith
cut t (a ∷ b ∷ c ∷ buf) max zero e = ground arith
cut t (a ∷ []) max (suc q) e =
    let k : 3 * suc q ≡ suc (suc (suc (3 * q))) = omega arith in rw k (ground arith)
cut t (a ∷ b ∷ []) max (suc q) e =
    let k : 3 * suc q ≡ suc (suc (suc (3 * q))) = omega arith in rw k (ground arith)
cut t (a ∷ b ∷ c ∷ buf) max (suc q) e =
    let k : 3 * suc q ≡ suc (suc (suc (3 * q))) = omega arith in
    let ih = cut t buf (max - 4) q (omega arith) in rw k (ground (arith, ih))

-- The text is cut where the next round has no room: after a whole number of three bytes.
pub b64_encode-take :
    (t : Alphabet) (buf : Bytes) (max : ℕ)
    → b64_encode t buf max ≡ b64_text t (take (3 * ((max - 1) / 4)) buf)
b64_encode-take t buf max = cut t buf max _ refl

-- What a character is read as.
abbrev Reads : ℕ → ℕ → Type 0
Reads c s = (b64_char c ≡ ok s) × (b64_term c ≡ false)

digit-Reads : (t : Alphabet) (n : ℕ) → n < 64 → Reads (digit t n) n
digit-Reads t n h = digit_read t n h

round_four :
    (c0 c1 c2 c3 s0 s1 s2 s3 len max : ℕ) (more : Result Bytes)
    → Reads c0 s0
    → Reads c1 s1
    → Reads c2 s2
    → Reads c3 s3
    → b64_round (c0 ∷ c1 ∷ c2 ∷ c3 ∷ []) (suc (suc (suc (suc len)))) (suc (suc (suc max))) more ≡ (
        more >>= λ out.
        ok (join (s0 * 4) (s1 / 16) ∷ join (s1 * 16) (s2 / 4) ∷ join (s2 * 64) s3 ∷ out))
unfolding b64_round
round_four c0 c1 c2 c3 s0 s1 s2 s3 len max more r0 r1 r2 r3 =
    rw (r0.0, r0.1, r1.0, r1.1, r2.0, r2.1, r3.0, r3.1) (ground arith)

round_three :
    (c0 c1 c2 s0 s1 s2 len max : ℕ) (str : Bytes) (more : Result Bytes)
    → Reads c0 s0
    → Reads c1 s1
    → Reads c2 s2
    → 2 < len
    → (leb len 3 || b64_term (get_or str 0 0)) ≡ true
    → b64_round (c0 ∷ c1 ∷ c2 ∷ str) len (suc (suc max)) more
      ≡ ok (join (s0 * 4) (s1 / 16) ∷ join (s1 * 16) (s2 / 4) ∷ [])
unfolding b64_round
round_three c0 c1 c2 s0 s1 s2 len max str more r0 r1 r2 n e =
    rw (r0.0, r0.1, r1.0, r1.1, r2.0, r2.1) (ground arith)

round_two :
    (c0 c1 s0 s1 len max : ℕ) (str : Bytes) (more : Result Bytes)
    → Reads c0 s0
    → Reads c1 s1
    → 1 < len
    → (leb len 2 || b64_term (get_or str 0 0)) ≡ true
    → b64_round (c0 ∷ c1 ∷ str) len (suc max) more ≡ ok (join (s0 * 4) (s1 / 16) ∷ [])
unfolding b64_round
round_two c0 c1 s0 s1 len max str more r0 r1 n e = rw (r0.0, r0.1, r1.0, r1.1) (ground arith)

-- A full round gives its three bytes back.
round_full :
    (t : Alphabet) (a b c len max : ℕ) (more : Result Bytes)
    → IsByte a
    → IsByte b
    → IsByte c
    → b64_round
        (digit t (first a) ∷ digit t (second a b) ∷ digit t (third b c) ∷ digit t (fourth c) ∷ [])
        (suc (suc (suc (suc len))))
        (suc (suc (suc max)))
        more
      ≡ (more >>= λ out. ok (a ∷ b ∷ c ∷ out))
round_full t a b c len max more ha hb hc =
    rw
      (
        (masks a ha).0,
        second_lem a b ha hb,
        third_lem b c hb hc,
        (masks c hc).5,
        round_four _ _ _ _ _ _ _ _ len max more (digit-Reads t (a / 4) (omega arith))
            (digit-Reads t (a % 4 * 16 + b / 16) (omega arith))
            (digit-Reads t (b % 16 * 4 + c / 64) (omega arith))
            (digit-Reads t (c % 64) (omega arith)),
      )
      (ground (
        arith,
        joins (a / 4) (a % 4 * 16 + b / 16) (omega arith) (omega arith),
        joins (a % 4 * 16 + b / 16) (b % 16 * 4 + c / 64) (omega arith) (omega arith),
        joins (b % 16 * 4 + c / 64) (c % 64) (omega arith) (omega arith),
      ))

round_one_byte :
    (t : Alphabet) (a len max : ℕ) (str : Bytes) (more : Result Bytes)
    → IsByte a
    → 1 < len
    → (leb len 2 || b64_term (get_or str 0 0)) ≡ true
    → b64_round (digit t (first a) ∷ digit t (bit_and a 3 * 16) ∷ str) len (suc max) more
      ≡ ok (a ∷ [])
round_one_byte t a len max str more ha n e =
    rw
      (
        (masks a ha).0,
        (masks a ha).1,
        round_two _ _ _ _ len max str more (digit-Reads t (a / 4) (omega arith))
            (digit-Reads t (a % 4 * 16) (omega arith)) n e,
      )
      (ground (arith, joins (a / 4) (a % 4 * 16) (omega arith) (omega arith)))

round_two_bytes :
    (t : Alphabet) (a b len max : ℕ) (str : Bytes) (more : Result Bytes)
    → IsByte a
    → IsByte b
    → 2 < len
    → (leb len 3 || b64_term (get_or str 0 0)) ≡ true
    → b64_round
        (digit t (first a) ∷ digit t (second a b) ∷ digit t (bit_and b 15 * 4) ∷ str)
        len
        (suc (suc max))
        more
      ≡ ok (a ∷ b ∷ [])
round_two_bytes t a b len max str more ha hb n e =
    rw
      (
        (masks a ha).0,
        second_lem a b ha hb,
        (masks b hb).3,
        round_three _ _ _ _ _ _ len max str more (digit-Reads t (a / 4) (omega arith))
            (digit-Reads t (a % 4 * 16 + b / 16) (omega arith))
            (digit-Reads t (b % 16 * 4) (omega arith)) n e,
      )
      (ground (
        arith,
        joins (a / 4) (a % 4 * 16 + b / 16) (omega arith) (omega arith),
        joins (a % 4 * 16 + b / 16) (b % 16 * 4) (omega arith) (omega arith),
      ))

-- Where the text of a buffer is read to its end, with room for the buffer, the buffer comes back: in
-- both alphabets, with padding and without.
pub b64_decode-b64_text :
    (t : Alphabet) (buf : Bytes) (max : ℕ)
    → All IsByte buf
    → length buf ≤ max
    → b64_decode (b64_text t buf) (length (b64_text t buf)) max ≡ ok buf
unfolding b64_decode b64_text tail_one tail_two padding b64_term
b64_decode-b64_text t [] max h fits = unfold b64_round in ground arith
b64_decode-b64_text t (a ∷ buf) zero h fits = absurd (omega arith)
b64_decode-b64_text std (a ∷ []) (suc max) (ha, h) fits =
    round_one_byte std a _ max _ _ ha (omega arith) refl
b64_decode-b64_text url (a ∷ []) (suc max) (ha, h) fits =
    round_one_byte url a _ max _ _ ha (omega arith) refl
b64_decode-b64_text t (a ∷ b ∷ buf) (suc zero) h fits = absurd (omega arith)
b64_decode-b64_text std (a ∷ b ∷ []) (suc (suc max)) (ha, (hb, h)) fits =
    round_two_bytes std a b _ max _ _ ha hb (omega arith) refl
b64_decode-b64_text url (a ∷ b ∷ []) (suc (suc max)) (ha, (hb, h)) fits =
    round_two_bytes url a b _ max _ _ ha hb (omega arith) refl
b64_decode-b64_text t (a ∷ b ∷ c ∷ buf) (suc (suc zero)) h fits = absurd (omega arith)
b64_decode-b64_text t (a ∷ b ∷ c ∷ buf) (suc (suc (suc max))) (ha, (hb, (hc, h))) fits =
    let ih = b64_decode-b64_text t buf max h (omega arith) in
    let k : suc (suc (suc (suc (length (b64_text t buf))))) - 4 ≡ length (b64_text t buf) =
      omega arith in
    let j : suc (suc (suc max)) - 3 ≡ max = omega arith in
    rw (k, j, ih, round_full t a b c (length (b64_text t buf)) max (ok buf) ha hb hc)
