-- ===== src/Hash/Base64.antt =====
-- `b64_encode` and `b64_decode` of src/util/hash.c. A round of a loop reads three bytes, or four
-- characters; `room`, `len` and `max` are what is left of the bounds when it begins.
mod Tables
pub mod Text
pub mod RoundTrip
use hash_archive.Prelude.{
  ℕ, suc, ◌+◌, ◌-◌, ◌*◌, ◌/◌, ◌%◌, ◌^◌, Bool, true, false, Bytes, [], ◌∷◌, codes, bit_and, bit_or,
  leb, ltb, ◌==◌, ◌&&◌, ◌||◌, if◌then◌else◌, get_or,
}
use hash_archive.Error.{einval, Result, ok, err, ◌>>=◌}

-- `b64_type`
pub data Alphabet : Type 0 where
  std url : Alphabet

unfoldable pub b64_term : ℕ → Bool
b64_term c = 0 == c || b'=' == c

unfoldable pub b64_char : ℕ → Result ℕ
b64_char c =
    if leb b'A' c && leb c b'Z'
    then ok (c - b'A')
    else if leb b'a' c && leb c b'z'
    then ok (c - b'a' + 26)
    else if leb b'0' c && leb c b'9'
    then ok (c - b'0' + 52)
    else if b'+' == c || b'-' == c
    then ok 62
    else if b'/' == c || b'_' == c
    then ok 63
    else err einval

unfoldable pub b64_map : Alphabet → Bytes
b64_map std = codes "ABCDEFGHIJKLMNOPQRSTUVWXYZabcdefghijklmnopqrstuvwxyz0123456789+/"
b64_map url = codes "ABCDEFGHIJKLMNOPQRSTUVWXYZabcdefghijklmnopqrstuvwxyz0123456789-_"

unfoldable pub digit : Alphabet → ℕ → ℕ
digit t b = get_or (b64_map t) b 0

-- The four indices that a round computes, from three bytes.
unfoldable pub first : ℕ → ℕ
first a = bit_and a 0xfc / 2 ^ 2

unfoldable pub second : ℕ → ℕ → ℕ
second a b = bit_or (bit_and a 0x03 * 2 ^ 4) (bit_and b 0xf0 / 2 ^ 4)

unfoldable pub third : ℕ → ℕ → ℕ
third b c = bit_or (bit_and b 0x0f * 2 ^ 2) (bit_and c 0xc0 / 2 ^ 6)

unfoldable pub fourth : ℕ → ℕ
fourth c = bit_and c 0x3f

-- `extend ? '=' : '\0'`, for `n` characters
unfoldable pub padding : Alphabet → Bytes → Bytes
padding std pad = pad
padding url pad = []

-- The text of a last round with one byte, with two, and of a full round.
unfoldable pub tail_one : Alphabet → ℕ → Bytes
tail_one t a = digit t (first a) ∷ digit t (bit_and a 0x03 * 2 ^ 4) ∷ padding t (codes "==")

unfoldable pub tail_two : Alphabet → ℕ → ℕ → Bytes
tail_two t a b =
    digit t (first a)
    ∷ digit t (second a b)
    ∷ digit t (bit_and b 0x0f * 2 ^ 2)
    ∷ padding t (codes "=")

-- `if(i*4+3+1 >= max) return`: a round begins with more than four places left.
unfoldable pub b64_encode : Alphabet → Bytes → ℕ → Bytes
b64_encode t [] room = []
b64_encode t (a ∷ []) room = if leb room 4 then [] else tail_one t a
b64_encode t (a ∷ b ∷ []) room = if leb room 4 then [] else tail_two t a b
b64_encode t (a ∷ b ∷ c ∷ buf) room =
    let rest = b64_encode t buf (room - 4) in
    if leb room 4
    then []
    else digit t (first a) ∷ digit t (second a b) ∷ digit t (third b c) ∷ digit t (fourth c) ∷ rest

-- `hi << k | lo >> j`, stored in an unsigned char
unfoldable pub join : ℕ → ℕ → ℕ
join hi lo = bit_or hi lo % 2 ^ 8

-- One round, on the characters in `str`; a read behind them gives the terminator. `more` is what the
-- later rounds return.
unfoldable pub b64_round : Bytes → ℕ → ℕ → Result Bytes → Result Bytes
b64_round str len max more =
    let c0 = get_or str 0 0 in
    let c1 = get_or str 1 0 in
    let c2 = get_or str 2 0 in
    let c3 = get_or str 3 0 in
    if leb max 0 || leb len 0 || b64_term c0
    then ok []
    else b64_char c0 >>= λ s0.
        if leb len 1 || b64_term c1
        then ok []
        else b64_char c1 >>= λ s1.
            let o0 = join (s0 * 2 ^ 2) (s1 / 2 ^ 4) in
            if leb max 1 || leb len 2 || b64_term c2
            then ok (o0 ∷ [])
            else b64_char c2 >>= λ s2.
                let o1 = join (s1 * 2 ^ 4) (s2 / 2 ^ 2) in
                if leb max 2 || leb len 3 || b64_term c3
                then ok (o0 ∷ o1 ∷ [])
                else b64_char c3 >>= λ s3. more >>= λ out. ok (o0 ∷ o1 ∷ join (s2 * 2 ^ 6) s3 ∷ out)

unfoldable pub b64_decode : Bytes → ℕ → ℕ → Result Bytes
b64_decode [] len max = b64_round [] len max (ok [])
b64_decode (a ∷ []) len max = b64_round (a ∷ []) len max (ok [])
b64_decode (a ∷ b ∷ []) len max = b64_round (a ∷ b ∷ []) len max (ok [])
b64_decode (a ∷ b ∷ c ∷ []) len max = b64_round (a ∷ b ∷ c ∷ []) len max (ok [])
b64_decode (a ∷ b ∷ c ∷ d ∷ str) len max =
    b64_round (a ∷ b ∷ c ∷ d ∷ []) len max (b64_decode str (len - 4) (max - 3))

-- The text of a buffer with no bound on it.
unfoldable pub b64_text : Alphabet → Bytes → Bytes
b64_text t [] = []
b64_text t (a ∷ []) = tail_one t a
b64_text t (a ∷ b ∷ []) = tail_two t a b
b64_text t (a ∷ b ∷ c ∷ buf) =
    digit t (first a)
    ∷ digit t (second a b)
    ∷ digit t (third b c)
    ∷ digit t (fourth c)
    ∷ b64_text t buf
