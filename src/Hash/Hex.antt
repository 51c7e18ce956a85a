-- ===== src/Hash/Hex.antt =====
-- `hex_encode` and `hex_decode` of src/util/hash.c. The loops walk over the buffer: `room` is what is
-- left of `max`, `len` what is left of the length.
pub mod RoundTrip
use hash_archive.Prelude.{
  ℕ, zero, suc, ◌+◌, ◌-◌, ◌*◌, ◌/◌, ◌%◌, ◌^◌, Bytes, [], ◌∷◌, codes, bit_and, bit_or, ltb, leb,
  ◌==◌, ◌&&◌, ◌||◌, if◌then◌else◌, get_or,
}
use hash_archive.Error.{einval, Result, ok, err, ◌>>=◌}

abbrev pub hex_map : Bytes
hex_map = codes "0123456789abcdef"

unfoldable pub hex_char : ℕ → Result ℕ
hex_char c =
    if leb b'0' c && leb c b'9'
    then ok (c - b'0')
    else if leb b'a' c && leb c b'f'
    then ok (c - b'a' + 0xa)
    else if leb b'A' c && leb c b'F'
    then ok (c - b'A' + 0xA)
    else err einval

-- The two digits of a byte: `map[b >> 4 & 0xf]` and `map[b >> 0 & 0xf]`.
unfoldable pub hex_hi : ℕ → ℕ
hex_hi b = get_or hex_map (bit_and (b / 2 ^ 4) 0xf) 0

unfoldable pub hex_lo : ℕ → ℕ
hex_lo b = get_or hex_map (bit_and b 0xf) 0

-- The loop makes a round while `i*2+1+1 < max` and `i < len`. The text's length is the return value.
unfoldable pub hex_encode : Bytes → ℕ → Bytes
hex_encode [] room = []
hex_encode (b ∷ buf) room =
    let rest = hex_encode buf (room - 2) in if ltb 2 room then hex_hi b ∷ hex_lo b ∷ rest else []

-- `hi << 4 | lo << 0`, stored in an unsigned char
unfoldable pub hex_byte : ℕ → ℕ → ℕ
hex_byte hi lo = bit_or (hi * 2 ^ 4) lo % 2 ^ 8

-- `str` may go on behind `len`, and it may end before: reading the terminator stops the loop.
unfoldable pub hex_decode : Bytes → ℕ → ℕ → Result Bytes
hex_decode [] len max = ok []
hex_decode (a ∷ []) len max = ok []
hex_decode (a ∷ b ∷ str) len zero = ok []
hex_decode (a ∷ b ∷ str) len (suc max) =
    let more = hex_decode str (len - 2) max in
    let round =
      hex_char a >>= λ hi. hex_char b >>= λ lo. more >>= λ out. ok (hex_byte hi lo ∷ out) in
    if leb len 1 || a == 0 || b == 0 then ok [] else round

-- The digits of bytes written without a bound on the text.
unfoldable pub hex_text : Bytes → Bytes
hex_text [] = []
hex_text (b ∷ buf) = hex_hi b ∷ hex_lo b ∷ hex_text buf
