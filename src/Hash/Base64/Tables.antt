-- ===== src/Hash/Base64/Tables.antt =====
-- The bit operations of the two loops as arithmetic, and the alphabets.
use hash_archive.Prelude.{
  and-true, ℕ, ◌+◌, ◌*◌, ◌/◌, ◌%◌, ◌<◌, Bool, true, false, not, ◌&&◌, ◌||◌, bit_and, bit_or, IsByte,
  holds_below, holds_below-eq, ◌==◌, ◌≡◌, refl, arith, is_alnum, one_of, codes,
}
use hash_archive.Error.{is_ok, is_ok-eq, ok}
use hash_archive.Hash.Base64.{
  Alphabet, std, url, b64_term, b64_char, digit, b64_map, first, second, third, fourth, join,
}

-- The parts of a byte.
mask_table :
    holds_below 256 (λ b.
      first b == b / 4
      && bit_and b 0x03 * 16 == b % 4 * 16
      && bit_and b 0xf0 / 16 == b / 16
      && bit_and b 0x0f * 4 == b % 16 * 4
      && bit_and b 0xc0 / 64 == b / 64
      && fourth b == b % 64)
    ≡ true
unfolding holds_below first fourth
mask_table = refl

pub masks :
    (b : ℕ)
    → IsByte b
    → (first b ≡ b / 4)
      × (bit_and b 0x03 * 16 ≡ b % 4 * 16)
      × (bit_and b 0xf0 / 16 ≡ b / 16)
      × (bit_and b 0x0f * 4 ≡ b % 16 * 4)
      × (bit_and b 0xc0 / 64 ≡ b / 64)
      × (fourth b ≡ b % 64)
masks b h = ground (arith, holds_below-eq 256 _ b mask_table h)

or_table :
    holds_below 64 (λ n. bit_or (n / 16 * 16) (n % 16) == n && bit_or (n / 4 * 4) (n % 4) == n)
    ≡ true
unfolding holds_below
or_table = refl

or_parts : (n : ℕ) → n < 64 → (bit_or (n / 16 * 16) (n % 16) ≡ n) × (bit_or (n / 4 * 4) (n % 4) ≡ n)
or_parts n h = ground (arith, holds_below-eq 64 _ n or_table h)

pub second_lem : (a b : ℕ) → IsByte a → IsByte b → second a b ≡ a % 4 * 16 + b / 16
unfolding second
second_lem a b ha hb =
    ground (arith, masks a ha, masks b hb, or_parts (a % 4 * 16 + b / 16) (omega arith))

pub third_lem : (b c : ℕ) → IsByte b → IsByte c → third b c ≡ b % 16 * 4 + c / 64
unfolding third
third_lem b c hb hc =
    ground (arith, masks b hb, masks c hc, or_parts (b % 16 * 4 + c / 64) (omega arith))

join_table :
    holds_below 4096 (λ n.
      let hi = n / 64 in
      let lo = n % 64 in
      join (hi * 4) (lo / 16) == (hi * 4 + lo / 16) % 256
      && join (hi * 16) (lo / 4) == (hi * 16 + lo / 4) % 256
      && join (hi * 64) lo == (hi * 64 + lo) % 256)
    ≡ true
unfolding holds_below join
join_table = refl

join_parts :
    (n : ℕ)
    → n < 4096
    → let hi = n / 64 in
      let lo = n % 64 in
      (join (hi * 4) (lo / 16) ≡ (hi * 4 + lo / 16) % 256)
      × (join (hi * 16) (lo / 4) ≡ (hi * 16 + lo / 4) % 256)
      × (join (hi * 64) lo ≡ (hi * 64 + lo) % 256)
join_parts n h = ground (arith, holds_below-eq 4096 _ n join_table h)

pub joins :
    (hi lo : ℕ)
    → hi < 64
    → lo < 64
    → (join (hi * 4) (lo / 16) ≡ (hi * 4 + lo / 16) % 256)
      × (join (hi * 16) (lo / 4) ≡ (hi * 16 + lo / 4) % 256)
      × (join (hi * 64) lo ≡ (hi * 64 + lo) % 256)
joins hi lo hh hl =
    let t = join_parts (hi * 64 + lo) (omega arith) in
    let e : (hi * 64 + lo) / 64 ≡ hi = omega arith in
    let f : (hi * 64 + lo) % 64 ≡ lo = omega arith in rw (e, f) at t

abbrev digit_ok : Alphabet → ℕ → Bool
digit_ok t n = is_ok (b64_char (digit t n)) n && not (b64_term (digit t n))

std_table : holds_below 64 (digit_ok std) ≡ true
unfolding holds_below is_ok b64_char b64_term digit b64_map
std_table = refl

url_table : holds_below 64 (digit_ok url) ≡ true
unfolding holds_below is_ok b64_char b64_term digit b64_map
url_table = refl

digits_ok : (t : Alphabet) (n : ℕ) → n < 64 → digit_ok t n ≡ true
digits_ok std n h = holds_below-eq 64 _ n std_table h
digits_ok url n h = holds_below-eq 64 _ n url_table h

pub digit_read :
    (t : Alphabet) (n : ℕ) → n < 64 → (b64_char (digit t n) ≡ ok n) × (b64_term (digit t n) ≡ false)
digit_read t n h = let d = and-true _ _ (digits_ok t n h) in (is_ok-eq _ n d.0, ground (arith, d.1))

-- The characters that each alphabet writes.
abbrev pub alphabet_char : Alphabet → ℕ → Bool
alphabet_char std c = is_alnum c || one_of (codes "+/") c
alphabet_char url c = is_alnum c || one_of (codes "_-") c

std_char_table : holds_below 64 (λ n. alphabet_char std (digit std n)) ≡ true
unfolding holds_below digit b64_map is_alnum one_of
std_char_table = refl

url_char_table : holds_below 64 (λ n. alphabet_char url (digit url n)) ≡ true
unfolding holds_below digit b64_map is_alnum one_of
url_char_table = refl

pub digit_char : (t : Alphabet) (n : ℕ) → n < 64 → alphabet_char t (digit t n) ≡ true
digit_char std n h = holds_below-eq 64 _ n std_char_table h
digit_char url n h = holds_below-eq 64 _ n url_char_table h
