-- ===== src/Page/Ordinal.antt =====
-- The suffix of a day of the month.
use hash_archive.Prelude.{
  ℕ, ◌<◌, Bool, true, false, not, ◌&&◌, ◌||◌, leb, ◌==◌, if◌then◌else◌, Bytes, codes, bytes_eq,
  holds_below, holds_below-eq, ◌≡◌, refl, sym,
}
use hash_archive.Page.{suffix_of}

-- The English suffix of a day.
abbrev pub ordinal : ℕ → Bytes
ordinal d =
    if d == 1 || d == 21 || d == 31
    then codes "st"
    else if d == 2 || d == 22
    then codes "nd"
    else if d == 3 || d == 23
    then codes "rd"
    else codes "th"

abbrev same : Bool → Bool → Bool
same true b = b
same false b = not b

same-eq : (a b : Bool) → same a b ≡ true → a ≡ b
same-eq true b h = sym h
same-eq false true h = cc
same-eq false false h = refl

abbrev test : ℕ → Bool
test d = same (bytes_eq (suffix_of d) (ordinal d)) (not (leb 11 d && leb d 13))

table : holds_below 32 test ≡ true
unfolding holds_below bytes_eq suffix_of
table = refl

-- The suffix that is written is the English one on every day below the 32nd but the 11th, the 12th and the 13th.
pub suffix_of-ordinal :
    (d : ℕ) → d < 32 → bytes_eq (suffix_of d) (ordinal d) ≡ not (leb 11 d && leb d 13)
suffix_of-ordinal d h = same-eq _ _ (holds_below-eq 32 test d table h)
