-- ===== src/Html.antt =====
-- src/util/html.c: a text made safe to stand in a page.
pub mod Laws
use hash_archive.Prelude.{
  ℕ, zero, suc, ◌+◌, ◌-◌, Bytes, [], ◌∷◌, ◌++◌, codes, length, Option, none, some, ◌==◌,
  if◌then◌else◌,
}
use hash_archive.Error.{Result, ok, err, overrun}

-- `ENTITIES`: what is written for a byte. A byte with no entity stands for itself.
unfoldable pub entity : ℕ → Bytes
entity c =
    if c == b'&'
    then codes "&amp;"
    else if c == b'<'
    then codes "&lt;"
    else if c == b'>'
    then codes "&gt;"
    else if c == b'"'
    then codes "&quot;"
    else if c == 0x27
    then codes "&#x27;"
    else if c == b'/'
    then codes "&#x2F;"
    else c ∷ []

-- The first loop: how many bytes the second one needs.
unfoldable pub total_of : Bytes → ℕ → ℕ
total_of [] total = total
total_of (c ∷ str) total = total_of str (total + length (entity c))

-- The second loop copies into `enc`, of which `room` bytes are left; a copy past them is an overrun.
unfoldable pub copy : Bytes → Bytes → ℕ → Result Bytes
copy [] enc room = ok enc
copy (x ∷ e) enc zero = err overrun
copy (x ∷ e) enc (suc room) = copy e (enc ++ x ∷ []) room

unfoldable pub fill : Bytes → Bytes → ℕ → Result Bytes
fill [] enc room = ok enc
fill (c ∷ str) enc room = elim (copy (entity c) enc room) [
  | ok enc' ↦ fill str enc' (room - length (entity c))
  | err e ↦ err e
]

-- `enc[total] = '\0'`: whoever reads the string reads every byte before the terminator, and one that no
-- copy has written is an overrun.
unfoldable pub terminate : ℕ → Result Bytes → Result Bytes
terminate total (ok enc) = if length enc == total then ok enc else err overrun
terminate total (err e) = err e

-- The buffer has `total+1` bytes, the last of them for the terminator; `malloc` does not fail.
unfoldable pub html_encode : Option Bytes → Option (Result Bytes)
html_encode none = none
html_encode (some str) = some (terminate (total_of str 0) (fill str [] (total_of str 0)))
