-- ===== src/Html/Laws.antt =====
-- `html_encode` never writes past its buffer, and what it writes is safe and can be read back.
use hash_archive.Prelude.{
  ℕ, zero, suc, ◌+◌, ◌-◌, ◌≤◌, Bytes, [], ◌∷◌, ◌++◌, append-nil, append_assoc, length,
  length-append, All, All-append, some, true, ◌==◌, ◌≡◌, ◌≢◌, refl, ap, ◌∙◌, arith,
}
use hash_archive.Error.{ok}
use hash_archive.Html.{entity, total_of, copy, fill, terminate, html_encode}

-- Every byte's entity, in order.
unfoldable pub escaped : Bytes → Bytes
escaped [] = []
escaped (c ∷ str) = entity c ++ escaped str

total_of-length : (str : Bytes) (total : ℕ) → total_of str total ≡ total + length (escaped str)
unfolding total_of escaped
total_of-length [] total = omega arith
total_of-length (c ∷ str) total =
    omega (
      arith,
      total_of-length str (total + length (entity c)),
      length-append (entity c) (escaped str),
    )

copy_fits : (e enc : Bytes) (room : ℕ) → length e ≤ room → copy e enc room ≡ ok (enc ++ e)
unfolding copy
copy_fits [] enc room h = rw append-nil
copy_fits (x ∷ e) enc zero h = absurd (omega arith)
copy_fits (x ∷ e) enc (suc room) h =
    copy_fits e (enc ++ x ∷ []) room (omega arith) ∙ ap ok (append_assoc enc (x ∷ []) e)

fill_fits :
    (str enc : Bytes) (room : ℕ)
    → length (escaped str) ≤ room
    → fill str enc room ≡ ok (enc ++ escaped str)
unfolding fill escaped
fill_fits [] enc room h = rw append-nil
fill_fits (c ∷ str) enc room h =
    let n = length-append (entity c) (escaped str) in
    rw (copy_fits (entity c) enc room (omega (arith, n)), fill)
      (fill_fits str (enc ++ entity c) (room - length (entity c)) (omega (arith, n))
        ∙ ap ok (append_assoc enc (entity c) (escaped str)))

-- The buffer that the first loop measures is filled by the second exactly to the terminator: no copy
-- goes past it and no byte before it is left unwritten, so the result is the entity of every byte, in
-- order.
pub html_encode-escaped : (str : Bytes) → html_encode (some str) ≡ some (ok (escaped str))
unfolding html_encode terminate
html_encode-escaped str =
    let full = total_of-length str 0 in
    let same : (length (escaped str) == total_of str 0) ≡ true = ground (arith, full) in
    rw (fill_fits str [] (total_of str 0) (omega (arith, full)), same) refl

-- The bytes that could end a text or an attribute's value, or begin a tag.
abbrev pub IsSafe : ℕ → Type 0
IsSafe c = (c ≢ b'<') × (c ≢ b'>') × (c ≢ b'"') × (c ≢ 0x27) × (c ≢ b'/')

entity-IsSafe : (c : ℕ) → All IsSafe (entity c)
unfolding entity
entity-IsSafe c = ground arith

pub escaped-IsSafe : (str : Bytes) → All IsSafe (escaped str)
unfolding escaped
escaped-IsSafe [] = tt
escaped-IsSafe (c ∷ str) =
    All-append IsSafe (entity c) (escaped str) (entity-IsSafe c) (escaped-IsSafe str)

-- Whatever the text, the result holds none of the five bytes that end an attribute or begin a tag.
pub html_encode-IsSafe : (str out : Bytes) → html_encode (some str) ≡ some (ok out) → All IsSafe out
html_encode-IsSafe str out e =
    let same : escaped str ≡ out = cc (html_encode-escaped str) in rw (← same) (escaped-IsSafe str)
