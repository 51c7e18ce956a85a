-- ===== src/Url/Scan.antt =====
-- What `sscanf` does with `%N[set]`, `%m[set]` and a literal.
use hash_archive.Prelude.{
  ℕ, zero, suc, Bool, Bytes, [], ◌∷◌, Option, none, some, strip, if◌then◌else◌,
}

-- The longest run of at most `width` bytes of the set, and what stands behind it.
unfoldable pub run : ℕ → (ℕ → Bool) → Bytes → Bytes × Bytes
run zero p s = ([], s)
run (suc width) p [] = ([], [])
run (suc width) p (c ∷ s) =
    let (front, rest) = run width p s in if p c then (c ∷ front, rest) else ([], c ∷ s)

-- An empty run is a matching failure, and ends the scan.
abbrev pub non_empty : Bytes × Bytes → Option (Bytes × Bytes)
non_empty ([], rest) = none
non_empty (c ∷ front, rest) = some (c ∷ front, rest)

abbrev pub scan : ℕ → (ℕ → Bool) → Bytes → Option (Bytes × Bytes)
scan width p s = non_empty (run width p s)

abbrev pub scan_literal : Bytes → Bytes → Option Bytes
scan_literal = strip
