-- ===== src/Markdown/Rounds.antt =====
-- The rounds of `md_autolink` over one text: a round for each byte is enough.
use hash_archive.Prelude.{
  ℕ, zero, suc, ◌+◌, ◌≤◌, ◌<◌, Bytes, Option, none, some, take, drop, length, length-drop, ◌≡◌,
  refl, ap, arith,
}
use hash_archive.Markdown.{text, none_left, then_node, linked, at_match, autolink_text}

-- What POSIX documents of a match, for a pattern that does not match the empty text.
abbrev pub IsMatcher : (Bytes → Option (ℕ × ℕ)) → Type 0
IsMatcher linkify =
    (s : Bytes) (loc len : ℕ) → linkify s ≡ some (loc, len) → (0 < len) × (loc + len ≤ length s)

shorter :
    (s : Bytes) (loc len n : ℕ)
    → 0 < len
    → loc + len ≤ length s
    → length s ≤ suc n
    → length (drop len (drop loc s)) ≤ n
shorter s loc len n pos fits le =
    let a = length-drop loc s in let b = length-drop len (drop loc s) in omega arith

-- With a round for each byte or more, the nodes are the same: no text is left before it was searched.
pub autolink_text-enough :
    (linkify : Bytes → Option (ℕ × ℕ)) (law : IsMatcher linkify) (n m : ℕ) (s : Bytes)
    → length s ≤ n
    → length s ≤ m
    → autolink_text linkify n s ≡ autolink_text linkify m s
unfolding autolink_text
autolink_text-enough linkify law zero zero s hn hm = refl
autolink_text-enough linkify law zero (suc m) s hn hm = go (linkify s) refl
  where
    go :
        (r : Option (ℕ × ℕ))
        → linkify s ≡ r
        → then_node (text s) none_left ≡ at_match linkify s r (autolink_text linkify m)
    go none e = refl
    go (some (loc, len)) e = let (p, q) = law s loc len e in absurd (omega arith)
autolink_text-enough linkify law (suc n) zero s hn hm = go (linkify s) refl
  where
    go :
        (r : Option (ℕ × ℕ))
        → linkify s ≡ r
        → at_match linkify s r (autolink_text linkify n) ≡ then_node (text s) none_left
    go none e = refl
    go (some (loc, len)) e = let (p, q) = law s loc len e in absurd (omega arith)
autolink_text-enough linkify law (suc n) (suc m) s hn hm =
    go (linkify s) refl (autolink_text-enough linkify law n m)
  where
    go :
        (r : Option (ℕ × ℕ))
        → linkify s ≡ r
        → ((t : Bytes)
            → length t ≤ n
            → length t ≤ m
            → autolink_text linkify n t ≡ autolink_text linkify m t)
        → at_match linkify s r (autolink_text linkify n)
          ≡ at_match linkify s r (autolink_text linkify m)
    go none e ih = refl
    go (some (loc, len)) e ih =
        let (p, q) = law s loc len e in
        ap (linked (take loc s) (take len (drop loc s)))
          (ih (drop len (drop loc s)) (shorter s loc len n p q hn) (shorter s loc len m p q hm))
