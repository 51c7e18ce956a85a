-- ===== src/Path/Inside.antt =====
-- A path that `path_subpath_secure` lets through stays inside its directory.
use hash_archive.Prelude.{
  ℕ, ◌+◌, ◌-◌, Bool, true, false, Bytes, List, [], ◌∷◌, ◌++◌, Option, none, some, codes, length,
  leb, bytes_eq, eq_of_bytes_eq, ◌==◌, ◌&&◌, ◌||◌, if◌then◌else◌, All, subst, ◌≡◌, refl, arith,
}
use hash_archive.Error.{eperm, enametoolong, ok, err}
use hash_archive.Path.{begins_with, has_dots, subpath_secure, path_subpath_secure}

-- The names between the slashes.
abbrev pub cons_head : ℕ → List Bytes → List Bytes
cons_head c [] = (c ∷ []) ∷ []
cons_head c (x ∷ xs) = (c ∷ x) ∷ xs

unfoldable pub components : Bytes → List Bytes
components [] = [] ∷ []
components (c ∷ s) = let rest = components s in if c == b'/' then [] ∷ rest else cons_head c rest

-- How many levels below its start a walk ends, or `none` if it is ever above: `..` goes up, an empty
-- name and `.` stay, any other name goes down.
unfoldable pub levels : ℕ → List Bytes → Option ℕ
levels n [] = some n
levels n (x ∷ xs) =
    if bytes_eq x (codes "..")
    then (if n == 0 then none else levels (n - 1) xs)
    else if bytes_eq x (codes ".") || bytes_eq x []
    then levels n xs
    else levels (n + 1) xs

begins_first : List Bytes → Bool
begins_first [] = false
begins_first (x ∷ xs) = begins_with b'.' x

first_dot : (s : Bytes) → begins_first (components s) ≡ true → begins_with b'.' s ≡ true
unfolding begins_first begins_with components
first_dot [] h = h
first_dot (c ∷ s) h = go (c == b'/') (components s) h
  where
    go :
        (b : Bool) (xs : List Bytes)
        → begins_first (if b then [] ∷ xs else cons_head c xs) ≡ true
        → (c == b'.') ≡ true
    go true xs e = cc
    go false [] e = e
    go false (x ∷ xs) e = e

-- No name of a text without two dots in a row has them.
components-All : (s : Bytes) → has_dots s ≡ false → All (λ x. has_dots x ≡ false) (components s)
unfolding has_dots components begins_with begins_first
components-All [] h = (refl, tt)
components-All (c ∷ s) h =
    go (c == b'/') (components s) (components-All s (rest (c == b'.') (begins_with b'.' s) _ h))
      λ e. lone (c == b'.') (begins_with b'.' s) _ h (first_dot s e)
  where
    rest : (a b d : Bool) → ((a && b) || d) ≡ false → d ≡ false
    rest a b d e = ground arith

    lone : (a b d : Bool) → ((a && b) || d) ≡ false → b ≡ true → a ≡ false
    lone a b d e f = ground arith

    dots : (a b : Bool) → ((a && false) || false) ≡ false
    dots a b = ground arith

    keep : (a b d : Bool) → (b ≡ true → a ≡ false) → d ≡ false → ((a && b) || d) ≡ false
    keep a b d n e = ground arith

    go :
        (b : Bool) (xs : List Bytes)
        → All (λ x. has_dots x ≡ false) xs
        → (begins_first xs ≡ true → (c == b'.') ≡ false)
        → All (λ x. has_dots x ≡ false) (if b then [] ∷ xs else cons_head c xs)
    go true xs k n = (refl, k)
    go false [] k n = (dots (c == b'.') false, tt)
    go false (x ∷ xs) (kx, k) n = (keep (c == b'.') (begins_with b'.' x) (has_dots x) n kx, k)

two_dots : ¬ (has_dots (codes "..") ≡ false)
unfolding has_dots begins_with
two_dots e = cc

levels-some :
    (n : ℕ) (xs : List Bytes) → All (λ x. has_dots x ≡ false) xs → (d : ℕ) × (levels n xs ≡ some d)
unfolding levels
levels-some n [] h = (n, refl)
levels-some n (x ∷ xs) (hx, h) =
    go (bytes_eq x (codes "..")) (bytes_eq x (codes ".") || bytes_eq x []) refl (levels-some n xs h)
      (levels-some (n + 1) xs h)
  where
    go :
        (up stay : Bool)
        → bytes_eq x (codes "..") ≡ up
        → (d : ℕ) × (levels n xs ≡ some d)
        → (d : ℕ) × (levels (n + 1) xs ≡ some d)
        → (d : ℕ) × ((if up
              then (if n == 0 then none else levels (n - 1) xs)
              else if stay
              then levels n xs
              else levels (n + 1) xs)
            ≡ some d)
    go true stay e h k =
        let dots : has_dots (codes "..") ≡ false =
          subst (λ y. has_dots y ≡ false) (eq_of_bytes_eq x _ e) hx in
        absurd (two_dots dots)
    go false true e h k = h
    go false false e h k = k

-- A path that is let through is the directory, a slash and the path asked for, whole. Whatever the
-- names in the path asked for, following them from the directory is never above it.
pub path_subpath_secure-inside :
    (dir subpath out : Bytes) (max : ℕ)
    → path_subpath_secure (some dir) (some subpath) max ≡ ok out
    → (out ≡ dir ++ (codes "/" ++ subpath)) × (d : ℕ) × (levels 0 (components subpath) ≡ some d)
unfolding path_subpath_secure subpath_secure
path_subpath_secure-inside dir subpath out max e =
    go (begins_with b'/' subpath) (has_dots subpath) (leb max (length dir))
      (leb max (length dir + 1 + length subpath)) refl e
  where
    go :
        (a b c d : Bool)
        → has_dots subpath ≡ b
        → (if a
            then (if b
                then err eperm
                else if c
                then err eperm
                else if d
                then err enametoolong
                else ok (dir ++ (codes "/" ++ subpath)))
            else err eperm)
          ≡ ok out
        → (out ≡ dir ++ (codes "/" ++ subpath)) × (n : ℕ) × (levels 0 (components subpath) ≡ some n)
    go true false false false h f =
        let (n, k) = levels-some 0 (components subpath) (components-All subpath h) in (cc, n, k)
    go true false false true h f = cc
    go true false true d h f = cc
    go true true c d h f = cc
    go false b c d h f = cc
