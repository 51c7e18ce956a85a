-- ===== src/Queue/Pairs.antt =====
-- Lists of which each two elements are in a relation, and one taken out of them: for the threads that
-- src/queue.c runs at once.
use hash_archive.Prelude.{List, [], ◌∷◌, ◌++◌, All}

-- Each two of a list are in the relation.
abbrev pub Pairwise {ℓ} : {A : Type ℓ} → (A → A → Type 0) → List A → Type 0
Pairwise R [] = Unit {0}
Pairwise R (x ∷ xs) = All (R x) xs × Pairwise R xs

pub All-without :
    {A : Type 0} (P : A → Type 0) (xs ys : List A) (y : A)
    → All P (xs ++ y ∷ ys)
    → P y × All P (xs ++ ys)
All-without P [] ys y (py, h) = (py, h)
All-without P (x ∷ xs) ys y (px, h) = let (py, k) = All-without P xs ys y h in (py, (px, k))

pub Pairwise-without :
    {A : Type 0} (R : A → A → Type 0) (xs ys : List A) (y : A)
    → ((a b : A) → R a b → R b a)
    → Pairwise R (xs ++ y ∷ ys)
    → All (R y) (xs ++ ys) × Pairwise R (xs ++ ys)
Pairwise-without R [] ys y flip (h, p) = (h, p)
Pairwise-without R (x ∷ xs) ys y flip (h, p) =
    let (hy, q) = Pairwise-without R xs ys y flip p in
    let (rxy, hx) = All-without (R x) xs ys y h in ((flip x y rxy, hy), (hx, q))

pub All-both :
    {A : Type 0} (P Q R : A → Type 0)
    → ((a : A) → P a → Q a → R a)
    → (xs : List A) → All P xs
    → All Q xs
    → All R xs
All-both P Q R f [] hp hq = tt
All-both P Q R f (x ∷ xs) (px, hp) (qx, hq) = (f x px qx, All-both P Q R f xs hp hq)
