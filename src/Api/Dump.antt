-- ===== src/Api/Dump.antt =====
-- The rounds of the dump show each response of the span once, in order.
use Prim.Native.Nat.{max}
use hash_archive.Prelude.{
  ℕ, zero, suc, ◌+◌, ◌*◌, ◌%◌, ◌^◌, ◌≤◌, ◌<◌, true, false, ltb, leb, ◌&&◌, if◌then◌else◌,
  Bool-cases, inl, inr, List, [], ◌∷◌, ◌++◌, append_assoc, append-nil, Option, some, map,
  map-append, take, drop, take-drop, length-drop, length-take, length-map, length, All, All-take,
  min, All-mono, ◌≡◌, refl, sym, ap, subst, ◌∙◌, arith,
}
use hash_archive.Error.{ok}
use hash_archive.Db.Response.{Response}
use hash_archive.Db.Store.{Kvs}
use hash_archive.Api.{shown, last, dump_batch, dump_rows}
use hash_archive.Api.Rows.{
  before, from, Sorted, IsTable, row_key, hx_get_times-take, lt_of_ltb, le_of_ltb,
}

-- The keys before the first one at `limit` or later.
unfoldable pub until : ℕ → List (ℕ × ℕ) → List (ℕ × ℕ)
until limit [] = []
until limit (k ∷ ks) = let rest = until limit ks in if ltb k.0 limit then k ∷ rest else []

-- The keys of the times from `start` to before `limit`.
unfoldable pub select : ℕ → ℕ → List (ℕ × ℕ) → List (ℕ × ℕ)
select start limit [] = []
select start limit (k ∷ ks) =
    let rest = select start limit ks in if leb start k.0 && ltb k.0 limit then k ∷ rest else rest

abbrev last_key : ℕ × ℕ → List (ℕ × ℕ) → ℕ × ℕ
last_key x [] = x
last_key x (y ∷ ys) = last_key y ys

abbrev init : ℕ × ℕ → List (ℕ × ℕ) → List (ℕ × ℕ)
init x [] = []
init x (y ∷ ys) = x ∷ init y ys

init-last_key : (x : ℕ × ℕ) (ys : List (ℕ × ℕ)) → init x ys ++ last_key x ys ∷ [] ≡ x ∷ ys
init-last_key x [] = refl
init-last_key x (y ∷ ys) = ap (◌∷◌ x) (init-last_key y ys)

last-map :
    (row : ℕ × ℕ → Response) (x : ℕ × ℕ) (ys : List (ℕ × ℕ))
    → last (row x) (map row ys) ≡ row (last_key x ys)
last-map row x [] = refl
last-map row x (y ∷ ys) = last-map row y ys

All-last_key :
    (P : ℕ × ℕ → Type 0) (x : ℕ × ℕ) (ys : List (ℕ × ℕ)) → All P (x ∷ ys) → P (last_key x ys)
All-last_key P x [] (px, h) = px
All-last_key P x (y ∷ ys) (px, h) = All-last_key P y ys h

pub before-le : (a b : ℕ × ℕ) → before a b ≡ true → a.0 ≤ b.0
unfolding before
before-le (t, i) (u, j) h = ground arith

before_next : (a b : ℕ × ℕ) → before a b ≡ true → before a (b.0, b.1 + 1) ≡ true
unfolding before
before_next (t, i) (u, j) h = ground arith

before_self : (a : ℕ × ℕ) → before a (a.0, a.1 + 1) ≡ true
unfolding before
before_self (t, i) = ground arith

not_before_next : (a b : ℕ × ℕ) → before a b ≡ true → before b (a.0, a.1 + 1) ≡ false
unfolding before
not_before_next (t, i) (u, j) h = ground arith

from_none : (k : ℕ × ℕ) (xs : List (ℕ × ℕ)) → All (λ x. before x k ≡ false) xs → from k xs ≡ xs
unfolding from
from_none k [] h = refl
from_none k (x ∷ xs) (hx, h) = rw hx refl

-- Behind a key of the table come those after it.
from_after :
    (ps zs : List (ℕ × ℕ)) (k : ℕ × ℕ)
    → Sorted (ps ++ k ∷ zs)
    → from (k.0, k.1 + 1) (ps ++ k ∷ zs) ≡ zs
unfolding from
from_after [] zs k (h, s) = rw (before_self k) (
    from_none (k.0, k.1 + 1) zs
      (All-mono (λ x. before k x ≡ true) (λ x. before x (k.0, k.1 + 1) ≡ false)
        (λ x e. not_before_next k x e) zs h))
from_after (a ∷ ps) zs k (h, s) = rw (before_next a k (middle ps h)) (from_after ps zs k s)
  where
    middle : (bs : List (ℕ × ℕ)) → All (λ x. before a x ≡ true) (bs ++ k ∷ zs) → before a k ≡ true
    middle [] (e, h) = e
    middle (b ∷ bs) (e, h) = middle bs h

first-le : (x : ℕ × ℕ) (ys : List (ℕ × ℕ)) → Sorted (x ∷ ys) → x.0 ≤ (last_key x ys).0
first-le x [] h = omega arith
first-le x (y ∷ ys) (h, s) =
    before-le x (last_key y ys) (All-last_key (λ z. before x z ≡ true) y ys h)

-- A batch whose last key is at the limit or later ends the dump.
until_stops :
    (limit : ℕ) (x : ℕ × ℕ) (ys zs : List (ℕ × ℕ))
    → leb limit (last_key x ys).0 ≡ true
    → until limit ((x ∷ ys) ++ zs) ≡ until limit (x ∷ ys)
unfolding until
until_stops limit x [] zs h = let e : ltb x.0 limit ≡ false = ground arith in rw e refl
until_stops limit x (y ∷ ys) zs h =
    ap (λ r. if ltb x.0 limit then x ∷ r else []) (until_stops limit y ys zs h)

-- A batch whose last key is before the limit is shown whole.
until_passes :
    (limit : ℕ) (x : ℕ × ℕ) (ys zs : List (ℕ × ℕ))
    → Sorted (x ∷ ys)
    → leb limit (last_key x ys).0 ≡ false
    → until limit ((x ∷ ys) ++ zs) ≡ (x ∷ ys) ++ until limit zs
unfolding until
until_passes limit x [] zs s h = let e : ltb x.0 limit ≡ true = ground arith in rw e refl
until_passes limit x (y ∷ ys) zs (hx, s) h =
    let le = first-le x (y ∷ ys) (hx, s) in
    let e : ltb x.0 limit ≡ true = ground arith in
    rw e (ap (◌∷◌ x) (until_passes limit y ys zs s h))

Sorted-append : (ps bs : List (ℕ × ℕ)) → Sorted (ps ++ bs) → Sorted bs
Sorted-append [] bs s = s
Sorted-append (a ∷ ps) bs (h, s) = Sorted-append ps bs s

All-front : (P : ℕ × ℕ → Type 0) (ps bs : List (ℕ × ℕ)) → All P (ps ++ bs) → All P ps
All-front P [] bs h = tt
All-front P (a ∷ ps) bs (pa, h) = (pa, All-front P ps bs h)

All-back : (P : ℕ × ℕ → Type 0) (ps bs : List (ℕ × ℕ)) → All P (ps ++ bs) → All P bs
All-back P [] bs h = h
All-back P (a ∷ ps) bs (pa, h) = All-back P ps bs h

nil_of_length : (xs : List (ℕ × ℕ)) → length xs ≡ 0 → xs ≡ []
nil_of_length [] h = refl
nil_of_length (x ∷ xs) h = absurd (omega arith)

le_of_leb : (n m : ℕ) → leb n m ≡ true → n ≤ m
le_of_leb n m h = ground arith

Sorted-front : (ps bs : List (ℕ × ℕ)) → Sorted (ps ++ bs) → Sorted ps
Sorted-front [] bs s = tt
Sorted-front (a ∷ ps) bs (h, s) = (All-front (λ x. before a x ≡ true) ps bs h, Sorted-front ps bs s)

module _ (kvs : Kvs) (txn : Kvs.Txn kvs) (blank : Response) (ks : List (ℕ × ℕ))
    (row : ℕ × ℕ → Response) where
  -- A row carries its key.
  abbrev Keyed : ℕ × ℕ → Type 0
  Keyed k = (Response.time (row k) ≡ k.0) × (Response.id (row k) ≡ k.1)

  shown-map :
      (limit : ℕ) (xs : List (ℕ × ℕ))
      → All Keyed xs
      → shown limit (map row xs) ≡ map row (until limit xs)
  unfolding shown until
  shown-map limit [] h = refl
  shown-map limit (x ∷ xs) ((t, i), h) = elim (Bool-cases (ltb x.0 limit)) [
    | inl e ↦ rw (e, ap (λ n. ltb n limit) t ∙ e) (ap (◌∷◌ (row x)) (shown-map limit xs h))
    | inr e ↦ rw (e, ap (λ n. ltb n limit) t ∙ e) refl
  ]

  All-Keyed : IsTable kvs txn blank ks row → All Keyed ks
  All-Keyed table = All-mono _ Keyed (λ k e. row_key kvs txn blank (row k) k e) ks table.reads

  -- One round over the keys of a batch, and what stands behind it.
  dump_batch-until :
      (limit : ℕ) (x : ℕ × ℕ) (ys zs : List (ℕ × ℕ)) (more : ℕ → ℕ → Option (List Response))
      → All Keyed (x ∷ ys)
      → Sorted (x ∷ ys)
      → (last_key x ys).1 + 1 < 2 ^ 64
      → (suc (length ys) < 50 → zs ≡ [])
      → (leb 50 (suc (length ys)) ≡ true
          → more (last_key x ys).0 ((last_key x ys).1 + 1) ≡ some (map row (until limit zs)))
      → dump_batch (ok (map row (x ∷ ys))) limit more
        ≡ some (map row (until limit ((x ∷ ys) ++ zs)))
  unfolding until
  dump_batch-until limit x ys zs more keyed s small short rest =
      let kt : Response.time (last (row x) (map row ys)) ≡ (last_key x ys).0 =
        ap Response.time (last-map row x ys) ∙ (All-last_key Keyed x ys keyed).0 in
      let ki : Response.id (last (row x) (map row ys)) ≡ (last_key x ys).1 =
        ap Response.id (last-map row x ys) ∙ (All-last_key Keyed x ys keyed).1 in
      let kn : (Response.id (last (row x) (map row ys)) + 1) % 2 ^ 64 ≡ (last_key x ys).1 + 1 =
        omega arith in
      let shows : shown limit (row x ∷ map row ys) ≡ map row (until limit (x ∷ ys)) =
        shown-map limit (x ∷ ys) keyed in
      elim (Bool-cases (ltb (suc (length ys)) 50)) [
        | inl few ↦
            let none_left : zs ≡ [] = short (lt_of_ltb (suc (length ys)) 50 few) in
            rw (length-map row ys, few, shows, none_left, append-nil) refl
        | inr many ↦ elim (Bool-cases (leb limit (last_key x ys).0)) [
          | inl over ↦
              rw (length-map row ys, many, kt, over, shows)
                (ap (λ r. some (map row r)) (sym (until_stops limit x ys zs over)))
          | inr more_left ↦
              let whole : until limit (x ∷ ys) ≡ x ∷ ys =
                ap (until limit) (sym (append-nil (x ∷ ys)))
                ∙ until_passes limit x ys [] s more_left
                ∙ append-nil (x ∷ ys) in
              let later : more (last_key x ys).0 ((last_key x ys).1 + 1)
                  ≡ some (map row (until limit zs)) =
                rest (ground (arith, le_of_ltb (suc (length ys)) 50 many)) in
              rw
                (
                  length-map row ys,
                  many,
                  kt,
                  more_left,
                  kn,
                  later,
                  shows,
                  whole,
                  until_passes limit x ys zs s more_left,
                )
                (ap some (sym (map-append row (x ∷ ys) (until limit zs))))
        ]
      ]

  -- The dump from a place in the table: `ps` is what stands before it.
  pub dump_rows-until :
      (fuel limit : ℕ) (k : ℕ × ℕ) (ps xs : List (ℕ × ℕ))
      → IsTable kvs txn blank ks row
      → All (λ x. x.1 + 1 < 2 ^ 64) ks
      → ks ≡ ps ++ xs
      → from k ks ≡ xs
      → length xs < fuel * 50
      → dump_rows kvs fuel txn blank limit k.0 k.1 ≡ some (map row (until limit xs))
  unfolding dump_rows until
  dump_rows-until zero limit k ps xs table small e f enough = absurd (omega arith)
  dump_rows-until (suc fuel) limit k ps [] table small e f enough =
      rw (hx_get_times-take kvs txn blank ks row 50 k.0 k.1 table, f) refl
  dump_rows-until (suc fuel) limit k ps (x ∷ xs) table small e f enough =
      let zs = drop 49 xs in
      let ys = take 49 xs in
      let l = last_key x ys in
      let whole : (x ∷ ys) ++ zs ≡ x ∷ xs = take-drop 50 (x ∷ xs) in
      let parts : ks ≡ ps ++ ((x ∷ ys) ++ zs) = e ∙ ap (λ r. ps ++ r) (sym whole) in
      let keyed =
        All-take Keyed 50 (x ∷ xs)
          (All-back Keyed ps (x ∷ xs) (subst (All Keyed) e (All-Keyed table))) in
      let ordered =
        Sorted-front (x ∷ ys) zs
          (Sorted-append ps ((x ∷ ys) ++ zs) (subst Sorted parts table.sorted)) in
      let fits : l.1 + 1 < 2 ^ 64 =
        All-last_key (λ n. n.1 + 1 < 2 ^ 64) x ys
          (All-take (λ n. n.1 + 1 < 2 ^ 64) 50 (x ∷ xs)
            (All-back (λ n. n.1 + 1 < 2 ^ 64) ps (x ∷ xs)
              (subst (All (λ n. n.1 + 1 < 2 ^ 64)) e small))) in
      let at_last : ks ≡ (ps ++ init x ys) ++ l ∷ zs =
        parts
        ∙ ap (λ r. ps ++ r)
            (ap (λ b. b ++ zs) (sym (init-last_key x ys)) ∙ append_assoc (init x ys) (l ∷ []) zs)
        ∙ sym (append_assoc ps (init x ys) (l ∷ zs)) in
      let next : from (l.0, l.1 + 1) ks ≡ zs =
        ap (from (l.0, l.1 + 1)) at_last
        ∙ from_after (ps ++ init x ys) zs l (subst Sorted at_last table.sorted) in
      let t = length-take 49 xs in
      let d = length-drop 49 xs in
      rw (hx_get_times-take kvs txn blank ks row 50 k.0 k.1 table, f)
        (subst
          (λ r.
            dump_batch (ok (map row (x ∷ ys))) limit (dump_rows kvs fuel txn blank limit)
            ≡ some (map row (until limit r)))
          whole
          (dump_batch-until limit x ys zs (dump_rows kvs fuel txn blank limit) keyed ordered fits
            (λ few. nil_of_length zs (omega arith))
            (λ many.
              dump_rows-until fuel limit (l.0, l.1 + 1) (ps ++ (x ∷ ys)) zs table small
                (parts ∙ sym (append_assoc ps (x ∷ ys) zs)) next (room (length ys) many t d))))
    where
      room :
          (n : ℕ)
          → leb 50 (suc n) ≡ true
          → n ≡ min 49 (length xs)
          → length (drop 49 xs) + 49 ≡ max 49 (length xs)
          → length (drop 49 xs) < fuel * 50
      room n many t d = let h : 50 ≤ suc n = le_of_leb 50 (suc n) many in omega arith
