-- ===== src/Api/Rows.antt =====
-- What `hx_get_times` returns of a table whose keys are in order.
use hash_archive.Prelude.{
  ℕ, suc, ◌-◌, ◌≤◌, ◌<◌, Bool, true, false, ltb, ◌==◌, ◌&&◌, ◌||◌, if◌then◌else◌, Bool-cases, inl,
  inr, List, [], ◌∷◌, ◌++◌, append_assoc, append-nil, map, take, take-nil, length, length-append,
  All, ◌≡◌, refl, sym, ap, ◌∙◌, arith,
}
use hash_archive.Error.{Result, ok, err, >>=-eq-ok}
use hash_archive.Db.Response.{pos, Response, Field, read_text, read_num, read_digests, unpack_value}
use hash_archive.Db.Store.{Kvs, time_id_to_response, responses}
use hash_archive.Db.Query.{
  unless_notfound, of_response_key, read_response, times_from, hx_get_times,
}

-- The order of the keys: by time, then by id.
unfoldable pub before : ℕ × ℕ → ℕ × ℕ → Bool
before (t, i) (u, j) = ltb t u || (t == u && ltb i j)

-- The keys from `k` on.
unfoldable pub from : ℕ × ℕ → List (ℕ × ℕ) → List (ℕ × ℕ)
from k [] = []
from k (x ∷ xs) = let rest = from k xs in if before x k then rest else x ∷ xs

abbrev pub Sorted : List (ℕ × ℕ) → Type 0
Sorted [] = Unit {0}
Sorted (k ∷ ks) = All (λ x. before k x ≡ true) ks × Sorted ks

pub lt_of_ltb : (n m : ℕ) → ltb n m ≡ true → n < m
lt_of_ltb n m h = ground arith

pub le_of_ltb : (n m : ℕ) → ltb n m ≡ false → m ≤ n
le_of_ltb n m h = ground arith

All-from : (P : ℕ × ℕ → Type 0) (k : ℕ × ℕ) (xs : List (ℕ × ℕ)) → All P xs → All P (from k xs)
unfolding from
All-from P k [] h = tt
All-from P k (x ∷ xs) (px, h) = elim (Bool-cases (before x k)) [
  | inl yes' ↦ rw yes' (All-from P k xs h)
  | inr no' ↦ rw no' (px, h)
]

abbrev key_of : (Response → ℕ) → Result Response → ℕ
key_of f (ok r) = f r
key_of f (err e) = 0

unpack_value-key :
    (v : List Field) (out r : Response)
    → unpack_value v out ≡ ok r
    → (Response.time r ≡ Response.time out) × (Response.id r ≡ Response.id out)
unfolding unpack_value
unpack_value-key v out r e =
    let (a, e0, f0) = >>=-eq-ok (read_text v) _ e in
    let (b, e1, f1) = >>=-eq-ok (read_num a.1) _ f0 in
    let (c, e2, f2) = >>=-eq-ok (read_text b.1) _ f1 in
    let (d, e3, f3) = >>=-eq-ok (read_num c.1) _ f2 in
    let (g, e4, f4) = >>=-eq-ok (read_digests d.1) _ f3 in
    (ap (key_of Response.time) (sym f4), ap (key_of Response.id) (sym f4))

module _ (kvs : Kvs) where
  open kvs use {Txn, keys_from}

  -- The table of responses: its keys in order, each with a value that is read as `row`. A cursor that
  -- seeks a key forward passes the keys from it on, as libkvstore documents.
  pub record IsTable (txn : Txn) (blank : Response) (ks : List (ℕ × ℕ)) (row : ℕ × ℕ → Response)
      : Type 0 where
    pub sorted : Sorted ks
    pub seeks :
        (t i : ℕ)
        → keys_from txn responses (time_id_to_response t i) (pos 1)
          ≡ ok (map (λ k. time_id_to_response k.0 k.1) (from (t, i) ks))
    pub reads : All (λ k. read_response kvs txn blank k ≡ ok (row k)) ks

  pub row_key :
      (txn : Txn) (blank r : Response) (k : ℕ × ℕ)
      → read_response kvs txn blank k ≡ ok r
      → (Response.time r ≡ k.0) × (Response.id r ≡ k.1)
  unfolding read_response
  row_key txn blank r k e =
      let (v, e0, f0) = >>=-eq-ok (Kvs.get kvs txn (time_id_to_response k.0 k.1)) _ e in
      unpack_value-key v (record blank { time = k.0; id = k.1 }) r f0

  times_from_lem :
      (txn : Txn) (blank : Response) (row : ℕ × ℕ → Response) (max : ℕ) (done : List Response)
      (ks : List (ℕ × ℕ))
      → All (λ k. read_response kvs txn blank k ≡ ok (row k)) ks
      → length done ≤ max
      → times_from kvs txn blank max done (map (λ k. time_id_to_response k.0 k.1) ks)
        ≡ ok (done ++ map row (take (max - length done) ks))
  unfolding times_from of_response_key
  times_from_lem txn blank row max done [] reads le =
      rw (take-nil (max - length done), append-nil) refl
  times_from_lem txn blank row max done (k ∷ ks) (read, reads) le =
      elim (Bool-cases (ltb (length done) max)) [
        | inl room ↦
            let n : max - length done ≡ suc (max - length (done ++ row k ∷ [])) =
              omega (arith, length-append done (row k ∷ []), lt_of_ltb (length done) max room) in
            let le' : length (done ++ row k ∷ []) ≤ max =
              omega (arith, length-append done (row k ∷ []), lt_of_ltb (length done) max room) in
            rw (room, read, n)
              (times_from_lem txn blank row max (done ++ row k ∷ []) ks reads le'
                ∙ ap ok (
                    append_assoc done (row k ∷ [])
                      (map row (take (max - length (done ++ row k ∷ [])) ks))))
        | inr full ↦
            let n : max - length done ≡ 0 = omega (arith, le_of_ltb (length done) max full) in
            rw (full, n, append-nil) refl
      ]

  pub hx_get_times-take :
      (txn : Txn) (blank : Response) (ks : List (ℕ × ℕ)) (row : ℕ × ℕ → Response) (max t i : ℕ)
      → IsTable txn blank ks row
      → hx_get_times kvs txn t i (pos 1) blank max ≡ ok (map row (take max (from (t, i) ks)))
  unfolding hx_get_times unless_notfound
  hx_get_times-take txn blank ks row max t i table =
      let n : max - 0 ≡ max = omega arith in
      rw (table.seeks t i) (
        times_from_lem txn blank row max [] (from (t, i) ks) (All-from _ (t, i) ks table.reads)
          (omega arith)
        ∙ ap (λ m. ok (map row (take m (from (t, i) ks)))) n)
