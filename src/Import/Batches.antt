-- ===== src/Import/Batches.antt =====
-- The import of what a sender has written.
use hash_archive.Prelude.{
  Bytes, All-take, All-drop, take-drop, length-drop, length-take, length-map, map-append, ℕ, zero,
  suc, ◌+◌, ◌*◌, ◌%◌, ◌^◌, ◌≤◌, ◌<◌, true, false, List, [], ◌∷◌, ◌++◌, append_assoc, append-nil,
  Option, some, length, take, Bool-cases, drop, ltb, ◌⊎◌, inl, inr, All, ◌≡◌, refl, sym, subst, ap,
  ◌∙◌, arith, map,
}
use hash_archive.Error.{Result, ok, err, uv_eof, ◌>>=◌, >>=-eq-ok}
use hash_archive.Db.Response.{Response}
use hash_archive.Db.Store.{Kvs}
use hash_archive.Db.Add.{hx_response_add}
use hash_archive.Step.{go_on, pure}
use hash_archive.Import.{
  Stream, keep, read_one, read_responses, Ended, add_batch, add_read, import_from, connection,
}
use hash_archive.Import.Wire.{sent, sents, IsSendable, received}
use hash_archive.Import.Reads.{IsBytes, read_one-Reads, read_one-AtEnd}

module _ (stream : Stream) where
  open stream use {State}

  module _ (contents : State → Bytes) (bytes : IsBytes stream contents) where
    -- The responses that stand in the stream are read, `max` of them or all.
    pub read_responses_lem :
        (blank : Response) (max : ℕ) (rs : List Response) (s : State) (rest : Bytes)
        → All IsSendable rs
        → length rs ≤ max
        → (length rs ≡ max) ⊎ (rest ≡ [])
        → contents s ≡ sents rs ++ rest
        → ((read_responses stream blank max s).0 ≡ ok (map (received blank) rs))
          × (contents (read_responses stream blank max s).1 ≡ rest)
    unfolding read_responses sents
    read_responses_lem blank zero [] s rest h le end e = (refl, e)
    read_responses_lem blank zero (r ∷ rs) s rest h le end e = absurd (omega arith)
    read_responses_lem blank (suc max) [] s rest h le (inl end) e = absurd (omega arith)
    read_responses_lem blank (suc max) [] s rest h le (inr end) e =
        let (a, b) = read_one-AtEnd stream contents bytes blank s (e ∙ end) in
        go (read_one stream blank s) a b
      where
        go :
            (x : Result Response × State)
            → x.0 ≡ err uv_eof
            → contents x.1 ≡ []
            → ((keep x (read_responses stream blank max)).0 ≡ ok [])
              × (contents (keep x (read_responses stream blank max)).1 ≡ rest)
        go (ok a, s') f c = cc
        go (err uv_eof, s') f c = (refl, c ∙ sym end)
        go (err y, s') f c = cc
    read_responses_lem blank (suc max) (r ∷ rs) s rest (hr, h) le end e =
        let (a, b) =
          read_one-Reads stream contents bytes blank r hr s (sents rs ++ rest)
            (e ∙ append_assoc (sent r) (sents rs) rest) in
        go (read_one stream blank s) a b
          (λ s' c. read_responses_lem blank max rs s' rest h (omega arith) (shorter end) c)
      where
        shorter : (suc (length rs) ≡ suc max) ⊎ (rest ≡ []) → (length rs ≡ max) ⊎ (rest ≡ [])
        shorter (inl f) = inl (omega arith)
        shorter (inr f) = inr f

        tail :
            (y : Result (List Response) × State) (a : Response)
            → a ≡ received blank r
            → y.0 ≡ ok (map (received blank) rs)
            → contents y.1 ≡ rest
            → ((go_on y (λ rs'. pure (a ∷ rs'))).0
                ≡ ok (received blank r ∷ map (received blank) rs))
              × (contents (go_on y (λ rs'. pure (a ∷ rs'))).1 ≡ rest)
        tail (ok b, s'') a same f c = (cc, c)
        tail (err y, s'') a same f c = cc

        go :
            (x : Result Response × State)
            → x.0 ≡ ok (received blank r)
            → contents x.1 ≡ sents rs ++ rest
            → ((s' : State)
                → contents s' ≡ sents rs ++ rest
                → ((read_responses stream blank max s').0 ≡ ok (map (received blank) rs))
                  × (contents (read_responses stream blank max s').1 ≡ rest))
            → ((keep x (read_responses stream blank max)).0
                ≡ ok (received blank r ∷ map (received blank) rs))
              × (contents (keep x (read_responses stream blank max)).1 ≡ rest)
        go (ok a, s') f c ih =
            let (g, d) = ih s' c in tail (read_responses stream blank max s') a (cc) g d
        go (err y, s') f c ih = cc

sents-append : (xs ys : List Response) → sents (xs ++ ys) ≡ sents xs ++ sents ys
unfolding sents
sents-append [] ys = refl
sents-append (x ∷ xs) ys =
    ap (λ t. sent x ++ t) (sents-append xs ys) ∙ sym (append_assoc (sent x) (sents xs) (sents ys))

add_batch-append :
    (stream : Stream) (kvs : Kvs) (db : Kvs.Txn kvs) (xs ys : List Response) (id : ℕ)
    → id < 2 ^ 64
    → add_batch stream kvs db (xs ++ ys) id ≡ (
        add_batch stream kvs db xs id >>= λ db'.
        add_batch stream kvs db' ys ((id + length xs) % 2 ^ 64))
unfolding add_batch
add_batch-append stream kvs db [] ys id small =
    let f : (id + 0) % 2 ^ 64 ≡ id = omega arith in rw f refl
add_batch-append stream kvs db (x ∷ xs) ys id small =
    elim (hx_response_add kvs db x id)
      as (λ m.
        elim m [ ok db1 ↦ add_batch stream kvs db1 (xs ++ ys) ((id + 1) % 2 ^ 64) | err y ↦ err y ]
        ≡ (elim m [ ok db1 ↦ add_batch stream kvs db1 xs ((id + 1) % 2 ^ 64) | err y ↦ err y ]
            >>= λ db'. add_batch stream kvs db' ys ((id + suc (length xs)) % 2 ^ 64))) [
              | ok db1 ↦
                  let next : ((id + 1) % 2 ^ 64 + length xs) % 2 ^ 64
                      ≡ (id + suc (length xs)) % 2 ^ 64 =
                    omega arith in
                  rw (← next)
                    (add_batch-append stream kvs db1 xs ys ((id + 1) % 2 ^ 64) (omega arith))
              | err y ↦ refl
            ]

at_least : (n m : ℕ) → ltb m n ≡ false → n ≤ m
at_least n m h = ground arith

module _ (stream : Stream) (kvs : Kvs) (contents : Stream.State stream → Bytes)
    (bytes : IsBytes stream contents) (blank : Response) where
  open stream use {State}
  open kvs use {Txn}

  -- The import ends with `db'`, at the end of the stream.
  abbrev EndsWith : Option (Ended Txn State) → Txn → Type 0
  EndsWith result db' =
      (s : State) × (result ≡ some (record { db = db'; rest = s; rc = uv_eof })) × (contents s ≡ [])

  last_batch :
      (rs : List Response) (s : State) (db db' : Txn) (id fuel : ℕ)
      → All IsSendable rs
      → contents s ≡ sents rs
      → length rs < 50
      → add_batch stream kvs db (map (received blank) rs) id ≡ ok db'
      → EndsWith (import_from stream kvs (suc fuel) blank s db id) db'
  unfolding import_from
  last_batch rs s db db' id fuel h e few f =
      let (a, b) =
        read_responses_lem stream contents bytes blank 50 rs s [] h (omega arith) (inr refl)
          (e ∙ sym (append-nil (sents rs))) in
      go (read_responses stream blank 50 s) a b
    where
      go :
          (x : Result (List Response) × State)
          → x.0 ≡ ok (map (received blank) rs)
          → contents x.1 ≡ []
          → EndsWith (add_read stream kvs x db id (import_from stream kvs fuel blank)) db'
      go (ok ys, s') g c =
          let same : map (received blank) rs ≡ ys = cc in
          subst
            (λ zs.
              EndsWith (add_read stream kvs (ok zs, s') db id (import_from stream kvs fuel blank))
                db')
            same
            (let short : ltb (length rs) 50 ≡ true = ground arith in
              rw (f, length-map (received blank) rs, short) (s', refl, c))
      go (err y, s') g c = cc

  full_batch :
      (xs : List Response) (rest : Bytes) (s : State) (db db1 : Txn) (id fuel : ℕ)
      → All IsSendable xs
      → contents s ≡ sents xs ++ rest
      → length xs ≡ 50
      → add_batch stream kvs db (map (received blank) xs) id ≡ ok db1
      → (s1 : State) × (import_from stream kvs (suc fuel) blank s db id
          ≡ import_from stream kvs fuel blank s1 db1 ((id + 50) % 2 ^ 64))
        × (contents s1 ≡ rest)
  unfolding import_from
  full_batch xs rest s db db1 id fuel h e many f =
      let (a, b) =
        read_responses_lem stream contents bytes blank 50 xs s rest h (omega arith) (inl many) e in
      go (read_responses stream blank 50 s) a b
    where
      go :
          (x : Result (List Response) × State)
          → x.0 ≡ ok (map (received blank) xs)
          → contents x.1 ≡ rest
          → (s1 : State) × (add_read stream kvs x db id (import_from stream kvs fuel blank)
              ≡ import_from stream kvs fuel blank s1 db1 ((id + 50) % 2 ^ 64))
            × (contents s1 ≡ rest)
      go (ok ys, s') g c =
          let same : map (received blank) xs ≡ ys = cc in
          subst
            (λ zs.
              (s1 : State) × (add_read stream kvs (ok zs, s') db id
                  (import_from stream kvs fuel blank)
                ≡ import_from stream kvs fuel blank s1 db1 ((id + 50) % 2 ^ 64))
              × (contents s1 ≡ rest))
            same (rw (f, length-map (received blank) xs, many) (s', refl, c))
      go (err y, s') g c = cc

  import_from_lem :
      (fuel : ℕ) (rs : List Response) (s : State) (db db' : Txn) (id : ℕ)
      → id < 2 ^ 64
      → All IsSendable rs
      → contents s ≡ sents rs
      → add_batch stream kvs db (map (received blank) rs) id ≡ ok db'
      → length rs < fuel * 50
      → EndsWith (import_from stream kvs fuel blank s db id) db'
  import_from_lem zero rs s db db' id small h e f enough = absurd (omega arith)
  import_from_lem (suc fuel) rs s db db' id small h e f enough =
      elim (Bool-cases (ltb (length rs) 50)) [
        | inl few ↦ last_batch rs s db db' id fuel h e (ground arith) f
        | inr many ↦
            let xs = take 50 rs in
            let ys = drop 50 rs in
            let whole : rs ≡ xs ++ ys = sym (take-drop 50 rs) in
            let enough' : 50 ≤ length rs = at_least 50 (length rs) many in
            let n : length xs ≡ 50 = omega (arith, length-take 50 rs) in
            let split = >>=-eq-ok (add_batch stream kvs db (map (received blank) xs) id) _ (
              sym (
                add_batch-append stream kvs db (map (received blank) xs) (map (received blank) ys)
                  id small)
              ∙ ap (λ t. add_batch stream kvs db t id)
                  (sym (map-append (received blank) xs ys) ∙ ap (map (received blank)) (sym whole))
              ∙ f) in
            let (s1, step, c) =
              full_batch xs (sents ys) s db split.0 id fuel (All-take IsSendable 50 rs h)
                (e ∙ ap sents whole ∙ sents-append xs ys) n split.1 in
            let (s2, result, c2) =
              import_from_lem fuel ys s1 split.0 db' ((id + 50) % 2 ^ 64) (omega arith)
                (All-drop IsSendable 50 rs h) c
                (subst
                  (λ k.
                    add_batch stream kvs split.0 (map (received blank) ys) ((id + k) % 2 ^ 64)
                    ≡ ok db')
                  (length-map (received blank) xs ∙ n) split.2)
                (omega (arith, length-drop 50 rs)) in
            (s2, step ∙ result, c2)
      ]

  -- What is sent is added in order, with the ids from 0: if every response can be sent, the stream
  -- holds them and no more, and all of it can be added, the import ends at the end of the stream with
  -- all of it in the database. One round for each 50 responses, and one more, are enough.
  pub connection-sents :
      (rs : List Response) (s : State) (db db' : Txn) (fuel : ℕ)
      → All IsSendable rs
      → contents s ≡ sents rs
      → add_batch stream kvs db (map (received blank) rs) 0 ≡ ok db'
      → length rs < fuel * 50
      → (s' : State) × (connection stream kvs fuel blank s db
          ≡ some (record { db = db'; rest = s'; rc = uv_eof }))
        × (contents s' ≡ [])
  unfolding connection
  connection-sents rs s db db' fuel h e f enough =
      import_from_lem fuel rs s db db' 0 (omega arith) h e f enough
