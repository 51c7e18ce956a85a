-- ===== src/Tests/Seeks.antt =====
-- A cursor over the concrete store.
use hash_archive.Prelude.{
  ℕ, Bool, true, false, not, if◌then◌else◌, All, All-mono, List, [], ◌∷◌, ◌≡◌, refl, subst,
}
use hash_archive.Db.Response.{Field}
use hash_archive.Db.Store.{Key, time_id_queued_url_and_client, queued, InRange, in_queued, Has}
use hash_archive.Api.Rows.{before}
use hash_archive.Queue.Peek.{IsAhead, IsSeek}
use hash_archive.Tests.Store.{
  Entries, list_store, list_store-IsStore, in_range, range_keys, keys_after,
}

abbrev IsEntry : Entries → Key → Type 0
IsEntry t k = Has list_store t k × InRange queued k

more : (t : Entries) (k j : Key) (v : List Field) → IsEntry t j → IsEntry ((k, v) ∷ t) j
more t k j v (h, r) = (list_store-IsStore.put_keeps t ((k, v) ∷ t) k j v refl h, r)

range_keys-IsEntry : (t : Entries) → All (IsEntry t) (range_keys t queued)
unfolding range_keys
range_keys-IsEntry [] = tt
range_keys-IsEntry ((j, v) ∷ t) =
    let ih =
      All-mono (IsEntry t) (IsEntry ((j, v) ∷ t)) (λ i. more t j i v) _ (range_keys-IsEntry t) in
    go (in_range queued j) ih
  where
    go :
        (d : Dec (InRange queued j))
        → All (IsEntry ((j, v) ∷ t)) (range_keys t queued)
        → All
            (IsEntry ((j, v) ∷ t))
            (elim d [ yes e ↦ j ∷ range_keys t queued | no n ↦ range_keys t queued ])
    go (yes e) ih = ((list_store-IsStore.put_has t ((j, v) ∷ t) j v refl, e), ih)
    go (no n) ih = ih

one-IsAhead :
    (t : Entries) (a b : ℕ) (j : Key)
    → IsEntry t j
    → (rest : List Key) → All (IsAhead list_store t a b) rest
    → All (IsAhead list_store t a b) (
        if hash_archive.Tests.Store.at_or_after j (time_id_queued_url_and_client a b [] [])
        then j ∷ rest
        else rest)
one-IsAhead t a b j (h, in_queued time id u c) rest hs = go (before (time, id) (a, b)) refl
  where
    go :
        (x : Bool)
        → before (time, id) (a, b) ≡ x
        → All
            (IsAhead list_store t a b)
            (if not x then time_id_queued_url_and_client time id u c ∷ rest else rest)
    go true e = hs
    go false e = ((time, id, u, c, refl, h, e), hs)

keys_after-IsAhead :
    (t : Entries) (a b : ℕ) (ks : List Key)
    → All (IsEntry t) ks
    → All (IsAhead list_store t a b) (keys_after ks (time_id_queued_url_and_client a b [] []))
unfolding keys_after
keys_after-IsAhead t a b [] h = tt
keys_after-IsAhead t a b (j ∷ js) (hj, h) = one-IsAhead t a b j hj _ (keys_after-IsAhead t a b js h)

pub list_store-IsSeek : IsSeek list_store
list_store-IsSeek = record {
  seeks = λ t a b ks e.
      let same : keys_after (range_keys t queued) (time_id_queued_url_and_client a b [] []) ≡ ks =
        cc in
      subst (All (IsAhead list_store t a b)) same
        (keys_after-IsAhead t a b (range_keys t queued) (range_keys-IsEntry t));
}
