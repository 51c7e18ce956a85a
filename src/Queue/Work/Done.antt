-- ===== src/Queue/Work/Done.antt =====
-- A worker's transaction keeps the queue and the archive.
use hash_archive.Prelude.{
  ℕ, ◌<◌, ◌^◌, Bool, true, false, Bytes, List, [], ◌∷◌, some, take, length, ltb, ◌==◌,
  if◌then◌else◌, ◌≡◌, ◌≢◌, inl, inr, subst,
}
use hash_archive.Error.{aborted, ok, err, >>=-eq-ok}
use hash_archive.Hash.Algo.{Algo}
use hash_archive.Db.Response.{
  Response, Digests, digest_at, IsInt, pack_value, uri_max, type_max, Field,
}
use hash_archive.Db.Merge.{all_algos}
use hash_archive.Db.Store.{
  Kvs, Key, time_id_to_response, url_surt_and_time_id, time_id_queued_url_and_client,
  queued_url_surt_and_time_id, hash_and_time_id, hx_hash_index_len, Has, IsStore,
}
use hash_archive.Db.Add.{add_digest, add_digests, hx_response_add}
use hash_archive.Db.Add.Indexed.{IsIndexed, hx_response_add-IsIndexed}
use hash_archive.Queue.{asserted, queue_remove}
use hash_archive.Queue.Invariant.{fwd, rev, two_dels, IsQueue, SurtOf, queue_remove-IsQueue}
use hash_archive.Queue.Work.{Work, queue_work}
use hash_archive.Url.Surt.{url_normalize_surt}

-- The keys of the two tables of the queue.
data Queued : Key → Type 0 where
  is_fwd : (t i : ℕ) (u c : Bytes) → Queued (time_id_queued_url_and_client t i u c)
  is_rev : (s : Bytes) (t i : ℕ) → Queued (queued_url_surt_and_time_id s t i)

module _ (kvs : Kvs) (store : IsStore kvs) where
  open kvs use {Txn, get, put_new}
  open store use {put_new_keeps, put_new_adds}

  -- The queue of one transaction is that of the other.
  record Same (t t' : Txn) : Type 0 where
    grows : (j : Key) → Has kvs t j → Has kvs t' j
    only : (j : Key) → Queued j → Has kvs t' j → Has kvs t j

  Same-refl : (t : Txn) → Same t t
  Same-refl t = record { grows = λ j h. h; only = λ j q h. h }

  Same-trans : (t t' t'' : Txn) → Same t t' → Same t' t'' → Same t t''
  Same-trans t t' t'' a b = record {
    grows = λ j h. b.grows j (a.grows j h);
    only = λ j q h. a.only j q (b.only j q h);
  }

  put_new-Same :
      (t t' : Txn) (k : Key) (v : List Field) → ¬ Queued k → put_new t k v ≡ ok t' → Same t t'
  put_new-Same t t' k v n e = record {
    grows = λ j h. (h.0, put_new_keeps t t' k j v h.0 e h.1);
    only = λ j q h. elim (put_new_adds t t' k j v e h) [
      | inl same ↦ absurd (n (subst Queued same q))
      | inr h' ↦ h'
    ];
  }

  add_digest-Same :
      (t t' : Txn) (a : Algo) (d : Bytes) (time id : ℕ)
      → add_digest kvs t a d time id ≡ ok t'
      → Same t t'
  unfolding add_digest
  add_digest-Same t t' a d time id e = go (length d == 0) (ltb (length d) hx_hash_index_len) e
    where
      key : Key
      key = hash_and_time_id a (take hx_hash_index_len d) time id

      go :
          (nothing short : Bool)
          → (if nothing then ok t else if short then err aborted else put_new t key []) ≡ ok t'
          → Same t t'
      go true short f = let same : t ≡ t' = cc in rw (← same) (Same-refl t)
      go false true f = cc
      go false false f = put_new-Same t t' key [] (λ q. elim q [ ]) f

  add_digests-Same :
      (t t' : Txn) (algos : List Algo) (d : Digests) (time id : ℕ)
      → add_digests kvs t algos d time id ≡ ok t'
      → Same t t'
  unfolding add_digests
  add_digests-Same t t' [] d time id e = let same : t ≡ t' = cc in rw (← same) (Same-refl t)
  add_digests-Same t t' (a ∷ algos) d time id e =
      let (t1, e1, f) = >>=-eq-ok (add_digest kvs t a (digest_at d a) time id) _ e in
      Same-trans t t1 t' (add_digest-Same t t1 a (digest_at d a) time id e1)
        (add_digests-Same t1 t' algos d time id f)

  hx_response_add-Same :
      (t t' : Txn) (r : Response) (id : ℕ) → hx_response_add kvs t r id ≡ ok t' → Same t t'
  unfolding hx_response_add
  hx_response_add-Same t t' r id e =
      let (surt, es, f) = >>=-eq-ok (url_normalize_surt (some (Response.url r)) uri_max) _ e in
      let (v, ev, g) = >>=-eq-ok (pack_value r) _ f in
      let (t1, e1, g1) = >>=-eq-ok (put_new t (time_id_to_response (Response.time r) id) v) _ g in
      let (t2, e2, g2) =
        >>=-eq-ok (put_new t1 (url_surt_and_time_id surt (Response.time r) id) []) _ g1 in
      Same-trans t t1 t' (put_new-Same t t1 _ v (λ q. elim q [ ]) e1) (
        Same-trans t1 t2 t' (put_new-Same t1 t2 _ [] (λ q. elim q [ ]) e2)
          (add_digests-Same t2 t' all_algos (Response.digests r) (Response.time r) id g2))

  Same-IsQueue : (t t' : Txn) → Same t t' → IsQueue kvs t → IsQueue kvs t'
  Same-IsQueue t t' a q = record {
    backed = λ s i j h.
        let (u, c, hf, hs) = q.backed s i j (a.only _ (is_rev s i j) h) in (u, c, a.grows _ hf, hs);
    indexed = λ i j u c h.
        let (s, hs, hr) = q.indexed i j u c (a.only _ (is_fwd i j u c) h) in (s, hs, a.grows _ hr);
    once = λ s i j i' j' h k.
        q.once s i j i' j' (a.only _ (is_rev s i j) h) (a.only _ (is_rev s i' j') k);
    named = λ i j u c u' c' h k.
        q.named i j u c u' c' (a.only _ (is_fwd i j u c) h) (a.only _ (is_fwd i j u' c') k);
  }

  -- What a worker commits for an entry of the queue takes the entry out of both tables, keeps the queue
  -- one, and leaves the response where its URL and its digests lead to it. The response's texts fit
  -- their buffers, its length fits 64 bits and its status is an `int`.
  pub queue_work-IsQueue :
      (t t' : Txn) (w : Work) (surt : Bytes) (r : Response) (new_id : ℕ)
      → IsQueue kvs t
      → Has kvs t (time_id_queued_url_and_client w.time w.id w.url w.client)
      → SurtOf w.url surt
      → length (Response.url r) < uri_max
      → length (Response.type r) < type_max
      → Response.length r < 2 ^ 64
      → IsInt (Response.status r)
      → queue_work kvs t w r new_id ≡ ok t'
      → IsQueue kvs t'
        × (¬ Has kvs t' (time_id_queued_url_and_client w.time w.id w.url w.client))
        × (¬ Has kvs t' (queued_url_surt_and_time_id surt w.time w.id))
        × IsIndexed kvs t' r new_id
  unfolding queue_work
  queue_work-IsQueue t t' w surt r new_id q there s hu ht hl hs e =
      let (t1, e1, f) = >>=-eq-ok (queue_remove kvs t w.time w.id w.url w.client) _ e in
      let (q1, no_fwd, no_rev) =
        queue_remove-IsQueue kvs store t t1 w.time w.id w.url w.client surt q there s e1 in
      let a = hx_response_add-Same t1 t' r new_id f in
      (
        Same-IsQueue t1 t' a q1,
        λ h. no_fwd (a.only _ (is_fwd w.time w.id w.url w.client) h),
        λ h. no_rev (a.only _ (is_rev surt w.time w.id) h),
        (hx_response_add-IsIndexed kvs store t1 t' r r new_id hu ht hl hs f).1,
      )

  -- What `queue_work` leaves of the other entries of the queue.
  pub queue_work-leaves :
      (t t' : Txn) (w : Work) (r : Response) (new_id : ℕ)
      → IsQueue kvs t
      → Has kvs t (time_id_queued_url_and_client w.time w.id w.url w.client)
      → queue_work kvs t w r new_id ≡ ok t'
      → IsQueue kvs t'
        × ((i j : ℕ) (u c : Bytes)
            → Has kvs t' (time_id_queued_url_and_client i j u c)
            → Has kvs t (time_id_queued_url_and_client i j u c))
        × ((i j : ℕ) (u c : Bytes)
            → time_id_queued_url_and_client i j u c
              ≢ time_id_queued_url_and_client w.time w.id w.url w.client
            → Has kvs t (time_id_queued_url_and_client i j u c)
            → Has kvs t' (time_id_queued_url_and_client i j u c))
  unfolding queue_work queue_remove
  queue_work-leaves t t' w r new_id q there e =
      let (surt, s, back) = q.indexed w.time w.id w.url w.client there in
      let (t1, e1, f) = >>=-eq-ok (queue_remove kvs t w.time w.id w.url w.client) _ e in
      let (q1, no_fwd, no_rev) =
        queue_remove-IsQueue kvs store t t1 w.time w.id w.url w.client surt q there s e1 in
      let (_, et, ei) = >>=-eq-ok (asserted w.time) _ e1 in
      let (_, en, es) = >>=-eq-ok (asserted w.id) _ ei in
      let e2 = rw s at es in
      let (t0, e3, g) = >>=-eq-ok (Kvs.del kvs t (fwd w.time w.id w.url w.client)) _ e2 in
      let d =
        two_dels kvs store t t0 t1 (fwd w.time w.id w.url w.client) (rev surt w.time w.id) e3 g in
      let a = hx_response_add-Same t1 t' r new_id f in
      (
        Same-IsQueue t1 t' a q1,
        λ i j u c h. d.had (fwd i j u c) (a.only _ (is_fwd i j u c) h),
        λ i j u c other h. a.grows _ (d.leaves (fwd i j u c) other (λ n. cc) h),
      )
