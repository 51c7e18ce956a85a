-- ===== src/Queue/Peek.antt =====
-- `queue_peek` finds an entry of the queue that lies behind the last one that it found.
use hash_archive.Prelude.{
  ℕ, ◌+◌, ◌%◌, ◌^◌, ◌<◌, false, Bytes, List, [], ◌∷◌, All, fit, take_all, length, ◌≡◌, sym, ap,
  subst, ◌∙◌, arith,
}
use hash_archive.Error.{Result, ok, err, >>=-eq-ok}
use hash_archive.Db.Response.{pos, uri_max}
use hash_archive.Db.Store.{Kvs, Key, time_id_queued_url_and_client, queued, Has}
use hash_archive.Api.Rows.{before}
use hash_archive.Queue.Work.{Work, first_work, queue_peek}

-- Times and ids, in the order of the keys.
before_next :
    (t i a b c d : ℕ)
    → before (t, i) (a, b + 1) ≡ false
    → before (a, b) (c, d) ≡ false
    → (before (t, i) (c, d) ≡ false) × ¬ ((t ≡ c) × (i ≡ d))
unfolding before
before_next t i a b c d h k = (ground arith, λ e. ground arith)

pub before_self : (t i : ℕ) → before (t, i) (t, i) ≡ false
unfolding before
before_self t i = ground arith

module _ (kvs : Kvs) where
  open kvs use {Txn, keys_from}

  -- The URLs and clients of the entries fit the buffers that they are read into.
  abbrev pub Fits : Txn → Type 0
  Fits t =
      (time id : ℕ) (url client : Bytes)
      → Has kvs t (time_id_queued_url_and_client time id url client)
      → (length url < uri_max) × (length client < 256)

  -- An entry of the queue at a key or behind it.
  abbrev pub IsAhead : Txn → ℕ → ℕ → Key → Type 0
  IsAhead t a b k =
      (time : ℕ) × (id : ℕ) × (url : Bytes) × (client : Bytes) × (k
        ≡ time_id_queued_url_and_client time id url client)
      × Has kvs t (time_id_queued_url_and_client time id url client)
      × (before (time, id) (a, b) ≡ false)

  -- What libkvstore documents of a cursor that seeks forward in the table of the queue: it passes entries
  -- that are there, in the order of their keys from the one that is sought.
  pub record IsSeek : Type 0 where
    pub seeks :
        (t : Txn) (a b : ℕ) (ks : List Key)
        → keys_from t queued (time_id_queued_url_and_client a b [] []) (pos 1) ≡ ok ks
        → All (IsAhead t a b) ks

  abbrev pub entry : Work → Key
  entry w = time_id_queued_url_and_client w.time w.id w.url w.client

  -- The entry is there, and at the key or behind it.
  abbrev Found : Txn → ℕ → ℕ → Work → Type 0
  Found t a b w = Has kvs t (entry w) × (before (w.time, w.id) (a, b) ≡ false)

  abbrev work_of : Result Work → Work → Work
  work_of (ok w) v = w
  work_of (err e) v = v

  first_work-Found :
      (t : Txn) (a b : ℕ) (ks : List Key) (w : Work)
      → Fits t
      → All (IsAhead t a b) ks
      → first_work ks ≡ ok w
      → Found t a b w
  unfolding first_work
  first_work-Found t a b [] w fits h e = cc
  first_work-Found t a b (k ∷ ks) w fits ((time, id, url, client, ek, has, ahead), h) e =
      let (fu, fc) = fits time id url client has in
      let f : first_work (time_id_queued_url_and_client time id url client ∷ ks) ≡ ok w =
        ap (λ x. first_work (x ∷ ks)) (sym ek) ∙ e in
      let same : record { time = time; id = id; url = fit uri_max url; client = fit 256 client }
          ≡ w =
        ap (λ r. work_of r w) f in
      subst (Found t a b) same
        (rw (take_all 1023 url (omega arith), take_all 255 client (omega arith)) (has, ahead))

  -- What `queue_peek` finds is in the queue, its key is not one that was passed, and the entry is not
  -- one that was found at a key up to `work_time` and `work_id`.
  pub queue_peek-Found :
      (seek : IsSeek) (t : Txn) (work_time work_id : ℕ) (w : Work)
      → Fits t
      → work_id + 1 < 2 ^ 64
      → queue_peek kvs t work_time work_id ≡ ok w
      → Has kvs t (entry w)
        × ((v : Work)
            → before (work_time, work_id) (v.time, v.id) ≡ false
            → (before (w.time, w.id) (v.time, v.id) ≡ false) × ¬ (entry w ≡ entry v))
  unfolding queue_peek
  queue_peek-Found seek t work_time work_id w fits room e =
      let (ks, ek, f) = >>=-eq-ok (keys_from t queued _ (pos 1)) _ e in
      let small : (work_id + 1) % 2 ^ 64 ≡ work_id + 1 = omega arith in
      let g =
        ap (λ i. keys_from t queued (time_id_queued_url_and_client work_time i [] []) (pos 1))
          (sym small)
        ∙ ek in
      let (has, ahead) =
        first_work-Found t work_time (work_id + 1) ks w fits
          (IsSeek.seeks seek t work_time (work_id + 1) ks g) f in
      (
        has,
        λ v h.
            let (p, n) = before_next w.time w.id work_time work_id v.time v.id ahead h in
            (p, λ same. n (cc, cc)),
      )
