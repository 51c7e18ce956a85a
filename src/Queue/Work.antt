-- ===== src/Queue/Work.antt =====
-- `queue_peek`, `queue_timedwait` and the transaction of `queue_work` of src/queue.c. Locks, the log and
-- the fetch itself, `url_fetch`, are left out: what it returns is `res`.
pub mod Done
pub mod Waiting
use hash_archive.Prelude.{
  ℕ, ◌+◌, ◌%◌, ◌^◌, Bool, true, false, Bytes, List, [], ◌∷◌, fit, leb, if◌then◌else◌,
}
use hash_archive.Error.{Error, kvs_notfound, uv_etimedout, aborted, Result, ok, err, ◌>>=◌}
use hash_archive.Db.Response.{pos, Response, uri_max}
use hash_archive.Db.Store.{Kvs, Key, time_id_queued_url_and_client, queued}
use hash_archive.Db.Add.{hx_response_add}
use hash_archive.Db.Query.{hx_get_latest}
use hash_archive.Queue.{config_crawl_delay_seconds, queue_remove}

-- What `queue_peek` writes for its caller; `time` and `id` are also the new `work_time` and `work_id`.
pub record Work : Type 0 where
  pub time : ℕ
  pub id : ℕ
  pub url : Bytes
  pub client : Bytes

unfoldable pub first_work : List Key → Result Work
first_work [] = err kvs_notfound
first_work (time_id_queued_url_and_client time id url client ∷ ks) =
    ok (record { time = time; id = id; url = fit uri_max url; client = fit 256 client })
first_work (k ∷ ks) = err aborted

-- The test of one round of `queue_timedwait`: whether it ends the loop.
unfoldable pub is_answered : Result (ℕ × ℕ) → ℕ → Result Bool
is_answered (ok (ltime, lid)) time = ok (leb time ((ltime + config_crawl_delay_seconds) % 2 ^ 64))
is_answered (err kvs_notfound) time = ok false
is_answered (err e) time = err e

module _ (kvs : Kvs) where
  open kvs use {Txn, keys_from}

  -- The key that is sought ends behind the id, which stands before every URL and client.
  unfoldable pub queue_peek : Txn → ℕ → ℕ → Result Work
  queue_peek txn work_time work_id =
      keys_from txn queued (time_id_queued_url_and_client work_time ((work_id + 1) % 2 ^ 64) [] [])
        (pos 1)
      >>= λ ks. first_work ks

  -- The transactions that the rounds see, one after each wake-up; after the last the wait times out.
  unfoldable pub queue_timedwait : List Txn → ℕ → Bytes → Result Bool
  queue_timedwait [] time url = err uv_etimedout
  queue_timedwait (txn ∷ later) time url =
      let rest = queue_timedwait later time url in
      is_answered (hx_get_latest kvs txn url) time >>= λ answered.
      if answered then ok true else rest

  -- What `queue_work` commits after the fetch.
  unfoldable pub queue_work : Txn → Work → Response → ℕ → Result Txn
  queue_work txn work res new_id =
      queue_remove kvs txn work.time work.id work.url work.client >>= λ txn'.
      hx_response_add kvs txn' res new_id
