-- ===== src/Queue.antt =====
-- src/queue.c: the queue of URLs to fetch. Its entries are keys of two tables, forward by time and
-- backward by the URL's key.
pub mod Invariant
pub mod Work
pub mod Pairs
pub mod Peek
pub mod Threads
pub mod Steps
pub mod Lost
use hash_archive.Prelude.{
  ℕ, ◌+◌, ◌%◌, ◌^◌, ◌==◌, Bool, true, false, Bytes, List, [], ◌∷◌, Option, none, some, bytes_eq,
  ltb, fit, ◌*◌, if◌then◌else◌,
}
use hash_archive.Error.{Error, kvs_notfound, kvs_keyexist, aborted, Result, ok, err, ◌>>=◌}
use hash_archive.Db.Response.{Field, uri_max}
use hash_archive.Db.Store.{
  Kvs, Key, time_id_to_response, url_surt_and_time_id, time_id_queued_url_and_client,
  queued_url_surt_and_time_id, hash_and_time_id, Range, url_surt, queued, queued_surt,
}
use hash_archive.Url.Surt.{url_normalize_surt}

abbrev pub config_crawl_delay_seconds : ℕ
config_crawl_delay_seconds = 60 * 60 * 24

-- A call that adds nothing: the URL is queued already, which is success, or was crawled lately.
pub data Added (T : Type 0) : Type 0 where
  already_queued : Added T
  too_soon : Added T
  added : T → Added T

-- `ltime+CONFIG_CRAWL_DELAY_SECONDS < time`, in 64 bits
unfoldable pub is_due : ℕ → ℕ → Bool
is_due ltime time = ltb ((ltime + config_crawl_delay_seconds) % 2 ^ 64) time

-- The time of a key of HXURLSurtAndTimeID; another key fails the assertion of the unpacking.
unfoldable pub crawled_time : Key → Bytes → Result ℕ
crawled_time (url_surt_and_time_id x ltime lid) surt =
    if bytes_eq x surt then ok ltime else err aborted
crawled_time _ surt = err aborted

-- `assert(n)`
abbrev pub asserted : ℕ → Result (Unit {0})
asserted n = if n == 0 then err aborted else ok tt

module _ (kvs : Kvs) where
  open kvs use {Txn, put, del, newest}

  -- The two checks of `queue_add`: `ok true` where the URL may be queued.
  unfoldable pub may_queue : Txn → ℕ → Bytes → Result (Added Txn)
  may_queue txn time surt = elim (newest txn (queued_surt surt)) [
    | ok k ↦ ok already_queued
    | err kvs_notfound ↦ elim (newest txn (url_surt surt)) [
      | ok k ↦
          crawled_time k surt >>= λ ltime. if is_due ltime time then ok (added txn) else ok too_soon
      | err kvs_notfound ↦ ok (added txn)
      | err e ↦ err e
    ]
    | err e ↦ err e
  ]

  -- The two writes of `queue_add`, where the checks let the URL in.
  unfoldable pub enqueue : Added Txn → ℕ → ℕ → Bytes → Bytes → Bytes → Result (Added Txn)
  enqueue already_queued time id url client surt = ok already_queued
  enqueue too_soon time id url client surt = ok too_soon
  enqueue (added txn) time id url client surt =
      put txn (time_id_queued_url_and_client time id url client) [] >>= λ txn'.
      put txn' (queued_url_surt_and_time_id surt time id) [] >>= λ txn''. ok (added txn'')

  -- The transaction of `queue_add`. `id` is the value of `++current_id`; `URL` and `client` are texts,
  -- so that of the assertions only that on `time` can fail. The result is the transaction to commit.
  unfoldable pub queue_add : Txn → ℕ → ℕ → Bytes → Bytes → Result (Added Txn)
  queue_add txn time id url client = asserted time >>= λ _.
      url_normalize_surt (some url) uri_max >>= λ surt.
      may_queue txn time surt >>= λ verdict. enqueue verdict time id url client surt

  -- The return value: success, or KVS_KEYEXIST.
  unfoldable pub queue_add_rc : Result (Added Txn) → Result Bool
  queue_add_rc (ok already_queued) = ok false
  queue_add_rc (ok too_soon) = err kvs_keyexist
  queue_add_rc (ok (added txn)) = ok true
  queue_add_rc (err e) = err e

  unfoldable pub queue_remove : Txn → ℕ → ℕ → Bytes → Bytes → Result Txn
  queue_remove txn time id url client = asserted time >>= λ _. asserted id >>= λ _.
      url_normalize_surt (some url) uri_max >>= λ surt.
      del txn (time_id_queued_url_and_client time id url client) >>= λ txn'.
      del txn' (queued_url_surt_and_time_id surt time id)
