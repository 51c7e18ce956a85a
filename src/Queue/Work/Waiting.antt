-- ===== src/Queue/Work/Waiting.antt =====
-- Waiting for a URL agrees with queueing it.
use hash_archive.Prelude.{ℕ, true, Bytes, List, ◌∷◌, ◌≡◌, arith}
use hash_archive.Error.{ok}
use hash_archive.Db.Store.{Kvs}
use hash_archive.Db.Query.{of_url_key, hx_get_latest}
use hash_archive.Queue.{too_soon, crawled_time, is_due, may_queue}
use hash_archive.Queue.Invariant.{SurtOf}
use hash_archive.Queue.Work.{is_answered, queue_timedwait}

module _ (kvs : Kvs) where
  open kvs use {Txn, newest}

  -- If a URL is not queued because it was crawled lately, a wait for it that begins with the same time
  -- and the same state ends in its first round.
  pub queue_timedwait-too_soon :
      (t : Txn) (later : List Txn) (time : ℕ) (url surt : Bytes)
      → SurtOf url surt
      → may_queue kvs t time surt ≡ ok too_soon
      → queue_timedwait kvs (t ∷ later) time url ≡ ok true
  unfolding queue_timedwait hx_get_latest may_queue crawled_time of_url_key is_answered is_due
  queue_timedwait-too_soon t later time url surt s e = rw s (ground arith)
