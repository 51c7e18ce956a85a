-- ===== src/Api/Enqueue.antt =====
-- `api_enqueue` of src/api.c: a URL is queued, and its response is waited for.
pub mod Whole
use hash_archive.Prelude.{
  ℕ, zero, suc, ◌+◌, Bool, true, false, Bytes, List, [], ◌∷◌, ◌++◌, append_assoc, append-nil,
  Option, none, some, if◌then◌else◌, ◌≡◌, refl, sym, ap, ◌∙◌, ◌⊎◌, inl, inr, subst,
}
use hash_archive.Error.{kvs_keyexist, uv_etimedout, Result, ok, err, ◌>>=◌, >>=-eq-ok}
use hash_archive.Hash.Uri.Parse.{Base58}
use hash_archive.Db.Response.{Response}
use hash_archive.Db.Store.{Kvs}
use hash_archive.Db.Query.{hx_get_history}
use hash_archive.Queue.{queue_add, queue_add_rc}
use hash_archive.Queue.Work.{queue_timedwait}
use hash_archive.Api.{Json, Event, chunk, chunk_end, end_message, events, head, res_json}
use hash_archive.Api.Value.{IsValue, res_json-IsValue}

-- What `queue_add` returns: whether to wait. KVS_KEYEXIST, for a URL crawled lately, is no failure.
unfoldable pub must_wait : Result Bool → Result Bool
must_wait (ok b) = ok true
must_wait (err kvs_keyexist) = ok false
must_wait (err e) = err e

-- A wait that has timed out is repeated.
unfoldable pub timed_out : Result Bool → Bool
timed_out (err uv_etimedout) = true
timed_out r = false

-- `if(1 != count) rc = KVS_NOTFOUND;`, and nothing is written after an error.
abbrev pub only_one : Base58 → Result (List Response) → Result (List Json)
only_one b58 (ok (r ∷ [])) = res_json b58 r
only_one b58 (ok rs) = ok []
only_one b58 (err e) = ok []

unfoldable pub found_json : Base58 → Result Bool → Result (List Response) → Result (List Json)
found_json b58 (err e) history = ok []
found_json b58 (ok b) history = only_one b58 history

abbrev pub newlines : ℕ → List Event
newlines zero = []
newlines (suc n) = chunk (hash_archive.Prelude.codes "\n") ∷ newlines n

-- The whole answer, after `n` waits that timed out.
unfoldable pub enqueue_answer : ℕ → Result (List Json) → Result (List Event)
enqueue_answer n json =
    json >>= λ ts. ok (head ++ (newlines n ++ (events ts ++ chunk_end ∷ end_message ∷ [])))

module _ (kvs : Kvs) (b58 : Base58) where
  open kvs use {Txn}

  -- The rounds of waiting, each over the transactions that it sees: how many timed out, and how the
  -- last one ended. `none` while it still waits.
  unfoldable pub wait_loop : List (List Txn) → ℕ → Bytes → ℕ → Option (ℕ × Result Bool)
  wait_loop [] now url n = none
  wait_loop (txns ∷ later) now url n =
      let rc = queue_timedwait kvs txns now url in
      let rest = wait_loop later now url (suc n) in if timed_out rc then rest else some (n, rc)

  abbrev pub after_wait :
      Option (ℕ × Result Bool) → Result (List Response) → Option (Result (List Event))
  after_wait none history = none
  after_wait (some (n, rc)) history = some (enqueue_answer n (found_json b58 rc history))

  abbrev pub after_add :
      Result Bool → Option (ℕ × Result Bool) → Result (List Response) → Option (Result (List Event))
  after_add (err e) waited history = some (err e)
  after_add (ok false) waited history = some (enqueue_answer 0 (found_json b58 (ok false) history))
  after_add (ok true) waited history = after_wait waited history

  -- `before` is the state that `queue_add` sees, `after` the one that the history is read from.
  unfoldable pub api_enqueue :
      Txn → Txn → List (List Txn) → ℕ → ℕ → Bytes → Response → Option (Result (List Event))
  api_enqueue before after rounds now id url blank =
      after_add (must_wait (queue_add_rc kvs (queue_add kvs before now id url [])))
        (wait_loop rounds now url 0) (hx_get_history kvs after url blank 1)
