-- ===== src/Db/Store.antt =====
-- The schema of src/db.h over libkvstore. A key is what the `KeyPack` macros bind, a range what the
-- `Range` macros bind; libkvstore itself, a submodule, is the parameter `Kvs`.
use hash_archive.Prelude.{ℕ, Bytes, List, ◌≡◌, ◌≢◌, ◌⊎◌}
use hash_archive.Error.{kvs_notfound, Result, ok, err}
use hash_archive.Hash.Algo.{Algo}
use hash_archive.Db.Response.{ℤ, Field}

abbrev pub hx_hash_index_len : ℕ
hx_hash_index_len = 8

-- One constructor for each table, in the order of the fields in the key.
pub data Key : Type 0 where
  time_id_to_response : ℕ → ℕ → Key
  url_surt_and_time_id : Bytes → ℕ → ℕ → Key
  time_id_queued_url_and_client : ℕ → ℕ → Bytes → Bytes → Key
  queued_url_surt_and_time_id : Bytes → ℕ → ℕ → Key
  hash_and_time_id : Algo → Bytes → ℕ → ℕ → Key

-- `HXTimeIDToResponseRange0`, `HXURLSurtAndTimeIDRange1`, `HXTimeIDQueuedURLAndClientRange0`,
-- `HXQueuedURLSurtAndTimeIDRange1`, `HXAlgoHashAndTimeIDRange2`
pub data Range : Type 0 where
  responses : Range
  url_surt : Bytes → Range
  queued : Range
  queued_surt : Bytes → Range
  algo_hash : Algo → Bytes → Range

-- The keys that begin with what the range binds.
pub data InRange : Range → Key → Type 0 where
  in_responses : (t i : ℕ) → InRange responses (time_id_to_response t i)
  in_url_surt : (s : Bytes) (t i : ℕ) → InRange (url_surt s) (url_surt_and_time_id s t i)
  in_queued : (t i : ℕ) (u c : Bytes) → InRange queued (time_id_queued_url_and_client t i u c)
  in_queued_surt :
      (s : Bytes) (t i : ℕ) → InRange (queued_surt s) (queued_url_surt_and_time_id s t i)
  in_algo_hash :
      (a : Algo) (h rest : Bytes) (t i : ℕ)
      → InRange (algo_hash a h) (hash_and_time_id a (mathlib.Core.List.◌++◌ h rest) t i)

-- What the program calls. A transaction is the state that it sees. `put_new` is a `kvs_put` with
-- KVS_NOOVERWRITE_FAST. `newest t r` is what a cursor finds last in the range. `keys_down t r` is what a
-- loop of `kvs_cursor_firstr` and `kvs_cursor_nextr` with the direction -1 passes until `nextr` fails,
-- which no query tells from the end, and `keys_from t r k dir` the same from `kvs_cursor_seekr` on; both
-- fail where the first call does.
pub record Kvs : Type 1 where
  pub Txn : Type 0
  pub get : Txn → Key → Result (List Field)
  pub put : Txn → Key → List Field → Result Txn
  pub put_new : Txn → Key → List Field → Result Txn
  pub del : Txn → Key → Result Txn
  pub newest : Txn → Range → Result Key
  pub keys_down : Txn → Range → Result (List Key)
  pub keys_from : Txn → Range → Key → ℤ → Result (List Key)

module _ (kvs : Kvs) where
  open kvs use {Txn, get, put, put_new, del, newest}

  abbrev pub Has : Txn → Key → Type 0
  Has t k = (v : List Field) × (get t k ≡ ok v)

  -- What libkvstore documents of the calls: a write is seen by the later reads of its transaction
  -- and touches no other key, one that must not overwrite touches no key that was there, a deletion
  -- drops its key only, and a cursor finds a key of its range that is
  -- there, or none only if there is none.
  pub record IsStore : Type 0 where
    pub put_new_get :
        (t t' : Txn) (k : Key) (v : List Field) → put_new t k v ≡ ok t' → get t' k ≡ ok v
    pub put_new_keeps :
        (t t' : Txn) (k j : Key) (v w : List Field)
        → put_new t k v ≡ ok t'
        → get t j ≡ ok w
        → get t' j ≡ ok w
    pub put_new_adds :
        (t t' : Txn) (k j : Key) (v : List Field)
        → put_new t k v ≡ ok t'
        → Has t' j
        → (j ≡ k) ⊎ Has t j
    pub put_has : (t t' : Txn) (k : Key) (v : List Field) → put t k v ≡ ok t' → Has t' k
    pub put_keeps :
        (t t' : Txn) (k j : Key) (v : List Field) → put t k v ≡ ok t' → Has t j → Has t' j
    pub put_adds :
        (t t' : Txn) (k j : Key) (v : List Field) → put t k v ≡ ok t' → Has t' j → (j ≡ k) ⊎ Has t j
    pub del_drops : (t t' : Txn) (k : Key) → del t k ≡ ok t' → ¬ Has t' k
    pub del_keeps : (t t' : Txn) (k j : Key) → del t k ≡ ok t' → j ≢ k → Has t j → Has t' j
    pub del_adds : (t t' : Txn) (k j : Key) → del t k ≡ ok t' → Has t' j → Has t j
    pub newest_some : (t : Txn) (r : Range) (k : Key) → newest t r ≡ ok k → InRange r k × Has t k
    pub newest_none :
        (t : Txn) (r : Range) (k : Key) → newest t r ≡ err kvs_notfound → InRange r k → ¬ Has t k
