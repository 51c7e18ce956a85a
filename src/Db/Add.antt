-- ===== src/Db/Add.antt =====
-- `hx_response_add` of src/db.c.
pub mod Indexed
use hash_archive.Prelude.{
  ℕ, Bytes, List, [], ◌∷◌, Option, some, take, length, ltb, ◌==◌, if◌then◌else◌, ◌≡◌, refl, arith,
}
use hash_archive.Error.{aborted, Result, ok, err, ◌>>=◌, >>=-eq-ok}
use hash_archive.Hash.Algo.{Algo}
use hash_archive.Db.Response.{Response, Digests, digest_at, Field, pack_value, uri_max}
use hash_archive.Db.Merge.{all_algos}
use hash_archive.Db.Store.{
  Kvs, Key, time_id_to_response, url_surt_and_time_id, hash_and_time_id, hx_hash_index_len, Has,
  IsStore,
}
use hash_archive.Url.Surt.{url_normalize_surt}

module _ (kvs : Kvs) where
  open kvs use {Txn, get, put_new}

  -- One round of the loop over the digests: one that is there and is shorter than the index stops the
  -- program.
  unfoldable pub add_digest : Txn → Algo → Bytes → ℕ → ℕ → Result Txn
  add_digest txn a digest time id =
      if length digest == 0
      then ok txn
      else if ltb (length digest) hx_hash_index_len
      then err aborted
      else put_new txn (hash_and_time_id a (take hx_hash_index_len digest) time id) []

  unfoldable pub add_digests : Txn → List Algo → Digests → ℕ → ℕ → Result Txn
  add_digests txn [] d time id = ok txn
  add_digests txn (a ∷ rest) d time id =
      add_digest txn a (digest_at d a) time id >>= λ txn'. add_digests txn' rest d time id

  unfoldable pub hx_response_add : Txn → Response → ℕ → Result Txn
  hx_response_add txn res id = url_normalize_surt (some (Response.url res)) uri_max >>= λ surt.
      pack_value res >>= λ value.
      put_new txn (time_id_to_response (Response.time res) id) value >>= λ txn'.
      put_new txn' (url_surt_and_time_id surt (Response.time res) id) [] >>= λ txn''.
      add_digests txn'' all_algos (Response.digests res) (Response.time res) id
