-- ===== src/Db/Query.antt =====
-- The queries of src/db.c, in a transaction that is given. `blank` is what the caller left in each
-- element of `out`.
pub mod Recent
pub mod Sources
pub mod Fresh
use hash_archive.Prelude.{
  ℕ, zero, suc, Bool, true, false, not, Bytes, List, [], ◌∷◌, ◌++◌, Option, none, some, take,
  length, min, bytes_eq, leb, ltb, ◌&&◌, ◌||◌, if◌then◌else◌,
}
use hash_archive.Error.{Error, kvs_einval, kvs_notfound, aborted, Result, ok, err, ◌>>=◌, non_null}
use hash_archive.Hash.Algo.{Algo}
use hash_archive.Hash.Uri.Parse.{HashUri}
use hash_archive.Url.Surt.{url_normalize_surt}
use hash_archive.Db.Response.{ℤ, pos, negsuc, Response, digest_at, unpack_value, uri_max}
use hash_archive.Db.Merge.{timeidcmp, is_ok_status, res_merge_common_content, res_merge_common_urls}
use hash_archive.Db.Store.{
  Kvs, Key, time_id_to_response, url_surt_and_time_id, hash_and_time_id, hx_hash_index_len,
  responses, url_surt, algo_hash,
}

-- `if(rc < 0 && KVS_NOTFOUND != rc) goto cleanup;`
unfoldable pub unless_notfound : Result (List Key) → Result (List Key)
unless_notfound (err kvs_notfound) = ok []
unless_notfound (err e) = err e
unless_notfound (ok ks) = ok ks

-- `hx_get_sources` lacks that line: every failure is an empty range.
unfoldable pub or_nothing : Result (List Key) → List Key
or_nothing (err e) = []
or_nothing (ok ks) = ks

-- The key of the response that an index's key leads to; another table's key fails the assertion.
unfoldable pub of_url_key : Key → Result (ℕ × ℕ)
of_url_key (url_surt_and_time_id surt time id) = ok (time, id)
of_url_key _ = err aborted

unfoldable pub of_hash_key : Key → Result (ℕ × ℕ)
of_hash_key (hash_and_time_id algo hash time id) = ok (time, id)
of_hash_key _ = err aborted

unfoldable pub of_response_key : Key → Result (ℕ × ℕ)
of_response_key (time_id_to_response time id) = ok (time, id)
of_response_key _ = err aborted

-- The loop that looks for a duplicate URL in `out[0..i]`.
unfoldable pub url_in : Bytes → List Response → Bool
url_in url [] = false
url_in url (r ∷ rs) = bytes_eq (Response.url r) url || url_in url rs

unfoldable pub is_recent : List Response → Response → Bool
is_recent done r = is_ok_status (Response.status r) && not (url_in (Response.url r) done)

-- The complete prefix, of which the index has eight bytes at most.
unfoldable pub is_source : Algo → Bytes → Response → Bool
is_source algo buf r =
    leb (length buf) (length (digest_at (Response.digests r) algo))
    && bytes_eq (take (length buf) (digest_at (Response.digests r) algo)) buf

-- `assert(x >= 0); if(0 == x) out[i].flags |= HX_RES_LATEST;`
unfoldable pub latest_flag : ℤ → Result Bool
latest_flag (pos zero) = ok true
latest_flag (pos (suc n)) = ok false
latest_flag (negsuc n) = err aborted

module _ (kvs : Kvs) where
  open kvs use {Txn, get, newest, keys_down, keys_from}

  unfoldable pub read_response : Txn → Response → ℕ × ℕ → Result Response
  read_response txn blank (time, id) = get txn (time_id_to_response time id) >>= λ value.
      unpack_value value (record blank { time = time; id = id })

  unfoldable pub hx_get_latest : Txn → Bytes → Result (ℕ × ℕ)
  hx_get_latest txn url = url_normalize_surt (some url) uri_max >>= λ surt.
      newest txn (url_surt surt) >>= λ key. of_url_key key

  -- The loops: `done` is `out[0..i]`, and the list the keys that the cursor has yet to pass.
  unfoldable pub recent_from :
      Txn → Response → ℕ → List Response → List Key → Result (List Response)
  recent_from txn blank max done [] = ok done
  recent_from txn blank max done (k ∷ ks) =
      if ltb (length done) max
      then (of_response_key k >>= λ at. read_response txn blank at >>= λ r.
          recent_from txn blank max (if is_recent done r then done ++ r ∷ [] else done) ks)
      else ok done

  unfoldable pub hx_get_recent : Txn → Response → ℕ → Result (List Response)
  hx_get_recent txn blank max =
      unless_notfound (keys_down txn responses) >>= λ ks. recent_from txn blank max [] ks

  unfoldable pub history_from :
      Txn → Response → ℕ → List Response → List Key → Result (List Response)
  history_from txn blank max done [] = ok done
  history_from txn blank max done (k ∷ ks) =
      if ltb (length done) max
      then (of_url_key k >>= λ at.
          read_response txn blank at >>= λ r. history_from txn blank max (done ++ r ∷ []) ks)
      else ok done

  unfoldable pub hx_get_history : Txn → Bytes → Response → ℕ → Result (List Response)
  hx_get_history txn url blank max = url_normalize_surt (some url) uri_max >>= λ surt.
      unless_notfound (keys_down txn (url_surt surt)) >>= λ ks.
      history_from txn blank max [] ks >>= λ rs. ok (res_merge_common_content rs)

  -- One candidate of `hx_get_sources`, after its response was read.
  unfoldable pub add_source : Txn → Algo → Bytes → List Response → Response → Result (List Response)
  add_source txn algo buf done r =
      if is_source algo buf r
      then (hx_get_latest txn (Response.url r) >>= λ last.
          latest_flag (timeidcmp last.0 last.1 (Response.time r) (Response.id r)) >>= λ flag.
          ok (done ++ record r { latest = flag } ∷ []))
      else ok done

  unfoldable pub sources_from :
      Txn → Response → Algo → Bytes → ℕ → List Response → List Key → Result (List Response)
  sources_from txn blank algo buf max done [] = ok done
  sources_from txn blank algo buf max done (k ∷ ks) =
      if ltb (length done) max
      then (of_hash_key k >>= λ at. read_response txn (record blank { latest = false }) at >>= λ r.
          add_source txn algo buf done r >>= λ done'. sources_from txn blank algo buf max done' ks)
      else ok done

  -- Of an unknown algorithm, the code -1, no table has an entry.
  unfoldable pub sources_of : Txn → Option Algo → Bytes → Response → ℕ → Result (List Response)
  sources_of txn none buf blank max = ok []
  sources_of txn (some algo) buf blank max =
      let keys =
        or_nothing
          (keys_down txn (algo_hash algo (take (min hx_hash_index_len (length buf)) buf))) in
      sources_from txn blank algo buf max [] keys >>= λ rs. ok (res_merge_common_urls rs)

  unfoldable pub hx_get_sources : Txn → Option HashUri → Response → ℕ → Result (List Response)
  hx_get_sources txn obj blank max =
      non_null obj kvs_einval >>= λ o. sources_of txn o.algo o.buf blank max

  unfoldable pub times_from : Txn → Response → ℕ → List Response → List Key → Result (List Response)
  times_from txn blank max done [] = ok done
  times_from txn blank max done (k ∷ ks) =
      if ltb (length done) max
      then (of_response_key k >>= λ at.
          read_response txn blank at >>= λ r. times_from txn blank max (done ++ r ∷ []) ks)
      else ok done

  unfoldable pub hx_get_times : Txn → ℕ → ℕ → ℤ → Response → ℕ → Result (List Response)
  hx_get_times txn time id dir blank max =
      unless_notfound (keys_from txn responses (time_id_to_response time id) dir) >>= λ ks.
      times_from txn blank max [] ks
