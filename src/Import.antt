-- ===== src/Import.antt =====
-- src/import.c: responses that another archive sends over a pipe. libasync's reader is the parameter
-- `Stream`. The accepting of connections is left out.
pub mod Wire
pub mod Reads
pub mod Batches
use hash_archive.Prelude.{
  ℕ, zero, suc, ◌+◌, ◌-◌, ◌*◌, ◌%◌, ◌^◌, Bool, true, false, Bytes, List, [], ◌∷◌, Option, none,
  some, length, ltb, leb, ◌==◌, if◌then◌else◌,
}
use hash_archive.Error.{Error, uv_eof, uv_emsgsize, aborted, Result, ok, err}
use hash_archive.Step.{Reading, go_on, ◌>>=◌, pure, fail}
use hash_archive.Hash.Algo.{
  Algo, md5, sha1, sha256, sha384, sha512, hash_algo_digest_len, hash_digest_max,
}
use hash_archive.Db.Response.{Response, Digests, unpack_status, uri_max, type_max}
use hash_archive.Db.Store.{Kvs}
use hash_archive.Db.Add.{hx_response_add}

-- `read s n` is what `async_read` of `n` bytes returns, and the stream after it.
pub record Stream : Type 1 where
  pub State : Type 0
  pub read : State → ℕ → Result Bytes × State

-- A C string ends at its first zero byte.
unfoldable pub c_string : Bytes → Bytes
c_string [] = []
c_string (c ∷ s) = let rest = c_string s in if c == 0 then [] else c ∷ rest

unfoldable pub number : ℕ → Bytes → ℕ
number n [] = n
number n (x ∷ xs) = number (n * 2 ^ 8 + x) xs

-- The end of a round: one more response, or the end of the loop.
abbrev pub keep : {S A : Type 0} → Result A × S → Reading S (List A) → Result (List A) × S
keep (ok r, s) more = go_on (more s) (λ rs. pure (r ∷ rs))
keep (err aborted, s) more = (err aborted, s)
keep (err e, s) more = (ok [], s)

module _ (stream : Stream) where
  open stream use {State, read}

  abbrev pub async_read : ℕ → Reading State Bytes
  async_read len s = read s len

  -- `x < len`: a read that returns less than it was asked for is the end.
  unfoldable pub read_len : ℕ → Reading State Bytes
  read_len len =
      if len == 0
      then pure []
      else (async_read len >>= λ x. if ltb (length x) len then fail uv_eof else pure x)

  unfoldable pub read_uint16 : Reading State ℕ
  read_uint16 = read_len 2 >>= λ x. pure (number 0 x)

  unfoldable pub read_uint64 : Reading State ℕ
  read_uint64 = read_len 8 >>= λ x. pure (number 0 x)

  unfoldable pub read_string : ℕ → Reading State Bytes
  read_string max = read_uint16 >>= λ len.
      if leb max len then fail uv_emsgsize else (read_len len >>= λ s. pure (c_string s))

  unfoldable pub read_blob : ℕ → Reading State Bytes
  read_blob max = read_uint16 >>= λ len. if ltb max len then fail uv_emsgsize else read_len len

  -- Round `i` of the loops over the digests that are known.
  unfoldable pub read_hash : ℕ → ℕ → Algo → Reading State Bytes
  read_hash hcount i algo =
      if ltb i hcount
      then (read_blob hash_digest_max >>= λ d.
          if leb (length d) (hash_algo_digest_len algo) then pure d else fail aborted)
      else pure []

  -- The digests beyond them.
  unfoldable pub discard : ℕ → Reading State (Unit {0})
  discard zero = pure tt
  discard (suc n) = read_blob hash_digest_max >>= λ d. discard n

  unfoldable pub read_hashes : ℕ → Reading State Digests
  read_hashes hcount = read_hash hcount 0 md5 >>= λ d0. read_hash hcount 1 sha1 >>= λ d1.
      read_hash hcount 2 sha256 >>= λ d2. read_hash hcount 3 sha384 >>= λ d3.
      read_hash hcount 4 sha512 >>= λ d4. discard (hcount - 5) >>= λ u.
      pure (record { d_md5 = d0; d_sha1 = d1; d_sha256 = d2; d_sha384 = d3; d_sha512 = d4 })

  -- One round of `read_responses`; `blank` is what stood in `out[x]`.
  unfoldable pub read_one : Response → Reading State Response
  read_one blank = read_uint64 >>= λ time. read_string uri_max >>= λ url. read_uint64 >>= λ status.
      read_string type_max >>= λ type. read_uint64 >>= λ size. read_uint16 >>= λ hcount.
      read_hashes hcount >>= λ digests. pure (record blank {
        time = time;
        url = url;
        status = unpack_status status;
        type = type;
        length = size;
        digests = digests;
      })

  -- A round that fails ends the loop and keeps the responses before it; a failed assertion does not.
  unfoldable pub read_responses : Response → ℕ → Reading State (List Response)
  read_responses blank zero s = (ok [], s)
  read_responses blank (suc max) s = keep (read_one blank s) (read_responses blank max)

-- What `connection` ends with: the database, the stream, and the code that is logged.
pub record Ended (D S : Type 0) : Type 0 where
  pub db : D
  pub rest : S
  pub rc : Error

abbrev pub batch_size : ℕ
batch_size = 50

module _ (stream : Stream) (kvs : Kvs) where
  open stream use {State}
  open kvs use {Txn}

  -- The loop of `hx_response_add(txn, &responses[i], id++)`
  unfoldable pub add_batch : Txn → List Response → ℕ → Result Txn
  add_batch txn [] id = ok txn
  add_batch txn (r ∷ rs) id = elim (hx_response_add kvs txn r id) [
    | ok txn' ↦ add_batch txn' rs ((id + 1) % 2 ^ 64)
    | err e ↦ err e
  ]

  -- What follows `add_batch`: the commit, and the test for a batch that is not full.
  abbrev pub committed :
      Result Txn
      → Txn
      → ℕ
      → ℕ
      → State
      → (State → Txn → ℕ → Option (Ended Txn State))
      → Option (Ended Txn State)
  committed (err e) db id count s more = some (record { db = db; rest = s; rc = e })
  committed (ok db') db id count s more =
      if ltb count batch_size
      then some (record { db = db'; rest = s; rc = uv_eof })
      else more s db' ((id + count) % 2 ^ 64)

  -- One round of the loop, after the read.
  abbrev pub add_read :
      Result (List Response) × State
      → Txn
      → ℕ
      → (State → Txn → ℕ → Option (Ended Txn State))
      → Option (Ended Txn State)
  add_read (err e, s) db id more = some (record { db = db; rest = s; rc = e })
  add_read (ok rs, s) db id more = committed (add_batch db rs id) db id (length rs) s more

  -- Batches, until one is not full; `none` if the fuel ends. A batch that fails is dropped whole.
  unfoldable pub import_from : ℕ → Response → State → Txn → ℕ → Option (Ended Txn State)
  import_from zero blank s db id = none
  import_from (suc fuel) blank s db id =
      add_read (read_responses stream blank batch_size s) db id (import_from fuel blank)

  -- The ids of a connection begin at 0.
  unfoldable pub connection : ℕ → Response → State → Txn → Option (Ended Txn State)
  connection fuel blank s db = import_from fuel blank s db 0
