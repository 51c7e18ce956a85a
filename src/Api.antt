-- ===== src/Api.antt =====
-- src/api.c: the answers in JSON. What a handler writes to its connection is a list of events; yajl, which
-- prints the tokens, is left out, and `malloc` does not fail. The queries of a handler here see one state
-- of the database; `api_enqueue`, which sees several, is in the child `Enqueue`.
pub mod Rows
pub mod Dump
pub mod Span
pub mod Value
pub mod Enqueue
use hash_archive.Prelude.{
  ℕ, zero, suc, ◌+◌, ◌-◌, ◌%◌, ◌^◌, ◌==◌, ltb, leb, if◌then◌else◌, Bytes, List, [], ◌∷◌, ◌++◌,
  Option, none, some, codes, length,
}
use hash_archive.Error.{Error, Result, ok, err, ◌>>=◌}
use hash_archive.Hash.Algo.{Algo}
use hash_archive.Hash.Uri.Parse.{link_prefix, Base58, hash_uri_parse}
use hash_archive.Hash.Uri.Format.{hash_uri_format}
use hash_archive.Url.{url_parse}
use hash_archive.Db.Response.{ℤ, pos, negsuc, Response, Digests, digest_at, uri_max}
use hash_archive.Db.Merge.{all_algos}
use hash_archive.Db.Store.{Kvs}
use hash_archive.Db.Query.{hx_get_history, hx_get_sources, hx_get_times}

-- The calls of yajl that are used; numbers are `long long`.
pub data Json : Type 0 where
  map_open map_close array_open array_close : Json
  string : Bytes → Json
  integer : ℤ → Json

pub data Event : Type 0 where
  response_line : ℕ → Bytes → Event
  header : Bytes → Bytes → Event
  begin_body chunk_end end_message flush : Event
  chunk : Bytes → Event
  json : Json → Event

-- A 64-bit number as a `long long`
unfoldable pub to_long : ℕ → ℤ
to_long n = if ltb n (2 ^ 63) then pos n else negsuc (2 ^ 64 - 1 - n)

-- The loop over the digests: those that are empty are skipped.
unfoldable pub hash_tokens : Base58 → List Algo → Digests → Result (List Json)
hash_tokens b58 [] d = ok []
hash_tokens b58 (a ∷ rest) d =
    let later = hash_tokens b58 rest d in
    if length (digest_at d a) == 0
    then later
    else (hash_uri_format b58
          (some (record { type = link_prefix; algo = some a; buf = digest_at d a })) uri_max
        >>= λ text. later >>= λ ts. ok (string text.0 ∷ ts))

unfoldable pub res_json : Base58 → Response → Result (List Json)
res_json b58 res = hash_tokens b58 all_algos (Response.digests res) >>= λ hashes. ok (
    map_open
      ∷ string (codes "url")
      ∷ string (Response.url res)
      ∷ string (codes "timestamp")
      ∷ integer (to_long (Response.time res))
      ∷ string (codes "status")
      ∷ integer (Response.status res)
      ∷ string (codes "type")
      ∷ string (Response.type res)
      ∷ string (codes "length")
      ∷ integer (to_long (Response.length res))
      ∷ string (codes "hashes")
      ∷ array_open
      ∷ hashes
    ++ array_close ∷ map_close ∷ [])

unfoldable pub json_list : Base58 → List Response → Result (List Json)
json_list b58 [] = ok []
json_list b58 (r ∷ rs) = res_json b58 r >>= λ ts. json_list b58 rs >>= λ more. ok (ts ++ more)

abbrev pub events : List Json → List Event
events = hash_archive.Prelude.map json

-- The head that every answer begins with.
unfoldable pub head : List Event
head =
    response_line 200 (codes "OK")
    ∷ header (codes "Transfer-Encoding") (codes "chunked")
    ∷ header (codes "Content-Type") (codes "text/json; charset=utf-8")
    ∷ begin_body
    ∷ []

unfoldable pub response_list : Base58 → List Response → Result (List Event)
response_list b58 rs = json_list b58 rs >>= λ ts.
    ok (head ++ (events (array_open ∷ ts ++ array_close ∷ []) ++ chunk_end ∷ end_message ∷ []))

abbrev pub config_api_max : ℕ
config_api_max = 30

abbrev pub config_api_batch_size : ℕ
config_api_batch_size = 50

-- The responses before the first one at `limit` or later: the `break` of the inner loop.
unfoldable pub shown : ℕ → List Response → List Response
shown limit [] = []
shown limit (r ∷ rs) =
    let rest = shown limit rs in if ltb (Response.time r) limit then r ∷ rest else []

abbrev pub prepend : List Response → Option (List Response) → Option (List Response)
prepend rs none = none
prepend rs (some more) = some (rs ++ more)

abbrev pub last : Response → List Response → Response
last r [] = r
last r (s ∷ rs) = last s rs

-- One round of `api_dump`, after the query: an error ends the dump as the end of the table does.
abbrev pub dump_batch :
    Result (List Response) → ℕ → (ℕ → ℕ → Option (List Response)) → Option (List Response)
dump_batch (err e) limit more = some []
dump_batch (ok []) limit more = some []
dump_batch (ok (r ∷ rs)) limit more =
    let next = more (Response.time (last r rs)) ((Response.id (last r rs) + 1) % 2 ^ 64) in
    if ltb (length (r ∷ rs)) config_api_batch_size
    then some (shown limit (r ∷ rs))
    else if leb limit (Response.time (last r rs))
    then some (shown limit (r ∷ rs))
    else prepend (shown limit (r ∷ rs)) next

-- Each response is followed by a flush.
unfoldable pub dump_events : Base58 → List Response → Result (List Event)
dump_events b58 [] = ok []
dump_events b58 (r ∷ rs) =
    res_json b58 r >>= λ ts. dump_events b58 rs >>= λ more. ok (events ts ++ flush ∷ more)

abbrev pub dump_answer : Base58 → Option (List Response) → Option (Result (List Event))
dump_answer b58 none = none
dump_answer b58 (some rs) = some (
    dump_events b58 rs >>= λ es.
    ok (head ++ (json array_open ∷ es ++ json array_close ∷ chunk_end ∷ end_message ∷ [])))

module _ (kvs : Kvs) where
  open kvs use {Txn}

  -- The rounds of `api_dump`, as the responses that they show; `none` if the fuel ends.
  unfoldable pub dump_rows : ℕ → Txn → Response → ℕ → ℕ → ℕ → Option (List Response)
  dump_rows zero txn blank limit time id = none
  dump_rows (suc fuel) txn blank limit time id =
      dump_batch (hx_get_times kvs txn time id (pos 1) blank config_api_batch_size) limit
        (dump_rows fuel txn blank limit)

module _ (kvs : Kvs) (b58 : Base58) where
  open kvs use {Txn}

  unfoldable pub api_history : Txn → Bytes → Response → Result (List Event)
  api_history txn url blank = url_parse (some url) >>= λ obj.
      hx_get_history kvs txn url blank config_api_max >>= λ rs. response_list b58 rs

  unfoldable pub api_sources : Txn → Bytes → Response → Result (List Event)
  api_sources txn hash blank = hash_uri_parse b58 (some hash) >>= λ obj.
      hx_get_sources kvs txn (some obj) blank config_api_max >>= λ rs. response_list b58 rs

  unfoldable pub api_dump : ℕ → Txn → Response → ℕ → ℕ → Option (Result (List Event))
  api_dump fuel txn blank start duration =
      let rows = dump_rows kvs fuel txn blank ((start + duration) % 2 ^ 64) start 0 in
      if duration == 0 then some (ok []) else dump_answer b58 rows
