-- ===== src/Tests/Dumps.antt =====
-- A dump of a table with one response, and a list of one.
use hash_archive.Prelude.{
  ℕ, Bytes, List, [], ◌∷◌, ◌++◌, some, map, codes, length, true, ◌⊎◌, ◌≡◌, refl,
}
use hash_archive.Error.{ok}
use hash_archive.Hash.Uri.Parse.{Base58}
use hash_archive.Db.Response.{pos, Response}
use hash_archive.Db.Store.{Kvs, Key, time_id_to_response}
use hash_archive.Db.Query.{hx_get_latest, of_url_key, hx_get_history, unless_notfound, history_from}
use hash_archive.Db.Merge.{res_merge_common_content}
use hash_archive.Queue.{queue_add, may_queue, enqueue, already_queued, queue_add_rc}
use hash_archive.Queue.Work.{queue_timedwait, is_answered}
use hash_archive.Api.Enqueue.{
  must_wait, timed_out, found_json, newlines, enqueue_answer, wait_loop, api_enqueue,
}
use hash_archive.Api.Enqueue.Whole.{IsAnswer, api_enqueue-IsAnswer}
use hash_archive.Tests.Queues.{page, page-surt}
use hash_archive.Api.{
  Json, map_open, map_close, array_open, array_close, string, integer, Event, json, head, events,
  chunk_end, end_message, response_list,
}
use hash_archive.Api.Rows.{from}
use hash_archive.Api.Value.{IsValue, response_list-IsValue}
use hash_archive.Tests.Archive.{response, one_response}

abbrev no_base58 : Base58
no_base58 = record {
  encode = λ b n. hash_archive.Prelude.none;
  decode = λ b n. hash_archive.Prelude.none;
}

abbrev stored : List (ℕ × ℕ)
stored = (1700000000, 7) ∷ []

abbrev place : Key → ℕ × ℕ
place (time_id_to_response t i) = (t, i)
place k = (0, 0)

abbrev dump_store : Kvs
dump_store = record one_response {
  keys_from = λ t r k dir. ok (map (λ x. time_id_to_response x.0 x.1) (from (place k) stored));
}

abbrev row : ℕ × ℕ → Response
row k = record response { time = k.0; id = k.1 }

abbrev bare : Response
bare = record response {
  digests = record { d_md5 = []; d_sha1 = []; d_sha256 = []; d_sha384 = []; d_sha512 = [] };
}

abbrev tokens : List Json
tokens =
    array_open
    ∷ map_open
    ∷ string (codes "url")
    ∷ string (Response.url bare)
    ∷ string (codes "timestamp")
    ∷ integer (pos 1700000000)
    ∷ string (codes "status")
    ∷ integer (pos 200)
    ∷ string (codes "type")
    ∷ string (codes "text/html")
    ∷ string (codes "length")
    ∷ integer (pos 5)
    ∷ string (codes "hashes")
    ∷ array_open
    ∷ array_close
    ∷ map_close
    ∷ array_close
    ∷ []

bare_listed :
    response_list no_base58 (bare ∷ [])
    ≡ ok (head ++ (events tokens ++ chunk_end ∷ end_message ∷ []))
unfolding response_list hash_archive.Api.json_list hash_archive.Api.res_json
    hash_archive.Api.hash_tokens hash_archive.Db.Response.digest_at hash_archive.Api.to_long
bare_listed = refl

response_list-IsValue_example :
    (ts : List Json) × (head ++ (events tokens ++ chunk_end ∷ end_message ∷ [])
      ≡ head ++ (events ts ++ chunk_end ∷ end_message ∷ []))
    × IsValue ts
response_list-IsValue_example =
    response_list-IsValue no_base58 (bare ∷ [])
      (head ++ (events tokens ++ chunk_end ∷ end_message ∷ [])) bare_listed

-- A URL that is queued already, and whose history is empty.
abbrev quiet : Kvs
quiet = record one_response { keys_down = λ t r. ok [] }

queued : queue_add quiet 0 1700000001 8 page [] ≡ ok already_queued
unfolding queue_add may_queue enqueue
queued = rw page-surt refl

latest : hx_get_latest quiet 0 page ≡ ok (1700000000, 7)
unfolding hx_get_latest of_url_key
latest = rw page-surt refl

waited : wait_loop quiet no_base58 ([] ∷ (0 ∷ []) ∷ []) 1700000001 page 0 ≡ some (1, ok true)
unfolding wait_loop queue_timedwait is_answered timed_out
waited = rw latest refl

no_history : hx_get_history quiet 0 page response 1 ≡ ok []
unfolding hx_get_history unless_notfound history_from res_merge_common_content
no_history = rw page-surt refl

abbrev answer : List Event
answer = head ++ (newlines 1 ++ (chunk_end ∷ end_message ∷ []))

answered :
    api_enqueue quiet no_base58 0 0 ([] ∷ (0 ∷ []) ∷ []) 1700000001 8 page response
    ≡ some (ok answer)
unfolding api_enqueue queue_add_rc must_wait enqueue_answer found_json
answered = rw (queued, waited, no_history) refl

api_enqueue-IsAnswer_example :
    IsAnswer quiet no_base58
      ([] ∷ (0 ∷ []) ∷ [])
      1700000001
      page
      (queue_add_rc quiet (queue_add quiet 0 1700000001 8 page []))
      (hx_get_history quiet 0 page response 1)
      (api_enqueue quiet no_base58 0 0 ([] ∷ (0 ∷ []) ∷ []) 1700000001 8 page response)
api_enqueue-IsAnswer_example =
    api_enqueue-IsAnswer quiet no_base58 0 0 ([] ∷ (0 ∷ []) ∷ []) 1700000001 8 page response
