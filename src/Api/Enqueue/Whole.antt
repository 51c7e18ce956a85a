-- ===== src/Api/Enqueue/Whole.antt =====
-- What `api_enqueue` answers, for every outcome of the queue, the waits and the query.
use hash_archive.Prelude.{
  ℕ, suc, ◌+◌, Bool, true, false, Bytes, List, [], ◌∷◌, ◌++◌, map, length, codes, All, Option, none,
  some, ◌≡◌, ◌≢◌, ◌⊎◌, inl, inr, refl, ap, ◌∙◌, arith,
}
use hash_archive.Error.{Error, kvs_keyexist, uv_etimedout, Result, ok, err}
use hash_archive.Hash.Uri.Parse.{Base58}
use hash_archive.Db.Response.{Response}
use hash_archive.Db.Store.{Kvs}
use hash_archive.Db.Query.{hx_get_history}
use hash_archive.Queue.{queue_add, queue_add_rc}
use hash_archive.Queue.Work.{queue_timedwait}
use hash_archive.Api.{Json, Event, chunk, chunk_end, end_message, events, head, res_json}
use hash_archive.Api.Value.{IsValue, res_json-IsValue}
use hash_archive.Api.Enqueue.{
  must_wait, timed_out, found_json, newlines, enqueue_answer, wait_loop, after_add, api_enqueue,
}

-- What is written of the history behind a wait that ended with `rc`: one JSON object, where the wait
-- did not fail and there is exactly one response, and otherwise nothing.
pub data Found (b58 : Base58) : Result Bool → Result (List Response) → List Json → Type 0 where
  object :
      (b : Bool) (r : Response) (ts : List Json)
      → res_json b58 r ≡ ok ts
      → IsValue ts
      → Found b58 (ok b) (ok (r ∷ [])) ts
  no_wait : (e : Error) (history : Result (List Response)) → Found b58 (err e) history []
  not_one :
      (b : Bool) (history : Result (List Response))
      → ((r : Response) → history ≢ ok (r ∷ []))
      → Found b58 (ok b) history []

-- The only failure behind a wait is that of the response's JSON.
pub data Fails (b58 : Base58) : Result Bool → Result (List Response) → Error → Type 0 where
  no_json :
      (b : Bool) (r : Response) (e : Error)
      → res_json b58 r ≡ err e
      → Fails b58 (ok b) (ok (r ∷ [])) e

module _ (kvs : Kvs) (b58 : Base58) where
  open kvs use {Txn}

  -- Given what `queue_add` returned: the rounds that timed out, and how the wait ended.
  pub data Waits (rounds : List (List Txn)) (now : ℕ) (url : Bytes) (rc : Result Bool)
      : List (List Txn) → Result Bool → Type 0 where
    crawled : rc ≡ err kvs_keyexist → Waits rounds now url rc [] (ok false)
    waited :
        (b : Bool) (early later : List (List Txn)) (last : List Txn)
        → rc ≡ ok b
        → rounds ≡ early ++ last ∷ later
        → All (λ txns. queue_timedwait kvs txns now url ≡ err uv_etimedout) early
        → queue_timedwait kvs last now url ≢ err uv_etimedout
        → Waits rounds now url rc early (queue_timedwait kvs last now url)

  -- What `api_enqueue` does with what `queue_add` returned and with the history; `none` is a request
  -- that still waits.
  pub data IsAnswer (rounds : List (List Txn)) (now : ℕ) (url : Bytes) (rc : Result Bool)
      (history : Result (List Response)) : Option (Result (List Event)) → Type 0 where
    refused :
        (e : Error)
        → rc ≡ err e
        → e ≢ kvs_keyexist
        → IsAnswer rounds now url rc history (some (err e))
    waiting :
        (b : Bool)
        → rc ≡ ok b
        → All (λ txns. queue_timedwait kvs txns now url ≡ err uv_etimedout) rounds
        → IsAnswer rounds now url rc history none
    cut_short :
        (early : List (List Txn)) (end : Result Bool) (e : Error)
        → Waits rounds now url rc early end
        → Fails b58 end history e
        → IsAnswer rounds now url rc history (some (err e))
    answered :
        (early : List (List Txn)) (end : Result Bool) (ts : List Json)
        → Waits rounds now url rc early end
        → Found b58 end history ts
        → IsAnswer rounds now url rc history (
            some (
              ok (
                head
                ++ (map (λ txns. chunk (codes "\n")) early
                    ++ (events ts ++ chunk_end ∷ end_message ∷ [])))))

must_wait-cases :
    (e : Error)
    → ((e ≡ kvs_keyexist) × (must_wait (err e) ≡ ok false))
      ⊎ ((e ≢ kvs_keyexist) × (must_wait (err e) ≡ err e))
unfolding must_wait
must_wait-cases kvs_keyexist = inl (refl, refl)
must_wait-cases e = inr ((λ same. cc), refl)

timed_out-cases :
    (r : Result Bool)
    → ((r ≡ err uv_etimedout) × (timed_out r ≡ true))
      ⊎ ((r ≢ err uv_etimedout) × (timed_out r ≡ false))
unfolding timed_out
timed_out-cases (err uv_etimedout) = inl (refl, refl)
timed_out-cases r = inr ((λ same. cc), refl)

found_json-Found :
    (b58 : Base58) (rc : Result Bool) (history : Result (List Response))
    → ((ts : List Json) × (found_json b58 rc history ≡ ok ts) × Found b58 rc history ts)
      ⊎ ((e : Error) × (found_json b58 rc history ≡ err e) × Fails b58 rc history e)
unfolding found_json
found_json-Found b58 (err e) history = inl ([], refl, no_wait e history)
found_json-Found b58 (ok b) (err e) = inl ([], refl, not_one b (err e) (λ r same. cc))
found_json-Found b58 (ok b) (ok []) = inl ([], refl, not_one b (ok []) (λ r same. cc))
found_json-Found b58 (ok b) (ok (r ∷ s ∷ rs)) =
    inl ([], refl, not_one b (ok (r ∷ s ∷ rs)) (λ q same. cc))
found_json-Found b58 (ok b) (ok (r ∷ [])) = go (res_json b58 r) refl
  where
    go :
        (j : Result (List Json))
        → res_json b58 r ≡ j
        → ((ts : List Json) × (j ≡ ok ts) × Found b58 (ok b) (ok (r ∷ [])) ts)
          ⊎ ((e : Error) × (j ≡ err e) × Fails b58 (ok b) (ok (r ∷ [])) e)
    go (ok ts) f = inl (ts, refl, object b r ts f (res_json-IsValue b58 r ts f))
    go (err e) f = inr (e, refl, no_json b r e f)

module _ (kvs : Kvs) (b58 : Base58) where
  open kvs use {Txn}

  newlines-map :
      (rounds : List (List Txn))
      → newlines (length rounds) ≡ map (λ txns. chunk (codes "\n")) rounds
  newlines-map [] = refl
  newlines-map (r ∷ rounds) = ap (◌∷◌ (chunk (codes "\n"))) (newlines-map rounds)

  -- The rounds that time out, and the first that does not, if there is one.
  wait_loop-ends :
      (rounds : List (List Txn)) (now : ℕ) (url : Bytes) (n : ℕ)
      → ((wait_loop kvs b58 rounds now url n ≡ none)
          × All (λ txns. queue_timedwait kvs txns now url ≡ err uv_etimedout) rounds)
        ⊎ ((early later : List (List Txn)) × (last : List Txn) × (rounds ≡ early ++ last ∷ later)
            × All (λ txns. queue_timedwait kvs txns now url ≡ err uv_etimedout) early
            × (queue_timedwait kvs last now url ≢ err uv_etimedout)
            × (wait_loop kvs b58 rounds now url n
                ≡ some (n + length early, queue_timedwait kvs last now url)))
  unfolding wait_loop
  wait_loop-ends [] now url n = inl (refl, tt)
  wait_loop-ends (txns ∷ rounds) now url n =
      elim (timed_out-cases (queue_timedwait kvs txns now url)) [
        | inr (other, f) ↦ inr (
          [],
          rounds,
          txns,
          refl,
          tt,
          other,
          rw f (ap (λ m. some (m, queue_timedwait kvs txns now url)) (omega arith)),
        )
        | inl (out, f) ↦ elim (wait_loop-ends rounds now url (suc n)) [
          | inl (still, all) ↦ inl (rw f still, (out, all))
          | inr (early, later, last, e, all, other, g) ↦ inr (
            txns ∷ early,
            later,
            last,
            ap (◌∷◌ txns) e,
            (out, all),
            other,
            rw f (g ∙ ap (λ m. some (m, queue_timedwait kvs last now url)) (omega arith)),
          )
        ]
      ]

  module _ (rounds : List (List Txn)) (now : ℕ) (url : Bytes) (rc : Result Bool)
      (history : Result (List Response)) where
    enqueue_answer-IsAnswer :
        (early : List (List Txn)) (end : Result Bool)
        → Waits kvs b58 rounds now url rc early end
        → IsAnswer kvs b58 rounds now url rc history
            (some (enqueue_answer (length early) (found_json b58 end history)))
    unfolding enqueue_answer
    enqueue_answer-IsAnswer early end w = elim (found_json-Found b58 end history) [
      | inl (ts, f, found) ↦ rw (f, newlines-map early) (answered early end ts w found)
      | inr (e, f, fails) ↦ rw f (cut_short early end e w fails)
    ]

    waited-IsAnswer :
        (b : Bool)
        → rc ≡ ok b
        → IsAnswer kvs b58 rounds now url rc history
            (after_add kvs b58 (ok true) (wait_loop kvs b58 rounds now url 0) history)
    waited-IsAnswer b q = elim (wait_loop-ends rounds now url 0) [
      | inl (still, all) ↦ rw still (waiting b q all)
      | inr (early, later, last, e, all, other, g) ↦
          let z : 0 + length early ≡ length early = omega arith in
          rw (g, z)
            (enqueue_answer-IsAnswer early (queue_timedwait kvs last now url)
              (waited b early later last q e all other))
    ]

    after_add-IsAnswer :
        (r : Result Bool)
        → rc ≡ r
        → IsAnswer kvs b58 rounds now url rc history
            (after_add kvs b58 (must_wait r) (wait_loop kvs b58 rounds now url 0) history)
    unfolding must_wait
    after_add-IsAnswer (ok b) q = waited-IsAnswer b q
    after_add-IsAnswer (err e) q = elim (must_wait-cases e) [
      | inl (same, f) ↦ rw f (enqueue_answer-IsAnswer [] (ok false) (crawled (q ∙ ap err same)))
      | inr (other, f) ↦ rw f (refused e q other)
    ]

-- Whatever the queue, the waits and the database do: a request that `queue_add` refuses for another
-- reason than a recent crawl fails with its code; one whose waits all time out is not answered yet; and
-- every other one is answered by the head, one line for each wait that timed out before the first that
-- did not (no line after a recent crawl), the JSON object of the response if the wait did not fail and
-- there is exactly one response, and the end, or fails if the JSON of that response does.
pub api_enqueue-IsAnswer :
    (kvs : Kvs) (b58 : Base58) (before after : Kvs.Txn kvs) (rounds : List (List (Kvs.Txn kvs)))
    (now id : ℕ) (url : Bytes) (blank : Response)
    → IsAnswer kvs b58 rounds now url
        (queue_add_rc kvs (queue_add kvs before now id url []))
        (hx_get_history kvs after url blank 1)
        (api_enqueue kvs b58 before after rounds now id url blank)
unfolding api_enqueue
api_enqueue-IsAnswer kvs b58 before after rounds now id url blank =
    after_add-IsAnswer kvs b58 rounds now url
      (queue_add_rc kvs (queue_add kvs before now id url [])) (hx_get_history kvs after url blank 1)
      _ refl
