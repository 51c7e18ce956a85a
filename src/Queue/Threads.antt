-- ===== src/Queue/Threads.antt =====
-- The threads of src/queue.c as steps: a request first draws an id under a lock and commits later; a
-- worker first picks an entry under a lock and commits after its fetch.
use hash_archive.Prelude.{
  ℕ, ◌+◌, false, length, ◌≤◌, ◌<◌, ◌^◌, Bytes, List, ◌∷◌, ◌++◌, All, ◌≡◌, ◌≢◌,
}
use hash_archive.Error.{ok}
use hash_archive.Db.Response.{Response, uri_max}
use hash_archive.Db.Store.{Kvs, time_id_queued_url_and_client, Has}
use hash_archive.Queue.{added, queue_add}
use hash_archive.Queue.Invariant.{IsQueue}
use hash_archive.Api.Rows.{before}
use hash_archive.Queue.Pairs.{Pairwise}
use hash_archive.Queue.Peek.{Fits}
use hash_archive.Queue.Work.{Work, queue_peek, queue_work}

abbrev pub Differs : ℕ → ℕ → Type 0
Differs a b = a ≢ b

abbrev pub Apart : Work → Work → Type 0
Apart v w =
    time_id_queued_url_and_client v.time v.id v.url v.client
    ≢ time_id_queued_url_and_client w.time w.id w.url w.client

module _ (kvs : Kvs) where
  open kvs use {Txn}

  -- What the process and its threads hold: the database, the counter, the key of the entry that was
  -- picked last, the ids that requests have drawn
  -- and not committed, and the entries that workers have picked and not committed.
  pub record Process : Type 0 where
    pub db : Txn
    pub current_id : ℕ
    pub work_time : ℕ
    pub work_id : ℕ
    pub drawn : List ℕ
    pub held : List Work

  -- A worker picks what `queue_peek` finds behind the last entry that was picked. A URL and a client are
  -- added from buffers of 1024 and 256 bytes.
  pub data Step : Process → Process → Type 0 where
    draws :
        (p : Process)
        → p.current_id + 2 < 2 ^ 64
        → Step p (record p { current_id = p.current_id + 1; drawn = (p.current_id + 1) ∷ p.drawn })
    commits :
        (p : Process) (xs ys : List ℕ) (id time : ℕ) (url client : Bytes) (db' : Txn)
        → p.drawn ≡ xs ++ id ∷ ys
        → length url < uri_max
        → length client < 256
        → queue_add kvs p.db time id url client ≡ ok (added db')
        → Step p (record p { db = db'; drawn = xs ++ ys })
    gives_up :
        (p : Process) (xs ys : List ℕ) (id : ℕ)
        → p.drawn ≡ xs ++ id ∷ ys
        → Step p (record p { drawn = xs ++ ys })
    picks :
        (p : Process) (w : Work)
        → queue_peek kvs p.db p.work_time p.work_id ≡ ok w
        → Step p (record p { held = w ∷ p.held; work_time = w.time; work_id = w.id })
    numbers :
        (p : Process)
        → p.current_id + 2 < 2 ^ 64
        → Step p (record p { current_id = p.current_id + 1 })
    finishes :
        (p : Process) (vs ws : List Work) (w : Work) (r : Response) (new_id : ℕ) (db' : Txn)
        → p.held ≡ vs ++ w ∷ ws
        → queue_work kvs p.db w r new_id ≡ ok db'
        → Step p (record p { db = db'; held = vs ++ ws })
    fails :
        (p : Process) (vs ws : List Work) (w : Work)
        → p.held ≡ vs ++ w ∷ ws
        → Step p (record p { held = vs ++ ws })

  pub data Run : Process → Process → Type 0 where
    rest : (p : Process) → Run p p
    step : (p q r : Process) → Step p q → Run q r → Run p r

  -- The queue is one, no entry has an id that a request has yet to use, and what a worker holds is in the queue
  -- and held by no other.
  pub record IsSound (p : Process) : Type 0 where
    pub queue : IsQueue kvs p.db
    pub room : p.current_id + 1 < 2 ^ 64
    pub fits : Fits kvs p.db
    pub passed : All (λ w. before (p.work_time, p.work_id) (Work.time w, Work.id w) ≡ false) p.held
    pub work_le : p.work_id ≤ p.current_id
    pub used :
        (time id : ℕ) (url client : Bytes)
        → Has kvs p.db (time_id_queued_url_and_client time id url client)
        → (id ≤ p.current_id) × All (Differs id) p.drawn
    pub drawn_le : All (λ d. d ≤ p.current_id) p.drawn
    pub distinct : Pairwise Differs p.drawn
    pub there :
        All
          (λ w.
            Has kvs p.db (
              time_id_queued_url_and_client (Work.time w) (Work.id w) (Work.url w) (Work.client w)))
          p.held
    pub apart : Pairwise Apart p.held
