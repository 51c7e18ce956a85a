-- ===== src/Tests/Threads.antt =====
-- A request and a worker, one step after the other.
use hash_archive.Prelude.{[], ◌∷◌, ◌≡◌, refl, arith}
use hash_archive.Queue.Threads.{Process, draws, commits, picks, finishes, Run, rest, step, IsSound}
use hash_archive.Queue.Steps.{Run-IsSound}
use hash_archive.Queue.Work.{queue_peek, first_work}
use hash_archive.Api.Rows.{before}
use hash_archive.Error.{ok}
use hash_archive.Tests.Seeks.{list_store-IsSeek}
use hash_archive.Tests.Archive.{response, archive}
use hash_archive.Tests.Queues.{page, one_page, page_added, nothing, nothing-IsQueue}
use hash_archive.Tests.Store.{list_store, list_store-IsStore, range_keys, keys_after}
use hash_archive.Tests.Workers.{work, committed}

abbrev idle : Process list_store
idle = record { db = []; current_id = 0; work_time = 0; work_id = 0; drawn = []; held = [] }

idle-IsSound : IsSound list_store idle
idle-IsSound = record {
  queue = nothing-IsQueue;
  room = omega arith;
  fits = λ t i u c h. absurd (nothing _ h.0 h.1);
  passed = tt;
  work_le = omega arith;
  used = λ t i u c h. absurd (nothing _ h.0 h.1);
  drawn_le = tt;
  distinct = tt;
  there = tt;
  apart = tt;
}

abbrev has_id : Process list_store
has_id = record { db = []; current_id = 1; work_time = 0; work_id = 0; drawn = 1 ∷ []; held = [] }

abbrev has_page : Process list_store
has_page = record {
  db = one_page;
  current_id = 1;
  work_time = 0;
  work_id = 0;
  drawn = [];
  held = [];
}

abbrev has_work : Process list_store
has_work = record {
  db = one_page;
  current_id = 1;
  work_time = 1700000000;
  work_id = 1;
  drawn = [];
  held = work ∷ [];
}

abbrev has_response : Process list_store
has_response = record {
  db = archive;
  current_id = 1;
  work_time = 1700000000;
  work_id = 1;
  drawn = [];
  held = [];
}

peeked : queue_peek list_store one_page 0 0 ≡ ok work
unfolding queue_peek first_work range_keys keys_after before hash_archive.Tests.Store.in_range
peeked = refl

day : Run list_store idle has_response
day = step idle has_id has_response (draws idle (omega arith)) (
    step has_id has_page has_response
      (commits has_id [] [] 1 1700000000 page [] one_page refl (omega arith) (omega arith)
        page_added)
      (step has_page has_work has_response (picks has_page work peeked) (
        step has_work has_response has_response
          (finishes has_work [] [] work response 7 archive refl committed) (rest has_response))))

Run-IsSound_example : IsSound list_store has_response
Run-IsSound_example =
    Run-IsSound list_store list_store-IsStore list_store-IsSeek idle has_response day idle-IsSound
