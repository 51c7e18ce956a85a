-- ===== src/Queue/Lost.antt =====
-- An entry of src/queue.c that lies at the last one picked or before it, and that no worker holds, is not
-- picked again: `work_time` and `work_id` only grow. A worker that fails leaves one, and so does
-- a request that commits with an earlier time than an entry that was picked meanwhile.
use hash_archive.Prelude.{false, List, ◌∷◌, ◌++◌, All, ◌≡◌, ◌≢◌, sym, subst, ◌+◌, ◌<◌, ◌^◌, arith}
use hash_archive.Db.Store.{Kvs, Has, IsStore}
use hash_archive.Api.Rows.{before}
use hash_archive.Queue.Pairs.{All-without}
use hash_archive.Queue.Peek.{IsSeek, entry, queue_peek-Found}
use hash_archive.Queue.Work.{Work}
use hash_archive.Queue.Work.Done.{queue_work-leaves}
use hash_archive.Queue.Threads.{
  Process, Step, draws, commits, gives_up, picks, numbers, finishes, fails, Run, rest, step,
  IsSound,
}
use hash_archive.Queue.Steps.{Step-IsSound, queue_add-Wrote}

module _ (kvs : Kvs) where
  -- An entry that is queued, passed and held by nobody.
  pub record IsLost (p : Process kvs) (x : Work) : Type 0 where
    pub queued : Has kvs p.db (entry kvs x)
    pub passed : before (p.work_time, p.work_id) (x.time, x.id) ≡ false
    pub not_held : All (λ w. entry kvs w ≢ entry kvs x) p.held

  module _ (store : IsStore kvs) (seek : IsSeek kvs) where
    held_still :
        (p : Process kvs) (x w : Work) (vs ws : List Work)
        → IsLost p x
        → p.held ≡ vs ++ w ∷ ws
        → (entry kvs w ≢ entry kvs x) × All (λ v. entry kvs v ≢ entry kvs x) (vs ++ ws)
    held_still p x w vs ws l e =
        All-without (λ v. entry kvs v ≢ entry kvs x) vs ws w
          (subst (All (λ v. entry kvs v ≢ entry kvs x)) e l.not_held)

    Step-IsLost :
        (p q : Process kvs) (x : Work) → Step kvs p q → IsSound kvs p → IsLost p x → IsLost q x
    Step-IsLost p q x (draws _ more) s l = record {
      queued = l.queued;
      passed = l.passed;
      not_held = l.not_held;
    }
    Step-IsLost p q x (commits _ xs ys id time url client db' e lu lc f) s l =
        let (surt, w) = queue_add-Wrote kvs store seek p.db db' time id url client f in
        record { queued = w.keeps (entry kvs x) l.queued; passed = l.passed; not_held = l.not_held }
    Step-IsLost p q x (gives_up _ xs ys id e) s l = record {
      queued = l.queued;
      passed = l.passed;
      not_held = l.not_held;
    }
    Step-IsLost p q x (picks _ w e) s l =
        let wl = s.work_le in
        let more = s.room in
        let small : p.work_id + 1 < 2 ^ 64 = omega arith in
        let (h, away) = queue_peek-Found kvs seek p.db p.work_time p.work_id w s.fits small e in
        let (later, other) = away x l.passed in
        record { queued = l.queued; passed = later; not_held = (other, l.not_held) }
    Step-IsLost p q x (numbers _ more) s l = record {
      queued = l.queued;
      passed = l.passed;
      not_held = l.not_held;
    }
    Step-IsLost p q x (finishes _ vs ws w r new_id db' e f) s l =
        let (other, others) = held_still p x w vs ws l e in
        let (h, hs) =
          All-without (λ v. Has kvs p.db (entry kvs v)) vs ws w
            (subst (All (λ v. Has kvs p.db (entry kvs v))) e s.there) in
        let (queue, old, kept) = queue_work-leaves kvs store p.db db' w r new_id s.queue h f in
        record {
          queued = kept x.time x.id x.url x.client (λ g. other (sym g)) l.queued;
          passed = l.passed;
          not_held = others;
        }
    Step-IsLost p q x (fails _ vs ws w e) s l =
        let (other, others) = held_still p x w vs ws l e in
        record { queued = l.queued; passed = l.passed; not_held = others }

    -- Whatever requests and workers do until the process ends, a lost entry stays queued and lost.
    pub Run-IsLost :
        (p q : Process kvs) (x : Work) → Run kvs p q → IsSound kvs p → IsLost p x → IsLost q x
    Run-IsLost p q x (rest _) s l = l
    Run-IsLost p q x (step _ m _ first later) s l =
        Run-IsLost m q x later (Step-IsSound kvs store seek p m first s)
          (Step-IsLost p m x first s l)
