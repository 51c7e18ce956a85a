-- ===== src/Queue/Steps.antt =====
-- Requests that add URLs and workers that fetch them, in any order: the steps of src/queue.c keep the
-- queue sound.
use hash_archive.Prelude.{
  ℕ, ◌+◌, false, length, ◌≤◌, ◌<◌, ◌^◌, Bytes, List, ◌∷◌, ◌++◌, some, All, All-mono, ◌≡◌, ◌⊎◌, inl,
  inr, refl, sym, subst, arith,
}
use hash_archive.Error.{ok, >>=-eq-ok}
use hash_archive.Db.Response.{uri_max}
use hash_archive.Db.Store.{Kvs, Has, IsStore}
use hash_archive.Url.Surt.{url_normalize_surt}
use hash_archive.Queue.{asserted, added, may_queue, queue_add}
use hash_archive.Queue.Invariant.{fwd, rev, Wrote, enqueue-Wrote, queue_add-IsQueue}
use hash_archive.Api.Rows.{before}
use hash_archive.Queue.Threads.{
  Differs, Apart, Process, Step, draws, commits, gives_up, picks, numbers, finishes, fails, Run,
  rest, step, IsSound,
}
use hash_archive.Queue.Pairs.{Pairwise, All-without, Pairwise-without, All-both}
use hash_archive.Queue.Peek.{Fits, IsSeek, entry, before_self, queue_peek-Found}
use hash_archive.Queue.Work.{Work}
use hash_archive.Queue.Work.Done.{queue_work-leaves}

module _ (kvs : Kvs) where
  open kvs use {Txn}

  module _ (store : IsStore kvs) (seek : IsSeek kvs) where
    -- What a commit of `queue_add` adds and keeps.
    pub queue_add-Wrote :
        (t t' : Txn) (time id : ℕ) (url client : Bytes)
        → queue_add kvs t time id url client ≡ ok (added t')
        → (surt : Bytes) × Wrote kvs store t t' (fwd time id url client) (rev surt time id)
    unfolding queue_add
    queue_add-Wrote t t' time id url client e =
        let (_, et, e0) = >>=-eq-ok (asserted time) _ e in
        let (surt, es, f) = >>=-eq-ok (url_normalize_surt (some url) uri_max) _ e0 in
        let (verdict, ev, g) = >>=-eq-ok (may_queue kvs t time surt) _ f in
        (surt, (enqueue-Wrote kvs store t t' time id url client surt verdict ev g).1)

    -- The cases of the keys after a commit.
    used_after :
        (p : Process kvs) (xs ys : List ℕ) (id time : ℕ) (url client : Bytes) (surt : Bytes)
        (time' id' : ℕ) (u c : Bytes)
        → IsSound kvs p
        → p.drawn ≡ xs ++ id ∷ ys
        → (id ≤ p.current_id) × All (Differs id) (xs ++ ys)
        → (fwd time' id' u c ≡ fwd time id url client)
          ⊎ (fwd time' id' u c ≡ rev surt time id)
          ⊎ Has kvs p.db (fwd time' id' u c)
        → (id' ≤ p.current_id) × All (Differs id') (xs ++ ys)
    used_after p xs ys id time url client surt time' id' u c s e new (inl same) =
        let f : id ≡ id' = cc in subst (λ i. (i ≤ p.current_id) × All (Differs i) (xs ++ ys)) f new
    used_after p xs ys id time url client surt time' id' u c s e new (inr (inl same)) = cc
    used_after p xs ys id time url client surt time' id' u c s e new (inr (inr h)) =
        let (le, d) = s.used time' id' u c h in
        (le, (All-without (Differs id') xs ys id (subst (All (Differs id')) e d)).1)

    drawn_without :
        (p : Process kvs) (xs ys : List ℕ) (id : ℕ)
        → IsSound kvs p
        → p.drawn ≡ xs ++ id ∷ ys
        → (id ≤ p.current_id)
          × All (λ d. d ≤ p.current_id) (xs ++ ys)
          × All (Differs id) (xs ++ ys)
          × Pairwise Differs (xs ++ ys)
    drawn_without p xs ys id s e =
        let (le, les) =
          All-without (λ d. d ≤ p.current_id) xs ys id
            (subst (All (λ d. d ≤ p.current_id)) e s.drawn_le) in
        let (ds, ps) =
          Pairwise-without Differs xs ys id (λ a b n f. n (sym f))
            (subst (Pairwise Differs) e s.distinct) in
        (le, les, ds, ps)

    -- Without one of the entries that are held.
    held_without :
        (p : Process kvs) (vs ws : List Work) (w : Work)
        → IsSound kvs p
        → p.held ≡ vs ++ w ∷ ws
        → Has kvs p.db (entry kvs w)
          × All (λ v. Has kvs p.db (entry kvs v)) (vs ++ ws)
          × All (Apart w) (vs ++ ws)
          × Pairwise Apart (vs ++ ws)
    held_without p vs ws w s e =
        let (h, hs) =
          All-without (λ v. Has kvs p.db (entry kvs v)) vs ws w
            (subst (All (λ v. Has kvs p.db (entry kvs v))) e s.there) in
        let (ds, ps) =
          Pairwise-without Apart vs ws w (λ a b n f. n (sym f))
            (subst (Pairwise Apart) e s.apart) in
        (h, hs, ds, ps)

    Fits-after :
        (t t' : Txn) (time id : ℕ) (url client surt : Bytes) (time' id' : ℕ) (u c : Bytes)
        → Fits kvs t
        → length url < uri_max
        → length client < 256
        → (fwd time' id' u c ≡ fwd time id url client)
          ⊎ (fwd time' id' u c ≡ rev surt time id)
          ⊎ Has kvs t (fwd time' id' u c)
        → (length u < uri_max) × (length c < 256)
    Fits-after t t' time id url client surt time' id' u c fits lu lc (inl same) =
        let f : url ≡ u = cc in
        let g : client ≡ c = cc in
        (subst (λ x. length x < uri_max) f lu, subst (λ x. length x < 256) g lc)
    Fits-after t t' time id url client surt time' id' u c fits lu lc (inr (inl same)) = cc
    Fits-after t t' time id url client surt time' id' u c fits lu lc (inr (inr h)) =
        fits time' id' u c h

    pub Step-IsSound : (p q : Process kvs) → Step kvs p q → IsSound kvs p → IsSound kvs q
    Step-IsSound p q (draws _ more) s = record {
      queue = s.queue;
      room = omega arith;
      fits = s.fits;
      passed = s.passed;
      work_le = let l = s.work_le in omega arith;
      used = λ t i u c h.
          let (le, d) = s.used t i u c h in (omega arith, ((λ e. absurd (omega arith)), d));
      drawn_le = (omega arith, All-mono _ _ (λ d le. omega arith) p.drawn s.drawn_le);
      distinct = (All-mono _ _ (λ d le e. absurd (omega arith)) p.drawn s.drawn_le, s.distinct);
      there = s.there;
      apart = s.apart;
    }
    Step-IsSound p q (commits _ xs ys id time url client db' e lu lc f) s =
        let (surt, w) = queue_add-Wrote p.db db' time id url client f in
        let (le, les, ds, ps) = drawn_without p xs ys id s e in
        record {
          queue =
              (queue_add-IsQueue kvs store p.db db' time id url client s.queue
                (λ u c h.
                  (All-without (Differs id) xs ys id
                      (subst (All (Differs id)) e (s.used time id u c h).1)).0
                    refl)
                f).0;
          room = s.room;
          fits = λ t i u c h.
              Fits-after p.db db' time id url client surt t i u c s.fits lu lc
                (w.adds (fwd t i u c) h);
          passed = s.passed;
          work_le = s.work_le;
          used = λ t i u c h.
              used_after p xs ys id time url client surt t i u c s e (le, ds)
                (w.adds (fwd t i u c) h);
          drawn_le = les;
          distinct = ps;
          there = All-mono _ _ (λ v h. w.keeps (entry kvs v) h) p.held s.there;
          apart = s.apart;
        }
    Step-IsSound p q (gives_up _ xs ys id e) s =
        let (le, les, ds, ps) = drawn_without p xs ys id s e in
        record {
          queue = s.queue;
          room = s.room;
          fits = s.fits;
          passed = s.passed;
          work_le = s.work_le;
          used = λ t i u c h.
              let (l, d) = s.used t i u c h in
              (l, (All-without (Differs i) xs ys id (subst (All (Differs i)) e d)).1);
          drawn_le = les;
          distinct = ps;
          there = s.there;
          apart = s.apart;
        }
    Step-IsSound p q (picks _ w e) s =
        let wl = s.work_le in
        let more = s.room in
        let small : p.work_id + 1 < 2 ^ 64 = omega arith in
        let (h, away) = queue_peek-Found kvs seek p.db p.work_time p.work_id w s.fits small e in
        record {
          queue = s.queue;
          room = s.room;
          fits = s.fits;
          passed = (before_self w.time w.id, All-mono _ _ (λ v k. (away v k).0) p.held s.passed);
          work_le = (s.used w.time w.id w.url w.client h).0;
          used = s.used;
          drawn_le = s.drawn_le;
          distinct = s.distinct;
          there = (h, s.there);
          apart = (All-mono _ _ (λ v k. (away v k).1) p.held s.passed, s.apart);
        }
    Step-IsSound p q (numbers _ more) s = record {
      queue = s.queue;
      room = omega arith;
      fits = s.fits;
      passed = s.passed;
      work_le = let l = s.work_le in omega arith;
      used = λ t i u c h. let (le, d) = s.used t i u c h in (omega arith, d);
      drawn_le = All-mono _ _ (λ d le. omega arith) p.drawn s.drawn_le;
      distinct = s.distinct;
      there = s.there;
      apart = s.apart;
    }
    Step-IsSound p q (finishes _ vs ws w r new_id db' e f) s =
        let (h, hs, ds, ps) = held_without p vs ws w s e in
        let (queue, old, kept) = queue_work-leaves kvs store p.db db' w r new_id s.queue h f in
        record {
          queue = queue;
          room = s.room;
          fits = λ t i u c k. s.fits t i u c (old t i u c k);
          passed =
              (All-without (λ v. before (p.work_time, p.work_id) (Work.time v, Work.id v) ≡ false)
                vs ws w
                (subst (All (λ v. before (p.work_time, p.work_id) (Work.time v, Work.id v) ≡ false))
                  e s.passed)).1;
          work_le = s.work_le;
          used = λ t i u c k. s.used t i u c (old t i u c k);
          drawn_le = s.drawn_le;
          distinct = s.distinct;
          there =
              All-both _ _ _ (λ v n k. kept v.time v.id v.url v.client (λ g. n (sym g)) k)
                (vs ++ ws) ds hs;
          apart = ps;
        }
    Step-IsSound p q (fails _ vs ws w e) s =
        let (h, hs, ds, ps) = held_without p vs ws w s e in
        record {
          queue = s.queue;
          room = s.room;
          fits = s.fits;
          passed =
              (All-without (λ v. before (p.work_time, p.work_id) (Work.time v, Work.id v) ≡ false)
                vs ws w
                (subst (All (λ v. before (p.work_time, p.work_id) (Work.time v, Work.id v) ≡ false))
                  e s.passed)).1;
          work_le = s.work_le;
          used = s.used;
          drawn_le = s.drawn_le;
          distinct = s.distinct;
          there = hs;
          apart = ps;
        }

    -- However requests and workers are interleaved, if the counter does not wrap and URLs and clients fit
    -- their buffers, then from a sound state on the two tables of the queue stay consistent, with no URL in
    -- them twice, no id that a request has yet to use is that of an entry, no two workers
    -- hold the same entry, and what a worker holds stays in the queue until it commits.
    pub Run-IsSound : (p q : Process kvs) → Run kvs p q → IsSound kvs p → IsSound kvs q
    Run-IsSound p q (rest _) s = s
    Run-IsSound p q (step _ m _ first later) s = Run-IsSound m q later (Step-IsSound p m first s)
