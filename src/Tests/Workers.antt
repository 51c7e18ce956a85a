-- ===== src/Tests/Workers.antt =====
-- A worker over a concrete store, and a wait.
use hash_archive.Prelude.{[], ◌∷◌, true, bytes_eq, ◌≡◌, refl, arith}
use hash_archive.Error.{ok, err, kvs_notfound}
use hash_archive.Db.Store.{
  Kvs, Key, Range, url_surt, time_id_queued_url_and_client, queued_url_surt_and_time_id, Has,
}
use hash_archive.Db.Add.Indexed.{IsIndexed}
use hash_archive.Queue.{too_soon, may_queue, crawled_time, is_due, queue_remove}
use hash_archive.Queue.Invariant.{IsQueue}
use hash_archive.Queue.Work.{Work, queue_work, queue_timedwait}
use hash_archive.Queue.Work.Done.{queue_work-IsQueue}
use hash_archive.Queue.Work.Waiting.{queue_timedwait-too_soon}
use hash_archive.Tests.Archive.{response, archive, response_added, one_response, url_entry}
use hash_archive.Tests.Queues.{page, surt, page-surt, one_page, one_page-queued}
use hash_archive.Tests.Store.{list_store, list_store-IsStore, remove, remove_first, remove_other}

abbrev fwd_entry : Key
fwd_entry = time_id_queued_url_and_client 1700000000 1 page []

abbrev rev_entry : Key
rev_entry = queued_url_surt_and_time_id surt 1700000000 1

abbrev pub work : Work
work = record { time = 1700000000; id = 1; url = page; client = [] }

fwd_gone : remove one_page fwd_entry ≡ (rev_entry, []) ∷ []
unfolding remove
fwd_gone =
    rw
      (
        remove_other ((fwd_entry, []) ∷ []) rev_entry fwd_entry [] (λ e. cc),
        remove_first [] fwd_entry [],
      )
      refl

rev_gone : remove ((rev_entry, []) ∷ []) rev_entry ≡ []
unfolding remove
rev_gone = remove_first [] rev_entry []

page_gone : queue_remove list_store one_page 1700000000 1 page [] ≡ ok []
unfolding queue_remove
page_gone = rw (page-surt, fwd_gone, rev_gone) refl

pub committed : queue_work list_store one_page work response 7 ≡ ok archive
unfolding queue_work
committed = rw page_gone response_added

queue_work-IsQueue_example :
    IsQueue list_store archive
    × (¬ Has list_store archive fwd_entry)
    × (¬ Has list_store archive rev_entry)
    × IsIndexed list_store archive response 7
queue_work-IsQueue_example =
    queue_work-IsQueue list_store list_store-IsStore one_page archive work surt response 7
      one_page-queued.0 one_page-queued.1 page-surt (omega arith) (omega arith) (omega arith)
      (omega arith) committed

-- A store in which the page was crawled and is not queued.
abbrev newest_of : Range → hash_archive.Error.Result Key
newest_of (url_surt s) = ok url_entry
newest_of r = err kvs_notfound

abbrev crawled : Kvs
crawled = record one_response { newest = λ t r. newest_of r }

crawled_lately : may_queue crawled 0 1700000001 surt ≡ ok too_soon
unfolding may_queue crawled_time is_due bytes_eq
crawled_lately = refl

queue_timedwait-too_soon_example : queue_timedwait crawled (0 ∷ []) 1700000001 page ≡ ok true
queue_timedwait-too_soon_example =
    queue_timedwait-too_soon crawled 0 [] 1700000001 page surt page-surt crawled_lately
