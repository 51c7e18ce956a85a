-- ===== src/Tests/Queues.antt =====
-- The queue over a concrete store.
use hash_archive.Prelude.{
  Bytes, [], ◌∷◌, some, codes, ◌≡◌, ◌≢◌, refl, List, strip, is_alnum, to_lower, one_of, is_digit,
}
use hash_archive.Error.{ok}
use hash_archive.Db.Response.{Field, uri_max}
use hash_archive.Db.Store.{Key, Has, time_id_queued_url_and_client, queued_url_surt_and_time_id}
use hash_archive.Url.{
  url_parse, parse_text, absolute, scan_absolute, scan_host, check_url, scan_path, host_parse,
  host_format, print_fits, scan_port, url_format,
}
use hash_archive.Url.Scan.{run}
use hash_archive.Url.Surt.{url_normalize_surt, domain_reverse, append_labels, labels}
use hash_archive.Queue.{added, may_queue, enqueue, queue_add, queue_remove}
use hash_archive.Queue.Invariant.{IsQueue, queue_add-IsQueue, queue_remove-IsQueue}
use hash_archive.Tests.Store.{Entries, list_store, list_store-IsStore, remove, find, find_range}

abbrev pub page : Bytes
page = codes "http://a.org/"

abbrev pub surt : Bytes
surt = codes "http://(org,a,)/"

pub page-surt : url_normalize_surt (some page) uri_max ≡ ok surt
unfolding url_normalize_surt url_parse parse_text absolute scan_absolute run strip scan_host
    check_url scan_path host_parse is_alnum to_lower domain_reverse host_format print_fits scan_port
    one_of is_digit append_labels labels url_format
page-surt = refl

pub nothing : (k : Key) (v : List Field) → find [] k ≢ ok v
unfolding find
nothing k v e = cc

pub nothing-IsQueue : IsQueue list_store []
nothing-IsQueue = record {
  backed = λ s t i h. absurd (nothing _ h.0 h.1);
  indexed = λ t i u c h. absurd (nothing _ h.0 h.1);
  once = λ s t i t' i' h k. absurd (nothing _ h.0 h.1);
  named = λ t i u c u' c' h k. absurd (nothing _ h.0 h.1);
}

abbrev pub one_page : Entries
one_page =
    (queued_url_surt_and_time_id surt 1700000000 1, [])
    ∷ (time_id_queued_url_and_client 1700000000 1 page [], [])
    ∷ []

pub page_added : queue_add list_store [] 1700000000 1 page [] ≡ ok (added one_page)
unfolding queue_add may_queue enqueue find_range
page_added = rw page-surt refl

pub one_page-queued :
    IsQueue list_store one_page
    × Has list_store one_page (time_id_queued_url_and_client 1700000000 1 page [])
one_page-queued =
    queue_add-IsQueue list_store list_store-IsStore [] one_page 1700000000 1 page [] nothing-IsQueue
      (λ u c h. nothing _ h.0 h.1) page_added

queue_add-IsQueue_example :
    IsQueue list_store one_page
    × Has list_store one_page (time_id_queued_url_and_client 1700000000 1 page [])
queue_add-IsQueue_example =
    queue_add-IsQueue list_store list_store-IsStore [] one_page 1700000000 1 page [] nothing-IsQueue
      (λ u c h. nothing _ h.0 h.1) page_added

abbrev emptied : Entries
emptied =
    remove (remove one_page (time_id_queued_url_and_client 1700000000 1 page []))
      (queued_url_surt_and_time_id surt 1700000000 1)

page_removed : queue_remove list_store one_page 1700000000 1 page [] ≡ ok emptied
unfolding queue_remove
page_removed = rw page-surt refl

queue_remove-IsQueue_example :
    IsQueue list_store emptied
    × (¬ Has list_store emptied (time_id_queued_url_and_client 1700000000 1 page []))
    × (¬ Has list_store emptied (queued_url_surt_and_time_id surt 1700000000 1))
queue_remove-IsQueue_example =
    queue_remove-IsQueue list_store list_store-IsStore one_page emptied 1700000000 1 page [] surt
      one_page-queued.0 one_page-queued.1 page-surt page_removed
