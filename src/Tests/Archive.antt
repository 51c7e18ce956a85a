-- ===== src/Tests/Archive.antt =====
-- The database over a concrete store.
use hash_archive.Prelude.{
  ℕ, Bytes, List, [], ◌∷◌, none, some, true, false, bytes_eq, codes, All, ◌≡◌, refl, ◌∙◌, arith,
}
use hash_archive.Error.{ok, err, kvs_notfound}
use hash_archive.Hash.Algo.{sha1, hash_algo_digest_len}
use hash_archive.Hash.Uri.Parse.{link_hash_uri}
use hash_archive.Db.Response.{
  pos, Digests, Response, uri_max, Field, num, text, blob, read_text, read_num, read_digests,
  read_digest, read_blob, digest_at, unpack_status, pack_value, pack_status, pack_digests,
  pack_digest, unpack_value,
}
use hash_archive.Db.Store.{
  Kvs, Key, Range, responses, url_surt, algo_hash, time_id_to_response, url_surt_and_time_id,
  hash_and_time_id,
}
use hash_archive.Db.Add.{add_digest, add_digests, hx_response_add}
use hash_archive.Db.Add.Indexed.{IsIndexed, hx_response_add-IsIndexed}
use hash_archive.Db.Merge.{timeidcmp, res_merge_common_urls, merge_urls_from, merge_url, find_tail}
use hash_archive.Db.Query.{
  sources_of, sources_from, or_nothing, of_hash_key, of_url_key, hx_get_latest, add_source,
  is_source, latest_flag, read_response, hx_get_recent, hx_get_sources,
}
use hash_archive.Db.Query.Recent.{IsListing, hx_get_recent-IsListing}
use hash_archive.Db.Query.Sources.{IsSource, hx_get_sources-IsSource}
use hash_archive.Tests.Queues.{page, surt, page-surt}
use hash_archive.Tests.Store.{Entries, list_store, list_store-IsStore, find, find_other, add_new}

abbrev pub digest : Bytes
digest = 1 ∷ 2 ∷ 3 ∷ 4 ∷ 5 ∷ 6 ∷ 7 ∷ 8 ∷ 9 ∷ []

abbrev pub response : Response
response = record {
  time = 1700000000;
  id = 0;
  url = page;
  status = pos 200;
  type = codes "text/html";
  length = 5;
  digests = record { d_md5 = []; d_sha1 = digest; d_sha256 = []; d_sha384 = []; d_sha512 = [] };
  next = none;
  prev = none;
  latest = false;
}

abbrev pub value : List Field
value =
    text page
    ∷ num 65735
    ∷ text (codes "text/html")
    ∷ num 6
    ∷ num 0
    ∷ blob []
    ∷ num 9
    ∷ blob digest
    ∷ num 0
    ∷ blob []
    ∷ num 0
    ∷ blob []
    ∷ num 0
    ∷ blob []
    ∷ []

abbrev pub response_entry : Key
response_entry = time_id_to_response 1700000000 7

abbrev pub url_entry : Key
url_entry = url_surt_and_time_id surt 1700000000 7

abbrev pub hash_entry : Key
hash_entry = hash_and_time_id sha1 (1 ∷ 2 ∷ 3 ∷ 4 ∷ 5 ∷ 6 ∷ 7 ∷ 8 ∷ []) 1700000000 7

abbrev pub archive : Entries
archive = (hash_entry, []) ∷ (url_entry, []) ∷ (response_entry, value) ∷ []

pub response_packed : pack_value response ≡ ok value
unfolding pack_value pack_status pack_digests pack_digest hash_algo_digest_len
response_packed = refl

no_url : find ((response_entry, value) ∷ []) url_entry ≡ err kvs_notfound
unfolding find
no_url = find_other [] response_entry url_entry value (λ e. cc)

no_hash : find ((url_entry, []) ∷ (response_entry, value) ∷ []) hash_entry ≡ err kvs_notfound
unfolding find
no_hash =
    find_other ((response_entry, value) ∷ []) url_entry hash_entry [] (λ e. cc)
    ∙ find_other [] response_entry hash_entry value (λ e. cc)

pub response_added : hx_response_add list_store [] response 7 ≡ ok archive
unfolding hx_response_add add_digests add_digest add_new find hash_archive.Db.Response.digest_at
response_added = rw (page-surt, response_packed, no_url, no_hash) refl

hx_response_add-IsIndexed_example :
    (read_response list_store archive response (1700000000, 7) ≡ ok (record response { id = 7 }))
    × IsIndexed list_store archive response 7
hx_response_add-IsIndexed_example =
    hx_response_add-IsIndexed list_store list_store-IsStore [] archive response response 7
      (omega arith) (omega arith) (omega arith) (omega arith) response_added

-- A store that holds one response, for the queries, which rely on no law of it.
abbrev pub keys : Range → List Key
keys responses = response_entry ∷ []
keys (url_surt s) = url_entry ∷ []
keys (algo_hash a h) = hash_entry ∷ []
keys r = []

abbrev pub one_response : Kvs
one_response = record {
  Txn = ℕ;
  get = λ t k. ok value;
  put = λ t k v. ok t;
  put_new = λ t k v. ok t;
  del = λ t k. ok t;
  newest = λ t r. ok url_entry;
  keys_down = λ t r. ok (keys r);
  keys_from = λ t r k dir. ok (keys r);
}

abbrev found : Response
found = record response { id = 7; latest = true }

recent_found : hx_get_recent one_response 0 response 10 ≡ ok (record response { id = 7 } ∷ [])
unfolding hx_get_recent hash_archive.Db.Query.unless_notfound hash_archive.Db.Query.recent_from
    hash_archive.Db.Query.of_response_key read_response unpack_value
    hash_archive.Db.Response.read_text hash_archive.Db.Response.read_num
    hash_archive.Db.Response.read_digests hash_archive.Db.Response.read_digest hash_algo_digest_len
    hash_archive.Db.Response.read_blob hash_archive.Db.Query.is_recent
    hash_archive.Db.Response.unpack_status hash_archive.Db.Query.url_in
recent_found = refl

hx_get_recent-IsListing_example : IsListing 10 (record response { id = 7 } ∷ [])
hx_get_recent-IsListing_example =
    hx_get_recent-IsListing one_response 0 response 10 (record response { id = 7 } ∷ [])
      recent_found

latest_found : hx_get_latest one_response 0 page ≡ ok (1700000000, 7)
unfolding hx_get_latest of_url_key
latest_found = rw page-surt refl

sources_found :
    hx_get_sources one_response 0
      (some (record { type = link_hash_uri; algo = some sha1; buf = digest }))
      response
      10
    ≡ ok (found ∷ [])
unfolding hx_get_sources sources_of sources_from or_nothing of_hash_key read_response unpack_value
    read_text read_num read_digests read_digest hash_algo_digest_len read_blob add_source is_source
    digest_at bytes_eq unpack_status latest_flag timeidcmp res_merge_common_urls merge_urls_from
    merge_url find_tail
sources_found = rw latest_found refl

hx_get_sources-IsSource_example : All (IsSource sha1 digest) (found ∷ [])
hx_get_sources-IsSource_example =
    hx_get_sources-IsSource one_response 0 link_hash_uri sha1 digest response 10 (found ∷ [])
      sources_found
