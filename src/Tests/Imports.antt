-- ===== src/Tests/Imports.antt =====
-- The import over a stream of bytes in memory, and the hasher over a checksum.
use hash_archive.Prelude.{
  ◌≤◌, true, Bytes, [], ◌∷◌, ◌++◌, some, take, drop, length, length-take, ◌≡◌, refl, ap, ◌∙◌, arith,
}
use hash_archive.Error.{Result, ok, err, kvs_notfound, uv_eof, ◌>>=◌}
use hash_archive.Hash.Algo.{Algo, sha1, hash_algo_digest_len}
use hash_archive.Db.Response.{pos, digest_at}
use hash_archive.Db.Store.{Key, time_id_to_response, url_surt_and_time_id, hash_and_time_id}
use hash_archive.Db.Add.{add_digest, add_digests, hx_response_add}
use hash_archive.Hasher.{Openssl, is_chosen, hasher_create}
use hash_archive.Hasher.Whole.{
  IsDigest, hash_pieces, joined, chosen_digest, chosen_digests, hash_pieces-whole,
}
use hash_archive.Import.{Stream, add_batch, connection}
use hash_archive.Import.Reads.{IsBytes}
use hash_archive.Import.Wire.{sents, IsSendable}
use hash_archive.Import.Batches.{connection-sents}
use hash_archive.Tests.Archive.{response, value, response_packed}
use hash_archive.Tests.Queues.{surt, page-surt}
use hash_archive.Tests.Store.{Entries, list_store, find, find_other, add_new}

abbrev memory : Stream
memory = record { State = Bytes; read = λ s n. (ok (take n s), drop n s) }

memory-IsBytes : IsBytes memory (λ s. s)
memory-IsBytes = record { returns = λ s n. refl; leaves = λ s n. refl }

response-IsSendable : IsSendable response
response-IsSendable = record {
  time_fits = omega arith;
  length_fits = omega arith;
  url_text = (omega arith, ground arith);
  type_text = (omega arith, ground arith);
  status_fits = omega arith;
  md5_fits = omega arith;
  sha1_fits = omega arith;
  sha256_fits = omega arith;
  sha384_fits = omega arith;
  sha512_fits = omega arith;
}

abbrev first_entry : Key
first_entry = time_id_to_response 1700000000 0

abbrev first_url : Key
first_url = url_surt_and_time_id surt 1700000000 0

abbrev first_hash : Key
first_hash = hash_and_time_id sha1 (1 ∷ 2 ∷ 3 ∷ 4 ∷ 5 ∷ 6 ∷ 7 ∷ 8 ∷ []) 1700000000 0

abbrev imported : Entries
imported = (first_hash, []) ∷ (first_url, []) ∷ (first_entry, value) ∷ []

no_url : find ((first_entry, value) ∷ []) first_url ≡ err kvs_notfound
unfolding find
no_url = find_other [] first_entry first_url value (λ e. cc)

no_hash : find ((first_url, []) ∷ (first_entry, value) ∷ []) first_hash ≡ err kvs_notfound
unfolding find
no_hash =
    find_other ((first_entry, value) ∷ []) first_url first_hash [] (λ e. cc)
    ∙ find_other [] first_entry first_hash value (λ e. cc)

first_stored : hx_response_add list_store [] response 0 ≡ ok imported
unfolding hx_response_add add_digests add_digest add_new find digest_at
first_stored = rw (page-surt, response_packed, no_url, no_hash) refl

batch_added : add_batch memory list_store [] (response ∷ []) 0 ≡ ok imported
unfolding add_batch
batch_added =
    ap
      (λ m. elim m as (λ x. Result Entries) [
        | ok t ↦ add_batch memory list_store t [] 1
        | err e ↦ err e
      ])
      first_stored

connection-sents_example :
    (s : Bytes) × (connection memory list_store 1 response (sents (response ∷ [])) []
      ≡ some (record { db = imported; rest = s; rc = uv_eof }))
    × (s ≡ [])
connection-sents_example =
    connection-sents memory list_store (λ s. s) memory-IsBytes response (response ∷ [])
      (sents (response ∷ [])) [] imported 1 (response-IsSendable, tt) refl batch_added (omega arith)

-- The text itself, cut to the length of a digest, in place of a digest.
abbrev pub checksum : Openssl
checksum = record {
  Ctx = λ a. Bytes;
  has_room = λ a. true;
  init = λ a. (pos 1, []);
  update = λ a s u. (pos 1, s ++ u);
  final = λ a s. (pos 1, take (hash_algo_digest_len a) s);
}

fits : (a : Algo) (t : Bytes) → length (take (hash_algo_digest_len a) t) ≤ hash_algo_digest_len a
fits a t = omega (arith, length-take (hash_algo_digest_len a) t)

pub checksum-IsDigest : IsDigest checksum (λ a t. take (hash_algo_digest_len a) t) (λ a s t. s ≡ t)
checksum-IsDigest = record {
  room = λ a. refl;
  begins_empty = λ a. ([], 1, refl, refl);
  takes = λ a s t u e. (s ++ u, 1, refl, ap (λ v. v ++ u) e);
  gives = λ a s t e. (1, ap (λ v. (pos 1, take (hash_algo_digest_len a) v)) e);
  sized_hash = fits;
}

hash_pieces-whole_example :
    (hasher_create checksum 2 >>= λ h. hash_pieces checksum h ((1 ∷ []) ∷ (2 ∷ 3 ∷ []) ∷ []))
    ≡ ok (record {
      d_md5 = [];
      d_sha1 = 1 ∷ 2 ∷ 3 ∷ [];
      d_sha256 = [];
      d_sha384 = [];
      d_sha512 = [];
    })
unfolding chosen_digests chosen_digest joined is_chosen hash_algo_digest_len
hash_pieces-whole_example =
    hash_pieces-whole checksum (λ a t. take (hash_algo_digest_len a) t) (λ a s t. s ≡ t)
      checksum-IsDigest 2 ((1 ∷ []) ∷ (2 ∷ 3 ∷ []) ∷ [])
