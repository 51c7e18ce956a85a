-- ===== src/Db/Add/Indexed.antt =====
-- A response that is added is found by every index.
use hash_archive.Prelude.{
  ℕ, ◌<◌, ◌^◌, Bool, true, false, Bytes, List, [], ◌∷◌, some, take, length, ltb, ◌==◌,
  if◌then◌else◌, All, ◌≡◌, ◌≢◌, refl, arith,
}
use hash_archive.Error.{aborted, ok, err, >>=-eq-ok}
use hash_archive.Hash.Algo.{Algo, md5, sha1, sha256, sha384, sha512}
use hash_archive.Db.Response.{
  Response, Digests, digest_at, IsInt, Field, pack_value, unpack-pack, uri_max, type_max,
}
use hash_archive.Db.Merge.{all_algos}
use hash_archive.Db.Store.{
  Kvs, Key, time_id_to_response, url_surt_and_time_id, hash_and_time_id, hx_hash_index_len, Has,
  IsStore,
}
use hash_archive.Db.Add.{add_digest, add_digests, hx_response_add}
use hash_archive.Db.Query.{read_response}
use hash_archive.Url.Surt.{url_normalize_surt}

module _ (kvs : Kvs) where
  open kvs use {Txn, get, put_new}

  -- The entry of a digest that is there.
  abbrev pub HasDigest : Txn → Digests → ℕ → ℕ → Algo → Type 0
  HasDigest t d time id a =
      length (digest_at d a) ≢ 0
      → Has kvs t (hash_and_time_id a (take hx_hash_index_len (digest_at d a)) time id)

  -- The keys that lead to a response.
  pub record IsIndexed (t : Txn) (r : Response) (id : ℕ) : Type 0 where
    pub by_url :
        (surt : Bytes) × (url_normalize_surt (some (Response.url r)) uri_max ≡ ok surt)
        × Has kvs t (url_surt_and_time_id surt (Response.time r) id)
    pub by_digest : (a : Algo) → HasDigest t (Response.digests r) (Response.time r) id a

  module _ (store : IsStore kvs) where
    open store use {put_new_get, put_new_keeps}

    -- A transaction that keeps every value.
    abbrev Keeps : Txn → Txn → Type 0
    Keeps t t' = (j : Key) (w : List Field) → get t j ≡ ok w → get t' j ≡ ok w

    add_digest-Keeps :
        (t t' : Txn) (a : Algo) (d : Bytes) (time id : ℕ)
        → add_digest kvs t a d time id ≡ ok t'
        → Keeps t t'
          × (length d ≢ 0 → Has kvs t' (hash_and_time_id a (take hx_hash_index_len d) time id))
    unfolding add_digest
    add_digest-Keeps t t' a d time id e =
        go (length d == 0) (ltb (length d) hx_hash_index_len) refl e
      where
        key : Key
        key = hash_and_time_id a (take hx_hash_index_len d) time id

        go :
            (nothing short : Bool)
            → (length d == 0) ≡ nothing
            → (if nothing then ok t else if short then err aborted else put_new t key []) ≡ ok t'
            → Keeps t t' × (length d ≢ 0 → Has kvs t' key)
        go true short h f =
            let same : t ≡ t' = cc in (λ j w g. rw (← same) g, λ n. absurd (n (ground arith)))
        go false true h f = cc
        go false false h f =
            (λ j w g. put_new_keeps t t' key j [] w f g, λ n. ([], put_new_get t t' key [] f))

    add_digests-Keeps :
        (t t' : Txn) (algos : List Algo) (d : Digests) (time id : ℕ)
        → add_digests kvs t algos d time id ≡ ok t'
        → Keeps t t' × All (HasDigest t' d time id) algos
    unfolding add_digests
    add_digests-Keeps t t' [] d time id e = let same : t ≡ t' = cc in (λ j w g. rw (← same) g, tt)
    add_digests-Keeps t t' (a ∷ algos) d time id e =
        let (t1, e1, f) = >>=-eq-ok (add_digest kvs t a (digest_at d a) time id) _ e in
        let (k, has) = add_digest-Keeps t t1 a (digest_at d a) time id e1 in
        let (k', rest) = add_digests-Keeps t1 t' algos d time id f in
        (λ j w g. k' j w (k j w g), (λ n. ((has n).0, k' _ _ (has n).1), rest))

    -- A response that is added whole is read back by its time and id, whatever the record it is read
    -- into, and is found under its URL's key and under each digest that it has. Its texts fit their
    -- buffers, its length fits 64 bits and its status is an `int`.
    pub hx_response_add-IsIndexed :
        (t t' : Txn) (r out : Response) (id : ℕ)
        → length (Response.url r) < uri_max
        → length (Response.type r) < type_max
        → Response.length r < 2 ^ 64
        → IsInt (Response.status r)
        → hx_response_add kvs t r id ≡ ok t'
        → (read_response kvs t' out (Response.time r, id)
            ≡ ok (record out {
              time = Response.time r;
              id = id;
              url = Response.url r;
              status = Response.status r;
              type = Response.type r;
              length = Response.length r;
              digests = Response.digests r;
            }))
          × IsIndexed t' r id
    unfolding hx_response_add read_response
    hx_response_add-IsIndexed t t' r out id hu ht hl hs e =
        let (surt, es, f) = >>=-eq-ok (url_normalize_surt (some (Response.url r)) uri_max) _ e in
        let (v, ev, g) = >>=-eq-ok (pack_value r) _ f in
        let key = time_id_to_response (Response.time r) id in
        let (t1, e1, g1) = >>=-eq-ok (put_new t key v) _ g in
        let skey = url_surt_and_time_id surt (Response.time r) id in
        let (t2, e2, g2) = >>=-eq-ok (put_new t1 skey []) _ g1 in
        let (keeps, has) =
          add_digests-Keeps t2 t' all_algos (Response.digests r) (Response.time r) id g2 in
        let there =
          keeps key v (put_new_keeps t1 t2 skey key [] v e2 (put_new_get t t1 key v e1)) in
        (
          rw there
              (unpack-pack r (record out { time = Response.time r; id = id }) v hu ht hl hs ev),
          record {
            by_url = (surt, es, ([], keeps skey [] (put_new_get t1 t2 skey [] e2)));
            by_digest = each t' r id has;
          },
        )
      where
        each :
            (t : Txn) (r : Response) (id : ℕ)
            → All (HasDigest t (Response.digests r) (Response.time r) id) all_algos
            → (a : Algo) → HasDigest t (Response.digests r) (Response.time r) id a
        each t r id (h, _) md5 = h
        each t r id (_, (h, _)) sha1 = h
        each t r id (_, (_, (h, _))) sha256 = h
        each t r id (_, (_, (_, (h, _)))) sha384 = h
        each t r id (_, (_, (_, (_, (h, _))))) sha512 = h
