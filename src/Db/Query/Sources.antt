-- ===== src/Db/Query/Sources.antt =====
-- What the page of a hash lists.
use hash_archive.Prelude.{
  ℕ, zero, suc, Bool, true, false, Bytes, List, [], ◌∷◌, ◌++◌, none, some, take, length,
  eq_of_bytes_eq, ltb, ◌&&◌, if◌then◌else◌, All, All-append, ◌≡◌, refl, arith,
}
use hash_archive.Error.{ok, ◌>>=◌, >>=-eq-ok}
use hash_archive.Hash.Algo.{Algo}
use hash_archive.Hash.Uri.Parse.{HashUri}
use hash_archive.Db.Response.{Response, digest_at}
use hash_archive.Db.Merge.{
  timeidcmp, find_tail, set_next, merge_url, merge_urls_from, res_merge_common_urls,
}
use hash_archive.Db.Store.{Kvs, Key}
use hash_archive.Db.Query.{
  of_hash_key, is_source, latest_flag, read_response, hx_get_latest, add_source, sources_from,
  sources_of, hx_get_sources,
}

-- The response's digest begins with the bytes that were asked for.
abbrev pub IsSource : Algo → Bytes → Response → Type 0
IsSource algo buf r = take (length buf) (digest_at (Response.digests r) algo) ≡ buf

is_source-IsSource :
    (algo : Algo) (buf : Bytes) (r : Response) → is_source algo buf r ≡ true → IsSource algo buf r
unfolding is_source
is_source-IsSource algo buf r h = eq_of_bytes_eq _ _ (second _ _ h)
  where
    second : (a b : Bool) → (a && b) ≡ true → b ≡ true
    second a b e = ground arith

All-set_next :
    (algo : Algo) (buf : Bytes) (j i : ℕ) (rs : List Response)
    → All (IsSource algo buf) rs
    → All (IsSource algo buf) (set_next j i rs)
unfolding set_next
All-set_next algo buf j i [] h = tt
All-set_next algo buf zero i (r ∷ rs) h = h
All-set_next algo buf (suc j) i (r ∷ rs) (hr, h) = (hr, All-set_next algo buf j i rs h)

All-merge_url :
    (algo : Algo) (buf : Bytes) (done : List Response) (r : Response)
    → All (IsSource algo buf) done
    → IsSource algo buf r
    → All (IsSource algo buf) (merge_url done r)
unfolding merge_url
All-merge_url algo buf done r h hr =
    elim (find_tail 0 (Response.url r) done)
      as (λ t. All (IsSource algo buf) (elim t [
        | none ↦ done ++ r ∷ []
        | some j ↦ set_next j (length done) done ++ record r { prev = some j } ∷ []
      ])) [
        | none ↦ All-append (IsSource algo buf) done _ h (hr, tt)
        | some j ↦
            All-append (IsSource algo buf) (set_next j (length done) done) _
              (All-set_next algo buf j (length done) done h) (hr, tt)
      ]

All-merge_urls_from :
    (algo : Algo) (buf : Bytes) (done rs : List Response)
    → All (IsSource algo buf) done
    → All (IsSource algo buf) rs
    → All (IsSource algo buf) (merge_urls_from done rs)
unfolding merge_urls_from
All-merge_urls_from algo buf done [] h k = h
All-merge_urls_from algo buf done (r ∷ rs) h (kr, k) =
    All-merge_urls_from algo buf (merge_url done r) rs (All-merge_url algo buf done r h kr) k

module _ (kvs : Kvs) where
  open kvs use {Txn, keys_down}

  kept-IsSource :
      (txn : Txn) (algo : Algo) (buf : Bytes) (done : List Response) (r : Response)
      {rs : List Response} (b : Bool)
      → is_source algo buf r ≡ b
      → All (IsSource algo buf) done
      → (if b
          then (hx_get_latest kvs txn (Response.url r) >>= λ last.
              latest_flag (timeidcmp last.0 last.1 (Response.time r) (Response.id r)) >>= λ flag.
              ok (done ++ record r { latest = flag } ∷ []))
          else ok done)
        ≡ ok rs
      → All (IsSource algo buf) rs
  kept-IsSource txn algo buf done r {rs} false h l e = let same : done ≡ rs = cc in rw (← same) l
  kept-IsSource txn algo buf done r {rs} true h l e =
      let (last, el, f) = >>=-eq-ok (hx_get_latest kvs txn (Response.url r)) _ e in
      let (flag, ef, g) = >>=-eq-ok (latest_flag _) _ f in
      let same : (done ++ record r { latest = flag } ∷ []) ≡ rs = cc in
      rw (← same) (
        All-append (IsSource algo buf) done (record r { latest = flag } ∷ []) l
          (is_source-IsSource algo buf r h, tt))

  sources_from-IsSource :
      (txn : Txn) (blank : Response) (algo : Algo) (buf : Bytes) (max : ℕ) (done rs : List Response)
      (ks : List Key)
      → All (IsSource algo buf) done
      → sources_from kvs txn blank algo buf max done ks ≡ ok rs
      → All (IsSource algo buf) rs
  unfolding sources_from add_source
  sources_from-IsSource txn blank algo buf max done rs [] l e =
      let same : done ≡ rs = cc in rw (← same) l
  sources_from-IsSource txn blank algo buf max done rs (k ∷ ks) l e =
      go (λ done' l' f. sources_from-IsSource txn blank algo buf max done' rs ks l' f)
        (ltb (length done) max) e
    where
      go :
          ((done' : List Response)
            → All (IsSource algo buf) done'
            → sources_from kvs txn blank algo buf max done' ks ≡ ok rs
            → All (IsSource algo buf) rs)
          → (b : Bool)
          → (if b
              then (of_hash_key k >>= λ at.
                  read_response kvs txn (record blank { latest = false }) at >>= λ r.
                  add_source kvs txn algo buf done r >>= λ done'.
                  sources_from kvs txn blank algo buf max done' ks)
              else ok done)
            ≡ ok rs
          → All (IsSource algo buf) rs
      go ih false f = let same : done ≡ rs = cc in rw (← same) l
      go ih true f =
          let (at, ea, g) = >>=-eq-ok (of_hash_key k) _ f in
          let (r, er, g') = >>=-eq-ok (read_response kvs txn _ at) _ g in
          let (done', ed, g'') = >>=-eq-ok (add_source kvs txn algo buf done r) _ g' in
          ih done' (kept-IsSource txn algo buf done r _ refl l ed) g''

  -- Although the index has eight bytes of a digest at most, every response that is listed for a digest
  -- or a part of one has a digest of the algorithm that begins with all the bytes asked for.
  pub hx_get_sources-IsSource :
      (txn : Txn) (type : hash_archive.Hash.Uri.Parse.Link) (algo : Algo) (buf : Bytes)
      (blank : Response) (max : ℕ) (rs : List Response)
      → hx_get_sources kvs txn
          (some (record { type = type; algo = some algo; buf = buf }))
          blank
          max
        ≡ ok rs
      → All (IsSource algo buf) rs
  unfolding hx_get_sources sources_of res_merge_common_urls
  hx_get_sources-IsSource txn type algo buf blank max rs e =
      let (found, ef, g) = >>=-eq-ok (sources_from kvs txn blank algo buf max [] _) _ e in
      let same : res_merge_common_urls found ≡ rs = cc in
      rw (← same) (
        All-merge_urls_from algo buf [] found tt
          (sources_from-IsSource txn blank algo buf max [] found _ tt ef))
