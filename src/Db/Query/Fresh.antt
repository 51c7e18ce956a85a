-- ===== src/Db/Query/Fresh.antt =====
-- What a query reads into an array that `calloc` gave has no links yet.
use hash_archive.Prelude.{
  ℕ, Bool, true, false, Bytes, List, [], ◌∷◌, ◌++◌, All, All-append, length, Option, none, some,
  ltb, if◌then◌else◌, ◌≡◌, sym, ap, ◌∙◌,
}
use hash_archive.Error.{Result, ok, err, ◌>>=◌, >>=-eq-ok}
use hash_archive.Hash.Algo.{Algo}
use hash_archive.Hash.Uri.Parse.{HashUri}
use hash_archive.Db.Response.{Response, Field, read_text, read_num, read_digests, unpack_value}
use hash_archive.Db.Merge.{timeidcmp, res_merge_common_urls}
use hash_archive.Db.Merge.Urls.{IsFresh}
use hash_archive.Db.Store.{Kvs, Key, time_id_to_response}
use hash_archive.Db.Query.{
  of_hash_key, latest_flag, read_response, hx_get_latest, is_source, add_source, sources_from,
  sources_of, hx_get_sources,
}

abbrev links_of : Result Response → Option ℕ × Option ℕ
links_of (ok r) = (Response.next r, Response.prev r)
links_of (err e) = (none, none)

unpack_value-IsFresh :
    (v : List Field) (out r : Response) → IsFresh out → unpack_value v out ≡ ok r → IsFresh r
unfolding unpack_value
unpack_value-IsFresh v out r (hn, hp) e =
    let (a, e0, f0) = >>=-eq-ok (read_text v) _ e in
    let (b, e1, f1) = >>=-eq-ok (read_num a.1) _ f0 in
    let (c, e2, f2) = >>=-eq-ok (read_text b.1) _ f1 in
    let (d, e3, f3) = >>=-eq-ok (read_num c.1) _ f2 in
    let (g, e4, f4) = >>=-eq-ok (read_digests d.1) _ f3 in
    (ap (λ x. (links_of x).0) (sym f4) ∙ hn, ap (λ x. (links_of x).1) (sym f4) ∙ hp)

module _ (kvs : Kvs) where
  open kvs use {Txn, get, keys_down}

  pub read_response-IsFresh :
      (t : Txn) (blank r : Response) (k : ℕ × ℕ)
      → IsFresh blank
      → read_response kvs t blank k ≡ ok r
      → IsFresh r
  unfolding read_response
  read_response-IsFresh t blank r k fresh e =
      let (v, e0, f0) = >>=-eq-ok (get t (time_id_to_response k.0 k.1)) _ e in
      unpack_value-IsFresh v (record blank { time = k.0; id = k.1 }) r fresh f0

  added-IsFresh :
      (t : Txn) (done : List Response) (r : Response) {rs : List Response} (b : Bool)
      → All IsFresh done
      → IsFresh r
      → (if b
          then (hx_get_latest kvs t (Response.url r) >>= λ last.
              latest_flag (timeidcmp last.0 last.1 (Response.time r) (Response.id r)) >>= λ flag.
              ok (done ++ record r { latest = flag } ∷ []))
          else ok done)
        ≡ ok rs
      → All IsFresh rs
  added-IsFresh t done r {rs} false h fr e = let same : done ≡ rs = cc in rw (← same) h
  added-IsFresh t done r {rs} true h fr e =
      let (last, el, f) = >>=-eq-ok (hx_get_latest kvs t (Response.url r)) _ e in
      let (flag, ef, g) = >>=-eq-ok (latest_flag _) _ f in
      let same : (done ++ record r { latest = flag } ∷ []) ≡ rs = cc in
      rw (← same) (All-append IsFresh done (record r { latest = flag } ∷ []) h (fr, tt))

  sources_from-IsFresh :
      (t : Txn) (blank : Response) (algo : Algo) (buf : Bytes) (max : ℕ) (done rs : List Response)
      (ks : List Key)
      → IsFresh blank
      → All IsFresh done
      → sources_from kvs t blank algo buf max done ks ≡ ok rs
      → All IsFresh rs
  unfolding sources_from add_source
  sources_from-IsFresh t blank algo buf max done rs [] fresh h e =
      let same : done ≡ rs = cc in rw (← same) h
  sources_from-IsFresh t blank algo buf max done rs (k ∷ ks) fresh h e =
      go (λ done' h' f. sources_from-IsFresh t blank algo buf max done' rs ks fresh h' f)
        (ltb (length done) max) e
    where
      go :
          ((done' : List Response)
            → All IsFresh done'
            → sources_from kvs t blank algo buf max done' ks ≡ ok rs
            → All IsFresh rs)
          → (b : Bool)
          → (if b
              then (of_hash_key k >>= λ at.
                  read_response kvs t (record blank { latest = false }) at >>= λ r.
                  add_source kvs t algo buf done r >>= λ done'.
                  sources_from kvs t blank algo buf max done' ks)
              else ok done)
            ≡ ok rs
          → All IsFresh rs
      go ih false f = let same : done ≡ rs = cc in rw (← same) h
      go ih true f =
          let (at, ea, g) = >>=-eq-ok (of_hash_key k) _ f in
          let (r, er, g') =
            >>=-eq-ok (read_response kvs t (record blank { latest = false }) at) _ g in
          let (done', ed, g'') = >>=-eq-ok (add_source kvs t algo buf done r) _ g' in
          ih done'
            (added-IsFresh t done r (is_source algo buf r) h
              (read_response-IsFresh t (record blank { latest = false }) r at fresh er) ed)
            g''

  sources_of-IsFresh :
      (t : Txn) (blank : Response) (algo : Option Algo) (buf : Bytes) (max : ℕ) (rs : List Response)
      → IsFresh blank
      → sources_of kvs t algo buf blank max ≡ ok rs
      → (rows : List Response) × All IsFresh rows × (rs ≡ res_merge_common_urls rows)
  unfolding sources_of res_merge_common_urls hash_archive.Db.Merge.merge_urls_from
  sources_of-IsFresh t blank none buf max rs fresh e = ([], tt, (cc))
  sources_of-IsFresh t blank (some algo) buf max rs fresh e =
      let (rows, er, f) = >>=-eq-ok (sources_from kvs t blank algo buf max [] _) _ e in
      (rows, sources_from-IsFresh t blank algo buf max [] rows _ fresh tt er, (cc))

  -- The responses of a hash are the merged ones of rows without links.
  pub hx_get_sources-IsFresh :
      (t : Txn) (obj : HashUri) (blank : Response) (max : ℕ) (rs : List Response)
      → IsFresh blank
      → hx_get_sources kvs t (some obj) blank max ≡ ok rs
      → (rows : List Response) × All IsFresh rows × (rs ≡ res_merge_common_urls rows)
  unfolding hx_get_sources
  hx_get_sources-IsFresh t obj blank max rs fresh e =
      sources_of-IsFresh t blank obj.algo obj.buf max rs fresh e
