-- ===== src/Db/Query/Recent.antt =====
-- What the front page lists.
use hash_archive.Prelude.{
  ℕ, ◌≤◌, ◌<◌, Bool, true, false, not, Bytes, List, [], ◌∷◌, ◌++◌, length, length-append, bytes_eq,
  bytes_eq_self, ltb, ◌&&◌, ◌||◌, if◌then◌else◌, All, All-append, ◌≡◌, ◌≢◌, refl, sym, arith,
}
use hash_archive.Error.{ok, ◌>>=◌, >>=-eq-ok}
use hash_archive.Db.Response.{Response}
use hash_archive.Db.Merge.{is_ok_status}
use hash_archive.Db.Store.{Kvs, Key, responses}
use hash_archive.Db.Query.{
  unless_notfound, of_response_key, url_in, is_recent, read_response, recent_from, hx_get_recent,
}

-- No URL stands in the list twice.
abbrev pub Distinct : List Response → Type 0
Distinct [] = Unit {0}
Distinct (r ∷ rs) = All (λ s. Response.url s ≢ Response.url r) rs × Distinct rs

pub record IsListing (max : ℕ) (rs : List Response) : Type 0 where
  pub fits : length rs ≤ max
  pub succeeded : All (λ r. is_ok_status (Response.status r) ≡ true) rs
  pub distinct : Distinct rs

Distinct-append :
    (rs : List Response) (r : Response)
    → Distinct rs
    → All (λ s. Response.url s ≢ Response.url r) rs
    → Distinct (rs ++ r ∷ [])
Distinct-append [] r d h = (tt, tt)
Distinct-append (s ∷ rs) r (hs, d) (n, h) = (
  All-append (λ x. Response.url x ≢ Response.url s) rs (r ∷ []) hs ((λ e. n (sym e)), tt),
  Distinct-append rs r d h,
)

not_in-All :
    (url : Bytes) (rs : List Response) → url_in url rs ≡ false → All (λ s. Response.url s ≢ url) rs
unfolding url_in
not_in-All url [] h = tt
not_in-All url (r ∷ rs) h = (
  λ e. differ (bytes_eq (Response.url r) url) (rw e (bytes_eq_self url)) h,
  not_in-All url rs (rest (bytes_eq (Response.url r) url) h),
)
  where
    differ : (b : Bool) → b ≡ true → ¬ ((b || url_in url rs) ≡ false)
    differ b e h = ground arith

    rest : (b : Bool) → (b || url_in url rs) ≡ false → url_in url rs ≡ false
    rest b h = ground arith

is_recent-IsListing :
    (max : ℕ) (done : List Response) (r : Response)
    → IsListing max done
    → length done < max
    → is_recent done r ≡ true
    → IsListing max (done ++ r ∷ [])
unfolding is_recent
is_recent-IsListing max done r l room h = record {
  fits = omega (arith, length-append done (r ∷ []));
  succeeded =
      All-append (λ s. is_ok_status (Response.status s) ≡ true) done (r ∷ []) l.succeeded
        (parts.0, tt);
  distinct = Distinct-append done r l.distinct (not_in-All (Response.url r) done parts.1);
}
  where
    both : (a b : Bool) → (a && not b) ≡ true → (a ≡ true) × (b ≡ false)
    both a b e = ground arith

    parts : (is_ok_status (Response.status r) ≡ true) × (url_in (Response.url r) done ≡ false)
    parts = both _ _ h

module _ (kvs : Kvs) where
  open kvs use {Txn, keys_down}

  recent_from-IsListing :
      (txn : Txn) (blank : Response) (max : ℕ) (done rs : List Response) (ks : List Key)
      → IsListing max done
      → recent_from kvs txn blank max done ks ≡ ok rs
      → IsListing max rs
  unfolding recent_from
  recent_from-IsListing txn blank max done rs [] l e = let same : done ≡ rs = cc in rw (← same) l
  recent_from-IsListing txn blank max done rs (k ∷ ks) l e =
      go (λ done' l' f. recent_from-IsListing txn blank max done' rs ks l' f)
        (ltb (length done) max) refl e
    where
      step :
          (r : Response) (b : Bool)
          → is_recent done r ≡ b
          → length done < max
          → IsListing max (if b then done ++ r ∷ [] else done)
      step r true h room = is_recent-IsListing max done r l room h
      step r false h room = l

      go :
          ((done' : List Response)
            → IsListing max done'
            → recent_from kvs txn blank max done' ks ≡ ok rs
            → IsListing max rs)
          → (b : Bool) → ltb (length done) max ≡ b
          → (if b
              then (of_response_key k >>= λ at. read_response kvs txn blank at >>= λ r.
                  recent_from kvs txn blank max
                    (if is_recent done r then done ++ r ∷ [] else done)
                    ks)
              else ok done)
            ≡ ok rs
          → IsListing max rs
      go ih false room f = let same : done ≡ rs = cc in rw (← same) l
      go ih true room f =
          let (at, ea, g) = >>=-eq-ok (of_response_key k) _ f in
          let (r, er, g') = >>=-eq-ok (read_response kvs txn blank at) _ g in
          ih _ (step r (is_recent done r) refl (ground arith)) g'

  -- The front page lists no more responses than it asks for, only successful ones, and no URL twice.
  pub hx_get_recent-IsListing :
      (txn : Txn) (blank : Response) (max : ℕ) (rs : List Response)
      → hx_get_recent kvs txn blank max ≡ ok rs
      → IsListing max rs
  unfolding hx_get_recent
  hx_get_recent-IsListing txn blank max rs e =
      let (ks, ek, f) = >>=-eq-ok (unless_notfound (keys_down txn responses)) _ e in
      recent_from-IsListing txn blank max [] rs ks
        (record { fits = omega arith; succeeded = tt; distinct = tt }) f
