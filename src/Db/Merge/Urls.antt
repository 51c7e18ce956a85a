-- ===== src/Db/Merge/Urls.antt =====
-- `res_merge_common_urls`: the pages list the responses that have no `prev`.
use hash_archive.Prelude.{
  ℕ, zero, suc, ◌+◌, ◌-◌, ◌≤◌, Bool, true, false, Bytes, List, [], ◌∷◌, ◌++◌, append-nil,
  append_assoc, Option, none, some, length, bytes_eq, eq_of_bytes_eq, ◌||◌, if◌then◌else◌, All, ◌≡◌,
  ◌⊎◌, inl, inr, refl, ap, sym, ◌∙◌, arith, Bool-cases,
}
use hash_archive.Db.Response.{Response}
use hash_archive.Db.Merge.{find_tail, set_next, merge_url, merge_urls_from, res_merge_common_urls}

-- The URLs of the responses that no earlier one is linked to.
unfoldable pub heads : List Response → List Bytes
heads [] = []
heads (r ∷ rs) = elim r.prev [ none ↦ r.url ∷ heads rs | some j ↦ heads rs ]

pub contains : Bytes → List Bytes → Bool
contains u [] = false
contains u (x ∷ xs) = bytes_eq x u || contains u xs

-- The URLs in the order of their first response, without those in `seen`.
pub first_urls : List Bytes → List Response → List Bytes
first_urls seen [] = []
first_urls seen (r ∷ rs) =
    let rest = first_urls (seen ++ r.url ∷ []) rs in
    if contains r.url seen then rest else r.url ∷ rest

-- As the queries fill the array.
abbrev pub IsFresh : Response → Type 0
IsFresh r = (r.next ≡ none) × (r.prev ≡ none)

urls : List Response → List Bytes
urls [] = []
urls (r ∷ rs) = r.url ∷ urls rs

abbrev is_some {ℓ} : {A : Type ℓ} → Option A → Bool
is_some none = false
is_some (some a) = true

heads-append : (xs ys : List Response) → heads (xs ++ ys) ≡ heads xs ++ heads ys
unfolding heads
heads-append [] ys = refl
heads-append (r ∷ xs) ys = ground (arith, heads-append xs ys)

urls-append : (xs ys : List Response) → urls (xs ++ ys) ≡ urls xs ++ urls ys
unfolding urls
urls-append [] ys = refl
urls-append (r ∷ xs) ys = rw (urls-append xs ys)

heads-set_next : (j i : ℕ) (rs : List Response) → heads (set_next j i rs) ≡ heads rs
unfolding heads set_next
heads-set_next j i [] = refl
heads-set_next zero i (r ∷ rs) = refl
heads-set_next (suc j) i (r ∷ rs) = ground (arith, heads-set_next j i rs)

urls-set_next : (j i : ℕ) (rs : List Response) → urls (set_next j i rs) ≡ urls rs
unfolding urls set_next
urls-set_next j i [] = refl
urls-set_next zero i (r ∷ rs) = refl
urls-set_next (suc j) i (r ∷ rs) = rw (urls-set_next j i rs)

contains-append :
    (u : Bytes) (xs ys : List Bytes) → contains u (xs ++ ys) ≡ (contains u xs || contains u ys)
unfolding contains
contains-append u [] ys = refl
contains-append u (x ∷ xs) ys = ground (arith, contains-append u xs ys)

find_tail-append :
    (j : ℕ) (u : Bytes) (xs : List Response) (r : Response)
    → r.next ≡ none
    → is_some (find_tail j u (xs ++ r ∷ [])) ≡ (bytes_eq r.url u || is_some (find_tail j u xs))
unfolding find_tail
find_tail-append j u [] r h = ground arith
find_tail-append j u (x ∷ xs) r h = ground (arith, find_tail-append (j + 1) u xs r h)

find_tail_above : (j k : ℕ) (u : Bytes) (rs : List Response) → find_tail j u rs ≡ some k → j ≤ k
unfolding find_tail
find_tail_above j k u [] e = cc
find_tail_above j k u (r ∷ rs) e = ground (arith, find_tail_above (j + 1) k u rs)

Option-cases {ℓ} : {A : Type ℓ} (o : Option A) → (o ≡ none) ⊎ ((a : A) × (o ≡ some a))
Option-cases none = inl refl
Option-cases (some a) = inr (a, refl)

-- Linking the tail of one URL leaves the tails of the others.
find_tail-set_next :
    (j j' k i : ℕ) (u v : Bytes) (rs : List Response)
    → find_tail j u rs ≡ some k
    → bytes_eq u v ≡ false
    → is_some (find_tail j' v (set_next (k - j) i rs)) ≡ is_some (find_tail j' v rs)
unfolding find_tail set_next
find_tail-set_next j j' k i u v [] e ne = cc
find_tail-set_next j j' k i u v (r ∷ rs) e ne = elim (Option-cases (find_tail (j + 1) u rs)) [
  | inl none_later ↦
      let here : k ≡ j = ground arith in
      let there : bytes_eq r.url u ≡ true = ground arith in
      let same = eq_of_bytes_eq r.url u there in
      let other : bytes_eq r.url v ≡ false = rw same ne in
      let zero_gap : k - j ≡ 0 = omega arith in rw zero_gap (ground (arith, other))
  | inr (k', later) ↦
      let same : k' ≡ k = ground arith in
      let above = find_tail_above (j + 1) k' u rs later in
      let gap : k - j ≡ suc (k - (j + 1)) = omega arith in
      let ih = find_tail-set_next (j + 1) (j' + 1) k i u v rs (later ∙ ap some same) ne in
      rw gap (ground (arith, ih))
]

-- Every URL seen so far has a response that the next one of its kind can be linked to.
abbrev HasTails : List Response → Type 0
HasTails rs = (j : ℕ) (u : Bytes) → is_some (find_tail j u rs) ≡ contains u (urls rs)

linked :
    (done : List Response) (r : Response) (k j : ℕ) (u : Bytes)
    → HasTails done
    → find_tail 0 r.url done ≡ some k
    → (bytes_eq r.url u || is_some (find_tail j u (set_next k (length done) done)))
      ≡ (contains u (urls done) || contains u (r.url ∷ []))
unfolding contains
linked done r k j u h e = elim (Bool-cases (bytes_eq r.url u)) [
  | inl same ↦ rw same (ground arith)
  | inr other ↦
      let gap : k - 0 ≡ k = omega arith in
      let keep = rw gap at (find_tail-set_next 0 j k (length done) r.url u done e other) in
      rw (other, keep, h j u) (ground arith)
]

merge_url-tails :
    (done : List Response) (r : Response) → HasTails done → IsFresh r → HasTails (merge_url done r)
unfolding merge_url find_tail contains urls
merge_url-tails done r h fresh j u = elim (Option-cases (find_tail 0 r.url done)) [
  | inl e ↦
      rw (e, merge_url, find_tail-append j u done r fresh.0, h j u, urls-append done (r ∷ []), urls)
        (unfold contains in ground (arith, contains-append u (urls done) (r.url ∷ [])))
  | inr (k, e) ↦
      let r' = record r { prev = some k } in
      let done' = set_next k (length done) done in
      rw
        (
          e,
          merge_url,
          find_tail-append j u done' r' fresh.0,
          urls-append done' (r' ∷ []),
          urls-set_next k (length done) done,
          contains-append u (urls done) (r.url ∷ []),
        )
        (linked done r k j u h e)
]

urls-merge_url :
    (done : List Response) (r : Response) → urls (merge_url done r) ≡ urls done ++ r.url ∷ []
unfolding merge_url urls
urls-merge_url done r = elim (Option-cases (find_tail 0 r.url done)) [
  | inl e ↦ rw (e, merge_url) (urls-append done (r ∷ []))
  | inr (k, e) ↦
      rw (e, merge_url)
        (urls-append (set_next k (length done) done) (record r { prev = some k } ∷ [])
          ∙ ap (λ (x : List Bytes). x ++ r.url ∷ []) (urls-set_next k (length done) done))
]

heads-merge_url :
    (done : List Response) (r : Response)
    → HasTails done
    → IsFresh r
    → heads (merge_url done r)
      ≡ (if contains r.url (urls done) then heads done else heads done ++ r.url ∷ [])
unfolding merge_url heads
heads-merge_url done r h fresh = elim (Option-cases (find_tail 0 r.url done)) [
  | inl e ↦
      let absent : contains r.url (urls done) ≡ false = rw e at (sym (h 0 r.url)) in
      rw (e, merge_url, absent, heads-append done (r ∷ []), fresh.1)
  | inr (k, e) ↦
      let present : contains r.url (urls done) ≡ true = rw e at (sym (h 0 r.url)) in
      rw (
        e,
        merge_url,
        present,
        heads-append (set_next k (length done) done) (record r { prev = some k } ∷ []),
        heads-set_next k (length done) done,
        append-nil,
      )
]

heads-merge_urls_from :
    (done rs : List Response)
    → HasTails done
    → All IsFresh rs
    → heads (merge_urls_from done rs) ≡ heads done ++ first_urls (urls done) rs
unfolding merge_urls_from first_urls
heads-merge_urls_from done [] h fresh = rw append-nil
heads-merge_urls_from done (r ∷ rs) h (fr, fresh) =
    let ih = heads-merge_urls_from (merge_url done r) rs (merge_url-tails done r h fr) fresh in
    rw (ih, urls-merge_url done r, heads-merge_url done r h fr)
      (ground
        (arith, append_assoc (heads done) (r.url ∷ []) (first_urls (urls done ++ r.url ∷ []) rs)))

-- Of the merged responses, those with no earlier link show every URL exactly once, in the order of
-- the first response of each.
pub heads-merge_common_urls :
    (rs : List Response) → All IsFresh rs → heads (res_merge_common_urls rs) ≡ first_urls [] rs
unfolding res_merge_common_urls first_urls heads urls
heads-merge_common_urls rs fresh =
    heads-merge_urls_from [] rs (λ j u. unfold find_tail urls contains in refl) fresh
