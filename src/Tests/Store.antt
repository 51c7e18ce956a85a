-- ===== src/Tests/Store.antt =====
-- A store of keys and values as a list, which does what libkvstore documents.
use hash_archive.Prelude.{
  ℕ, Bool, true, not, if◌then◌else◌, Bytes, List, [], ◌∷◌, ◌++◌, Option, none, some, strip,
  strip-append, ◌≡◌, ◌≢◌, ◌⊎◌, inl, inr, refl, sym, ◌∙◌, subst, arith,
}
use hash_archive.Api.Rows.{before}
use native.Mathlib.Decide.{ℕ_discrete}
use hash_archive.Error.{kvs_notfound, kvs_keyexist, Result, ok, err}
use hash_archive.Hash.Algo.{Algo}
use hash_archive.Db.Response.{Field}
use hash_archive.Db.Store.{
  Kvs, Key, time_id_to_response, url_surt_and_time_id, time_id_queued_url_and_client,
  queued_url_surt_and_time_id, hash_and_time_id, Range, responses, url_surt, queued, queued_surt,
  algo_hash, InRange, in_responses, in_url_surt, in_queued, in_queued_surt, in_algo_hash, IsStore,
}

Text-discrete : Discrete Bytes
Text-discrete = hlevel ℕ_discrete

Algo-discrete : Discrete Algo
Algo-discrete = hlevel

pub Key-discrete : Discrete Key
Key-discrete = hlevel (ℕ_discrete, Text-discrete, Algo-discrete)

pub same_text : (s x : Bytes) {P : Type 0} → (s ≡ x → P) → (P → s ≡ x) → Dec P
same_text s x f g = elim (Text-discrete s x) [ yes e ↦ yes (f e) | no n ↦ no λ p. n (g p) ]

pub surt_of : (s x : Bytes) (t i : ℕ) → InRange (url_surt s) (url_surt_and_time_id x t i) → s ≡ x
surt_of s x t i (in_url_surt s' t' i') = refl

pub queued_of :
    (s x : Bytes) (t i : ℕ) → InRange (queued_surt s) (queued_url_surt_and_time_id x t i) → s ≡ x
queued_of s x t i (in_queued_surt s' t' i') = refl

digest_of :
    (a b : Algo) (h d : Bytes) (t i : ℕ)
    → InRange (algo_hash a h) (hash_and_time_id b d t i)
    → (a ≡ b) × (rest : Bytes) × (d ≡ h ++ rest)
digest_of a b h d t i (in_algo_hash a' h' rest t' i') = (refl, rest, refl)

strip-some : (p s rest : Bytes) → strip p s ≡ some rest → s ≡ p ++ rest
unfolding strip
strip-some [] s rest e = cc
strip-some (x ∷ p) [] rest e = cc
strip-some (x ∷ p) (y ∷ s) rest e = ground (arith, strip-some p s rest)

pub in_digest :
    (a b : Algo) (h d : Bytes) (t i : ℕ) (r : Option Bytes)
    → strip h d ≡ r
    → Dec (InRange (algo_hash a h) (hash_and_time_id b d t i))
in_digest a b h d t i none e = no λ p.
    let (_, rest, f) = digest_of a b h d t i p in
    let g : strip h (h ++ rest) ≡ none = rw (← f) e in cc (strip-append h rest)
in_digest a b h d t i (some rest) e = elim (Algo-discrete a b) [
  | no n ↦ no λ p. n (digest_of a b h d t i p).0
  | yes same ↦ yes (
      subst (λ y. InRange (algo_hash a h) (hash_and_time_id y d t i)) same
        (rw (strip-some h d rest e) (in_algo_hash a h rest t i)))
]

unfoldable pub in_range : (r : Range) (k : Key) → Dec (InRange r k)
in_range responses (time_id_to_response t i) = yes (in_responses t i)
in_range responses (url_surt_and_time_id x t i) = no λ h. elim h [ ]
in_range responses (time_id_queued_url_and_client t i u c) = no λ h. elim h [ ]
in_range responses (queued_url_surt_and_time_id x t i) = no λ h. elim h [ ]
in_range responses (hash_and_time_id b d t i) = no λ h. elim h [ ]
in_range (url_surt s) (time_id_to_response t i) = no λ h. elim h [ ]
in_range (url_surt s) (url_surt_and_time_id x t i) =
    same_text s x
      (λ e. subst (λ y. InRange (url_surt s) (url_surt_and_time_id y t i)) e (in_url_surt s t i))
      (surt_of s x t i)
in_range (url_surt s) (time_id_queued_url_and_client t i u c) = no λ h. elim h [ ]
in_range (url_surt s) (queued_url_surt_and_time_id x t i) = no λ h. elim h [ ]
in_range (url_surt s) (hash_and_time_id b d t i) = no λ h. elim h [ ]
in_range queued (time_id_to_response t i) = no λ h. elim h [ ]
in_range queued (url_surt_and_time_id x t i) = no λ h. elim h [ ]
in_range queued (time_id_queued_url_and_client t i u c) = yes (in_queued t i u c)
in_range queued (queued_url_surt_and_time_id x t i) = no λ h. elim h [ ]
in_range queued (hash_and_time_id b d t i) = no λ h. elim h [ ]
in_range (queued_surt s) (time_id_to_response t i) = no λ h. elim h [ ]
in_range (queued_surt s) (url_surt_and_time_id x t i) = no λ h. elim h [ ]
in_range (queued_surt s) (time_id_queued_url_and_client t i u c) = no λ h. elim h [ ]
in_range (queued_surt s) (queued_url_surt_and_time_id x t i) =
    same_text s x
      (λ e.
        subst (λ y. InRange (queued_surt s) (queued_url_surt_and_time_id y t i)) e
          (in_queued_surt s t i))
      (queued_of s x t i)
in_range (queued_surt s) (hash_and_time_id b d t i) = no λ h. elim h [ ]
in_range (algo_hash a h) (time_id_to_response t i) = no λ h. elim h [ ]
in_range (algo_hash a h) (url_surt_and_time_id x t i) = no λ h. elim h [ ]
in_range (algo_hash a h) (time_id_queued_url_and_client t i u c) = no λ h. elim h [ ]
in_range (algo_hash a h) (queued_url_surt_and_time_id x t i) = no λ h. elim h [ ]
in_range (algo_hash a h) (hash_and_time_id b d t i) = in_digest a b h d t i (strip h d) refl

abbrev pub Entries : Type 0
Entries = List (Key × List Field)

unfoldable pub find : Entries → Key → Result (List Field)
find [] k = err kvs_notfound
find ((j, v) ∷ t) k = elim (Key-discrete j k) [ yes e ↦ ok v | no n ↦ find t k ]

unfoldable pub remove : Entries → Key → Entries
remove [] k = []
remove ((j, v) ∷ t) k = elim (Key-discrete j k) [ yes e ↦ remove t k | no n ↦ (j, v) ∷ remove t k ]

-- Any entry of the range is as good as the newest for what the theorems rely on.
unfoldable pub find_range : Entries → Range → Result Key
find_range [] r = err kvs_notfound
find_range ((j, v) ∷ t) r = elim (in_range r j) [ yes e ↦ ok j | no n ↦ find_range t r ]

unfoldable pub range_keys : Entries → Range → List Key
range_keys [] r = []
range_keys ((j, v) ∷ t) r = elim (in_range r j) [
  | yes e ↦ j ∷ range_keys t r
  | no n ↦ range_keys t r
]

-- Whether a cursor that seeks `k` forward passes the key.
abbrev pub at_or_after : Key → Key → Bool
at_or_after (time_id_queued_url_and_client t i u c) (time_id_queued_url_and_client a b v d) =
    not (before (t, i) (a, b))
at_or_after j k = true

unfoldable pub keys_after : List Key → Key → List Key
keys_after [] k = []
keys_after (j ∷ js) k = let rest = keys_after js k in if at_or_after j k then j ∷ rest else rest

unfoldable pub add_new : Result (List Field) → Entries → Key → List Field → Result Entries
add_new (ok w) t k v = err kvs_keyexist
add_new (err e) t k v = ok ((k, v) ∷ t)

abbrev pub list_store : Kvs
list_store = record {
  Txn = Entries;
  get = find;
  put = λ t k v. ok ((k, v) ∷ t);
  put_new = λ t k v. add_new (find t k) t k v;
  del = λ t k. ok (remove t k);
  newest = find_range;
  keys_down = λ t r. ok (range_keys t r);
  keys_from = λ t r k dir. ok (keys_after (range_keys t r) k);
}

abbrev Found : Entries → Key → Type 0
Found t k = (v : List Field) × (find t k ≡ ok v)

find-remove : (t : Entries) (k : Key) (w : List Field) → find (remove t k) k ≢ ok w
unfolding find remove
find-remove [] k w f = cc
find-remove ((j, v) ∷ t) k w f =
    elim (Key-discrete j k)
        as (λ d. find (elim d [ yes e ↦ remove t k | no n ↦ (j, v) ∷ remove t k ]) k ≡ ok w → ⊥) [
          | yes e ↦ λ g. find-remove t k w g
          | no n ↦ λ g. find-remove t k w (g' n g)
        ]
      f
  where
    g' : (¬ (j ≡ k)) → find ((j, v) ∷ remove t k) k ≡ ok w → find (remove t k) k ≡ ok w
    g' n g = ground arith

Found-head : (t : Entries) (k : Key) (v : List Field) → Found ((k, v) ∷ t) k
unfolding find
Found-head t k v =
    elim (Key-discrete k k)
      as (λ d. (w : List Field) × ((elim d [ yes e ↦ ok v | no n ↦ find t k ]) ≡ ok w)) [
        | yes e ↦ (v, refl)
        | no n ↦ absurd (n refl)
      ]

Found-tail : (t : Entries) (j k : Key) (v : List Field) → Found t k → Found ((j, v) ∷ t) k
unfolding find
Found-tail t j k v (w, f) =
    elim (Key-discrete j k)
      as (λ d. (w : List Field) × ((elim d [ yes e ↦ ok v | no n ↦ find t k ]) ≡ ok w)) [
        | yes e ↦ (v, refl)
        | no n ↦ (w, f)
      ]

Found-cases :
    (t : Entries) (j k : Key) (v : List Field) → Found ((j, v) ∷ t) k → (k ≡ j) ⊎ Found t k
unfolding find
Found-cases t j k v h =
    elim (Key-discrete j k)
        as (λ d.
          (w : List Field) × ((elim d [ yes e ↦ ok v | no n ↦ find t k ]) ≡ ok w)
          → (k ≡ j) ⊎ Found t k) [ yes e ↦ λ g. inl (sym e) | no n ↦ λ g. inr g ]
      h

remove-keeps : (t : Entries) (k j : Key) → j ≢ k → Found t j → Found (remove t k) j
unfolding remove
remove-keeps [] k j n h = h
remove-keeps ((i, v) ∷ t) k j n h =
    elim (Key-discrete i k)
      as (λ d. Found (elim d [ yes e ↦ remove t k | no m ↦ (i, v) ∷ remove t k ]) j) [
        | yes e ↦ elim (Found-cases t i j v h) [
          | inl same ↦ absurd (n (same ∙ e))
          | inr h' ↦ remove-keeps t k j n h'
        ]
        | no m ↦ elim (Found-cases t i j v h) [
          | inl same ↦ rw same (Found-head (remove t k) i v)
          | inr h' ↦ Found-tail (remove t k) i j v (remove-keeps t k j n h')
        ]
      ]

remove-adds : (t : Entries) (k j : Key) → Found (remove t k) j → Found t j
unfolding remove
remove-adds [] k j h = h
remove-adds ((i, v) ∷ t) k j h =
    elim (Key-discrete i k)
        as (λ d.
          Found (elim d [ yes e ↦ remove t k | no m ↦ (i, v) ∷ remove t k ]) j
          → Found ((i, v) ∷ t) j) [
            | yes e ↦ λ h'. Found-tail t i j v (remove-adds t k j h')
            | no m ↦ λ h'. elim (Found-cases (remove t k) i j v h') [
              | inl same ↦ rw same (Found-head t i v)
              | inr h'' ↦ Found-tail t i j v (remove-adds t k j h'')
            ]
          ]
      h

range-some : (t : Entries) (r : Range) (k : Key) → find_range t r ≡ ok k → InRange r k × Found t k
unfolding find_range
range-some [] r k e = cc
range-some ((j, v) ∷ t) r k e =
    elim (in_range r j)
        as (λ d.
          (elim d [ yes p ↦ ok j | no n ↦ find_range t r ]) ≡ ok k
          → InRange r k × Found ((j, v) ∷ t) k) [
            | yes p ↦ λ f. let same : j ≡ k = cc in rw (← same) (p, Found-head t j v)
            | no n ↦ λ f. let (p, g) = range-some t r k f in (p, Found-tail t j k v g)
          ]
      e

range-none :
    (t : Entries) (r : Range) (k : Key)
    → find_range t r ≡ err kvs_notfound
    → InRange r k
    → ¬ Found t k
unfolding find find_range
range-none [] r k e h (v, f) = cc
range-none ((j, v) ∷ t) r k e h (w, f) = ground (arith, range-none t r k)

find_head : (t : Entries) (k : Key) (v : List Field) → find ((k, v) ∷ t) k ≡ ok v
unfolding find
find_head t k v =
    elim (Key-discrete k k) as (λ d. (elim d [ yes e ↦ ok v | no n ↦ find t k ]) ≡ ok v) [
      | yes e ↦ refl
      | no n ↦ absurd (n refl)
    ]

pub find_other :
    (t : Entries) (k j : Key) (v : List Field) → (k ≢ j) → find ((k, v) ∷ t) j ≡ find t j
unfolding find
find_other t k j v n =
    elim (Key-discrete k j) as (λ d. (elim d [ yes e ↦ ok v | no n ↦ find t j ]) ≡ find t j) [
      | yes e ↦ absurd (n e)
      | no n ↦ refl
    ]

add_new-find :
    (t t' : Entries) (k : Key) (v : List Field) (r : Result (List Field))
    → add_new r t k v ≡ ok t'
    → find t' k ≡ ok v
unfolding add_new
add_new-find t t' k v (ok w) e = cc
add_new-find t t' k v (err x) e = let same : (k, v) ∷ t ≡ t' = cc in rw (← same) (find_head t k v)

add_new-keeps :
    (t t' : Entries) (k j : Key) (v w : List Field) (r : Result (List Field))
    → find t k ≡ r
    → add_new r t k v ≡ ok t'
    → find t j ≡ ok w
    → find t' j ≡ ok w
unfolding add_new
add_new-keeps t t' k j v w (ok x) f e h = cc
add_new-keeps t t' k j v w (err x) f e h =
    let same : (k, v) ∷ t ≡ t' = cc in
    let other : k ≢ j = λ p. differ p in rw (← same, find_other t k j v other) h
  where
    differ : ¬ (k ≡ j)
    differ p = let q : find t k ≡ ok w = rw p h in cc

add_new-adds :
    (t t' : Entries) (k j : Key) (v : List Field) (r : Result (List Field))
    → add_new r t k v ≡ ok t'
    → Found t' j
    → (j ≡ k) ⊎ Found t j
unfolding add_new
add_new-adds t t' k j v (ok x) e h = cc
add_new-adds t t' k j v (err x) e h =
    let same : (k, v) ∷ t ≡ t' = cc in Found-cases t k j v (subst (λ y. Found y j) (sym same) h)

pub list_store-IsStore : IsStore list_store
list_store-IsStore = record {
  put_new_get = λ t t' k v e. add_new-find t t' k v (find t k) e;
  put_new_keeps = λ t t' k j v w e h. add_new-keeps t t' k j v w (find t k) refl e h;
  put_new_adds = λ t t' k j v e h. add_new-adds t t' k j v (find t k) e h;
  put_has = λ t t' k v e. let same : (k, v) ∷ t ≡ t' = cc in rw (← same) (Found-head t k v);
  put_keeps =
      λ t t' k j v e h. let same : (k, v) ∷ t ≡ t' = cc in rw (← same) (Found-tail t k j v h);
  put_adds = λ t t' k j v e h.
      let same : (k, v) ∷ t ≡ t' = cc in Found-cases t k j v (subst (λ x. Found x j) (sym same) h);
  del_drops = λ t t' k e h.
      let same : remove t k ≡ t' = cc in
      let h' : Found (remove t k) k = subst (λ x. Found x k) (sym same) h in
      find-remove t k h'.0 h'.1;
  del_keeps = λ t t' k j e n h.
      let same : remove t k ≡ t' = cc in subst (λ x. Found x j) same (remove-keeps t k j n h);
  del_adds = λ t t' k j e h.
      let same : remove t k ≡ t' = cc in remove-adds t k j (subst (λ x. Found x j) (sym same) h);
  newest_some = range-some;
  newest_none = range-none;
}

pub remove_first : (t : Entries) (k : Key) (v : List Field) → remove ((k, v) ∷ t) k ≡ remove t k
unfolding remove
remove_first t k v =
    elim (Key-discrete k k)
      as (λ d. (elim d [ yes e ↦ remove t k | no n ↦ (k, v) ∷ remove t k ]) ≡ remove t k) [
        | yes e ↦ refl
        | no n ↦ absurd (n refl)
      ]

pub remove_other :
    (t : Entries) (j k : Key) (v : List Field) → j ≢ k → remove ((j, v) ∷ t) k ≡ (j, v) ∷ remove t k
unfolding remove
remove_other t j k v n =
    elim (Key-discrete j k)
      as (λ d. (elim d [ yes e ↦ remove t k | no m ↦ (j, v) ∷ remove t k ]) ≡ (j, v) ∷ remove t k) [
        | yes e ↦ absurd (n e)
        | no m ↦ refl
      ]
