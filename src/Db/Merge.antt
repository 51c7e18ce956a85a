-- ===== src/Db/Merge.antt =====
-- `timeidcmp`, `res_content_eq`, `res_merge_common_content` and `res_merge_common_urls` of src/db.c.
-- The array of responses is a list; `next` and `prev` are indices into it.
pub mod Urls
use hash_archive.Prelude.{
  ℕ, zero, suc, ◌+◌, ◌-◌, ◌≤◌, ◌<◌, min, Bool, true, false, not, Bytes, List, [], ◌∷◌, ◌++◌, Option,
  none, some, take, length, get_elem?, bytes_eq, bytes_eq_self, leb, ltb, ◌==◌, ◌&&◌, ◌||◌,
  if◌then◌else◌, All, ◌≡◌, refl, arith,
}
use hash_archive.Hash.Algo.{Algo, md5, sha1, sha256, sha384, sha512}
use hash_archive.Db.Response.{ℤ, pos, negsuc, Digests, digest_at, Response}

unfoldable pub timeidcmp : ℕ → ℕ → ℕ → ℕ → ℤ
timeidcmp t1 i1 t2 i2 =
    if ltb t2 t1
    then pos 1
    else if ltb t1 t2
    then negsuc 0
    else if ltb i2 i1
    then pos 1
    else if ltb i1 i2
    then negsuc 0
    else pos 0

-- `200 != status`
abbrev pub is_ok_status : ℤ → Bool
is_ok_status (pos n) = n == 200
is_ok_status (negsuc n) = false

abbrev pub all_algos : List Algo
all_algos = md5 ∷ sha1 ∷ sha256 ∷ sha384 ∷ sha512 ∷ []

-- The loop of `res_content_eq`: `none` is its early return, else the number of long prefixes that
-- compared equal.
unfoldable pub match_digests : List Algo → Digests → Digests → ℕ → Option ℕ
match_digests [] a b found = some found
match_digests (x ∷ xs) a b found =
    let len = min (length (digest_at a x)) (length (digest_at b x)) in
    let rest = match_digests xs a b (if leb 12 len then found + 1 else found) in
    if bytes_eq (take len (digest_at a x)) (take len (digest_at b x)) then rest else none

-- For two responses at different addresses.
unfoldable pub res_content_eq : Response → Response → Bool
res_content_eq a b =
    if not (is_ok_status a.status) || not (is_ok_status b.status)
    then false
    else elim (match_digests all_algos a.digests b.digests 0) [
      | none ↦ false
      | some found ↦ ltb 0 found
    ]

-- `responses[i-1]` is `a`, and the list begins with `responses[i]`.
unfoldable pub merge_content_from : ℕ → Response → List Response → List Response
merge_content_from i a [] = a ∷ []
merge_content_from i a (b ∷ rest) =
    let joined = res_content_eq a b in
    (if joined then record a { next = some i } else a)
    ∷ merge_content_from (i + 1) (if joined then record b { prev = some (i - 1) } else b) rest

unfoldable pub res_merge_common_content : List Response → List Response
res_merge_common_content [] = []
res_merge_common_content (a ∷ rest) = merge_content_from 1 a rest

-- The newest earlier response of the same URL that has no `next`: `for(size_t j = i; j-- > 0;)`.
unfoldable pub find_tail : ℕ → Bytes → List Response → Option ℕ
find_tail j url [] = none
find_tail j url (r ∷ rest) =
    let later = find_tail (j + 1) url rest in
    elim later [
      | some k ↦ some k
      | none ↦ elim (Response.next r) [
        | some k ↦ none
        | none ↦ if bytes_eq (Response.url r) url then some j else none
      ]
    ]

unfoldable pub set_next : ℕ → ℕ → List Response → List Response
set_next j i [] = []
set_next zero i (r ∷ rest) = record r { next = some i } ∷ rest
set_next (suc j) i (r ∷ rest) = r ∷ set_next j i rest

-- `done` are the responses before `i`, `r` is `responses[i]`.
unfoldable pub merge_url : List Response → Response → List Response
merge_url done r = elim (find_tail 0 (Response.url r) done) [
  | none ↦ done ++ r ∷ []
  | some j ↦ set_next j (length done) done ++ record r { prev = some j } ∷ []
]

unfoldable pub merge_urls_from : List Response → List Response → List Response
merge_urls_from done [] = done
merge_urls_from done (r ∷ rest) = merge_urls_from (merge_url done r) rest

unfoldable pub res_merge_common_urls : List Response → List Response
res_merge_common_urls rs = merge_urls_from [] rs
