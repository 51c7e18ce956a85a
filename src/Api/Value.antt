-- ===== src/Api/Value.antt =====
-- What the lists of responses print is one value of JSON.
use hash_archive.Prelude.{
  ◌==◌, Bool-cases, inl, inr, Bytes, List, [], ◌∷◌, ◌++◌, append_assoc, append-nil, some, codes,
  length, ◌≡◌, sym, ap, subst, ◌∙◌,
}
use hash_archive.Error.{Result, ok, err, >>=-eq-ok}
use hash_archive.Hash.Algo.{Algo}
use hash_archive.Hash.Uri.Parse.{link_prefix, Base58}
use hash_archive.Hash.Uri.Format.{hash_uri_format}
use hash_archive.Db.Response.{ℤ, Digests, Response, digest_at, uri_max}
use hash_archive.Db.Merge.{all_algos}
use hash_archive.Api.{
  Json, map_open, map_close, array_open, array_close, string, integer, Event, chunk_end,
  end_message, to_long, events, head, hash_tokens, res_json, json_list, response_list,
}

-- The grammar of JSON over the tokens that are used.
mutual
  pub data IsValue : List Json → Type 0 where
    a_string : (s : Bytes) → IsValue (string s ∷ [])
    an_integer : (n : ℤ) → IsValue (integer n ∷ [])
    an_array : (ts : List Json) → IsItems ts → IsValue (array_open ∷ ts ++ array_close ∷ [])
    an_object : (ts : List Json) → IsPairs ts → IsValue (map_open ∷ ts ++ map_close ∷ [])

  pub data IsItems : List Json → Type 0 where
    no_item : IsItems []
    item : (t ts : List Json) → IsValue t → IsItems ts → IsItems (t ++ ts)

  pub data IsPairs : List Json → Type 0 where
    no_pair : IsPairs []
    pair : (k : Bytes) (t ts : List Json) → IsValue t → IsPairs ts → IsPairs (string k ∷ t ++ ts)

hash_tokens-IsItems :
    (b58 : Base58) (algos : List Algo) (d : Digests) (ts : List Json)
    → hash_tokens b58 algos d ≡ ok ts
    → IsItems ts
unfolding hash_tokens
hash_tokens-IsItems b58 [] d ts e = let f : [] ≡ ts = cc in subst IsItems f no_item
hash_tokens-IsItems b58 (a ∷ rest) d ts e = elim (Bool-cases (length (digest_at d a) == 0)) [
  | inl empty ↦ hash_tokens-IsItems b58 rest d ts (rw empty at e)
  | inr there ↦
      let f = rw there at e in
      let (text, e0, f0) =
        >>=-eq-ok
          (hash_uri_format b58
            (some (record { type = link_prefix; algo = some a; buf = digest_at d a })) uri_max)
          _ f in
      let (more, e1, f1) = >>=-eq-ok (hash_tokens b58 rest d) _ f0 in
      let same : string text.0 ∷ more ≡ ts = cc in
      subst IsItems same
        (item (string text.0 ∷ []) more (a_string text.0) (hash_tokens-IsItems b58 rest d more e1))
]

closing : {A : Type 0} (hs : List A) (a b : A) → ((hs ++ a ∷ []) ++ []) ++ b ∷ [] ≡ hs ++ a ∷ b ∷ []
closing hs a b =
    ap (λ r. r ++ b ∷ []) (append-nil (hs ++ a ∷ [])) ∙ append_assoc hs (a ∷ []) (b ∷ [])

abbrev of_ok : Result (List Json) → List Json
of_ok (ok ts) = ts
of_ok (err e) = []

-- The tokens of a response up to its digests.
abbrev opened : Response → List Json → List Json
opened r rest =
    map_open
    ∷ string (codes "url")
    ∷ string r.url
    ∷ string (codes "timestamp")
    ∷ integer (to_long r.time)
    ∷ string (codes "status")
    ∷ integer r.status
    ∷ string (codes "type")
    ∷ string r.type
    ∷ string (codes "length")
    ∷ integer (to_long r.length)
    ∷ string (codes "hashes")
    ∷ array_open
    ∷ rest

pub res_json-IsValue :
    (b58 : Base58) (r : Response) (ts : List Json) → res_json b58 r ≡ ok ts → IsValue ts
unfolding res_json
res_json-IsValue b58 r ts e =
    let (hashes, e0, f0) = >>=-eq-ok (hash_tokens b58 all_algos r.digests) _ e in
    let items = hash_tokens-IsItems b58 all_algos r.digests hashes e0 in
    let last =
      pair (codes "hashes") (array_open ∷ hashes ++ array_close ∷ []) [] (an_array hashes items)
        no_pair in
    let all = pair (codes "url") (string r.url ∷ []) _ (a_string r.url) (
      pair (codes "timestamp") (integer (to_long r.time) ∷ []) _ (an_integer (to_long r.time)) (
        pair (codes "status") (integer r.status ∷ []) _ (an_integer r.status) (
          pair (codes "type") (string r.type ∷ []) _ (a_string r.type) (
            pair (codes "length") (integer (to_long r.length) ∷ []) _
              (an_integer (to_long r.length)) last)))) in
    subst IsValue (ap (opened r) (closing hashes array_close map_close) ∙ ap of_ok f0)
      (an_object _ all)

json_list-IsItems :
    (b58 : Base58) (rs : List Response) (ts : List Json) → json_list b58 rs ≡ ok ts → IsItems ts
unfolding json_list
json_list-IsItems b58 [] ts e = let f : [] ≡ ts = cc in subst IsItems f no_item
json_list-IsItems b58 (r ∷ rs) ts e =
    let (t, e0, f0) = >>=-eq-ok (res_json b58 r) _ e in
    let (more, e1, f1) = >>=-eq-ok (json_list b58 rs) _ f0 in
    subst IsItems (ap of_ok f1)
      (item t more (res_json-IsValue b58 r t e0) (json_list-IsItems b58 rs more e1))

abbrev events_of_ok : Result (List Event) → List Event
events_of_ok (ok es) = es
events_of_ok (err e) = []

-- A list of responses that is answered is one value of JSON behind the head of the answer: every array
-- and object is closed, and each key of an object has one value.
pub response_list-IsValue :
    (b58 : Base58) (rs : List Response) (es : List Event)
    → response_list b58 rs ≡ ok es
    → (ts : List Json) × (es ≡ head ++ (events ts ++ chunk_end ∷ end_message ∷ [])) × IsValue ts
unfolding response_list
response_list-IsValue b58 rs es e =
    let (ts, e0, f0) = >>=-eq-ok (json_list b58 rs) _ e in
    (
      array_open ∷ ts ++ array_close ∷ [],
      sym (ap events_of_ok f0),
      an_array ts (json_list-IsItems b58 rs ts e0),
    )
