-- ===== src/Page/Sources/Link.antt =====
-- The link of a page's own hash: every form that the parsers return has one.
use hash_archive.Prelude.{
  ◌+◌, Bool, true, false, Bytes, List, [], ◌∷◌, ◌++◌, Option, some, codes, ◌==◌, if◌then◌else◌, ◌≡◌,
  refl, ap, subst,
}
use hash_archive.Error.{einval, hash_eparse, Result, ok, err, >>=-eq-ok, non_null, or_else}
use hash_archive.Hash.Algo.{sha1, sha256, sha512, hash_digest_max}
use hash_archive.Hash.Uri.Match.{
  match_hash_uri, match_prefix, match_named_info, match_ssb, match_multihash, match_magnet,
}
use hash_archive.Hash.Uri.Parse.{
  Link, link_hash_uri, link_named_info, link_multihash, link_prefix, link_ssb, link_magnet, HashUri,
  Base58, hex_decode_copy, b64_decode_copy, b58_decode, multihash_of, hash_uri_parse,
  hash_uri_parse_hash_uri, hash_uri_parse_prefix, hash_uri_parse_named_info,
  hash_uri_parse_multihash, hash_uri_parse_ssb, hash_uri_parse_magnet,
}
use hash_archive.Html.Laws.{escaped, html_encode-escaped}
use hash_archive.Page.{direct_text, direct_link_html}
use hash_archive.Page.Args.{ipfs_url_of, sources_args}

-- The types that a parser returns.
pub data IsParsed : Link → Type 0 where
  of_hash_uri : IsParsed link_hash_uri
  of_named_info : IsParsed link_named_info
  of_multihash : IsParsed link_multihash
  of_prefix : IsParsed link_prefix
  of_ssb : IsParsed link_ssb
  of_magnet : IsParsed link_magnet

abbrev type_of : Result HashUri → Link → Link
type_of (ok obj) t = HashUri.type obj
type_of (err e) t = t

typed :
    (t : Link) (r obj : HashUri)
    → ok r ≡ ok obj
    → IsParsed (HashUri.type r)
    → IsParsed (HashUri.type obj)
typed t r obj e h = subst IsParsed (ap (λ x. type_of x t) e) h

abbrev Returns : Result HashUri → Type 0
Returns m = (obj : HashUri) → m ≡ ok obj → IsParsed (HashUri.type obj)

Returns-or_else : (m k : Result HashUri) → Returns m → Returns k → Returns (or_else m k)
Returns-or_else (ok a) k h more = h
Returns-or_else (err e) k h more = more

Returns-multihash_of : (s : Bytes) → Returns (multihash_of s)
unfolding multihash_of
Returns-multihash_of [] obj e = cc
Returns-multihash_of (code ∷ []) obj e = cc
Returns-multihash_of (code ∷ size ∷ digest) obj e =
    by_code (code == 0x11) (code == 0x12) (code == 0x13) e
  where
    by_code :
        (a b c : Bool)
        → (if a
            then ok (record { type = link_multihash; algo = some sha1; buf = digest })
            else if b
            then ok (record { type = link_multihash; algo = some sha256; buf = digest })
            else if c
            then ok (record { type = link_multihash; algo = some sha512; buf = digest })
            else err hash_eparse)
          ≡ ok obj
        → IsParsed (HashUri.type obj)
    by_code true b c f = typed link_multihash _ obj f of_multihash
    by_code false true c f = typed link_multihash _ obj f of_multihash
    by_code false false true f = typed link_multihash _ obj f of_multihash
    by_code false false false f = cc

Returns-hash_uri : (uri : Option Bytes) → Returns (hash_uri_parse_hash_uri uri)
unfolding hash_uri_parse_hash_uri
Returns-hash_uri uri obj e =
    let (s, e0, f0) = >>=-eq-ok (non_null uri einval) _ e in
    let (m, e1, f1) = >>=-eq-ok (non_null (match_hash_uri s) hash_eparse) _ f0 in
    let (buf, e2, f2) = >>=-eq-ok (hex_decode_copy m.1) _ f1 in
    typed link_hash_uri _ obj f2 of_hash_uri

Returns-prefix : (uri : Option Bytes) → Returns (hash_uri_parse_prefix uri)
unfolding hash_uri_parse_prefix
Returns-prefix uri obj e =
    let (s, e0, f0) = >>=-eq-ok (non_null uri einval) _ e in
    let (m, e1, f1) = >>=-eq-ok (non_null (match_prefix s) hash_eparse) _ f0 in
    let (buf, e2, f2) = >>=-eq-ok (b64_decode_copy m.1) _ f1 in typed link_prefix _ obj f2 of_prefix

Returns-named_info : (uri : Option Bytes) → Returns (hash_uri_parse_named_info uri)
unfolding hash_uri_parse_named_info
Returns-named_info uri obj e =
    let (s, e0, f0) = >>=-eq-ok (non_null uri einval) _ e in
    let (m, e1, f1) = >>=-eq-ok (non_null (match_named_info s) hash_eparse) _ f0 in
    let (buf, e2, f2) = >>=-eq-ok (b64_decode_copy m.1) _ f1 in
    typed link_named_info _ obj f2 of_named_info

Returns-ssb : (uri : Option Bytes) → Returns (hash_uri_parse_ssb uri)
unfolding hash_uri_parse_ssb
Returns-ssb uri obj e =
    let (s, e0, f0) = >>=-eq-ok (non_null uri einval) _ e in
    let (m, e1, f1) = >>=-eq-ok (non_null (match_ssb s) hash_eparse) _ f0 in
    let (buf, e2, f2) = >>=-eq-ok (b64_decode_copy m.0) _ f1 in typed link_ssb _ obj f2 of_ssb

Returns-magnet : (uri : Option Bytes) → Returns (hash_uri_parse_magnet uri)
unfolding hash_uri_parse_magnet
Returns-magnet uri obj e =
    let (s, e0, f0) = >>=-eq-ok (non_null uri einval) _ e in
    let (m, e1, f1) = >>=-eq-ok (non_null (match_magnet s) hash_eparse) _ f0 in
    let (buf, e2, f2) = >>=-eq-ok (hex_decode_copy m.1) _ f1 in typed link_magnet _ obj f2 of_magnet

Returns-multihash : (b58 : Base58) (uri : Option Bytes) → Returns (hash_uri_parse_multihash b58 uri)
unfolding hash_uri_parse_multihash
Returns-multihash b58 uri obj e =
    let (s, e0, f0) = >>=-eq-ok (non_null uri einval) _ e in
    let (m, e1, f1) = >>=-eq-ok (non_null (match_multihash s) hash_eparse) _ f0 in
    let (tmp, e2, f2) = >>=-eq-ok (b58_decode b58 m (2 + hash_digest_max)) _ f1 in
    Returns-multihash_of tmp obj f2

pub hash_uri_parse-IsParsed :
    (b58 : Base58) (uri : Option Bytes) (obj : HashUri)
    → hash_uri_parse b58 uri ≡ ok obj
    → IsParsed (HashUri.type obj)
unfolding hash_uri_parse
hash_uri_parse-IsParsed b58 uri =
    Returns-or_else (hash_uri_parse_hash_uri uri) _ (Returns-hash_uri uri) (
      Returns-or_else (hash_uri_parse_named_info uri) _ (Returns-named_info uri) (
        Returns-or_else (hash_uri_parse_ssb uri) _ (Returns-ssb uri) (
          Returns-or_else (hash_uri_parse_magnet uri) _ (Returns-magnet uri) (
            Returns-or_else (hash_uri_parse_prefix uri) _ (Returns-prefix uri)
              (Returns-multihash b58 uri)))))

-- The link of a form that leads out, or only names the hash.
unfoldable pub own_link : Link → Bytes → Bytes
own_link link_multihash e = codes "<span>" ++ (e ++ codes "</span>")
own_link link_prefix e = codes "<span>" ++ (e ++ codes "</span>")
own_link link_ssb e = codes "<span>" ++ (e ++ codes "</span>")
own_link t e = codes "<a href=\"" ++ (e ++ (codes "\" rel=\"nofollow\">" ++ (e ++ codes "</a>")))

own_link_lem : (t : Link) (e : Bytes) → IsParsed t → direct_text t e ≡ ok (own_link t e)
unfolding direct_text own_link
own_link_lem t e of_hash_uri = refl
own_link_lem t e of_named_info = refl
own_link_lem t e of_multihash = refl
own_link_lem t e of_prefix = refl
own_link_lem t e of_ssb = refl
own_link_lem t e of_magnet = refl

-- The values that a hash URI gives, with the hexadecimal text and the multihash of its digest.
unfoldable pub sources_values : Bytes → Link → Bytes → Bytes → List (Bytes × Option Bytes)
sources_values uri type hex multihash =
    (codes "query", some (escaped uri))
    ∷ (codes "hash-link", some (own_link type (escaped uri)))
    ∷ (codes "google-url", some (codes "https://www.google.com/search?q=" ++ hex))
    ∷ (codes "duckduckgo-url", some (codes "https://duckduckgo.com/?q=" ++ hex))
    ∷ (codes "ipfs-block-url", some (ipfs_url_of multihash))
    ∷ (
      codes "virustotal-url",
      some (codes "https://www.virustotal.com/en/file/" ++ (hex ++ codes "/analysis/")),
    )
    ∷ []

pub sources_args_lem :
    (uri hex multihash : Bytes) (type : Link)
    → IsParsed type
    → sources_args uri type hex multihash ≡ ok (sources_values uri type hex multihash)
unfolding sources_args sources_values direct_link_html
sources_args_lem uri hex multihash type h =
    rw (html_encode-escaped uri, own_link_lem type (escaped uri) h) refl
