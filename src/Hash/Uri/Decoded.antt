-- ===== src/Hash/Uri/Decoded.antt =====
-- Whatever the decoders accept, they return bytes, and so does a parser.
use hash_archive.Prelude.{
  ℕ, zero, suc, ◌-◌, Bytes, [], ◌∷◌, All, IsByte, Option, none, some, ◌≡◌, refl, arith, Bool, true,
  false, subst, if◌then◌else◌,
}
use hash_archive.Error.{Error, Result, ok, err, ◌>>=◌, non_null, or_else}
use hash_archive.Hash.Hex.{hex_char, hex_byte, hex_decode}
use hash_archive.Hash.Base64.{join, b64_round, b64_decode}
use hash_archive.Hash.Algo.{Algo, sha1, sha256, sha512}
use hash_archive.Hash.Uri.Written.{spelled}
use hash_archive.Hash.Uri.Parse.{
  HashUri, Link, link_multihash, Base58, hex_decode_copy, b64_decode_copy, multihash_of,
  hash_uri_parse, hash_uri_parse_hash_uri, hash_uri_parse_named_info, hash_uri_parse_ssb,
  hash_uri_parse_magnet, hash_uri_parse_prefix, hash_uri_parse_multihash,
}

-- The bytes of a result, if it is one.
pub data Yields : Result Bytes → Type 0 where
  yields : {out : Bytes} → All IsByte out → Yields (ok out)
  fails : {e : Error} → Yields (err e)

pub Yields-ok : {r : Result Bytes} (out : Bytes) → Yields r → r ≡ ok out → All IsByte out
Yields-ok out (yields h) e = subst (All IsByte) (cc) h
Yields-ok out fails e = cc

hex_byte-IsByte : (hi lo : ℕ) → IsByte (hex_byte hi lo)
unfolding hex_byte
hex_byte-IsByte hi lo = omega arith

join-IsByte : (hi lo : ℕ) → IsByte (join hi lo)
unfolding join
join-IsByte hi lo = omega arith

hex_bind-Yields :
    (a b : Result ℕ) (more : Result Bytes)
    → Yields more
    → Yields (a >>= λ hi. b >>= λ lo. more >>= λ out. ok (hex_byte hi lo ∷ out))
hex_bind-Yields (err e) b more h = fails
hex_bind-Yields (ok hi) (err e) more h = fails
hex_bind-Yields (ok hi) (ok lo) (err e) h = fails
hex_bind-Yields (ok hi) (ok lo) (ok out) h = yields (hex_byte-IsByte hi lo, Yields-ok out h refl)

if-Yields : (c : Bool) (r s : Result Bytes) → Yields r → Yields s → Yields (if c then r else s)
if-Yields true r s hr hs = hr
if-Yields false r s hr hs = hs

pub hex_decode-Yields : (str : Bytes) (len max : ℕ) → Yields (hex_decode str len max)
unfolding hex_decode
hex_decode-Yields [] len max = yields tt
hex_decode-Yields (a ∷ []) len max = yields tt
hex_decode-Yields (a ∷ b ∷ str) len zero = yields tt
hex_decode-Yields (a ∷ b ∷ str) len (suc max) =
    if-Yields _ _ _ (yields tt)
      (hex_bind-Yields (hex_char a) (hex_char b) _ (hex_decode-Yields str (len - 2) max))

char-Yields : (r : Result ℕ) (f : ℕ → Result Bytes) → ((s : ℕ) → Yields (f s)) → Yields (r >>= f)
char-Yields (ok s) f h = h s
char-Yields (err e) f h = fails

b64_last-Yields :
    (p q r t u v : ℕ) (more : Result Bytes)
    → Yields more
    → Yields (more >>= λ out. ok (join p q ∷ join r t ∷ join u v ∷ out))
b64_last-Yields p q r t u v (ok out) h =
    yields (join-IsByte p q, (join-IsByte r t, (join-IsByte u v, Yields-ok out h refl)))
b64_last-Yields p q r t u v (err e) h = fails

none-Yields : Yields (ok [])
none-Yields = yields tt

one-Yields : (hi lo : ℕ) → Yields (ok (join hi lo ∷ []))
one-Yields hi lo = yields (join-IsByte hi lo, tt)

two-Yields : (hi lo hi' lo' : ℕ) → Yields (ok (join hi lo ∷ join hi' lo' ∷ []))
two-Yields hi lo hi' lo' = yields (join-IsByte hi lo, (join-IsByte hi' lo', tt))

ruleset yields_rules =
    (if-Yields, char-Yields, none-Yields, one-Yields, two-Yields, b64_last-Yields)

b64_round-Yields :
    (str : Bytes) (len max : ℕ) (more : Result Bytes)
    → Yields more
    → Yields (b64_round str len max more)
unfolding b64_round
b64_round-Yields str len max more h = search yields_rules depth 12

pub b64_decode-Yields : (str : Bytes) (len max : ℕ) → Yields (b64_decode str len max)
unfolding b64_decode
b64_decode-Yields [] len max = b64_round-Yields _ _ _ _ (yields tt)
b64_decode-Yields (a ∷ []) len max = b64_round-Yields _ _ _ _ (yields tt)
b64_decode-Yields (a ∷ b ∷ []) len max = b64_round-Yields _ _ _ _ (yields tt)
b64_decode-Yields (a ∷ b ∷ c ∷ []) len max = b64_round-Yields _ _ _ _ (yields tt)
b64_decode-Yields (a ∷ b ∷ c ∷ d ∷ str) len max =
    b64_round-Yields _ _ _ _ (b64_decode-Yields str (len - 4) (max - 3))

-- The digest of a parsed hash URI is made of bytes, in the forms that spell it out.
pub data Digests : Result HashUri → Type 0 where
  digests : {obj : HashUri} → (spelled obj.type ≡ true → All IsByte obj.buf) → Digests (ok obj)
  no_digest : {e : Error} → Digests (err e)

pub Digests-ok :
    {r : Result HashUri} (obj : HashUri)
    → Digests r
    → r ≡ ok obj
    → spelled obj.type ≡ true
    → All IsByte obj.buf
Digests-ok obj (digests {obj = o} h) e =
    subst (λ (x : HashUri). spelled x.type ≡ true → All IsByte x.buf) {x = o} {y = obj} (cc) h
Digests-ok obj no_digest e = cc

decoded-Digests :
    (r : Result Bytes) (type : Link) (a : Option Algo)
    → Yields r
    → Digests (r >>= λ buf. ok (record { type = type; algo = a; buf = buf }))
decoded-Digests (ok out) type a h = digests (λ _. Yields-ok out h refl)
decoded-Digests (err x) type a h = no_digest

non_null-Digests {ℓ} :
    {A : Type ℓ} (o : Option A) (e : Error) (f : A → Result HashUri)
    → ((a : A) → Digests (f a))
    → Digests (non_null o e >>= f)
non_null-Digests none e f h = no_digest
non_null-Digests (some a) e f h = h a

or_else-Digests : (r s : Result HashUri) → Digests r → Digests s → Digests (or_else r s)
or_else-Digests (ok obj) s h k = h
or_else-Digests (err e) s h k = k

if-Digests :
    (c : Bool) (r s : Result HashUri) → Digests r → Digests s → Digests (if c then r else s)
if-Digests true r s h k = h
if-Digests false r s h k = k

mh-Digests :
    (a : Algo) (d : Bytes) → Digests (ok (record { type = link_multihash; algo = some a; buf = d }))
mh-Digests a d = digests (λ e. cc)

multihash_of-Digests : (r : Result Bytes) → Digests (r >>= λ tmp. multihash_of tmp)
unfolding multihash_of
multihash_of-Digests (err e) = no_digest
multihash_of-Digests (ok []) = no_digest
multihash_of-Digests (ok (c ∷ [])) = no_digest
multihash_of-Digests (ok (c ∷ n ∷ d)) =
    if-Digests _ _ _ (mh-Digests sha1 d)
      (if-Digests _ _ _ (mh-Digests sha256 d) (if-Digests _ _ _ (mh-Digests sha512 d) no_digest))

ruleset digest_rules = (
  or_else-Digests, non_null-Digests, decoded-Digests, multihash_of-Digests, hex_decode-Yields,
  b64_decode-Yields,
)

pub parse-Digests : (b58 : Base58) (uri : Option Bytes) → Digests (hash_uri_parse b58 uri)
unfolding hash_uri_parse hash_uri_parse_hash_uri hash_uri_parse_named_info hash_uri_parse_ssb
    hash_uri_parse_magnet hash_uri_parse_prefix hash_uri_parse_multihash hex_decode_copy
    b64_decode_copy
parse-Digests b58 uri = search digest_rules depth 12
