-- ===== src/Hash/Uri/Parse.antt =====
-- `hash_uri_t` and the parsers of src/util/hash.c. A buffer carries its length, and `malloc` does not
-- fail. What a parser that fails leaves in `out` is overwritten by the next, and used by nobody.
use hash_archive.Prelude.{
  ℕ, ◌+◌, ◌*◌, ◌/◌, Bytes, [], ◌∷◌, Option, some, length, min, ◌==◌, if◌then◌else◌,
}
use hash_archive.Error.{einval, hash_eparse, Result, ok, err, ◌>>=◌, or_else, non_null}
use hash_archive.Hash.Algo.{Algo, sha1, sha256, sha512, hash_algo_parse, hash_digest_max}
use hash_archive.Hash.Hex.{hex_decode}
use hash_archive.Hash.Base64.{b64_decode}
use hash_archive.Hash.Uri.Match.{
  match_hash_uri, match_prefix, match_named_info, match_ssb, match_multihash, match_magnet,
}

-- `hash_uri_type`
pub data Link : Type 0 where
  link_none link_raw link_web_url link_hash_uri link_named_info link_multihash : Link
  link_prefix link_ssb link_magnet : Link

-- `hash_uri_t`
pub record HashUri : Type 0 where
  pub type : Link
  pub algo : Option Algo
  pub buf : Bytes

-- libbase58: `encode buf max` is the text that `b58enc` writes into `max` bytes, `decode str size` the
-- bytes that `b58tobin` returns for the size `size`; `none` is a failure.
pub record Base58 : Type 0 where
  pub encode : Bytes → ℕ → Option Bytes
  pub decode : Bytes → ℕ → Option Bytes

-- The text has no terminator in it, so `strnlen(str, len)` is its length.
unfoldable pub hex_decode_copy : Bytes → Result Bytes
hex_decode_copy str = hex_decode str (length str) (length str * 4 / 8 + 1)

unfoldable pub b64_decode_copy : Bytes → Result Bytes
b64_decode_copy str = b64_decode str (length str) (length str * 6 / 8 + 1)

unfoldable pub b58_decode : Base58 → Bytes → ℕ → Result Bytes
b58_decode b58 str max = non_null (b58.decode str (min max (length str * 6 / 8))) hash_eparse

unfoldable pub hash_uri_parse_hash_uri : Option Bytes → Result HashUri
hash_uri_parse_hash_uri uri = non_null uri einval >>= λ s.
    non_null (match_hash_uri s) hash_eparse >>= λ m. hex_decode_copy m.1 >>= λ buf.
    ok (record { type = link_hash_uri; algo = hash_algo_parse m.0; buf = buf })

unfoldable pub hash_uri_parse_prefix : Option Bytes → Result HashUri
hash_uri_parse_prefix uri = non_null uri einval >>= λ s.
    non_null (match_prefix s) hash_eparse >>= λ m. b64_decode_copy m.1 >>= λ buf.
    ok (record { type = link_prefix; algo = hash_algo_parse m.0; buf = buf })

unfoldable pub hash_uri_parse_named_info : Option Bytes → Result HashUri
hash_uri_parse_named_info uri = non_null uri einval >>= λ s.
    non_null (match_named_info s) hash_eparse >>= λ m. b64_decode_copy m.1 >>= λ buf.
    ok (record { type = link_named_info; algo = hash_algo_parse m.0; buf = buf })

-- The switch on `tmp[0]`. The length byte `tmp[1]` is not looked at.
unfoldable pub multihash_of : Bytes → Result HashUri
multihash_of [] = err hash_eparse
multihash_of (code ∷ []) = err hash_eparse
multihash_of (code ∷ size ∷ digest) =
    if code == 0x11
    then ok (record { type = link_multihash; algo = some sha1; buf = digest })
    else if code == 0x12
    then ok (record { type = link_multihash; algo = some sha256; buf = digest })
    else if code == 0x13
    then ok (record { type = link_multihash; algo = some sha512; buf = digest })
    else err hash_eparse

unfoldable pub hash_uri_parse_multihash : Base58 → Option Bytes → Result HashUri
hash_uri_parse_multihash b58 uri = non_null uri einval >>= λ s.
    non_null (match_multihash s) hash_eparse >>= λ m.
    b58_decode b58 m (2 + hash_digest_max) >>= λ tmp. multihash_of tmp

unfoldable pub hash_uri_parse_ssb : Option Bytes → Result HashUri
hash_uri_parse_ssb uri = non_null uri einval >>= λ s. non_null (match_ssb s) hash_eparse >>= λ m.
    b64_decode_copy m.0 >>= λ buf.
    ok (record { type = link_ssb; algo = hash_algo_parse m.1; buf = buf })

unfoldable pub hash_uri_parse_magnet : Option Bytes → Result HashUri
hash_uri_parse_magnet uri = non_null uri einval >>= λ s.
    non_null (match_magnet s) hash_eparse >>= λ m. hex_decode_copy m.1 >>= λ buf.
    ok (record { type = link_magnet; algo = hash_algo_parse m.0; buf = buf })

-- From the most specific form to the most generic; the first that succeeds decides, and if none does
-- the code of the last is returned.
unfoldable pub hash_uri_parse : Base58 → Option Bytes → Result HashUri
hash_uri_parse b58 uri = or_else (hash_uri_parse_hash_uri uri) (
    or_else (hash_uri_parse_named_info uri) (
      or_else (hash_uri_parse_ssb uri) (
        or_else (hash_uri_parse_magnet uri)
          (or_else (hash_uri_parse_prefix uri) (hash_uri_parse_multihash b58 uri)))))
