-- ===== src/Hash/Uri/Format.antt =====
-- `hash_uri_format`, `hash_uri_normalize` and `hash_uri_variant` of src/util/hash.c. A printer returns
-- what it leaves in `out` and the return value of `snprintf`, the length of the whole text.
use hash_archive.Prelude.{
  ℕ, ◌+◌, ◌*◌, ◌/◌, Bytes, ◌∷◌, ◌++◌, Option, some, codes, fit, length, ltb, ◌==◌, if◌then◌else◌,
}
use hash_archive.Error.{einval, hash_enotsup, overrun, aborted, Result, ok, err, ◌>>=◌, non_null}
use hash_archive.Hash.Algo.{
  Algo, hash_algo_names, hash_algo_digest_len, hash_digest_max, multihash_algo_encode,
}
use hash_archive.Hash.Hex.{hex_encode}
use hash_archive.Hash.Base64.{std, url, b64_encode}
use hash_archive.Hash.Uri.Parse.{
  Link, link_hash_uri, link_named_info, link_multihash, link_prefix, link_ssb, link_magnet, HashUri,
  Base58, hash_uri_parse,
}

-- The sizes of the local buffers.
abbrev pub hex_size : ℕ
hex_size = hash_digest_max * 8 / 4 + 1

abbrev pub b64_size : ℕ
b64_size = hash_digest_max * 8 / 6 + 1 + 1

abbrev pub b58_size : ℕ
b58_size = (2 + hash_digest_max) * 8 / 5 + 1 + 1

unfoldable pub snprintf : ℕ → Bytes → Result (Bytes × ℕ)
snprintf max s = ok (fit max s, length s)

unfoldable pub b58_encode : Base58 → Bytes → ℕ → Result Bytes
b58_encode b58 buf max = non_null (b58.encode buf max) aborted

-- `memcpy(tmp+2, obj->buf, obj->len)` writes into 2+HASH_DIGEST_MAX bytes. The source does not test the
-- length: `overrun` stands for the write past the end, after which nothing is defined.
unfoldable pub multihash_text : Base58 → Algo → Bytes → Result Bytes
multihash_text b58 algo buf =
    if multihash_algo_encode algo == 0
    then err hash_enotsup
    else if ltb hash_digest_max (length buf)
    then err overrun
    else b58_encode b58 (multihash_algo_encode algo ∷ hash_algo_digest_len algo ∷ buf) b58_size

-- The text of each case of the switch, before it is cut to the caller's buffer.
unfoldable pub uri_text : Base58 → Link → Algo → Bytes → Result Bytes
uri_text b58 link_hash_uri algo buf =
    ok (codes "hash://" ++ (hash_algo_names algo ++ (codes "/" ++ hex_encode buf hex_size)))
uri_text b58 link_named_info algo buf =
    ok (codes "ni:///" ++ (hash_algo_names algo ++ (codes ";" ++ b64_encode url buf b64_size)))
uri_text b58 link_multihash algo buf = multihash_text b58 algo buf
uri_text b58 link_prefix algo buf =
    ok (hash_algo_names algo ++ (codes "-" ++ b64_encode std buf b64_size))
uri_text b58 link_ssb algo buf =
    ok (codes "&" ++ (b64_encode std buf b64_size ++ (codes "." ++ hash_algo_names algo)))
uri_text b58 link_magnet algo buf =
    ok (codes "magnet:?xt=urn:" ++ (hash_algo_names algo ++ (codes ":" ++ hex_encode buf hex_size)))
uri_text b58 _ algo buf = err hash_enotsup

unfoldable pub hash_uri_format : Base58 → Option HashUri → ℕ → Result (Bytes × ℕ)
hash_uri_format b58 obj max = non_null obj einval >>= λ o.
    non_null o.algo einval >>= λ algo. uri_text b58 o.type algo o.buf >>= λ text. snprintf max text

unfoldable pub hash_uri_normalize : Base58 → Option Bytes → ℕ → Result Bytes
hash_uri_normalize b58 uri max =
    hash_uri_parse b58 uri >>= λ obj. hash_uri_format b58 (some obj) max >>= λ printed. ok printed.0

unfoldable pub hash_uri_variant : Base58 → HashUri → Link → ℕ → Result Bytes
hash_uri_variant b58 obj type max =
    hash_uri_format b58 (some (record obj { type = type })) max >>= λ printed. ok printed.0
