-- ===== src/Hash/Uri/Laws.antt =====
-- Printing a parsed hash URI and parsing it again.
use hash_archive.Prelude.{
  ℕ, ◌-◌, ◌<◌, Bytes, ◌++◌, true, length, take, take_all, take-take, All, All-take, IsByte, codes,
  some, ◌≡◌, ◌≢◌, ◌↔◌, refl, arith,
}
use hash_archive.Error.{ok, err, overrun}
use hash_archive.Hash.Algo.{Algo, hash_algo_names, multihash_algo_encode}
use hash_archive.Hash.Hex.{hex_text}
use hash_archive.Hash.Hex.RoundTrip.{hex_encode-take}
use hash_archive.Hash.Base64.{std, url}
use hash_archive.Hash.Base64.RoundTrip.{b64_encode-take}
use hash_archive.Hash.Uri.Parse.{
  Link, link_none, link_raw, link_web_url, link_hash_uri, link_named_info, link_multihash,
  link_prefix, link_ssb, link_magnet, Base58, hash_uri_parse,
}
use hash_archive.Hash.Uri.Format.{
  uri_text, multihash_text, snprintf, hash_uri_format, hash_uri_normalize, hash_uri_variant,
  b58_encode,
}
use hash_archive.Hash.Uri.Decoded.{Digests-ok, parse-Digests}
use hash_archive.Hash.Uri.Written.{
  spelled, carried, uri, hash_uri_read, named_info_read, magnet_read, ssb_read, prefix_read,
}

-- The text of a spelled form, the digest that it is read as, and that this digest has the same text.
text_read :
    (b58 : Base58) (type : Link) (a : Algo) (buf : Bytes)
    → spelled type ≡ true
    → All IsByte buf
    → (text : Bytes) × (uri_text b58 type a buf ≡ ok text)
      × (uri_text b58 type a (take (carried type) buf) ≡ ok text)
      × (hash_uri_parse b58 (some text) ≡ ok (uri type a (take (carried type) buf)))
unfolding uri_text
text_read b58 link_hash_uri a buf s h =
    rw (hex_encode-take buf 129, hex_encode-take (take 64 buf) 129, take-take 64 buf)
      (_, refl, refl, hash_uri_read b58 a (take 64 buf) (All-take _ 64 buf h))
text_read b58 link_named_info a buf s h =
    rw (b64_encode-take url buf 87, b64_encode-take url (take 63 buf) 87, take-take 63 buf)
      (_, refl, refl, named_info_read b58 a (take 63 buf) (All-take _ 63 buf h))
text_read b58 link_prefix a buf s h =
    rw (b64_encode-take std buf 87, b64_encode-take std (take 63 buf) 87, take-take 63 buf)
      (_, refl, refl, prefix_read b58 a (take 63 buf) (All-take _ 63 buf h))
text_read b58 link_ssb a buf s h =
    rw (b64_encode-take std buf 87, b64_encode-take std (take 63 buf) 87, take-take 63 buf)
      (_, refl, refl, ssb_read b58 a (take 63 buf) (All-take _ 63 buf h))
text_read b58 link_magnet a buf s h =
    rw (hex_encode-take buf 129, hex_encode-take (take 64 buf) 129, take-take 64 buf)
      (_, refl, refl, magnet_read b58 a (take 64 buf) (All-take _ 64 buf h))
text_read b58 link_none a buf s h = cc
text_read b58 link_raw a buf s h = cc
text_read b58 link_web_url a buf s h = cc
text_read b58 link_multihash a buf s h = cc

-- What an uncut print holds.
uncut : {max n : ℕ} {t text : Bytes} → snprintf max t ≡ ok (text, n) → n < max → text ≡ t
unfolding snprintf
uncut {max} {n} {t} {text} e h =
    let k : take (max - 1) t ≡ t = take_all (max - 1) t (ground arith) in ground (arith, k)

-- A hash URI of known algorithm, in any form but the multihash, printed into a buffer that has room
-- for its text, is parsed back with the same form, the same algorithm, and the first 64 bytes of its
-- digest in the forms that write hexadecimal, the first 63 in the forms that write base64.
pub parse-format :
    (b58 : Base58) (type : Link) (a : Algo) (buf text : Bytes) (n max : ℕ)
    → spelled type ≡ true
    → All IsByte buf
    → hash_uri_format b58 (some (uri type a buf)) max ≡ ok (text, n)
    → n < max
    → hash_uri_parse b58 (some text) ≡ ok (uri type a (take (carried type) buf))
unfolding hash_uri_format
parse-format b58 type a buf text n max s h e fits =
    let (t, printed, again, read) = text_read b58 type a buf s h in
    let e' = rw (printed) at e in rw (uncut {t = t} e' fits) read

-- The text that `hash_uri_normalize` returns for a URI in a spelled form, where the buffer has room
-- for it, is normalized to itself, even if the digest was cut.
pub normalize_again :
    (b58 : Base58) (s text : Bytes) (type : Link) (a : Algo) (buf : Bytes) (n max : ℕ)
    → hash_uri_parse b58 (some s) ≡ ok (uri type a buf)
    → spelled type ≡ true
    → hash_uri_format b58 (some (uri type a buf)) max ≡ ok (text, n)
    → n < max
    → hash_uri_normalize b58 (some text) max ≡ ok text
unfolding hash_uri_normalize hash_uri_format snprintf
normalize_again b58 s text type a buf n max parsed sp e fits =
    let h = Digests-ok (uri type a buf) (parse-Digests b58 (some s)) parsed sp in
    let (t, printed, again, read) = text_read b58 type a buf sp h in
    let e' = rw (printed) at e in
    let same : text ≡ t = uncut {t = t} e' fits in rw (same, read, again) (ground (arith, e', same))

-- No parser bounds a digest: whatever the length of a digest, its `hash://` URI is parsed. The
-- multihash of the parsed URI is then written past the printer's buffer exactly when the digest is
-- longer than 64 bytes, for the algorithms that have a multihash.
pub parse_then_overrun :
    (b58 : Base58) (a : Algo) (buf : Bytes) (max : ℕ)
    → All IsByte buf
    → multihash_algo_encode a ≢ 0
    → (hash_uri_parse b58
          (some (codes "hash://" ++ (hash_algo_names a ++ (codes "/" ++ hex_text buf))))
        ≡ ok (uri link_hash_uri a buf))
      × ((hash_uri_variant b58 (uri link_hash_uri a buf) link_multihash max ≡ err overrun)
          ↔ (64 < length buf))
unfolding hash_uri_variant hash_uri_format uri_text multihash_text snprintf b58_encode
parse_then_overrun b58 a buf max h known =
    (hash_uri_read b58 a buf h, (λ e. ground arith, λ long. ground arith))
