-- ===== src/Hash/Uri/Written.antt =====
-- The text of each form is read back as the digest that it spells.
use hash_archive.Prelude.{
  ℕ, Bytes, ◌++◌, Bool, true, false, All, All-mono, All-append, inl, inr, one_of, IsByte, codes,
  strip, strip_case, some, ◌≡◌, refl, arith,
}
use hash_archive.Error.{hash_eparse, ok, err}
use hash_archive.Hash.Algo.{Algo, md5, sha1, sha256, sha384, sha512, hash_algo_names, parse-names}
use hash_archive.Hash.Hex.{hex_text}
use hash_archive.Hash.Hex.RoundTrip.{hex_text-alnum}
use hash_archive.Hash.Base64.{std, url, b64_text}
use hash_archive.Hash.Base64.Text.{body, pad, body-Written, b64_text-std, b64_text-url, pad_cases}
use hash_archive.Hash.Uri.Parse.{
  Link, link_hash_uri, link_named_info, link_prefix, link_ssb, link_magnet, HashUri, Base58,
  hash_uri_parse, hash_uri_parse_hash_uri, hash_uri_parse_named_info, hash_uri_parse_ssb,
  hash_uri_parse_magnet, hash_uri_parse_prefix,
}
use hash_archive.Hash.Uri.Match.{
  match_hash_uri, match_named_info, match_ssb, match_magnet, named_char, prefix_char, ssb_char,
}
use hash_archive.Hash.Uri.Codec.{hex_decode_copy-hex_text, b64_decode_copy-b64_text}
use hash_archive.Hash.Uri.RoundTrip.{
  match_hash_uri_text, match_named_info_text, match_prefix_text, match_magnet_text, match_ssb_text,
}

-- The forms that spell the digest out: all that are printed but the multihash.
abbrev pub spelled : Link → Bool
spelled link_hash_uri = true
spelled link_named_info = true
spelled link_prefix = true
spelled link_ssb = true
spelled link_magnet = true
spelled _ = false

-- How many bytes of a digest the printer's local buffer has room for.
abbrev pub carried : Link → ℕ
carried link_hash_uri = 64
carried link_magnet = 64
carried _ = 63

abbrev pub uri : Link → Algo → Bytes → HashUri
uri type a buf = record { type = type; algo = some a; buf = buf }

url_text-named : (buf : Bytes) → All IsByte buf → All (λ c. named_char c ≡ true) (b64_text url buf)
url_text-named buf h = rw (b64_text-url buf) (body-Written url buf h)

pad_char : (c : ℕ) → (c ≡ b'=') → prefix_char c ≡ true
unfolding one_of
pad_char c e = ground arith

std_char : (c : ℕ) → ssb_char c ≡ true → prefix_char c ≡ true
unfolding one_of
std_char c e = ground arith

pad-prefix : (buf : Bytes) → All (λ c. prefix_char c ≡ true) (pad buf)
pad-prefix buf = elim (pad_cases buf) [
  | inl e ↦ rw e tt
  | inr (inl e) ↦ rw e (pad_char b'=' refl, tt)
  | inr (inr e) ↦ rw e (pad_char b'=' refl, (pad_char b'=' refl, tt))
]

std_text-prefix :
    (buf : Bytes) → All IsByte buf → All (λ c. prefix_char c ≡ true) (b64_text std buf)
std_text-prefix buf h = rw (b64_text-std buf) (
    All-append _ (body std buf) (pad buf) (All-mono _ _ std_char _ (body-Written std buf h))
      (pad-prefix buf))

pub hash_uri_read :
    (b58 : Base58) (a : Algo) (buf : Bytes)
    → All IsByte buf
    → hash_uri_parse b58
        (some (codes "hash://" ++ (hash_algo_names a ++ (codes "/" ++ hex_text buf))))
      ≡ ok (uri link_hash_uri a buf)
unfolding hash_uri_parse hash_uri_parse_hash_uri
hash_uri_read b58 a buf h = rw (
  match_hash_uri_text a (hex_text buf) (hex_text-alnum buf h),
  hex_decode_copy-hex_text buf h,
  parse-names a,
)

pub named_info_read :
    (b58 : Base58) (a : Algo) (buf : Bytes)
    → All IsByte buf
    → hash_uri_parse b58
        (some (codes "ni:///" ++ (hash_algo_names a ++ (codes ";" ++ b64_text url buf))))
      ≡ ok (uri link_named_info a buf)
unfolding hash_uri_parse hash_uri_parse_hash_uri hash_uri_parse_named_info match_hash_uri strip_case
named_info_read b58 a buf h = rw (
  match_named_info_text a (b64_text url buf) (url_text-named buf h),
  b64_decode_copy-b64_text url buf h,
  parse-names a,
)

pub magnet_read :
    (b58 : Base58) (a : Algo) (buf : Bytes)
    → All IsByte buf
    → hash_uri_parse b58
        (some (codes "magnet:?xt=urn:" ++ (hash_algo_names a ++ (codes ":" ++ hex_text buf))))
      ≡ ok (uri link_magnet a buf)
unfolding hash_uri_parse hash_uri_parse_hash_uri hash_uri_parse_named_info hash_uri_parse_ssb
    hash_uri_parse_magnet match_hash_uri match_named_info match_ssb strip_case strip
magnet_read b58 a buf h = rw (
  match_magnet_text a (hex_text buf) (hex_text-alnum buf h),
  hex_decode_copy-hex_text buf h,
  parse-names a,
)

pub ssb_read :
    (b58 : Base58) (a : Algo) (buf : Bytes)
    → All IsByte buf
    → hash_uri_parse b58
        (some (codes "&" ++ (b64_text std buf ++ (codes "." ++ hash_algo_names a))))
      ≡ ok (uri link_ssb a buf)
unfolding hash_uri_parse hash_uri_parse_hash_uri hash_uri_parse_named_info hash_uri_parse_ssb
    match_hash_uri match_named_info strip_case
ssb_read b58 a buf h =
    let d = rw (b64_text-std buf) at (b64_decode_copy-b64_text std buf h) in
    rw (
      b64_text-std buf,
      match_ssb_text a (body std buf) (pad buf) (body-Written std buf h) (pad_cases buf),
      d,
      parse-names a,
    )

-- None of the more specific forms begins as the name of an algorithm does.
names_not_specific :
    (a : Algo) (s : Bytes)
    → (hash_uri_parse_hash_uri (some (hash_algo_names a ++ s)) ≡ err hash_eparse)
      × (hash_uri_parse_named_info (some (hash_algo_names a ++ s)) ≡ err hash_eparse)
      × (hash_uri_parse_ssb (some (hash_algo_names a ++ s)) ≡ err hash_eparse)
      × (hash_uri_parse_magnet (some (hash_algo_names a ++ s)) ≡ err hash_eparse)
unfolding hash_algo_names hash_uri_parse_hash_uri hash_uri_parse_named_info hash_uri_parse_ssb
    hash_uri_parse_magnet match_hash_uri match_named_info match_ssb match_magnet strip_case strip
names_not_specific md5 s = (refl, refl, refl, refl)
names_not_specific sha1 s = (refl, refl, refl, refl)
names_not_specific sha256 s = (refl, refl, refl, refl)
names_not_specific sha384 s = (refl, refl, refl, refl)
names_not_specific sha512 s = (refl, refl, refl, refl)

pub prefix_read :
    (b58 : Base58) (a : Algo) (buf : Bytes)
    → All IsByte buf
    → hash_uri_parse b58 (some (hash_algo_names a ++ (codes "-" ++ b64_text std buf)))
      ≡ ok (uri link_prefix a buf)
unfolding hash_uri_parse hash_uri_parse_prefix
prefix_read b58 a buf h =
    let f = names_not_specific a (codes "-" ++ b64_text std buf) in
    rw (
      f.0,
      f.1,
      f.2,
      f.3,
      match_prefix_text a (b64_text std buf) (std_text-prefix buf h),
      b64_decode_copy-b64_text std buf h,
      parse-names a,
    )
