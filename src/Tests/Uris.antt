-- ===== src/Tests/Uris.antt =====
-- Hash URIs and their encodings, at concrete inputs.
use hash_archive.Prelude.{
  ℕ, ◌<◌, ◌*◌, ◌-◌, ◌/◌, ◌++◌, Bytes, [], ◌∷◌, List, Option, none, some, codes, length, take, All,
  IsByte, true, false, Bool, ◌≡◌, ◌≢◌, ◌↔◌, refl, arith,
}
use hash_archive.Error.{ok, err, overrun}
use hash_archive.Hash.Algo.{
  Algo, sha1, sha256, hash_algo_names, multihash_algo_encode, hash_algo_digest_len,
}
use hash_archive.Hash.Hex.{hex_text, hex_encode, hex_decode}
use hash_archive.Hash.Hex.RoundTrip.{hex_decode-hex_text}
use hash_archive.Hash.Base64.{std, url, b64_text, b64_encode, b64_decode}
use hash_archive.Hash.Base64.RoundTrip.{b64_encode-take, b64_decode-b64_text}
use hash_archive.Hash.Uri.Parse.{
  Base58, HashUri, link_hash_uri, link_named_info, link_ssb, link_multihash, hash_uri_parse,
}
use hash_archive.Hash.Uri.Format.{
  hash_uri_format, hash_uri_normalize, hash_uri_variant, uri_text, snprintf,
}
use hash_archive.Hash.Uri.Written.{uri}
use hash_archive.Hash.Uri.Laws.{parse-format, normalize_again, parse_then_overrun}

-- A codec that writes every byte as it is.
abbrev plain : Base58
plain = record { encode = λ buf max. some buf; decode = λ str size. some str }

abbrev digest : Bytes
digest = 0xab ∷ 0x01 ∷ 0xff ∷ 0x3e ∷ []

digest-IsByte : All IsByte digest
digest-IsByte = (omega arith, (omega arith, (omega arith, (omega arith, tt))))

abbrev ssb_uri : Bytes
ssb_uri = codes "&qwH/Pg==.sha256"

ssb_printed : hash_uri_format plain (some (uri link_ssb sha256 digest)) 1024 ≡ ok (ssb_uri, 16)
unfolding hash_uri_format uri_text snprintf b64_encode hash_archive.Hash.Base64.digit
    hash_archive.Hash.Base64.tail_one hash_archive.Hash.Base64.b64_map
    hash_archive.Hash.Base64.padding hash_archive.Hash.Base64.first hash_archive.Hash.Base64.second
    hash_archive.Hash.Base64.third hash_archive.Hash.Base64.fourth hash_algo_names
ssb_printed = refl

parse-format_example : hash_uri_parse plain (some ssb_uri) ≡ ok (uri link_ssb sha256 digest)
parse-format_example =
    parse-format plain link_ssb sha256 digest ssb_uri 16 1024 refl digest-IsByte ssb_printed
      (omega arith)

-- An algorithm's name in capitals and a query, which are read and not printed.
abbrev loud_uri : Bytes
loud_uri = codes "hash://SHA256/aB01ff3e?kind=page"

abbrev plain_uri : Bytes
plain_uri = codes "hash://sha256/ab01ff3e"

loud_parsed : hash_uri_parse plain (some loud_uri) ≡ ok (uri link_hash_uri sha256 digest)
unfolding hash_uri_parse hash_archive.Hash.Uri.Parse.hash_uri_parse_hash_uri
    hash_archive.Hash.Uri.Match.match_hash_uri hash_archive.Prelude.strip_case
    hash_archive.Prelude.span hash_archive.Prelude.is_alnum hash_archive.Prelude.one_of
    hash_archive.Prelude.strip hash_archive.Hash.Uri.Match.optional_group
    hash_archive.Hash.Uri.Parse.hex_decode_copy hex_decode hash_archive.Hash.Hex.hex_char
    hash_archive.Hash.Algo.hash_algo_parse hash_archive.Hash.Hex.hex_byte
loud_parsed = refl

plain_printed :
    hash_uri_format plain (some (uri link_hash_uri sha256 digest)) 1024 ≡ ok (plain_uri, 22)
unfolding hash_uri_format uri_text snprintf hash_algo_names hex_encode hash_archive.Hash.Hex.hex_hi
    hash_archive.Hash.Hex.hex_lo
plain_printed = refl

normalize_again_example : hash_uri_normalize plain (some plain_uri) 1024 ≡ ok plain_uri
normalize_again_example =
    normalize_again plain loud_uri plain_uri link_hash_uri sha256 digest 22 1024 loud_parsed refl
      plain_printed (omega arith)

sha1_known : multihash_algo_encode sha1 ≢ 0
unfolding multihash_algo_encode
sha1_known = ground arith

parse_then_overrun_example :
    (hash_uri_parse plain
        (some (codes "hash://" ++ (hash_algo_names sha1 ++ (codes "/" ++ hex_text digest))))
      ≡ ok (uri link_hash_uri sha1 digest))
    × ((hash_uri_variant plain (uri link_hash_uri sha1 digest) link_multihash 1024 ≡ err overrun)
        ↔ (64 < length digest))
parse_then_overrun_example = parse_then_overrun plain sha1 digest 1024 digest-IsByte sha1_known

b64_encode-take_example : b64_encode std digest 8 ≡ b64_text std (take (3 * ((8 - 1) / 4)) digest)
b64_encode-take_example = b64_encode-take std digest 8

b64_decode-b64_text_example :
    b64_decode (b64_text url digest) (length (b64_text url digest)) 4 ≡ ok digest
b64_decode-b64_text_example = b64_decode-b64_text url digest 4 digest-IsByte (omega arith)

hex_decode-hex_text_example :
    hex_decode (hex_text digest ++ codes "?query") (2 * length digest) 3 ≡ ok (take 3 digest)
hex_decode-hex_text_example = hex_decode-hex_text digest (codes "?query") 3 digest-IsByte
