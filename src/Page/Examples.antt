-- ===== src/Page/Examples.antt =====
-- The examples that the front page shows: the head of `page_index` in src/page_index.c.
use hash_archive.Prelude.{Bytes, some, codes}
use hash_archive.Error.{aborted, Result, ok, err, ◌>>=◌}
use hash_archive.Hash.Uri.Parse.{
  link_named_info, link_multihash, link_prefix, link_ssb, link_magnet, Base58, hash_uri_parse,
}
use hash_archive.Hash.Uri.Format.{hash_uri_variant}
use hash_archive.Db.Response.{uri_max}

abbrev pub example_url : Bytes
example_url =
    codes "https://torrents.linuxmint.com/torrents/linuxmint-18-cinnamon-64bit.iso.torrent"

abbrev pub example_hash_uri : Bytes
example_hash_uri =
    codes "hash://sha256/030d8c2d6b7163a482865716958ca03806dfde99a309c927e56aa9962afbb95d"

-- The forms of the example, which `page_index` makes once.
pub record Examples : Type 0 where
  pub example_named_info : Bytes
  pub example_prefix : Bytes
  pub example_multihash : Bytes
  pub example_ssb : Bytes
  pub example_magnet : Bytes

-- `assert(rc >= 0);` after each call.
abbrev pub asserted {ℓ} : {A : Type ℓ} → Result A → Result A
asserted (ok a) = ok a
asserted (err e) = err aborted

unfoldable pub examples : Base58 → Result Examples
examples b58 = asserted (hash_uri_parse b58 (some example_hash_uri)) >>= λ obj.
    asserted (hash_uri_variant b58 obj link_named_info uri_max) >>= λ named_info.
    asserted (hash_uri_variant b58 obj link_prefix uri_max) >>= λ prefix.
    asserted (hash_uri_variant b58 obj link_multihash uri_max) >>= λ multihash.
    asserted (hash_uri_variant b58 obj link_ssb uri_max) >>= λ ssb.
    asserted (hash_uri_variant b58 obj link_magnet uri_max) >>= λ magnet. ok (record {
      example_named_info = named_info;
      example_prefix = prefix;
      example_multihash = multihash;
      example_ssb = ssb;
      example_magnet = magnet;
    })
