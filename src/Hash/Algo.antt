-- ===== src/Hash/Algo.antt =====
-- The table of algorithms of src/util/hash.h, and the lookups in src/util/hash.c.
use hash_archive.Prelude.{ℕ, Bytes, Option, none, some, codes, case_eq, if◌then◌else◌, ◌≡◌, refl}

-- `hash_algo`; `HASH_ALGO_UNKNOWN`, which is -1, is `none`.
pub data Algo : Type 0 where
  md5 sha1 sha256 sha384 sha512 : Algo

abbrev pub hash_digest_max : ℕ
hash_digest_max = 64

unfoldable pub hash_algo_digest_len : Algo → ℕ
hash_algo_digest_len md5 = 16
hash_algo_digest_len sha1 = 20
hash_algo_digest_len sha256 = 32
hash_algo_digest_len sha384 = 48
hash_algo_digest_len sha512 = 64

unfoldable pub hash_algo_names : Algo → Bytes
hash_algo_names md5 = codes "md5"
hash_algo_names sha1 = codes "sha1"
hash_algo_names sha256 = codes "sha256"
hash_algo_names sha384 = codes "sha384"
hash_algo_names sha512 = codes "sha512"

-- In the order of the table. Two texts are compared by `strnncasecmp`, which wants one length.
unfoldable pub hash_algo_parse : Bytes → Option Algo
unfolding hash_algo_names case_eq
hash_algo_parse s =
    if case_eq s (hash_algo_names md5)
    then some md5
    else if case_eq s (hash_algo_names sha1)
    then some sha1
    else if case_eq s (hash_algo_names sha256)
    then some sha256
    else if case_eq s (hash_algo_names sha384)
    then some sha384
    else if case_eq s (hash_algo_names sha512)
    then some sha512
    else none

-- The first byte of a multihash; 0 stands for an algorithm that has none.
unfoldable pub multihash_algo_encode : Algo → ℕ
multihash_algo_encode md5 = 0
multihash_algo_encode sha1 = 0x11
multihash_algo_encode sha256 = 0x12
multihash_algo_encode sha384 = 0
multihash_algo_encode sha512 = 0x13

-- The name of every algorithm is read back as that algorithm.
pub parse-names : (a : Algo) → hash_algo_parse (hash_algo_names a) ≡ some a
unfolding hash_algo_parse
parse-names md5 = refl
parse-names sha1 = refl
parse-names sha256 = refl
parse-names sha384 = refl
parse-names sha512 = refl
