-- ===== src/Hasher.antt =====
-- src/util/hasher.c. OpenSSL's functions and `malloc` are the parameter `Openssl`.
pub mod Whole
use hash_archive.Prelude.{
  ℕ, ◌-◌, ◌^◌, ◌==◌, Bool, not, Bytes, List, [], ◌∷◌, Option, none, some, take, bit_and,
  if◌then◌else◌,
}
use hash_archive.Error.{enomem, Result, ok, err, other, ◌>>=◌}
use hash_archive.Hash.Algo.{Algo, md5, sha1, sha256, sha384, sha512, hash_algo_digest_len}
use hash_archive.Db.Response.{ℤ, pos, negsuc, Digests}

-- `MD5_Init` and so on: the code that each returns, and what it leaves behind its pointer.
-- `has_room a` is whether `malloc` succeeds for the state of `a`.
pub record Openssl : Type 1 where
  pub Ctx : Algo → Type 0
  pub has_room : Algo → Bool
  pub init : (a : Algo) → ℤ × Ctx a
  pub update : (a : Algo) → Ctx a → Bytes → ℤ × Ctx a
  pub final : (a : Algo) → Ctx a → ℤ × Bytes

-- `if(rc < 0) return rc;`
abbrev pub checked : {A : Type 0} → ℤ × A → Result A
checked (pos n, x) = ok x
checked (negsuc n, x) = err (other n)

-- `1 << val & algos`
unfoldable pub is_chosen : ℕ → Algo → Bool
is_chosen algos md5 = not (bit_and 1 algos == 0)
is_chosen algos sha1 = not (bit_and 2 algos == 0)
is_chosen algos sha256 = not (bit_and 4 algos == 0)
is_chosen algos sha384 = not (bit_and 8 algos == 0)
is_chosen algos sha512 = not (bit_and 16 algos == 0)

abbrev pub hasher_algos_all : ℕ
hasher_algos_all = 2 ^ 64 - 1

module _ (ssl : Openssl) where
  open ssl use {Ctx, has_room, init, update, final}

  -- `hasher_t`: a state for each algorithm that was chosen.
  pub record Hasher : Type 0 where
    pub s_md5 : Option (Ctx md5)
    pub s_sha1 : Option (Ctx sha1)
    pub s_sha256 : Option (Ctx sha256)
    pub s_sha384 : Option (Ctx sha384)
    pub s_sha512 : Option (Ctx sha512)

  -- One line of the table, in each of the three operations.
  unfoldable pub create_one : ℕ → (a : Algo) → Result (Option (Ctx a))
  create_one algos a =
      if is_chosen algos a
      then (if has_room a then (checked (init a) >>= λ s. ok (some s)) else err enomem)
      else ok none

  unfoldable pub update_one : (a : Algo) → Option (Ctx a) → Bytes → Result (Option (Ctx a))
  update_one a none buf = ok none
  update_one a (some s) buf = checked (update a s buf) >>= λ s'. ok (some s')

  unfoldable pub digest_one : (a : Algo) → Option (Ctx a) → Result Bytes
  digest_one a none = ok []
  digest_one a (some s) = checked (final a s) >>= λ buf. ok (take (hash_algo_digest_len a) buf)

  unfoldable pub hasher_create : ℕ → Result Hasher
  hasher_create algos = create_one algos md5 >>= λ c0. create_one algos sha1 >>= λ c1.
      create_one algos sha256 >>= λ c2. create_one algos sha384 >>= λ c3.
      create_one algos sha512 >>= λ c4.
      ok (record { s_md5 = c0; s_sha1 = c1; s_sha256 = c2; s_sha384 = c3; s_sha512 = c4 })

  -- The states that were updated before a failure are not kept: every caller frees the hasher then.
  unfoldable pub hasher_update : Hasher → Bytes → Result Hasher
  hasher_update h buf = update_one md5 h.s_md5 buf >>= λ c0. update_one sha1 h.s_sha1 buf >>= λ c1.
      update_one sha256 h.s_sha256 buf >>= λ c2. update_one sha384 h.s_sha384 buf >>= λ c3.
      update_one sha512 h.s_sha512 buf >>= λ c4.
      ok (record { s_md5 = c0; s_sha1 = c1; s_sha256 = c2; s_sha384 = c3; s_sha512 = c4 })

  -- For `count` HASH_ALGO_MAX, the only one that is asked for.
  unfoldable pub hasher_digests : Hasher → Result Digests
  hasher_digests h = digest_one md5 h.s_md5 >>= λ d0. digest_one sha1 h.s_sha1 >>= λ d1.
      digest_one sha256 h.s_sha256 >>= λ d2. digest_one sha384 h.s_sha384 >>= λ d3.
      digest_one sha512 h.s_sha512 >>= λ d4.
      ok (record { d_md5 = d0; d_sha1 = d1; d_sha256 = d2; d_sha384 = d3; d_sha512 = d4 })
