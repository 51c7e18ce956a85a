-- ===== src/Error.antt =====
-- src/errors.h, and the codes of src/util/hash.h and src/util/url.h: what a call returns instead of a
-- result. A negative `rc` is a constructor, a result that is not negative is `ok`.
use hash_archive.Prelude.{ℕ, Option, none, some, Bool, true, false, ◌==◌, ◌≡◌, refl, arith}

-- `einval`, `enomem`, `eperm`, `enametoolong` are the codes of `errno.h` with a minus sign, and those
-- below them are of libuv and libkvstore. `overrun` is no code: the source writes or reads past the
-- end of a buffer there, or uses bytes that were never written, and what follows is undefined. `aborted` is a failed `assert` or `abort()`.
pub data Error : Type 0 where
  einval enomem eperm enametoolong : Error
  hash_epanic hash_eparse hash_enotsup url_eparse : Error
  kvs_einval kvs_notfound kvs_keyexist uv_eof uv_emsgsize uv_eprotonosupport uv_enoent uv_eacces :
      Error
  uv_etimedout uv_epipe uv_eisdir : Error
  hx_redirect : Error
  overrun aborted : Error
  other : ℕ → Error

pub data Result {ℓ} (A : Type ℓ) : Type ℓ where
  ok : A → Result A
  err : Error → Result A

-- `rc = rc >= 0 ? rc : next`
abbrev pub or_else {ℓ} : {A : Type ℓ} → Result A → Result A → Result A
or_else (ok a) next = ok a
or_else (err e) next = next

-- `if(!ptr) return e`: a pointer that may be NULL is an option.
abbrev pub non_null {ℓ} : {A : Type ℓ} → Option A → Error → Result A
non_null none e = err e
non_null (some a) e = ok a

-- A computed number is the one expected, as a test for tables.
unfoldable pub is_ok : Result ℕ → ℕ → Bool
is_ok (ok a) b = a == b
is_ok (err e) b = false

pub is_ok-eq : (r : Result ℕ) (b : ℕ) → is_ok r b ≡ true → r ≡ ok b
unfolding is_ok
is_ok-eq (ok a) b h = ground arith
is_ok-eq (err e) b h = ground arith

-- `if(rc < 0) return rc;` between two steps.
infixl 5 ◌>>=◌
abbrev pub ◌>>=◌ {ℓ κ} : {A : Type ℓ} {B : Type κ} → Result A → (A → Result B) → Result B
err rc >>= next = err rc
ok value >>= next = next value

-- The steps of a chain that succeeds.
pub >>=-eq-ok {ℓ κ} :
    {A : Type ℓ} {B : Type κ} (step : Result A) (next : A → Result B) {b : B}
    → (step >>= next) ≡ ok b
    → (value : A) × (step ≡ ok value) × (next value ≡ ok b)
>>=-eq-ok (err rc) next e = cc
>>=-eq-ok (ok value) next e = (value, refl, e)
