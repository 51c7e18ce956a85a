-- ===== src/Import/Wire.antt =====
-- The format of the dump that `read_responses` reads: what a sender writes.
use hash_archive.Prelude.{
  ℕ, zero, suc, ◌+◌, ◌-◌, ◌*◌, ◌/◌, ◌%◌, ◌^◌, ◌≤◌, ◌<◌, Bytes, List, [], ◌∷◌, ◌++◌, length,
  length-append, All, ◌≡◌, ◌≢◌, refl, arith,
}
use hash_archive.Db.Response.{ℤ, pos, negsuc, Response, uri_max, type_max}
use hash_archive.Import.{number}

-- `n` in `k` bytes, the highest first.
pub big_endian : ℕ → ℕ → Bytes
big_endian zero n = []
big_endian (suc k) n = big_endian k (n / 256) ++ (n % 256) ∷ []

unfoldable pub sized : Bytes → Bytes
sized s = big_endian 2 (length s) ++ s

abbrev pub sent_status : ℤ → ℕ
sent_status (pos n) = 0xffff + n
sent_status (negsuc n) = 0xffff - suc n

-- One response, with all the digests that this archive knows.
unfoldable pub sent : Response → Bytes
sent r =
    big_endian 8 r.time
    ++ (sized r.url
        ++ (big_endian 8 (sent_status r.status)
            ++ (sized r.type
                ++ (big_endian 8 r.length
                    ++ (big_endian 2 5
                        ++ (sized r.digests.d_md5
                            ++ (sized r.digests.d_sha1
                                ++ (sized r.digests.d_sha256
                                    ++ (sized r.digests.d_sha384
                                        ++ sized r.digests.d_sha512)))))))))

unfoldable pub sents : List Response → Bytes
sents [] = []
sents (r ∷ rs) = sent r ++ sents rs

-- What is read of a sent response, in place of `blank`.
abbrev pub received : Response → Response → Response
received blank r = record blank {
  time = r.time;
  url = r.url;
  status = r.status;
  type = r.type;
  length = r.length;
  digests = r.digests;
}

abbrev pub IsText : ℕ → Bytes → Type 0
IsText max s = (length s < max) × All (λ c. c ≢ 0) s

abbrev pub IsStatus : ℤ → Type 0
IsStatus (pos n) = n < 2 ^ 31
IsStatus (negsuc n) = n < 0xffff

-- A response that a sender can have: its numbers, texts and digests fit.
pub record IsSendable (r : Response) : Type 0 where
  pub time_fits : r.time < 2 ^ 64
  pub length_fits : r.length < 2 ^ 64
  pub url_text : IsText uri_max r.url
  pub type_text : IsText type_max r.type
  pub status_fits : IsStatus r.status
  pub md5_fits : length r.digests.d_md5 ≤ 16
  pub sha1_fits : length r.digests.d_sha1 ≤ 20
  pub sha256_fits : length r.digests.d_sha256 ≤ 32
  pub sha384_fits : length r.digests.d_sha384 ≤ 48
  pub sha512_fits : length r.digests.d_sha512 ≤ 64

-- 256 to the power of `k`
abbrev pub range : ℕ → ℕ
range zero = 1
range (suc k) = range k * 256

pub length-big_endian : (k n : ℕ) → length (big_endian k n) ≡ k
unfolding big_endian
length-big_endian zero n = refl
length-big_endian (suc k) n =
    omega (
      arith,
      length-append (big_endian k (n / 256)) ((n % 256) ∷ []),
      length-big_endian k (n / 256),
    )

number-append : (a y : ℕ) (xs : Bytes) → number a (xs ++ y ∷ []) ≡ number a xs * 256 + y
unfolding number
number-append a y [] = omega arith
number-append a y (x ∷ xs) = number-append (a * 2 ^ 8 + x) y xs

pub number-big_endian : (k n : ℕ) → n < range k → number 0 (big_endian k n) ≡ n
unfolding big_endian
number-big_endian zero n h = unfold number in omega arith
number-big_endian (suc k) n h = omega (
  arith,
  number-append 0 (n % 256) (big_endian k (n / 256)),
  number-big_endian k (n / 256) (omega arith),
)
