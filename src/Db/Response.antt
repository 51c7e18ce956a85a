-- ===== src/Db/Response.antt =====
-- `struct response` of src/db.h, and the value that it is stored as: written by `hx_response_add` of
-- src/db.c, read by `HXTimeIDToResponseValUnpack`.
use hash_archive.Prelude.{
  ℕ, zero, suc, ◌+◌, ◌-◌, ◌%◌, ◌^◌, ◌≤◌, ◌<◌, Bool, true, false, Bytes, List, [], ◌∷◌, ◌++◌, Option,
  none, some, fit, take_all, length, leb, ltb, if◌then◌else◌, ◌&&◌, All, ◌≡◌, refl, arith,
}
use hash_archive.Error.{aborted, Result, ok, err, ◌>>=◌, >>=-eq-ok}
use hash_archive.Hash.Algo.{Algo, md5, sha1, sha256, sha384, sha512, hash_algo_digest_len}

-- A C `int`; `negsuc n` is -(n + 1).
pub data ℤ : Type 0 where
  pos : ℕ → ℤ
  negsuc : ℕ → ℤ

abbrev pub uri_max : ℕ
uri_max = 1024

abbrev pub type_max : ℕ
type_max = 256

-- `hash_digest_t digests[HASH_ALGO_MAX]`; an empty digest has the length 0.
pub record Digests : Type 0 where
  pub d_md5 : Bytes
  pub d_sha1 : Bytes
  pub d_sha256 : Bytes
  pub d_sha384 : Bytes
  pub d_sha512 : Bytes

unfoldable pub digest_at : Digests → Algo → Bytes
digest_at d md5 = d.d_md5
digest_at d sha1 = d.d_sha1
digest_at d sha256 = d.d_sha256
digest_at d sha384 = d.d_sha384
digest_at d sha512 = d.d_sha512

-- `next` and `prev` point into the array that the response stands in, and are its indices here.
-- `latest` is the flag HX_RES_LATEST.
pub record Response : Type 0 where
  pub time : ℕ
  pub id : ℕ
  pub url : Bytes
  pub status : ℤ
  pub type : Bytes
  pub length : ℕ
  pub digests : Digests
  pub next : Option ℕ
  pub prev : Option ℕ
  pub latest : Bool

-- What `kvs_bind_*` appended to a value, in order.
pub data Field : Type 0 where
  num : ℕ → Field
  text : Bytes → Field
  blob : Bytes → Field

-- `0xffff + res->status` in an `int`, which must not be negative: a sum past the largest `int` is taken
-- to wrap and fail the assertion.
unfoldable pub pack_status : ℤ → Result ℕ
pack_status (pos n) = if ltb (0xffff + n) (2 ^ 31) then ok (0xffff + n) else err aborted
pack_status (negsuc n) = if ltb n 0xffff then ok (0xffff - suc n) else err aborted

-- The conversion of a 64-bit number to an `int` keeps its low 32 bits.
unfoldable pub to_int : ℕ → ℤ
to_int n = let low = n % 2 ^ 32 in if ltb low (2 ^ 31) then pos low else negsuc (2 ^ 32 - 1 - low)

-- The values of an `int`.
abbrev pub IsInt : ℤ → Type 0
IsInt (pos n) = n < 2 ^ 31
IsInt (negsuc n) = n < 2 ^ 31

-- `kvs_read_uint64(val) - 0xffff`, in 64 bits and then as an `int`
unfoldable pub unpack_status : ℕ → ℤ
unfolding to_int
unpack_status s = to_int ((s + 2 ^ 64 - 0xffff) % 2 ^ 64)

-- One round of the loop over the digests.
unfoldable pub pack_digest : Algo → Bytes → List Field → Result (List Field)
pack_digest a d rest =
    if leb (hash_archive.Prelude.length d) (hash_algo_digest_len a)
    then ok (num (hash_archive.Prelude.length d) ∷ blob d ∷ rest)
    else err aborted

unfoldable pub pack_digests : Digests → Result (List Field)
pack_digests d = pack_digest sha512 d.d_sha512 [] >>= λ r4.
    pack_digest sha384 d.d_sha384 r4 >>= λ r3. pack_digest sha256 d.d_sha256 r3 >>= λ r2.
    pack_digest sha1 d.d_sha1 r2 >>= λ r1. pack_digest md5 d.d_md5 r1

-- `res->length+1` is computed in 64 bits: UINT64_MAX is stored as 0.
unfoldable pub pack_value : Response → Result (List Field)
pack_value r = pack_status r.status >>= λ s. pack_digests r.digests >>= λ ds.
    ok (text r.url ∷ num s ∷ text r.type ∷ num ((r.length + 1) % 2 ^ 64) ∷ ds)

-- `kvs_read_*`; a read of another kind of field is not defined by libkvstore, and stops here.
unfoldable pub read_num : List Field → Result (ℕ × List Field)
read_num (num n ∷ v) = ok (n, v)
read_num _ = err aborted

unfoldable pub read_text : List Field → Result (Bytes × List Field)
read_text (text s ∷ v) = ok (s, v)
read_text _ = err aborted

unfoldable pub read_blob : ℕ → List Field → Result (Bytes × List Field)
read_blob n (blob s ∷ v) =
    if leb (hash_archive.Prelude.length s) n && leb n (hash_archive.Prelude.length s)
    then ok (s, v)
    else err aborted
read_blob n _ = err aborted

-- A value that has ended leaves the digest empty.
unfoldable pub read_digest : Algo → List Field → Result (Bytes × List Field)
read_digest a [] = ok ([], [])
read_digest a (f ∷ v) = read_num (f ∷ v) >>= λ n.
    if leb n.0 (hash_algo_digest_len a) then read_blob n.0 n.1 else err aborted

unfoldable pub read_digests : List Field → Result Digests
read_digests v = read_digest md5 v >>= λ d0. read_digest sha1 d0.1 >>= λ d1.
    read_digest sha256 d1.1 >>= λ d2. read_digest sha384 d2.1 >>= λ d3.
    read_digest sha512 d3.1 >>= λ d4.
    ok (record { d_md5 = d0.0; d_sha1 = d1.0; d_sha256 = d2.0; d_sha384 = d3.0; d_sha512 = d4.0 })

-- The fields of `out` that are read are overwritten, the others stay.
unfoldable pub unpack_value : List Field → Response → Result Response
unpack_value v out = read_text v >>= λ u. read_num u.1 >>= λ s. read_text s.1 >>= λ t.
    read_num t.1 >>= λ n. read_digests n.1 >>= λ ds. ok (record out {
      url = fit uri_max u.0;
      status = unpack_status s.0;
      type = fit type_max t.0;
      length = (n.0 + 2 ^ 64 - 1) % 2 ^ 64;
      digests = ds;
    })

pub unpack_status_pos : (m : ℕ) → IsInt (pos m) → unpack_status (0xffff + m) ≡ pos m
unfolding unpack_status
unpack_status_pos m h =
    let k : (0xffff + m + 2 ^ 64 - 0xffff) % 2 ^ 64 % 2 ^ 32 ≡ m = ground arith in
    rw k (ground arith)

pub unpack_status-pack_status :
    (s : ℤ) (n : ℕ) → IsInt s → pack_status s ≡ ok n → unpack_status n ≡ s
unfolding pack_status unpack_status
unpack_status-pack_status (pos m) n h e =
    let k : (n + 2 ^ 64 - 0xffff) % 2 ^ 64 % 2 ^ 32 ≡ m = ground arith in rw k (ground arith)
unpack_status-pack_status (negsuc m) n h e =
    let k : (n + 2 ^ 64 - 0xffff) % 2 ^ 64 % 2 ^ 32 ≡ 2 ^ 32 - 1 - m = ground arith in
    rw k (ground arith)

length_back : (n : ℕ) → n < 2 ^ 64 → ((n + 1) % 2 ^ 64 + 2 ^ 64 - 1) % 2 ^ 64 ≡ n
length_back n h = omega arith

digest_back :
    (a : Algo) (d : Bytes) (rest v : List Field)
    → pack_digest a d rest ≡ ok v
    → read_digest a v ≡ ok (d, rest)
unfolding pack_digest read_digest read_num read_blob
digest_back a d rest v e = ground arith

digests_back : (d : Digests) (v : List Field) → pack_digests d ≡ ok v → read_digests v ≡ ok d
unfolding pack_digests read_digests
digests_back d v e =
    let (r4, e4, f4) = >>=-eq-ok (pack_digest sha512 d.d_sha512 []) _ e in
    let (r3, e3, f3) = >>=-eq-ok (pack_digest sha384 d.d_sha384 r4) _ f4 in
    let (r2, e2, f2) = >>=-eq-ok (pack_digest sha256 d.d_sha256 r3) _ f3 in
    let (r1, e1, f1) = >>=-eq-ok (pack_digest sha1 d.d_sha1 r2) _ f2 in
    rw (
      digest_back md5 d.d_md5 r1 v f1,
      digest_back sha1 d.d_sha1 r2 r1 e1,
      digest_back sha256 d.d_sha256 r3 r2 e2,
      digest_back sha384 d.d_sha384 r4 r3 e3,
      digest_back sha512 d.d_sha512 [] r4 e4,
    )

-- A response whose texts fit their buffers, whose length fits 64 bits and whose status is an `int`, if
-- it can be stored, is read back from the stored value whole; the other fields are those of the record read into.
pub unpack-pack :
    (r out : Response) (v : List Field)
    → hash_archive.Prelude.length r.url < uri_max
    → hash_archive.Prelude.length r.type < type_max
    → r.length < 2 ^ 64
    → IsInt r.status
    → pack_value r ≡ ok v
    → unpack_value v out
      ≡ ok (record out {
        url = r.url;
        status = r.status;
        type = r.type;
        length = r.length;
        digests = r.digests;
      })
unfolding pack_value unpack_value read_text read_num
unpack-pack r out v hu ht hl hs e =
    let (s, es, fs) = >>=-eq-ok (pack_status r.status) _ e in
    let (ds, ed, fd) = >>=-eq-ok (pack_digests r.digests) _ fs in
    let same : text r.url ∷ num s ∷ text r.type ∷ num ((r.length + 1) % 2 ^ 64) ∷ ds ≡ v = cc in
    rw (
      ← same,
      digests_back r.digests ds ed,
      take_all 1023 r.url (omega arith),
      take_all 255 r.type (omega arith),
      unpack_status-pack_status r.status s hs es,
      length_back r.length hl,
    )
