-- ===== src/Hash/Uri/Codec.antt =====
-- The matchers and the decoders of digests on the texts that the printers write.
use hash_archive.Prelude.{
  ℕ, ◌+◌, ◌*◌, ◌/◌, Bytes, [], ◌∷◌, ◌++◌, append-nil, Bool, true, false, ◌||◌, length, take_all,
  All, All-mono, All-append, IsByte, codes, span-append, span_whole, Stops, strip,
  strip_case-append, is_alnum, leb, ◌==◌, none, some, ◌≡◌, refl, arith,
}
use hash_archive.Error.{ok}
use hash_archive.Hash.Algo.{Algo, md5, sha1, sha256, sha384, sha512, hash_algo_names}
use hash_archive.Hash.Hex.{hex_text}
use hash_archive.Hash.Hex.RoundTrip.{hex_decode-hex_text, length-hex_text}
use hash_archive.Hash.Base64.{Alphabet, b64_text}
use hash_archive.Hash.Base64.Text.{length-b64_text}
use hash_archive.Hash.Base64.RoundTrip.{b64_decode-b64_text}
use hash_archive.Hash.Uri.Parse.{hex_decode_copy, b64_decode_copy}
use hash_archive.Hash.Uri.Match.{run_of, magnet_at, magnet_last}

-- The copying decoders have room for the whole digest.
pub hex_decode_copy-hex_text :
    (buf : Bytes) → All IsByte buf → hex_decode_copy (hex_text buf) ≡ ok buf
unfolding hex_decode_copy
hex_decode_copy-hex_text buf h =
    let n = length buf * 2 * 4 / 8 + 1 in
    let d = hex_decode-hex_text buf [] (2 * length buf * 4 / 8 + 1) h in
    rw (length-hex_text buf)
      (rw (append-nil, take_all (2 * length buf * 4 / 8 + 1) buf (omega arith)) at d)

pub b64_decode_copy-b64_text :
    (t : Alphabet) (buf : Bytes) → All IsByte buf → b64_decode_copy (b64_text t buf) ≡ ok buf
unfolding b64_decode_copy
b64_decode_copy-b64_text t buf h =
    b64_decode-b64_text t buf _ h (omega (arith, length-b64_text t buf))

pub run_of-append :
    (least : ℕ) (p : ℕ → Bool) (s rest : Bytes)
    → All (λ c. p c ≡ true) s
    → Stops p rest
    → leb least (length s) ≡ true
    → run_of least p (s ++ rest) ≡ some (s, rest)
run_of-append least p s rest h stops n = rw (span-append p s rest h stops, n)

pub run_of_whole :
    (least : ℕ) (p : ℕ → Bool) (s : Bytes)
    → All (λ c. p c ≡ true) s
    → leb least (length s) ≡ true
    → run_of least p s ≡ some (s, [])
run_of_whole least p s h n = rw (span_whole p s h, n)

-- The names of the algorithms are letters and digits, and are not empty.
pub names-alnum : (a : Algo) → All (λ c. is_alnum c ≡ true) (hash_algo_names a)
unfolding hash_algo_names is_alnum
names-alnum md5 = (refl, (refl, (refl, tt)))
names-alnum sha1 = (refl, (refl, (refl, (refl, tt))))
names-alnum sha256 = (refl, (refl, (refl, (refl, (refl, (refl, tt))))))
names-alnum sha384 = (refl, (refl, (refl, (refl, (refl, (refl, tt))))))
names-alnum sha512 = (refl, (refl, (refl, (refl, (refl, (refl, tt))))))

pub names_long : (a : Algo) → leb 1 (length (hash_algo_names a)) ≡ true
unfolding hash_algo_names
names_long md5 = refl
names_long sha1 = refl
names_long sha256 = refl
names_long sha384 = refl
names_long sha512 = refl

pub or_left :
    (p q : ℕ → Bool) (s : Bytes) → All (λ c. p c ≡ true) s → All (λ c. (p c || q c) ≡ true) s
or_left p q s = All-mono _ _ (λ c e. rw e) s

-- No place in a text without `?` and `&` begins a match.
abbrev Quiet : ℕ → Type 0
Quiet c = (c == b'?' || c == b'&') ≡ false

magnet_last-none : (s : Bytes) → All Quiet s → magnet_last s ≡ none
unfolding magnet_last magnet_at
magnet_last-none [] h = refl
magnet_last-none (c ∷ s) (hc, h) = rw (magnet_last-none s h, hc)

alnum-Quiet : (c : ℕ) → is_alnum c ≡ true → Quiet c
unfolding is_alnum
alnum-Quiet c h = ground arith

colon-Stops : (s : Bytes) → Stops is_alnum (b':' ∷ s)
unfolding is_alnum
colon-Stops s = refl

alnum_text-Quiet : (s : Bytes) → All (λ c. is_alnum c ≡ true) s → All Quiet s
alnum_text-Quiet = All-mono _ _ alnum-Quiet

magnet_at_found :
    (a : Algo) (s : Bytes)
    → All (λ c. is_alnum c ≡ true) s
    → magnet_at b'?' (codes "xt=urn:" ++ (hash_algo_names a ++ (codes ":" ++ s)))
      ≡ some (hash_algo_names a, s)
unfolding magnet_at strip
magnet_at_found a s h =
    rw
      (
        strip_case-append (codes "xt=urn:") (hash_algo_names a ++ (codes ":" ++ s)),
        span-append is_alnum (hash_algo_names a) (codes ":" ++ s) (names-alnum a) (colon-Stops s),
        names_long a,
        span_whole is_alnum s h,
      )
      (ground arith)

pub magnet_last_found :
    (a : Algo) (s : Bytes)
    → All (λ c. is_alnum c ≡ true) s
    → magnet_last (codes "?xt=urn:" ++ (hash_algo_names a ++ (codes ":" ++ s)))
      ≡ some (hash_algo_names a, s)
unfolding magnet_last
magnet_last_found a s h =
    let colon : All Quiet (codes ":" ++ s) = (refl, alnum_text-Quiet s h) in
    let quiet =
      All-append Quiet (hash_algo_names a) (codes ":" ++ s) (alnum_text-Quiet _ (names-alnum a))
        colon in
    let later : magnet_last (codes "xt=urn:" ++ (hash_algo_names a ++ (codes ":" ++ s))) ≡ none =
      magnet_last-none (codes "xt=urn:" ++ (hash_algo_names a ++ (codes ":" ++ s)))
        (refl, (refl, (refl, (refl, (refl, (refl, (refl, quiet))))))) in
    rw (later, magnet_last) (magnet_at_found a s h)
