-- ===== src/Fetch/Body.antt =====
-- The body of a response, read to its end, whatever pieces it comes in.
use hash_archive.Prelude.{
  ℕ, zero, suc, ◌+◌, ◌%◌, ◌^◌, ◌<◌, Bytes, List, [], ◌∷◌, ◌++◌, append_assoc, append-nil, Option,
  some, length, length-append, ◌≡◌, refl, sym, ap, subst, ◌∙◌, arith,
}
use hash_archive.Error.{ok}
use hash_archive.Hash.Algo.{Algo, md5, sha1, sha256, sha384, sha512}
use hash_archive.Db.Response.{Digests, Response}
use hash_archive.Hasher.{Openssl, Hasher, hasher_algos_all, is_chosen}
use hash_archive.Hasher.Whole.{
  IsDigest, IsHasher, joined, chosen_digest, chosen_digests, hasher_create-IsHasher,
  hasher_update-IsHasher, hasher_digests-IsHasher,
}
use hash_archive.Fetch.{Http, read_all, hash_body}

module _ (http : Http) where
  open http use {World, Conn, read_body}

  -- The reads of a body: each piece in turn, and then the empty one.
  pub data Body (conn : Conn) : World → List Bytes → World → Type 0 where
    ends : (w w' : World) → read_body conn w ≡ (ok [], w') → Body conn w [] w'
    piece :
        (w w1 w' : World) (c : ℕ) (p : Bytes) (ps : List Bytes)
        → read_body conn w ≡ (ok (c ∷ p), w1)
        → Body conn w1 ps w'
        → Body conn w ((c ∷ p) ∷ ps) w'

  module _ (ssl : Openssl) (hash : Algo → Bytes → Bytes)
      (Holds : (a : Algo) → Openssl.Ctx ssl a → Bytes → Type 0)
      (law : IsDigest ssl hash Holds) where
    -- Every digest of a text.
    abbrev pub digests_of : Bytes → Digests
    digests_of t = record {
      d_md5 = hash md5 t;
      d_sha1 = hash sha1 t;
      d_sha256 = hash sha256 t;
      d_sha384 = hash sha384 t;
      d_sha512 = hash sha512 t;
    }

    all_chosen : (t : Bytes) → chosen_digests ssl hash Holds law hasher_algos_all t ≡ digests_of t
    unfolding chosen_digests chosen_digest is_chosen
    all_chosen t = refl

    read_all_lem :
        (fuel : ℕ) (conn : Conn) (h : Hasher ssl) (len : ℕ) (t : Bytes) (w w' : World)
        (ps : List Bytes)
        → IsHasher ssl hash Holds law hasher_algos_all h t
        → len < 2 ^ 64
        → Body conn w ps w'
        → length ps < fuel
        → (h' : Hasher ssl) × (read_all http ssl fuel conn h len w
            ≡ some (ok (h', (len + length (joined ssl ps)) % 2 ^ 64), w'))
          × IsHasher ssl hash Holds law hasher_algos_all h' (t ++ joined ssl ps)
    unfolding read_all joined
    read_all_lem zero conn h len t w w' ps took small body enough = absurd (omega arith)
    read_all_lem (suc fuel) conn h len t w w' [] took small (ends _ _ e) enough =
        let n : (len + 0) % 2 ^ 64 ≡ len = omega arith in
        (h, rw (e, n) refl, rw (append-nil t) took)
    read_all_lem (suc fuel) conn h len t w w' ([] ∷ ps) took small body enough = elim body [ ]
    read_all_lem (suc fuel) conn h len t w w' ((c ∷ p) ∷ ps) took small (piece _ w1 _ _ _ _ e body)
          enough =
        let (h1, f, took1) =
          hasher_update-IsHasher ssl hash Holds law hasher_algos_all h t (c ∷ p) took in
        let small1 : (len + length (c ∷ p)) % 2 ^ 64 < 2 ^ 64 = omega arith in
        let less : length ps < fuel = omega arith in
        let (h2, g, took2) =
          read_all_lem fuel conn h1 ((len + length (c ∷ p)) % 2 ^ 64) (t ++ (c ∷ p)) w1 w' ps took1
            small1 body less in
        let n : ((len + length (c ∷ p)) % 2 ^ 64 + length (joined ssl ps)) % 2 ^ 64
            ≡ (len + length ((c ∷ p) ++ joined ssl ps)) % 2 ^ 64 =
          omega (arith, length-append (c ∷ p) (joined ssl ps)) in
        (
          h2,
          rw (e, f) (g ∙ ap (λ k. some (ok (h2, k), w')) n),
          subst (λ u. IsHasher ssl hash Holds law hasher_algos_all h2 u)
              (append_assoc t (c ∷ p) (joined ssl ps)) took2,
        )

    -- The response after its body.
    abbrev pub with_body : List Bytes → Response → Response
    with_body ps res = record res {
      length = hash_archive.Prelude.length (joined ssl ps) % 2 ^ 64;
      digests = digests_of (joined ssl ps);
    }

    pub hash_body_lem :
        (fuel : ℕ) (conn : Conn) (url : Bytes) (res : Response) (w w' : World) (ps : List Bytes)
        → Body conn w ps w'
        → length ps < fuel
        → hash_body http ssl fuel conn url res w ≡ some ((url, with_body ps res), w')
    unfolding hash_body
    hash_body_lem fuel conn url res w w' ps body enough =
        let (h, e, took) = hasher_create-IsHasher ssl hash Holds law hasher_algos_all in
        let (h', f, took') = read_all_lem fuel conn h 0 [] w w' ps took (omega arith) body enough in
        let d =
          hasher_digests-IsHasher ssl hash Holds law hasher_algos_all h' (joined ssl ps) took'
          ∙ ap ok (all_chosen (joined ssl ps)) in
        let n : (0 + length (joined ssl ps)) % 2 ^ 64 ≡ length (joined ssl ps) % 2 ^ 64 =
          omega arith in
        rw (e, f, d)
          (ap
            (λ k. some ((url, record res { length = k; digests = digests_of (joined ssl ps) }), w'))
            n)
