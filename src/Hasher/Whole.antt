-- ===== src/Hasher/Whole.antt =====
-- The digests are those of the whole text, whatever pieces it comes in.
use hash_archive.Prelude.{
  ℕ, ◌≤◌, true, false, Bytes, List, [], ◌∷◌, ◌++◌, append_assoc, append-nil, Option, none, some,
  take_all, length, Bool-cases, if◌then◌else◌, inl, inr, ◌≡◌, refl, sym, ap, ◌∙◌,
}
use hash_archive.Error.{Result, ok, ◌>>=◌}
use hash_archive.Hash.Algo.{Algo, md5, sha1, sha256, sha384, sha512, hash_algo_digest_len}
use hash_archive.Db.Response.{pos, Digests}
use hash_archive.Hasher.{
  Openssl, is_chosen, Hasher, create_one, update_one, digest_one, hasher_create, hasher_update,
  hasher_digests,
}

module _ (ssl : Openssl) where
  open ssl use {Ctx, has_room, init, update, final}

  -- What OpenSSL documents: a state that has taken a text, `Holds`, gives the digest of that text; the
  -- calls do not fail, and the digest has the length of its algorithm.
  pub record IsDigest (hash : Algo → Bytes → Bytes) (Holds : (a : Algo) → Ctx a → Bytes → Type 0)
      : Type 0 where
    pub room : (a : Algo) → has_room a ≡ true
    pub begins_empty : (a : Algo) → (s : Ctx a) × (n : ℕ) × (init a ≡ (pos n, s)) × Holds a s []
    pub takes :
        (a : Algo) (s : Ctx a) (t u : Bytes)
        → Holds a s t
        → (s' : Ctx a) × (n : ℕ) × (update a s u ≡ (pos n, s')) × Holds a s' (t ++ u)
    pub gives :
        (a : Algo) (s : Ctx a) (t : Bytes) → Holds a s t → (n : ℕ) × (final a s ≡ (pos n, hash a t))
    pub sized_hash : (a : Algo) (t : Bytes) → length (hash a t) ≤ hash_algo_digest_len a

  -- The whole run: a hasher, the pieces one after the other, and the digests.
  unfoldable pub hash_pieces : Hasher ssl → List Bytes → Result Digests
  hash_pieces h [] = hasher_digests ssl h
  hash_pieces h (p ∷ ps) = hasher_update ssl h p >>= λ h'. hash_pieces h' ps

  unfoldable pub joined : List Bytes → Bytes
  joined [] = []
  joined (p ∷ ps) = p ++ joined ps

  module _ (hash : Algo → Bytes → Bytes) (Holds : (a : Algo) → Ctx a → Bytes → Type 0)
      (law : IsDigest hash Holds) where
    open law use {room, begins_empty, takes, gives, sized_hash}

    -- A state that is there if it was chosen, and then has taken `t`.
    abbrev Took : ℕ → (a : Algo) → Option (Ctx a) → Bytes → Type 0
    Took algos a none t = is_chosen algos a ≡ false
    Took algos a (some s) t = (is_chosen algos a ≡ true) × Holds a s t

    pub record IsHasher (algos : ℕ) (h : Hasher ssl) (t : Bytes) : Type 0 where
      pub t_md5 : Took algos md5 h.s_md5 t
      pub t_sha1 : Took algos sha1 h.s_sha1 t
      pub t_sha256 : Took algos sha256 h.s_sha256 t
      pub t_sha384 : Took algos sha384 h.s_sha384 t
      pub t_sha512 : Took algos sha512 h.s_sha512 t

    -- The digest of the whole text of an algorithm that was chosen, and no other.
    unfoldable pub chosen_digest : ℕ → Bytes → Algo → Bytes
    chosen_digest algos t a = if is_chosen algos a then hash a t else []

    unfoldable pub chosen_digests : ℕ → Bytes → Digests
    chosen_digests algos t = record {
      d_md5 = chosen_digest algos t md5;
      d_sha1 = chosen_digest algos t sha1;
      d_sha256 = chosen_digest algos t sha256;
      d_sha384 = chosen_digest algos t sha384;
      d_sha512 = chosen_digest algos t sha512;
    }

    create_one-Took :
        (algos : ℕ) (a : Algo)
        → (c : Option (Ctx a)) × (create_one ssl algos a ≡ ok c) × Took algos a c []
    unfolding create_one
    create_one-Took algos a = elim (Bool-cases (is_chosen algos a)) [
      | inl yes' ↦
          let (s, n, e, holds) = begins_empty a in
          (some s, rw (yes', room a, e) refl, (yes', holds))
      | inr no' ↦ (none, rw no' refl, no')
    ]

    update_one-Took :
        (algos : ℕ) (a : Algo) (c : Option (Ctx a)) (t u : Bytes)
        → Took algos a c t
        → (c' : Option (Ctx a)) × (update_one ssl a c u ≡ ok c') × Took algos a c' (t ++ u)
    unfolding update_one
    update_one-Took algos a none t u h = (none, refl, h)
    update_one-Took algos a (some s) t u (chosen, h) =
        let (s', n, e, holds) = takes a s t u h in (some s', rw e refl, (chosen, holds))

    digest_one-Took :
        (algos : ℕ) (a : Algo) (c : Option (Ctx a)) (t : Bytes)
        → Took algos a c t
        → digest_one ssl a c ≡ ok (chosen_digest algos t a)
    unfolding digest_one chosen_digest
    digest_one-Took algos a none t h = rw h refl
    digest_one-Took algos a (some s) t (chosen, h) =
        let (n, e) = gives a s t h in
        rw (e, chosen, take_all (hash_algo_digest_len a) (hash a t) (sized_hash a t)) refl

    pub hasher_create-IsHasher :
        (algos : ℕ) → (h : Hasher ssl) × (hasher_create ssl algos ≡ ok h) × IsHasher algos h []
    unfolding hasher_create
    hasher_create-IsHasher algos =
        let (c0, e0, t0) = create_one-Took algos md5 in
        let (c1, e1, t1) = create_one-Took algos sha1 in
        let (c2, e2, t2) = create_one-Took algos sha256 in
        let (c3, e3, t3) = create_one-Took algos sha384 in
        let (c4, e4, t4) = create_one-Took algos sha512 in
        (
          _,
          rw (e0, e1, e2, e3, e4) refl,
          record { t_md5 = t0; t_sha1 = t1; t_sha256 = t2; t_sha384 = t3; t_sha512 = t4 },
        )

    pub hasher_update-IsHasher :
        (algos : ℕ) (h : Hasher ssl) (t u : Bytes)
        → IsHasher algos h t
        → (h' : Hasher ssl) × (hasher_update ssl h u ≡ ok h') × IsHasher algos h' (t ++ u)
    unfolding hasher_update
    hasher_update-IsHasher algos h t u took =
        let (c0, e0, t0) = update_one-Took algos md5 h.s_md5 t u took.t_md5 in
        let (c1, e1, t1) = update_one-Took algos sha1 h.s_sha1 t u took.t_sha1 in
        let (c2, e2, t2) = update_one-Took algos sha256 h.s_sha256 t u took.t_sha256 in
        let (c3, e3, t3) = update_one-Took algos sha384 h.s_sha384 t u took.t_sha384 in
        let (c4, e4, t4) = update_one-Took algos sha512 h.s_sha512 t u took.t_sha512 in
        (
          _,
          rw (e0, e1, e2, e3, e4) refl,
          record { t_md5 = t0; t_sha1 = t1; t_sha256 = t2; t_sha384 = t3; t_sha512 = t4 },
        )

    pub hasher_digests-IsHasher :
        (algos : ℕ) (h : Hasher ssl) (t : Bytes)
        → IsHasher algos h t
        → hasher_digests ssl h ≡ ok (chosen_digests algos t)
    unfolding hasher_digests chosen_digests
    hasher_digests-IsHasher algos h t took =
        rw
          (
            digest_one-Took algos md5 h.s_md5 t took.t_md5,
            digest_one-Took algos sha1 h.s_sha1 t took.t_sha1,
            digest_one-Took algos sha256 h.s_sha256 t took.t_sha256,
            digest_one-Took algos sha384 h.s_sha384 t took.t_sha384,
            digest_one-Took algos sha512 h.s_sha512 t took.t_sha512,
          )
          refl

    hash_pieces-IsHasher :
        (algos : ℕ) (h : Hasher ssl) (t : Bytes) (ps : List Bytes)
        → IsHasher algos h t
        → hash_pieces h ps ≡ ok (chosen_digests algos (t ++ joined ps))
    unfolding hash_pieces joined
    hash_pieces-IsHasher algos h t [] took =
        hasher_digests-IsHasher algos h t took
        ∙ ap (λ u. ok (chosen_digests algos u)) (sym (append-nil t))
    hash_pieces-IsHasher algos h t (p ∷ ps) took =
        let (h', e, took') = hasher_update-IsHasher algos h t p took in
        rw e (
          hash_pieces-IsHasher algos h' (t ++ p) ps took'
          ∙ ap (λ u. ok (chosen_digests algos u)) (append_assoc t p (joined ps)))

    -- With digests as OpenSSL documents them, a hasher that is created for `algos` and takes the pieces
    -- of a text one after the other gives the digest of the whole text for each of those algorithms, and
    -- an empty one for each other.
    pub hash_pieces-whole :
        (algos : ℕ) (ps : List Bytes)
        → (hasher_create ssl algos >>= λ h. hash_pieces h ps)
          ≡ ok (chosen_digests algos (joined ps))
    hash_pieces-whole algos ps =
        let (h, e, took) = hasher_create-IsHasher algos in
        rw e (hash_pieces-IsHasher algos h [] ps took)
