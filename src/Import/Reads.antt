-- ===== src/Import/Reads.antt =====
-- What a sender writes is read.
use hash_archive.Prelude.{
  ℕ, suc, ◌-◌, ◌^◌, ◌≤◌, ◌<◌, Bool, true, false, Bytes, [], ◌∷◌, ◌++◌, append_assoc, take, drop,
  take-append, drop-append, length, ltb, leb, ◌==◌, if◌then◌else◌, All, ◌≡◌, ◌≢◌, refl, sym, ap,
  subst, ◌∙◌, arith,
}
use hash_archive.Error.{Result, ok, err, uv_eof, uv_emsgsize, aborted}
use hash_archive.Hash.Algo.{
  Algo, md5, sha1, sha256, sha384, sha512, hash_algo_digest_len, hash_digest_max,
}
use hash_archive.Db.Response.{
  ℤ, pos, negsuc, Response, unpack_status, unpack_status-pack_status, unpack_status_pos,
  pack_status, uri_max, type_max,
}
use hash_archive.Step.{Reading, go_on, ◌>>=◌, pure, fail}
use hash_archive.Import.{
  Stream, async_read, c_string, read_len, read_uint16, read_uint64, read_string, read_blob,
  read_hash, discard, read_hashes, read_one,
}
use hash_archive.Import.Wire.{
  big_endian, length-big_endian, number-big_endian, sized, sent_status, sent, IsSendable, IsStatus,
  received,
}

c_string_whole : (s : Bytes) → All (λ c. c ≢ 0) s → c_string s ≡ s
unfolding c_string
c_string_whole [] h = refl
c_string_whole (c ∷ s) (hc, h) = ground (arith, c_string_whole s h)

longest : (a : Algo) → hash_algo_digest_len a ≤ 64
unfolding hash_algo_digest_len
longest md5 = omega arith
longest sha1 = omega arith
longest sha256 = omega arith
longest sha384 = omega arith
longest sha512 = omega arith

sent_status_fits : (s : ℤ) → IsStatus s → sent_status s < 2 ^ 64
sent_status_fits (pos n) h = omega arith
sent_status_fits (negsuc n) h = omega arith

unpack_status-sent_status : (s : ℤ) → IsStatus s → unpack_status (sent_status s) ≡ s
unfolding pack_status
unpack_status-sent_status (pos n) h = unpack_status_pos n h
unpack_status-sent_status (negsuc n) h =
    unpack_status-pack_status (negsuc n) (0xffff - suc n) (omega arith) (ground arith)

module _ (stream : Stream) where
  open stream use {State, read}

  -- The stream is the bytes `contents`: `async_read` returns as many as it is asked for, or all.
  pub record IsBytes (contents : State → Bytes) : Type 0 where
    pub returns : (s : State) (n : ℕ) → (read s n).0 ≡ ok (take n (contents s))
    pub leaves : (s : State) (n : ℕ) → contents (read s n).1 ≡ drop n (contents s)

  module _ (contents : State → Bytes) (bytes : IsBytes contents) where
    open bytes use {returns, leaves}

    -- The step reads exactly `text`, whatever follows, and returns `v`.
    abbrev pub Reads : {A : Type 0} → Reading State A → Bytes → A → Type 0
    Reads {A} m text v =
        (s : State) (rest : Bytes)
        → contents s ≡ text ++ rest
        → ((m s).0 ≡ ok v) × (contents (m s).1 ≡ rest)

    pub Reads->>= :
        {A B : Type 0} (m : Reading State A) (k : A → Reading State B) (t u : Bytes) (v : A) (w : B)
        → Reads m t v
        → Reads (k v) u w
        → Reads (m >>= k) (t ++ u) w
    Reads->>= {A} {B} m k t u v w rm rk s rest e =
        let (a, b) = rm s (u ++ rest) (e ∙ append_assoc t u rest) in go (m s) a b
      where
        go :
            (x : Result A × State)
            → x.0 ≡ ok v
            → contents x.1 ≡ u ++ rest
            → ((go_on x k).0 ≡ ok w) × (contents (go_on x k).1 ≡ rest)
        go (ok a, s') f c = let same : v ≡ a = cc in rw (← same) (rk s' rest c)
        go (err x, s') f c = cc

    Reads-pure : {A : Type 0} (v : A) → Reads (pure v) [] v
    Reads-pure v s rest e = (refl, e)

    -- A step that is followed by a computation.
    pub Reads-map :
        {A B : Type 0} (m : Reading State A) (k : A → Reading State B) (t : Bytes) (v : A) (w : B)
        → Reads m t v
        → k v ≡ pure w
        → Reads (m >>= k) t w
    Reads-map {A} {B} m k t v w rm e s rest c = let (a, b) = rm s rest c in go (m s) a b
      where
        go :
            (x : Result A × State)
            → x.0 ≡ ok v
            → contents x.1 ≡ rest
            → ((go_on x k).0 ≡ ok w) × (contents (go_on x k).1 ≡ rest)
        go (ok a, s') f d =
            let same : v ≡ a = cc in
            subst (λ y. ((k y s').0 ≡ ok w) × (contents (k y s').1 ≡ rest)) same
              (subst (λ f. ((f s').0 ≡ ok w) × (contents (f s').1 ≡ rest)) (sym e) (refl, d))
        go (err x, s') f d = cc

    pub read_len-Reads : (x : Bytes) → Reads (read_len stream (length x)) x x
    unfolding read_len
    read_len-Reads [] s rest e = (refl, e)
    read_len-Reads (c ∷ x) s rest e = some_bytes (suc (length x) == 0) (ground arith) s rest e
      where
        checked : (a : Bytes) → Reading State Bytes
        checked a = if ltb (length a) (suc (length x)) then fail uv_eof else pure a

        enough : ltb (suc (length x)) (suc (length x)) ≡ false
        enough = ground arith

        go :
            (y : Result Bytes × State) (rest : Bytes)
            → y.0 ≡ ok (c ∷ x)
            → contents y.1 ≡ rest
            → ((go_on y checked).0 ≡ ok (c ∷ x)) × (contents (go_on y checked).1 ≡ rest)
        go (ok a, s') rest f d =
            let same : c ∷ x ≡ a = cc in
            subst (λ z. ((checked z s').0 ≡ ok (c ∷ x)) × (contents (checked z s').1 ≡ rest)) same
              (rw enough (refl, d))
        go (err y, s') rest f d = cc

        some_bytes :
            (b : Bool)
            → b ≡ false
            → Reads
                (if b then pure [] else (async_read stream (suc (length x)) >>= λ a. checked a))
                (c ∷ x)
                (c ∷ x)
        some_bytes true f s rest e = cc
        some_bytes false f s rest e =
            go (read s (suc (length x))) rest
              (returns s (suc (length x))
                ∙ ap (λ t. ok (take (suc (length x)) t)) e
                ∙ ap ok (take-append (c ∷ x) rest))
              (leaves s (suc (length x)) ∙ ap (drop (suc (length x))) e ∙ drop-append (c ∷ x) rest)

    read_uint16-Reads : (n : ℕ) → n < 2 ^ 16 → Reads (read_uint16 stream) (big_endian 2 n) n
    unfolding read_uint16
    read_uint16-Reads n h =
        Reads-map _ _ _ (big_endian 2 n) n
          (subst (λ k. Reads (read_len stream k) (big_endian 2 n) (big_endian 2 n))
            (length-big_endian 2 n) (read_len-Reads (big_endian 2 n)))
          (ap pure (number-big_endian 2 n (omega arith)))

    read_uint64-Reads : (n : ℕ) → n < 2 ^ 64 → Reads (read_uint64 stream) (big_endian 8 n) n
    unfolding read_uint64
    read_uint64-Reads n h =
        Reads-map _ _ _ (big_endian 8 n) n
          (subst (λ k. Reads (read_len stream k) (big_endian 8 n) (big_endian 8 n))
            (length-big_endian 8 n) (read_len-Reads (big_endian 8 n)))
          (ap pure (number-big_endian 8 n (omega arith)))

    read_string-Reads :
        (max : ℕ) (x : Bytes)
        → max ≤ 2 ^ 16
        → length x < max
        → All (λ c. c ≢ 0) x
        → Reads (read_string stream max) (sized x) x
    unfolding read_string sized
    read_string-Reads max x small h text =
        Reads->>= _ _ (big_endian 2 (length x)) x (length x) x
          (read_uint16-Reads (length x) (omega arith)) (fits (leb max (length x)) (ground arith))
      where
        fits :
            (b : Bool)
            → b ≡ false
            → Reads
                (if b
                  then fail uv_emsgsize
                  else (read_len stream (length x) >>= λ s. pure (c_string s)))
                x
                x
        fits true e = cc
        fits false e = Reads-map _ _ x x x (read_len-Reads x) (ap pure (c_string_whole x text))

    read_blob-Reads :
        (max : ℕ) (x : Bytes)
        → max < 2 ^ 16
        → length x ≤ max
        → Reads (read_blob stream max) (sized x) x
    unfolding read_blob sized
    read_blob-Reads max x small h =
        Reads->>= _ _ (big_endian 2 (length x)) x (length x) x
          (read_uint16-Reads (length x) (omega arith)) (fits (ltb max (length x)) (ground arith))
      where
        fits :
            (b : Bool)
            → b ≡ false
            → Reads (if b then fail uv_emsgsize else read_len stream (length x)) x x
        fits true e = cc
        fits false e = read_len-Reads x

    read_hash-Reads :
        (i : ℕ) (a : Algo) (x : Bytes)
        → i < 5
        → length x ≤ hash_algo_digest_len a
        → Reads (read_hash stream 5 i a) (sized x) x
    unfolding read_hash
    read_hash-Reads i a x small h = known (ltb i 5) (ground arith)
      where
        known :
            (b : Bool)
            → b ≡ true
            → Reads
                (if b
                  then (read_blob stream hash_digest_max >>= λ d.
                      if leb (length d) (hash_algo_digest_len a) then pure d else fail aborted)
                  else pure [])
                (sized x)
                x
        known false e = cc
        known true e =
            Reads-map _ _ (sized x) x x
              (read_blob-Reads 64 x (omega arith) (omega (arith, longest a)))
              (let f : leb (length x) (hash_algo_digest_len a) ≡ true = ground arith in rw f)

    read_hashes-Reads :
        (r : Response)
        → IsSendable r
        → Reads
            (read_hashes stream 5)
            (sized r.digests.d_md5
              ++ (sized r.digests.d_sha1
                  ++ (sized r.digests.d_sha256
                      ++ (sized r.digests.d_sha384 ++ sized r.digests.d_sha512))))
            r.digests
    unfolding read_hashes discard hash_algo_digest_len
    read_hashes-Reads r h =
        Reads->>= _ _ (sized r.digests.d_md5) _ r.digests.d_md5 _
          (read_hash-Reads 0 md5 r.digests.d_md5 (omega arith) h.md5_fits)
          (Reads->>= _ _ (sized r.digests.d_sha1) _ r.digests.d_sha1 _
            (read_hash-Reads 1 sha1 r.digests.d_sha1 (omega arith) h.sha1_fits)
            (Reads->>= _ _ (sized r.digests.d_sha256) _ r.digests.d_sha256 _
              (read_hash-Reads 2 sha256 r.digests.d_sha256 (omega arith) h.sha256_fits)
              (Reads->>= _ _ (sized r.digests.d_sha384) _ r.digests.d_sha384 _
                (read_hash-Reads 3 sha384 r.digests.d_sha384 (omega arith) h.sha384_fits)
                (Reads-map _ _ (sized r.digests.d_sha512) r.digests.d_sha512 _
                  (read_hash-Reads 4 sha512 r.digests.d_sha512 (omega arith) h.sha512_fits) refl))))

    pub read_one-Reads :
        (blank r : Response)
        → IsSendable r
        → Reads (read_one stream blank) (sent r) (received blank r)
    unfolding read_one sent
    read_one-Reads blank r h =
        Reads->>= _ _ (big_endian 8 r.time) _ r.time _ (read_uint64-Reads r.time h.time_fits) (
          Reads->>= _ _ (sized r.url) _ r.url _
            (read_string-Reads uri_max r.url (omega arith) h.url_text.0 h.url_text.1)
            (Reads->>= _ _ (big_endian 8 (sent_status r.status)) _ (sent_status r.status) _
              (read_uint64-Reads (sent_status r.status) (sent_status_fits r.status h.status_fits))
              (Reads->>= _ _ (sized r.type) _ r.type _
                (read_string-Reads type_max r.type (omega arith) h.type_text.0 h.type_text.1)
                (Reads->>= _ _ (big_endian 8 r.length) _ r.length _
                  (read_uint64-Reads r.length h.length_fits)
                  (Reads->>= _ _ (big_endian 2 5) _ 5 _ (read_uint16-Reads 5 (omega arith)) (
                    Reads-map _ _ _ r.digests _ (read_hashes-Reads r h) (
                      ap (λ st. pure (record (received blank r) { status = st }))
                        (unpack_status-sent_status r.status h.status_fits))))))))

    -- At the end of the stream there is no response.
    abbrev pub AtEnd : {A : Type 0} → Reading State A → Type 0
    AtEnd m = (s : State) → contents s ≡ [] → ((m s).0 ≡ err uv_eof) × (contents (m s).1 ≡ [])

    AtEnd->>= :
        {A B : Type 0} (m : Reading State A) (k : A → Reading State B) → AtEnd m → AtEnd (m >>= k)
    AtEnd->>= {A} m k h s e = let (a, b) = h s e in go (m s) a b
      where
        go :
            (x : Result A × State)
            → x.0 ≡ err uv_eof
            → contents x.1 ≡ []
            → ((go_on x k).0 ≡ err uv_eof) × (contents (go_on x k).1 ≡ [])
        go (ok a, s') f c = cc
        go (err x, s') f c = (cc, c)

    read_len-AtEnd : AtEnd (read_len stream 8)
    unfolding read_len
    read_len-AtEnd s e =
        go (read s 8) (returns s 8 ∙ ap (λ t. ok (take 8 t)) e) (leaves s 8 ∙ ap (drop 8) e)
      where
        checked : Bytes → Reading State Bytes
        checked a = if ltb (length a) 8 then fail uv_eof else pure a

        go :
            (x : Result Bytes × State)
            → x.0 ≡ ok []
            → contents x.1 ≡ []
            → ((go_on x checked).0 ≡ err uv_eof) × (contents (go_on x checked).1 ≡ [])
        go (ok [], s') f c = (refl, c)
        go (ok (y ∷ a), s') f c = cc
        go (err x, s') f c = cc

    pub read_one-AtEnd : (blank : Response) → AtEnd (read_one stream blank)
    unfolding read_one read_uint64
    read_one-AtEnd blank = AtEnd->>= _ _ (AtEnd->>= _ _ read_len-AtEnd)
