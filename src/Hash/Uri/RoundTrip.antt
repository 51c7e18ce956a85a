-- ===== src/Hash/Uri/RoundTrip.antt =====
-- What the parsers read of what the printer writes.
use hash_archive.Prelude.{
  Bytes, [], ◌++◌, append_assoc, true, length, All, codes, span-append, span_whole, Stops, strip,
  strip_case-append, is_alnum, is_digit, one_of, leb, ◌==◌, some, ◌≡◌, refl, arith, ◌⊎◌, inl, inr,
}
use hash_archive.Hash.Algo.{Algo, md5, sha1, sha256, sha384, sha512, hash_algo_names}
use hash_archive.Hash.Uri.Match.{
  name_char, path_char, named_char, prefix_char, ssb_char, ssb_name_char, match_hash_uri,
  match_prefix, match_named_info, match_ssb, match_magnet, optional_group,
}
use hash_archive.Hash.Uri.Codec.{names-alnum, names_long, or_left, magnet_last_found}

pub match_hash_uri_text :
    (a : Algo) (s : Bytes)
    → All (λ c. is_alnum c ≡ true) s
    → match_hash_uri (codes "hash://" ++ (hash_algo_names a ++ (codes "/" ++ s)))
      ≡ some (hash_algo_names a, s)
unfolding match_hash_uri strip optional_group
match_hash_uri_text a s h =
    rw
      (
        strip_case-append (codes "hash://") (hash_algo_names a ++ (codes "/" ++ s)),
        span-append name_char (hash_algo_names a) (codes "/" ++ s) (or_left _ _ _ (names-alnum a))
            (unfold is_alnum one_of in refl),
        names_long a,
        span_whole path_char s (or_left _ _ _ h),
      )
      (ground arith)

pub match_named_info_text :
    (a : Algo) (s : Bytes)
    → All (λ c. named_char c ≡ true) s
    → match_named_info (codes "ni:///" ++ (hash_algo_names a ++ (codes ";" ++ s)))
      ≡ some (hash_algo_names a, s)
unfolding match_named_info strip
match_named_info_text a s h =
    rw
      (
        strip_case-append (codes "ni:///") (hash_algo_names a ++ (codes ";" ++ s)),
        span-append name_char (hash_algo_names a) (codes ";" ++ s) (or_left _ _ _ (names-alnum a))
            (unfold is_alnum one_of in refl),
        names_long a,
        span_whole named_char s h,
      )
      (ground arith)

pub match_prefix_text :
    (a : Algo) (s : Bytes)
    → All (λ c. prefix_char c ≡ true) s
    → match_prefix (hash_algo_names a ++ (codes "-" ++ s)) ≡ some (hash_algo_names a, s)
unfolding match_prefix strip
match_prefix_text a s h =
    rw
      (
        span-append is_alnum (hash_algo_names a) (codes "-" ++ s) (names-alnum a)
            (unfold is_alnum in refl),
        names_long a,
        span_whole prefix_char s h,
      )
      (ground arith)

pub match_magnet_text :
    (a : Algo) (s : Bytes)
    → All (λ c. is_alnum c ≡ true) s
    → match_magnet (codes "magnet:?xt=urn:" ++ (hash_algo_names a ++ (codes ":" ++ s)))
      ≡ some (hash_algo_names a, s)
unfolding match_magnet
match_magnet_text a s h =
    rw
      (strip_case-append (codes "magnet:")
        (codes "?xt=urn:" ++ (hash_algo_names a ++ (codes ":" ++ s))))
      (magnet_last_found a s h)

names-ssb : (a : Algo) → All (λ c. ssb_name_char c ≡ true) (hash_algo_names a)
unfolding hash_algo_names is_digit
names-ssb md5 = (refl, (refl, (refl, tt)))
names-ssb sha1 = (refl, (refl, (refl, (refl, tt))))
names-ssb sha256 = (refl, (refl, (refl, (refl, (refl, (refl, tt))))))
names-ssb sha384 = (refl, (refl, (refl, (refl, (refl, (refl, tt))))))
names-ssb sha512 = (refl, (refl, (refl, (refl, (refl, (refl, tt))))))

names_three : (a : Algo) → leb 3 (length (hash_algo_names a)) ≡ true
unfolding hash_algo_names
names_three md5 = refl
names_three sha1 = refl
names_three sha256 = refl
names_three sha384 = refl
names_three sha512 = refl

long_enough : (s : Bytes) → leb 0 (length s) ≡ true
long_enough s = ground arith

ssb_groups :
    (a : Algo) (s p : Bytes)
    → All (λ c. ssb_char c ≡ true) s
    → All (λ c. (c == b'=') ≡ true) p
    → leb (length p) 3 ≡ true
    → Stops ssb_char (p ++ (codes "." ++ hash_algo_names a))
    → match_ssb (codes "&" ++ ((s ++ p) ++ (codes "." ++ hash_algo_names a)))
      ≡ some (s ++ p, hash_algo_names a)
unfolding match_ssb strip
ssb_groups a s p h hp n stops =
    rw
      (
        append_assoc s p (codes "." ++ hash_algo_names a),
        span-append ssb_char s (p ++ (codes "." ++ hash_algo_names a)) h stops,
        long_enough s,
        span-append (λ c. c == b'=') p (codes "." ++ hash_algo_names a) hp refl,
        long_enough p,
        n,
        span_whole ssb_name_char (hash_algo_names a) (names-ssb a),
        names_three a,
      )
      (ground arith)

pub match_ssb_text :
    (a : Algo) (s p : Bytes)
    → All (λ c. ssb_char c ≡ true) s
    → (p ≡ []) ⊎ (p ≡ codes "=") ⊎ (p ≡ codes "==")
    → match_ssb (codes "&" ++ ((s ++ p) ++ (codes "." ++ hash_algo_names a)))
      ≡ some (s ++ p, hash_algo_names a)
match_ssb_text a s p h (inl e) = rw e (ssb_groups a s [] h tt refl (unfold is_alnum one_of in refl))
match_ssb_text a s p h (inr (inl e)) =
    rw e (ssb_groups a s (codes "=") h (refl, tt) refl (unfold is_alnum one_of in refl))
match_ssb_text a s p h (inr (inr e)) =
    rw e (ssb_groups a s (codes "==") h (refl, (refl, tt)) refl (unfold is_alnum one_of in refl))
