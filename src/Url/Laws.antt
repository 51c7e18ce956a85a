-- ===== src/Url/Laws.antt =====
-- What `url_normalize` and `url_normalize_surt` promise.
use hash_archive.Prelude.{
  ℕ, zero, suc, ◌+◌, ◌≤◌, true, false, Bytes, [], ◌∷◌, ◌++◌, append_assoc, append-nil, codes,
  take_all, length, length-append, List, some, All, strip, ◌-◌, ◌<◌, one_of, is_digit, ◌≡◌, refl,
  sym, ◌∙◌, ap, arith,
}
use hash_archive.Error.{ok}
use hash_archive.Url.{Url, is_empty, url_parse, url_text, print_fits, url_format, url_normalize}
use hash_archive.Url.Surt.{label_char, labels, append_labels, domain_reverse}
use hash_archive.Url.Scan.{run}
use hash_archive.Url.Normal.{parse-url_text, run-append, run_whole}
use hash_archive.Url.Parsed.{parse-IsNormal}

printed : (s out : Bytes) (max : ℕ) → print_fits s max ≡ ok out → s ≡ out
unfolding print_fits
printed s out max e = ground arith

-- A URL with a scheme that is normalized is normalized to itself, in any buffer that held it: what
-- the widths of the scan cut off, the fragment, and the case of scheme and host are gone at once.
pub url_normalize_again :
    (s text : Bytes) (u : Url) (max : ℕ)
    → url_parse (some s) ≡ ok u
    → is_empty u.scheme ≡ false
    → url_normalize (some s) max ≡ ok text
    → (url_parse (some text) ≡ ok u) × (url_normalize (some text) max ≡ ok text)
unfolding url_normalize url_format
url_normalize_again s text u max parsed there e =
    let e' = rw parsed at e in
    let same = printed (url_text u) text max e' in
    let back = parse-url_text u (parse-IsNormal s u parsed there) in
    let f = rw same at back in (f, rw f e')

-- A domain of labels, and its reversal.
pub dotted : List Bytes → Bytes
dotted [] = []
dotted (d ∷ []) = d
dotted (d ∷ e ∷ ds) = d ++ (codes "." ++ dotted (e ∷ ds))

unfoldable pub reversed : List Bytes → Bytes
reversed [] = []
reversed (d ∷ ds) = reversed ds ++ (d ++ codes ",")

abbrev pub IsLabel : Bytes → Type 0
IsLabel d = (is_empty d ≡ false) × All (λ c. label_char c ≡ true) d

dot_stops : label_char b'.' ≡ false
unfolding one_of is_digit
dot_stops = refl

labels-dotted :
    (n : ℕ) (ds : List Bytes) → All IsLabel ds → length ds ≤ n → labels n (dotted ds) ≡ ds
unfolding labels dotted run
labels-dotted zero [] h n = refl
labels-dotted zero (d ∷ ds) h n = absurd (omega arith)
labels-dotted (suc n) [] h k = refl
labels-dotted (suc n) (d ∷ []) ((there, set), _) k = last n d there set
  where
    last :
        (n : ℕ) (d : Bytes)
        → is_empty d ≡ false
        → All (λ c. label_char c ≡ true) d
        → labels (suc n) d ≡ d ∷ []
    last n [] there set = cc
    last n (c ∷ d) there set =
        let e = run_whole (length (c ∷ d)) label_char (c ∷ d) set (omega arith) in
        rw (e, labels) (unfold strip in refl)
labels-dotted (suc n) (d ∷ e ∷ ds) ((there, set), h) k =
    front d (dotted (e ∷ ds)) there set (labels-dotted n (e ∷ ds) h (omega arith))
  where
    front :
        (d rest : Bytes)
        → is_empty d ≡ false
        → All (λ c. label_char c ≡ true) d
        → labels n rest ≡ e ∷ ds
        → labels (suc n) (d ++ (codes "." ++ rest)) ≡ d ∷ e ∷ ds
    front [] rest there set ih = cc
    front (c ∷ d) rest there set ih =
        let s = (c ∷ d) ++ (codes "." ++ rest) in
        let e =
          run-append (length s) label_char (c ∷ d) (codes "." ++ rest) set
            (omega (arith, length-append (c ∷ d) (codes "." ++ rest))) dot_stops in
        rw (e, labels) (unfold strip in ap (◌∷◌ (c ∷ d)) ih)

append_labels_fits :
    (ds : List Bytes) (out : Bytes) (max : ℕ)
    → length out + length (reversed ds) < max
    → append_labels ds out max ≡ out ++ reversed ds
unfolding append_labels reversed
append_labels_fits [] out max h = sym (append-nil out)
append_labels_fits (d ∷ ds) out max h =
    let n = length-append (reversed ds) (d ++ codes ",") in
    let m = length-append d (codes ",") in
    let k = length-append (out ++ reversed ds) d in
    let l = length-append out (reversed ds) in
    let j = length-append ((out ++ reversed ds) ++ d) (codes ",") in
    rw
      (
        append_labels_fits ds out max (omega (arith, n, m)),
        take_all (max - 1) ((out ++ reversed ds) ++ d) (omega (arith, n, m, k, l)),
        take_all (max - 1) (((out ++ reversed ds) ++ d) ++ codes ",")
            (omega (arith, n, m, k, l, j)),
      )
      (append_assoc (out ++ reversed ds) d (codes ",")
        ∙ append_assoc out (reversed ds) (d ++ codes ","))

-- A domain of one to eight labels, of which each is made of lower-case letters, digits and dashes,
-- and that is at most 252 bytes long, is reversed label by label, with a comma behind each.
pub domain_reverse-dotted :
    (ds : List Bytes)
    → All IsLabel ds
    → length ds ≤ 8
    → length (reversed ds) ≤ 253
    → domain_reverse (some (dotted ds)) 256 ≡ ok (codes "(" ++ (reversed ds ++ codes ")"))
unfolding domain_reverse
domain_reverse-dotted ds h n m =
    let k = length-append (codes "(" ++ reversed ds) (codes ")") in
    rw (
      labels-dotted 8 ds h n,
      append_labels_fits ds (codes "(") 256 (omega arith),
      take_all 255 ((codes "(" ++ reversed ds) ++ codes ")") (omega (arith, k)),
    )
