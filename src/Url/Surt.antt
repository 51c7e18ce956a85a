-- ===== src/Url/Surt.antt =====
-- `domain_reverse` and `url_normalize_surt` of src/util/url.c: the key of a URL in the database.
use hash_archive.Prelude.{
  ℕ, zero, suc, Bool, Bytes, [], ◌∷◌, ◌++◌, codes, fit, strlcat, one_of, is_digit, leb, ◌&&◌, ◌||◌,
  List, Option, none, some,
}
use hash_archive.Error.{einval, Result, ok, ◌>>=◌, non_null}
use hash_archive.Url.Scan.{scan, scan_literal}
use hash_archive.Url.{url_parse, url_format, host_parse, host_format}

-- `SUBDOMAIN_FMT`; the pattern has no width, so the run is as long as the text.
abbrev pub label_char : ℕ → Bool
label_char c = (leb b'a' c && leb c b'z') || is_digit c || one_of (codes "-") c

-- Eight labels with dots between them; the scan ends at the first that is not there.
unfoldable pub labels : ℕ → Bytes → List Bytes
labels zero s = []
labels (suc n) s = elim (scan (hash_archive.Prelude.length s) label_char s) [
  | none ↦ []
  | some (label, rest) ↦ elim (scan_literal (codes ".") rest) [
    | none ↦ label ∷ []
    | some rest' ↦ label ∷ labels n rest'
  ]
]

-- `for(i = numberof(d); i-- > 0;)`: the last label is appended first.
unfoldable pub append_labels : List Bytes → Bytes → ℕ → Bytes
append_labels [] out max = out
append_labels (d ∷ ds) out max = strlcat (strlcat (append_labels ds out max) d max) (codes ",") max

unfoldable pub domain_reverse : Option Bytes → ℕ → Result Bytes
domain_reverse domain max = non_null domain einval >>= λ s.
    ok (strlcat (append_labels (labels 8 s) (fit max (codes "(")) max) (codes ")") max)

abbrev pub url_domain_max : ℕ
url_domain_max = 256

abbrev pub url_host_max : ℕ
url_host_max = 256

unfoldable pub url_normalize_surt : Option Bytes → ℕ → Result Bytes
url_normalize_surt url max = url_parse url >>= λ u. host_parse (some u.host) >>= λ h.
    domain_reverse (some h.domain) url_domain_max >>= λ domain.
    host_format (some (record h { domain = domain })) url_host_max >>= λ host.
    url_format (some (record u { host = host })) max
