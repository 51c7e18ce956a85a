-- ===== src/Url.antt =====
-- src/util/url.h and src/util/url.c. A text buffer is the C string in it; the sizes are the widths of
-- the `sscanf` formats. The key of a URL in the database is in the child `Surt`.
pub mod Scan
pub mod Surt
pub mod Normal
pub mod Parsed
pub mod Laws
use hash_archive.Prelude.{
  ℕ, Bool, true, false, Bytes, [], ◌∷◌, ◌++◌, codes, map, to_lower, length, leb, ◌==◌, not, ◌&&◌,
  ◌||◌, if◌then◌else◌, Option, none, some, is_alnum, is_digit, one_of,
}
use hash_archive.Error.{einval, enametoolong, url_eparse, Result, ok, err, ◌>>=◌, non_null}
use Scan.{scan, scan_literal}

-- `url_t`; the fragment is not kept.
pub record Url : Type 0 where
  pub scheme : Bytes
  pub host : Bytes
  pub path : Bytes
  pub query : Bytes

-- `URL_SCHEME_FMT` and the others: a width and a scanset.
abbrev pub scheme_char : ℕ → Bool
scheme_char c = not (c == b':')

abbrev pub host_char : ℕ → Bool
host_char c = not (c == b'/')

abbrev pub path_char : ℕ → Bool
path_char c = not (c == b'?') && not (c == b'#')

abbrev pub query_char : ℕ → Bool
query_char c = not (c == b'#')

-- `sscanf` fills the fields from the left, and those behind the first failure stay empty.
unfoldable pub scan_path : Bytes → Bytes × Bytes
scan_path s = elim (scan 1023 path_char s) [
  | none ↦ ([], [])
  | some (path, rest) ↦ elim (scan 1023 query_char rest) [
    | none ↦ (path, [])
    | some (query, rest') ↦ (path, query)
  ]
]

unfoldable pub scan_host : Bytes → Bytes → Url
scan_host scheme s = elim (scan 255 host_char s) [
  | none ↦ record { scheme = scheme; host = []; path = []; query = [] }
  | some (host, rest) ↦ record {
    scheme = scheme;
    host = host;
    path = (scan_path rest).0;
    query = (scan_path rest).1;
  }
]

unfoldable pub scan_absolute : Bytes → Url
scan_absolute s = elim (scan 31 scheme_char s) [
  | none ↦ record { scheme = []; host = []; path = []; query = [] }
  | some (scheme, rest) ↦ elim (scan_literal (codes "://") rest) [
    | none ↦ record { scheme = scheme; host = []; path = []; query = [] }
    | some rest' ↦ scan_host scheme rest'
  ]
]

abbrev pub is_empty : Bytes → Bool
is_empty [] = true
is_empty (c ∷ s) = false

-- `lead == field[0]`
abbrev pub begins : ℕ → Bytes → Bool
begins lead [] = false
begins lead (c ∷ s) = c == lead

-- The checks behind the three forms. Only now the scheme and the host are brought to lower case.
unfoldable pub check_url : Url → Result Url
check_url u =
    if not (is_empty u.path) && not (begins b'/' u.path)
    then err url_eparse
    else if not (is_empty u.query) && not (begins b'?' u.query)
    then err url_eparse
    else ok (record u { scheme = map to_lower u.scheme; host = map to_lower u.host })

-- `//host/path?query`
unfoldable pub scheme_relative : Url → Result Url
scheme_relative u = if is_empty u.host then err url_eparse else check_url u

-- `/path?query`
unfoldable pub host_relative : Url → Result Url
host_relative u = if not (begins b'/' u.path) then err url_eparse else check_url u

-- `scheme://host/path?query`
unfoldable pub absolute : Url → Result Url
absolute u =
    if is_empty u.scheme
    then err url_eparse
    else if is_empty u.host
    then err url_eparse
    else check_url u

abbrev pub scan_relative : Bytes → Url
scan_relative s = record { scheme = []; host = []; path = (scan_path s).0; query = (scan_path s).1 }

unfoldable pub parse_text : Bytes → Result Url
parse_text [] = absolute (scan_absolute [])
parse_text (a ∷ []) =
    if a == b'/' then host_relative (scan_relative (a ∷ [])) else absolute (scan_absolute (a ∷ []))
parse_text (a ∷ b ∷ s) =
    if a == b'/' && b == b'/'
    then scheme_relative (scan_host [] s)
    else if a == b'/'
    then host_relative (scan_relative (a ∷ b ∷ s))
    else absolute (scan_absolute (a ∷ b ∷ s))

unfoldable pub url_parse : Option Bytes → Result Url
url_parse url = non_null url einval >>= λ s. parse_text s

-- `snprintf` into `max` bytes, where a text that does not fit is an error.
unfoldable pub print_fits : Bytes → ℕ → Result Bytes
print_fits s max = if leb max (length s) then err enametoolong else ok s

abbrev pub url_text : Url → Bytes
url_text u = u.scheme ++ (codes "://" ++ (u.host ++ (u.path ++ u.query)))

unfoldable pub url_format : Option Url → ℕ → Result Bytes
url_format url max = non_null url einval >>= λ u. print_fits (url_text u) max

-- `host_t`
pub record Host : Type 0 where
  pub domain : Bytes
  pub port : Bytes

abbrev pub domain_char : ℕ → Bool
domain_char c = is_alnum c || one_of (codes ".-") c

unfoldable pub scan_port : Bytes → Bytes
scan_port rest = elim (scan_literal (codes ":") rest) [
  | none ↦ []
  | some digits ↦ elim (scan 15 is_digit digits) [ none ↦ [] | some (port, rest') ↦ port ]
]

unfoldable pub host_parse : Option Bytes → Result Host
host_parse host = non_null host einval >>= λ s. elim (scan 255 domain_char s) [
  | none ↦ err url_eparse
  | some (domain, rest) ↦ ok (record { domain = domain; port = scan_port rest })
]

unfoldable pub host_format : Option Host → ℕ → Result Bytes
host_format host max = non_null host einval >>= λ h.
    print_fits (if is_empty h.port then h.domain else h.domain ++ (codes ":" ++ h.port)) max

unfoldable pub url_normalize : Option Bytes → ℕ → Result Bytes
url_normalize url max = url_parse url >>= λ u. url_format (some u) max
