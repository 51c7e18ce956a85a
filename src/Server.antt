-- ===== src/Server.antt =====
-- src/server.c: which handler takes a request, and what the handlers of its own do. A handler that takes
-- a request returns no negative code, since `hx_httperr` has none, so the first that takes it is the last.
-- Reading the request and writing the answer are left out.
pub mod Lookup
pub mod Static
pub mod Answers
use hash_archive.Prelude.{
  ℕ, zero, suc, ◌+◌, ◌-◌, ◌*◌, ◌%◌, ◌^◌, ◌==◌, Bool, true, false, not, leb, ltb, min, ◌&&◌, ◌||◌,
  if◌then◌else◌, Bytes, [], ◌∷◌, ◌++◌, Option, none, some, codes, fit, strip, span, is_digit,
  case_eq,
}
use hash_archive.Error.{
  Error, hash_eparse, url_eparse, uv_eacces, overrun, aborted, Result, ok, err, ◌>>=◌,
}
use hash_archive.Hash.Uri.Parse.{Base58}
use hash_archive.Hash.Uri.Format.{hash_uri_normalize}
use hash_archive.Url.{Host, is_empty, begins, url_parse, host_parse, url_normalize}
use hash_archive.Url.Scan.{scan}
use hash_archive.Path.{path_subpath_secure}
use hash_archive.Db.Response.{uri_max}

pub data Method : Type 0 where
  http_get http_head http_post http_other : Method

-- The handlers, with what each has read from the URI.
pub data Route : Type 0 where
  to_index to_lookup to_critical to_static : Route
  to_history to_sources to_api_enqueue to_api_history to_api_sources : Bytes → Route
  to_api_dump : ℕ → ℕ → Route

-- `HTTP_GET != method && HTTP_HEAD != method`
abbrev pub is_read : Method → Bool
is_read http_get = true
is_read http_head = true
is_read http_post = false
is_read http_other = false

-- `uripathcmp` of src/util/strext.c: what stands behind the literal, or no match.
unfoldable pub uripathcmp : Bytes → Bytes → Result (Option Bytes)
uripathcmp [] input = err aborted
uripathcmp (c ∷ literal) input = elim (strip (c ∷ literal) input) [
  | none ↦ ok none
  | some rest ↦ if is_empty rest || begins b'?' rest then ok (some rest) else ok none
]

-- The callers pass the URI as the literal.
unfoldable pub at_path : Bytes → Bytes → Route → Result (Option Route)
at_path uri path route =
    uripathcmp uri path >>= λ found. ok (elim found [ none ↦ none | some rest ↦ some route ])

abbrev pub is_space : ℕ → Bool
is_space c = c == 32 || (leb 9 c && leb c 13)

unfoldable pub skip_space : Bytes → Bytes
skip_space [] = []
skip_space (c ∷ s) = let rest = skip_space s in if is_space c then rest else c ∷ s

abbrev pub first : Option (Bytes × Bytes) → Option Bytes
first none = none
first (some (arg, rest)) = some arg

abbrev pub arg_behind : Option Bytes → Option Bytes
arg_behind none = none
arg_behind (some s) = first (scan 1023 (λ c. not (is_space c)) (skip_space s))

-- `sscanf(URI, prefix "%1023s", arg)`, where an argument that stays empty is none.
unfoldable pub path_arg : Bytes → Bytes → Option Bytes
path_arg prefix uri = arg_behind (strip prefix uri)

unfoldable pub with_arg : (Bytes → Route) → Option Bytes → Option Route
with_arg f none = none
with_arg f (some s) = some (f s)

abbrev pub number_of : ℕ → Bytes → ℕ
number_of n [] = n
number_of n (c ∷ s) = number_of (n * 10 + (c - b'0')) s

-- `%llu`, as `strtoull`: a number that does not fit is the largest, and a sign is allowed.
abbrev pub of_digits : Bool → Bytes × Bytes → Option (ℕ × Bytes)
of_digits negative ([], rest) = none
of_digits negative (c ∷ s, rest) =
    let n = number_of 0 (c ∷ s) in
    if leb (2 ^ 64) n
    then some (2 ^ 64 - 1, rest)
    else if negative
    then some ((2 ^ 64 - n) % 2 ^ 64, rest)
    else some (n, rest)

abbrev pub signed : Bytes → Option (ℕ × Bytes)
signed [] = none
signed (c ∷ s) =
    if c == b'-'
    then of_digits true (span is_digit s)
    else if c == b'+'
    then of_digits false (span is_digit s)
    else of_digits false (span is_digit (c ∷ s))

unfoldable pub scan_llu : Bytes → Option (ℕ × Bytes)
scan_llu s = signed (skip_space s)

-- `sscanf(URI, "/api/dump/?start=%llu&duration=%llu", &start, &duration)`; both begin as 0.
unfoldable pub scan_dump : Bytes → ℕ × ℕ
scan_dump uri = elim (strip (codes "/api/dump/?start=") uri) [
  | none ↦ (0, 0)
  | some s ↦ elim (scan_llu s) [
    | none ↦ (0, 0)
    | some (start, rest) ↦ elim (strip (codes "&duration=") rest) [
      | none ↦ (start, 0)
      | some t ↦ elim (scan_llu t) [
        | none ↦ (start, 0)
        | some (duration, rest') ↦ (start, duration)
      ]
    ]
  ]
]

unfoldable pub dump_route : ℕ × ℕ → Option Route
dump_route (start, duration) =
    if start == 0 || duration == 0 then none else some (to_api_dump start duration)

-- `if(HTTP_GET != method && HTTP_HEAD != method) return -1;`
abbrev pub when_read : Method → Result (Option Route) → Result (Option Route)
when_read m r = if is_read m then r else ok none

unfoldable pub get_index : Method → Bytes → Result (Option Route)
get_index m uri = when_read m (at_path uri (codes "/") to_index)

unfoldable pub post_lookup : Method → Bytes → Result (Option Route)
post_lookup http_post uri = at_path uri (codes "/lookup") to_lookup
post_lookup m uri = ok none

unfoldable pub get_history : Method → Bytes → Result (Option Route)
get_history m uri = when_read m (ok (with_arg to_history (path_arg (codes "/history/") uri)))

unfoldable pub get_sources : Method → Bytes → Result (Option Route)
get_sources m uri = when_read m (ok (with_arg to_sources (path_arg (codes "/sources/") uri)))

unfoldable pub get_critical : Method → Bytes → Result (Option Route)
get_critical m uri = when_read m (at_path uri (codes "/critical/") to_critical)

unfoldable pub get_api_enqueue : Method → Bytes → Result (Option Route)
get_api_enqueue m uri =
    when_read m (ok (with_arg to_api_enqueue (path_arg (codes "/api/enqueue/") uri)))

unfoldable pub get_api_history : Method → Bytes → Result (Option Route)
get_api_history m uri =
    when_read m (ok (with_arg to_api_history (path_arg (codes "/api/history/") uri)))

unfoldable pub get_api_sources : Method → Bytes → Result (Option Route)
get_api_sources m uri =
    when_read m (ok (with_arg to_api_sources (path_arg (codes "/api/sources/") uri)))

unfoldable pub get_api_dump : Method → Bytes → Result (Option Route)
get_api_dump m uri = when_read m (ok (dump_route (scan_dump uri)))

-- `rc = rc >= 0 ? rc : next`
infixr 5 ◌or_next◌
abbrev pub ◌or_next◌ : Result (Option Route) → Result (Option Route) → Result (Option Route)
(err e) or_next next = err e
(ok none) or_next next = next
(ok (some r)) or_next next = ok (some r)

-- The chain of `listener`; a request that none takes is answered by 404.
unfoldable pub route : Method → Bytes → Result (Option Route)
route m uri =
    get_index m uri
    or_next post_lookup m uri
    or_next get_history m uri
    or_next get_sources m uri
    or_next get_critical m uri
    or_next get_api_enqueue m uri
    or_next get_api_history m uri
    or_next get_api_sources m uri
    or_next get_api_dump m uri
    or_next when_read m (ok (some to_static))

-- The file that `GET_static` sends.
unfoldable pub static_file : Bytes → Result Bytes
static_file uri = url_parse (some uri) >>= λ obj.
    path_subpath_secure (some (codes "./static")) (some obj.path) 4096

-- What `POST_lookup` answers for the text of the form.
pub data Answer : Type 0 where
  redirect : Bytes → Answer
  parse_error : Bytes → Answer
  fails : Error → Answer

unfoldable pub is_url_eparse : Error → Bool
is_url_eparse url_eparse = true
is_url_eparse e = false

unfoldable pub is_hash_eparse : Error → Bool
is_hash_eparse hash_eparse = true
is_hash_eparse e = false

abbrev pub of_url : Result Bytes → Bytes → Answer
of_url (ok parsed) str = redirect (fit uri_max (codes "/history/" ++ str))
of_url (err e) str = if is_url_eparse e then parse_error str else fails e

abbrev pub of_hash : Result Bytes → Bytes → Answer
of_hash (ok parsed) str = redirect (fit uri_max (codes "/sources/" ++ str))
of_hash (err e) str =
    let next = of_url (url_normalize (some str) uri_max) str in
    if is_hash_eparse e then next else fails e

unfoldable pub lookup_answer : Base58 → Bytes → Answer
lookup_answer b58 str = of_hash (hash_uri_normalize b58 (some str) uri_max) str
