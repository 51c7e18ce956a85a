-- ===== src/Path.antt =====
-- src/util/path.c: the paths of the files that the server serves.
pub mod Inside
use hash_archive.Prelude.{
  ℕ, ◌+◌, Bool, true, false, Bytes, [], ◌∷◌, ◌++◌, Option, none, some, codes, length, leb, ◌==◌,
  ◌&&◌, ◌||◌, if◌then◌else◌, case_eq,
}
use hash_archive.Error.{einval, eperm, enametoolong, overrun, Result, ok, err, ◌>>=◌, non_null}

-- `strrchr(path, '.')`, as the rest of the text from there.
unfoldable pub last_dot : Bytes → Option Bytes
last_dot [] = none
last_dot (c ∷ s) = elim (last_dot s) [
  | some t ↦ some t
  | none ↦ if c == b'.' then some (c ∷ s) else none
]

unfoldable pub path_extname : Option Bytes → Option Bytes
path_extname none = none
path_extname (some path) = last_dot path

unfoldable pub type_of : Bytes → Option Bytes
type_of ext =
    if case_eq ext (codes ".html")
    then some (codes "text/html; charset=utf-8")
    else if case_eq ext (codes ".css")
    then some (codes "text/css; charset=utf-8")
    else if case_eq ext (codes ".js")
    then some (codes "text/javascript; charset=utf-8")
    else if case_eq ext (codes ".png")
    then some (codes "image/png")
    else if case_eq ext (codes ".jpg")
    then some (codes "image/jpeg")
    else if case_eq ext (codes ".jpeg")
    then some (codes "image/jpeg")
    else if case_eq ext (codes ".gif")
    then some (codes "image/gif")
    else if case_eq ext (codes ".ico")
    then some (codes "image/vnd.microsoft.icon")
    else none

unfoldable pub path_exttype : Option Bytes → Option Bytes
path_exttype none = none
path_exttype (some ext) = type_of ext

-- The last byte, `path[len-1]`, which an empty path does not have.
unfoldable pub last_byte : Bytes → Result ℕ
last_byte [] = err overrun
last_byte (c ∷ []) = ok c
last_byte (c ∷ d ∷ s) = last_byte (d ∷ s)

-- What it leaves in `path`. `strlcat` returns the length of the text that it tried to make.
unfoldable pub path_dir_index : Option Bytes → Bytes → ℕ → Result Bytes
path_dir_index path index max = non_null path einval >>= λ p. last_byte p >>= λ c.
    if c == b'/'
    then (if leb max (length p + length index) then err enametoolong else ok (p ++ index))
    else ok p

unfoldable pub begins_with : ℕ → Bytes → Bool
begins_with x [] = false
begins_with x (c ∷ s) = c == x

-- `strstr(subpath, "..")`
unfoldable pub has_dots : Bytes → Bool
has_dots [] = false
has_dots (c ∷ s) = (c == b'.' && begins_with b'.' s) || has_dots s

unfoldable pub subpath_secure : Bytes → Bytes → ℕ → Result Bytes
subpath_secure dir subpath max =
    if begins_with b'/' subpath
    then (if has_dots subpath
        then err eperm
        else if leb max (length dir)
        then err eperm
        else if leb max (length dir + 1 + length subpath)
        then err enametoolong
        else ok (dir ++ (codes "/" ++ subpath)))
    else err eperm

unfoldable pub path_subpath_secure : Option Bytes → Option Bytes → ℕ → Result Bytes
path_subpath_secure dir subpath max =
    non_null dir einval >>= λ d. non_null subpath einval >>= λ s. subpath_secure d s max
