-- ===== src/Server/Static.antt =====
-- The files that the server sends.
use hash_archive.Prelude.{ℕ, Bytes, ◌++◌, some, codes, ◌≡◌}
use hash_archive.Error.{ok, >>=-eq-ok}
use hash_archive.Url.{Url, url_parse}
use hash_archive.Path.Inside.{levels, components, path_subpath_secure-inside}
use hash_archive.Server.{static_file}

-- A file that is sent for a request is named by the static directory and the path of the request, and
-- whatever the names in that path, following them from the directory is never above it.
pub static_file-inside :
    (uri file : Bytes)
    → static_file uri ≡ ok file
    → (u : Url) × (url_parse (some uri) ≡ ok u)
      × (file ≡ codes "./static" ++ (codes "/" ++ u.path))
      × (d : ℕ) × (levels 0 (components u.path) ≡ some d)
unfolding static_file
static_file-inside uri file e =
    let (u, e0, f0) = >>=-eq-ok (url_parse (some uri)) _ e in
    let (named, d, inside) = path_subpath_secure-inside (codes "./static") u.path file 4096 f0 in
    (u, e0, named, d, inside)
