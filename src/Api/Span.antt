-- ===== src/Api/Span.antt =====
-- The dump as a whole.
use hash_archive.Db.Response.{Response}
