-- ===== src/Page/Site.antt =====
-- What the pages call, and the head and the end of each: src/page_history.c, src/page_sources.c,
-- src/page_index.c and src/page_critical.c write to their connection in the same way.
use hash_archive.Prelude.{
  ℕ, zero, suc, false, Bytes, List, [], ◌∷◌, get_elem?, Option, none, some, codes,
}
use hash_archive.Error.{overrun, Result, ok, err}
use hash_archive.Step.{Reading, ◌>>=◌, pure, fail}
use hash_archive.Hash.Uri.Parse.{Base58}
use hash_archive.Db.Response.{ℤ, pos, Response}
use hash_archive.Db.Store.{Kvs}
use hash_archive.Api.{Event, response_line, header, begin_body, chunk, chunk_end, end_message}
use hash_archive.Page.{Tm}
use hash_archive.Template.{TemplateStep, template_write}

-- The libraries: `gmtime_r`, `statusstr` and the connection are the system's and libasync's, and
-- `lib_strerror` gives the texts of libkvstore and libuv. `send` is each of the calls that write.
pub record Site : Type 1 where
  pub kvs : Kvs
  pub b58 : Base58
  pub gmtime : ℕ → Tm
  pub statusstr : ℕ → Bytes
  pub lib_strerror : ℤ → Bytes
  pub Conn : Type 0
  pub send : Event → Conn → Result (Unit {0}) × Conn

unfoldable pub html_head : List Event
html_head =
    response_line 200 (codes "OK")
    ∷ header (codes "Transfer-Encoding") (codes "chunked")
    ∷ header (codes "Content-Type") (codes "text/html; charset=utf-8")
    ∷ begin_body
    ∷ []

abbrev pub html_end : List Event
html_end = chunk_end ∷ end_message ∷ []

-- What `calloc` leaves in an element of `responses`.
abbrev pub zeroed : Response
zeroed = record {
  time = 0;
  id = 0;
  url = [];
  status = pos 0;
  type = [];
  length = 0;
  digests = record { d_md5 = []; d_sha1 = []; d_sha256 = []; d_sha384 = []; d_sha512 = [] };
  next = none;
  prev = none;
  latest = false;
}

-- The responses that the page of one of them lists behind it: `for(; r; r = r->next)`. As many rounds as
-- there are responses are enough, since a link leads forward.
unfoldable pub chain : ℕ → List Response → Option ℕ → List Response
chain n all none = []
chain zero all (some i) = []
chain (suc n) all (some i) = elim (get_elem? all i) [
  | none ↦ []
  | some r ↦ r ∷ chain n all (Response.next r)
]

module _ (site : Site) where
  open site use {kvs, Conn, send}

  -- The connection, and the state of the database.
  abbrev pub World : Type 0
  World = Conn × Kvs.Txn kvs

  -- `HTTPConnectionWriteChunk_wrapper` of src/util/Template.c
  abbrev pub wr : Bytes → Reading World (Unit {0})
  wr b (c, t) = ((send (chunk b) c).0, ((send (chunk b) c).1, t))

  -- The calls whose result the pages do not look at.
  abbrev pub tells : List Event → Reading World (Unit {0})
  tells [] w = (ok tt, w)
  tells (e ∷ es) (c, t) = tells es ((send e c).1, t)

  -- `TemplateWriteHTTPChunk`
  abbrev pub template_chunk :
      List TemplateStep → (Bytes → Reading World (Unit {0})) → Reading World (Unit {0})
  template_chunk ts var = template_write World wr var ts

  -- A query in a transaction of its own.
  abbrev pub query : {A : Type 0} → (Kvs.Txn kvs → Result A) → Reading World A
  query q (c, t) = (q t, (c, t))

  abbrev pub write_all : List Bytes → Reading World (Unit {0})
  write_all [] = pure tt
  write_all (x ∷ xs) = wr x >>= λ u. write_all xs

  -- A text that is written unless it is NULL.
  abbrev pub write_item : Option (Result Bytes) → Reading World (Unit {0})
  write_item none = pure tt
  write_item (some (ok x)) = wr x
  write_item (some (err e)) = fail e

  -- A text whose length is taken, which is undefined for NULL.
  abbrev pub write_found : Option (Result Bytes) → Reading World (Unit {0})
  write_found none = fail overrun
  write_found (some (ok x)) = wr x
  write_found (some (err e)) = fail e
