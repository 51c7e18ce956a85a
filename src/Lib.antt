-- ===== src/Lib.antt =====
-- A library about hash-archive, the server that answers which URLs serve the content of a hash and
-- which hashes a URL's content has had.
--
-- A request reaches `src/server.c`. The page of a URL and the page of a hash (`src/page_history.c`,
-- `src/page_sources.c`) look up stored responses with `src/db.c`, the second after parsing the hash with
-- `src/util/hash.c`; the results are merged by URL or by content and are written as HTML, through
-- `src/util/html.c`. Looking up a URL also puts it into the queue of `src/queue.c`, whose workers fetch
-- URLs with `src/fetch.c` and store a response of each with `hx_response_add`; another archive can send
-- responses to `src/import.c`, which stores them in the same way. The database keys a URL by the text that
-- `url_normalize_surt` of `src/util/url.c` makes of it.
--
-- The files:
--   Prelude      the names, the Boolean tests and the lemmas that the rest shares; `Prelude/Text` has the
--                C library's functions on text that the source calls (`strlcat`, `strcasecmp`, `isalnum`)
--   Error        the error codes, one constructor for each, and the result of a function that may fail;
--                `overrun` is a write past the end of a buffer or the use of bytes that were never
--                written, which the source does not notice, `aborted` a failed assertion
--   Hash         `src/util/hash.c` and `hash.h`: Algo has the table of algorithms, Hex and Base64 the
--                encoders and decoders, and Uri the URIs: Match is the regular expressions, Parse the
--                `hash_uri_parse_*` functions, Format the printer; Laws is what they promise together
--   Html         `src/util/html.c`
--   Url          `src/util/url.c`: `url_parse`, `url_format`, the host, and in Surt the database's key
--   Path         `src/util/path.c`: the files that the server serves
--   Markdown     `src/util/markdown.c`: the passes over the tree that cmark has read; Clean is what is left,
--                Rounds that a text is searched to its end
--   Db           `src/db.h` and `src/db.c`: Response is a response and its stored value, Store the keys
--                and what is relied on of libkvstore, Add `hx_response_add`, Query the `hx_get_*`
--                queries, Merge the links between responses of one page
--   Queue        `src/queue.c`: `queue_add` and `queue_remove`, and in Work `queue_peek`, the rounds of
--                `queue_timedwait` over the states that it sees, and what `queue_work` commits; Threads has
--                the steps of requests and workers, Peek which entry is picked, Steps and Lost what
--                their interleavings keep, Pairs lemmas on lists
--   Codes        `src/errors.h`: the texts of the error codes and the status of each
--   Page         `src/page_parts.c`: the pieces of HTML that show a URI or a date. Site is what the pages
--                call, Output what a connection was sent, Args and Examples the values of variables;
--                History and Sources are `src/page_history.c` and `src/page_sources.c`, with what they
--                write in Written, Runs and Whole; Front is `src/page_index.c` and
--                `src/page_critical.c`, and Escaped is about text from outside in them
--   Template     `src/util/Template.c`: Split is what a template is split into, Written what it writes
--   Api          `src/api.c`: the answers in JSON as events of output; Rows is what a query of the dump
--                returns, Dump its rounds, Span the whole dump, Value the grammar of the lists,
--                Enqueue a URL that is queued and waited for, with its answers in Whole
--   Step         steps that change a state and may fail, for the pages and the two below
--   Hasher       `src/util/hasher.c`: all digests of a content at once
--   Fetch        `src/fetch.c`: the request, the body (Body) and the redirects (Hops)
--   Import       `src/import.c`: the reader of the format that another archive sends, its batches; Wire is
--                what a sender writes
--   Server       `src/server.c`: the routing of requests; Lookup is where a lookup leads, Static which
--                files are sent, Answers the check of the host and the answers with pages
--   Tests        runs of the theorems
--
-- A C string is the list of its bytes before the terminator, a buffer of n bytes a list that is cut where
-- the source cuts it (`fit n` keeps n - 1 bytes, as `snprintf` does). A byte is a number, and a theorem
-- that needs it less than 256 says so. Unsigned arithmetic that can wrap is written `% 2 ^ 64`. A
-- function that returns a negative code returns `err`. Most loops of the source that are modelled run
-- over a list or down a number: the length that a decoder is given bounds its rounds, and the eight
-- labels of `domain_reverse` bound its scan. The dump of `src/api.c` takes fuel: one round for each 50
-- responses and one more are enough. So do two loops that wait for the other side to end: the
-- body of a fetch, where one round for each piece and one for the end are enough, and the import, where
-- one round for each 50 responses and one more are enough. `md_autolink` has a round for each byte of
-- a text, and the links between the responses of a page are followed for as many rounds as there are
-- responses, which is enough, since they lead forward.
--
-- Parameters, since their code is not in the repository or not this program's: libbase58 (`Base58`),
-- libkvstore (`Kvs`, with `IsStore`, `IsSeek` for the queue and `IsTable` for the dump, for what it
-- documents), OpenSSL (`Openssl`, with `IsDigest`), libasync's streams (`Stream`, with `IsBytes`), its
-- HTTP client (`Http`) and its HTTP connections (in `Site`, with `IsConn`: a connection that takes every
-- call), the C library's `gmtime_r`, and the texts and codes of the libraries' errors. The templates are
-- the steps of any text, the critical URLs are the HTML that cmark made of them, and `md_process` is given
-- its tree, the places where `regexec` finds a link, and libasync's `QSEscape`. Memory allocation does
-- not fail, but for the hasher's.
--
-- Not modelled: the reading of requests, the reading of template files, logging, start-up, and the closing
-- of connections and files. Locks are in the model only as the steps between them.
pub mod Prelude
pub mod Error
pub mod Codes
pub mod Step
pub mod Hash
pub mod Html
pub mod Url
pub mod Path
pub mod Markdown
pub mod Page
pub mod Template
pub mod Db
pub mod Queue
pub mod Hasher
pub mod Api
pub mod Fetch
pub mod Import
pub mod Server
pub mod Tests
