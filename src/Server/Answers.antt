-- ===== src/Server/Answers.antt =====
-- How src/server.c answers: the check of the host, the handlers of the pages with the page of an error,
-- two of the API, and the status that is left. The static files, the lookup, and the API's other two,
-- which wait or take many rounds, are the argument `others`. The templates are given as their steps.
use hash_archive.Prelude.{
  ℕ, zero, suc, ◌||◌, Bytes, List, [], ◌∷◌, Option, none, some, codes, case_eq, if◌then◌else◌,
}
use hash_archive.Error.{
  Error, hash_eparse, url_eparse, uv_eacces, enomem, overrun, aborted, Result, ok, err,
}
use hash_archive.Step.{Reading, ◌>>=◌, pure, fail, lift}
use hash_archive.Html.{html_encode}
use hash_archive.Url.{Host, host_parse}
use hash_archive.Codes.{hx_httperr}
use hash_archive.Api.{Event, response_line, header, begin_body, api_history, api_sources}
use hash_archive.Db.Response.{Response}
use hash_archive.Template.{TemplateStep, template_static_var}
use hash_archive.Page.Site.{Site, World, wr, tells, template_chunk, query, zeroed, html_end}
use hash_archive.Page.Args.{or_null}
use hash_archive.Page.History.{HistoryTemplates, page_history}
use hash_archive.Page.Sources.{SourcesTemplates, page_sources}
use hash_archive.Page.Front.{page_index, page_critical}
use hash_archive.Server.{
  Method, Route, to_index, to_critical, to_history, to_sources, to_api_history, to_api_sources,
  route,
}

abbrev pub config_hostname_expected : Bytes
config_hostname_expected = codes "hash-archive.org"

-- The domain that is compared is empty if the host has none.
abbrev pub domain_of : Result Host → Bytes
domain_of (ok h) = Host.domain h
domain_of (err e) = []

abbrev pub rc_of_host : Result Host → Result (Unit {0})
rc_of_host (ok h) = ok tt
rc_of_host (err e) = err e

abbrev pub checked : Result Host → Result (Unit {0})
checked r =
    if case_eq (domain_of r) config_hostname_expected || case_eq (domain_of r) (codes "localhost")
    then rc_of_host r
    else err uv_eacces

-- Without a host the domain that is compared was never written.
unfoldable pub check_host : Option Bytes → Result (Unit {0})
check_host none = err overrun
check_host (some host) = checked (host_parse (some host))

unfoldable pub error_head : List Event
error_head =
    response_line 400 (codes "Bad Request")
    ∷ header (codes "Transfer-Encoding") (codes "chunked")
    ∷ header (codes "Content-Type") (codes "text/html; charset=utf-8")
    ∷ begin_body
    ∷ []

-- `if(!escaped) return UV_ENOMEM;`
abbrev pub some_text : Option Bytes → Result Bytes
some_text none = err enomem
some_text (some s) = ok s

-- All templates of the pages, what cmark made of the critical URLs, and what stands in `recent`.
pub record Pages : Type 0 where
  pub index : List TemplateStep
  pub error : List TemplateStep
  pub history : HistoryTemplates
  pub sources : SourcesTemplates
  pub critical_header : List TemplateStep
  pub critical_footer : List TemplateStep
  pub content : Bytes
  pub blank : Response

-- `others` are the handlers that are not here, and `send_status` is `HTTPConnectionSendStatus`.
module _ (site : Site) (http_error : Error → ℕ) (pages : Pages)
    (others : Route → Reading (World site) ℕ)
    (send_status : ℕ → Site.Conn site → Site.Conn site) where
  open pages use {index, error, history, sources, critical_header, critical_footer, content, blank}

  unfoldable pub parse_error_page : Bytes → Reading (World site) (Unit {0})
  parse_error_page query = lift (or_null (html_encode (some query))) >>= λ e.
      lift (some_text e) >>= λ escaped. tells site error_head >>= λ u.
      template_chunk site error
        (template_static_var (World site) (wr site) ((codes "query", some escaped) ∷ []))
      >>= λ u'. tells site html_end

  -- `hx_httperr` of what a page returns, unless the program has ended.
  unfoldable pub status_of_page : Result (Unit {0}) → Result ℕ
  status_of_page (err aborted) = err aborted
  status_of_page (err overrun) = err overrun
  status_of_page r = ok (hx_httperr http_error r)

  abbrev pub page_status : Reading (World site) (Unit {0}) → Reading (World site) ℕ
  page_status page w = (status_of_page (page w).0, (page w).1)

  -- A page, and then what is made of its result.
  abbrev pub then_status :
      Reading (World site) (Unit {0})
      → (Result (Unit {0}) → Reading (World site) ℕ)
      → Reading (World site) ℕ
  then_status page k w = k (page w).0 (page w).1

  -- `if(URL_EPARSE == rc) return hx_httperr(parse_error(conn, url));`
  unfoldable pub history_status : Bytes → Result (Unit {0}) → Reading (World site) ℕ
  history_status url (err url_eparse) = page_status (parse_error_page url)
  history_status url r = lift (status_of_page r)

  -- `if(HASH_EPARSE == rc) return hx_httperr(parse_error(conn, hash));`
  unfoldable pub sources_status : Bytes → Result (Unit {0}) → Reading (World site) ℕ
  sources_status hash (err hash_eparse) = page_status (parse_error_page hash)
  sources_status hash r = lift (status_of_page r)

  -- What a handler of the API has written, and its status.
  abbrev pub api_status : Result (List Event) → Reading (World site) ℕ
  api_status (err e) = lift (status_of_page (err e))
  api_status (ok es) = tells site es >>= λ u. pure (hx_httperr http_error (ok tt))

  -- The handlers, behind their tests; 404 if none takes the request. `now` is `time(NULL)`, and `id` the
  -- id that `queue_add` takes if it adds a URL.
  unfoldable pub answer : ℕ → ℕ → Option Route → Reading (World site) ℕ
  answer now id none = pure 404
  answer now id (some to_index) = page_status (page_index site index blank)
  answer now id (some to_critical) =
      page_status (page_critical site critical_header critical_footer content)
  answer now id (some (to_history url)) =
      then_status (page_history site history now id url) (history_status url)
  answer now id (some (to_sources hash)) =
      then_status (page_sources site sources hash) (sources_status hash)
  answer now id (some (to_api_history url)) =
      query site (λ t. ok (api_history (Site.kvs site) (Site.b58 site) t url zeroed)) >>= api_status
  answer now id (some (to_api_sources hash)) =
      query site (λ t. ok (api_sources (Site.kvs site) (Site.b58 site) t hash zeroed))
      >>= api_status
  answer now id (some r) = others r

  unfoldable pub send : ℕ → Reading (World site) (Unit {0})
  send status (c, t) = (ok tt, (send_status status c, t))

  -- `if(rc > 0) HTTPConnectionSendStatus(conn, rc);`
  unfoldable pub send_left : ℕ → Reading (World site) (Unit {0})
  send_left zero = pure tt
  send_left (suc n) = send (suc n)

  -- The first error ends the request with its status.
  abbrev pub after_host :
      ℕ → ℕ → Method → Bytes → Result (Unit {0}) → Reading (World site) (Unit {0})
  after_host now id m uri (err overrun) = fail overrun
  after_host now id m uri (err e) = send (hx_httperr http_error (err e))
  after_host now id m uri (ok u) =
      lift (route m uri) >>= λ r. answer now id r >>= λ status. send_left status

  -- `listener`, from the headers on, without TLS.
  unfoldable pub listener : ℕ → ℕ → Option Bytes → Method → Bytes → Reading (World site) (Unit {0})
  listener now id host m uri = after_host now id m uri (check_host host)
