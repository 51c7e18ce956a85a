-- ===== src/Page/History.antt =====
-- src/page_history.c: the page of a URL. The templates are given as their steps; the assertions of
-- `template_load` are left out.
pub mod Runs
pub mod Written
pub mod Whole
use hash_archive.Prelude.{
  ℕ, suc, ◌==◌, Bool, true, false, not, Bytes, List, [], ◌∷◌, ◌++◌, map, Option, none, some, codes,
  fit, length, bytes_eq, case_eq, ◌||◌, if◌then◌else◌,
}
use hash_archive.Error.{Error, url_eparse, uv_enoent, overrun, aborted, Result, ok, err}
use hash_archive.Step.{Reading, ◌>>=◌, pure, fail, lift}
use hash_archive.Hash.Algo.{Algo, md5, sha1, sha256, sha384, sha512}
use hash_archive.Hash.Uri.Parse.{
  Link, link_hash_uri, link_named_info, link_multihash, link_prefix, link_ssb, link_magnet, HashUri,
}
use hash_archive.Hash.Uri.Format.{hash_uri_format}
use hash_archive.Url.{Url, url_parse}
use hash_archive.Codes.{hx_strerror}
use hash_archive.Db.Response.{ℤ, pos, negsuc, Response, digest_at, uri_max}
use hash_archive.Db.Merge.{is_ok_status}
use hash_archive.Db.Store.{Kvs}
use hash_archive.Db.Query.{hx_get_history}
use hash_archive.Queue.{Added, added, already_queued, too_soon, is_due, queue_add, queue_add_rc}
use hash_archive.Template.{TemplateStep, template_static_var}
use hash_archive.Page.{decimal, date_html, item_html}
use hash_archive.Page.Site.{
  Site, World, wr, tells, template_chunk, query, write_all, write_item, html_head, html_end, zeroed,
  chain,
}
use hash_archive.Page.Args.{history_args}

pub record HistoryTemplates : Type 0 where
  pub header : List TemplateStep
  pub footer : List TemplateStep
  pub entry : List TemplateStep
  pub error : List TemplateStep
  pub outdated : List TemplateStep

abbrev pub config_history_max : ℕ
config_history_max = 30

unfoldable pub algos : List Algo
algos = sha256 ∷ sha384 ∷ sha512 ∷ sha1 ∷ md5 ∷ []

unfoldable pub deprecated : Algo → Bool
deprecated sha1 = true
deprecated md5 = true
deprecated a = false

-- The form that a variable lists the hashes in; LINK_NONE is `none`.
unfoldable pub list_type : Bytes → Option Link
list_type var =
    if bytes_eq var (codes "hash-uri-list")
    then some link_hash_uri
    else if bytes_eq var (codes "named-info-list")
    then some link_named_info
    else if bytes_eq var (codes "multihash-list")
    then some link_multihash
    else if bytes_eq var (codes "prefix-list")
    then some link_prefix
    else if bytes_eq var (codes "ssb-list")
    then some link_ssb
    else if bytes_eq var (codes "magnet-list")
    then some link_magnet
    else none

-- `%d`
abbrev pub int_text : ℤ → Bytes
int_text (pos n) = decimal n
int_text (negsuc n) = codes "-" ++ decimal (suc n)

abbrev pub has_prev : Option ℕ → Bool
has_prev none = false
has_prev (some i) = true

-- `strcasecmp` of the scheme
unfoldable pub check_scheme : Url → Result (Unit {0})
check_scheme obj =
    if case_eq (Url.scheme obj) (codes "http") || case_eq (Url.scheme obj) (codes "https")
    then ok tt
    else err url_eparse

-- The check before `queue_add`.
unfoldable pub is_outdated : List Response → ℕ → Bool
is_outdated [] now = true
is_outdated (r ∷ rs) now = is_due (Response.time r) now

-- A code of `hash_uri_format` gives no item; what it leaves undefined is kept.
abbrev pub item_of_uri : Link → Bool → Result (Bytes × ℕ) → Option (Result Bytes)
item_of_uri type old (ok (uri, n)) = item_html type [] (some uri) old
item_of_uri type old (err overrun) = some (err overrun)
item_of_uri type old (err aborted) = some (err aborted)
item_of_uri type old (err e) = none

module _ (site : Site) where
  open site use {kvs, b58, gmtime, statusstr, lib_strerror}

  unfoldable pub item_html_obj : HashUri → Algo → Option (Result Bytes)
  item_html_obj obj algo =
      item_of_uri (HashUri.type obj) (deprecated algo) (hash_uri_format b58 (some obj) uri_max)

  -- The item of one algorithm: a digest that is empty has none.
  unfoldable pub item_of : Link → Response → Algo → Option (Result Bytes)
  item_of type r a =
      if length (digest_at (Response.digests r) a) == 0
      then none
      else item_html_obj
          (record { type = type; algo = some a; buf = digest_at (Response.digests r) a }) a

  unfoldable pub status_str : ℤ → Bytes
  status_str (pos n) = statusstr n
  status_str (negsuc n) = hx_strerror lib_strerror (negsuc n)

  unfoldable pub error_text : Response → Bytes
  error_text r = fit 256 (
      int_text (Response.status r) ++ (codes " (" ++ (status_str (Response.status r) ++ codes ")")))

  abbrev pub date_of : Bytes → Response → Bytes
  date_of label r = date_html label (gmtime (Response.time r))

  abbrev pub write_items : Link → Response → List Algo → Reading (World site) (Unit {0})
  write_items type r [] = pure tt
  write_items type r (a ∷ rest) =
      write_item site (item_of type r a) >>= λ u. write_items type r rest

  abbrev pub write_list : Option Link → Response → Reading (World site) (Unit {0})
  write_list none r = fail uv_enoent
  write_list (some type) r = write_items type r algos

  -- `all` is the array that the links of `r` lead through.
  unfoldable pub hist_var : List Response → Response → Bytes → Reading (World site) (Unit {0})
  hist_var all r var =
      if bytes_eq var (codes "date")
      then wr site (date_of (codes "As of ") r)
      else if bytes_eq var (codes "dates")
      then write_all site
          (map (date_of (codes "Also seen ")) (chain (length all) all (Response.next r)))
      else if bytes_eq var (codes "error")
      then wr site (error_text r)
      else write_list (list_type var) r

  -- The return value of `queue_add`, and what it commits.
  abbrev pub rc_of : Result Bool → Result (Unit {0})
  rc_of (ok b) = ok tt
  rc_of (err e) = err e

  abbrev pub committed : Kvs.Txn kvs → Result (Added (Kvs.Txn kvs)) → Kvs.Txn kvs
  committed t (ok (added t')) = t'
  committed t (ok already_queued) = t
  committed t (ok too_soon) = t
  committed t (err e) = t

  unfoldable pub queue_url : ℕ → ℕ → Bytes → Reading (World site) (Result (Unit {0}))
  queue_url now id url (c, t) = (
    ok (rc_of (queue_add_rc kvs (queue_add kvs t now id url []))),
    (c, committed t (queue_add kvs t now id url [])),
  )

  module _ (ts : HistoryTemplates) where
    -- One round of the loop over the responses.
    unfoldable pub write_entry : List Response → Response → Reading (World site) (Unit {0})
    write_entry all r =
        if has_prev (Response.prev r)
        then pure tt
        else template_chunk site (if is_ok_status (Response.status r) then ts.entry else ts.error)
            (hist_var all r)

    abbrev pub write_entries : List Response → List Response → Reading (World site) (Unit {0})
    write_entries all [] = pure tt
    write_entries all (r ∷ rs) = write_entry all r >>= λ u. write_entries all rs

    unfoldable pub write_outdated :
        ℕ
        → ℕ
        → Bytes
        → List (Bytes × Option Bytes)
        → List Response
        → Reading (World site) (Result (Unit {0}))
    write_outdated now id url args rs =
        if is_outdated rs now
        then (template_chunk site ts.outdated (template_static_var (World site) (wr site) args)
            >>= λ u. queue_url now id url)
        else pure (ok tt)

    unfoldable pub history_body :
        ℕ
        → ℕ
        → Bytes
        → List (Bytes × Option Bytes)
        → List Response
        → Reading (World site) (Unit {0})
    history_body now id url args rs = tells site html_head >>= λ u0.
        template_chunk site ts.header (template_static_var (World site) (wr site) args) >>= λ u1.
        write_outdated now id url args rs >>= λ rc. write_entries rs rs >>= λ u2.
        template_chunk site ts.footer (template_static_var (World site) (wr site) args) >>= λ u3.
        tells site html_end >>= λ u4. lift rc

    -- `now` is `time(NULL)`, and `id` the id that `queue_add` takes if it adds the URL.
    unfoldable pub page_history : ℕ → ℕ → Bytes → Reading (World site) (Unit {0})
    page_history now id url = lift (url_parse (some url)) >>= λ obj.
        lift (check_scheme obj) >>= λ u. lift (history_args url) >>= λ args.
        query site (λ t. hx_get_history kvs t url zeroed config_history_max) >>= λ rs.
        history_body now id url args rs
