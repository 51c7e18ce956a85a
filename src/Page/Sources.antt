-- ===== src/Page/Sources.antt =====
-- src/page_sources.c: the page of a hash. The templates are given as their steps; the assertions of
-- `template_load` are left out.
pub mod Link
pub mod Written
use hash_archive.Prelude.{
  ℕ, ◌*◌, ◌+◌, Bool, Bytes, List, [], ◌∷◌, ◌++◌, Option, none, some, codes, bytes_eq, if◌then◌else◌,
}
use hash_archive.Error.{Error, hash_enotsup, uv_enoent, Result, ok, err}
use hash_archive.Step.{Reading, ◌>>=◌, pure, fail, lift}
use hash_archive.Hash.Algo.{hash_digest_max}
use hash_archive.Hash.Hex.{hex_encode}
use hash_archive.Hash.Uri.Parse.{link_web_url, link_multihash, HashUri, hash_uri_parse}
use hash_archive.Hash.Uri.Format.{hash_uri_variant}
use hash_archive.Db.Response.{Response, uri_max}
use hash_archive.Db.Query.{hx_get_sources}
use hash_archive.Template.{TemplateStep, template_static_var}
use hash_archive.Page.{date_html, link_html}
use hash_archive.Page.Args.{sources_args}
use hash_archive.Page.Site.{
  Site, World, wr, tells, template_chunk, query, write_found, html_head, html_end, zeroed,
}
use hash_archive.Page.History.{has_prev, date_of}

-- The templates that are written; the three others are only loaded.
pub record SourcesTemplates : Type 0 where
  pub header : List TemplateStep
  pub footer : List TemplateStep
  pub entry : List TemplateStep

abbrev pub config_sources_max : ℕ
config_sources_max = 30

-- An algorithm without a multihash leaves the text empty.
abbrev pub or_empty : Result Bytes → Result Bytes
or_empty (ok s) = ok s
or_empty (err hash_enotsup) = ok []
or_empty (err e) = err e

module _ (site : Site) where
  open site use {kvs, b58, gmtime}

  -- `label` of the date: HX_RES_LATEST is the newest response of its URL.
  abbrev pub source_label : Bool → Bytes
  source_label latest = if latest then codes "Active as of " else codes "Obsolete; last seen "

  unfoldable pub source_var : Response → Bytes → Reading (World site) (Unit {0})
  source_var r var =
      if bytes_eq var (codes "date")
      then wr site (date_of site (source_label (Response.latest r)) r)
      else if bytes_eq var (codes "url")
      then write_found site (link_html link_web_url (some (Response.url r)))
      else if bytes_eq var (codes "obsolete")
      then (if Response.latest r then pure tt else wr site (codes "obsolete"))
      else fail uv_enoent

  module _ (ts : SourcesTemplates) where
    -- One round of the loop over the responses.
    unfoldable pub write_source : Response → Reading (World site) (Unit {0})
    write_source r =
        if has_prev (Response.prev r) then pure tt else template_chunk site ts.entry (source_var r)

    abbrev pub write_sources : List Response → Reading (World site) (Unit {0})
    write_sources [] = pure tt
    write_sources (r ∷ rs) = write_source r >>= λ u. write_sources rs

    unfoldable pub sources_body :
        List (Bytes × Option Bytes) → List Response → Reading (World site) (Unit {0})
    sources_body args rs = tells site html_head >>= λ u0.
        template_chunk site ts.header (template_static_var (World site) (wr site) args) >>= λ u1.
        write_sources rs >>= λ u2.
        template_chunk site ts.footer (template_static_var (World site) (wr site) args) >>= λ u3.
        tells site html_end

    -- The query comes before the texts of the hash.
    unfoldable pub page_sources : Bytes → Reading (World site) (Unit {0})
    page_sources uri = lift (hash_uri_parse b58 (some uri)) >>= λ obj.
        query site (λ t. hx_get_sources kvs t (some obj) zeroed config_sources_max) >>= λ rs.
        lift (or_empty (hash_uri_variant b58 obj link_multihash uri_max)) >>= λ multihash.
        lift (
          sources_args uri (HashUri.type obj)
            (hex_encode (HashUri.buf obj) (hash_digest_max * 2 + 1)) multihash)
        >>= λ args. sources_body args rs
