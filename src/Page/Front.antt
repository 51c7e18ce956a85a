-- ===== src/Page/Front.antt =====
-- src/page_index.c and src/page_critical.c: the front page, and the list of critical URLs, whose text
-- cmark has made. Both have the templates as their steps.
use hash_archive.Prelude.{
  false, Bytes, List, [], ◌∷◌, map, Option, none, some, codes, bytes_eq, if◌then◌else◌,
}
use hash_archive.Error.{enomem, uv_enoent, Result, ok, err}
use hash_archive.Step.{Reading, go_on, ◌>>=◌, pure, fail}
use hash_archive.Hash.Uri.Parse.{
  Link, link_web_url, link_hash_uri, link_named_info, link_multihash, link_prefix, link_ssb,
  link_magnet,
}
use hash_archive.Db.Response.{Response}
use hash_archive.Db.Query.{hx_get_recent}
use hash_archive.Api.{chunk}
use hash_archive.Template.{TemplateStep}
use hash_archive.Page.{link_html, item_html}
use hash_archive.Page.Examples.{example_url, example_hash_uri, Examples, examples}
use hash_archive.Page.Site.{Site, World, wr, tells, template_chunk, html_head, html_end}

abbrev pub config_hostname_public : Bytes
config_hostname_public = codes "hash-archive.org"

unfoldable pub critical : List Bytes
critical =
    codes "https://ftp.heanet.ie/mirrors/linuxmint.com/stable/18/linuxmint-18-cinnamon-64bit.iso"
    ∷ codes "https://code.jquery.com/jquery-2.2.3.min.js"
    ∷ codes "https://ajax.googleapis.com/ajax/libs/jquery/2.1.4/jquery.min.js"
    ∷ codes "https://ftp-master.debian.org/keys/archive-key-8.asc"
    ∷ codes "http://heanet.dl.sourceforge.net/project/keepass/KeePass%202.x/2.32/KeePass-2.32.zip"
    ∷ codes "http://openwall.com/signatures/openwall-signatures.asc"
    ∷ codes "http://download1.rpmfusion.org/free/fedora/rpmfusion-free-release-23.noarch.rpm"
    ∷ []

-- `if(!x) return UV_ENOMEM;`
abbrev pub or_enomem : Option (Result Bytes) → Result Bytes
or_enomem none = err enomem
or_enomem (some r) = r

-- A failure of the query is an empty list.
abbrev pub listed : Result (List Response) → List Response
listed (ok rs) = rs
listed (err e) = []

module _ (site : Site) where
  open site use {kvs}

  abbrev pub write_text : Result Bytes → Reading (World site) (Unit {0})
  write_text (ok x) = wr site x
  write_text (err e) = fail e

  unfoldable pub write_link : Link → Bytes → Reading (World site) (Unit {0})
  write_link type uri = write_text (or_enomem (link_html type (some uri)))

  -- The loops of `recent-list` and `critical-list`.
  unfoldable pub write_urls : List Bytes → Reading (World site) (Unit {0})
  write_urls [] = pure tt
  write_urls (url ∷ urls) =
      write_text (or_enomem (item_html link_web_url [] (some url) false)) >>= λ u. write_urls urls

  -- `blank` is what stands in the array `recent`.
  unfoldable pub write_recent : Response → Reading (World site) (Unit {0})
  write_recent blank (c, t) =
      write_urls (map Response.url (listed (hx_get_recent kvs t blank 10))) (c, t)

  unfoldable pub template_var : Examples → Response → Bytes → Reading (World site) (Unit {0})
  template_var ex blank var =
      if bytes_eq var (codes "web-url-example")
      then write_link link_web_url example_url
      else if bytes_eq var (codes "hash-uri-example")
      then write_link link_hash_uri example_hash_uri
      else if bytes_eq var (codes "named-info-example")
      then write_link link_named_info (Examples.example_named_info ex)
      else if bytes_eq var (codes "multihash-example")
      then write_link link_multihash (Examples.example_multihash ex)
      else if bytes_eq var (codes "prefix-example")
      then write_link link_prefix (Examples.example_prefix ex)
      else if bytes_eq var (codes "ssb-example")
      then write_link link_ssb (Examples.example_ssb ex)
      else if bytes_eq var (codes "magnet-example")
      then write_link link_magnet (Examples.example_magnet ex)
      else if bytes_eq var (codes "recent-list")
      then write_recent blank
      else if bytes_eq var (codes "critical-list")
      then write_urls critical
      else if bytes_eq var (codes "host")
      then wr site config_hostname_public
      else fail uv_enoent

  unfoldable pub index_body :
      List TemplateStep → Response → Examples → Reading (World site) (Unit {0})
  index_body index blank ex = tells site html_head >>= λ u0.
      template_chunk site index (template_var ex blank) >>= λ u1. tells site html_end

  unfoldable pub page_index : List TemplateStep → Response → Reading (World site) (Unit {0})
  page_index index blank w = go_on (examples (Site.b58 site), w) (index_body index blank)

  -- `var` is NULL there.
  abbrev pub no_var : Bytes → Reading (World site) (Unit {0})
  no_var var = pure tt

  -- The calls write the bytes of `content` as a chunk, whatever becomes of it.
  unfoldable pub page_critical :
      List TemplateStep → List TemplateStep → Bytes → Reading (World site) (Unit {0})
  page_critical header footer content = tells site html_head >>= λ u0.
      template_chunk site header no_var >>= λ u1. tells site (chunk content ∷ []) >>= λ u2.
      template_chunk site footer no_var >>= λ u3. tells site html_end
