-- ===== src/Page/Escaped.antt =====
-- The texts that come from outside cannot add to the markup of the page of a URL or of a hash.
pub mod Sections
pub mod Whole
use hash_archive.Prelude.{
  Bool, true, false, bytes_eq, Bytes, List, [], ◌∷◌, ◌++◌, map, Option, none, some, codes,
  if◌then◌else◌, ◌≡◌, refl, sym, ap, ◌∙◌,
}
use hash_archive.Error.{ok}
use hash_archive.Hash.Uri.Parse.{
  Link, link_none, link_raw, link_web_url, link_hash_uri, link_named_info, link_multihash,
  link_prefix, link_ssb, link_magnet,
}
use hash_archive.Html.Laws.{escaped}
use hash_archive.Db.Response.{Response}
use hash_archive.Template.{TemplateStep}
use hash_archive.Template.Written.{value_of}
use hash_archive.Page.{link_text}
use hash_archive.Page.Args.{history_args, sources_args, history_values, history_args_lem}
use hash_archive.Page.Markup.{markup, markup-append, markup-escaped, markup-link_text}
use hash_archive.Page.Site.{Site}
use hash_archive.Page.Output.{both_texts, with_var, with_values}
use hash_archive.Page.History.{HistoryTemplates}
use hash_archive.Page.History.Written.{history_text}
use hash_archive.Page.Sources.{SourcesTemplates}
use hash_archive.Page.Sources.Link.{IsParsed, own_link, sources_values, sources_args_lem}
use hash_archive.Page.Sources.Written.{source_value, entries_text, sources_text}

-- The markup of a text, if there is one.
abbrev pub markups : Option Bytes → Option Bytes
markups none = none
markups (some s) = some (markup s)

markups-both_texts :
    (a b : Option Bytes) → markups (both_texts a b) ≡ both_texts (markups a) (markups b)
markups-both_texts none b = refl
markups-both_texts (some a) none = refl
markups-both_texts (some a) (some b) = ap some (markup-append a b)

pub same_both :
    (a b c d : Option Bytes)
    → markups a ≡ markups b
    → markups c ≡ markups d
    → markups (both_texts a c) ≡ markups (both_texts b d)
same_both a b c d e f =
    markups-both_texts a c
    ∙ ap (λ x. both_texts x (markups c)) e
    ∙ ap (both_texts (markups b)) f
    ∙ sym (markups-both_texts b d)

-- Values of the same markup, for every variable.
abbrev pub SameValues : (Bytes → Option Bytes) → (Bytes → Option Bytes) → Type 0
SameValues f g = (name : Bytes) → markups (f name) ≡ markups (g name)

same_var :
    (f g : Bytes → Option Bytes) (v : Option Bytes) (a b : Option Bytes)
    → SameValues f g
    → markups a ≡ markups b
    → markups (with_var f v a) ≡ markups (with_var g v b)
same_var f g none a b h e = e
same_var f g (some name) a b h e = same_both (f name) (g name) a b (h name) e

pub same_with_values :
    (f g : Bytes → Option Bytes) (ts : List TemplateStep)
    → SameValues f g
    → markups (with_values f ts) ≡ markups (with_values g ts)
unfolding with_values
same_with_values f g [] h = refl
same_with_values f g (t ∷ ts) h =
    same_both (some t.str) (some t.str) _ _ refl
      (same_var f g t.var (with_values f ts) (with_values g ts) h (same_with_values f g ts h))

-- The same names, with values of the same markup.
pub data SameArgs : List (Bytes × Option Bytes) → List (Bytes × Option Bytes) → Type 0 where
  no_args : SameArgs [] []
  one_arg :
      (name x y : Bytes) (xs ys : List (Bytes × Option Bytes))
      → markup x ≡ markup y
      → SameArgs xs ys
      → SameArgs ((name, some x) ∷ xs) ((name, some y) ∷ ys)

pub same_args :
    (xs ys : List (Bytes × Option Bytes)) → SameArgs xs ys → SameValues (value_of xs) (value_of ys)
unfolding value_of
same_args xs ys no_args var = refl
same_args xs ys (one_arg name x y xs' ys' e h) var =
    go (bytes_eq name var) (same_args xs' ys' h var)
  where
    go :
        (b : Bool)
        → markups (value_of xs' var) ≡ markups (value_of ys' var)
        → markups (if b then some x else value_of xs' var)
          ≡ markups (if b then some y else value_of ys' var)
    go true ih = ap some e
    go false ih = ih

same_around :
    (before u v after : Bytes)
    → markup (before ++ (escaped u ++ after)) ≡ markup (before ++ (escaped v ++ after))
same_around before u v after = simp (markup-append, markup-escaped)

same_link :
    (a b c u v : Bytes)
    → markup (a ++ (escaped u ++ (b ++ (escaped u ++ c))))
      ≡ markup (a ++ (escaped v ++ (b ++ (escaped v ++ c))))
same_link a b c u v = simp (markup-append, markup-escaped)

same_escaped : (u v : Bytes) → markup (escaped u) ≡ markup (escaped v)
same_escaped u v = markup-escaped u ∙ sym (markup-escaped v)

pub history_SameArgs : (u v : Bytes) → SameArgs (history_values u) (history_values v)
unfolding history_values
history_SameArgs u v = one_arg (codes "query") (escaped u) (escaped v) _ _ (same_escaped u v) (
    one_arg (codes "url-link") _ _ _ _
      (same_link (codes "<a href=\"") (codes "\" rel=\"nofollow\">") (codes "</a>") u v)
      (one_arg (codes "wayback-url") _ _ _ _
        (same_around (codes "https://web.archive.org/web/*/") u v [])
        (one_arg (codes "google-url") _ _ _ _
          (same_around (codes "https://webcache.googleusercontent.com/search?q=cache:") u v [])
          (one_arg (codes "virustotal-url") _ _ _ _
            (same_around (codes "https://www.virustotal.com/en/url/") u v []) no_args))))

same_own_link :
    (t : Link) (u v : Bytes) → markup (own_link t (escaped u)) ≡ markup (own_link t (escaped v))
unfolding own_link
same_own_link link_none u v =
    same_link (codes "<a href=\"") (codes "\" rel=\"nofollow\">") (codes "</a>") u v
same_own_link link_raw u v =
    same_link (codes "<a href=\"") (codes "\" rel=\"nofollow\">") (codes "</a>") u v
same_own_link link_web_url u v =
    same_link (codes "<a href=\"") (codes "\" rel=\"nofollow\">") (codes "</a>") u v
same_own_link link_hash_uri u v =
    same_link (codes "<a href=\"") (codes "\" rel=\"nofollow\">") (codes "</a>") u v
same_own_link link_named_info u v =
    same_link (codes "<a href=\"") (codes "\" rel=\"nofollow\">") (codes "</a>") u v
same_own_link link_magnet u v =
    same_link (codes "<a href=\"") (codes "\" rel=\"nofollow\">") (codes "</a>") u v
same_own_link link_multihash u v = same_around (codes "<span>") u v (codes "</span>")
same_own_link link_prefix u v = same_around (codes "<span>") u v (codes "</span>")
same_own_link link_ssb u v = same_around (codes "<span>") u v (codes "</span>")

sources_SameArgs :
    (u v hex multihash : Bytes) (type : Link)
    → SameArgs (sources_values u type hex multihash) (sources_values v type hex multihash)
unfolding sources_values
sources_SameArgs u v hex multihash type =
    one_arg (codes "query") (escaped u) (escaped v) _ _ (same_escaped u v) (
      one_arg (codes "hash-link") _ _ _ _ (same_own_link type u v) (
        one_arg (codes "google-url") _ _ _ _ refl (
          one_arg (codes "duckduckgo-url") _ _ _ _ refl (
            one_arg (codes "ipfs-block-url") _ _ _ _ refl
              (one_arg (codes "virustotal-url") _ _ _ _ refl no_args)))))

-- A response without its URL.
abbrev pub unnamed : Response → Response
unnamed r = record r { url = [] }

module _ (site : Site) where
  same_source : (r : Response) → SameValues (source_value site r) (source_value site (unnamed r))
  unfolding source_value
  same_source r name = go (bytes_eq name (codes "date")) (bytes_eq name (codes "url")) _ _
    where
      go :
          (a b : Bool) (d o : Option Bytes)
          → markups (
              if a
              then d
              else if b
              then some (link_text link_web_url (escaped (Response.url r)))
              else o)
            ≡ markups (if a then d else if b then some (link_text link_web_url (escaped [])) else o)
      go true b d o = refl
      go false true d o = ap some (
          markup-link_text link_web_url (escaped (Response.url r)) (markup-escaped (Response.url r))
          ∙ sym (markup-link_text link_web_url (escaped []) (markup-escaped [])))
      go false false d o = refl

  same_entries :
      (entry : List TemplateStep) (rs : List Response)
      → markups (entries_text site entry rs) ≡ markups (entries_text site entry (map unnamed rs))
  same_entries entry [] = refl
  same_entries entry (r ∷ rs) =
      same_both (with_values (source_value site r) entry)
        (with_values (source_value site (unnamed r)) entry) (entries_text site entry rs)
        (entries_text site entry (map unnamed rs))
        (same_with_values (source_value site r) (source_value site (unnamed r)) entry
          (same_source r))
        (same_entries entry rs)

  -- The page of a hash, for two texts of its URI and two lists of responses.
  pub same_sources :
      (sts : SourcesTemplates) (u v hex multihash : Bytes) (type : Link) (rs qs : List Response)
      → map unnamed rs ≡ map unnamed qs
      → markups (sources_text site sts (sources_values u type hex multihash) rs)
        ≡ markups (sources_text site sts (sources_values v type hex multihash) qs)
  unfolding sources_text
  same_sources sts u v hex multihash type rs qs e =
      let s =
        same_args (sources_values u type hex multihash) (sources_values v type hex multihash)
          (sources_SameArgs u v hex multihash type) in
      same_both _ _ _ _ (same_with_values _ _ sts.header s) (
        same_both _ _ _ _
          (same_entries sts.entry rs
            ∙ ap (λ l. markups (entries_text site sts.entry l)) e
            ∙ sym (same_entries sts.entry qs))
          (same_with_values _ _ sts.footer s))
