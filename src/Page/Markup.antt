-- ===== src/Page/Markup.antt =====
-- The URI of a link cannot add to the markup of the page.
use hash_archive.Prelude.{
  Bool, ◌==◌, ◌||◌, if◌then◌else◌, Bytes, [], ◌∷◌, ◌++◌, All, Option, none, some, codes, ◌≡◌, refl,
  sym, ap, ◌∙◌, arith,
}
use hash_archive.Error.{Result, ok, err}
use hash_archive.Hash.Uri.Parse.{
  Link, link_none, link_raw, link_web_url, link_hash_uri, link_named_info, link_multihash,
  link_prefix, link_ssb, link_magnet,
}
use hash_archive.Html.Laws.{escaped, html_encode-escaped, IsSafe, escaped-IsSafe}
use hash_archive.Page.{
  link_text, link_html, item_text, item_html, direct_text, direct_link_html, link_in, link_out,
}

-- The bytes that begin or end a tag or the value of an attribute, in order.
unfoldable pub markup : Bytes → Bytes
markup [] = []
markup (c ∷ s) =
    let rest = markup s in
    if c == b'<' || c == b'>' || c == b'"' || c == 0x27 then c ∷ rest else rest

pub markup-append : (s t : Bytes) → markup (s ++ t) ≡ markup s ++ markup t
unfolding markup
markup-append [] t = refl
markup-append (c ∷ s) t = ground (arith, markup-append s t)

markup-IsSafe : (s : Bytes) → All IsSafe s → markup s ≡ []
unfolding markup
markup-IsSafe [] h = refl
markup-IsSafe (c ∷ s) (hc, h) = ground (arith, markup-IsSafe s h)

-- The markup of a result.
abbrev pub markup_of : Option (Result Bytes) → Option (Result Bytes)
markup_of none = none
markup_of (some (err e)) = some (err e)
markup_of (some (ok s)) = some (ok (markup s))

pub markup-escaped : (s : Bytes) → markup (escaped s) ≡ []
markup-escaped s = markup-IsSafe (escaped s) (escaped-IsSafe s)

markup-link_in : (to e : Bytes) → markup e ≡ [] → markup (link_in to e) ≡ markup (link_in to [])
unfolding markup
markup-link_in to e h = simp (markup-append, h)

markup-link_out :
    (to sign e : Bytes) → markup e ≡ [] → markup (link_out to sign e) ≡ markup (link_out to sign [])
unfolding markup
markup-link_out to sign e h = simp (markup-append, h)

pub markup-link_text :
    (t : Link) (e : Bytes) → markup e ≡ [] → markup (link_text t e) ≡ markup (link_text t [])
unfolding link_text markup
markup-link_text link_none e h = simp (markup-append, h)
markup-link_text link_raw e h = markup-link_in [] e h
markup-link_text link_web_url e h = markup-link_out (codes "/history/") (codes "^") e h
markup-link_text link_hash_uri e h = markup-link_out (codes "/sources/") (codes "#") e h
markup-link_text link_named_info e h = markup-link_out (codes "/sources/") (codes "#") e h
markup-link_text link_magnet e h = markup-link_out (codes "/sources/") (codes "#") e h
markup-link_text link_multihash e h = markup-link_in (codes "/sources/") e h
markup-link_text link_prefix e h = markup-link_in (codes "/sources/") e h
markup-link_text link_ssb e h = markup-link_in (codes "/sources/") e h

markup-item_text :
    (label a b : Bytes) (deprecated : Bool)
    → markup a ≡ markup b
    → markup (item_text label a deprecated) ≡ markup (item_text label b deprecated)
markup-item_text label a b deprecated h = simp (markup-append, h)

markup-direct_text :
    (t : Link) (e : Bytes)
    → markup e ≡ []
    → markup_of (some (direct_text t e)) ≡ markup_of (some (direct_text t []))
unfolding direct_text markup
markup-direct_text link_none e h = refl
markup-direct_text link_raw e h = refl
markup-direct_text link_web_url e h = simp (markup-append, h)
markup-direct_text link_hash_uri e h = simp (markup-append, h)
markup-direct_text link_named_info e h = simp (markup-append, h)
markup-direct_text link_magnet e h = simp (markup-append, h)
markup-direct_text link_multihash e h = simp (markup-append, h)
markup-direct_text link_prefix e h = simp (markup-append, h)
markup-direct_text link_ssb e h = simp (markup-append, h)

-- The markup of a page without a URI, for each of the three.
link_lem :
    (t : Link) (u : Bytes) → markup_of (link_html t (some u)) ≡ some (ok (markup (link_text t [])))
unfolding link_html
link_lem t u =
    rw (html_encode-escaped u)
      (ap (λ m. some (ok m)) (markup-link_text t (escaped u) (markup-escaped u)))

item_lem :
    (t : Link) (label u : Bytes) (deprecated : Bool)
    → markup_of (item_html t label (some u) deprecated)
      ≡ some (ok (markup (item_text label (link_text t []) deprecated)))
unfolding item_html link_html
item_lem t label u deprecated = rw (html_encode-escaped u) (
    ap (λ m. some (ok m))
      (markup-item_text label (link_text t (escaped u)) (link_text t []) deprecated
        (markup-link_text t (escaped u) (markup-escaped u))))

direct_lem :
    (t : Link) (u : Bytes)
    → markup_of (direct_link_html t (some u)) ≡ markup_of (some (direct_text t []))
unfolding direct_link_html
direct_lem t u = rw (html_encode-escaped u) (markup-direct_text t (escaped u) (markup-escaped u))

-- The markup of each piece of a page that shows a URI is the same for every URI: it cannot open a tag
-- or leave the value of an attribute. This holds for each type of link, each label and each class.
pub markup_of-links :
    (t : Link) (label u v : Bytes) (deprecated : Bool)
    → (markup_of (link_html t (some u)) ≡ markup_of (link_html t (some v)))
      × (markup_of (item_html t label (some u) deprecated)
          ≡ markup_of (item_html t label (some v) deprecated))
      × (markup_of (direct_link_html t (some u)) ≡ markup_of (direct_link_html t (some v)))
markup_of-links t label u v deprecated = (
  link_lem t u ∙ sym (link_lem t v),
  item_lem t label u deprecated ∙ sym (item_lem t label v deprecated),
  direct_lem t u ∙ sym (direct_lem t v),
)
