-- ===== src/Page/Args.antt =====
-- The values of the variables of a page's head and foot: the arrays `args` of src/page_history.c and
-- src/page_sources.c.
use hash_archive.Prelude.{Bytes, List, [], ◌∷◌, ◌++◌, Option, none, some, codes, ◌≡◌, refl}
use hash_archive.Error.{overrun, Result, ok, err, ◌>>=◌}
use hash_archive.Hash.Uri.Parse.{Link, link_web_url}
use hash_archive.Html.{html_encode}
use hash_archive.Html.Laws.{escaped, html_encode-escaped}
use hash_archive.Page.{direct_text, direct_link_html}

-- A text that may be NULL.
abbrev pub or_null : Option (Result Bytes) → Result (Option Bytes)
or_null none = ok none
or_null (some (ok s)) = ok (some s)
or_null (some (err e)) = err e

-- `aasprintf("...%s", s)`; NULL as an argument of `%s` is undefined.
abbrev pub printed : Bytes → Option Bytes → Bytes → Result (Option Bytes)
printed before none after = err overrun
printed before (some s) after = ok (some (before ++ (s ++ after)))

-- For the page of a URL.
unfoldable pub history_args : Bytes → Result (List (Bytes × Option Bytes))
history_args url = or_null (html_encode (some url)) >>= λ escaped.
    or_null (direct_link_html link_web_url (some url)) >>= λ link.
    printed (codes "https://web.archive.org/web/*/") escaped [] >>= λ wayback_url.
    printed (codes "https://webcache.googleusercontent.com/search?q=cache:") escaped []
    >>= λ google_url.
        printed (codes "https://www.virustotal.com/en/url/") escaped [] >>= λ virustotal_url. ok (
          (codes "query", escaped)
          ∷ (codes "url-link", link)
          ∷ (codes "wayback-url", wayback_url)
          ∷ (codes "google-url", google_url)
          ∷ (codes "virustotal-url", virustotal_url)
          ∷ [])

-- `multihash[0] ? ... : "#unsupported-input"`
unfoldable pub ipfs_url_of : Bytes → Bytes
ipfs_url_of [] = codes "#unsupported-input"
ipfs_url_of (c ∷ s) = codes "https://ipfs.io/api/v0/block/get?arg=" ++ c ∷ s

-- For the page of a hash, with the hexadecimal text and the multihash of its digest.
unfoldable pub sources_args : Bytes → Link → Bytes → Bytes → Result (List (Bytes × Option Bytes))
sources_args uri type hex multihash = or_null (html_encode (some uri)) >>= λ escaped.
    or_null (direct_link_html type (some uri)) >>= λ hash_link. ok (
      (codes "query", escaped)
      ∷ (codes "hash-link", hash_link)
      ∷ (codes "google-url", some (codes "https://www.google.com/search?q=" ++ hex))
      ∷ (codes "duckduckgo-url", some (codes "https://duckduckgo.com/?q=" ++ hex))
      ∷ (codes "ipfs-block-url", some (ipfs_url_of multihash))
      ∷ (
        codes "virustotal-url",
        some (codes "https://www.virustotal.com/en/file/" ++ (hex ++ codes "/analysis/")),
      )
      ∷ [])

-- The values that a URL gives.
unfoldable pub history_values : Bytes → List (Bytes × Option Bytes)
history_values url =
    (codes "query", some (escaped url))
    ∷ (
      codes "url-link",
      some (
          codes "<a href=\""
          ++ (escaped url ++ (codes "\" rel=\"nofollow\">" ++ (escaped url ++ codes "</a>")))),
    )
    ∷ (codes "wayback-url", some (codes "https://web.archive.org/web/*/" ++ (escaped url ++ [])))
    ∷ (
      codes "google-url",
      some (codes "https://webcache.googleusercontent.com/search?q=cache:" ++ (escaped url ++ [])),
    )
    ∷ (
      codes "virustotal-url",
      some (codes "https://www.virustotal.com/en/url/" ++ (escaped url ++ [])),
    )
    ∷ []

pub history_args_lem : (url : Bytes) → history_args url ≡ ok (history_values url)
unfolding history_args history_values direct_link_html direct_text
history_args_lem url = rw (html_encode-escaped url) refl
