-- ===== src/Page.antt =====
-- src/page_parts.c: the pieces of HTML that the pages are put together from. `aasprintf` does not fail,
-- and `gmtime_r` is its result, the argument `t`.
pub mod Args
pub mod Site
pub mod Output
pub mod History
pub mod Sources
pub mod Examples
pub mod Front
pub mod Escaped
pub mod Markup
pub mod Ordinal
use hash_archive.Prelude.{
  ℕ, zero, suc, ◌+◌, ◌/◌, ◌%◌, Bool, true, false, ltb, if◌then◌else◌, Bytes, List, [], ◌∷◌, ◌++◌,
  Option, none, some, codes, get_or,
}
use hash_archive.Error.{aborted, Result, ok, err}
use hash_archive.Hash.Uri.Parse.{
  Link, link_none, link_raw, link_web_url, link_hash_uri, link_named_info, link_multihash,
  link_prefix, link_ssb, link_magnet,
}
use hash_archive.Html.{html_encode}

-- `struct tm`: the day of the month, the month from 0 and the years since 1900.
pub record Tm : Type 0 where
  pub tm_mday : ℕ
  pub tm_mon : ℕ
  pub tm_year : ℕ

-- `%d` of a number that is not negative; each round takes a digit, of which there are at most `n`.
unfoldable pub decimal_from : ℕ → ℕ → Bytes
decimal_from zero n = (48 + n % 10) ∷ []
decimal_from (suc fuel) n =
    let high = decimal_from fuel (n / 10) in
    if ltb n 10 then (48 + n) ∷ [] else high ++ (48 + n % 10) ∷ []

abbrev pub decimal : ℕ → Bytes
decimal n = decimal_from n n

unfoldable pub months : List Bytes
months =
    codes "January"
    ∷ codes "February"
    ∷ codes "March"
    ∷ codes "April"
    ∷ codes "May"
    ∷ codes "June"
    ∷ codes "July"
    ∷ codes "August"
    ∷ codes "September"
    ∷ codes "October"
    ∷ codes "November"
    ∷ codes "December"
    ∷ []

-- `suffix[t->tm_mday%10]`
unfoldable pub suffix_of : ℕ → Bytes
suffix_of day =
    get_or
      (codes "th"
        ∷ codes "st"
        ∷ codes "nd"
        ∷ codes "rd"
        ∷ codes "th"
        ∷ codes "th"
        ∷ codes "th"
        ∷ codes "th"
        ∷ codes "th"
        ∷ codes "th"
        ∷ [])
      (day % 10) []

unfoldable pub date_html : Bytes → Tm → Bytes
date_html label_escaped t =
    codes "<div class=\"date\">"
    ++ (label_escaped
        ++ (get_or months t.tm_mon []
            ++ (codes " "
                ++ (decimal t.tm_mday
                    ++ (codes "<sup>"
                        ++ (suffix_of t.tm_mday
                            ++ (codes "</sup>, "
                                ++ (decimal (1900 + t.tm_year) ++ codes "</div>"))))))))

-- A text between two tags.
abbrev pub around : Bytes → Bytes → Bytes → Bytes
around before s after = before ++ (s ++ after)

-- A link of this site, and behind it one that leads out.
abbrev pub link_out : Bytes → Bytes → Bytes → Bytes
link_out to sign e =
    codes "<a href=\""
    ++ (to
        ++ (e
            ++ (codes "\">"
                ++ (e
                    ++ (codes "</a><sup>[<a href=\""
                        ++ (e
                            ++ (codes "\" rel=\"nofollow\" target=\"_blank\">"
                                ++ (sign ++ codes "</a>]</sup>"))))))))

abbrev pub link_in : Bytes → Bytes → Bytes
link_in to e = codes "<a href=\"" ++ (to ++ (e ++ (codes "\">" ++ (e ++ codes "</a>"))))

-- The text of each type of link, for an escaped URI.
unfoldable pub link_text : Link → Bytes → Bytes
link_text link_none e = codes "<span>" ++ (e ++ codes "</span>")
link_text link_raw e = link_in [] e
link_text link_web_url e = link_out (codes "/history/") (codes "^") e
link_text link_hash_uri e = link_out (codes "/sources/") (codes "#") e
link_text link_named_info e = link_out (codes "/sources/") (codes "#") e
link_text link_magnet e = link_out (codes "/sources/") (codes "#") e
link_text link_multihash e = link_in (codes "/sources/") e
link_text link_prefix e = link_in (codes "/sources/") e
link_text link_ssb e = link_in (codes "/sources/") e

-- What is made of the escaped text, if there is one.
abbrev pub of_escaped : (Bytes → Result Bytes) → Option (Result Bytes) → Option (Result Bytes)
of_escaped f none = none
of_escaped f (some (err e)) = some (err e)
of_escaped f (some (ok s)) = some (f s)

unfoldable pub link_html : Link → Option Bytes → Option (Result Bytes)
link_html t uri = of_escaped (λ e. ok (link_text t e)) (html_encode uri)

abbrev pub item_text : Bytes → Bytes → Bool → Bytes
item_text label_escaped link deprecated =
    codes "<li class=\"break "
    ++ ((if deprecated then codes "deprecated" else [])
        ++ (codes "\">" ++ (label_escaped ++ (link ++ codes "</li>"))))

unfoldable pub item_html : Link → Bytes → Option Bytes → Bool → Option (Result Bytes)
item_html type label_escaped uri deprecated =
    of_escaped (λ link. ok (item_text label_escaped link deprecated)) (link_html type uri)

-- The types without a page of their own fail the assertion.
unfoldable pub direct_text : Link → Bytes → Result Bytes
direct_text link_none e = err aborted
direct_text link_raw e = err aborted
direct_text link_multihash e = ok (codes "<span>" ++ (e ++ codes "</span>"))
direct_text link_prefix e = ok (codes "<span>" ++ (e ++ codes "</span>"))
direct_text link_ssb e = ok (codes "<span>" ++ (e ++ codes "</span>"))
direct_text t e =
    ok (codes "<a href=\"" ++ (e ++ (codes "\" rel=\"nofollow\">" ++ (e ++ codes "</a>"))))

unfoldable pub direct_link_html : Link → Option Bytes → Option (Result Bytes)
direct_link_html type uri = of_escaped (direct_text type) (html_encode uri)
