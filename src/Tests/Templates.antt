-- ===== src/Tests/Templates.antt =====
-- A small template, and pieces of pages.
use hash_archive.Prelude.{
  Bytes, List, [], ◌∷◌, ◌++◌, none, some, true, not, ◌&&◌, leb, bytes_eq, codes, All, ◌≡◌, refl,
  arith, Option,
}
use hash_archive.Error.{ok, err, aborted}
use hash_archive.Step.{Reading}
use hash_archive.Hash.Uri.Parse.{link_web_url}
use hash_archive.Template.{TemplateStep, template_create, template_write, template_static_var}
use hash_archive.Template.Split.{steps_text, IsLiteral, IsName, template_create-steps_text}
use hash_archive.Template.Written.{
  value_of, Filled, all_filled, literal, filled, IsWriter, template_write-Filled,
  template_write-none,
}
use hash_archive.Page.{suffix_of, link_html, item_html, direct_link_html}
use hash_archive.Page.Ordinal.{ordinal, suffix_of-ordinal}
use hash_archive.Page.Markup.{markup_of, markup_of-links}

abbrev put : Bytes → Reading Bytes (Unit {0})
put b s = (ok tt, s ++ b)

put-IsWriter : IsWriter Bytes put (λ s. s)
put-IsWriter = record { succeeds = λ b s. refl; adds = λ b s. refl }

abbrev args : List (Bytes × Option Bytes)
args = (codes "a", some (codes "1")) ∷ (codes "b", none) ∷ []

abbrev steps : List TemplateStep
steps =
    record { str = codes "x"; var = some (codes "a") }
    ∷ record { str = codes "y"; var = some (codes "b") }
    ∷ record { str = codes "z"; var = none }
    ∷ []

created : template_create (codes "x{{a}}y{{b}}z") ≡ some steps
unfolding template_create hash_archive.Template.split hash_archive.Template.match_var
    hash_archive.Prelude.strip hash_archive.Prelude.span hash_archive.Template.var_char
    hash_archive.Prelude.is_alnum
created = refl

value_a : value_of args (codes "a") ≡ some (codes "1")
unfolding value_of bytes_eq
value_a = refl

value_b : value_of args (codes "b") ≡ some []
unfolding value_of bytes_eq
value_b = refl

value_c : value_of args (codes "c") ≡ none
unfolding value_of bytes_eq
value_c = refl

steps-Filled : Filled args steps (codes "x1yz")
steps-Filled =
    filled (codes "x") (codes "a") (codes "1") (codes "yz") _ value_a (
      filled (codes "y") (codes "b") [] (codes "z") _ value_b
        (literal (codes "z") [] [] all_filled))

template_write-Filled_example :
    ((template_write Bytes put (template_static_var Bytes put args) steps (codes "<")).0 ≡ ok tt)
    × ((template_write Bytes put (template_static_var Bytes put args) steps (codes "<")).1
        ≡ codes "<x1yz")
template_write-Filled_example =
    template_write-Filled Bytes put (λ s. s) put-IsWriter args steps (codes "x1yz") steps-Filled
      (codes "<")

template_write-none_example :
    ((template_write Bytes put
        (template_static_var Bytes put args)
        (steps ++ record { str = codes "w"; var = some (codes "c") } ∷ steps)
        []).0
      ≡ err aborted)
    × ((template_write Bytes put
          (template_static_var Bytes put args)
          (steps ++ record { str = codes "w"; var = some (codes "c") } ∷ steps)
          []).1
        ≡ codes "x1yzw")
template_write-none_example =
    template_write-none Bytes put (λ s. s) put-IsWriter args steps steps (codes "x1yz") (codes "w")
      (codes "c") steps-Filled value_c []

template_create-steps_text_example :
    (ts : List TemplateStep) × (template_create (codes "x{{a}}y{{b}}z") ≡ some ts)
    × (steps_text ts ≡ codes "x{{a}}y{{b}}z")
    × All (λ t. IsLiteral (TemplateStep.str t) × IsName (TemplateStep.var t)) ts
template_create-steps_text_example = template_create-steps_text (codes "x{{a}}y{{b}}z")

suffix_of-ordinal_example : bytes_eq (suffix_of 22) (ordinal 22) ≡ not (leb 11 22 && leb 22 13)
suffix_of-ordinal_example = suffix_of-ordinal 22 (omega arith)

markup_of-links_example :
    (markup_of (link_html link_web_url (some (codes "\"><script>")))
      ≡ markup_of (link_html link_web_url (some (codes "a"))))
    × (markup_of (item_html link_web_url [] (some (codes "\"><script>")) true)
        ≡ markup_of (item_html link_web_url [] (some (codes "a")) true))
    × (markup_of (direct_link_html link_web_url (some (codes "\"><script>")))
        ≡ markup_of (direct_link_html link_web_url (some (codes "a"))))
markup_of-links_example = markup_of-links link_web_url [] (codes "\"><script>") (codes "a") true
