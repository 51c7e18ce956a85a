-- ===== src/Page/Escaped/Sections.antt =====
-- The page of a URL, for two URLs and two lists of responses.
use hash_archive.Prelude.{
  ℕ, Bool, true, false, Bool-cases, Bytes, List, [], ◌∷◌, ◌++◌, map, concat, Option, none, some,
  codes, if◌then◌else◌, inl, inr, ◌≡◌, refl, sym, ap, ◌∙◌,
}
use hash_archive.Hash.Algo.{Algo}
use hash_archive.Hash.Uri.Parse.{Link}
use hash_archive.Db.Response.{Response}
use hash_archive.Db.Merge.{res_content_eq, is_ok_status}
use hash_archive.Page.Args.{history_values}
use hash_archive.Page.Site.{Site}
use hash_archive.Page.Output.{both_texts, with_values}
use hash_archive.Page.History.{
  HistoryTemplates, date_of, list_type, error_text, check_scheme, is_outdated, page_history,
}
use hash_archive.Page.History.Runs.{runs_from, runs}
use hash_archive.Page.History.Written.{
  text_of_item, items_text, list_text, section_value, sections_text, history_text,
}
use hash_archive.Page.Escaped.{
  markups, unnamed, SameValues, same_both, same_with_values, same_args, history_SameArgs,
}

content_eq-unnamed : (a b : Response) → res_content_eq (unnamed a) (unnamed b) ≡ res_content_eq a b
unfolding res_content_eq
content_eq-unnamed a b = refl

runs_from-unnamed :
    (a : Response) (rest : List Response)
    → (map unnamed (runs_from a rest).0 ≡ (runs_from (unnamed a) (map unnamed rest)).0)
      × (map (map unnamed) (runs_from a rest).1 ≡ (runs_from (unnamed a) (map unnamed rest)).1)
unfolding runs_from
runs_from-unnamed a [] = (refl, refl)
runs_from-unnamed a (b ∷ rest) =
    let (e, f) = runs_from-unnamed b rest in
    elim (Bool-cases (res_content_eq a b)) [
      | inl same ↦ rw (content_eq-unnamed a b, same) (ap (◌∷◌ (unnamed a)) e, f)
      | inr other ↦ rw (content_eq-unnamed a b, other) (refl, rw (e, f) refl)
    ]

runs-unnamed : (rs : List Response) → map (map unnamed) (runs rs) ≡ runs (map unnamed rs)
unfolding runs
runs-unnamed [] = refl
runs-unnamed (a ∷ rest) = let (e, f) = runs_from-unnamed a rest in rw (e, f) refl

outdated-unnamed :
    (rs : List Response) (now : ℕ) → is_outdated (map unnamed rs) now ≡ is_outdated rs now
unfolding is_outdated
outdated-unnamed [] now = refl
outdated-unnamed (r ∷ rs) now = refl

module _ (site : Site) where
  items-unnamed :
      (type : Link) (r : Response) (l : List Algo)
      → items_text site type (unnamed r) l ≡ items_text site type r l
  unfolding hash_archive.Page.History.item_of
  items-unnamed type r [] = refl
  items-unnamed type r (a ∷ l) =
      ap (both_texts (text_of_item (hash_archive.Page.History.item_of site type r a)))
        (items-unnamed type r l)

  list-unnamed :
      (type : Option Link) (r : Response) → list_text site type (unnamed r) ≡ list_text site type r
  list-unnamed none r = refl
  list-unnamed (some type) r = items-unnamed type r hash_archive.Page.History.algos

  dates-unnamed :
      (later : List Response)
      → concat (map (date_of site (codes "Also seen ")) (map unnamed later))
        ≡ concat (map (date_of site (codes "Also seen ")) later)
  dates-unnamed [] = refl
  dates-unnamed (r ∷ later) =
      ap (λ s. date_of site (codes "Also seen ") r ++ s) (dates-unnamed later)

  same_section :
      (r : Response) (later : List Response)
      → SameValues (section_value site r later) (section_value site (unnamed r) (map unnamed later))
  unfolding section_value error_text
  same_section r later name = rw (dates-unnamed later, list-unnamed (list_type name) r) refl

  same_sections :
      (ts : HistoryTemplates) (ss : List (List Response))
      → markups (sections_text site ts ss) ≡ markups (sections_text site ts (map (map unnamed) ss))
  same_sections ts [] = refl
  same_sections ts ([] ∷ ss) = same_both (some []) (some []) _ _ refl (same_sections ts ss)
  same_sections ts ((r ∷ later) ∷ ss) =
      same_both _ _ _ _
        (same_with_values _ _ (if is_ok_status (Response.status r) then ts.entry else ts.error)
          (same_section r later))
        (same_sections ts ss)

  -- The page of a URL, for two URLs and two lists of responses.
  pub same_history :
      (ts : HistoryTemplates) (u v : Bytes) (now : ℕ) (rs qs : List Response)
      → map unnamed rs ≡ map unnamed qs
      → markups (history_text site ts (history_values u) (is_outdated rs now) (runs rs))
        ≡ markups (history_text site ts (history_values v) (is_outdated qs now) (runs qs))
  unfolding history_text
  same_history ts u v now rs qs e =
      let h = same_args (history_values u) (history_values v) (history_SameArgs u v) in
      let old : is_outdated rs now ≡ is_outdated qs now =
        sym (outdated-unnamed rs now) ∙ ap (λ l. is_outdated l now) e ∙ outdated-unnamed qs now in
      let ss : map (map unnamed) (runs rs) ≡ map (map unnamed) (runs qs) =
        runs-unnamed rs ∙ ap runs e ∙ sym (runs-unnamed qs) in
      same_both _ _ _ _ (same_with_values _ _ ts.header h) (
        same_both _ _ _ _ (rw old (notice (is_outdated qs now) h)) (
          same_both _ _ _ _
            (same_sections ts (runs rs)
              ∙ ap (λ l. markups (sections_text site ts l)) ss
              ∙ sym (same_sections ts (runs qs)))
            (same_with_values _ _ ts.footer h)))
    where
      notice :
          (b : Bool)
          → SameValues
              (hash_archive.Template.Written.value_of (history_values u))
              (hash_archive.Template.Written.value_of (history_values v))
          → markups (
              if b
              then with_values
                  (hash_archive.Template.Written.value_of (history_values u))
                  ts.outdated
              else some [])
            ≡ markups (
                if b
                then with_values
                    (hash_archive.Template.Written.value_of (history_values v))
                    ts.outdated
                else some [])
      notice true h = same_with_values _ _ ts.outdated h
      notice false h = refl
