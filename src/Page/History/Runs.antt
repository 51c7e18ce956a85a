-- ===== src/Page/History/Runs.antt =====
-- What the page of a URL shows of the responses: `res_merge_common_content` links those of one content
-- that follow each other, the loop of `page_history` skips the ones with a link back, and the variable
-- `dates` follows the links forward.
use hash_archive.Prelude.{
  ℕ, zero, suc, ◌+◌, ◌-◌, ◌≤◌, Bool, true, false, Bool-cases, inl, inr, List, [], ◌∷◌, ◌++◌,
  append_assoc, map, concat, get_elem?, get_elem?-append, Option, none, some, length, length-append,
  All, if◌then◌else◌, ◌≡◌, refl, sym, ap, ◌∙◌, arith,
}
use hash_archive.Db.Response.{Response}
use hash_archive.Db.Merge.{res_content_eq, merge_content_from, res_merge_common_content}
use hash_archive.Db.Merge.Urls.{IsFresh}
use hash_archive.Page.Site.{chain}
use hash_archive.Page.History.{has_prev}

-- The responses on the page, in sections: one that is shown, and those whose dates stand in it.
unfoldable pub sections : ℕ → List Response → List Response → List (List Response)
sections n all [] = []
sections n all (r ∷ rs) =
    let rest = sections n all rs in
    if has_prev (Response.prev r) then rest else (r ∷ chain n all (Response.next r)) ∷ rest

-- The first run of responses whose neighbours have the same content, and the others.
unfoldable pub runs_from : Response → List Response → List Response × List (List Response)
runs_from a [] = (a ∷ [], [])
runs_from a (b ∷ rest) =
    let later = runs_from b rest in
    if res_content_eq a b then (a ∷ later.0, later.1) else (a ∷ [], later.0 ∷ later.1)

unfoldable pub runs : List Response → List (List Response)
runs [] = []
runs (a ∷ rest) = (runs_from a rest).0 ∷ (runs_from a rest).1

-- A response without its links.
abbrev pub unlinked : Response → Response
unlinked r = record r { next = none; prev = none }

content_eq-prev :
    (b c : Response) (p : Option ℕ) → res_content_eq (record b { prev = p }) c ≡ res_content_eq b c
unfolding res_content_eq
content_eq-prev b c p = refl

runs_from-prev :
    (b : Response) (p : Option ℕ) (rest : List Response)
    → (map unlinked (runs_from (record b { prev = p }) rest).0 ≡ map unlinked (runs_from b rest).0)
      × ((runs_from (record b { prev = p }) rest).1 ≡ (runs_from b rest).1)
unfolding runs_from
runs_from-prev b p [] = (refl, refl)
runs_from-prev b p (c ∷ rest) = elim (Bool-cases (res_content_eq b c)) [
  | inl same ↦ rw (content_eq-prev b c p, same) (refl, refl)
  | inr other ↦ rw (content_eq-prev b c p, other) (refl, refl)
]

concat-runs_from :
    (a : Response) (rest : List Response)
    → (runs_from a rest).0 ++ concat (runs_from a rest).1 ≡ a ∷ rest
unfolding runs_from
concat-runs_from a [] = refl
concat-runs_from a (b ∷ rest) = elim (Bool-cases (res_content_eq a b)) [
  | inl same ↦ rw same (ap (◌∷◌ a) (concat-runs_from b rest))
  | inr other ↦ rw other (ap (◌∷◌ a) (concat-runs_from b rest))
]

-- What the responses from `a` on are shown as: the section of `a`, and those behind it.
record Shows (all : List Response) (a : Response) (rest : List Response) (n big : ℕ)
    (merged : List Response) : Type 0 where
  first : Response
  later : List Response
  split_lem : merged ≡ first ∷ later
  kept_prev : Response.prev first ≡ Response.prev a
  section_lem :
      map unlinked (first ∷ chain n all (Response.next first)) ≡ map unlinked (runs_from a rest).0
  others_lem : map (map unlinked) (sections big all later) ≡ map (map unlinked) (runs_from a rest).1

sections-shown :
    (n : ℕ) (all : List Response) (r : Response) (rs : List Response) (p : Option ℕ)
    → Response.prev r ≡ p
    → has_prev p ≡ false
    → sections n all (r ∷ rs) ≡ (r ∷ chain n all (Response.next r)) ∷ sections n all rs
unfolding sections
sections-shown n all r rs p e h =
    let f : has_prev (Response.prev r) ≡ false = ap has_prev e ∙ h in rw f refl

shift :
    (all pre later : List Response) (first x : Response)
    → all ≡ pre ++ x ∷ first ∷ later
    → (all ≡ (pre ++ x ∷ []) ++ first ∷ later) × (get_elem? all (suc (length pre)) ≡ some first)
shift all pre later first x e =
    let f = e ∙ sym (append_assoc pre (x ∷ []) (first ∷ later)) in
    let n : length (pre ++ x ∷ []) ≡ suc (length pre) = length-append pre (x ∷ []) ∙ omega arith in
    (
      f,
      ap (λ l. get_elem? l (suc (length pre))) f
          ∙ ap (get_elem? ((pre ++ x ∷ []) ++ first ∷ later)) (sym n)
          ∙ get_elem?-append (pre ++ x ∷ []) later first,
    )

joined :
    (all pre : List Response) (a b : Response) (rest merged : List Response) (i n big : ℕ)
    → res_content_eq a b ≡ true
    → i ≡ suc (length pre)
    → all ≡ pre ++ record a { next = some i } ∷ merged
    → Shows all (record b { prev = some (i - 1) }) rest n big merged
    → Shows all a (b ∷ rest) (suc n) big (record a { next = some i } ∷ merged)
unfolding runs_from sections chain
joined all pre a b rest merged i n big same hi e sh =
    let (f, g) =
      shift all pre sh.later sh.first (record a { next = some i })
        (e ∙ ap (λ m. pre ++ record a { next = some i } ∷ m) sh.split_lem) in
    let h : get_elem? all i ≡ some sh.first = rw hi g in
    let (p0, p1) = runs_from-prev b (some (i - 1)) rest in
    record {
      first = record a { next = some i };
      later = sh.first ∷ sh.later;
      split_lem = ap (◌∷◌ (record a { next = some i })) sh.split_lem;
      kept_prev = refl;
      section_lem = rw (same, h) (ap (◌∷◌ (unlinked a)) (sh.section_lem ∙ p0));
      others_lem = rw (same, sh.kept_prev) (sh.others_lem ∙ ap (map (map unlinked)) p1);
    }

apart :
    (all : List Response) (a b : Response) (rest merged : List Response) (n big : ℕ)
    → res_content_eq a b ≡ false
    → Response.next a ≡ none
    → Response.prev b ≡ none
    → Shows all b rest big big merged
    → Shows all a (b ∷ rest) n big (a ∷ merged)
unfolding runs_from sections chain
apart all a b rest merged n big other hn hp sh = record {
  first = a;
  later = sh.first ∷ sh.later;
  split_lem = ap (◌∷◌ a) sh.split_lem;
  kept_prev = refl;
  section_lem = rw (other, hn) refl;
  others_lem = rw other (
      ap (map (map unlinked))
        (sections-shown big all sh.first sh.later none (sh.kept_prev ∙ hp) refl)
      ∙ ap (λ l. l ∷ map (map unlinked) (sections big all sh.later)) sh.section_lem
      ∙ ap (◌∷◌ (map unlinked (runs_from b rest).0)) sh.others_lem);
}

longer :
    (pre : List Response) (x : Response) (i : ℕ)
    → i ≡ suc (length pre)
    → i + 1 ≡ suc (length (pre ++ x ∷ []))
longer pre x i h = let n = length-append pre (x ∷ []) in omega arith

merge-Shows :
    (all pre : List Response) (a : Response) (rest : List Response) (i n big : ℕ)
    → Response.next a ≡ none
    → All IsFresh rest
    → i ≡ suc (length pre)
    → length rest ≤ n
    → length rest ≤ big
    → all ≡ pre ++ merge_content_from i a rest
    → Shows all a rest n big (merge_content_from i a rest)
unfolding merge_content_from runs_from sections chain
merge-Shows all pre a [] i n big hn fresh hi ln lb e = record {
  first = a;
  later = [];
  split_lem = refl;
  kept_prev = refl;
  section_lem = rw hn refl;
  others_lem = refl;
}
merge-Shows all pre a (b ∷ rest) i zero big hn (fb, fresh) hi ln lb e = absurd (omega arith)
merge-Shows all pre a (b ∷ rest) i (suc n) big hn (fb, fresh) hi ln lb e =
    go (res_content_eq a b) refl e
      (merge-Shows all (pre ++ record a { next = some i } ∷ []) (record b { prev = some (i - 1) })
        rest (i + 1) n big fb.0 fresh (longer pre (record a { next = some i }) i hi) (omega arith)
        (omega arith))
      (merge-Shows all (pre ++ a ∷ []) b rest (i + 1) big big fb.0 fresh (longer pre a i hi)
        (omega arith) (omega arith))
  where
    go :
        (t : Bool)
        → res_content_eq a b ≡ t
        → all
          ≡ pre
            ++ (if t then record a { next = some i } else a)
              ∷ merge_content_from (i + 1) (if t then record b { prev = some (i - 1) } else b) rest
        → (all
              ≡ (pre ++ record a { next = some i } ∷ [])
                ++ merge_content_from (i + 1) (record b { prev = some (i - 1) }) rest
            → Shows all
                (record b { prev = some (i - 1) })
                rest
                n
                big
                (merge_content_from (i + 1) (record b { prev = some (i - 1) }) rest))
        → (all ≡ (pre ++ a ∷ []) ++ merge_content_from (i + 1) b rest
            → Shows all b rest big big (merge_content_from (i + 1) b rest))
        → Shows all a (b ∷ rest) (suc n) big (
            (if t then record a { next = some i } else a)
            ∷ merge_content_from (i + 1) (if t then record b { prev = some (i - 1) } else b) rest)
    go true same f on off =
        joined all pre a b rest _ i n big same hi f
          (on (f ∙ sym (append_assoc pre (record a { next = some i } ∷ []) _)))
    go false other f on off =
        apart all a b rest _ (suc n) big other hn fb.1 (off (f ∙ sym (append_assoc pre (a ∷ []) _)))

length-merge_from :
    (i : ℕ) (a : Response) (rest : List Response)
    → length (merge_content_from i a rest) ≡ suc (length rest)
unfolding merge_content_from
length-merge_from i a [] = refl
length-merge_from i a (b ∷ rest) = ap suc (length-merge_from (i + 1) _ rest)

fresh_lem : (r : Response) → IsFresh r → unlinked r ≡ r
fresh_lem r (hn, hp) =
    ap (λ n. record r { next = n; prev = none }) (sym hn) ∙ ap (λ p. record r { prev = p }) (sym hp)

fresh_runs_from :
    (a : Response) (rest : List Response)
    → IsFresh a
    → All IsFresh rest
    → (map unlinked (runs_from a rest).0 ≡ (runs_from a rest).0)
      × (map (map unlinked) (runs_from a rest).1 ≡ (runs_from a rest).1)
unfolding runs_from
fresh_runs_from a [] fa fresh = (ap (λ x. x ∷ []) (fresh_lem a fa), refl)
fresh_runs_from a (b ∷ rest) fa (fb, fresh) =
    let (f, g) = fresh_runs_from b rest fb fresh in
    elim (Bool-cases (res_content_eq a b)) [
      | inl same ↦
          rw same
            (ap (λ x. x ∷ map unlinked (runs_from b rest).0) (fresh_lem a fa) ∙ ap (◌∷◌ a) f, g)
      | inr other ↦ rw other (
        ap (λ x. x ∷ []) (fresh_lem a fa),
        ap (λ x. x ∷ map (map unlinked) (runs_from b rest).1) f ∙ ap (◌∷◌ (runs_from b rest).0) g,
      )
    ]

fresh_runs : (rs : List Response) → All IsFresh rs → map (map unlinked) (runs rs) ≡ runs rs
unfolding runs
fresh_runs [] h = refl
fresh_runs (a ∷ rest) (fa, fresh) =
    let (f, g) = fresh_runs_from a rest fa fresh in
    ap (λ x. x ∷ map (map unlinked) (runs_from a rest).1) f ∙ ap (◌∷◌ (runs_from a rest).0) g

-- The runs are all of the responses, in order.
pub concat-runs : (rs : List Response) → concat (runs rs) ≡ rs
unfolding runs
concat-runs [] = refl
concat-runs (a ∷ rest) = concat-runs_from a rest

-- Of responses as they are read, the merged ones are on the page in sections, each of which is, but for
-- the links, a whole run of responses of one content that follow each other: so every response
-- stands in exactly one section, in order.
pub sections-merge_content :
    (rs : List Response)
    → All IsFresh rs
    → (map (map unlinked) (
          sections
            (length (res_merge_common_content rs))
            (res_merge_common_content rs)
            (res_merge_common_content rs))
        ≡ runs rs)
      × (concat (runs rs) ≡ rs)
unfolding res_merge_common_content runs sections
sections-merge_content [] fresh = (refl, refl)
sections-merge_content (a ∷ rest) (fa, fresh) = (
  whole (merge-Shows all [] a rest 1 (length all) (length all) fa.0 fresh refl fits fits refl)
      ∙ fresh_runs (a ∷ rest) (fa, fresh),
  concat-runs_from a rest,
)
  where
    all : List Response
    all = merge_content_from 1 a rest

    fits : length rest ≤ length all
    fits = let n = length-merge_from 1 a rest in omega arith

    whole :
        Shows all a rest (length all) (length all) all
        → map (map unlinked) (sections (length all) all all)
          ≡ map unlinked (runs_from a rest).0 ∷ map (map unlinked) (runs_from a rest).1
    whole sh =
        ap (λ l. map (map unlinked) (sections (length all) all l)) sh.split_lem
        ∙ ap (map (map unlinked))
            (sections-shown (length all) all sh.first sh.later none (sh.kept_prev ∙ fa.1) refl)
        ∙ ap (λ l. l ∷ map (map unlinked) (sections (length all) all sh.later)) sh.section_lem
        ∙ ap (◌∷◌ (map unlinked (runs_from a rest).0)) sh.others_lem
