-- ===== src/Template/Split.antt =====
-- The steps of a template are the template, and no variable is left in a literal.
use hash_archive.Prelude.{
  ℕ, zero, suc, ◌+◌, ◌≤◌, ◌<◌, true, Bytes, List, [], ◌∷◌, ◌++◌, false, append_assoc, append-nil,
  Bool-cases, inl, inr, Option, none, some, codes, strip, strip-append, span, span-append, length,
  All, All-mono, ◌⊎◌, ◌≡◌, ◌≢◌, refl, sym, ap, subst, length-append, ◌∙◌, arith,
}
use hash_archive.Template.{
  TemplateStep, var_char, named, close, match_var, next_step, split, template_create,
}

abbrev pub var_text : Option Bytes → Bytes
var_text none = []
var_text (some name) = codes "{{" ++ (name ++ codes "}}")

-- The text that the steps stand for.
unfoldable pub steps_text : List TemplateStep → Bytes
steps_text [] = []
steps_text (t ∷ ts) = t.str ++ (var_text t.var ++ steps_text ts)

-- A letter, a digit or a dash.
abbrev pub IsNameChar : ℕ → Type 0
IsNameChar c = ((97 ≤ c) × (c ≤ 122)) ⊎ ((65 ≤ c) × (c ≤ 90)) ⊎ ((48 ≤ c) × (c ≤ 57)) ⊎ (c ≡ 45)

abbrev pub IsWord : Bytes → Type 0
IsWord name = (name ≢ []) × All IsNameChar name

abbrev pub IsName : Option Bytes → Type 0
IsName none = Unit
IsName (some name) = IsWord name

-- No variable stands anywhere in a literal.
abbrev pub IsLiteral : Bytes → Type 0
IsLiteral lit =
    (before name after : Bytes)
    → IsWord name
    → lit ≢ before ++ (codes "{{" ++ (name ++ (codes "}}" ++ after)))

name_char : (c : ℕ) → var_char c ≡ true → IsNameChar c
unfolding var_char hash_archive.Prelude.is_alnum
name_char c h = ground arith

char_name : (c : ℕ) → IsNameChar c → var_char c ≡ true
unfolding var_char hash_archive.Prelude.is_alnum
char_name c h = ground arith

span-parts :
    (p : ℕ → hash_archive.Prelude.Bool) (s : Bytes)
    → ((span p s).0 ++ (span p s).1 ≡ s) × All (λ c. p c ≡ true) (span p s).0
unfolding span
span-parts p [] = (refl, tt)
span-parts p (c ∷ s) =
    let (e, h) = span-parts p s in
    elim (Bool-cases (p c)) [
      | inl yes' ↦ rw yes' (ap (◌∷◌ c) e, (yes', h))
      | inr no' ↦ rw no' (refl, tt)
    ]

strip-parts : (p s rest : Bytes) → strip p s ≡ some rest → s ≡ p ++ rest
unfolding strip
strip-parts [] s rest e = cc
strip-parts (x ∷ p) [] rest e = cc
strip-parts (x ∷ p) (y ∷ s) rest e = ground (arith, strip-parts p s rest)

closed :
    (x : Bytes × Bytes) (name rest : Bytes)
    → close x ≡ some (name, rest)
    → (x.0 ≡ name) × (x.1 ≡ codes "}}" ++ rest) × (name ≢ [])
closed ([], s) name rest e = cc
closed (c ∷ n, s) name rest e = go (strip (codes "}}") s) refl e
  where
    go :
        (m : Option Bytes)
        → strip (codes "}}") s ≡ m
        → named (c ∷ n) m ≡ some (name, rest)
        → (c ∷ n ≡ name) × (s ≡ codes "}}" ++ rest) × (name ≢ [])
    go none f g = cc
    go (some rest') f g =
        let same : rest' ≡ rest = cc in
        (cc, strip-parts (codes "}}") s rest' f ∙ ap (λ r. codes "}}" ++ r) same, λ h. cc)

match_var-parts :
    (s name rest : Bytes)
    → match_var s ≡ some (name, rest)
    → (s ≡ codes "{{" ++ (name ++ (codes "}}" ++ rest))) × IsName (some name)
unfolding match_var
match_var-parts s name rest e = go (strip (codes "{{") s) refl e
  where
    go :
        (m : Option Bytes)
        → strip (codes "{{") s ≡ m
        → elim m [ none ↦ none | some r ↦ close (span var_char r) ] ≡ some (name, rest)
        → (s ≡ codes "{{" ++ (name ++ (codes "}}" ++ rest))) × IsName (some name)
    go none f g = cc
    go (some r) f g =
        let (e0, e1, h) = closed (span var_char r) name rest g in
        let (whole, chars) = span-parts var_char r in
        (
          strip-parts (codes "{{") s r f
              ∙ ap (λ t. codes "{{" ++ t)
                  (sym whole ∙ ap (λ t. t ++ (span var_char r).1) e0 ∙ ap (λ t. name ++ t) e1),
          (h, All-mono _ _ name_char name (subst (λ n. All (λ c. var_char c ≡ true) n) e0 chars)),
        )

no_brace : var_char 125 ≡ false
unfolding var_char hash_archive.Prelude.is_alnum
no_brace = ground arith

match_var-opened :
    (s rest : Bytes) → strip (codes "{{") s ≡ some rest → match_var s ≡ close (span var_char rest)
unfolding match_var
match_var-opened s rest e = rw (match_var, e) refl

-- Behind two braces, a name and two braces there is a match.
match_var_found :
    (c : ℕ) (name after : Bytes)
    → All IsNameChar (c ∷ name)
    → match_var (codes "{{" ++ ((c ∷ name) ++ (codes "}}" ++ after))) ≡ some (c ∷ name, after)
match_var_found c name after h =
    let chars = All-mono _ _ char_name (c ∷ name) h in
    match_var-opened _ _ (strip-append (codes "{{") ((c ∷ name) ++ (codes "}}" ++ after)))
    ∙ ap close (span-append var_char (c ∷ name) (codes "}}" ++ after) chars no_brace)
    ∙ ap (named (c ∷ name)) (strip-append (codes "}}") after)

-- No match begins in `lit`, which `s` follows.
abbrev Passed : Bytes → Bytes → Type 0
Passed [] s = Unit
Passed (c ∷ lit) s = (match_var (c ∷ lit ++ s) ≡ none) × Passed lit s

Passed-append :
    (lit s : Bytes) (c : ℕ)
    → Passed lit (c ∷ s)
    → match_var (c ∷ s) ≡ none
    → Passed (lit ++ c ∷ []) s
Passed-append [] s c h e = (e, tt)
Passed-append (x ∷ lit) s c (e0, h) e = (
  subst (λ l. match_var (x ∷ l) ≡ none) (sym (append_assoc lit (c ∷ []) s)) e0,
  Passed-append lit s c h e,
)

Passed-behind : (before lit s : Bytes) → Passed (before ++ lit) s → Passed lit s
Passed-behind [] lit s h = h
Passed-behind (c ∷ before) lit s (e, h) = Passed-behind before lit s h

Passed-IsLiteral : (lit s : Bytes) → Passed lit s → IsLiteral lit
Passed-IsLiteral lit s h before [] after (full, chars) e = full refl
Passed-IsLiteral lit s h before (c ∷ name) after (full, chars) e =
    let (none_here, _) =
      Passed-behind before (codes "{{" ++ ((c ∷ name) ++ (codes "}}" ++ after))) s
        (subst (λ l. Passed l s) e h) in
    let moved = append_assoc name (codes "}}" ++ after) s in
    let found = match_var_found c name (after ++ s) chars in
    let there : match_var (codes "{{" ++ ((c ∷ name) ++ (codes "}}" ++ (after ++ s)))) ≡ none =
      subst (λ l. match_var (codes "{{" ++ (c ∷ l)) ≡ none) moved none_here in
    cc

abbrev IsStep : TemplateStep → Type 0
IsStep t = IsLiteral (TemplateStep.str t) × IsName (TemplateStep.var t)

-- The steps of the text `whole`.
abbrev StepsOf : Option (List TemplateStep) → Bytes → Type 0
StepsOf result whole =
    (ts : List TemplateStep) × (result ≡ some ts) × (steps_text ts ≡ whole) × All IsStep ts

split-StepsOf :
    (fuel : ℕ) (s lit : Bytes)
    → length s < fuel
    → Passed lit s
    → StepsOf (split fuel s lit) (lit ++ s)
unfolding split steps_text
split-StepsOf zero s lit h p = absurd (omega arith)
split-StepsOf (suc fuel) [] lit h p = (_, refl, refl, ((Passed-IsLiteral lit [] p, tt), tt))
split-StepsOf (suc fuel) (c ∷ s) lit h p =
    go (match_var (c ∷ s)) refl (λ rest k. split-StepsOf fuel rest [] k tt)
      (λ e. split-StepsOf fuel s (lit ++ c ∷ []) (omega arith) (Passed-append lit s c p e))
  where
    go :
        (m : Option (Bytes × Bytes))
        → match_var (c ∷ s) ≡ m
        → ((rest : Bytes) → length rest < fuel → StepsOf (split fuel rest []) rest)
        → (match_var (c ∷ s) ≡ none → StepsOf (split fuel s (lit ++ c ∷ [])) ((lit ++ c ∷ []) ++ s))
        → StepsOf
            (next_step m lit (λ rest. split fuel rest []) (split fuel s (lit ++ c ∷ [])))
            (lit ++ c ∷ s)
    go none f ih later =
        let (ts, e, w, steps) = later f in (ts, e, w ∙ append_assoc lit (c ∷ []) s, steps)
    go (some (name, rest)) f ih later =
        let (whole, name_ok) = match_var-parts (c ∷ s) name rest f in
        let (ts, e, w, steps) =
          ih rest (omega (arith, ap length whole, length-append name (codes "}}" ++ rest))) in
        let text =
          ap (λ t. lit ++ (codes "{{" ++ t))
            (append_assoc name (codes "}}") (steps_text ts) ∙ ap (λ r. name ++ (codes "}}" ++ r)) w)
          ∙ ap (λ t. lit ++ t) (sym whole) in
        (
          record { str = lit; var = some name } ∷ ts,
          rw e refl,
          text,
          ((Passed-IsLiteral lit (c ∷ s) p, name_ok), steps),
        )

-- A template is split into steps whose text is the template, byte by byte. Each variable of a step has a
-- name that is not empty and consists of letters, digits and dashes, and no literal of a step holds
-- such a name between double braces.
pub template_create-steps_text :
    (s : Bytes)
    → (ts : List TemplateStep) × (template_create s ≡ some ts)
      × (steps_text ts ≡ s)
      × All (λ t. IsLiteral (TemplateStep.str t) × IsName (TemplateStep.var t)) ts
unfolding template_create
template_create-steps_text s = split-StepsOf (suc (length s)) s [] (omega arith) tt
