-- ===== src/Template/Written.antt =====
-- What a template with values for its variables writes.
use hash_archive.Prelude.{
  Bool-cases, inl, inr, bytes_eq, Bytes, List, [], ◌∷◌, ◌++◌, append_assoc, append-nil, Option,
  none, some, if◌then◌else◌, ◌≡◌, refl, sym, ap, ◌∙◌,
}
use hash_archive.Error.{uv_enoent, aborted, Result, ok, err}
use hash_archive.Step.{Reading, go_on}
use hash_archive.Template.{TemplateStep, must_write, template_write, template_static_var}

-- The value of a variable: the first entry of its name, where one without a value is empty.
unfoldable pub value_of : List (Bytes × Option Bytes) → Bytes → Option Bytes
value_of [] var = none
value_of ((name, none) ∷ args) var =
    let rest = value_of args var in if bytes_eq name var then some [] else rest
value_of ((name, some x) ∷ args) var =
    let rest = value_of args var in if bytes_eq name var then some x else rest

-- A template in which every variable has a value, with the values in place of the variables.
pub data Filled (args : List (Bytes × Option Bytes)) : List TemplateStep → Bytes → Type 0 where
  all_filled : Filled args [] []
  literal :
      (str rest : Bytes) (ts : List TemplateStep)
      → Filled args ts rest
      → Filled args (record { str = str; var = none } ∷ ts) (str ++ rest)
  filled :
      (str name x rest : Bytes) (ts : List TemplateStep)
      → value_of args name ≡ some x
      → Filled args ts rest
      → Filled args (record { str = str; var = some name } ∷ ts) (str ++ (x ++ rest))

module _ (S : Type 0) (wr : Bytes → Reading S (Unit {0})) (written : S → Bytes) where
  -- A write that succeeds puts the text at the end of the output.
  pub record IsWriter : Type 0 where
    pub succeeds : (b : Bytes) (s : S) → (wr b s).0 ≡ ok tt
    pub adds : (b : Bytes) (s : S) → written (wr b s).1 ≡ written s ++ b

  module _ (law : IsWriter) where
    open law use {succeeds, adds}

    -- A step writes exactly `text`.
    abbrev Writes : Reading S (Unit {0}) → Bytes → Type 0
    Writes m text = (s : S) → ((m s).0 ≡ ok tt) × (written (m s).1 ≡ written s ++ text)

    static_var-Writes :
        (args : List (Bytes × Option Bytes)) (name x : Bytes)
        → value_of args name ≡ some x
        → Writes (template_static_var S wr args name) x
    unfolding value_of template_static_var
    static_var-Writes [] name x e s = cc
    static_var-Writes ((n, none) ∷ args) name x e s = elim (Bool-cases (bytes_eq n name)) [
      | inl same ↦
          let f = rw same at e in
          let g : [] ≡ x = cc in
          rw same (refl, sym (append-nil (written s)) ∙ ap (λ t. written s ++ t) g)
      | inr other ↦ let f = rw other at e in rw other (static_var-Writes args name x f s)
    ]
    static_var-Writes ((n, some y) ∷ args) name x e s = elim (Bool-cases (bytes_eq n name)) [
      | inl same ↦
          let f = rw same at e in
          let g : y ≡ x = cc in rw same (succeeds y s, adds y s ∙ ap (λ t. written s ++ t) g)
      | inr other ↦ let f = rw other at e in rw other (static_var-Writes args name x f s)
    ]

    -- What ends with `r` and has written exactly `text`.
    abbrev pub Ends : Result (Unit {0}) → Reading S (Unit {0}) → Bytes → Type 0
    Ends r m text = (s : S) → ((m s).0 ≡ r) × (written (m s).1 ≡ written s ++ text)

    Ends-then :
        (r : Result (Unit {0})) (m k : Reading S (Unit {0})) (a b : Bytes)
        → Ends (ok tt) m a
        → Ends r k b
        → Ends r (λ s. go_on (must_write (m s)) (λ u. k)) (a ++ b)
    Ends-then r m k a b h more s = let (e, f) = h s in go (m s) e f
      where
        go :
            (x : Result (Unit {0}) × S)
            → x.0 ≡ ok tt
            → written x.1 ≡ written s ++ a
            → ((go_on (must_write x) (λ u. k)).0 ≡ r)
              × (written (go_on (must_write x) (λ u. k)).1 ≡ written s ++ (a ++ b))
        go (ok u, s') e f =
            let (g, d) = more s' in (g, d ∙ ap (λ t. t ++ b) f ∙ append_assoc (written s) a b)
        go (err y, s') e f = cc

    wr-Ends : (b : Bytes) → Ends (ok tt) (wr b) b
    wr-Ends b s = (succeeds b s, adds b s)

    -- To a writer that adds each text to its output, a template in which every variable has a value is
    -- written with the values in place of the variables.
    pub template_write-Filled :
        (args : List (Bytes × Option Bytes)) (ts : List TemplateStep) (out : Bytes)
        → Filled args ts out
        → Ends (ok tt) (template_write S wr (template_static_var S wr args) ts) out
    unfolding template_write
    template_write-Filled args ts out all_filled s = (refl, sym (append-nil (written s)))
    template_write-Filled args ts out (literal str rest ts' h) s =
        Ends-then (ok tt) (wr str) (template_write S wr (template_static_var S wr args) ts') str
          rest (wr-Ends str) (template_write-Filled args ts' rest h) s
    template_write-Filled args ts out (filled str name x rest ts' e h) s =
        Ends-then (ok tt) (wr str) _ str (x ++ rest) (wr-Ends str)
          (Ends-then (ok tt) (template_static_var S wr args name)
            (template_write S wr (template_static_var S wr args) ts') x rest
            (static_var-Writes args name x e) (template_write-Filled args ts' rest h))
          s

    static_var-none :
        (args : List (Bytes × Option Bytes)) (name : Bytes) (s : S)
        → value_of args name ≡ none
        → template_static_var S wr args name s ≡ (err uv_enoent, s)
    unfolding value_of template_static_var
    static_var-none [] name s e = refl
    static_var-none ((n, none) ∷ args) name s e = elim (Bool-cases (bytes_eq n name)) [
      | inl same ↦ let f = rw same at e in cc
      | inr other ↦ let f = rw other at e in rw other (static_var-none args name s f)
    ]
    static_var-none ((n, some y) ∷ args) name s e = elim (Bool-cases (bytes_eq n name)) [
      | inl same ↦ let f = rw same at e in cc
      | inr other ↦ let f = rw other at e in rw other (static_var-none args name s f)
    ]

    -- To such a writer, at the first variable that has no value the program ends: what stands before it
    -- is written, and nothing behind it.
    pub template_write-none :
        (args : List (Bytes × Option Bytes)) (ts later : List TemplateStep) (out str name : Bytes)
        → Filled args ts out
        → value_of args name ≡ none
        → Ends
            (err aborted)
            (template_write S wr
              (template_static_var S wr args)
              (ts ++ record { str = str; var = some name } ∷ later))
            (out ++ str)
    unfolding template_write
    template_write-none args ts later out str name all_filled e s =
        let (g, d) =
          Ends-then (err aborted) (wr str)
            (λ s1.
              go_on (must_write (template_static_var S wr args name s1))
                (λ u. template_write S wr (template_static_var S wr args) later))
            str [] (wr-Ends str)
            (λ s1. rw (static_var-none args name s1 e) (refl, sym (append-nil (written s1)))) s in
        (g, d ∙ ap (λ t. written s ++ t) (append-nil str))
    template_write-none args ts later out str name (literal a rest ts' h) e s =
        let (g, d) =
          Ends-then (err aborted) (wr a) _ a (rest ++ str) (wr-Ends a)
            (template_write-none args ts' later rest str name h e) s in
        (g, d ∙ ap (λ t. written s ++ t) (sym (append_assoc a rest str)))
    template_write-none args ts later out str name (filled a n x rest ts' f h) e s =
        let (g, d) =
          Ends-then (err aborted) (wr a) _ a (x ++ (rest ++ str)) (wr-Ends a)
            (Ends-then (err aborted) (template_static_var S wr args n) _ x (rest ++ str)
              (static_var-Writes args n x f) (template_write-none args ts' later rest str name h e))
            s in
        let same =
          ap (λ t. a ++ t) (sym (append_assoc x rest str)) ∙ sym (append_assoc a (x ++ rest) str) in
        (g, d ∙ ap (λ t. written s ++ t) same)
