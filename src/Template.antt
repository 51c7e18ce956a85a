-- ===== src/Template.antt =====
-- src/util/Template.c. What a template is written to is the argument `wr`; the regular expression is a
-- matcher by clauses. `malloc` does not fail. TemplateCreateFromPath only reads the file.
pub mod Split
pub mod Written
use hash_archive.Prelude.{
  ℕ, zero, suc, Bool, true, false, ◌==◌, ◌||◌, Bytes, List, [], ◌∷◌, ◌++◌, Option, none, some,
  codes, strip, span, is_alnum, bytes_eq, length, if◌then◌else◌,
}
use hash_archive.Error.{Error, uv_enoent, uv_epipe, aborted, Result, ok, err}
use hash_archive.Step.{Reading, go_on, ◌>>=◌, pure, fail}

-- `TemplateStep`: a literal, and the variable behind it.
pub record TemplateStep : Type 0 where
  pub str : Bytes
  pub var : Option Bytes

-- `[a-zA-Z0-9-]`
unfoldable pub var_char : ℕ → Bool
var_char c = is_alnum c || c == b'-'

-- `[a-zA-Z0-9-]+\}\}` behind the braces: the name, and what follows the match.
abbrev pub named : Bytes → Option Bytes → Option (Bytes × Bytes)
named name none = none
named name (some rest) = some (name, rest)

abbrev pub close : Bytes × Bytes → Option (Bytes × Bytes)
close ([], rest) = none
close (c ∷ name, rest) = named (c ∷ name) (strip (codes "}}") rest)

unfoldable pub match_var : Bytes → Option (Bytes × Bytes)
match_var s = elim (strip (codes "{{") s) [ none ↦ none | some rest ↦ close (span var_char rest) ]

abbrev pub one_more : TemplateStep → Option (List TemplateStep) → Option (List TemplateStep)
one_more t none = none
one_more t (some ts) = some (t ∷ ts)

-- A match at this place ends a step, and no match is one more byte of the literal.
abbrev pub next_step :
    Option (Bytes × Bytes)
    → Bytes
    → (Bytes → Option (List TemplateStep))
    → Option (List TemplateStep)
    → Option (List TemplateStep)
next_step (some (name, rest)) lit later longer =
    one_more (record { str = lit; var = some name }) (later rest)
next_step none lit later longer = longer

-- `regexec` finds the leftmost match: `lit` is the text since the last one. `none` if the fuel ends.
unfoldable pub split : ℕ → Bytes → Bytes → Option (List TemplateStep)
split zero s lit = none
split (suc fuel) [] lit = some (record { str = lit; var = none } ∷ [])
split (suc fuel) (c ∷ s) lit =
    next_step (match_var (c ∷ s)) lit (λ rest. split fuel rest []) (split fuel s (lit ++ c ∷ []))

-- Each round passes a byte at least.
unfoldable pub template_create : Bytes → Option (List TemplateStep)
template_create str = split (suc (length str)) str []

-- What is behind each call of `TemplateWrite`: a broken pipe is passed over, another error ends the
-- program.
abbrev pub must_write : {S : Type 0} → Result (Unit {0}) × S → Result (Unit {0}) × S
must_write (ok u, s) = (ok u, s)
must_write (err uv_epipe, s) = (ok tt, s)
must_write (err e, s) = (err aborted, s)

module _ (S : Type 0) (wr : Bytes → Reading S (Unit {0})) where
  -- `s->var && var ? var(actx, s->var, wr, wctx) : 0`
  abbrev pub write_var : (Bytes → Reading S (Unit {0})) → Option Bytes → Reading S (Unit {0})
  write_var var none = pure tt
  write_var var (some name) = var name

  unfoldable pub template_write :
      (Bytes → Reading S (Unit {0})) → List TemplateStep → Reading S (Unit {0})
  template_write var [] s = (ok tt, s)
  template_write var (t ∷ ts) s =
      go_on (must_write (wr t.str s))
        (λ u s1. go_on (must_write (write_var var t.var s1)) (λ u' s2. template_write var ts s2))

  -- The first entry of the name counts, and one without a value writes nothing.
  unfoldable pub template_static_var : List (Bytes × Option Bytes) → Bytes → Reading S (Unit {0})
  template_static_var [] var s = (err uv_enoent, s)
  template_static_var ((name, val) ∷ args) var s =
      let rest = template_static_var args var s in
      if bytes_eq name var then elim val [ none ↦ (ok tt, s) | some x ↦ wr x s ] else rest
