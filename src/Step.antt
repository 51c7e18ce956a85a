-- ===== src/Step.antt =====
-- Steps that change a state and may fail, in a chain of `if(rc < 0) goto cleanup;`: for src/import.c
-- and src/fetch.c.
use hash_archive.Error.{Error, Result, ok, err}

-- A step that reads from `S` or acts on it: its result, and what it leaves.
abbrev pub Reading : Type 0 → Type 0 → Type 0
Reading S A = S → Result A × S

-- `if(rc < 0) goto cleanup;`
abbrev pub go_on : {S A B : Type 0} → Result A × S → (A → Reading S B) → Result B × S
go_on (ok a, s) k = k a s
go_on (err e, s) k = (err e, s)

infixl 5 ◌>>=◌
abbrev pub ◌>>=◌ : {S A B : Type 0} → Reading S A → (A → Reading S B) → Reading S B
◌>>=◌ m k s = go_on (m s) k

abbrev pub pure : {S A : Type 0} → A → Reading S A
pure a s = (ok a, s)

abbrev pub fail : {S A : Type 0} → Error → Reading S A
fail e s = (err e, s)

-- A result that needs no state.
abbrev pub lift : {S A : Type 0} → Result A → Reading S A
lift r s = (r, s)
