-- ===== src/Prelude/Parser.antt =====
-- Readers over a state, with failure: a read either fails or gives a value and the state behind it.
use mathlib.Core.Option.{Option, none, some}

abbrev pub Parser : Type 0 → Type 0 → Type 0
Parser S A = S → Option (A × S)

abbrev pub continue : {S A B : Type 0} → Option (A × S) → (A → Parser S B) → Option (B × S)
continue none f = none
continue (some (a, s)) f = f a s

infixl 5 ◌>>=◌
abbrev pub ◌>>=◌ : {S A B : Type 0} → Parser S A → (A → Parser S B) → Parser S B
◌>>=◌ m f s = continue (m s) f

abbrev pub pure : {S A : Type 0} → A → Parser S A
pure a s = some (a, s)

abbrev pub result : {S A : Type 0} → Option (A × S) → Option A
result none = none
result (some (a, s)) = some a
