-- ===== src/Prelude/Map.antt =====
-- Maps and sets with number keys, as lists in key order: `BTreeMap`, `BTreeSet`, and `HashMap`
-- where the order of iteration does not show.
pub mod Ascending
use Prim.Native.Nat.{ℕ}
use mathlib.Core.Path.{◌≡◌, refl}
use mathlib.Core.Bool.{Bool, false, ◌||◌}
use mathlib.Core.List.{List, [], ◌∷◌}
use mathlib.Core.Option.{Option, none, some}
use native.Mathlib.Omega.{arith}
use baston.Prelude.Tests.{ltb, ◌==◌, if◌then◌else◌}

module _ {ℓ} {V : Type ℓ} where
  unfoldable pub lookup : ℕ → List (ℕ × V) → Option V
  lookup k [] = none
  lookup k ((j, v) ∷ m) = if j == k then some v else lookup k m

  unfoldable pub insert : ℕ → V → List (ℕ × V) → List (ℕ × V)
  insert k v [] = (k, v) ∷ []
  insert k v ((j, w) ∷ m) =
      if j == k then (k, v) ∷ m else if ltb k j then (k, v) ∷ (j, w) ∷ m else (j, w) ∷ insert k v m

  unfoldable pub remove : ℕ → List (ℕ × V) → List (ℕ × V)
  remove k [] = []
  remove k ((j, v) ∷ m) = let rest = remove k m in if j == k then rest else (j, v) ∷ rest

  pub lookup-insert :
      (k q : ℕ) (v : V) (m : List (ℕ × V))
      → lookup q (insert k v m) ≡ (if k == q then some v else lookup q m)
  unfolding lookup insert
  lookup-insert k q v [] = refl
  lookup-insert k q v ((j, w) ∷ m) = ground (arith, lookup-insert k q v m)

  pub lookup-remove :
      (k q : ℕ) (m : List (ℕ × V)) → lookup q (remove k m) ≡ (if k == q then none else lookup q m)
  unfolding lookup remove
  lookup-remove k q [] = ground arith
  lookup-remove k q ((j, w) ∷ m) = ground (arith, lookup-remove k q m)

-- Sets of numbers.
unfoldable pub member : ℕ → List ℕ → Bool
member a [] = false
member a (x ∷ xs) = (x == a) || member a xs

unfoldable pub add : ℕ → List ℕ → List ℕ
add a [] = a ∷ []
add a (x ∷ xs) = if x == a then x ∷ xs else if ltb a x then a ∷ x ∷ xs else x ∷ add a xs

unfoldable pub discard : ℕ → List ℕ → List ℕ
discard a [] = []
discard a (x ∷ xs) = let rest = discard a xs in if x == a then rest else x ∷ rest

pub member-add : (a q : ℕ) (xs : List ℕ) → member q (add a xs) ≡ ((a == q) || member q xs)
unfolding member add
member-add a q [] = refl
member-add a q (x ∷ xs) = ground (arith, member-add a q xs)

pub member-discard :
    (a q : ℕ) (xs : List ℕ) → member q (discard a xs) ≡ (if a == q then false else member q xs)
unfolding member discard
member-discard a q [] = ground arith
member-discard a q (x ∷ xs) = ground (arith, member-discard a q xs)
