-- ===== src/Prelude/Map/Ascending.antt =====
-- Key order: the keys of a map and the elements of a set are in strictly ascending order, and
-- every operation keeps them so.
use Prim.Native.Nat.{ℕ, ◌≤◌, ◌<◌, ◌+◌}
use mathlib.Core.Path.{◌≡◌, refl}
use mathlib.Core.Bool.{false}
use mathlib.Core.List.{List, [], ◌∷◌}
use mathlib.Core.Option.{none}
use mathlib.Core.Logic.{inl, inr}
use native.Mathlib.Omega.{arith}
use baston.Prelude.Tests.{ltb, ◌==◌, Bool-cases}
use baston.Prelude.Map.{lookup, insert, remove, member, add, discard}

unfoldable pub Ascending : ℕ → List ℕ → Type 0
Ascending low [] = Unit
Ascending low (x ∷ xs) = (low ≤ x) × Ascending (x + 1) xs

pub Ascending-weaken :
    (low low' : ℕ) (xs : List ℕ) → low ≤ low' → Ascending low' xs → Ascending low xs
unfolding Ascending
Ascending-weaken low low' [] h a = a
Ascending-weaken low low' (x ∷ xs) h (p, a) = (omega arith, a)

pub Ascending-add :
    (low x : ℕ) (xs : List ℕ) → low ≤ x → Ascending low xs → Ascending low (add x xs)
unfolding Ascending add
Ascending-add low x [] h a = (h, a)
Ascending-add low x (y ∷ ys) h (p, a) = elim (Bool-cases (y == x)) [
  | inl same ↦ rw (same, add) (p, a)
  | inr other ↦ elim (Bool-cases (ltb x y)) [
    | inl before ↦ rw (other, before, add) (h, (ground arith, a))
    | inr behind ↦ rw (other, behind, add) (p, Ascending-add (y + 1) x ys (ground arith) a)
  ]
]

pub Ascending-discard : (low x : ℕ) (xs : List ℕ) → Ascending low xs → Ascending low (discard x xs)
unfolding Ascending discard
Ascending-discard low x [] a = a
Ascending-discard low x (y ∷ ys) (p, a) = elim (Bool-cases (y == x)) [
  | inl same ↦
      rw (same, discard)
        (Ascending-weaken low (y + 1) (discard x ys) (omega arith)
          (Ascending-discard (y + 1) x ys a))
  | inr other ↦ rw (other, discard) (p, Ascending-discard (y + 1) x ys a)
]

pub member-Ascending : (low x : ℕ) (xs : List ℕ) → x < low → Ascending low xs → member x xs ≡ false
unfolding Ascending member
member-Ascending low x [] h a = refl
member-Ascending low x (y ∷ ys) h (p, a) =
    ground (arith, member-Ascending (y + 1) x ys (omega arith) a)

module _ {ℓ} {V : Type ℓ} where
  unfoldable pub keys : List (ℕ × V) → List ℕ
  keys [] = []
  keys ((k, v) ∷ m) = k ∷ keys m

  pub keys-insert : (k : ℕ) (v : V) (m : List (ℕ × V)) → keys (insert k v m) ≡ add k (keys m)
  unfolding keys insert add
  keys-insert k v [] = refl
  keys-insert k v ((j, w) ∷ m) = ground (arith, keys-insert k v m)

  pub keys-remove : (k : ℕ) (m : List (ℕ × V)) → keys (remove k m) ≡ discard k (keys m)
  unfolding keys remove discard
  keys-remove k [] = refl
  keys-remove k ((j, w) ∷ m) = ground (arith, keys-remove k m)

  pub lookup-Ascending :
      (low k : ℕ) (m : List (ℕ × V)) → k < low → Ascending low (keys m) → lookup k m ≡ none
  unfolding Ascending keys lookup
  lookup-Ascending low k [] h a = refl
  lookup-Ascending low k ((j, w) ∷ m) h (p, a) =
      ground (arith, lookup-Ascending (j + 1) k m (omega arith) a)
