-- ===== src/Base/Assoc.antt =====
-- `std::map` with a number for its key: an association list that insertion keeps in key order.
use bacnet_profile_example_b.Base.Tests.{ltb, ◌==◌, if◌then◌else◌}
use Prim.Native.Nat.{ℕ}
use mathlib.Core.Path.{◌≡◌, refl}
use mathlib.Core.List.{List, [], ◌∷◌}
use mathlib.Core.Option.{Option, none, some}
use native.Mathlib.Omega.{arith}

module _ {ℓ} {V : Type ℓ} where
  unfoldable pub lookup : ℕ → List (ℕ × V) → Option V
  lookup k [] = none
  lookup k ((j, v) ∷ m) = if j == k then some v else lookup k m

  unfoldable pub insert : ℕ → V → List (ℕ × V) → List (ℕ × V)
  insert k v [] = (k, v) ∷ []
  insert k v ((j, w) ∷ m) =
      let rest = insert k v m in
      if j == k then (k, v) ∷ m else if ltb k j then (k, v) ∷ (j, w) ∷ m else (j, w) ∷ rest

  pub lookup-insert :
      (k i : ℕ) (v : V) (m : List (ℕ × V))
      → lookup i (insert k v m) ≡ (if k == i then some v else lookup i m)
  unfolding lookup insert
  lookup-insert k i v [] = refl
  lookup-insert k i v ((j, w) ∷ m) = ground (arith, lookup-insert k i v m)
