-- ===== src/Base/TextMap.antt =====
-- `std::map` with a text for its key: an association list that insertion keeps in key order.
use bacnet_profile_example_b.Base.Tests.{ltb, ◌==◌, if◌then◌else◌, Bool-cases, by_test}
use bacnet_profile_example_b.Base.Text.{same_text, same_text_sound, same_text_self}
use Prim.Native.Nat.{ℕ}
use mathlib.Core.Path.{◌≡◌, refl, ap, sym, ◌∙◌, subst}
use mathlib.Core.Logic.{inl, inr}
use mathlib.Core.Bool.{Bool, true, false, ◌&&◌, ◌||◌}
use mathlib.Core.List.{List, [], ◌∷◌}
use mathlib.Core.Option.{Option, none, some}
use native.Mathlib.Omega.{arith}

-- `operator<` of texts.
abbrev pub text_before : List ℕ → List ℕ → Bool
text_before xs [] = false
text_before [] (y ∷ ys) = true
text_before (x ∷ xs) (y ∷ ys) = ltb x y || (x == y && text_before xs ys)

module _ {ℓ} {V : Type ℓ} where
  unfoldable pub lookup : List ℕ → List (List ℕ × V) → Option V
  lookup k [] = none
  lookup k ((j, v) ∷ m) = if same_text j k then some v else lookup k m

  unfoldable pub insert : List ℕ → V → List (List ℕ × V) → List (List ℕ × V)
  insert k v [] = (k, v) ∷ []
  insert k v ((j, w) ∷ m) =
      let rest = insert k v m in
      if same_text j k
      then (k, v) ∷ m
      else if text_before k j
      then (k, v) ∷ (j, w) ∷ m
      else (j, w) ∷ rest

  pub lookup-insert :
      (k i : List ℕ) (v : V) (m : List (List ℕ × V))
      → lookup i (insert k v m) ≡ (if same_text k i then some v else lookup i m)
  unfolding lookup insert
  lookup-insert k i v [] = refl
  lookup-insert k i v ((j, w) ∷ m) =
      go (same_text j k) (text_before k j) refl (lookup-insert k i v m)
    where
      replaced :
          (b : Bool)
          → same_text k i ≡ b
          → same_text j k ≡ true
          → (if b then some v else lookup i m)
            ≡ (if b then some v else if same_text j i then some w else lookup i m)
      replaced true e same = refl
      replaced false e same =
          let other = ap (λ t. same_text t i) (same_text_sound j k same) ∙ e in simp other refl

      behind :
          (b c : Bool) (rest : Option V)
          → same_text j i ≡ b
          → same_text k i ≡ c
          → same_text j k ≡ false
          → rest ≡ (if c then some v else lookup i m)
          → (if b then some w else rest) ≡ (if c then some v else if b then some w else lookup i m)
      behind true true rest e f g h =
          let same = same_text_sound j i e ∙ sym (same_text_sound k i f) in
          let always = ap (λ t. same_text t k) same ∙ same_text_self k in
          absurd (ground (arith, sym g ∙ always))
      behind true false rest e f g h = refl
      behind false c rest e f g h = h

      go :
          (same before : Bool)
          → same_text j k ≡ same
          → lookup i (insert k v m) ≡ (if same_text k i then some v else lookup i m)
          → lookup i (
              if same
              then (k, v) ∷ m
              else if before
              then (k, v) ∷ (j, w) ∷ m
              else (j, w) ∷ insert k v m)
            ≡ (if same_text k i then some v else if same_text j i then some w else lookup i m)
      go true before e h = replaced (same_text k i) refl e
      go false true e h = refl
      go false false e h =
          behind (same_text j i) (same_text k i) (lookup i (insert k v m)) refl refl e h

-- A property of the values, which insertion keeps.
module _ {ℓ} {V : Type ℓ} where
  abbrev pub EachValue : (List ℕ → V → Type 0) → List (List ℕ × V) → Type 0
  EachValue P [] = Unit {0}
  EachValue P ((k, v) ∷ m) = P k v × EachValue P m

  pub insert-EachValue :
      (P : List ℕ → V → Type 0) (k : List ℕ) (v : V) (m : List (List ℕ × V))
      → P k v
      → EachValue P m
      → EachValue P (insert k v m)
  unfolding insert
  insert-EachValue P k v [] new h = (new, tt)
  insert-EachValue P k v ((j, w) ∷ m) new (old, rest) =
      by_test (EachValue P) (same_text j k) _ _ (λ e. (new, rest))
        λ e.
          by_test (EachValue P) (text_before k j) _ _ (λ f. (new, (old, rest)))
            λ f. (old, insert-EachValue P k v m new rest)

  pub lookup-EachValue :
      (P : List ℕ → V → Type 0) (k : List ℕ) (v : V) (m : List (List ℕ × V))
      → lookup k m ≡ some v
      → EachValue P m
      → P k v
  unfolding lookup
  lookup-EachValue P k v [] e h = absurd (ground (arith, e))
  lookup-EachValue P k v ((j, w) ∷ m) e (old, rest) = elim (Bool-cases (same_text j k)) [
    | inl same ↦
        let value : w ≡ v = ap (λ o. elim o [ none ↦ v | some x ↦ x ]) (simp same at e) in
        subst (P k) value (subst (λ t. P t w) (same_text_sound j k same) old)
    | inr other ↦ lookup-EachValue P k v m (simp other at e) rest
  ]
