-- ===== src/Base/Text.antt =====
-- `std::string` as a list of octets: searching, and the whitespace test of find_first_not_of.
use bacnet_profile_example_b.Base.Tests.{◌==◌, if◌then◌else◌, Bool-cases}
use mathlib.Core.Path.{◌≡◌, refl, ap, ◌∙◌}
use mathlib.Core.Logic.{inl, inr}
use native.Mathlib.Omega.{arith}
use bacnet_profile_example_b.Base.Lists.{drop}
use Prim.Native.Nat.{ℕ, ◌+◌}
use Prim.Native.Char.{code}
use Prim.Native.String.{String}
use mathlib.Core.Bool.{Bool, true, false, ◌&&◌, ◌||◌}
use mathlib.Core.List.{List, [], ◌∷◌}
use mathlib.Core.Option.{Option, none, some}
use mathlib.Core.Option

-- The octets of an ASCII text.
abbrev pub codes : String → List ℕ
codes String.[] = []
codes (String.◌∷◌ c s) = code c ∷ codes s

abbrev pub same_text : List ℕ → List ℕ → Bool
same_text [] [] = true
same_text [] (y ∷ ys) = false
same_text (x ∷ xs) [] = false
same_text (x ∷ xs) (y ∷ ys) = x == y && same_text xs ys

abbrev pub starts_with : List ℕ → List ℕ → Bool
starts_with [] text = true
starts_with (n ∷ needle) [] = false
starts_with (n ∷ needle) (c ∷ text) = n == c && starts_with needle text

-- The first position at which `needle` stands in the text.
unfoldable pub find : List ℕ → List ℕ → Option ℕ
find needle [] = if starts_with needle [] then some 0 else none
find needle (c ∷ text) =
    let rest = Option.map (λ i. i + 1) (find needle text) in
    if starts_with needle (c ∷ text) then some 0 else rest

-- `text.find(needle, pos)`.
unfoldable pub find_from : List ℕ → List ℕ → ℕ → Option ℕ
find_from needle text pos = Option.map (λ i. i + pos) (find needle (drop pos text))

-- A character of " \t\r\n".
abbrev pub is_space : ℕ → Bool
is_space c = c == b' ' || c == 9 || c == 13 || c == 10

abbrev pub all_space : List ℕ → Bool
all_space [] = true
all_space (c ∷ cs) = is_space c && all_space cs

octet_self : (x : ℕ) → (x == x) ≡ true
octet_self x = ground arith

octet_same : (x y : ℕ) → (x == y) ≡ true → x ≡ y
octet_same x y e = ground (arith, e)

pub same_text_self : (xs : List ℕ) → same_text xs xs ≡ true
same_text_self [] = refl
same_text_self (x ∷ xs) = simp (octet_self x, same_text_self xs) refl

pub same_text_sound : (xs ys : List ℕ) → same_text xs ys ≡ true → xs ≡ ys
same_text_sound [] [] e = refl
same_text_sound [] (y ∷ ys) e = absurd (ground (arith, e))
same_text_sound (x ∷ xs) [] e = absurd (ground (arith, e))
same_text_sound (x ∷ xs) (y ∷ ys) e = elim (Bool-cases (x == y)) [
  | inl same ↦
      ap (λ z. z ∷ xs) (octet_same x y same)
      ∙ ap (λ zs. y ∷ zs) (same_text_sound xs ys (simp same at e))
  | inr other ↦ absurd (ground (arith, simp other at e))
]
