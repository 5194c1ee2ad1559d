-- ===== src/Base/Decimal.antt =====
-- Decimal numbers as texts: the digits `strtoul` reads, and the printing of a number.
use bacnet_profile_example_b.Base.Tests.{if◌then◌else◌, leb, ltb, Bool-cases, by_test}
use Prim.Native.Nat.{ℕ, zero, suc, ◌+◌, ◌-◌, ◌*◌, ◌/◌, ◌%◌, ◌≤◌, ◌<◌}
use mathlib.Core.Path.{◌≡◌, refl, ap, ◌∙◌}
use mathlib.Core.Logic.{inl, inr}
use mathlib.Core.Bool.{Bool, true, false, ◌&&◌}
use mathlib.Core.List.{List, [], ◌∷◌}
use mathlib.Core.Option.{Option, none, some}
use native.Mathlib.Omega.{arith}

abbrev pub is_digit : ℕ → Bool
is_digit c = leb b'0' c && leb c b'9'

-- The number that starts with the digits of `value` and goes on with those of the text; none
-- when the text holds another character.
unfoldable pub digits_value : ℕ → List ℕ → Option ℕ
digits_value value [] = some value
digits_value value (c ∷ cs) =
    let rest = digits_value (value * 10 + (c - b'0')) cs in if is_digit c then rest else none

-- The digits of `n` before `tail`. Each round takes one digit, so `n` rounds and one are enough.
unfoldable pub decimal_onto : ℕ → ℕ → List ℕ → List ℕ
decimal_onto zero n tail = tail
decimal_onto (suc fuel) n tail =
    let rest = decimal_onto fuel (n / 10) ((b'0' + n % 10) ∷ tail) in
    if ltb n 10 then (b'0' + n) ∷ tail else rest

unfoldable pub decimal : ℕ → List ℕ
decimal n = decimal_onto (suc n) n []

digits_value-digit :
    (value d : ℕ) (tail : List ℕ)
    → d < 10
    → digits_value value ((b'0' + d) ∷ tail) ≡ digits_value (value * 10 + d) tail
unfolding digits_value
digits_value-digit value d tail h =
    let digit : is_digit (b'0' + d) ≡ true = ground (arith, h) in
    let e : value * 10 + (b'0' + d - b'0') ≡ value * 10 + d = omega arith in simp (digit, e) refl

not_small : (n : ℕ) → ltb n 10 ≡ false → 10 ≤ n
not_small n e = ground (arith, e)

digits_value-decimal_onto :
    (fuel n : ℕ) (tail : List ℕ)
    → n ≤ fuel
    → digits_value 0 (decimal_onto (suc fuel) n tail) ≡ digits_value n tail
unfolding decimal_onto
digits_value-decimal_onto zero n tail h =
    let small : ltb n 10 ≡ true = ground (arith, h) in
    simp small
      (digits_value-digit 0 n tail (omega (arith, h)) ∙ ap (λ m. digits_value m tail) (omega arith))
digits_value-decimal_onto (suc fuel) n tail h = elim (Bool-cases (ltb n 10)) [
  | inl small ↦ simp small (
      digits_value-digit 0 n tail (ground (arith, small))
      ∙ ap (λ m. digits_value m tail) (omega arith))
  | inr large ↦ simp large (
      digits_value-decimal_onto fuel (n / 10) ((b'0' + n % 10) ∷ tail)
        (omega (arith, h, not_small n large))
      ∙ digits_value-digit (n / 10) (n % 10) tail (omega arith)
      ∙ ap (λ m. digits_value m tail) (omega arith))
]

pub digits_value-decimal : (n : ℕ) → digits_value 0 (decimal n) ≡ some n
unfolding decimal digits_value
digits_value-decimal n = digits_value-decimal_onto n n [] (omega arith)

-- A printed number starts with a digit.
abbrev StartsWithDigit : List ℕ → Type 0
StartsWithDigit [] = ⊥
StartsWithDigit (c ∷ cs) = is_digit c ≡ true

decimal_onto-StartsWithDigit :
    (fuel n : ℕ) (tail : List ℕ) → n ≤ fuel → StartsWithDigit (decimal_onto (suc fuel) n tail)
unfolding decimal_onto
decimal_onto-StartsWithDigit zero n tail h =
    let small : ltb n 10 ≡ true = ground (arith, h) in
    let digit : is_digit (b'0' + n) ≡ true = ground (arith, h) in simp small digit
decimal_onto-StartsWithDigit (suc fuel) n tail h = elim (Bool-cases (ltb n 10)) [
  | inl small ↦ let digit : is_digit (b'0' + n) ≡ true = ground (arith, small) in simp small digit
  | inr large ↦ simp large (
      decimal_onto-StartsWithDigit fuel (n / 10) ((b'0' + n % 10) ∷ tail)
        (omega (arith, h, not_small n large)))
]

pub decimal-digit : (n : ℕ) → (c : ℕ) × ((cs : List ℕ) × (decimal n ≡ c ∷ cs) × (is_digit c ≡ true))
unfolding decimal
decimal-digit n = go (decimal n) refl (decimal_onto-StartsWithDigit n n [] (omega arith))
  where
    go :
        (text : List ℕ)
        → decimal n ≡ text
        → StartsWithDigit text
        → (c : ℕ) × ((cs : List ℕ) × (decimal n ≡ c ∷ cs) × (is_digit c ≡ true))
    go [] e h = elim h [ ]
    go (c ∷ cs) e h = (c, (cs, e, h))

abbrev pub AllDigits : List ℕ → Type 0
AllDigits [] = Unit {0}
AllDigits (c ∷ cs) = (is_digit c ≡ true) × AllDigits cs

decimal_onto-AllDigits :
    (fuel n : ℕ) (tail : List ℕ) → AllDigits tail → AllDigits (decimal_onto fuel n tail)
unfolding decimal_onto
decimal_onto-AllDigits zero n tail h = h
decimal_onto-AllDigits (suc fuel) n tail h =
    let last : is_digit (b'0' + n % 10) ≡ true = ground arith in
    by_test AllDigits (ltb n 10) _ _ (λ e. (ground (arith, e), h))
      λ e. decimal_onto-AllDigits fuel (n / 10) ((b'0' + n % 10) ∷ tail) (last, h)

pub decimal-AllDigits : (n : ℕ) → AllDigits (decimal n)
unfolding decimal
decimal-AllDigits n = decimal_onto-AllDigits (suc n) n [] tt
