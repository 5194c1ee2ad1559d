-- ===== src/Floats.antt =====
-- C++'s `float` and `double` as bit patterns. The conversions are the compiler's: a parameter, with
-- what IEEE 754 says of them where a value fits.
use bacnet_profile_example_b.Base.{ℕ, ◌/◌, ◌%◌, ◌^◌, ◌<◌, ◌≡◌, Bool, false, ◌&&◌, not, ◌==◌, ◌⊎◌}

-- A `float` is not a number when its exponent is all ones and its fraction is not 0.
abbrev pub is_nan : ℕ → Bool
is_nan x = x / 2 ^ 23 % 256 == 255 && not (x % 2 ^ 23 == 0)

pub record Floats : Type 0 where
  -- (double) of a float, (float) of a double
  pub widen : ℕ → ℕ
  pub narrow : ℕ → ℕ
  -- (double) of a uint32_t, (uint32_t) of a double, (float) of a uint32_t
  pub of_uint : ℕ → ℕ
  pub to_uint : ℕ → ℕ
  pub float_of_uint : ℕ → ℕ
  -- `!=` on floats
  pub differs : ℕ → ℕ → Bool
  -- Floats that are not different are one bit pattern, or are zeros of either sign.
  pub differs-false :
      (x y : ℕ)
      → x < 2 ^ 32
      → y < 2 ^ 32
      → differs x y ≡ false
      → (x ≡ y) ⊎ ((x % 2 ^ 31 ≡ 0) × (y % 2 ^ 31 ≡ 0))
  -- Every float but a NaN comes back from double; every uint32_t is a double exactly.
  pub narrow-widen : (x : ℕ) → x < 2 ^ 32 → is_nan x ≡ false → narrow (widen x) ≡ x
  pub to_uint-of_uint : (n : ℕ) → n < 2 ^ 32 → to_uint (of_uint n) ≡ n
