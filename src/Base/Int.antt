-- ===== src/Base/Int.antt =====
-- Signed integers over the native numbers: an `int32_t` argument, with the bit pattern it casts to.
use Prim.Native.Nat.{ℕ, ◌+◌, ◌-◌, ◌^◌}

-- `negsuc n` is -(n + 1).
pub data ℤ : Type 0 where
  pos : ℕ → ℤ
  negsuc : ℕ → ℤ

-- `(uint32_t)` of an `int32_t`.
abbrev pub to_u32 : ℤ → ℕ
to_u32 (pos n) = n
to_u32 (negsuc n) = 2 ^ 32 - (n + 1)
