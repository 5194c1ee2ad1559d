-- ===== src/Device/Password.antt =====
-- main.cpp: the two password checks, of ReinitializeDevice (`PasswordAccepted`) and of
-- DeviceCommunicationControl (its inline loop). `required` is DCC_PASSWORD.
pub mod Equality
use Prim.Native.Nat.{bit_or, bit_xor}
use bacnet_profile_example_b.Base.{
  ℕ, Bool, true, false, ◌&&◌, not, List, [], ◌∷◌, Option, none, some, if◌then◌else◌, ◌==◌, length,
}

-- The request's password: NULL, or octets with their length.
abbrev pub Supplied : Type 0
Supplied = Option (List ℕ)

-- `diff |= password[i] ^ DCC_PASSWORD[i]` over all positions; the lengths are equal here.
unfoldable pub accumulate : ℕ → List ℕ → List ℕ → ℕ
accumulate diff [] ys = diff
accumulate diff (x ∷ xs) [] = diff
accumulate diff (x ∷ xs) (y ∷ ys) = accumulate (bit_or diff (bit_xor x y)) xs ys

unfoldable pub password_accepted : List ℕ → Supplied → Bool
unfolding accumulate
password_accepted required supplied = if length required == 0 then true else elim supplied [
  | none ↦ false
  | some octets ↦
      if not (length octets == length required) then false else accumulate 0 octets required == 0
]

-- The loop that breaks at the first difference.
unfoldable pub compare_octets : List ℕ → List ℕ → Bool
compare_octets [] ys = true
compare_octets (x ∷ xs) [] = true
compare_octets (x ∷ xs) (y ∷ ys) = if not (x == y) then false else compare_octets xs ys

unfoldable pub dcc_password_matches : List ℕ → Supplied → Bool
unfolding compare_octets
dcc_password_matches required supplied = if length required == 0 then true else elim supplied [
  | none ↦ false
  | some octets ↦ length octets == length required && compare_octets octets required
]
