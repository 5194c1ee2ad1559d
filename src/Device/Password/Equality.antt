-- ===== src/Device/Password/Equality.antt =====
-- Both password checks, the one that looks at every octet and the one that stops at the first
-- difference, decide whether the texts are the same.
use Prim.Native.Nat.{bit_or, bit_xor, bit_or-bitwise, bit_xor-bitwise, digits, differ, max}
use bacnet_profile_example_b.Base.{
  ℕ, zero, suc, ◌/◌, ◌%◌, ◌≤◌, ◌≡◌, ◌≢◌, refl, ap, sym, ◌∙◌, Bool, true, false, ◌&&◌, List, [], ◌∷◌,
  none, some, ◌==◌, length, arith, Bool-cases, inl, inr,
}
use bacnet_profile_example_b.Base.Text.{same_text}
use bacnet_profile_example_b.Device.Password.{
  Supplied, accumulate, password_accepted, compare_octets, dcc_password_matches,
}

differ-zero : (x y : ℕ) → differ x y ≡ 0 → x ≡ y
differ-zero zero y e = sym e
differ-zero (suc x) zero e = e
differ-zero (suc x) (suc y) e = ap suc (differ-zero x y e)

differ_self : (x : ℕ) → differ x x ≡ 0
differ_self zero = refl
differ_self (suc x) = differ_self x

or_digits-zero : (n a b : ℕ) → a ≤ n → digits (λ d. d) max n a b ≡ 0 → (a ≡ 0) × (b ≡ 0)
or_digits-zero zero a b h e = (omega (arith, h), e)
or_digits-zero (suc n) zero b h e = (refl, e)
or_digits-zero (suc n) (suc a) b h e =
    let (low, high) = or_digits-zero n (suc a / 2) (b / 2) (omega (arith, h)) (omega (arith, e)) in
    absurd (omega (arith, e, low, high))

xor_digits-zero : (n a b : ℕ) → a ≤ n → digits (λ d. d) differ n a b ≡ 0 → a ≡ b
xor_digits-zero zero a b h e = omega (arith, h, e)
xor_digits-zero (suc n) zero b h e = sym e
xor_digits-zero (suc n) (suc a) b h e =
    let high = xor_digits-zero n (suc a / 2) (b / 2) (omega (arith, h)) (omega (arith, e)) in
    let low = differ-zero (suc a % 2) (b % 2) (omega (arith, e)) in omega (arith, high, low)

xor_digits_self : (n a : ℕ) → a ≤ n → digits (λ d. d) differ n a a ≡ 0
xor_digits_self zero a h = omega (arith, h)
xor_digits_self (suc n) zero h = refl
xor_digits_self (suc n) (suc a) h =
    omega (arith, xor_digits_self n (suc a / 2) (omega (arith, h)), differ_self (suc a % 2))

bit_or-zero : (a b : ℕ) → bit_or a b ≡ 0 → (a ≡ 0) × (b ≡ 0)
bit_or-zero a b e = or_digits-zero a a b (omega arith) (sym (λ i. bit_or-bitwise a b i) ∙ e)

bit_xor-zero : (a b : ℕ) → bit_xor a b ≡ 0 → a ≡ b
bit_xor-zero a b e = xor_digits-zero a a b (omega arith) (sym (λ i. bit_xor-bitwise a b i) ∙ e)

bit_xor_self : (a : ℕ) → bit_xor a a ≡ 0
bit_xor_self a = (λ i. bit_xor-bitwise a a i) ∙ xor_digits_self a a (omega arith)

bit_or-of_zero : (b : ℕ) → bit_or 0 b ≡ b
bit_or-of_zero b = λ i. bit_or-bitwise 0 b i

test-of : (m n : ℕ) → m ≡ n → (m == n) ≡ true
test-of m n e = ground (arith, e)

test-not : (m n : ℕ) → m ≢ n → (m == n) ≡ false
test-not m n e = ground (arith, e)

test-holds : (m n : ℕ) → (m == n) ≡ true → m ≡ n
test-holds m n e = ground (arith, e)

test-fails : (m n : ℕ) → (m == n) ≡ false → m ≢ n
test-fails m n e same = ground (arith, e, same)

-- One round keeps `diff` at 0 exactly when the two octets are the same.
round-zero : (diff x y : ℕ) → (bit_or diff (bit_xor x y) == 0) ≡ (diff == 0 && x == y)
round-zero diff x y = elim (Bool-cases (diff == 0)) [
  | inr differs ↦ simp differs (
      test-not (bit_or diff (bit_xor x y)) 0
        λ e. test-fails diff 0 differs (bit_or-zero diff (bit_xor x y) e).0)
  | inl none_yet ↦ elim (Bool-cases (x == y)) [
    | inr other ↦
        simp (none_yet, other)
          (test-not (bit_or diff (bit_xor x y)) 0
            λ e. test-fails x y other (bit_xor-zero x y (bit_or-zero diff (bit_xor x y) e).1))
    | inl same ↦
        simp (none_yet, same)
          (test-of (bit_or diff (bit_xor x y)) 0 (
            ap (λ d. bit_or d (bit_xor x y)) (test-holds diff 0 none_yet)
            ∙ bit_or-of_zero (bit_xor x y)
            ∙ ap (λ z. bit_xor x z) (sym (test-holds x y same))
            ∙ bit_xor_self x))
  ]
]

and_assoc : (a b c : Bool) → ((a && b) && c) ≡ (a && (b && c))
and_assoc true b c = refl
and_assoc false b c = refl

and_true : (a : Bool) → a ≡ (a && true)
and_true true = refl
and_true false = refl

accumulate-same_text :
    (diff : ℕ) (xs ys : List ℕ)
    → length xs ≡ length ys
    → (accumulate diff xs ys == 0) ≡ (diff == 0 && same_text xs ys)
unfolding accumulate
accumulate-same_text diff [] [] h = and_true (diff == 0)
accumulate-same_text diff [] (y ∷ ys) h = absurd (omega (arith, h))
accumulate-same_text diff (x ∷ xs) [] h = absurd (omega (arith, h))
accumulate-same_text diff (x ∷ xs) (y ∷ ys) h =
    accumulate-same_text (bit_or diff (bit_xor x y)) xs ys (omega (arith, h))
    ∙ ap (λ b. b && same_text xs ys) (round-zero diff x y)
    ∙ and_assoc (diff == 0) (x == y) (same_text xs ys)

compare_octets-same_text :
    (xs ys : List ℕ) → length xs ≡ length ys → compare_octets xs ys ≡ same_text xs ys
unfolding compare_octets
compare_octets-same_text [] [] h = refl
compare_octets-same_text [] (y ∷ ys) h = absurd (omega (arith, h))
compare_octets-same_text (x ∷ xs) [] h = absurd (omega (arith, h))
compare_octets-same_text (x ∷ xs) (y ∷ ys) h = elim (Bool-cases (x == y)) [
  | inl same ↦ simp same (compare_octets-same_text xs ys (omega (arith, h)))
  | inr other ↦ simp other refl
]

same_text-length : (xs ys : List ℕ) → length xs ≢ length ys → same_text xs ys ≡ false
same_text-length [] [] h = absurd (h refl)
same_text-length [] (y ∷ ys) h = refl
same_text-length (x ∷ xs) [] h = refl
same_text-length (x ∷ xs) (y ∷ ys) h = elim (Bool-cases (x == y)) [
  | inl same ↦ simp same (same_text-length xs ys (λ e. h (ap suc e)))
  | inr other ↦ simp other refl
]

not_empty : (x : ℕ) (xs : List ℕ) → (length (x ∷ xs) == 0) ≡ false
not_empty x xs = ground arith

-- What a password check has to decide: no password is required, or the one supplied is the same.
abbrev pub is_password : List ℕ → Supplied → Bool
is_password [] supplied = true
is_password (r ∷ required) none = false
is_password (r ∷ required) (some octets) = same_text octets (r ∷ required)

-- For every required password and every supplied one, `PasswordAccepted` (all octets, no early exit)
-- and the check of DeviceCommunicationControl (stops at the first difference) give the same answer:
-- whether no password is required or the two are the same octets.
pub password_accepted-dcc_password_matches :
    (required : List ℕ) (supplied : Supplied)
    → (password_accepted required supplied ≡ is_password required supplied)
      × (dcc_password_matches required supplied ≡ is_password required supplied)
unfolding password_accepted dcc_password_matches
password_accepted-dcc_password_matches [] supplied = (refl, refl)
password_accepted-dcc_password_matches (r ∷ required) none =
    (simp (not_empty r required) refl, simp (not_empty r required) refl)
password_accepted-dcc_password_matches (r ∷ required) (some octets) =
    elim (Bool-cases (length octets == length (r ∷ required))) [
      | inr other ↦
          let differs = sym (
            same_text-length octets (r ∷ required)
              (test-fails (length octets) (length (r ∷ required)) other)) in
          (simp (not_empty r required, other) differs, simp (not_empty r required, other) differs)
      | inl same ↦
          let lengths = test-holds (length octets) (length (r ∷ required)) same in
          (
            simp (not_empty r required, same)
                (accumulate-same_text 0 octets (r ∷ required) lengths),
            simp (not_empty r required, same)
                (compare_octets-same_text octets (r ∷ required) lengths),
          )
    ]
