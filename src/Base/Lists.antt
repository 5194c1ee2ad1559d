-- ===== src/Base/Lists.antt =====
-- Lists measured and indexed by native numbers, under the library's names.
use Prim.Native.Nat.{ℕ, zero, suc, ◌+◌, ◌-◌, ◌<◌, ◌≤◌, min}
use mathlib.Core.Path.{◌≡◌, refl, ap, ◌∙◌}
use mathlib.Core.Logic.{◌≢◌}
use mathlib.Core.List.{List, [], ◌∷◌, ◌++◌, map}
use mathlib.Core.Option.{Option, none, some}
use native.Mathlib.Omega.{arith}
use bacnet_profile_example_b.Base.Tests.{◌==◌, if◌then◌else◌}

module _ {ℓ} {A : Type ℓ} where
  abbrev pub length : List A → ℕ
  length [] = 0
  length (x ∷ xs) = suc (length xs)

  abbrev pub get_elem? : List A → ℕ → Option A
  get_elem? [] i = none
  get_elem? (x ∷ xs) zero = some x
  get_elem? (x ∷ xs) (suc i) = get_elem? xs i

  -- A write out of bounds changes nothing.
  abbrev pub set : List A → ℕ → A → List A
  set [] i v = []
  set (x ∷ xs) zero v = v ∷ xs
  set (x ∷ xs) (suc i) v = x ∷ set xs i v

  pub length-append : (xs ys : List A) → length (xs ++ ys) ≡ length xs + length ys
  length-append [] ys = omega arith
  length-append (x ∷ xs) ys = omega (arith, length-append xs ys)

module _ {ℓ} {A : Type ℓ} where
  pub length-set : (xs : List A) (i : ℕ) (v : A) → length (set xs i v) ≡ length xs
  length-set [] i v = refl
  length-set (x ∷ xs) zero v = refl
  length-set (x ∷ xs) (suc i) v = ap suc (length-set xs i v)

  pub get_elem?-set_self :
      (xs : List A) (i : ℕ) (v : A) → i < length xs → get_elem? (set xs i v) i ≡ some v
  get_elem?-set_self [] i v h = elim h [ ]
  get_elem?-set_self (x ∷ xs) zero v h = refl
  get_elem?-set_self (x ∷ xs) (suc i) v h = get_elem?-set_self xs i v (omega arith)

  pub get_elem?-set_ne :
      (xs : List A) {i j : ℕ} (v : A) → i ≢ j → get_elem? (set xs i v) j ≡ get_elem? xs j
  get_elem?-set_ne [] v h = refl
  get_elem?-set_ne (x ∷ xs) {i = zero} {j = zero} v h = absurd (h refl)
  get_elem?-set_ne (x ∷ xs) {i = zero} {j = suc j} v h = refl
  get_elem?-set_ne (x ∷ xs) {i = suc i} {j = zero} v h = refl
  get_elem?-set_ne (x ∷ xs) {i = suc i} {j = suc j} v h = get_elem?-set_ne xs v (λ e. h (ap suc e))

module _ {ℓ} {A : Type ℓ} where
  abbrev pub get_or : List A → ℕ → A → A
  get_or [] i d = d
  get_or (x ∷ xs) zero d = x
  get_or (x ∷ xs) (suc i) d = get_or xs i d

  abbrev pub take : ℕ → List A → List A
  take zero xs = []
  take (suc n) [] = []
  take (suc n) (x ∷ xs) = x ∷ take n xs

  abbrev pub drop : ℕ → List A → List A
  drop zero xs = xs
  drop (suc n) [] = []
  drop (suc n) (x ∷ xs) = drop n xs

  abbrev pub replicate : ℕ → A → List A
  replicate zero a = []
  replicate (suc n) a = a ∷ replicate n a

  pub take-append-drop : (n : ℕ) (xs : List A) → take n xs ++ drop n xs ≡ xs
  take-append-drop zero xs = refl
  take-append-drop (suc n) [] = refl
  take-append-drop (suc n) (x ∷ xs) = rw (take-append-drop n xs)

  pub length-take : (n : ℕ) (xs : List A) → length (take n xs) ≡ min n (length xs)
  length-take zero xs = omega arith
  length-take (suc n) [] = omega arith
  length-take (suc n) (x ∷ xs) = omega (arith, length-take n xs)

  pub length-drop : (n : ℕ) (xs : List A) → length (drop n xs) ≡ length xs - n
  length-drop zero xs = omega arith
  length-drop (suc n) [] = omega arith
  length-drop (suc n) (x ∷ xs) = omega (arith, length-drop n xs)

  pub length-replicate : (n : ℕ) (a : A) → length (replicate n a) ≡ n
  length-replicate zero a = refl
  length-replicate (suc n) a = ap suc (length-replicate n a)

  pub length-map {κ} : {B : Type κ} (xs : List A) (f : A → B) → length (map f xs) ≡ length xs
  length-map [] f = refl
  length-map (x ∷ xs) f = ap suc (length-map xs f)

module _ {ℓ} {A : Type ℓ} where
  pub get_or-set :
      (xs : List A) (i j : ℕ) (v d : A)
      → i < length xs
      → get_or (set xs i v) j d ≡ (if i == j then v else get_or xs j d)
  get_or-set [] i j v d h = elim h [ ]
  get_or-set (x ∷ xs) zero zero v d h = refl
  get_or-set (x ∷ xs) zero (suc j) v d h = ground arith
  get_or-set (x ∷ xs) (suc i) zero v d h = ground arith
  get_or-set (x ∷ xs) (suc i) (suc j) v d h = ground (arith, get_or-set xs i j v d (omega arith))

  pub get_or-replicate_self : (n i : ℕ) (a : A) → get_or (replicate n a) i a ≡ a
  get_or-replicate_self zero i a = refl
  get_or-replicate_self (suc n) zero a = refl
  get_or-replicate_self (suc n) (suc i) a = get_or-replicate_self n i a

  -- `memcpy` over `xs` from position `start` on.
  abbrev pub overwrite : List A → ℕ → List A → List A
  overwrite xs start ys = take start xs ++ (ys ++ drop (start + length ys) xs)

  -- `resize(n, a)`.
  abbrev pub resize : List A → ℕ → A → List A
  resize xs n a = take n xs ++ replicate (n - length xs) a

module _ {ℓ} {A : Type ℓ} where
  pub get_elem?-of_lt : (xs : List A) (i : ℕ) → i < length xs → (a : A) × (get_elem? xs i ≡ some a)
  get_elem?-of_lt [] i h = elim h [ ]
  get_elem?-of_lt (x ∷ xs) zero h = (x, refl)
  get_elem?-of_lt (x ∷ xs) (suc i) h = get_elem?-of_lt xs i (omega arith)

module _ {ℓ} {A : Type ℓ} where
  pub length-overwrite :
      (xs : List A) (start : ℕ) (ys : List A)
      → start + length ys ≤ length xs
      → length (overwrite xs start ys) ≡ length xs
  length-overwrite xs start ys h =
      rw (length-append, length-append, length-take, length-drop) (omega (arith, h))

  pub take-of_length : (xs ys : List A) → take (length xs) (xs ++ ys) ≡ xs
  take-of_length [] ys = refl
  take-of_length (x ∷ xs) ys = ap (λ zs. x ∷ zs) (take-of_length xs ys)

  drop-of_take : (n : ℕ) (xs ys : List A) → n ≤ length xs → drop n (take n xs ++ ys) ≡ ys
  drop-of_take zero xs ys h = refl
  drop-of_take (suc n) [] ys h = elim h [ ]
  drop-of_take (suc n) (x ∷ xs) ys h = drop-of_take n xs ys (omega (arith, h))

  -- What was copied is there.
  pub take-drop-overwrite :
      (xs : List A) (start : ℕ) (ys : List A)
      → start ≤ length xs
      → take (length ys) (drop start (overwrite xs start ys)) ≡ ys
  take-drop-overwrite xs start ys h =
      ap (take (length ys)) (drop-of_take start xs _ h) ∙ take-of_length ys _

module _ {ℓ} {A : Type ℓ} where
  pub drop-of_length : (xs ys : List A) → drop (length xs) (xs ++ ys) ≡ ys
  drop-of_length [] ys = refl
  drop-of_length (x ∷ xs) ys = drop-of_length xs ys
