-- ===== src/Archive/Always.antt =====
-- Archive/Zip's outcomes: what holds of each, whatever is read.
use bacnet_profile_example_b.Base.{
  ℕ, ◌+◌, ◌≤◌, ◌<◌, ◌≡◌, refl, sym, subst, Bool, true, false, List, length, get_elem?-of_lt, ltb,
  arith,
}
use bacnet_profile_example_b.Archive.Zip.{
  ZipResult, done, refused, overrun, ◌>>=◌, ◌>>◌, refuse_if, Damage, present, get8, get16, get32,
}

-- Nothing is read past the end, and a result that is given has the property.
abbrev pub Always : {A : Type 0} → (A → Type 0) → ZipResult A → Type 0
Always P (done a) = P a
Always P (refused damage) = Unit {0}
Always P overrun = ⊥

module _ {A B : Type 0} (P : A → Type 0) (Q : B → Type 0) where
  pub bind-Always :
      (m : ZipResult A) (f : A → ZipResult B)
      → Always P m
      → ((a : A) → P a → Always Q (f a))
      → Always Q (m >>= f)
  unfolding ◌>>=◌
  bind-Always (done a) f h k = k a h
  bind-Always (refused damage) f h k = tt
  bind-Always overrun f h k = h

module _ {B : Type 0} (Q : B → Type 0) where
  assoc-Always :
      {A C : Type 0} (m : ZipResult A) (g : A → ZipResult C) (f : C → ZipResult B)
      → Always Q (m >>= λ a. g a >>= f)
      → Always Q (m >>= g >>= f)
  unfolding ◌>>=◌
  assoc-Always (done a) g f h = h
  assoc-Always (refused damage) g f h = tt
  assoc-Always overrun g f h = h

  pub refuse-Always :
      (b : Bool) (damage : Damage) (rest : ZipResult B)
      → (b ≡ false → Always Q rest)
      → Always Q (refuse_if b damage >> rest)
  unfolding ◌>>=◌ refuse_if
  refuse-Always true damage rest k = tt
  refuse-Always false damage rest k = k refl

  get8-Always :
      (octets : List ℕ) (i : ℕ) (f : ℕ → ZipResult B)
      → i < length octets
      → ((n : ℕ) → Always Q (f n))
      → Always Q (get8 octets i >>= f)
  unfolding get8 ◌>>=◌
  get8-Always octets i f h k =
      let (n, e) = get_elem?-of_lt octets i h in
      subst (λ o. Always Q (present o >>= f)) (sym e) (k n)

  pub get16-Always :
      (octets : List ℕ) (i : ℕ) (f : ℕ → ZipResult B)
      → i + 2 ≤ length octets
      → ((n : ℕ) → Always Q (f n))
      → Always Q (get16 octets i >>= f)
  unfolding get16 ◌>>=◌
  get16-Always octets i f h k = assoc-Always (get8 octets i) _ f (
      get8-Always octets i _ (omega (arith, h)) λ low.
        assoc-Always (get8 octets (i + 1)) _ f
          (get8-Always octets (i + 1) _ (omega (arith, h)) λ high. k _))

  pub get32-Always :
      (octets : List ℕ) (i : ℕ) (f : ℕ → ZipResult B)
      → i + 4 ≤ length octets
      → ((n : ℕ) → Always Q (f n))
      → Always Q (get32 octets i >>= f)
  unfolding get32 ◌>>=◌
  get32-Always octets i f h k = assoc-Always (get16 octets i) _ f (
      get16-Always octets i _ (omega (arith, h)) λ low.
        assoc-Always (get16 octets (i + 2)) _ f
          (get16-Always octets (i + 2) _ (omega (arith, h)) λ high. k _))

pub not_over : (a b : ℕ) → ltb a b ≡ false → b ≤ a
not_over a b e = ground (arith, e)
