-- ===== src/Device/Ivory/RoundTrip.antt =====
-- `ReadFile` and `WriteFile` on Ivory together: what was written is read back, the buffer is never
-- outgrown, and which negative start positions leave it.
use bacnet_profile_example_b.Base.{
  ◌⊎◌, ◌==◌, ◌∷◌, ℕ, ◌+◌, ◌-◌, ◌^◌, ◌<◌, ◌≤◌, ◌≡◌, ◌≢◌, refl, ap, sym, subst, ◌∙◌, true, false,
  List, arith, Bool-cases, inl, inr, leb, ltb, length, length-overwrite, take-drop-overwrite,
  overwrite, [],
}
use bacnet_profile_example_b.Base.Int.{ℤ, pos, negsuc}
use bacnet_profile_example_b.Device.{IvoryFile}
use bacnet_profile_example_b.Device.Ivory.{
  write_ivory, write_ivory_at, IvoryWrite, acknowledged, refused, overrun, add_u32, ivory_start,
  read_ivory, to_copy,
}
use bacnet_profile_example_b.Bacnet.{file_max_size}

-- The buffer is the C++ array, and what is used of it fits.
pub record Fits (f : IvoryFile) : Type 0 where
  pub buffer_length : length f.buffer ≡ 4096
  pub used_bound : f.used ≤ 4096

-- What an acknowledged write leaves.
pub record Stored (f : IvoryFile) (start : ℕ) (octets : List ℕ) (f' : IvoryFile) : Type 0 where
  pub within : start + length octets ≤ 4096
  pub buffer : f'.buffer ≡ overwrite f.buffer start octets
  pub low : f.used ≤ f'.used
  pub reaches : start + length octets ≤ f'.used
  pub high : f.used ≤ 4096 → f'.used ≤ 4096

abbrev Outcome : IvoryFile → ℕ → List ℕ → IvoryWrite → Type 0
Outcome f start octets (acknowledged s f') = (s ≡ start) × Stored f start octets f'
Outcome f start octets refused = Unit {0}
Outcome f start octets overrun = 2 ^ 32 ≤ start + length octets

write_ivory_at-Outcome :
    (f : IvoryFile) (start : ℕ) (octets : List ℕ)
    → Outcome f start octets (write_ivory_at f start octets)
unfolding write_ivory_at
write_ivory_at-Outcome f start octets =
    elim (Bool-cases (ltb file_max_size (add_u32 start (length octets)))) [
      | inl large ↦ rw large tt
      | inr small ↦ elim (Bool-cases (ltb file_max_size (start + length octets))) [
        | inl wraps ↦ rw (small, wraps) (ground (arith, small, wraps))
        | inr fits ↦
            rw (small, fits)
              (
                refl,
                record {
                  within = ground (arith, fits);
                  buffer = refl;
                  low = ground (arith, fits);
                  reaches = ground (arith, fits);
                  high = λ h. ground (arith, fits, h);
                },
              )
      ]
    ]

write_ivory-Outcome :
    (f : IvoryFile) (file_start : ℤ) (octets : List ℕ)
    → Outcome f (ivory_start f file_start) octets (write_ivory f file_start octets)
unfolding write_ivory
write_ivory-Outcome f file_start octets = write_ivory_at-Outcome f (ivory_start f file_start) octets

pub acknowledged-Stored :
    (f f' : IvoryFile) (file_start : ℤ) (octets : List ℕ) (start : ℕ)
    → write_ivory f file_start octets ≡ acknowledged start f'
    → (start ≡ ivory_start f file_start) × Stored f start octets f'
acknowledged-Stored f f' file_start octets start e =
    let (same, stored) : Outcome f (ivory_start f file_start) octets (acknowledged start f') =
      subst (Outcome f (ivory_start f file_start) octets) e
        (write_ivory-Outcome f file_start octets) in
    (same, subst (λ s. Stored f s octets f') (sym same) stored)

-- An acknowledged write keeps the buffer at 4096 octets and what is used of it within them.
pub write_ivory-Fits :
    (f f' : IvoryFile) (file_start : ℤ) (octets : List ℕ) (start : ℕ)
    → Fits f
    → write_ivory f file_start octets ≡ acknowledged start f'
    → Fits f'
write_ivory-Fits f f' file_start octets start fits e =
    let (same, stored) = acknowledged-Stored f f' file_start octets start e in
    record {
      buffer_length =
          ap length stored.buffer
          ∙ length-overwrite f.buffer start octets
              (omega (arith, stored.within, fits.buffer_length))
          ∙ fits.buffer_length;
      used_bound = stored.high fits.used_bound;
    }

-- A start position from 0 on (an `int32_t`) or -1.
abbrev pub IsStart : ℤ → Type 0
IsStart file_start = (file_start ≡ negsuc 0) ⊎ ((n : ℕ) × (file_start ≡ pos n) × (n < 2 ^ 31))

-- A start of 0 or more (an `int32_t`), or -1 for the end of the file, never makes `WriteFile` leave
-- the buffer, for up to 2^31 octets.
pub write_ivory-ne-overrun :
    (f : IvoryFile) (file_start : ℤ) (octets : List ℕ)
    → Fits f
    → (file_start ≡ negsuc 0) ⊎ ((n : ℕ) × (file_start ≡ pos n) × (n < 2 ^ 31))
    → length octets ≤ 2 ^ 31
    → write_ivory f file_start octets ≢ overrun
write_ivory-ne-overrun f file_start octets fits allowed short e =
    let wraps : 2 ^ 32 ≤ ivory_start f file_start + length octets =
      subst (Outcome f (ivory_start f file_start) octets) e
        (write_ivory-Outcome f file_start octets) in
    elim allowed [
      | inl last ↦
          let at_end : ivory_start f file_start ≡ f.used = ap (ivory_start f) last in
          omega (arith, wraps, at_end, fits.used_bound, short)
      | inr (n, given, int32) ↦
          let at_n : ivory_start f file_start ≡ n = ap (ivory_start f) given in
          omega (arith, wraps, at_n, int32, short)
    ]

-- Any other negative start, -(n + 1) with n from 1 on, passes the size test when the octets reach
-- from there to 0 or further, up to 4096: the sum wraps, and the copy leaves the buffer.
pub write_ivory-negative_start :
    (f : IvoryFile) (n : ℕ) (octets : List ℕ)
    → 1 ≤ n
    → n < 2 ^ 31
    → n + 1 ≤ length octets
    → length octets ≤ n + 1 + 4096
    → write_ivory f (negsuc n) octets ≡ overrun
unfolding write_ivory write_ivory_at
write_ivory-negative_start f n octets low high long short =
    let start = 2 ^ 32 - (n + 1) in
    let small : ltb file_max_size (add_u32 start (length octets)) ≡ false =
      ground (arith, low, high, long, short) in
    let large : ltb file_max_size (start + length octets) ≡ true =
      ground (arith, low, high, long, short) in
    let other : (n == 0) ≡ false = ground (arith, low) in simp (other, small, large) refl

to_copy-of_le :
    (available requested max_length : ℕ)
    → requested ≤ available
    → requested ≤ max_length
    → to_copy available requested max_length ≡ requested
unfolding to_copy
to_copy-of_le available requested max_length h k = ground (arith, h, k)

length-zero : (xs : List ℕ) → length xs ≡ 0 → xs ≡ []
length-zero [] h = refl
length-zero (x ∷ xs) h = absurd (omega (arith, h))

-- Octets that `WriteFile` acknowledged at `start` are what `ReadFile` gives for the same range, as
-- long as the stack's buffer has room for them.
pub read_ivory-write_ivory :
    (f f' : IvoryFile) (file_start : ℤ) (octets : List ℕ) (start max_length : ℕ)
    → Fits f
    → length octets ≤ max_length
    → write_ivory f file_start octets ≡ acknowledged start f'
    → (read_ivory f' start (length octets) max_length).octets ≡ octets
unfolding read_ivory
read_ivory-write_ivory f f' file_start octets start max_length fits room e =
    let (same, stored) = acknowledged-Stored f f' file_start octets start e in
    elim (Bool-cases (leb f'.used start)) [
      | inl past ↦ simp past (sym (length-zero octets (ground (arith, past, stored.reaches))))
      | inr inside ↦
          let copied =
            to_copy-of_le (f'.used - start) (length octets) max_length
              (omega (arith, stored.reaches)) room in
          simp (inside, copied, stored.buffer)
            (take-drop-overwrite f.buffer start octets
              (omega (arith, stored.within, fits.buffer_length)))
    ]
