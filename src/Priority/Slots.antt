-- ===== src/Priority/Slots.antt =====
-- The Priority_Array of main.cpp as a map from priorities to commanded values, which the three
-- operations of `Commandable` implement.
use bacnet_profile_example_b.Base.{
  ℕ, ◌-◌, ◌≤◌, ◌≡◌, refl, Bool, true, false, List, [], ◌∷◌, Option, none, some, ◌==◌, if◌then◌else◌,
  get_or, length, length-set, get_or-set, get_or-replicate_self, arith,
}
use bacnet_profile_example_b.Priority.{
  Commandable, at_power_on, effective_priority, command_write, command_relinquish,
  read_priority_slot,
}
use bacnet_profile_example_b.Bacnet.{property_identifier_priority_array}

-- Both arrays have 16 elements, as the C++ type says.
pub record IsSixteen (c : Commandable) : Type 0 where
  pub flags : length c.is_set ≡ 16
  pub values : length c.value ≡ 16

-- The commanded value at priority `j`, if that slot is commanded.
unfoldable pub commanded : Commandable → ℕ → Option ℕ
commanded c j = if get_or c.is_set (j - 1) false then some (get_or c.value (j - 1) 0) else none

pub at_power_on-IsSixteen : (v : ℕ) → IsSixteen (at_power_on v)
unfolding at_power_on
at_power_on-IsSixteen v = record { flags = refl; values = refl }

-- Whatever priority a client names, the slot lies in 1..16.
pub effective_priority_bounds : (p : ℕ) → (1 ≤ effective_priority p) × (effective_priority p ≤ 16)
unfolding effective_priority
effective_priority_bounds p = ground arith

pub command_write-IsSixteen :
    (c : Commandable) (p v : ℕ) → IsSixteen c → IsSixteen (command_write c p v)
unfolding command_write
command_write-IsSixteen c p v h =
    let i = effective_priority p - 1 in
    ground (arith, length-set c.is_set i true, length-set c.value i v)

pub command_relinquish-IsSixteen :
    (c : Commandable) (p : ℕ) → IsSixteen c → IsSixteen (command_relinquish c p)
unfolding command_relinquish
command_relinquish-IsSixteen c p h = ground (
  arith,
  length-set c.is_set (effective_priority p - 1) true,
  length-set c.is_set (effective_priority p - 1) false,
)

pub commanded-command_write :
    (c : Commandable) (p v j : ℕ)
    → IsSixteen c
    → 1 ≤ j
    → commanded (command_write c p v) j
      ≡ (if effective_priority p == j then some v else commanded c j)
unfolding command_write commanded
commanded-command_write c p v j h low =
    let i = effective_priority p - 1 in
    ground (
      arith,
      effective_priority_bounds p,
      get_or-set c.is_set i (j - 1) true false,
      get_or-set c.value i (j - 1) v 0,
    )

pub commanded-command_relinquish :
    (c : Commandable) (p j : ℕ)
    → IsSixteen c
    → 1 ≤ j
    → commanded (command_relinquish c p) j
      ≡ (if effective_priority p == j then none else commanded c j)
unfolding command_relinquish commanded
commanded-command_relinquish c p j h low = ground (
  arith,
  effective_priority_bounds p,
  get_or-set c.is_set (effective_priority p - 1) (j - 1) false false,
)

-- One element of the Priority_Array is read as its flag and value, and nothing else is.
pub read_priority_slot-commanded :
    (c : Commandable) (j : ℕ)
    → 1 ≤ j
    → j ≤ 16
    → (s : Bool × ℕ) × (read_priority_slot c property_identifier_priority_array true j ≡ some s)
      × (commanded c j ≡ (if s.0 then some s.1 else none))
unfolding read_priority_slot commanded
read_priority_slot-commanded c j low high =
    ((get_or c.is_set (j - 1) false, get_or c.value (j - 1) 0), ground arith, refl)

pub data Command : Type 0 where
  write : ℕ → ℕ → Command
  relinquish : ℕ → Command

pub apply : Commandable → Command → Commandable
apply c (write p v) = command_write c p v
apply c (relinquish p) = command_relinquish c p

pub run : Commandable → List Command → Commandable
run c [] = c
run c (k ∷ ks) = run (apply c k) ks

-- What the last of the commands at priority `j` leaves there.
abbrev pub last_at : ℕ → Option ℕ → List Command → Option ℕ
last_at j before [] = before
last_at j before (write p v ∷ ks) =
    last_at j (if effective_priority p == j then some v else before) ks
last_at j before (relinquish p ∷ ks) =
    last_at j (if effective_priority p == j then none else before) ks

commanded-run_from :
    (ks : List Command) (c : Commandable) (j : ℕ)
    → IsSixteen c
    → 1 ≤ j
    → commanded (run c ks) j ≡ last_at j (commanded c j) ks
unfolding run apply
commanded-run_from [] c j h low = refl
commanded-run_from (write p v ∷ ks) c j h low =
    rw (← commanded-command_write c p v j h low)
      (commanded-run_from ks (command_write c p v) j (command_write-IsSixteen c p v h) low)
commanded-run_from (relinquish p ∷ ks) c j h low =
    rw (← commanded-command_relinquish c p j h low)
      (commanded-run_from ks (command_relinquish c p) j (command_relinquish-IsSixteen c p h) low)

pub commanded-at_power_on : (d j : ℕ) → commanded (at_power_on d) j ≡ none
unfolding commanded at_power_on
commanded-at_power_on d j = rw (get_or-replicate_self 16 (j - 1) false)

-- After any sequence of writes and relinquishes from power-on, each slot from 1 on holds what
-- the last command at its effective priority left there, and is null where no command came.
pub commanded-run :
    (ks : List Command) (d j : ℕ) → 1 ≤ j → commanded (run (at_power_on d) ks) j ≡ last_at j none ks
commanded-run ks d j low =
    rw (← commanded-at_power_on d j)
      (commanded-run_from ks (at_power_on d) j (at_power_on-IsSixteen d) low)
