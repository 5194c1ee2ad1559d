-- ===== src/Device/Invariant.antt =====
-- What holds of the device from power-on, whatever the Set callbacks and `WriteFile` are asked.
pub mod Callbacks
pub mod Reached
use bacnet_profile_example_b.Base.{
  ℕ, ◌+◌, ◌-◌, ◌%◌, ◌^◌, ◌<◌, ◌≤◌, ◌≡◌, ◌≢◌, refl, ap, sym, subst, ◌∙◌, Bool, true, false, not,
  ◌||◌, List, Option, none, some, if◌then◌else◌, ◌==◌, arith, Bool-cases, inl, inr, leb, ltb,
  length, length-overwrite,
}
use bacnet_profile_example_b.Base.Int.{ℤ}
use bacnet_profile_example_b.Options.{DataLink}
use bacnet_profile_example_b.Floats.{Floats}
use bacnet_profile_example_b.Cert.Host.{Host}
use bacnet_profile_example_b.Priority.{
  Commandable, command_write, command_relinquish, effective_priority,
}
use bacnet_profile_example_b.Priority.Slots.{
  IsSixteen, commanded, commanded-command_write, commanded-command_relinquish,
  command_write-IsSixteen, command_relinquish-IsSixteen,
}
use bacnet_profile_example_b.Device.{
  Device, Query, IvoryFile, Verdict, accepted, declined, Output, analog, binary, multi_state,
  get_commandable, with_commandable, commandable,
}
use bacnet_profile_example_b.Bacnet.{property_identifier_present_value}
use bacnet_profile_example_b.Device.Ivory.{
  write_ivory, write_ivory_at, write_file, IvoryWrite, acknowledged, refused, overrun, ivory_write,
  add_u32, ivory_start,
}
use bacnet_profile_example_b.Device.Set.{
  set_property_real, set_property_enumerated, set_property_unsigned_integer, set_property_null,
  set_property_bool, set_real_of, set_enumerated_of, set_unsigned_of, relinquish_of,
}

-- Every commanded value of an output satisfies `P`.
abbrev pub Holds : (ℕ → Type 0) → Commandable → Type 0
Holds P c = (j v : ℕ) → 1 ≤ j → commanded c j ≡ some v → P v

command_write-Holds :
    (P : ℕ → Type 0) (c : Commandable) (priority value : ℕ)
    → IsSixteen c
    → P value
    → Holds P c
    → Holds P (command_write c priority value)
command_write-Holds P c priority value sixteen new old j v low e =
    let f = commanded-command_write c priority value j sixteen low in
    go (effective_priority priority == j) (sym f ∙ e)
  where
    go : (test : Bool) → (if test then some value else commanded c j) ≡ some v → P v
    go true e = subst P (ap (λ o. elim o [ none ↦ value | some x ↦ x ]) e) new
    go false e = old j v low e

command_relinquish-Holds :
    (P : ℕ → Type 0) (c : Commandable) (priority : ℕ)
    → IsSixteen c
    → Holds P c
    → Holds P (command_relinquish c priority)
command_relinquish-Holds P c priority sixteen old j v low e =
    let f = commanded-command_relinquish c priority j sixteen low in
    go (effective_priority priority == j) (sym f ∙ e)
  where
    go : (test : Bool) → (if test then none else commanded c j) ≡ some v → P v
    go true e = ground (arith, e)
    go false e = old j v low e

-- A state of Binary Output 1 and of Multi-state Output 1.
abbrev pub IsBinaryValue : Floats → ℕ → Type 0
IsBinaryValue fl v = fl.to_uint v ≤ 1

abbrev pub IsState : Floats → ℕ → Type 0
IsState fl v = (1 ≤ fl.to_uint v) × (fl.to_uint v ≤ 3)

abbrev pub Allowed : Floats → Output → ℕ → Type 0
Allowed fl analog v = Unit {0}
Allowed fl binary v = IsBinaryValue fl v
Allowed fl multi_state v = IsState fl v

-- The Priority_Arrays have 16 slots; the binary output is only ever commanded to 0 or 1, the
-- multi-state output to 1, 2 or 3; Ivory's buffer has 4096 octets, and no more are used.
pub record IsWellFormed (fl : Floats) (d : Device) : Type 0 where
  pub analog_sixteen : IsSixteen d.analog_output
  pub binary_sixteen : IsSixteen d.binary_output
  pub multi_state_sixteen : IsSixteen d.multi_state_output
  pub binary_values : Holds (IsBinaryValue fl) d.binary_output
  pub states : Holds (IsState fl) d.multi_state_output
  pub buffer_length : length d.ivory.buffer ≡ 4096
  pub used_bound : d.ivory.used ≤ 4096

-- An output is replaced by a well-formed one.
with_commandable-IsWellFormed :
    (fl : Floats) (d : Device) (o : Output) (c : Commandable)
    → IsWellFormed fl d
    → IsSixteen c
    → Holds (Allowed fl o) c
    → IsWellFormed fl (with_commandable d o c)
with_commandable-IsWellFormed fl d analog c h sixteen values = record {
  analog_sixteen = sixteen;
  binary_sixteen = h.binary_sixteen;
  multi_state_sixteen = h.multi_state_sixteen;
  binary_values = h.binary_values;
  states = h.states;
  buffer_length = h.buffer_length;
  used_bound = h.used_bound;
}
with_commandable-IsWellFormed fl d binary c h sixteen values = record {
  analog_sixteen = h.analog_sixteen;
  binary_sixteen = sixteen;
  multi_state_sixteen = h.multi_state_sixteen;
  binary_values = values;
  states = h.states;
  buffer_length = h.buffer_length;
  used_bound = h.used_bound;
}
with_commandable-IsWellFormed fl d multi_state c h sixteen values = record {
  analog_sixteen = h.analog_sixteen;
  binary_sixteen = h.binary_sixteen;
  multi_state_sixteen = sixteen;
  binary_values = h.binary_values;
  states = values;
  buffer_length = h.buffer_length;
  used_bound = h.used_bound;
}

commandable-IsSixteen :
    (fl : Floats) (d : Device) (o : Output) → IsWellFormed fl d → IsSixteen (commandable d o)
commandable-IsSixteen fl d analog h = h.analog_sixteen
commandable-IsSixteen fl d binary h = h.binary_sixteen
commandable-IsSixteen fl d multi_state h = h.multi_state_sixteen

commandable-Holds :
    (fl : Floats) (d : Device) (o : Output)
    → IsWellFormed fl d
    → Holds (Allowed fl o) (commandable d o)
commandable-Holds fl d analog h = λ j v low e. tt
commandable-Holds fl d binary h = h.binary_values
commandable-Holds fl d multi_state h = h.states

written_output :
    (fl : Floats) (d : Device) (o : Output) (priority value : ℕ)
    → IsWellFormed fl d
    → Allowed fl o value
    → IsWellFormed fl (with_commandable d o (command_write (commandable d o) priority value))
written_output fl d o priority value h fits =
    let sixteen = commandable-IsSixteen fl d o h in
    with_commandable-IsWellFormed fl d o _ h
      (command_write-IsSixteen (commandable d o) priority value sixteen)
      (command_write-Holds (Allowed fl o) (commandable d o) priority value sixteen fits
        (commandable-Holds fl d o h))

relinquished_output :
    (fl : Floats) (d : Device) (o : Output) (priority : ℕ)
    → IsWellFormed fl d
    → IsWellFormed fl (with_commandable d o (command_relinquish (commandable d o) priority))
relinquished_output fl d o priority h =
    let sixteen = commandable-IsSixteen fl d o h in
    with_commandable-IsWellFormed fl d o _ h
      (command_relinquish-IsSixteen (commandable d o) priority sixteen)
      (command_relinquish-Holds (Allowed fl o) (commandable d o) priority sixteen
        (commandable-Holds fl d o h))

-- Both results of a test are well formed.
pub either :
    (fl : Floats) (test : Bool) (a b : Device × Verdict)
    → (test ≡ true → IsWellFormed fl a.0)
    → (test ≡ false → IsWellFormed fl b.0)
    → IsWellFormed fl (if test then a else b).0
either fl true a b ha hb = ha refl
either fl false a b ha hb = hb refl

pub set_real_of-IsWellFormed :
    (fl : Floats) (d : Device) (q : Query) (value priority : ℕ) (o : Option Output)
    → IsWellFormed fl d
    → IsWellFormed fl (set_real_of fl d q value priority o).0
unfolding set_real_of
set_real_of-IsWellFormed fl d q value priority none h = h
set_real_of-IsWellFormed fl d q value priority (some binary) h = h
set_real_of-IsWellFormed fl d q value priority (some multi_state) h = h
set_real_of-IsWellFormed fl d q value priority (some analog) h =
    either fl (q.property_identifier == property_identifier_present_value) _ (d, declined)
      (λ e. written_output fl d analog priority (fl.widen value) h tt) (λ e. h)

pub set_enumerated_of-IsWellFormed :
    (fl : Floats) (d : Device) (q : Query) (value priority : ℕ) (o : Option Output)
    → IsWellFormed fl d
    → IsWellFormed fl (set_enumerated_of fl d q value priority o).0
unfolding set_enumerated_of
set_enumerated_of-IsWellFormed fl d q value priority none h = h
set_enumerated_of-IsWellFormed fl d q value priority (some analog) h = h
set_enumerated_of-IsWellFormed fl d q value priority (some multi_state) h = h
set_enumerated_of-IsWellFormed fl d q value priority (some binary) h =
    either fl (q.property_identifier == property_identifier_present_value) _ (d, declined)
      (λ e.
        either fl (ltb 1 value) _ _ (λ large. h)
          λ small.
            let fits : value ≤ 1 = ground (arith, small) in
            written_output fl d binary priority (fl.of_uint value) h
              (omega (arith, fits, fl.to_uint-of_uint value (omega (arith, fits)))))
      (λ e. h)

pub set_unsigned_of-IsWellFormed :
    (fl : Floats) (d : Device) (q : Query) (value priority : ℕ) (o : Option Output)
    → IsWellFormed fl d
    → IsWellFormed fl (set_unsigned_of fl d q value priority o).0
unfolding set_unsigned_of
set_unsigned_of-IsWellFormed fl d q value priority none h = h
set_unsigned_of-IsWellFormed fl d q value priority (some analog) h = h
set_unsigned_of-IsWellFormed fl d q value priority (some binary) h = h
set_unsigned_of-IsWellFormed fl d q value priority (some multi_state) h =
    either fl (q.property_identifier == property_identifier_present_value) _ (d, declined)
      (λ e.
        either fl (ltb value 1 || ltb 3 value) _ _ (λ outside. h)
          λ inside.
            let fits : (1 ≤ value) × (value ≤ 3) = ground (arith, inside) in
            let same = fl.to_uint-of_uint value (omega (arith, fits)) in
            written_output fl d multi_state priority (fl.of_uint value) h
              (omega (arith, fits, same), omega (arith, fits, same)))
      (λ e. h)

pub relinquish_of-IsWellFormed :
    (fl : Floats) (d : Device) (q : Query) (priority : ℕ) (o : Option Output)
    → IsWellFormed fl d
    → IsWellFormed fl (relinquish_of d q priority o).0
unfolding relinquish_of
relinquish_of-IsWellFormed fl d q priority none h = h
relinquish_of-IsWellFormed fl d q priority (some o) h =
    either fl (q.property_identifier == property_identifier_present_value) _ (d, declined)
      (λ e. relinquished_output fl d o priority h) (λ e. h)
