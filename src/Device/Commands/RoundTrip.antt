-- ===== src/Device/Commands/RoundTrip.antt =====
-- A command that the Set callbacks accept is what the Get callbacks serve afterwards, at its
-- priority and nowhere else.
use bacnet_profile_example_b.Base.{
  ℕ, zero, suc, ◌-◌, ◌^◌, ◌<◌, ◌≤◌, ◌≡◌, refl, ap, sym, ◌∙◌, Bool, true, false, not, Option, some,
  if◌then◌else◌, ◌==◌, arith, get_or, ltb, get_or-set,
}
use bacnet_profile_example_b.Floats.{Floats, is_nan}
use bacnet_profile_example_b.Priority.{
  Commandable, command_write, command_relinquish, effective_priority,
}
use bacnet_profile_example_b.Priority.Slots.{
  IsSixteen, commanded, commanded-command_write, effective_priority_bounds,
}
use bacnet_profile_example_b.Device.{
  Device, answer, accepted, Output, analog, binary, multi_state, commandable, with_commandable,
}
use bacnet_profile_example_b.Device.Get.Real.{get_property_real}
use bacnet_profile_example_b.Device.Get.Flag.{get_property_bool}
use bacnet_profile_example_b.Device.Get.Enumerated.{get_property_enumerated}
use bacnet_profile_example_b.Device.Commands.{
  present_value, slot, served, get_property_real-slot, get_property_enumerated-slot,
  get_property_bool-slot, same_number,
}
use bacnet_profile_example_b.Device.Set.{
  set_property_real, set_property_enumerated, set_property_null,
}

set_property_real-present_value :
    (fl : Floats) (d : Device) (value priority : ℕ)
    → set_property_real fl d (present_value d analog) value priority ≡ (
      with_commandable d analog (command_write d.analog_output priority (fl.widen value)),
      accepted,
    )
unfolding set_property_real
set_property_real-present_value fl d value priority = simp (same_number d.device_instance) refl

pub served-if :
    (convert : ℕ → ℕ) (test : Bool) (v w : ℕ) (o : Option ℕ)
    → convert v ≡ w
    → served convert (if test then some v else o) ≡ (if test then answer w else served convert o)
served-if convert true v w o e = ap answer e
served-if convert false v w o e = refl

-- The slot of a priority: its own from 1 to 16, and the last one for any other.
abbrev pub slot_of : ℕ → ℕ
slot_of zero = 16
slot_of (suc p) = if ltb p 16 then suc p else 16

effective_priority-slot_of : (priority : ℕ) → effective_priority priority ≡ slot_of priority
unfolding effective_priority
effective_priority-slot_of zero = refl
effective_priority-slot_of (suc p) = ground arith

-- A float that is no NaN, written to Analog Output 1 at any priority (one outside 1..16 counts as
-- 16), is accepted, and then slot `j` of the Priority_Array reads as exactly that float when `j` is the slot of
-- that priority, and as before when it is another one.
pub get_property_real-set_property_real :
    (fl : Floats) (d : Device) (value priority j : ℕ)
    → IsSixteen d.analog_output
    → value < 2 ^ 32
    → is_nan value ≡ false
    → 1 ≤ j
    → j ≤ 16
    → (d' : Device) × (set_property_real fl d (present_value d analog) value priority
        ≡ (d', accepted))
      × (get_property_real fl d' (slot d analog j) ≡ (
          if slot_of priority == j then answer value else get_property_real fl d (slot d analog j)))
get_property_real-set_property_real fl d value priority j sixteen fits number low high =
    let d' = with_commandable d analog (command_write d.analog_output priority (fl.widen value)) in
    let test = slot_of priority == j in
    let same = ap (λ p. p == j) (effective_priority-slot_of priority) in
    (
      d',
      set_property_real-present_value fl d value priority,
      get_property_real-slot fl d' j low high
          ∙ ap (served fl.narrow)
              (commanded-command_write d.analog_output priority (fl.widen value) j sixteen low)
          ∙ ap
              (λ t.
                served fl.narrow (if t then some (fl.widen value) else commanded d.analog_output j))
              same
          ∙ served-if fl.narrow test (fl.widen value) value _ (fl.narrow-widen value fits number)
          ∙ ap (λ r. if test then answer value else r)
              (sym (get_property_real-slot fl d j low high)),
    )

set_property_enumerated-present_value :
    (fl : Floats) (d : Device) (value priority : ℕ)
    → value ≤ 1
    → set_property_enumerated fl d (present_value d binary) value priority ≡ (
      with_commandable d binary (command_write d.binary_output priority (fl.of_uint value)),
      accepted,
    )
unfolding set_property_enumerated
set_property_enumerated-present_value fl d value priority h =
    let fits : ltb 1 value ≡ false = ground (arith, h) in
    simp (same_number d.device_instance, fits) refl

-- Inactive (0) or active (1) written to Binary Output 1 is accepted, and then slot `j` of the
-- Priority_Array reads as that value when `j` is the command's effective priority, and as before
-- when it is another one.
pub get_property_enumerated-set_property_enumerated :
    (fl : Floats) (d : Device) (value priority j : ℕ)
    → IsSixteen d.binary_output
    → value ≤ 1
    → 1 ≤ j
    → j ≤ 16
    → (d' : Device) × (set_property_enumerated fl d (present_value d binary) value priority
        ≡ (d', accepted))
      × (get_property_enumerated fl d' (slot d binary j) ≡ (
          if effective_priority priority == j
          then answer value
          else get_property_enumerated fl d (slot d binary j)))
get_property_enumerated-set_property_enumerated fl d value priority j sixteen known low high =
    let d' =
      with_commandable d binary (command_write d.binary_output priority (fl.of_uint value)) in
    let test = effective_priority priority == j in
    (
      d',
      set_property_enumerated-present_value fl d value priority known,
      get_property_enumerated-slot fl d' j low high
          ∙ ap (served fl.to_uint)
              (commanded-command_write d.binary_output priority (fl.of_uint value) j sixteen low)
          ∙ served-if fl.to_uint test (fl.of_uint value) value _
              (fl.to_uint-of_uint value (omega (arith, known)))
          ∙ ap (λ r. if test then answer value else r)
              (sym (get_property_enumerated-slot fl d j low high)),
    )

set_property_null-present_value :
    (d : Device) (o : Output) (priority : ℕ)
    → set_property_null d (present_value d o) priority
      ≡ (with_commandable d o (command_relinquish (commandable d o) priority), accepted)
unfolding set_property_null
set_property_null-present_value d analog priority = simp (same_number d.device_instance) refl
set_property_null-present_value d binary priority = simp (same_number d.device_instance) refl
set_property_null-present_value d multi_state priority = simp (same_number d.device_instance) refl

relinquished_flag :
    (c : Commandable) (priority j : ℕ)
    → IsSixteen c
    → 1 ≤ j
    → answer (not (get_or (command_relinquish c priority).is_set (j - 1) false)) ≡ (
        if effective_priority priority == j
        then answer true
        else answer (not (get_or c.is_set (j - 1) false)))
unfolding command_relinquish
relinquished_flag c priority j sixteen low = ground (
  arith,
  sixteen.flags,
  effective_priority_bounds priority,
  get_or-set c.is_set (effective_priority priority - 1) (j - 1) false false,
)

-- What the flag is before and after, for an output whose Priority_Array both reads are of.
relinquished :
    (d d' : Device) (o : Output) (c : Commandable) (priority j : ℕ)
    → commandable d o ≡ c
    → commandable d' o ≡ command_relinquish c priority
    → IsSixteen c
    → 1 ≤ j
    → j ≤ 16
    → get_property_bool d' (slot d' o j)
      ≡ (if effective_priority priority == j then answer true else get_property_bool d (slot d o j))
relinquished d d' o c priority j before after sixteen low high =
    let flag = λ (x : Commandable). answer (not (get_or x.is_set (j - 1) false)) in
    let test = effective_priority priority == j in
    get_property_bool-slot d' o j low high
    ∙ ap flag after
    ∙ relinquished_flag c priority j sixteen low
    ∙ ap (λ r. if test then answer true else r)
        (ap flag (sym before) ∙ sym (get_property_bool-slot d o j low high))

-- A Null written to the Present_Value of any of the three outputs is accepted, and then slot `j` of
-- its Priority_Array is null when `j` is the command's effective priority, and as before when it is
-- another one.
pub get_property_bool-set_property_null :
    (d : Device) (o : Output) (priority j : ℕ)
    → IsSixteen (commandable d o)
    → 1 ≤ j
    → j ≤ 16
    → (d' : Device) × (set_property_null d (present_value d o) priority ≡ (d', accepted))
      × (get_property_bool d' (slot d' o j) ≡ (
          if effective_priority priority == j
          then answer true
          else get_property_bool d (slot d o j)))
get_property_bool-set_property_null d analog priority j sixteen low high = (
  _,
  set_property_null-present_value d analog priority,
  relinquished d _ analog d.analog_output priority j refl refl sixteen low high,
)
get_property_bool-set_property_null d binary priority j sixteen low high = (
  _,
  set_property_null-present_value d binary priority,
  relinquished d _ binary d.binary_output priority j refl refl sixteen low high,
)
get_property_bool-set_property_null d multi_state priority j sixteen low high = (
  _,
  set_property_null-present_value d multi_state priority,
  relinquished d _ multi_state d.multi_state_output priority j refl refl sixteen low high,
)
