-- ===== src/Device/Commands/States.antt =====
-- The multi-state output: a state that is accepted is read back.
use bacnet_profile_example_b.Base.{
  ℕ, ◌≤◌, ◌≡◌, refl, ap, sym, ◌∙◌, false, if◌then◌else◌, ◌==◌, ltb, arith,
}
use bacnet_profile_example_b.Options.{DataLink, ipv4, ipv6, mstp, sc}
use bacnet_profile_example_b.Floats.{Floats}
use bacnet_profile_example_b.Cert.Host.{Host}
use bacnet_profile_example_b.Priority.{command_write, effective_priority}
use bacnet_profile_example_b.Priority.Slots.{IsSixteen, commanded-command_write}
use bacnet_profile_example_b.Device.{Device, answer, accepted, multi_state, with_commandable}
use bacnet_profile_example_b.Device.Get.Unsigned.{get_property_unsigned_integer}
use bacnet_profile_example_b.Device.Set.{set_property_unsigned_integer}
use bacnet_profile_example_b.Device.Commands.{
  present_value, slot, served, get_property_unsigned_integer-slot, same_number,
}
use bacnet_profile_example_b.Device.Commands.RoundTrip.{served-if}

set_property_unsigned_integer-present_value :
    (host : Host) (fl : Floats) (d : Device) (value priority : ℕ)
    → 1 ≤ value
    → value ≤ 3
    → set_property_unsigned_integer host fl d (present_value d multi_state) value priority ≡ (
      with_commandable d multi_state
          (command_write d.multi_state_output priority (fl.of_uint value)),
      accepted,
    )
unfolding set_property_unsigned_integer
set_property_unsigned_integer-present_value host fl d value priority low high =
    go d.options.data_link refl (ground (arith, low)) (ground (arith, high))
  where
    go :
        (l : DataLink)
        → d.options.data_link ≡ l
        → ltb value 1 ≡ false
        → ltb 3 value ≡ false
        → set_property_unsigned_integer host fl d (present_value d multi_state) value priority ≡ (
          with_commandable d multi_state
              (command_write d.multi_state_output priority (fl.of_uint value)),
          accepted,
        )
    go ipv4 e above below = simp (same_number d.device_instance, e, above, below) refl
    go ipv6 e above below = simp (same_number d.device_instance, e, above, below) refl
    go mstp e above below = simp (same_number d.device_instance, e, above, below) refl
    go sc e above below = simp (same_number d.device_instance, e, above, below) refl

-- A state 1, 2 or 3 written to Multi-state Output 1 is accepted on every data link, and then slot
-- `j` of the Priority_Array reads as that state when `j` is the command's effective priority, and as
-- before when it is another one.
pub get_property_unsigned_integer-set_property_unsigned_integer :
    (host : Host) (fl : Floats) (d : Device) (value priority j : ℕ)
    → IsSixteen d.multi_state_output
    → 1 ≤ value
    → value ≤ 3
    → 1 ≤ j
    → j ≤ 16
    → (d' : Device) × (set_property_unsigned_integer host fl d
          (present_value d multi_state)
          value
          priority
        ≡ (d', accepted))
      × (get_property_unsigned_integer fl d' (slot d multi_state j) ≡ (
          if effective_priority priority == j
          then answer value
          else get_property_unsigned_integer fl d (slot d multi_state j)))
get_property_unsigned_integer-set_property_unsigned_integer host fl d value priority j sixteen
      some_state known low high =
    let d' =
      with_commandable d multi_state
        (command_write d.multi_state_output priority (fl.of_uint value)) in
    let test = effective_priority priority == j in
    (
      d',
      set_property_unsigned_integer-present_value host fl d value priority some_state known,
      get_property_unsigned_integer-slot fl d' j low high
          ∙ ap (served fl.to_uint) (
              commanded-command_write d.multi_state_output priority (fl.of_uint value) j sixteen
                low)
          ∙ served-if fl.to_uint test (fl.of_uint value) value _
              (fl.to_uint-of_uint value (omega (arith, known)))
          ∙ ap (λ r. if test then answer value else r)
              (sym (get_property_unsigned_integer-slot fl d j low high)),
    )
