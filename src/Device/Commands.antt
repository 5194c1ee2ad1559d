-- ===== src/Device/Commands.antt =====
-- What the property callbacks promise of the three commandable outputs: a command accepted by Set is
-- what Get then serves, slot by slot.
pub mod RoundTrip
pub mod States
use bacnet_profile_example_b.Base.{
  ℕ, ◌-◌, ◌≤◌, ◌≡◌, refl, ap, ◌∙◌, Bool, true, false, not, Option, none, some, if◌then◌else◌, ◌==◌,
  arith, Bool-cases, inl, inr, get_or,
}
use bacnet_profile_example_b.Floats.{Floats}
use bacnet_profile_example_b.Priority.{Commandable, read_priority_slot}
use bacnet_profile_example_b.Priority.Slots.{commanded}
use bacnet_profile_example_b.Options.{DataLink, ipv4, ipv6, mstp, sc}
use bacnet_profile_example_b.Device.{
  is_sc_certificate_file, Device, Query, Reply, answer, decline, get_commandable, Output, analog,
  binary, multi_state, commandable,
}
use bacnet_profile_example_b.Device.Get.Real.{get_property_real}
use bacnet_profile_example_b.Device.Get.Flag.{get_property_bool}
use bacnet_profile_example_b.Device.Get.Enumerated.{get_property_enumerated}
use bacnet_profile_example_b.Device.Get.Unsigned.{get_property_unsigned_integer}
use bacnet_profile_example_b.Bacnet.{
  object_type_analog_output, object_type_binary_output, object_type_multi_state_output,
  analog_output_instance, binary_output_instance, multi_state_output_instance,
  property_identifier_present_value, property_identifier_priority_array,
}

abbrev pub output_type : Output → ℕ
output_type analog = object_type_analog_output
output_type binary = object_type_binary_output
output_type multi_state = object_type_multi_state_output

abbrev pub output_instance : Output → ℕ
output_instance analog = analog_output_instance
output_instance binary = binary_output_instance
output_instance multi_state = multi_state_output_instance

-- The Present_Value of an output of this device, and slot `j` of its Priority_Array.
abbrev pub present_value : Device → Output → Query
present_value d o = record {
  device_instance = d.device_instance;
  object_type = output_type o;
  object_instance = output_instance o;
  property_identifier = property_identifier_present_value;
  use_array_index = false;
  property_array_index = 0;
}

abbrev pub slot : Device → Output → ℕ → Query
slot d o j = record {
  device_instance = d.device_instance;
  object_type = output_type o;
  object_instance = output_instance o;
  property_identifier = property_identifier_priority_array;
  use_array_index = true;
  property_array_index = j;
}

-- What is served of a slot: its value, converted, or nothing where it is null.
abbrev pub served : (ℕ → ℕ) → Option ℕ → Reply ℕ
served convert none = decline
served convert (some v) = answer (convert v)

pub same_number : (n : ℕ) → (n == n) ≡ true
same_number n = ground arith

served-slot :
    (convert : ℕ → ℕ) (c : Commandable) (j : ℕ)
    → (if get_or c.is_set (j - 1) false
        then answer (convert (get_or c.value (j - 1) 0))
        else decline)
      ≡ served convert (commanded c j)
unfolding commanded
served-slot convert c j = elim (Bool-cases (get_or c.is_set (j - 1) false)) [
  | inl yes' ↦ rw (yes', commanded) refl
  | inr no' ↦ rw (no', commanded) refl
]

-- The one element asked for, within 1..16.
read_priority_slot-slot :
    (c : Commandable) (j : ℕ)
    → 1 ≤ j
    → j ≤ 16
    → read_priority_slot c property_identifier_priority_array true j
      ≡ some (get_or c.is_set (j - 1) false, get_or c.value (j - 1) 0)
unfolding read_priority_slot
read_priority_slot-slot c j low high = ground arith

-- What the three callbacks do with the element.
abbrev slot_reply : (ℕ → ℕ) → Option (Bool × ℕ) → Reply ℕ
slot_reply convert none = decline
slot_reply convert (some (is_set, v)) = if is_set then answer (convert v) else decline

slot_reply-read_priority_slot :
    (convert : ℕ → ℕ) (c : Commandable) (j : ℕ)
    → 1 ≤ j
    → j ≤ 16
    → slot_reply convert (read_priority_slot c property_identifier_priority_array true j)
      ≡ served convert (commanded c j)
slot_reply-read_priority_slot convert c j low high =
    ap (slot_reply convert) (read_priority_slot-slot c j low high) ∙ served-slot convert c j

pub get_property_real-slot :
    (fl : Floats) (d : Device) (j : ℕ)
    → 1 ≤ j
    → j ≤ 16
    → get_property_real fl d (slot d analog j) ≡ served fl.narrow (commanded d.analog_output j)
unfolding get_property_real
get_property_real-slot fl d j low high =
    rw (same_number d.device_instance)
      (slot_reply-read_priority_slot fl.narrow d.analog_output j low high)

pub get_property_enumerated-slot :
    (fl : Floats) (d : Device) (j : ℕ)
    → 1 ≤ j
    → j ≤ 16
    → get_property_enumerated fl d (slot d binary j)
      ≡ served fl.to_uint (commanded d.binary_output j)
unfolding get_property_enumerated
get_property_enumerated-slot fl d j low high =
    rw (same_number d.device_instance)
      (slot_reply-read_priority_slot fl.to_uint d.binary_output j low high)

pub not_certificate :
    (d : Device)
    → is_sc_certificate_file d object_type_multi_state_output multi_state_output_instance ≡ false
unfolding is_sc_certificate_file
not_certificate d = ground arith

pub get_property_unsigned_integer-slot :
    (fl : Floats) (d : Device) (j : ℕ)
    → 1 ≤ j
    → j ≤ 16
    → get_property_unsigned_integer fl d (slot d multi_state j)
      ≡ served fl.to_uint (commanded d.multi_state_output j)
unfolding get_property_unsigned_integer
get_property_unsigned_integer-slot fl d j low high = go d.options.data_link refl
  where
    go :
        (l : DataLink)
        → d.options.data_link ≡ l
        → get_property_unsigned_integer fl d (slot d multi_state j)
          ≡ served fl.to_uint (commanded d.multi_state_output j)
    go ipv4 e =
        rw (same_number d.device_instance, e)
          (rw (not_certificate d)
            (slot_reply-read_priority_slot fl.to_uint d.multi_state_output j low high))
    go ipv6 e =
        rw (same_number d.device_instance, e)
          (rw (not_certificate d)
            (slot_reply-read_priority_slot fl.to_uint d.multi_state_output j low high))
    go mstp e =
        rw (same_number d.device_instance, e)
          (rw (not_certificate d)
            (slot_reply-read_priority_slot fl.to_uint d.multi_state_output j low high))
    go sc e =
        rw (same_number d.device_instance, e)
          (rw (not_certificate d)
            (slot_reply-read_priority_slot fl.to_uint d.multi_state_output j low high))

pub get_property_bool-slot :
    (d : Device) (o : Output) (j : ℕ)
    → 1 ≤ j
    → j ≤ 16
    → get_property_bool d (slot d o j)
      ≡ answer (not (get_or (commandable d o).is_set (j - 1) false))
unfolding get_property_bool get_commandable
get_property_bool-slot d analog j low high = ground (arith, low, high)
get_property_bool-slot d binary j low high = ground (arith, low, high)
get_property_bool-slot d multi_state j low high = ground (arith, low, high)
