-- ===== src/Priority.antt =====
-- main.cpp: `Commandable`, the 16-slot Priority_Array of an output object, and its operations.
-- A `double` is its bit pattern; nothing here looks into it.
pub mod Slots
use bacnet_profile_example_b.Base.{
  ℕ, ◌-◌, Bool, true, false, ◌&&◌, ◌||◌, not, List, Option, none, some, leb, ltb, ◌==◌,
  if◌then◌else◌, get_or, set, replicate,
}
use bacnet_profile_example_b.Bacnet.{bacnet_priority_array_size, property_identifier_priority_array}

pub record Commandable : Type 0 where
  pub is_set : List Bool
  pub value : List ℕ
  pub relinquish_default : ℕ

-- `{ { false }, { 0 }, value }`; the zero octets are the pattern of 0.0.
unfoldable pub at_power_on : ℕ → Commandable
at_power_on value = record {
  is_set = replicate 16 false;
  value = replicate 16 0;
  relinquish_default = value;
}

unfoldable pub effective_priority : ℕ → ℕ
effective_priority priority =
    if leb 1 priority && leb priority bacnet_priority_array_size then priority else 16

unfoldable pub command_write : Commandable → ℕ → ℕ → Commandable
command_write c priority value =
    let p = effective_priority priority in
    record c { is_set = set c.is_set (p - 1) true; value = set c.value (p - 1) value }

unfoldable pub command_relinquish : Commandable → ℕ → Commandable
command_relinquish c priority =
    let p = effective_priority priority in record c { is_set = set c.is_set (p - 1) false }

-- `none` when the property is not one element of the Priority_Array; else the slot's flag and value.
unfoldable pub read_priority_slot : Commandable → ℕ → Bool → ℕ → Option (Bool × ℕ)
read_priority_slot c property_identifier use_array_index property_array_index =
    if not (property_identifier == property_identifier_priority_array)
      || not use_array_index
      || ltb property_array_index 1
      || ltb bacnet_priority_array_size property_array_index
    then none
    else some (
      get_or c.is_set (property_array_index - 1) false,
      get_or c.value (property_array_index - 1) 0,
    )
