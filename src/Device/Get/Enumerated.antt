-- ===== src/Device/Get/Enumerated.antt =====
-- main.cpp: `GetPropertyEnumerated`.
use bacnet_profile_example_b.Base.{ℕ, ◌&&◌, ◌||◌, not, Option, none, some, if◌then◌else◌, ◌==◌}
use bacnet_profile_example_b.Floats.{Floats}
use bacnet_profile_example_b.Priority.{Commandable, read_priority_slot}
use bacnet_profile_example_b.Device.{
  Device, Query, Reply, answer, decline, Output, analog, binary, multi_state, get_commandable,
}
use bacnet_profile_example_b.Bacnet.{
  property_identifier_reliability, object_type_schedule, schedule_instance, object_type_calendar,
  calendar_instance, reliability_no_fault_detected, object_type_analog_value, analog_value_instance,
  object_type_binary_input, binary_input_instance, property_identifier_present_value,
  property_identifier_polarity, polarity_normal, property_identifier_units,
  engineering_units_percent, property_identifier_relinquish_default, object_type_analog_input,
  analog_input_instance, object_type_analog_output, analog_output_instance,
  engineering_units_degrees_celsius, object_type_network_port, network_port_instance,
  property_identifier_bacnet_ip_mode, bacnet_ip_mode_normal,
}

-- The last two tests of the callback.
units_and_mode : Query → Reply ℕ
units_and_mode q =
    if q.property_identifier == property_identifier_units
      && (q.object_type == object_type_analog_input && q.object_instance == analog_input_instance
          || q.object_type == object_type_analog_output
            && q.object_instance == analog_output_instance)
    then answer engineering_units_degrees_celsius
    else if q.object_type == object_type_network_port
        && q.object_instance == network_port_instance
        && q.property_identifier == property_identifier_bacnet_ip_mode
    then answer bacnet_ip_mode_normal
    else decline

binary_output_enumerated : Floats → Commandable → Query → Reply ℕ
unfolding read_priority_slot units_and_mode
binary_output_enumerated fl c q =
    elim (read_priority_slot c q.property_identifier q.use_array_index q.property_array_index) [
      | some (slot_is_set, slot_value) ↦
          if slot_is_set then answer (fl.to_uint slot_value) else decline
      | none ↦
          if q.property_identifier == property_identifier_relinquish_default
          then answer (fl.to_uint c.relinquish_default)
          else if q.property_identifier == property_identifier_polarity
          then answer polarity_normal
          else units_and_mode q
    ]

commandable_enumerated : Floats → Device → Query → Option Output → Reply ℕ
unfolding binary_output_enumerated units_and_mode
commandable_enumerated fl d q none = units_and_mode q
commandable_enumerated fl d q (some analog) = units_and_mode q
commandable_enumerated fl d q (some binary) = binary_output_enumerated fl d.binary_output q
commandable_enumerated fl d q (some multi_state) = units_and_mode q

own_enumerated : Floats → Device → Query → Reply ℕ
unfolding commandable_enumerated get_commandable
own_enumerated fl d q =
    if q.object_type == object_type_binary_input
      && q.object_instance == binary_input_instance
      && q.property_identifier == property_identifier_present_value
    then answer 1
    else if q.object_type == object_type_binary_input
        && q.object_instance == binary_input_instance
        && q.property_identifier == property_identifier_polarity
    then answer polarity_normal
    else if q.object_type == object_type_analog_value
        && q.object_instance == analog_value_instance
        && q.property_identifier == property_identifier_units
    then answer engineering_units_percent
    else commandable_enumerated fl d q (get_commandable q.object_type q.object_instance)

unfoldable pub get_property_enumerated : Floats → Device → Query → Reply ℕ
unfolding own_enumerated
get_property_enumerated fl d q =
    if not (q.device_instance == d.device_instance)
    then decline
    else if q.property_identifier == property_identifier_reliability
        && (q.object_type == object_type_schedule && q.object_instance == schedule_instance
            || q.object_type == object_type_calendar && q.object_instance == calendar_instance)
    then answer reliability_no_fault_detected
    else if q.property_identifier == property_identifier_reliability
        && q.object_type == object_type_analog_value
        && q.object_instance == analog_value_instance
    then answer d.diamond_reliability
    else own_enumerated fl d q
