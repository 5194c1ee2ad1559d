-- ===== src/Device/Get/Real.antt =====
-- main.cpp: `GetPropertyReal`.
use bacnet_profile_example_b.Base.{ℕ, ◌&&◌, not, Option, none, some, if◌then◌else◌, ◌==◌}
use bacnet_profile_example_b.Floats.{Floats}
use bacnet_profile_example_b.Priority.{Commandable, read_priority_slot}
use bacnet_profile_example_b.Device.{
  Device, Query, Reply, answer, decline, Output, analog, binary, multi_state, get_commandable,
}
use bacnet_profile_example_b.Device.Port.{get_data_link_port_real}
use bacnet_profile_example_b.Bacnet.{
  object_type_analog_input, analog_input_instance, property_identifier_present_value,
  object_type_network_port, network_port_instance, property_identifier_link_speed,
  object_type_analog_value, analog_value_instance, property_identifier_relinquish_default,
}

analog_output_real : Floats → Commandable → Query → Reply ℕ
unfolding read_priority_slot
analog_output_real fl c q =
    elim (read_priority_slot c q.property_identifier q.use_array_index q.property_array_index) [
      | some (slot_is_set, slot_value) ↦
          if slot_is_set then answer (fl.narrow slot_value) else decline
      | none ↦
          if q.property_identifier == property_identifier_relinquish_default
          then answer (fl.narrow c.relinquish_default)
          else decline
    ]

commandable_real : Floats → Device → Query → Option Output → Reply ℕ
unfolding analog_output_real
commandable_real fl d q none = decline
commandable_real fl d q (some analog) = analog_output_real fl d.analog_output q
commandable_real fl d q (some binary) = decline
commandable_real fl d q (some multi_state) = decline

own_real : Floats → Device → Query → Reply ℕ
unfolding commandable_real get_commandable
own_real fl d q =
    if q.object_type == object_type_analog_input
      && q.object_instance == analog_input_instance
      && q.property_identifier == property_identifier_present_value
    then answer d.analog_input_value
    else if q.object_type == object_type_network_port
        && q.object_instance == network_port_instance
        && q.property_identifier == property_identifier_link_speed
    then answer d.link_speed
    else if q.object_type == object_type_analog_value
        && q.object_instance == analog_value_instance
        && q.property_identifier == property_identifier_present_value
    then answer d.analog_value
    else commandable_real fl d q (get_commandable q.object_type q.object_instance)

unfoldable pub get_property_real : Floats → Device → Query → Reply ℕ
unfolding own_real get_data_link_port_real
get_property_real fl d q =
    if not (q.device_instance == d.device_instance)
    then decline
    else elim (get_data_link_port_real fl d q) [ some v ↦ answer v | none ↦ own_real fl d q ]
