-- ===== src/Device/Get/Unsigned.antt =====
-- main.cpp: `GetPropertyUnsignedInteger`.
use bacnet_profile_example_b.Base.{ℕ, ◌&&◌, not, Option, none, some, if◌then◌else◌, ◌==◌}
use bacnet_profile_example_b.Floats.{Floats}
use bacnet_profile_example_b.Priority.{Commandable, read_priority_slot}
use bacnet_profile_example_b.ScNode.{get_certificate_file_size}
use bacnet_profile_example_b.Device.{
  Device, Query, Reply, answer, decline, Output, analog, binary, multi_state, get_commandable,
  is_sc_certificate_file,
}
use bacnet_profile_example_b.Device.Port.{get_data_link_port_unsigned}
use bacnet_profile_example_b.Bacnet.{
  property_identifier_file_size, object_type_multi_state_input, multi_state_input_instance,
  property_identifier_present_value, property_identifier_number_of_states,
  multi_state_input_number_of_states, property_identifier_state_text, object_type_device,
  property_identifier_vendor_identifier, vendor_identifier, object_type_network_port,
  network_port_instance, property_identifier_apdu_length, max_apdu_length,
  property_identifier_reference_port, network_port_reference_port_none,
  property_identifier_bacnet_ip_udp_port, property_identifier_relinquish_default,
  multi_state_output_number_of_states, object_type_file, file_instance,
}

or_decline {ℓ} : {A : Type ℓ} → Option A → Reply A
or_decline none = decline
or_decline (some a) = answer a

ivory_size : Device → Query → Reply ℕ
ivory_size d q =
    if q.object_type == object_type_file
      && q.object_instance == file_instance
      && q.property_identifier == property_identifier_file_size
    then answer d.ivory.used
    else decline

multi_state_output_unsigned : Floats → Commandable → Query → Reply ℕ
unfolding read_priority_slot
multi_state_output_unsigned fl c q =
    elim (read_priority_slot c q.property_identifier q.use_array_index q.property_array_index) [
      | some (slot_is_set, slot_value) ↦
          if slot_is_set then answer (fl.to_uint slot_value) else decline
      | none ↦
          if q.property_identifier == property_identifier_relinquish_default
          then answer (fl.to_uint c.relinquish_default)
          else if q.property_identifier == property_identifier_number_of_states
          then answer multi_state_output_number_of_states
          else decline
    ]

commandable_unsigned : Floats → Device → Query → Option Output → Reply ℕ
unfolding multi_state_output_unsigned ivory_size
commandable_unsigned fl d q none = ivory_size d q
commandable_unsigned fl d q (some analog) = ivory_size d q
commandable_unsigned fl d q (some binary) = ivory_size d q
commandable_unsigned fl d q (some multi_state) =
    multi_state_output_unsigned fl d.multi_state_output q

-- From the Device's Vendor_Identifier on.
own_unsigned : Floats → Device → Query → Reply ℕ
unfolding commandable_unsigned get_commandable
own_unsigned fl d q =
    if q.object_type == object_type_device
      && q.object_instance == d.device_instance
      && q.property_identifier == property_identifier_vendor_identifier
    then answer vendor_identifier
    else if q.object_type == object_type_network_port
        && q.object_instance == network_port_instance
        && q.property_identifier == property_identifier_apdu_length
    then answer max_apdu_length
    else if q.object_type == object_type_network_port
        && q.object_instance == network_port_instance
        && q.property_identifier == property_identifier_reference_port
    then answer network_port_reference_port_none
    else if q.object_type == object_type_network_port
        && q.object_instance == network_port_instance
        && q.property_identifier == property_identifier_bacnet_ip_udp_port
    then answer d.bacnet_ip_udp_port
    else commandable_unsigned fl d q (get_commandable q.object_type q.object_instance)

multi_state_input_unsigned : Floats → Device → Query → Reply ℕ
unfolding own_unsigned
multi_state_input_unsigned fl d q =
    if q.object_type == object_type_multi_state_input
      && q.object_instance == multi_state_input_instance
    then if q.property_identifier == property_identifier_present_value
      then answer 1
      else if q.property_identifier == property_identifier_number_of_states
      then answer multi_state_input_number_of_states
      else if q.property_identifier == property_identifier_state_text
          && q.use_array_index
          && q.property_array_index == 0
      then answer multi_state_input_number_of_states
      else own_unsigned fl d q
    else own_unsigned fl d q

unfoldable pub get_property_unsigned_integer : Floats → Device → Query → Reply ℕ
unfolding get_data_link_port_unsigned is_sc_certificate_file multi_state_input_unsigned or_decline
get_property_unsigned_integer fl d q =
    if not (q.device_instance == d.device_instance)
    then decline
    else elim (get_data_link_port_unsigned d q) [
      | some v ↦ answer v
      | none ↦
          if is_sc_certificate_file d q.object_type q.object_instance
            && q.property_identifier == property_identifier_file_size
          then or_decline (get_certificate_file_size d.sc q.object_instance)
          else multi_state_input_unsigned fl d q
    ]
