-- ===== src/Device/Set.antt =====
-- main.cpp, section 2b: the property Set callbacks. A refused write leaves the device as it was.
use bacnet_profile_example_b.Base.{
  ℕ, Bool, ◌&&◌, ◌||◌, not, Option, none, some, if◌then◌else◌, ◌==◌, ltb,
}
use bacnet_profile_example_b.Options.{DataLink}
use bacnet_profile_example_b.Floats.{Floats}
use bacnet_profile_example_b.Cert.Host.{Host}
use bacnet_profile_example_b.Cert.Store.{Resized, resized, resize_refused}
use bacnet_profile_example_b.ScNode.{resize_certificate_file}
use bacnet_profile_example_b.Priority.{command_write, command_relinquish}
use bacnet_profile_example_b.Device.{
  Device, Query, Verdict, accepted, declined, rejected, Output, analog, binary, multi_state,
  commandable, with_commandable, get_commandable, is_data_link_port, active_network_port_instance,
  is_sc_certificate_file,
}
use bacnet_profile_example_b.Device.Port.{set_data_link_port_unsigned}
use bacnet_profile_example_b.Bacnet.{
  property_identifier_present_value, error_code_value_out_of_range,
  multi_state_output_number_of_states, object_type_network_port, property_identifier_network_number,
  property_identifier_file_size, object_type_file, file_instance, property_identifier_archive,
}

-- `CommandWrite` on the output that `GetCommandable` found.
write_output : Device → Output → ℕ → ℕ → Device × Verdict
unfolding command_write
write_output d o priority value =
    (with_commandable d o (command_write (commandable d o) priority value), accepted)

unfoldable pub set_real_of : Floats → Device → Query → ℕ → ℕ → Option Output → Device × Verdict
unfolding write_output
set_real_of fl d q value priority (some analog) =
    if q.property_identifier == property_identifier_present_value
    then write_output d analog priority (fl.widen value)
    else (d, declined)
set_real_of fl d q value priority (some binary) = (d, declined)
set_real_of fl d q value priority (some multi_state) = (d, declined)
set_real_of fl d q value priority none = (d, declined)

unfoldable pub set_property_real : Floats → Device → Query → ℕ → ℕ → Device × Verdict
unfolding set_real_of get_commandable
set_property_real fl d q value priority =
    if not (q.device_instance == d.device_instance)
    then (d, declined)
    else set_real_of fl d q value priority (get_commandable q.object_type q.object_instance)

unfoldable pub set_enumerated_of :
    Floats → Device → Query → ℕ → ℕ → Option Output → Device × Verdict
unfolding write_output
set_enumerated_of fl d q value priority (some binary) =
    if q.property_identifier == property_identifier_present_value
    then if ltb 1 value
      then (d, rejected error_code_value_out_of_range)
      else write_output d binary priority (fl.of_uint value)
    else (d, declined)
set_enumerated_of fl d q value priority (some analog) = (d, declined)
set_enumerated_of fl d q value priority (some multi_state) = (d, declined)
set_enumerated_of fl d q value priority none = (d, declined)

unfoldable pub set_property_enumerated : Floats → Device → Query → ℕ → ℕ → Device × Verdict
unfolding set_enumerated_of get_commandable
set_property_enumerated fl d q value priority =
    if not (q.device_instance == d.device_instance)
    then (d, declined)
    else set_enumerated_of fl d q value priority (get_commandable q.object_type q.object_instance)

unfoldable pub set_unsigned_of : Floats → Device → Query → ℕ → ℕ → Option Output → Device × Verdict
unfolding write_output
set_unsigned_of fl d q value priority (some multi_state) =
    if q.property_identifier == property_identifier_present_value
    then if ltb value 1 || ltb multi_state_output_number_of_states value
      then (d, rejected error_code_value_out_of_range)
      else write_output d multi_state priority (fl.of_uint value)
    else (d, declined)
set_unsigned_of fl d q value priority (some analog) = (d, declined)
set_unsigned_of fl d q value priority (some binary) = (d, declined)
set_unsigned_of fl d q value priority none = (d, declined)

of_resized : Resized → Verdict
of_resized resized = accepted
of_resized (resize_refused none) = declined
of_resized (resize_refused (some code)) = rejected code

unfoldable pub resize_certificate : Host → Device → Query → ℕ → Device × Verdict
unfolding resize_certificate_file of_resized
resize_certificate host d q value =
    let (sc', outcome) = resize_certificate_file host d.sc q.object_instance value in
    (record d { sc = sc' }, of_resized outcome)

unfoldable pub set_property_unsigned_integer :
    Host → Floats → Device → Query → ℕ → ℕ → Device × Verdict
unfolding is_data_link_port set_data_link_port_unsigned active_network_port_instance
    is_sc_certificate_file resize_certificate set_unsigned_of get_commandable
set_property_unsigned_integer host fl d q value priority =
    if not (q.device_instance == d.device_instance)
    then (d, declined)
    else if is_data_link_port d q.object_type q.object_instance DataLink.mstp
    then set_data_link_port_unsigned d q value
    else if q.object_type == object_type_network_port
        && q.object_instance == active_network_port_instance d
        && q.property_identifier == property_identifier_network_number
    then (d, accepted)
    else if is_sc_certificate_file d q.object_type q.object_instance
        && q.property_identifier == property_identifier_file_size
    then resize_certificate host d q value
    else set_unsigned_of fl d q value priority (get_commandable q.object_type q.object_instance)

unfoldable pub relinquish_of : Device → Query → ℕ → Option Output → Device × Verdict
unfolding command_relinquish
relinquish_of d q priority none = (d, declined)
relinquish_of d q priority (some o) =
    if q.property_identifier == property_identifier_present_value
    then (with_commandable d o (command_relinquish (commandable d o) priority), accepted)
    else (d, declined)

unfoldable pub set_property_null : Device → Query → ℕ → Device × Verdict
unfolding relinquish_of get_commandable
set_property_null d q priority =
    if not (q.device_instance == d.device_instance)
    then (d, declined)
    else relinquish_of d q priority (get_commandable q.object_type q.object_instance)

unfoldable pub set_property_bool : Device → Query → Bool → Device × Verdict
set_property_bool d q value =
    if not (q.device_instance == d.device_instance)
      || not (q.object_type == object_type_file)
      || not (q.object_instance == file_instance)
      || not (q.property_identifier == property_identifier_archive)
    then (d, declined)
    else (record d { ivory = record (d.ivory) { archive = value } }, accepted)
