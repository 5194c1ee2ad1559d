-- ===== src/Device/Get/Flag.antt =====
-- main.cpp: `GetPropertyBool`.
use bacnet_profile_example_b.Base.{
  ℕ, ◌-◌, Bool, false, ◌&&◌, ◌||◌, not, Option, none, some, if◌then◌else◌, ◌==◌, leb, get_or,
}
use bacnet_profile_example_b.ScNode.{is_certificate_file_read_only}
use bacnet_profile_example_b.Device.{
  Device, Query, Reply, answer, decline, Output, commandable, get_commandable,
  is_sc_certificate_file,
}
use bacnet_profile_example_b.Bacnet.{
  property_identifier_priority_array, bacnet_priority_array_size,
  property_identifier_out_of_service, object_type_analog_input, object_type_binary_input,
  object_type_multi_state_input, object_type_analog_output, object_type_binary_output,
  object_type_multi_state_output, object_type_analog_value, object_type_network_port,
  object_type_schedule, object_type_calendar, property_identifier_archive,
  property_identifier_read_only, object_type_file, file_instance,
}

-- Out_Of_Service is served on the object type alone.
unfoldable pub has_out_of_service : ℕ → Bool
has_out_of_service t =
    t == object_type_analog_input
    || t == object_type_binary_input
    || t == object_type_multi_state_input
    || t == object_type_analog_output
    || t == object_type_binary_output
    || t == object_type_multi_state_output
    || t == object_type_analog_value
    || t == object_type_network_port
    || t == object_type_schedule
    || t == object_type_calendar

ivory_flag : Device → Query → Reply Bool
ivory_flag d q =
    if q.object_type == object_type_file && q.object_instance == file_instance
    then if q.property_identifier == property_identifier_archive
      then answer d.ivory.archive
      else if q.property_identifier == property_identifier_read_only
      then answer false
      else decline
    else decline

-- Instances 2 to 5 are not Ivory, so a certificate file with another property is declined.
certificate_flag : Device → Query → Reply Bool
unfolding is_certificate_file_read_only ivory_flag
certificate_flag d q =
    if q.property_identifier == property_identifier_archive
    then answer false
    else if q.property_identifier == property_identifier_read_only
    then answer (is_certificate_file_read_only q.object_instance)
    else ivory_flag d q

own_flag : Device → Query → Reply Bool
unfolding has_out_of_service is_sc_certificate_file certificate_flag ivory_flag
own_flag d q =
    if q.property_identifier == property_identifier_out_of_service
      && has_out_of_service q.object_type
    then answer false
    else if is_sc_certificate_file d q.object_type q.object_instance
    then certificate_flag d q
    else ivory_flag d q

-- The null flag of one slot of a Priority_Array, if that is what is asked.
null_flag : Device → Query → Option Output → Option Bool
null_flag d q none = none
null_flag d q (some o) =
    if q.property_identifier == property_identifier_priority_array
      && q.use_array_index
      && leb 1 q.property_array_index
      && leb q.property_array_index bacnet_priority_array_size
    then some (not (get_or (commandable d o).is_set (q.property_array_index - 1) false))
    else none

unfoldable pub get_property_bool : Device → Query → Reply Bool
unfolding null_flag get_commandable own_flag
get_property_bool d q =
    if not (q.device_instance == d.device_instance)
    then decline
    else elim (null_flag d q (get_commandable q.object_type q.object_instance)) [
      | some is_null ↦ answer is_null
      | none ↦ own_flag d q
    ]
