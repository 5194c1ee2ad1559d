-- ===== src/Device/Get/Text.antt =====
-- main.cpp: `GetPropertyCharString`. The encoding is UTF-8 in every answer.
use bacnet_profile_example_b.Base.{
  ℕ, ◌-◌, ◌&&◌, not, List, [], ◌∷◌, ◌++◌, Option, none, some, if◌then◌else◌, ◌==◌, leb, ltb, length,
  take, get_or,
}
use bacnet_profile_example_b.Base.Text.{codes}
use bacnet_profile_example_b.ScNode.{certificate_file_name}
use bacnet_profile_example_b.Device.{
  Device, Query, Reply, answer, decline, fail, is_sc_certificate_file,
}
use bacnet_profile_example_b.Device.Port.{data_link_port_name}
use bacnet_profile_example_b.Bacnet.{
  object_type_multi_state_input, multi_state_input_instance, property_identifier_state_text,
  multi_state_input_number_of_states, error_code_invalid_array_index,
  property_identifier_object_name, object_type_device, object_type_analog_input,
  analog_input_instance, object_type_binary_input, binary_input_instance, object_type_analog_output,
  analog_output_instance, object_type_binary_output, binary_output_instance,
  object_type_analog_value, analog_value_instance, object_type_notification_class,
  notification_class_instance, object_type_multi_state_output, multi_state_output_instance,
  object_type_network_port, network_port_instance, object_type_schedule, schedule_instance,
  object_type_calendar, calendar_instance, object_type_file, file_instance, object_type_trend_log,
  trend_log_instance, object_type_trend_log_multiple, trend_log_multiple_instance,
  property_identifier_file_type, property_identifier_description, property_identifier_vendor_name,
  property_identifier_model_name, property_identifier_firmware_revision,
  property_identifier_application_software_version,
}

-- `ReturnCharacterString`: a text longer than the stack's buffer is cut.
unfoldable pub return_character_string : List ℕ → ℕ → List ℕ
return_character_string text max_element_count =
    take (if ltb max_element_count (length text) then max_element_count else length text) text

state_text : ℕ → List ℕ
state_text i = get_or (codes "On" ∷ codes "Off" ∷ codes "Auto" ∷ []) (i - 1) []

-- The objects whose name does not depend on the state, in two parts of the chain.
fixed_name : ℕ → ℕ → Option (List ℕ)
fixed_name t i =
    if t == object_type_analog_input && i == analog_input_instance
    then some (codes "Bronze")
    else if t == object_type_binary_input && i == binary_input_instance
    then some (codes "Emerald")
    else if t == object_type_multi_state_input && i == multi_state_input_instance
    then some (codes "Hot Pink")
    else if t == object_type_analog_output && i == analog_output_instance
    then some (codes "Chartreuse")
    else if t == object_type_binary_output && i == binary_output_instance
    then some (codes "Fuchsia")
    else if t == object_type_analog_value && i == analog_value_instance
    then some (codes "Diamond")
    else if t == object_type_notification_class && i == notification_class_instance
    then some (codes "Crimson")
    else if t == object_type_multi_state_output && i == multi_state_output_instance
    then some (codes "Indigo")
    else if t == object_type_network_port && i == network_port_instance
    then some (codes "Vermilion")
    else none

later_name : ℕ → ℕ → Option (List ℕ)
later_name t i =
    if t == object_type_schedule && i == schedule_instance
    then some (codes "Saffron")
    else if t == object_type_calendar && i == calendar_instance
    then some (codes "Cream")
    else if t == object_type_file && i == file_instance
    then some (codes "Ivory")
    else if t == object_type_trend_log && i == trend_log_instance
    then some (codes "Lilac")
    else if t == object_type_trend_log_multiple && i == trend_log_multiple_instance
    then some (codes "Magenta")
    else none

changing_name : Device → ℕ → ℕ → Option (List ℕ)
unfolding data_link_port_name is_sc_certificate_file certificate_file_name later_name
changing_name d t i = elim (data_link_port_name d t i) [
  | some name ↦ some name
  | none ↦ if is_sc_certificate_file d t i then some (certificate_file_name i) else later_name t i
]

-- The Object_Name of an object, `none` where the callback has no name for it.
unfoldable pub object_name : Device → ℕ → ℕ → Option (List ℕ)
unfolding fixed_name changing_name
object_name d t i =
    if t == object_type_device && i == d.device_instance
    then some d.device_name
    else elim (fixed_name t i) [ some name ↦ some name | none ↦ changing_name d t i ]

abbrev pub device_description : List ℕ
device_description =
    codes "Chipkin CAS BACnet Stack example - B-BC (Building Controller) profile, "
    ++ (codes "the series capstone. Demonstrates DS-RP/RPM/WP/WPM-A/B, intrinsic "
        ++ (codes "alarming, SCHED-E-B, trending, DM-DCC-B, DM-TS-B/UTC-B, DM-RD-B, and "
            ++ codes "DM-BR-B."))

abbrev pub vendor_name : List ℕ
vendor_name = codes "Chipkin Automation Systems"

abbrev pub model_name : List ℕ
model_name = codes "CAS BACnet Stack Example - B-BC"

abbrev pub app_version : List ℕ
app_version = codes "1.3.1"

identity_text : Device → ℕ → Option (List ℕ)
identity_text d p =
    if p == property_identifier_description
    then some device_description
    else if p == property_identifier_vendor_name
    then some vendor_name
    else if p == property_identifier_model_name
    then some model_name
    else if p == property_identifier_firmware_revision
    then some d.firmware_revision
    else if p == property_identifier_application_software_version
    then some app_version
    else none

-- After the Object_Name: File_Type, and the Device's texts.
other_text : Device → Query → Option (List ℕ)
unfolding is_sc_certificate_file identity_text
other_text d q =
    if q.object_type == object_type_file
      && q.object_instance == file_instance
      && q.property_identifier == property_identifier_file_type
    then some (codes "application/octet-stream")
    else if is_sc_certificate_file d q.object_type q.object_instance
        && q.property_identifier == property_identifier_file_type
    then some (codes "application/x-pem-file")
    else if q.object_type == object_type_device && q.object_instance == d.device_instance
    then identity_text d q.property_identifier
    else none

any_text : Device → Query → Option (List ℕ)
unfolding object_name other_text
any_text d q =
    if q.property_identifier == property_identifier_object_name
    then elim (object_name d q.object_type q.object_instance) [
      | some name ↦ some name
      | none ↦ other_text d q
    ]
    else other_text d q

unfoldable pub get_property_char_string : Device → Query → ℕ → Reply (List ℕ)
unfolding state_text any_text return_character_string
get_property_char_string d q max_element_count =
    if not (q.device_instance == d.device_instance)
    then decline
    else if q.object_type == object_type_multi_state_input
        && q.object_instance == multi_state_input_instance
        && q.property_identifier == property_identifier_state_text
        && q.use_array_index
    then if leb 1 q.property_array_index
        && leb q.property_array_index multi_state_input_number_of_states
      then answer (return_character_string (state_text q.property_array_index) max_element_count)
      else fail error_code_invalid_array_index
    else elim (any_text d q) [
      | none ↦ decline
      | some text ↦ answer (return_character_string text max_element_count)
    ]
