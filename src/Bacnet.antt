-- ===== src/Bacnet.antt =====
-- The numbers of main.cpp and common/CASBACnetStackExampleConstants.h that the model names: object
-- types, property identifiers, instances, error codes, states.
use bacnet_profile_example_b.Base.{ℕ}

abbrev pub vendor_identifier : ℕ
vendor_identifier = 389

abbrev pub analog_input_instance : ℕ
analog_input_instance = 1

abbrev pub binary_input_instance : ℕ
binary_input_instance = 1

abbrev pub multi_state_input_instance : ℕ
multi_state_input_instance = 1

abbrev pub multi_state_input_number_of_states : ℕ
multi_state_input_number_of_states = 3

abbrev pub network_port_instance : ℕ
network_port_instance = 1

abbrev pub max_apdu_length : ℕ
max_apdu_length = 1476

abbrev pub analog_output_instance : ℕ
analog_output_instance = 1

abbrev pub binary_output_instance : ℕ
binary_output_instance = 1

abbrev pub multi_state_output_instance : ℕ
multi_state_output_instance = 1

abbrev pub multi_state_output_number_of_states : ℕ
multi_state_output_number_of_states = 3

abbrev pub bacnet_priority_array_size : ℕ
bacnet_priority_array_size = 16

abbrev pub analog_value_instance : ℕ
analog_value_instance = 1

abbrev pub notification_class_instance : ℕ
notification_class_instance = 1

abbrev pub schedule_instance : ℕ
schedule_instance = 1

abbrev pub calendar_instance : ℕ
calendar_instance = 1

abbrev pub object_type_schedule : ℕ
object_type_schedule = 17

abbrev pub object_type_calendar : ℕ
object_type_calendar = 6

abbrev pub property_identifier_reliability : ℕ
property_identifier_reliability = 103

abbrev pub reliability_no_fault_detected : ℕ
reliability_no_fault_detected = 0

abbrev pub object_type_file : ℕ
object_type_file = 10

abbrev pub file_instance : ℕ
file_instance = 1

abbrev pub file_max_size : ℕ
file_max_size = 4096

abbrev pub property_identifier_file_size : ℕ
property_identifier_file_size = 42

abbrev pub property_identifier_file_type : ℕ
property_identifier_file_type = 43

abbrev pub object_type_trend_log : ℕ
object_type_trend_log = 20

abbrev pub object_type_trend_log_multiple : ℕ
object_type_trend_log_multiple = 27

abbrev pub trend_log_instance : ℕ
trend_log_instance = 1

abbrev pub trend_log_multiple_instance : ℕ
trend_log_multiple_instance = 1

abbrev pub property_identifier_archive : ℕ
property_identifier_archive = 13

abbrev pub property_identifier_read_only : ℕ
property_identifier_read_only = 99

abbrev pub reinitialize_state_startbackup : ℕ
reinitialize_state_startbackup = 2

abbrev pub reinitialize_state_endbackup : ℕ
reinitialize_state_endbackup = 3

abbrev pub reinitialize_state_startrestore : ℕ
reinitialize_state_startrestore = 4

abbrev pub reinitialize_state_endrestore : ℕ
reinitialize_state_endrestore = 5

abbrev pub reinitialize_state_abortrestore : ℕ
reinitialize_state_abortrestore = 6

abbrev pub reinitialize_state_activate_changes : ℕ
reinitialize_state_activate_changes = 7

abbrev pub remote_device_instance : ℕ
remote_device_instance = 389002

abbrev pub remote_analog_input_instance : ℕ
remote_analog_input_instance = 1

abbrev pub remote_poll_interval_milliseconds : ℕ
remote_poll_interval_milliseconds = 1000

abbrev pub remote_comms_loss_milliseconds : ℕ
remote_comms_loss_milliseconds = 3000

abbrev pub remote_lost_poll_interval_milliseconds : ℕ
remote_lost_poll_interval_milliseconds = 3000

abbrev pub reliability_unreliable_other : ℕ
reliability_unreliable_other = 7

abbrev pub reliability_communication_failure : ℕ
reliability_communication_failure = 12

abbrev pub ipv6_network_port_instance : ℕ
ipv6_network_port_instance = 2

abbrev pub mstp_network_port_instance : ℕ
mstp_network_port_instance = 3

abbrev pub sc_network_port_instance : ℕ
sc_network_port_instance = 4

abbrev pub property_identifier_ipv6_address : ℕ
property_identifier_ipv6_address = 436

abbrev pub property_identifier_ipv6_prefix_length : ℕ
property_identifier_ipv6_prefix_length = 437

abbrev pub property_identifier_bacnet_ipv6_udp_port : ℕ
property_identifier_bacnet_ipv6_udp_port = 438

abbrev pub property_identifier_ipv6_default_gateway : ℕ
property_identifier_ipv6_default_gateway = 439

abbrev pub property_identifier_ipv6_dns_server : ℕ
property_identifier_ipv6_dns_server = 441

abbrev pub property_identifier_max_info_frames : ℕ
property_identifier_max_info_frames = 63

abbrev pub property_identifier_max_master : ℕ
property_identifier_max_master = 64

abbrev pub property_identifier_max_apdu_length_accepted : ℕ
property_identifier_max_apdu_length_accepted = 62

abbrev pub property_identifier_network_number : ℕ
property_identifier_network_number = 425

abbrev pub mstp_max_apdu_length : ℕ
mstp_max_apdu_length = 480

abbrev pub network_port_command_discard_changes : ℕ
network_port_command_discard_changes = 1

abbrev pub object_type_analog_input : ℕ
object_type_analog_input = 0

abbrev pub object_type_analog_output : ℕ
object_type_analog_output = 1

abbrev pub object_type_analog_value : ℕ
object_type_analog_value = 2

abbrev pub object_type_binary_input : ℕ
object_type_binary_input = 3

abbrev pub object_type_binary_output : ℕ
object_type_binary_output = 4

abbrev pub object_type_device : ℕ
object_type_device = 8

abbrev pub object_type_multi_state_input : ℕ
object_type_multi_state_input = 13

abbrev pub object_type_multi_state_output : ℕ
object_type_multi_state_output = 14

abbrev pub object_type_network_port : ℕ
object_type_network_port = 56

abbrev pub object_type_notification_class : ℕ
object_type_notification_class = 15

abbrev pub property_identifier_object_name : ℕ
property_identifier_object_name = 77

abbrev pub property_identifier_description : ℕ
property_identifier_description = 28

abbrev pub property_identifier_vendor_name : ℕ
property_identifier_vendor_name = 121

abbrev pub property_identifier_model_name : ℕ
property_identifier_model_name = 70

abbrev pub property_identifier_firmware_revision : ℕ
property_identifier_firmware_revision = 44

abbrev pub property_identifier_application_software_version : ℕ
property_identifier_application_software_version = 12

abbrev pub property_identifier_apdu_length : ℕ
property_identifier_apdu_length = 399

abbrev pub property_identifier_ip_address : ℕ
property_identifier_ip_address = 400

abbrev pub property_identifier_ip_default_gateway : ℕ
property_identifier_ip_default_gateway = 401

abbrev pub property_identifier_bacnet_ip_mode : ℕ
property_identifier_bacnet_ip_mode = 408

abbrev pub property_identifier_ip_subnet_mask : ℕ
property_identifier_ip_subnet_mask = 411

abbrev pub property_identifier_bacnet_ip_udp_port : ℕ
property_identifier_bacnet_ip_udp_port = 412

abbrev pub property_identifier_link_speed : ℕ
property_identifier_link_speed = 420

abbrev pub property_identifier_mac_address : ℕ
property_identifier_mac_address = 423

abbrev pub property_identifier_number_of_states : ℕ
property_identifier_number_of_states = 74

abbrev pub property_identifier_out_of_service : ℕ
property_identifier_out_of_service = 81

abbrev pub property_identifier_polarity : ℕ
property_identifier_polarity = 84

abbrev pub property_identifier_present_value : ℕ
property_identifier_present_value = 85

abbrev pub property_identifier_priority_array : ℕ
property_identifier_priority_array = 87

abbrev pub property_identifier_relinquish_default : ℕ
property_identifier_relinquish_default = 104

abbrev pub property_identifier_reference_port : ℕ
property_identifier_reference_port = 483

abbrev pub property_identifier_state_text : ℕ
property_identifier_state_text = 110

abbrev pub property_identifier_status_flags : ℕ
property_identifier_status_flags = 111

abbrev pub property_identifier_units : ℕ
property_identifier_units = 117

abbrev pub property_identifier_vendor_identifier : ℕ
property_identifier_vendor_identifier = 120

abbrev pub engineering_units_degrees_celsius : ℕ
engineering_units_degrees_celsius = 62

abbrev pub engineering_units_percent : ℕ
engineering_units_percent = 98

abbrev pub polarity_normal : ℕ
polarity_normal = 0

abbrev pub bacnet_ip_mode_normal : ℕ
bacnet_ip_mode_normal = 0

abbrev pub service_read_property : ℕ
service_read_property = 12

abbrev pub service_read_property_multiple : ℕ
service_read_property_multiple = 14

abbrev pub dcc_enable : ℕ
dcc_enable = 0

abbrev pub dcc_disable : ℕ
dcc_disable = 1

abbrev pub dcc_disable_initiation : ℕ
dcc_disable_initiation = 2

abbrev pub reinitialize_state_coldstart : ℕ
reinitialize_state_coldstart = 0

abbrev pub reinitialize_state_warmstart : ℕ
reinitialize_state_warmstart = 1

abbrev pub error_code_password_failure : ℕ
error_code_password_failure = 26

abbrev pub error_code_value_out_of_range : ℕ
error_code_value_out_of_range = 37

abbrev pub error_code_invalid_array_index : ℕ
error_code_invalid_array_index = 42

abbrev pub error_code_optional_functionality_not_supported : ℕ
error_code_optional_functionality_not_supported = 45

abbrev pub network_port_reference_port_none : ℕ
network_port_reference_port_none = 4194303
