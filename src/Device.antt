-- ===== src/Device.antt =====
-- main.cpp: the device's state (the globals of the file), the questions that the stack's callbacks
-- ask, and their answers. The model is of the build with BACnet/SC (BBC_WITH_SC).
pub mod Port
pub mod Get
pub mod Set
pub mod Ivory
pub mod Password
pub mod Services
pub mod Commands
pub mod Invariant
pub mod Restart
use bacnet_profile_example_b.Base.{
  ℕ, Bool, true, false, List, Option, none, some, ◌==◌, ◌&&◌, if◌then◌else◌,
}
use bacnet_profile_example_b.Options.{CommandLineOptions, DataLink, same_link}
use bacnet_profile_example_b.Priority.{Commandable}
use bacnet_profile_example_b.ScNode.{ScState, is_certificate_file}
use bacnet_profile_example_b.Bacnet.{
  object_type_analog_output, object_type_binary_output, object_type_multi_state_output,
  analog_output_instance, binary_output_instance, multi_state_output_instance, object_type_file,
  object_type_network_port, network_port_instance, ipv6_network_port_instance,
  mstp_network_port_instance, sc_network_port_instance,
}

-- `LocalIPv6Address`, as far as main.cpp reads it.
pub record Ipv6Address : Type 0 where
  pub address : List ℕ
  pub prefix_length : ℕ
  pub default_gateway : List ℕ
  pub has_dns_server : Bool
  pub dns_server : List ℕ

-- `g_fileData`, `g_fileDataLength` and `g_fileArchive`: File 1, "Ivory".
pub record IvoryFile : Type 0 where
  pub buffer : List ℕ
  pub used : ℕ
  pub archive : Bool

-- The restart that the helper holds for the main loop.
pub data RestartKind : Type 0 where
  cold warm : RestartKind

-- Floats are bit patterns, here and in the commandable values.
pub record Device : Type 0 where
  pub device_instance : ℕ
  pub device_name : List ℕ
  -- The stack's version, as text.
  pub firmware_revision : List ℕ
  pub options : CommandLineOptions
  pub link_speed : ℕ
  pub ip_address : List ℕ
  pub ip_subnet_mask : List ℕ
  pub ip_default_gateway : List ℕ
  pub bacnet_ip_udp_port : ℕ
  pub ipv6_address : Ipv6Address
  pub analog_input_value : ℕ
  pub analog_output : Commandable
  pub binary_output : Commandable
  pub multi_state_output : Commandable
  pub analog_value : ℕ
  pub diamond_reliability : ℕ
  pub ivory : IvoryFile
  pub sc : ScState

-- What a property callback is asked.
pub record Query : Type 0 where
  pub device_instance : ℕ
  pub object_type : ℕ
  pub object_instance : ℕ
  pub property_identifier : ℕ
  pub use_array_index : Bool
  pub property_array_index : ℕ

-- A Get callback answers, declines (`false` with no error code), or fails with an error code.
pub data Reply {ℓ} (A : Type ℓ) : Type ℓ where
  answer : A → Reply A
  decline : Reply A
  fail : ℕ → Reply A

-- A Set callback or a service: `true`, `false` alone, or `false` with an error code.
pub data Verdict : Type 0 where
  accepted declined : Verdict
  rejected : ℕ → Verdict

-- Which of the three commandable outputs `GetCommandable` points at.
pub data Output : Type 0 where
  analog binary multi_state : Output

abbrev pub commandable : Device → Output → Commandable
commandable d analog = d.analog_output
commandable d binary = d.binary_output
commandable d multi_state = d.multi_state_output

abbrev pub with_commandable : Device → Output → Commandable → Device
with_commandable d analog c = record d { analog_output = c }
with_commandable d binary c = record d { binary_output = c }
with_commandable d multi_state c = record d { multi_state_output = c }

unfoldable pub get_commandable : ℕ → ℕ → Option Output
get_commandable object_type object_instance =
    if object_type == object_type_analog_output && object_instance == analog_output_instance
    then some analog
    else if object_type == object_type_binary_output && object_instance == binary_output_instance
    then some binary
    else if object_type == object_type_multi_state_output
        && object_instance == multi_state_output_instance
    then some multi_state
    else none

unfoldable pub active_network_port_instance : Device → ℕ
active_network_port_instance d = elim d.options.data_link [
  | DataLink.ipv6 ↦ ipv6_network_port_instance
  | DataLink.mstp ↦ mstp_network_port_instance
  | DataLink.sc ↦ sc_network_port_instance
  | DataLink.ipv4 ↦ network_port_instance
]

-- Is this the active port, and is it the given data link's?
unfoldable pub is_data_link_port : Device → ℕ → ℕ → DataLink → Bool
unfolding active_network_port_instance
is_data_link_port d object_type object_instance data_link =
    same_link d.options.data_link data_link
    && object_type == object_type_network_port
    && object_instance == active_network_port_instance d

unfoldable pub is_sc_certificate_file : Device → ℕ → ℕ → Bool
unfolding is_certificate_file
is_sc_certificate_file d object_type object_instance =
    same_link d.options.data_link DataLink.sc
    && object_type == object_type_file
    && is_certificate_file object_instance
