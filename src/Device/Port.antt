-- ===== src/Device/Port.antt =====
-- main.cpp, section 1b: the properties of the IPv6 and MS/TP Network Ports.
pub mod Clamp
use bacnet_profile_example_b.Base.{
  ℕ, ◌&&◌, ◌||◌, not, List, [], ◌∷◌, Option, none, some, if◌then◌else◌, leb, ltb, ◌==◌,
}
use bacnet_profile_example_b.Options.{DataLink, same_link}
use bacnet_profile_example_b.Floats.{Floats}
use bacnet_profile_example_b.Base.Text.{codes}
use bacnet_profile_example_b.Device.{
  Device, Query, Verdict, accepted, declined, is_data_link_port, active_network_port_instance,
}
use bacnet_profile_example_b.Bacnet.{
  object_type_device, object_type_network_port, property_identifier_link_speed,
  property_identifier_max_apdu_length_accepted, mstp_max_apdu_length,
  property_identifier_ipv6_prefix_length, property_identifier_bacnet_ipv6_udp_port,
  property_identifier_ipv6_dns_server, property_identifier_max_master,
  property_identifier_max_info_frames, property_identifier_ipv6_address,
  property_identifier_ipv6_default_gateway, property_identifier_mac_address,
}

-- The name of the IPv6, MS/TP or SC port, when it is the active one.
unfoldable pub data_link_port_name : Device → ℕ → ℕ → Option (List ℕ)
unfolding active_network_port_instance
data_link_port_name d object_type object_instance =
    if not (object_type == object_type_network_port)
      || not (object_instance == active_network_port_instance d)
    then none
    else elim d.options.data_link [
      | DataLink.ipv6 ↦ some (codes "Cerulean")
      | DataLink.mstp ↦ some (codes "Amber")
      | DataLink.sc ↦ some (codes "Teal")
      | DataLink.ipv4 ↦ none
    ]

unfoldable pub get_data_link_port_real : Floats → Device → Query → Option ℕ
unfolding is_data_link_port
get_data_link_port_real fl d q =
    if not (q.property_identifier == property_identifier_link_speed)
    then none
    else if is_data_link_port d q.object_type q.object_instance DataLink.mstp
    then some (fl.float_of_uint d.options.mstp_baud_rate)
    else if is_data_link_port d q.object_type q.object_instance DataLink.ipv6
    then some d.link_speed
    else none

ipv6_port_unsigned : Device → Query → Option ℕ
ipv6_port_unsigned d q =
    if q.property_identifier == property_identifier_ipv6_prefix_length
    then some d.ipv6_address.prefix_length
    else if q.property_identifier == property_identifier_bacnet_ipv6_udp_port
    then some d.options.udp_port
    else if q.property_identifier == property_identifier_ipv6_dns_server
        && q.use_array_index
        && q.property_array_index == 0
        && d.ipv6_address.has_dns_server
    then some 1
    else none

mstp_port_unsigned : Device → Query → Option ℕ
mstp_port_unsigned d q =
    if q.property_identifier == property_identifier_max_master
    then some d.options.mstp_max_master
    else if q.property_identifier == property_identifier_max_info_frames
    then some d.options.mstp_max_info_frames
    else none

-- A port is one data link's only, so the tests of the two links exclude each other.
unfoldable pub get_data_link_port_unsigned : Device → Query → Option ℕ
unfolding is_data_link_port ipv6_port_unsigned mstp_port_unsigned
get_data_link_port_unsigned d q =
    if same_link d.options.data_link DataLink.mstp
      && q.object_type == object_type_device
      && q.object_instance == d.device_instance
      && q.property_identifier == property_identifier_max_apdu_length_accepted
    then some mstp_max_apdu_length
    else if is_data_link_port d q.object_type q.object_instance DataLink.ipv6
    then ipv6_port_unsigned d q
    else if is_data_link_port d q.object_type q.object_instance DataLink.mstp
    then mstp_port_unsigned d q
    else none

-- The write at activation: stored within the range of its `uint8_t`, never refused on this port.
unfoldable pub set_data_link_port_unsigned : Device → Query → ℕ → Device × Verdict
unfolding is_data_link_port
set_data_link_port_unsigned d q value =
    if not (is_data_link_port d q.object_type q.object_instance DataLink.mstp)
    then (d, declined)
    else if q.property_identifier == property_identifier_max_master
    then (
      record d {
        options = record (d.options) { mstp_max_master = if ltb 127 value then 127 else value };
      },
      accepted,
    )
    else if q.property_identifier == property_identifier_max_info_frames
    then (
      record d {
        options = record (d.options) {
          mstp_max_info_frames = if ltb value 1 then 1 else if ltb 255 value then 255 else value;
        };
      },
      accepted,
    )
    else (d, accepted)

ipv6_port_octets : Device → Query → Option (List ℕ)
ipv6_port_octets d q =
    if q.property_identifier == property_identifier_ipv6_address
    then some d.ipv6_address.address
    else if q.property_identifier == property_identifier_ipv6_default_gateway
    then some d.ipv6_address.default_gateway
    else if q.property_identifier == property_identifier_ipv6_dns_server
        && d.ipv6_address.has_dns_server
        && (not q.use_array_index || q.property_array_index == 1)
    then some d.ipv6_address.dns_server
    else none

-- The octets copied into the stack's buffer of `max_element_count`.
unfoldable pub get_data_link_port_octet_string : Device → Query → ℕ → Option (List ℕ)
unfolding is_data_link_port ipv6_port_octets
get_data_link_port_octet_string d q max_element_count =
    if is_data_link_port d q.object_type q.object_instance DataLink.ipv6 && leb 16 max_element_count
    then ipv6_port_octets d q
    else if is_data_link_port d q.object_type q.object_instance DataLink.mstp
        && leb 1 max_element_count
        && q.property_identifier == property_identifier_mac_address
    then some (d.options.mstp_mac_address ∷ [])
    else none
