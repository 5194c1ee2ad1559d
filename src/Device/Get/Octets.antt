-- ===== src/Device/Get/Octets.antt =====
-- main.cpp: `GetPropertyOctetString`.
use bacnet_profile_example_b.Base.{ℕ, ◌||◌, not, List, none, some, if◌then◌else◌, ◌==◌, ltb}
use bacnet_profile_example_b.Options.{DataLink, same_link}
use bacnet_profile_example_b.Device.{Device, Query, Reply, answer, decline}
use bacnet_profile_example_b.Device.Port.{get_data_link_port_octet_string}
use bacnet_profile_example_b.Bacnet.{
  object_type_network_port, network_port_instance, property_identifier_ip_address,
  property_identifier_ip_subnet_mask, property_identifier_ip_default_gateway,
}

ipv4_source : Device → ℕ → Reply (List ℕ)
ipv4_source d property_identifier =
    if property_identifier == property_identifier_ip_address
    then answer d.ip_address
    else if property_identifier == property_identifier_ip_subnet_mask
    then answer d.ip_subnet_mask
    else if property_identifier == property_identifier_ip_default_gateway
    then answer d.ip_default_gateway
    else decline

ipv4_octets : Device → Query → ℕ → Reply (List ℕ)
unfolding ipv4_source
ipv4_octets d q max_element_count =
    if not (q.device_instance == d.device_instance)
      || not (same_link d.options.data_link DataLink.ipv4)
      || not (q.object_type == object_type_network_port)
      || not (q.object_instance == network_port_instance)
      || ltb max_element_count 4
    then decline
    else ipv4_source d q.property_identifier

-- The octets copied into the stack's buffer of `max_element_count`.
unfoldable pub get_property_octet_string : Device → Query → ℕ → Reply (List ℕ)
unfolding get_data_link_port_octet_string ipv4_octets
get_property_octet_string d q max_element_count =
    if q.device_instance == d.device_instance
    then elim (get_data_link_port_octet_string d q max_element_count) [
      | some octets ↦ answer octets
      | none ↦ ipv4_octets d q max_element_count
    ]
    else ipv4_octets d q max_element_count
