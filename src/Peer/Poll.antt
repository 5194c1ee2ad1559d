-- ===== src/Peer/Poll.antt =====
-- main.cpp: `HookIAm`, `PackReadPropertyElement` and `PollPeer`: the peer's address, the read that
-- is due, and the loss of communication. `BACnetStack_SendReadProperty` is the argument `send`: the
-- invoke id, or `none` where it returns false. Times are milliseconds, 1000 at least at a binding.
pub mod Watch
use bacnet_profile_example_b.Base.{
  ℕ, ◌+◌, ◌-◌, ◌*◌, ◌/◌, ◌%◌, ◌^◌, Bool, true, false, ◌&&◌, ◌||◌, not, List, [], ◌∷◌, ◌++◌, Option,
  none, some, if◌then◌else◌, ◌==◌, leb, ltb, length, take,
}
use bacnet_profile_example_b.Base.Text.{same_text}
use bacnet_profile_example_b.Options.{DataLink, same_link}
use bacnet_profile_example_b.Device.{Device, active_network_port_instance}
use bacnet_profile_example_b.Peer.{Controller, RemotePeer, set_diamond_reliability}
use bacnet_profile_example_b.Peer.Answer.{transport_connection_string_length}
use bacnet_profile_example_b.Bacnet.{
  remote_device_instance, remote_poll_interval_milliseconds, remote_comms_loss_milliseconds,
  remote_lost_poll_interval_milliseconds, remote_analog_input_instance, object_type_analog_input,
  property_identifier_present_value, property_identifier_status_flags, service_read_property,
  service_read_property_multiple, reliability_communication_failure,
}

abbrev pub milliseconds_since : ℕ → ℕ → ℕ
milliseconds_since now then' = (now - then') % 2 ^ 32

abbrev pub is_ip_data_link : Device → Bool
is_ip_data_link d =
    same_link d.options.data_link DataLink.ipv4 || same_link d.options.data_link DataLink.ipv6

-- The device's number, the source network and the address of an I-Am.
unfoldable pub hook_i_am : Controller → ℕ → ℕ → ℕ → List ℕ → Controller
hook_i_am c now device_identifier source_network connection_string =
    let p = c.peer in
    let moved = not p.bound || not (same_text p.connection_string connection_string) in
    let p' =
      if moved
      then record p {
        connection_string = connection_string;
        read_property_multiple_unsupported = false;
      }
      else p in
    if not (is_ip_data_link c.device)
      || not (device_identifier == remote_device_instance)
      || not (source_network == 0)
      || not (length connection_string == transport_connection_string_length c.device)
    then c
    else if p.bound
    then record c { peer = p' }
    else record c {
      peer = record p' {
        bound = true;
        last_answer = now;
        last_poll = now - remote_poll_interval_milliseconds;
      };
    }

-- Four octets, the least significant first.
abbrev pub little_endian : ℕ → List ℕ
little_endian n = n % 256 ∷ n / 256 % 256 ∷ n / 65536 % 256 ∷ n / 16777216 % 256 ∷ []

unfoldable pub pack_read_property_element : ℕ → ℕ → ℕ → List ℕ
pack_read_property_element object_type object_instance property =
    0 ∷ object_type % 256 ∷ object_type / 256 % 256 ∷ little_endian object_instance
    ++ (little_endian property ++ (0 ∷ 0 ∷ 0 ∷ 0 ∷ []))

-- The arguments of BACnetStack_SendReadProperty that vary.
pub record Request : Type 0 where
  pub service : ℕ
  pub connection_string : List ℕ
  pub network_port_instance : ℕ
  pub element_count : ℕ
  pub elements : List ℕ

-- The controller after a round, and the request it passed to the stack.
pub record Polled : Type 0 where
  pub controller : Controller
  pub request : Option Request

abbrev pub is_lost : Controller → ℕ → Bool
is_lost c now = ltb remote_comms_loss_milliseconds (milliseconds_since now c.peer.last_answer)

abbrev pub poll_interval : Bool → ℕ
poll_interval lost =
    if lost then remote_lost_poll_interval_milliseconds else remote_poll_interval_milliseconds

-- Is it ReadPropertyMultiple's turn, and does the peer know it?
abbrev pub use_multiple : Controller → Bool
use_multiple c = c.peer.poll_count % 2 == 1 && not c.peer.read_property_multiple_unsupported

unfoldable pub request_of : Controller → Bool → Request
unfolding pack_read_property_element
request_of c multiple =
    let value =
      pack_read_property_element object_type_analog_input remote_analog_input_instance
        property_identifier_present_value in
    let flags =
      pack_read_property_element object_type_analog_input remote_analog_input_instance
        property_identifier_status_flags in
    let count = if multiple then 2 else 1 in
    record {
      service = if multiple then service_read_property_multiple else service_read_property;
      connection_string =
          take (transport_connection_string_length c.device) c.peer.connection_string;
      network_port_instance = active_network_port_instance c.device;
      element_count = count;
      elements = take (count * 15) (value ++ flags);
    }

-- What the stack's answer leaves: the read is outstanding under its invoke id.
unfoldable pub note_sent : Controller → Bool → Option ℕ → Controller
note_sent c multiple none = c
note_sent c true (some invoke_id) = record c {
  peer = record (c.peer) {
    read_property_multiple_invoke_id = invoke_id;
    read_property_multiple_pending = true;
  };
}
note_sent c false (some invoke_id) = record c {
  peer = record (c.peer) { read_property_invoke_id = invoke_id; read_property_pending = true };
}

-- The round is counted.
abbrev pub counted : Controller → ℕ → Controller
counted c now = record c {
  peer = record (c.peer) { last_poll = now; poll_count = (c.peer.poll_count + 1) % 2 ^ 32 };
}

-- The read is due.
unfoldable pub send_read : (Request → Option ℕ) → Controller → ℕ → Polled
unfolding request_of note_sent
send_read send c now =
    let multiple = use_multiple c in
    let c' = counted c now in
    let request = request_of c' multiple in
    record { controller = note_sent c' multiple (send request); request = some request }

unfoldable pub poll_peer : (Request → Option ℕ) → Controller → ℕ → Polled
unfolding set_diamond_reliability send_read
poll_peer send c now =
    let lost = is_lost c now in
    let c' = if lost then set_diamond_reliability c reliability_communication_failure else c in
    if not c.peer.bound
    then record { controller = c; request = none }
    else if ltb (milliseconds_since now c.peer.last_poll) (poll_interval lost)
    then record { controller = c'; request = none }
    else send_read send c' now
