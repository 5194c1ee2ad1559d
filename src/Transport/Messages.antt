-- ===== src/Transport/Messages.antt =====
-- main.cpp: the stack's message callbacks and the announcements, on the active data link.
use bacnet_profile_example_b.Base.{
  ℕ, ◌/◌, ◌%◌, Bool, true, not, ◌&&◌, List, [], ◌∷◌, ◌++◌, Option, none, some, if◌then◌else◌, take,
  length, ltb, ◌==◌,
}
use bacnet_profile_example_b.Options.{DataLink, same_link}
use bacnet_profile_example_b.Floats.{Floats}
use bacnet_profile_example_b.Device.{Device, active_network_port_instance}
use bacnet_profile_example_b.Peer.{Controller}
use bacnet_profile_example_b.Peer.Answer.{
  handle_reply_from_peer, transport_address_length, transport_connection_string_length,
}
use bacnet_profile_example_b.ScNode.{connected_hub_uri}
use bacnet_profile_example_b.ScNode.Hub.{receive_from_hub, send_to_hub}
use bacnet_profile_example_b.HubConnector.{Connector, ReceivedFrame}
use bacnet_profile_example_b.Bacnet.{
  network_port_instance, ipv6_network_port_instance, mstp_network_port_instance,
  sc_network_port_instance,
}
use bacnet_profile_example_b.Transport.{
  LastPeer, Udp, Sent, nothing_sent, send_to_udp, send_to_udp6, local_broadcast_conn_string,
  ipv6_multicast_connection_string,
}

abbrev pub mstp_broadcast_mac_address : ℕ
mstp_broadcast_mac_address = 255

abbrev pub global_broadcast_network : ℕ
global_broadcast_network = 65535

-- What the callbacks work on.
pub record Endpoint : Type 0 where
  pub controller : Controller
  pub hub : Connector
  pub last_peer : LastPeer

-- A datagram that a UDP socket gives; no datagram when it gives 0 octets.
pub record Datagram : Type 0 where
  pub address : List ℕ
  pub port : ℕ
  pub octets : List ℕ

-- The message for the stack and its source connection string.
pub record Incoming : Type 0 where
  pub octets : List ℕ
  pub source : List ℕ

unfoldable pub remember_peer : Device → Datagram → LastPeer → LastPeer
remember_peer d datagram peer =
    if same_link d.options.data_link DataLink.ipv4 && not (datagram.port == d.options.udp_port)
    then record { ip = take 4 datagram.address; port = datagram.port; has = true }
    else peer

-- `fromConnectionString`
unfoldable pub source_of : Device → Datagram → List ℕ
source_of d datagram =
    take (transport_address_length d) datagram.address
    ++ ((datagram.port / 256) % 256 ∷ datagram.port % 256 ∷ [])

abbrev pub with_controller :
    Endpoint → Datagram → Option Controller → Option (Endpoint × Option Incoming)
with_controller t datagram none = none
with_controller t datagram (some c) = some (
  record t { controller = c; last_peer = remember_peer t.controller.device datagram t.last_peer },
  some (record { octets = datagram.octets; source = source_of t.controller.device datagram }),
)

unfoldable pub take_datagram :
    Floats → ℕ → Endpoint → Option Datagram → Option (Endpoint × Option Incoming)
take_datagram fl now t none = some (t, none)
take_datagram fl now t (some datagram) =
    with_controller t datagram
      (handle_reply_from_peer fl t.controller now datagram.octets datagram.address datagram.port)

-- `ReceiveFromUdp`; none: the handler of replies reads past the datagram.
unfoldable pub receive_from_udp :
    Floats → ℕ → ℕ → Option Datagram → Endpoint → Option (Endpoint × Option Incoming)
receive_from_udp fl now max_connection_string_length datagram t =
    let taken = take_datagram fl now t datagram in
    if ltb max_connection_string_length (transport_connection_string_length t.controller.device)
    then some (t, none)
    else taken

abbrev pub from_hub : Endpoint → Connector × Option ReceivedFrame → Endpoint × Option Incoming
from_hub t (hub, none) = (record t { hub = hub }, none)
from_hub t (hub, some frame) =
    (record t { hub = hub }, some (record { octets = frame.octets; source = frame.uri }))

-- `datagram` is what the UDP socket has.
unfoldable pub callback_receive_message :
    Floats
    → ℕ
    → (max_message_length max_connection_string_length : ℕ) → Option Datagram
    → Endpoint
    → Option (Endpoint × Option Incoming)
callback_receive_message fl now max_message_length max_connection_string_length datagram t =
    let udp = receive_from_udp fl now max_connection_string_length datagram t in
    let hub = from_hub t (receive_from_hub max_message_length max_connection_string_length t.hub) in
    elim t.controller.device.options.data_link [
      | DataLink.ipv4 ↦ udp
      | DataLink.ipv6 ↦ udp
      | DataLink.sc ↦ some hub
      | DataLink.mstp ↦ some (t, none)
    ]

abbrev pub to_hub : Endpoint → Connector × ℕ → Endpoint × Sent
to_hub t (hub, count) = (record t { hub = hub }, record { count = count; outgoing = [] })

unfoldable pub callback_send_message : Udp → List ℕ → List ℕ → ℕ → Bool → Endpoint → Endpoint × Sent
callback_send_message udp message connection_string network_port broadcast t =
    let d = t.controller.device in
    let ipv4 : Endpoint × Sent = (t, send_to_udp udp d t.last_peer message connection_string) in
    let ipv6 : Endpoint × Sent = (t, send_to_udp6 udp message connection_string broadcast) in
    let hub = to_hub t (send_to_hub message connection_string t.hub) in
    let sent : Endpoint × Sent = elim d.options.data_link [
      | DataLink.ipv4 ↦ ipv4
      | DataLink.ipv6 ↦ ipv6
      | DataLink.sc ↦ hub
      | DataLink.mstp ↦ (t, nothing_sent)
    ] in
    if not (network_port == active_network_port_instance d) then (t, nothing_sent) else sent

-- The arguments of BACnetStack_SendIAm or BACnetStack_SendWhoIs that vary.
pub record Announcement : Type 0 where
  pub connection_string : List ℕ
  pub network_port : ℕ
  pub network : ℕ

-- The length of the hub's URI is passed as a `uint8_t`.
abbrev pub to_connected_hub : List ℕ → Option Announcement
to_connected_hub [] = none
to_connected_hub (c ∷ cs) = some (record {
  connection_string = take (length (c ∷ cs) % 256) (c ∷ cs);
  network_port = sc_network_port_instance;
  network = 0;
})

unfoldable pub announcement : ℕ → Device → Option Announcement
announcement mstp_network d = elim d.options.data_link [
  | DataLink.ipv4 ↦ some (record {
    connection_string = local_broadcast_conn_string d;
    network_port = network_port_instance;
    network = 0;
  })
  | DataLink.ipv6 ↦ some (record {
    connection_string = ipv6_multicast_connection_string d;
    network_port = ipv6_network_port_instance;
    network = 0;
  })
  | DataLink.mstp ↦ some (record {
    connection_string = mstp_broadcast_mac_address ∷ [];
    network_port = mstp_network_port_instance;
    network = mstp_network;
  })
  | DataLink.sc ↦ to_connected_hub (connected_hub_uri d.sc)
]

unfoldable pub send_i_am_broadcast : Device → Option Announcement
send_i_am_broadcast d = announcement 0 d

unfoldable pub send_who_is_broadcast : Device → Option Announcement
send_who_is_broadcast d = announcement global_broadcast_network d
