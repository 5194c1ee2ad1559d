-- ===== src/Transport.antt =====
-- main.cpp, the messages of the active data link: which broadcasts of the stack are copied to a peer
-- on another UDP port, the callbacks that receive and send, and the announcements. A connection string
-- is an address with the UDP port in two octets, or the hub's URI.
pub mod Messages
pub mod Safe
use Prim.Native.Nat.{bit_or}
use bacnet_profile_example_b.Base.{
  ℕ, ◌+◌, ◌-◌, ◌*◌, ◌/◌, ◌%◌, ◌^◌, Bool, true, false, not, ◌&&◌, ◌||◌, List, [], ◌∷◌, ◌++◌, Option,
  none, some, if◌then◌else◌, length, take, drop, get_elem?, get_or, replicate, map, ltb, leb, ◌==◌,
}
use bacnet_profile_example_b.Options.{DataLink, same_link}
use bacnet_profile_example_b.Device.{Device, active_network_port_instance}

-- `control & (1 << k)`
abbrev pub has_bit : ℕ → ℕ → Bool
has_bit octet k = octet / 2 ^ k % 2 == 1

-- Where the scan of the NPDU stands: refused, past the octets received, or at a position.
pub data Scan : Type 0 where
  refused past_end : Scan
  at_index : ℕ → Scan

abbrev pub after_length : ℕ → Option ℕ → Scan
after_length i none = past_end
after_length i (some n) = at_index (i + (3 + n))

-- A destination or source specifier: network (2 octets), length, address.
unfoldable pub skip_specifier : List ℕ → Bool → Scan → Scan
skip_specifier message present refused = refused
skip_specifier message present past_end = past_end
skip_specifier message false (at_index i) = at_index i
skip_specifier message true (at_index i) =
    if ltb (length message) (i + 3) then refused else after_length i (get_elem? message (i + 2))

-- The PDU type and the service choice of an I-Am or I-Have; none is a read past the octets.
abbrev pub is_i_am_or_i_have : Option ℕ → Option ℕ → Option Bool
is_i_am_or_i_have (some pdu) (some service) = some (pdu / 16 == 1 && (service == 0 || service == 1))
is_i_am_or_i_have (some pdu) none = none
is_i_am_or_i_have none service = none

unfoldable pub chosen_at : List ℕ → ℕ → Scan → Option Bool
chosen_at message control refused = some false
chosen_at message control past_end = none
chosen_at message control (at_index n) =
    let i = if has_bit control 5 then n + 1 else n in
    let apdu = is_i_am_or_i_have (get_elem? message i) (get_elem? message (i + 1)) in
    if has_bit control 7
    then some true
    else if leb (i + 2) (length message)
    then apdu
    else some false

unfoldable pub scan_npdu : List ℕ → Option ℕ → Option Bool
scan_npdu message none = none
scan_npdu message (some control) = chosen_at message control (
    skip_specifier message (has_bit control 3)
      (skip_specifier message (has_bit control 5) (at_index 6)))

-- The BVLC type and function, and the NPDU's version.
abbrev pub is_original_npdu : Option ℕ → Option ℕ → Option Bool
is_original_npdu (some type) (some function) =
    some (type == 129 && (function == 10 || function == 11))
is_original_npdu (some type) none = none
is_original_npdu none function = none

abbrev pub guarded : Option Bool → Option Bool → Option Bool
guarded none next = none
guarded (some false) next = some false
guarded (some true) next = next

abbrev pub is_version_1 : Option ℕ → Option Bool
is_version_1 none = none
is_version_1 (some version) = some (version == 1)

-- None: an octet past the end is read.
unfoldable pub is_stack_chosen_broadcast : List ℕ → Option Bool
is_stack_chosen_broadcast message =
    let original = is_original_npdu (get_elem? message 0) (get_elem? message 1) in
    let version = is_version_1 (get_elem? message 4) in
    let scanned = scan_npdu message (get_elem? message 5) in
    if ltb (length message) 6 then some false else guarded original (guarded version scanned)

-- The directed broadcast address and the port: `ip | ~mask` for each octet.
unfoldable pub local_broadcast_conn_string : Device → List ℕ
local_broadcast_conn_string d =
    let octet = λ (i : ℕ). bit_or (get_or d.ip_address i 0) (255 - get_or d.ip_subnet_mask i 0) in
    octet 0
    ∷ octet 1
    ∷ octet 2
    ∷ octet 3
    ∷ (d.bacnet_ip_udp_port / 256) % 256
    ∷ d.bacnet_ip_udp_port % 256
    ∷ []

unfoldable pub ipv6_multicast_connection_string : Device → List ℕ
ipv6_multicast_connection_string d =
    (255 ∷ 2 ∷ replicate 12 0)
    ++ (186 ∷ 192 ∷ (d.options.udp_port / 256) % 256 ∷ d.options.udp_port % 256 ∷ [])

-- `g_lastPeerIp`, `g_lastPeerPort` and `g_hasLastPeer`.
pub record LastPeer : Type 0 where
  pub ip : List ℕ
  pub port : ℕ
  pub has : Bool

-- What is handed to a socket: to an address and port, or to the multicast group.
pub data Outgoing : Type 0 where
  unicast : List ℕ → ℕ → List ℕ → Outgoing
  multicast : List ℕ → Outgoing

-- How many octets a send function of the UDP sockets says it sent.
abbrev pub Udp : Type 0
Udp = Outgoing → ℕ

-- `(connectionString[n] << 8) | connectionString[n + 1]`
abbrev pub port_at : List ℕ → ℕ → ℕ
port_at connection_string n =
    get_or connection_string n 0 * 256 + get_or connection_string (n + 1) 0

-- What a send function answers, and what went out.
pub record Sent : Type 0 where
  pub count : ℕ
  pub outgoing : List Outgoing

abbrev pub nothing_sent : Sent
nothing_sent = record { count = 0; outgoing = [] }

abbrev pub copy_to_peer : LastPeer → List ℕ → Option Bool → List Outgoing
copy_to_peer peer message (some true) = unicast peer.ip peer.port message ∷ []
copy_to_peer peer message (some false) = []
copy_to_peer peer message none = []

unfoldable pub broadcast_udp : Udp → Device → LastPeer → List ℕ → Sent
broadcast_udp udp d peer message =
    let destination = local_broadcast_conn_string d in
    let first = unicast (take 4 destination) (port_at destination 4) message in
    let copies = copy_to_peer peer message (is_stack_chosen_broadcast message) in
    record { count = udp first; outgoing = first ∷ (if peer.has then copies else []) }

-- No connection string (`NULL`, or a length of 0) is the empty one.
unfoldable pub send_to_udp : Udp → Device → LastPeer → List ℕ → List ℕ → Sent
send_to_udp udp d peer message [] = broadcast_udp udp d peer message
send_to_udp udp d peer message (c ∷ cs) =
    let first = unicast (take 4 (c ∷ cs)) (port_at (c ∷ cs) 4) message in
    if ltb (length (c ∷ cs)) 6
    then nothing_sent
    else record { count = udp first; outgoing = first ∷ [] }

unfoldable pub send_to_udp6 : Udp → List ℕ → List ℕ → Bool → Sent
send_to_udp6 udp message connection_string broadcast =
    let group = multicast message in
    let peer = unicast (take 16 connection_string) (port_at connection_string 16) message in
    if broadcast || length connection_string == 0
    then record { count = udp group; outgoing = group ∷ [] }
    else if ltb (length connection_string) 18
    then nothing_sent
    else record { count = udp peer; outgoing = peer ∷ [] }
