-- ===== src/Peer/Answer.antt =====
-- main.cpp: `HandleReplyFromPeer`, which every received datagram passes through. `none` stands for a
-- read past the octets received.
pub mod Safe
pub mod Effect
use bacnet_profile_example_b.Base.{
  ℕ, zero, suc, ◌+◌, ◌*◌, ◌/◌, ◌%◌, Bool, true, false, ◌&&◌, ◌||◌, not, List, [], Option, none,
  some, if◌then◌else◌, ◌==◌, ltb, leb, length, drop, take, get_elem?, get_or,
}
use bacnet_profile_example_b.Base.Text.{same_text}
use bacnet_profile_example_b.Options.{DataLink, same_link}
use bacnet_profile_example_b.Floats.{Floats}
use bacnet_profile_example_b.Device.{Device}
use bacnet_profile_example_b.Peer.{Controller, RemotePeer, set_diamond_reliability}
use bacnet_profile_example_b.Peer.Ack.{handle_read_property_ack, handle_read_property_multiple_ack}
use bacnet_profile_example_b.Bacnet.{
  reliability_unreliable_other, service_read_property, service_read_property_multiple,
}

abbrev pub is_ipv6 : Device → Bool
is_ipv6 d = same_link d.options.data_link DataLink.ipv6

-- How many octets of an IP connection string are the address.
abbrev pub transport_address_length : Device → ℕ
transport_address_length d = if is_ipv6 d then 16 else 4

abbrev pub transport_connection_string_length : Device → ℕ
transport_connection_string_length d = transport_address_length d + 2

-- Is the datagram from the bound peer's address and port?
unfoldable pub is_from_peer : Controller → List ℕ → ℕ → Bool
is_from_peer c from_address from_port =
    let n = transport_address_length c.device in
    let s = c.peer.connection_string in
    c.peer.bound
    && same_text (take n from_address) (take n s)
    && from_port == get_or s n 0 * 256 + get_or s (n + 1) 0

-- A header is skipped to a position, the datagram is left alone, or a read went past its end.
pub data Header : Type 0 where
  at_position : ℕ → Header
  ignored : Header
  past_end : Header

-- `message[i]`.
abbrev pub octet_of : List ℕ → ℕ → (ℕ → Header) → Header
octet_of message i k = elim (get_elem? message i) [ none ↦ past_end | some o ↦ k o ]

abbrev then_at : Header → (ℕ → Header) → Header
then_at (at_position p) k = k p
then_at ignored k = ignored
then_at past_end k = past_end

-- Two octets must be `a` and `b`, in a message of `size` octets at least; the first is tested first.
bvll : List ℕ → ℕ → ℕ → ℕ → Header
bvll message size a b =
    if ltb (length message) size
    then ignored
    else octet_of message 0 λ x.
      if not (x == a)
      then ignored
      else octet_of message 1 λ y. if not (y == b) then ignored else at_position size

-- DNET, DLEN and DADR, or SNET, SLEN and SADR, if the control bit is set.
skip_specifier : List ℕ → Bool → ℕ → Header
skip_specifier message present position =
    if not present
    then at_position position
    else if ltb (length message) (position + 3)
    then ignored
    else octet_of message (position + 2) λ len. at_position (position + 3 + len)

-- From the two address fields on, with the control octet.
skip_fields : List ℕ → ℕ → ℕ → Header
unfolding skip_specifier
skip_fields message control position =
    let has_destination = control / 32 % 2 == 1 in
    let has_source = control / 8 % 2 == 1 in
    if control / 128 % 2 == 1
    then ignored
    else then_at (skip_specifier message has_destination position) λ p.
      then_at (skip_specifier message has_source p)
        λ r. at_position (if has_destination then r + 1 else r)

npdu : List ℕ → ℕ → Header
unfolding skip_fields
npdu message position =
    if ltb (length message) (position + 2)
    then ignored
    else octet_of message position λ version.
      if not (version == 1)
      then ignored
      else octet_of message (position + 1) λ control. skip_fields message control (position + 2)

-- Where the APDU starts, with three octets at least behind it.
unfoldable pub apdu_position : Bool → List ℕ → Header
unfolding bvll npdu
apdu_position ipv6 message =
    then_at (if ipv6 then bvll message 10 0x82 0x01 else bvll message 4 0x81 0x0a) λ p.
      then_at (npdu message p) λ r. if ltb (length message) (r + 3) then ignored else at_position r

abbrev pub reject_reason_unrecognized_service : ℕ
reject_reason_unrecognized_service = 9

-- Any answer proves the peer reachable: the pending flag is cleared and the time is taken.
unfoldable pub note_answer : Controller → Bool → ℕ → Controller
note_answer c is_read_property now = record c {
  peer = record (c.peer) {
    read_property_pending = if is_read_property then false else c.peer.read_property_pending;
    read_property_multiple_pending =
        if is_read_property then c.peer.read_property_multiple_pending else false;
    last_answer = now;
  };
}

-- The peer does not know ReadPropertyMultiple.
unfoldable pub fall_back : Controller → Controller
fall_back c = record c {
  peer = record (c.peer) {
    read_property_multiple_unsupported = true;
    sensor_fault_reported = false;
  };
}

-- `first`, `service` are the APDU's octets 0 and 2. The answer has been noted in `c`.
unfoldable pub act_on_answer :
    Floats → Controller → Bool → Bool → ℕ → ℕ → List ℕ → Option Controller
unfolding fall_back handle_read_property_ack handle_read_property_multiple_ack
    set_diamond_reliability
act_on_answer fl c is_read_property is_multiple first service apdu =
    if is_multiple && first / 16 == 6 && service == reject_reason_unrecognized_service
    then some (fall_back c)
    else if not (first / 16 == 3) || first / 8 % 2 == 1
    then some (set_diamond_reliability c reliability_unreliable_other)
    else if is_read_property && service == service_read_property
    then handle_read_property_ack fl c apdu
    else if is_multiple && service == service_read_property_multiple
    then handle_read_property_multiple_ack fl c apdu
    else some c

-- With the APDU's first three octets in hand.
unfoldable pub answer_with : Floats → Controller → ℕ → ℕ → ℕ → ℕ → List ℕ → Option Controller
unfolding note_answer act_on_answer
answer_with fl c now first invoke_id service apdu =
    let is_read_property =
      c.peer.read_property_pending && invoke_id == c.peer.read_property_invoke_id in
    let is_multiple =
      c.peer.read_property_multiple_pending
      && invoke_id == c.peer.read_property_multiple_invoke_id in
    if not is_read_property && not is_multiple
    then some c
    else act_on_answer fl (note_answer c is_read_property now) is_read_property is_multiple first
        service apdu

handle_apdu : Floats → Controller → ℕ → List ℕ → Option Controller
unfolding answer_with
handle_apdu fl c now apdu = elim (get_elem? apdu 0) [
  | none ↦ none
  | some first ↦ elim (get_elem? apdu 1) [
    | none ↦ none
    | some invoke_id ↦ elim (get_elem? apdu 2) [
      | none ↦ none
      | some service ↦ answer_with fl c now first invoke_id service apdu
    ]
  ]
]

unfoldable pub handle_reply_from_peer :
    Floats → Controller → ℕ → List ℕ → List ℕ → ℕ → Option Controller
unfolding is_from_peer apdu_position handle_apdu
handle_reply_from_peer fl c now message from_address from_port =
    if not (is_from_peer c from_address from_port)
    then some c
    else elim (apdu_position (is_ipv6 c.device) message) [
      | ignored ↦ some c
      | past_end ↦ none
      | at_position p ↦ handle_apdu fl c now (drop p message)
    ]
