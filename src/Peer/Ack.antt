-- ===== src/Peer/Ack.antt =====
-- main.cpp: `HandleReadPropertyAck` and `HandleReadPropertyMultipleAck`. Each walks over the tags of
-- the APDU; `none` stands for a read past its end.
pub mod Total
pub mod Decode
use bacnet_profile_example_b.Base.{
  ℕ, zero, suc, ◌+◌, Bool, true, false, ◌&&◌, ◌||◌, not, List, Option, none, some, if◌then◌else◌,
  ◌==◌, length,
}
use bacnet_profile_example_b.Floats.{Floats}
use bacnet_profile_example_b.Peer.{
  Controller, RemotePeer, set_diamond_reliability, update_diamond_from_peer,
}
use bacnet_profile_example_b.Peer.Tag.{
  Tag, value, opening, same_kind, Read, got, nothing, fault, read_tag, content_unsigned,
  content_real, content_status_flags_fault,
}
use bacnet_profile_example_b.Bacnet.{
  property_identifier_present_value, property_identifier_status_flags,
  reliability_no_fault_detected, reliability_unreliable_other,
}

-- Is this a context tag of the given kind and number?
abbrev pub is_value : Tag → ℕ → Bool
is_value t n = t.is_context && same_kind t.kind value && t.number == n

abbrev pub is_opening : Tag → ℕ → Bool
is_opening t n = t.is_context && same_kind t.kind opening && t.number == n

-- The walk's outcome: the reading at the first opening tag 3, or nothing usable.
abbrev pub Reading : Type 0
Reading = Read ℕ

-- The property identifier after this tag.
property_after : List ℕ → Tag → ℕ → ℕ → Read ℕ
unfolding content_unsigned
property_after octets t n property =
    if is_value t n then content_unsigned octets t else got property

-- The value inside the opening tag `t`.
value_inside : List ℕ → Tag → Read ℕ
unfolding read_tag content_real
value_inside octets t = elim (read_tag octets t.next) [
  | got inner ↦ content_real octets inner
  | nothing ↦ nothing
  | fault ↦ fault
]

-- The `while` of HandleReadPropertyAck; out of fuel it is `fault`, as a loop without end would be.
unfoldable pub find_reading : ℕ → List ℕ → ℕ → ℕ → Reading
unfolding property_after value_inside read_tag
find_reading zero octets position property = fault
find_reading (suc fuel) octets position property = elim (read_tag octets position) [
  | nothing ↦ nothing
  | fault ↦ fault
  | got t ↦ elim (property_after octets t 1 property) [
    | nothing ↦ nothing
    | fault ↦ fault
    | got property' ↦ elim (is_opening t 3) [
      | true ↦
          if property' == property_identifier_present_value then value_inside octets t else nothing
      | false ↦ find_reading fuel octets t.next property'
    ]
  ]
]

-- A good reading: Diamond takes it, and is reliable.
unfoldable pub take_reading : Floats → Controller → ℕ → Controller
unfolding update_diamond_from_peer set_diamond_reliability
take_reading fl c humidity =
    set_diamond_reliability (update_diamond_from_peer fl c humidity) reliability_no_fault_detected

unfoldable pub handle_read_property_ack : Floats → Controller → List ℕ → Option Controller
unfolding find_reading take_reading
handle_read_property_ack fl c apdu = elim (find_reading (length apdu + 1) apdu 3 0) [
  | fault ↦ none
  | nothing ↦ some c
  | got humidity ↦
      if c.peer.sensor_fault_reported then some c else some (take_reading fl c humidity)
]

-- What the loop of HandleReadPropertyMultipleAck has collected: `haveHumidity` with `humidity`, and
-- `haveFault` with `fault`.
pub record Collected : Type 0 where
  pub property : ℕ
  pub humidity : Option ℕ
  pub sensor_fault : Option Bool

with_humidity : Collected → Read ℕ → Read Collected
with_humidity k (got v) = got (record k { humidity = some v })
with_humidity k nothing = got (record k { humidity = none })
with_humidity k fault = fault

with_fault : Collected → Read Bool → Read Collected
with_fault k (got b) = got (record k { sensor_fault = some b })
with_fault k nothing = got (record k { sensor_fault = none })
with_fault k fault = fault

collect_value : List ℕ → Tag → Collected → Read Collected
unfolding with_humidity with_fault content_real content_status_flags_fault
collect_value octets inner k =
    if k.property == property_identifier_present_value
    then with_humidity k (content_real octets inner)
    else if k.property == property_identifier_status_flags
    then with_fault k (content_status_flags_fault octets inner)
    else got k

collect_inside : List ℕ → Tag → Collected → Read Collected
unfolding collect_value read_tag
collect_inside octets t k = elim (read_tag octets t.next) [
  | got inner ↦ collect_value octets inner k
  | nothing ↦ got k
  | fault ↦ fault
]

with_property : Collected → Read ℕ → Read Collected
with_property k (got p) = got (record k { property = p })
with_property k nothing = got k
with_property k fault = fault

-- One round of the loop on the tag `t`.
unfoldable pub collect_tag : List ℕ → Tag → Collected → Read Collected
unfolding with_property content_unsigned collect_inside
collect_tag octets t k =
    if is_value t 2
    then with_property k (content_unsigned octets t)
    else if is_opening t 4
    then collect_inside octets t k
    else got k

unfoldable pub collect : ℕ → List ℕ → ℕ → Collected → Read Collected
unfolding collect_tag read_tag
collect zero octets position k = fault
collect (suc fuel) octets position k = elim (read_tag octets position) [
  | nothing ↦ got k
  | fault ↦ fault
  | got t ↦ elim (collect_tag octets t k) [
    | nothing ↦ nothing
    | fault ↦ fault
    | got k' ↦ collect fuel octets t.next k'
  ]
]

-- Both values are there: the peer's own fault decides.
unfoldable pub act_on_collected : Floats → Controller → ℕ → Bool → Controller
unfolding set_diamond_reliability take_reading
act_on_collected fl c humidity sensor_fault =
    let c' = record c { peer = record (c.peer) { sensor_fault_reported = sensor_fault } } in
    if sensor_fault
    then set_diamond_reliability c' reliability_unreliable_other
    else take_reading fl c' humidity

unfoldable pub act_on : Floats → Controller → Option ℕ → Option Bool → Controller
unfolding act_on_collected
act_on fl c (some humidity) (some sensor_fault) = act_on_collected fl c humidity sensor_fault
act_on fl c _ _ = c

abbrev pub nothing_collected : Collected
nothing_collected = record { property = 0; humidity = none; sensor_fault = none }

unfoldable pub handle_read_property_multiple_ack : Floats → Controller → List ℕ → Option Controller
unfolding collect act_on
handle_read_property_multiple_ack fl c apdu =
    elim (collect (length apdu + 1) apdu 3 nothing_collected) [
      | got k ↦ some (act_on fl c k.humidity k.sensor_fault)
      | nothing ↦ some c
      | fault ↦ none
    ]
