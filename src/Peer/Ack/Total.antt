-- ===== src/Peer/Ack/Total.antt =====
-- The two ACK handlers on any octets: the walks end, and never read past the end of the APDU.
use bacnet_profile_example_b.Base.{
  Bool, ◌==◌, ℕ, zero, suc, ◌+◌, ◌<◌, ◌≡◌, ◌≢◌, refl, List, some, length, arith, inl, inr,
  Bool-cases,
}
use bacnet_profile_example_b.Floats.{Floats}
use bacnet_profile_example_b.Peer.{Controller}
use bacnet_profile_example_b.Bacnet.{
  property_identifier_present_value, property_identifier_status_flags,
}
use bacnet_profile_example_b.Peer.Tag.{Read, nothing, Tag, got, fault, read_tag}
use bacnet_profile_example_b.Peer.Tag.Bounds.{
  Read-cases, read_tag-cases, content_unsigned-got, content_real-ne-fault,
  content_status_flags_fault-ne-fault,
}
use bacnet_profile_example_b.Peer.Ack.{
  property_after, value_inside, Collected, collect_value, collect_inside, collect_tag, collect,
  handle_read_property_multiple_ack, is_opening, with_humidity, with_fault, with_property,
  nothing_collected, act_on, take_reading, find_reading, handle_read_property_ack, is_value,
}

property_after-got :
    (octets : List ℕ) (position : ℕ) (t : Tag) (n property : ℕ)
    → read_tag octets position ≡ got t
    → (p : ℕ) × (property_after octets t n property ≡ got p)
unfolding property_after
property_after-got octets position t n property e =
    let (v, f) = content_unsigned-got octets position t e in
    elim (Bool-cases (is_value t n)) [ inl yes' ↦ (v, rw yes' f) | inr no' ↦ (property, rw no') ]

value_inside-ne-fault : (octets : List ℕ) (t : Tag) → value_inside octets t ≢ fault
unfolding value_inside
value_inside-ne-fault octets t = elim (read_tag-cases octets t.next) [
  | inl (inner, e, low, high) ↦ rw (e, value_inside) (content_real-ne-fault octets t.next inner e)
  | inr e ↦ λ p. ground (arith, e)
]

-- With fuel for every octet still ahead the walk neither runs out nor leaves the APDU.
find_reading-ne-fault :
    (fuel : ℕ) (octets : List ℕ) (position property : ℕ)
    → 0 < fuel
    → length octets < fuel + position
    → find_reading fuel octets position property ≢ fault
unfolding find_reading
find_reading-ne-fault zero octets position property some_fuel enough = absurd (omega arith)
find_reading-ne-fault (suc fuel) octets position property some_fuel enough =
    elim (read_tag-cases octets position) [
      | inr e ↦ λ p. ground (arith, e)
      | inl (t, e, low, high) ↦
          let (p, f) = property_after-got octets position t 1 property e in
          let next = find_reading-ne-fault fuel octets t.next p (omega arith) (omega arith) in
          λ bad. ground (arith, e, f, next, value_inside-ne-fault octets t)
    ]

-- On any APDU `HandleReadPropertyAck` ends, and reads no octet past its end.
pub handle_read_property_ack-total :
    (fl : Floats) (c : Controller) (apdu : List ℕ)
    → (c' : Controller) × (handle_read_property_ack fl c apdu ≡ some c')
unfolding handle_read_property_ack
handle_read_property_ack-total fl c apdu =
    let safe = find_reading-ne-fault (length apdu + 1) apdu 3 0 (omega arith) (omega arith) in
    elim (Read-cases (find_reading (length apdu + 1) apdu 3 0)) [
      | inl (v, e) ↦ elim (Bool-cases c.peer.sensor_fault_reported) [
        | inl g ↦ (c, rw (handle_read_property_ack, e, g) refl)
        | inr g ↦ (take_reading fl c v, rw (handle_read_property_ack, e, g) refl)
      ]
      | inr (inl e) ↦ (c, rw (handle_read_property_ack, e) refl)
      | inr (inr e) ↦ absurd (safe e)
    ]

abbrev Succeeds : Read Collected → Type 0
Succeeds r = (k : Collected) × (r ≡ got k)

with_humidity-got : (k : Collected) (r : Read ℕ) → r ≢ fault → Succeeds (with_humidity k r)
unfolding with_humidity
with_humidity-got k (got v) safe = (_, refl)
with_humidity-got k nothing safe = (_, refl)
with_humidity-got k fault safe = absurd (safe refl)

with_fault-got : (k : Collected) (r : Read Bool) → r ≢ fault → Succeeds (with_fault k r)
unfolding with_fault
with_fault-got k (got v) safe = (_, refl)
with_fault-got k nothing safe = (_, refl)
with_fault-got k fault safe = absurd (safe refl)

collect_value-got :
    (octets : List ℕ) (position : ℕ) (inner : Tag) (k : Collected)
    → read_tag octets position ≡ got inner
    → Succeeds (collect_value octets inner k)
unfolding collect_value
collect_value-got octets position inner k e =
    let real = with_humidity-got k _ (content_real-ne-fault octets position inner e) in
    let flags = with_fault-got k _ (content_status_flags_fault-ne-fault octets position inner e) in
    elim (Bool-cases (k.property == property_identifier_present_value)) [
      | inl is_present ↦ rw is_present real
      | inr other ↦ elim (Bool-cases (k.property == property_identifier_status_flags)) [
        | inl is_flags ↦ rw (other, is_flags) flags
        | inr neither ↦ rw (other, neither) (k, refl)
      ]
    ]

collect_inside-got :
    (octets : List ℕ) (t : Tag) (k : Collected) → Succeeds (collect_inside octets t k)
unfolding collect_inside
collect_inside-got octets t k = elim (read_tag-cases octets t.next) [
  | inl (inner, e, low, high) ↦ rw (collect_inside, e) (collect_value-got octets t.next inner k e)
  | inr e ↦ rw (collect_inside, e) (k, refl)
]

collect_tag-got :
    (octets : List ℕ) (position : ℕ) (t : Tag) (k : Collected)
    → read_tag octets position ≡ got t
    → Succeeds (collect_tag octets t k)
unfolding collect_tag with_property
collect_tag-got octets position t k e = elim (Bool-cases (is_value t 2)) [
  | inl yes' ↦ let (v, f) = content_unsigned-got octets position t e in rw (yes', f) (_, refl)
  | inr no' ↦ elim (Bool-cases (is_opening t 4)) [
    | inl yes' ↦ rw (no', yes') (collect_inside-got octets t k)
    | inr no'' ↦ rw (no', no'') (k, refl)
  ]
]

collect-got :
    (fuel : ℕ) (octets : List ℕ) (position : ℕ) (k : Collected)
    → 0 < fuel
    → length octets < fuel + position
    → Succeeds (collect fuel octets position k)
unfolding collect
collect-got zero octets position k some_fuel enough = absurd (omega arith)
collect-got (suc fuel) octets position k some_fuel enough = elim (read_tag-cases octets position) [
  | inr e ↦ rw (collect, e) (k, refl)
  | inl (t, e, low, high) ↦
      let (k', f) = collect_tag-got octets position t k e in
      rw (collect, e, f) (collect-got fuel octets t.next k' (omega arith) (omega arith))
]

-- On any APDU `HandleReadPropertyMultipleAck` ends, and reads no octet past its end.
pub handle_read_property_multiple_ack-total :
    (fl : Floats) (c : Controller) (apdu : List ℕ)
    → (c' : Controller) × (handle_read_property_multiple_ack fl c apdu ≡ some c')
unfolding handle_read_property_multiple_ack
handle_read_property_multiple_ack-total fl c apdu =
    let (k, e) =
      collect-got (length apdu + 1) apdu 3 nothing_collected (omega arith) (omega arith) in
    (act_on fl c k.humidity k.sensor_fault, rw (handle_read_property_multiple_ack, e) refl)
