-- ===== src/Peer/Poll/Watch.antt =====
-- What the polling round promises: silence is noticed, a new peer is read at once, and the request
-- that goes out is well formed and one that the peer knows.
use bacnet_profile_example_b.Base.{
  subst, ap, not, if◌then◌else◌, ◌*◌, ◌⊎◌, List, length, ℕ, ◌+◌, ◌^◌, ◌<◌, ◌≤◌, ◌≡◌, refl, Bool,
  true, false, Option, none, some, ◌==◌, ltb, arith, Bool-cases, inl, inr, [], ◌∷◌, get_or, take,
  drop,
}
use bacnet_profile_example_b.Peer.{Controller, set_diamond_reliability}
use bacnet_profile_example_b.Peer.Poll.{
  Polled, use_multiple, poll_interval, counted, pack_read_property_element, request_of, Request,
  is_lost, milliseconds_since, note_sent, send_read, poll_peer,
}
use bacnet_profile_example_b.Bacnet.{reliability_communication_failure}

note_sent-device :
    (c : Controller) (multiple : Bool) (answer : Option ℕ)
    → (note_sent c multiple answer).device ≡ c.device
unfolding note_sent
note_sent-device c true none = refl
note_sent-device c false none = refl
note_sent-device c true (some invoke_id) = refl
note_sent-device c false (some invoke_id) = refl

set_diamond_reliability-reliability :
    (c : Controller) (r : ℕ)
    → ((set_diamond_reliability c r).device.diamond_reliability ≡ r)
      × ((set_diamond_reliability c r).device.analog_value ≡ c.device.analog_value)
unfolding set_diamond_reliability
set_diamond_reliability-reliability c r = elim (Bool-cases (c.device.diamond_reliability == r)) [
  | inl same ↦ rw same (ground arith, refl)
  | inr other ↦ rw other (refl, refl)
]

-- A round of `PollPeer` for a bound peer that has been silent for more than 3000 ms (and less than
-- 2^32 ms) leaves Diamond at communication-failure, with the value it had.
pub poll_peer-silent :
    (send : Request → Option ℕ) (c : Controller) (now : ℕ)
    → c.peer.bound ≡ true
    → c.peer.last_answer + 3000 < now
    → now < c.peer.last_answer + 2 ^ 32
    → ((poll_peer send c now).controller.device.diamond_reliability
        ≡ reliability_communication_failure)
      × ((poll_peer send c now).controller.device.analog_value ≡ c.device.analog_value)
unfolding poll_peer send_read
poll_peer-silent send c now bound silent recent =
    let lost : is_lost c now ≡ true = ground arith in
    let failed = set_diamond_reliability-reliability c reliability_communication_failure in
    elim (Bool-cases (ltb (milliseconds_since now c.peer.last_poll) 3000)) [
      | inl waits ↦ simp (bound, lost, waits) failed
      | inr due ↦ simp (bound, lost, due, note_sent-device) failed
    ]

-- A round of `PollPeer` less than 3001 ms after the last answer leaves the device as it is.
pub poll_peer-answered :
    (send : Request → Option ℕ) (c : Controller) (now : ℕ)
    → c.peer.last_answer ≤ now
    → now ≤ c.peer.last_answer + 3000
    → (poll_peer send c now).controller.device ≡ c.device
unfolding poll_peer send_read
poll_peer-answered send c now past recent =
    let here : is_lost c now ≡ false = ground arith in
    elim (Bool-cases c.peer.bound) [
      | inr unbound ↦ rw unbound refl
      | inl bound ↦ elim (Bool-cases (ltb (milliseconds_since now c.peer.last_poll) 1000)) [
        | inl waits ↦ simp (bound, here, waits) refl
        | inr due ↦ simp (bound, here, due, note_sent-device) refl
      ]
    ]

-- A number of its octets, the least significant first.
abbrev pub number_of : List ℕ → ℕ
number_of [] = 0
number_of (o ∷ os) = o + 256 * number_of os

-- 15 octets that ask for a property of Analog Input 1 (clause 21: its type is 0): flags, the object's
-- type and instance, the property, and no array index.
abbrev pub IsElement : ℕ → List ℕ → Type 0
IsElement property octets =
    (length octets ≡ 15)
    × (get_or octets 0 1 ≡ 0)
    × (number_of (take 2 (drop 1 octets)) ≡ 0)
    × (number_of (take 4 (drop 3 octets)) ≡ 1)
    × (number_of (take 4 (drop 7 octets)) ≡ property)

-- ReadProperty (12) of Present_Value (85), or ReadPropertyMultiple (14) of it and Status_Flags (111),
-- the latter only for a peer that is not known to reject it.
abbrev pub IsProper : Bool → Option Request → Type 0
IsProper unsupported none = Unit {0}
IsProper unsupported (some r) =
    ((r.service ≡ 12) × (r.element_count ≡ 1) × IsElement 85 r.elements)
    ⊎ ((r.service ≡ 14)
        × (r.element_count ≡ 2)
        × IsElement 85 (take 15 r.elements)
        × IsElement 111 (drop 15 r.elements)
        × (unsupported ≡ false))

request_of-IsProper :
    (unsupported : Bool) (c : Controller) (multiple : Bool)
    → (multiple ≡ true → unsupported ≡ false)
    → IsProper unsupported (some (request_of c multiple))
unfolding request_of pack_read_property_element
request_of-IsProper unsupported c true known =
    inr (refl, refl, (refl, refl, refl, refl, refl), (refl, refl, refl, refl, refl), known refl)
request_of-IsProper unsupported c false known = inl (refl, refl, (refl, refl, refl, refl, refl))

send_read-IsProper :
    (send : Request → Option ℕ) (c : Controller) (now : ℕ)
    → IsProper c.peer.read_property_multiple_unsupported (send_read send c now).request
unfolding send_read
send_read-IsProper send c now =
    request_of-IsProper c.peer.read_property_multiple_unsupported (counted c now) (use_multiple c)
      λ turn. elim (Bool-cases c.peer.read_property_multiple_unsupported) [
        | inl known ↦ absurd (ground (arith, turn, known))
        | inr unknown ↦ unknown
      ]

set_diamond_reliability-peer :
    (c : Controller) (lost : Bool) (r : ℕ)
    → (if lost then set_diamond_reliability c r else c).peer ≡ c.peer
unfolding set_diamond_reliability
set_diamond_reliability-peer c false r = refl
set_diamond_reliability-peer c true r = elim (Bool-cases (c.device.diamond_reliability == r)) [
  | inl same ↦ rw same refl
  | inr other ↦ rw other refl
]

if-IsProper :
    (unsupported test : Bool) (p q : Polled)
    → IsProper unsupported p.request
    → IsProper unsupported q.request
    → IsProper unsupported (if test then p else q).request
if-IsProper unsupported true p q hp hq = hp
if-IsProper unsupported false p q hp hq = hq

-- Every request of a round is either a ReadProperty of Analog Input 1's Present_Value or a
-- ReadPropertyMultiple of its Present_Value and Status_Flags, each element packed into 15 octets, and
-- a peer known not to support ReadPropertyMultiple is never sent one.
pub poll_peer-IsProper :
    (send : Request → Option ℕ) (c : Controller) (now : ℕ)
    → IsProper c.peer.read_property_multiple_unsupported (poll_peer send c now).request
unfolding poll_peer
poll_peer-IsProper send c now =
    let unsupported = c.peer.read_property_multiple_unsupported in
    let lost = is_lost c now in
    let c' = if lost then set_diamond_reliability c reliability_communication_failure else c in
    let same =
      ap (λ p. p.read_property_multiple_unsupported)
        (set_diamond_reliability-peer c lost reliability_communication_failure) in
    if-IsProper unsupported (not c.peer.bound) (record { controller = c; request = none }) _ tt
      (if-IsProper unsupported (ltb (milliseconds_since now c.peer.last_poll) (poll_interval lost))
        (record { controller = c'; request = none }) (send_read send c' now) tt
        (subst (λ u. IsProper u (send_read send c' now).request) same
          (send_read-IsProper send c' now)))

-- A request to the peer's address.
abbrev pub IsSentTo : List ℕ → Option Request → Type 0
IsSentTo address none = ⊥
IsSentTo address (some r) = r.connection_string ≡ address
