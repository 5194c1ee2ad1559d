-- ===== src/Peer/Answer/Effect.antt =====
-- What `HandleReplyFromPeer` may change, and what a matched answer always does.
use bacnet_profile_example_b.Base.{
  subst, ℕ, ◌+◌, ◌≤◌, ◌≡◌, refl, sym, ap, ◌∙◌, Bool, true, false, ◌&&◌, ◌||◌, not, List, [], ◌∷◌,
  Option, none, some, length, arith, inl, inr, Bool-cases, ◌==◌, if◌then◌else◌, ◌⊎◌, ◌/◌, ◌%◌,
}
use bacnet_profile_example_b.Floats.{Floats}
use bacnet_profile_example_b.Peer.{Controller, set_diamond_reliability, update_diamond_from_peer}
use bacnet_profile_example_b.Peer.Ack.{
  handle_read_property_ack, handle_read_property_multiple_ack, find_reading, collect, take_reading,
  act_on, act_on_collected, Collected, nothing_collected,
}
use bacnet_profile_example_b.Bacnet.{
  reliability_no_fault_detected, reliability_unreliable_other, reliability_communication_failure,
  service_read_property, service_read_property_multiple, property_identifier_present_value,
  property_identifier_reliability,
}
use bacnet_profile_example_b.Device.{Device}
use bacnet_profile_example_b.Peer.Tag.{Read, got, nothing, fault}
use bacnet_profile_example_b.Peer.Answer.{
  note_answer, fall_back, act_on_answer, answer_with, handle_reply_from_peer,
  reject_reason_unrecognized_service,
}
use bacnet_profile_example_b.Peer.Answer.Safe.{handle_reply_from_peer-cases}

-- The controller without what an answer may change: Diamond's value and reliability, the pending
-- reads, the time of the last answer, and what is known of the peer's sensor.
abbrev pub but_for_reading : Controller → Controller
but_for_reading c = record c {
  device = record (c.device) { analog_value = 0; diamond_reliability = 0 };
  peer = record (c.peer) {
    read_property_pending = false;
    read_property_multiple_pending = false;
    read_property_multiple_unsupported = false;
    sensor_fault_reported = false;
    last_answer = 0;
  };
  updates = [];
}

-- One of the three reliabilities of Diamond.
abbrev pub IsKnown : ℕ → Type 0
IsKnown r =
    (r ≡ reliability_no_fault_detected)
    ⊎ ((r ≡ reliability_unreliable_other) ⊎ (r ≡ reliability_communication_failure))

-- How often the stack was told of a property of Diamond.
abbrev pub tellings : ℕ → List ℕ → ℕ
tellings property [] = 0
tellings property (u ∷ us) = (if u == property then 1 else 0) + tellings property us

abbrev pub present_values : Controller → ℕ
present_values c = tellings property_identifier_present_value c.updates

abbrev pub reliabilities : Controller → ℕ
reliabilities c = tellings property_identifier_reliability c.updates

-- Nothing else changes; the stack is told of a change of the value as Present_Value and of one of the
-- reliability as Reliability; the reliability stays one of the three.
pub record Step (c c' : Controller) : Type 0 where
  pub rest : but_for_reading c' ≡ but_for_reading c
  pub more_values : present_values c ≤ present_values c'
  pub more_reliabilities : reliabilities c ≤ reliabilities c'
  pub value : present_values c' ≡ present_values c → c'.device.analog_value ≡ c.device.analog_value
  pub reliability :
      reliabilities c' ≡ reliabilities c
      → c'.device.diamond_reliability ≡ c.device.diamond_reliability
  pub known : IsKnown c.device.diamond_reliability → IsKnown c'.device.diamond_reliability

-- The device and the updates are as they were.
quiet :
    (c c' : Controller)
    → but_for_reading c' ≡ but_for_reading c
    → c'.device ≡ c.device
    → c'.updates ≡ c.updates
    → Step c c'
quiet c c' rest device updates =
    let values = ap (tellings property_identifier_present_value) updates in
    let others = ap (tellings property_identifier_reliability) updates in
    record {
      rest = rest;
      more_values = omega (arith, values);
      more_reliabilities = omega (arith, others);
      value = λ e. ap (λ d. Device.analog_value d) device;
      reliability = λ e. ap (λ d. Device.diamond_reliability d) device;
      known = λ k. subst (λ d. IsKnown (Device.diamond_reliability d)) (sym device) k;
    }

Step-refl : (c : Controller) → Step c c
Step-refl c = quiet c c refl refl refl

Step-trans : (a b c : Controller) → Step a b → Step b c → Step a c
Step-trans a b c s t = record {
  rest = t.rest ∙ s.rest;
  more_values = omega (arith, s.more_values, t.more_values);
  more_reliabilities = omega (arith, s.more_reliabilities, t.more_reliabilities);
  value = λ same.
      t.value (omega (arith, s.more_values, t.more_values, same))
      ∙ s.value (omega (arith, s.more_values, t.more_values, same));
  reliability = λ same.
      t.reliability (omega (arith, s.more_reliabilities, t.more_reliabilities, same))
      ∙ s.reliability (omega (arith, s.more_reliabilities, t.more_reliabilities, same));
  known = λ k. t.known (s.known k);
}

abbrev Steps : Controller → Option Controller → Type 0
Steps c r = (c' : Controller) → r ≡ some c' → Step c c'

some-Steps : (c d : Controller) → Step c d → Steps c (some d)
some-Steps c d s c' e = subst (λ x. Step c x) (ap (λ o. elim o [ none ↦ d | some x ↦ x ]) e) s

none-Steps : (c : Controller) → Steps c none
none-Steps c c' e = ground (arith, e)

if-Steps :
    (c : Controller) (test : Bool) (a b : Option Controller)
    → Steps c a
    → Steps c b
    → Steps c (if test then a else b)
if-Steps c true a b ha hb = ha
if-Steps c false a b ha hb = hb

set_diamond_reliability-Step :
    (c : Controller) (r : ℕ) → IsKnown r → Step c (set_diamond_reliability c r)
unfolding set_diamond_reliability
set_diamond_reliability-Step c r known = elim (Bool-cases (c.device.diamond_reliability == r)) [
  | inl same ↦ rw same (Step-refl c)
  | inr other ↦ rw other (record {
    rest = refl;
    more_values = omega arith;
    more_reliabilities = omega arith;
    value = λ e. refl;
    reliability = λ e. absurd (omega (arith, e));
    known = λ k. known;
  })
]

update_diamond_from_peer-Step :
    (fl : Floats) (c : Controller) (humidity : ℕ) → Step c (update_diamond_from_peer fl c humidity)
unfolding update_diamond_from_peer
update_diamond_from_peer-Step fl c humidity =
    elim (Bool-cases (fl.differs c.device.analog_value humidity)) [
      | inl other ↦ rw other (record {
        rest = refl;
        more_values = omega arith;
        more_reliabilities = omega arith;
        value = λ e. absurd (omega (arith, e));
        reliability = λ e. refl;
        known = λ k. k;
      })
      | inr same ↦ rw same (Step-refl c)
    ]

take_reading-Step :
    (fl : Floats) (c : Controller) (humidity : ℕ) → Step c (take_reading fl c humidity)
unfolding take_reading
take_reading-Step fl c humidity =
    let taken = update_diamond_from_peer fl c humidity in
    Step-trans c taken (set_diamond_reliability taken reliability_no_fault_detected)
      (update_diamond_from_peer-Step fl c humidity)
      (set_diamond_reliability-Step taken reliability_no_fault_detected (inl refl))

handle_read_property_ack-Step :
    (fl : Floats) (c : Controller) (apdu : List ℕ) → Steps c (handle_read_property_ack fl c apdu)
unfolding handle_read_property_ack
handle_read_property_ack-Step fl c apdu = go (find_reading (length apdu + 1) apdu 3 0)
  where
    go :
        (r : Read ℕ)
        → Steps c (elim r [
          | fault ↦ none
          | nothing ↦ some c
          | got humidity ↦
              if c.peer.sensor_fault_reported then some c else some (take_reading fl c humidity)
        ])
    go fault = none-Steps c
    go nothing = some-Steps c c (Step-refl c)
    go (got humidity) =
        if-Steps c c.peer.sensor_fault_reported (some c) (some (take_reading fl c humidity))
          (some-Steps c c (Step-refl c)) (some-Steps c _ (take_reading-Step fl c humidity))

act_on-Step :
    (fl : Floats) (c : Controller) (humidity : Option ℕ) (sensor_fault : Option Bool)
    → Step c (act_on fl c humidity sensor_fault)
unfolding act_on act_on_collected
act_on-Step fl c none sensor_fault = Step-refl c
act_on-Step fl c (some humidity) none = Step-refl c
act_on-Step fl c (some humidity) (some true) =
    let noted = record c { peer = record (c.peer) { sensor_fault_reported = true } } in
    Step-trans c noted (set_diamond_reliability noted reliability_unreliable_other)
      (quiet c noted refl refl refl)
      (set_diamond_reliability-Step noted reliability_unreliable_other (inr (inl refl)))
act_on-Step fl c (some humidity) (some false) =
    let noted = record c { peer = record (c.peer) { sensor_fault_reported = false } } in
    Step-trans c noted (take_reading fl noted humidity) (quiet c noted refl refl refl)
      (take_reading-Step fl noted humidity)

handle_read_property_multiple_ack-Step :
    (fl : Floats) (c : Controller) (apdu : List ℕ)
    → Steps c (handle_read_property_multiple_ack fl c apdu)
unfolding handle_read_property_multiple_ack
handle_read_property_multiple_ack-Step fl c apdu =
    go (collect (length apdu + 1) apdu 3 nothing_collected)
  where
    go :
        (r : Read Collected)
        → Steps c (elim r [
          | got k ↦ some (act_on fl c k.humidity k.sensor_fault)
          | nothing ↦ some c
          | fault ↦ none
        ])
    go fault = none-Steps c
    go nothing = some-Steps c c (Step-refl c)
    go (got k) = some-Steps c _ (act_on-Step fl c k.humidity k.sensor_fault)

act_on_answer-Step :
    (fl : Floats) (c : Controller) (is_read_property is_multiple : Bool) (first service : ℕ)
    → (apdu : List ℕ) → Steps c (act_on_answer fl c is_read_property is_multiple first service apdu)
unfolding act_on_answer fall_back
act_on_answer-Step fl c is_read_property is_multiple first service apdu =
    if-Steps c (is_multiple && first / 16 == 6 && service == reject_reason_unrecognized_service)
      (some (fall_back c)) _ (some-Steps c (fall_back c) (quiet c (fall_back c) refl refl refl))
      (if-Steps c (not (first / 16 == 3) || first / 8 % 2 == 1)
        (some (set_diamond_reliability c reliability_unreliable_other)) _
        (some-Steps c _
          (set_diamond_reliability-Step c reliability_unreliable_other (inr (inl refl))))
        (if-Steps c (is_read_property && service == service_read_property)
          (handle_read_property_ack fl c apdu) _ (handle_read_property_ack-Step fl c apdu)
          (if-Steps c (is_multiple && service == service_read_property_multiple)
            (handle_read_property_multiple_ack fl c apdu) (some c)
            (handle_read_property_multiple_ack-Step fl c apdu) (some-Steps c c (Step-refl c)))))

answer_with-Step :
    (fl : Floats) (c : Controller) (now first invoke_id service : ℕ) (apdu : List ℕ)
    → Steps c (answer_with fl c now first invoke_id service apdu)
unfolding answer_with note_answer
answer_with-Step fl c now first invoke_id service apdu =
    let is_read_property =
      c.peer.read_property_pending && invoke_id == c.peer.read_property_invoke_id in
    let is_multiple =
      c.peer.read_property_multiple_pending
      && invoke_id == c.peer.read_property_multiple_invoke_id in
    let noted = note_answer c is_read_property now in
    if-Steps c (not is_read_property && not is_multiple) (some c)
      (act_on_answer fl noted is_read_property is_multiple first service apdu)
      (some-Steps c c (Step-refl c))
      (λ c' e.
        Step-trans c noted c' (quiet c noted refl refl refl)
          (act_on_answer-Step fl noted is_read_property is_multiple first service apdu c' e))

-- Whatever datagram comes in, all it can change is Diamond's value and reliability, the pending
-- reads, the time of the last answer and what is known of the peer's sensor; Diamond's value stays
-- as it was unless the stack is told of its Present_Value (`BACnetStack_UpdateValue`), its
-- reliability unless the stack is told of its Reliability; and the reliability stays one of
-- no-fault-detected, unreliable-other and communication-failure.
pub handle_reply_from_peer-Step :
    (fl : Floats) (c c' : Controller) (now : ℕ) (message from_address : List ℕ) (from_port : ℕ)
    → handle_reply_from_peer fl c now message from_address from_port ≡ some c'
    → Step c c'
handle_reply_from_peer-Step fl c c' now message from_address from_port returns =
    elim (handle_reply_from_peer-cases fl c now message from_address from_port) [
      | inl e ↦ some-Steps c c (Step-refl c) c' (sym e ∙ returns)
      | inr (x, y, z, apdu, e) ↦ answer_with-Step fl c now x y z apdu c' (sym e ∙ returns)
    ]
