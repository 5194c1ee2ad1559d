-- ===== src/Peer/Answer/Safe.antt =====
-- `HandleReplyFromPeer` on any datagram: it ends, reads nothing past the octets received, and acts
-- only on an answer to a read of its own.
use bacnet_profile_example_b.Base.{
  ◌&&◌, ◌||◌, ◌∙◌, inl, inr, Bool-cases, drop, length-drop, ◌⊎◌, ℕ, ◌/◌, ◌%◌, ◌+◌, ◌≤◌, ◌<◌, ◌≡◌,
  refl, Bool, true, false, not, List, Option, some, length, arith, ◌==◌, if◌then◌else◌, ltb,
  get_elem?-of_lt,
}
use bacnet_profile_example_b.Floats.{Floats}
use bacnet_profile_example_b.Peer.{Controller, set_diamond_reliability}
use bacnet_profile_example_b.Peer.Ack.{handle_read_property_ack, handle_read_property_multiple_ack}
use bacnet_profile_example_b.Bacnet.{
  reliability_unreliable_other, service_read_property, service_read_property_multiple,
}
use bacnet_profile_example_b.Peer.Ack.Total.{
  handle_read_property_ack-total, handle_read_property_multiple_ack-total,
}
use bacnet_profile_example_b.Peer.Answer.{
  handle_reply_from_peer, is_from_peer, is_ipv6, note_answer, fall_back,
  reject_reason_unrecognized_service, Header, at_position, ignored, past_end, octet_of, then_at,
  bvll, skip_specifier, skip_fields, npdu, apdu_position, act_on_answer, answer_with, handle_apdu,
}

-- No read went past the end, and a position that was reached has `P`.
abbrev Reaches : (ℕ → Type 0) → Header → Type 0
Reaches P (at_position p) = P p
Reaches P ignored = Unit {0}
Reaches P past_end = ⊥

abbrev Anywhere : ℕ → Type 0
Anywhere p = Unit {0}

if-Reaches :
    (P : ℕ → Type 0) (test : Bool) (a b : Header)
    → (test ≡ true → Reaches P a)
    → (test ≡ false → Reaches P b)
    → Reaches P (if test then a else b)
if-Reaches P true a b ha hb = ha refl
if-Reaches P false a b ha hb = hb refl

octet_of-Reaches :
    (P : ℕ → Type 0) (message : List ℕ) (i : ℕ) (k : ℕ → Header)
    → i < length message
    → ((o : ℕ) → Reaches P (k o))
    → Reaches P (octet_of message i k)
octet_of-Reaches P message i k h keep =
    let (o, e) = get_elem?-of_lt message i h in rw (Reaches, e) (keep o)

then_at-Reaches :
    (P : ℕ → Type 0) (h : Header) (k : ℕ → Header)
    → Reaches Anywhere h
    → ((p : ℕ) → Reaches P (k p))
    → Reaches P (then_at h k)
then_at-Reaches P (at_position p) k r keep = keep p
then_at-Reaches P ignored k r keep = tt
then_at-Reaches P past_end k r keep = absurd r

bvll-Reaches :
    (message : List ℕ) (size a b : ℕ) → 2 ≤ size → Reaches Anywhere (bvll message size a b)
unfolding bvll
bvll-Reaches message size a b h =
    if-Reaches Anywhere (ltb (length message) size) _ _ (λ e. tt)
      λ long. octet_of-Reaches Anywhere message 0 _ (ground (arith, long)) λ x.
        if-Reaches Anywhere (not (x == a)) _ _ (λ e. tt)
          λ first.
            octet_of-Reaches Anywhere message 1 _ (ground (arith, long))
              λ y. if-Reaches Anywhere (not (y == b)) _ _ (λ e. tt) (λ e. tt)

skip_specifier-Reaches :
    (message : List ℕ) (present : Bool) (position : ℕ)
    → Reaches Anywhere (skip_specifier message present position)
unfolding skip_specifier
skip_specifier-Reaches message present position =
    if-Reaches Anywhere (not present) _ _ (λ e. tt)
      λ here.
        if-Reaches Anywhere (ltb (length message) (position + 3)) _ _ (λ e. tt)
          λ long.
            octet_of-Reaches Anywhere message (position + 2) _ (ground (arith, long)) (λ o. tt)

skip_fields-Reaches :
    (message : List ℕ) (control position : ℕ)
    → Reaches Anywhere (skip_fields message control position)
unfolding skip_fields
skip_fields-Reaches message control position =
    let has_destination = control / 32 % 2 == 1 in
    let has_source = control / 8 % 2 == 1 in
    let inner : (p : ℕ) → Header = λ p.
      then_at (skip_specifier message has_source p)
        λ r. at_position (if has_destination then r + 1 else r) in
    if-Reaches Anywhere (control / 128 % 2 == 1) ignored
      (then_at (skip_specifier message has_destination position) inner) (λ e. tt)
      λ plain.
        then_at-Reaches Anywhere (skip_specifier message has_destination position) inner
          (skip_specifier-Reaches message has_destination position)
          λ p.
            then_at-Reaches Anywhere (skip_specifier message has_source p)
              (λ r. at_position (if has_destination then r + 1 else r))
              (skip_specifier-Reaches message has_source p) (λ r. tt)

npdu-Reaches : (message : List ℕ) (position : ℕ) → Reaches Anywhere (npdu message position)
unfolding npdu
npdu-Reaches message position =
    if-Reaches Anywhere (ltb (length message) (position + 2)) _ _ (λ e. tt)
      λ long. octet_of-Reaches Anywhere message position _ (ground (arith, long)) λ version.
        if-Reaches Anywhere (not (version == 1)) _ _ (λ e. tt)
          λ known.
            octet_of-Reaches Anywhere message (position + 1) _ (ground (arith, long))
              λ control. skip_fields-Reaches message control (position + 2)

-- The headers of any message, IPv6 or IPv4, are skipped without a read past its end; an APDU that
-- is found has three octets.
pub apdu_position-Reaches :
    (ipv6 : Bool) (message : List ℕ)
    → Reaches (λ p. p + 3 ≤ length message) (apdu_position ipv6 message)
unfolding apdu_position
apdu_position-Reaches ipv6 message =
    let enough : ℕ → Type 0 = λ p. p + 3 ≤ length message in
    then_at-Reaches enough _ _
      (if-Reaches Anywhere ipv6 _ _ (λ e. bvll-Reaches message 10 0x82 0x01 (omega arith))
        (λ e. bvll-Reaches message 4 0x81 0x0a (omega arith)))
      λ p. then_at-Reaches enough _ _ (npdu-Reaches message p) λ r.
        if-Reaches enough (ltb (length message) (r + 3)) _ _ (λ e. tt)
          (λ long. ground (arith, long))

abbrev pub Answers : Option Controller → Type 0
Answers r = (c' : Controller) × (r ≡ some c')

if-Answers :
    (test : Bool) (a b : Option Controller)
    → Answers a
    → Answers b
    → Answers (if test then a else b)
if-Answers true a b ha hb = ha
if-Answers false a b ha hb = hb

act_on_answer-Answers :
    (fl : Floats) (c : Controller) (is_read_property is_multiple : Bool) (first service : ℕ)
    → (apdu : List ℕ) → Answers (act_on_answer fl c is_read_property is_multiple first service apdu)
unfolding act_on_answer
act_on_answer-Answers fl c is_read_property is_multiple first service apdu =
    let simple = handle_read_property_ack-total fl c apdu in
    let multiple = handle_read_property_multiple_ack-total fl c apdu in
    if-Answers (is_multiple && first / 16 == 6 && service == reject_reason_unrecognized_service)
      (some (fall_back c)) _ (fall_back c, refl)
      (if-Answers (not (first / 16 == 3) || first / 8 % 2 == 1)
        (some (set_diamond_reliability c reliability_unreliable_other)) _
        (set_diamond_reliability c reliability_unreliable_other, refl)
        (if-Answers (is_read_property && service == service_read_property)
          (handle_read_property_ack fl c apdu) _ simple
          (if-Answers (is_multiple && service == service_read_property_multiple)
            (handle_read_property_multiple_ack fl c apdu) (some c) multiple (c, refl))))

answer_with-Answers :
    (fl : Floats) (c : Controller) (now first invoke_id service : ℕ) (apdu : List ℕ)
    → Answers (answer_with fl c now first invoke_id service apdu)
unfolding answer_with
answer_with-Answers fl c now first invoke_id service apdu =
    let is_read_property =
      c.peer.read_property_pending && invoke_id == c.peer.read_property_invoke_id in
    let is_multiple =
      c.peer.read_property_multiple_pending
      && invoke_id == c.peer.read_property_multiple_invoke_id in
    if-Answers (not is_read_property && not is_multiple) (some c)
      (act_on_answer fl (note_answer c is_read_property now) is_read_property is_multiple first
        service apdu)
      (c, refl)
      (act_on_answer-Answers fl (note_answer c is_read_property now) is_read_property is_multiple
        first service apdu)

-- Three octets are there to be read.
handle_apdu-of_three :
    (fl : Floats) (c : Controller) (now : ℕ) (apdu : List ℕ)
    → 3 ≤ length apdu
    → (first : ℕ) × (invoke_id : ℕ) × (service : ℕ) × (handle_apdu fl c now apdu
        ≡ answer_with fl c now first invoke_id service apdu)
unfolding handle_apdu
handle_apdu-of_three fl c now apdu h =
    let (x, e) = get_elem?-of_lt apdu 0 (omega arith) in
    let (y, f) = get_elem?-of_lt apdu 1 (omega arith) in
    let (z, g) = get_elem?-of_lt apdu 2 (omega arith) in (x, y, z, rw (handle_apdu, e, f, g) refl)

-- What a datagram comes to: it is left alone, or it is an answer with three octets.
pub handle_reply_from_peer-cases :
    (fl : Floats) (c : Controller) (now : ℕ) (message from_address : List ℕ) (from_port : ℕ)
    → (handle_reply_from_peer fl c now message from_address from_port ≡ some c)
      ⊎ ((first : ℕ) × (invoke_id : ℕ) × (service : ℕ) × (apdu : List ℕ) × (handle_reply_from_peer
              fl c now message from_address from_port
            ≡ answer_with fl c now first invoke_id service apdu))
unfolding handle_reply_from_peer
handle_reply_from_peer-cases fl c now message from_address from_port =
    elim (Bool-cases (is_from_peer c from_address from_port)) [
      | inr other ↦ inl (rw other refl)
      | inl peer ↦ go (apdu_position (is_ipv6 c.device) message) refl peer
    ]
  where
    go :
        (h : Header)
        → apdu_position (is_ipv6 c.device) message ≡ h
        → is_from_peer c from_address from_port ≡ true
        → (handle_reply_from_peer fl c now message from_address from_port ≡ some c)
          ⊎ ((first : ℕ) × (invoke_id : ℕ) × (service : ℕ) × (apdu : List ℕ)
              × (handle_reply_from_peer fl c now message from_address from_port
                  ≡ answer_with fl c now first invoke_id service apdu))
    go (at_position p) e peer =
        let room : Reaches (λ r. r + 3 ≤ length message) (at_position p) =
          rw e at (apdu_position-Reaches (is_ipv6 c.device) message) in
        let (x, y, z, f) =
          handle_apdu-of_three fl c now (drop p message)
            (omega (arith, room, length-drop p message)) in
        inr (x, y, z, drop p message, rw (handle_reply_from_peer, peer, e) f)
    go ignored e peer = inl (rw (handle_reply_from_peer, peer, e) refl)
    go past_end e peer =
        let bad : Reaches (λ r. r + 3 ≤ length message) past_end =
          rw e at (apdu_position-Reaches (is_ipv6 c.device) message) in
        absurd bad

-- Whatever datagram comes in from whatever address, `HandleReplyFromPeer` returns, and reads no
-- octet past the end of the message.
pub handle_reply_from_peer-total :
    (fl : Floats) (c : Controller) (now : ℕ) (message from_address : List ℕ) (from_port : ℕ)
    → (c' : Controller) × (handle_reply_from_peer fl c now message from_address from_port ≡ some c')
handle_reply_from_peer-total fl c now message from_address from_port =
    elim (handle_reply_from_peer-cases fl c now message from_address from_port) [
      | inl e ↦ (c, e)
      | inr (x, y, z, apdu, e) ↦
          let (c', f) = answer_with-Answers fl c now x y z apdu in (c', e ∙ f)
    ]

-- With no read outstanding, no datagram changes anything: a reply nobody asked for is ignored.
pub handle_reply_from_peer-of_no_read :
    (fl : Floats) (c : Controller) (now : ℕ) (message from_address : List ℕ) (from_port : ℕ)
    → c.peer.read_property_pending ≡ false
    → c.peer.read_property_multiple_pending ≡ false
    → handle_reply_from_peer fl c now message from_address from_port ≡ some c
unfolding answer_with
handle_reply_from_peer-of_no_read fl c now message from_address from_port simple multiple =
    elim (handle_reply_from_peer-cases fl c now message from_address from_port) [
      | inl e ↦ e
      | inr (x, y, z, apdu, e) ↦ e ∙ rw (answer_with, simple, multiple) refl
    ]
