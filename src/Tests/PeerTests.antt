-- ===== src/Tests/PeerTests.antt =====
-- The results on the peer, applied to a datagram from it and to rounds of polling.
use bacnet_profile_example_b.Base.{
  Bool, true, false, some, ℕ, ◌≡◌, refl, true, false, List, [], ◌∷◌, Option, some, arith,
}
use bacnet_profile_example_b.Tests.{floats, device, peer, controller}
use bacnet_profile_example_b.Transport.{
  is_stack_chosen_broadcast, scan_npdu, chosen_at, skip_specifier,
}
use bacnet_profile_example_b.Transport.Safe.{IsAbout, is_stack_chosen_broadcast-IsAbout}
use bacnet_profile_example_b.Peer.{Controller}
use bacnet_profile_example_b.Peer.Tag.{read_tag}
use bacnet_profile_example_b.Peer.Tag.Bounds.{InBounds, read_tag-InBounds}
use bacnet_profile_example_b.Peer.Ack.Decode.{read_property_ack}
use bacnet_profile_example_b.Peer.Answer.{handle_reply_from_peer}
use bacnet_profile_example_b.Peer.Answer.Safe.{handle_reply_from_peer-total}
use bacnet_profile_example_b.Peer.Answer.Effect.{Step, handle_reply_from_peer-Step}
use bacnet_profile_example_b.Peer.Poll.{poll_peer, Request}
use bacnet_profile_example_b.Peer.Poll.Watch.{
  poll_peer-silent, poll_peer-answered, poll_peer-IsProper, IsProper,
}

-- 45.5 as a REAL, from the peer's address.
abbrev ack : List ℕ
ack = read_property_ack 0 0 0 1 85 0x42 0x36 0 0

abbrev datagram : List ℕ
datagram = 0x81 ∷ 0x0a ∷ 0 ∷ 25 ∷ 1 ∷ 0 ∷ ack

abbrev address : List ℕ
address = 192 ∷ 168 ∷ 1 ∷ 20 ∷ []

-- The peer before it is known, and with nothing outstanding.
abbrev unbound : Controller
unbound = record controller { peer = record peer { bound = false } }

abbrev idle : Controller
idle = record controller { peer = record peer { read_property_pending = false } }

-- What the datagram leaves: the reading, with no fault.
abbrev answered : Controller
answered = record controller {
  device = record device { analog_value = 0x42360000; diamond_reliability = 0 };
  peer = record peer { read_property_pending = false; last_answer = 5500 };
  updates = 103 ∷ 85 ∷ [];
}

abbrev send : Request → Option ℕ
send r = some 7

read_tag-InBounds_example : InBounds ack 3 (read_tag ack 3)
read_tag-InBounds_example = read_tag-InBounds ack 3

handle_reply_from_peer-total_example :
    (c' : Controller) × (handle_reply_from_peer floats controller 5500 datagram address 47808
      ≡ some c')
handle_reply_from_peer-total_example =
    handle_reply_from_peer-total floats controller 5500 datagram address 47808

datagram_answers :
    handle_reply_from_peer floats controller 5500 datagram address 47808 ≡ some answered
unfolding handle_reply_from_peer
datagram_answers = refl

handle_reply_from_peer-Step_example : Step controller answered
handle_reply_from_peer-Step_example =
    handle_reply_from_peer-Step floats controller answered 5500 datagram address 47808
      datagram_answers

poll_peer-silent_example :
    ((poll_peer send controller 8500).controller.device.diamond_reliability ≡ 12)
    × ((poll_peer send controller 8500).controller.device.analog_value ≡ 50)
poll_peer-silent_example = poll_peer-silent send controller 8500 refl (omega arith) (omega arith)

poll_peer-answered_example : (poll_peer send controller 6500).controller.device ≡ controller.device
poll_peer-answered_example = poll_peer-answered send controller 6500 (omega arith) (omega arith)

poll_peer-IsProper_example : IsProper false (poll_peer send controller 6500).request
poll_peer-IsProper_example = poll_peer-IsProper send controller 6500

is_stack_chosen_broadcast-IsAbout_example :
    (b : Bool) × (is_stack_chosen_broadcast (129 ∷ 11 ∷ 0 ∷ 8 ∷ 1 ∷ 0 ∷ 16 ∷ 0 ∷ []) ≡ some b)
    × IsAbout (129 ∷ 11 ∷ 0 ∷ 8 ∷ 1 ∷ 0 ∷ 16 ∷ 0 ∷ []) b
is_stack_chosen_broadcast-IsAbout_example =
    is_stack_chosen_broadcast-IsAbout (129 ∷ 11 ∷ 0 ∷ 8 ∷ 1 ∷ 0 ∷ 16 ∷ 0 ∷ [])

-- An I-Am as a local broadcast is copied, a ReadProperty is not.
i_am_is_chosen :
    (is_stack_chosen_broadcast (129 ∷ 11 ∷ 0 ∷ 8 ∷ 1 ∷ 0 ∷ 16 ∷ 0 ∷ []) ≡ some true)
    × (is_stack_chosen_broadcast (129 ∷ 10 ∷ 0 ∷ 8 ∷ 1 ∷ 4 ∷ 0 ∷ 12 ∷ []) ≡ some false)
unfolding is_stack_chosen_broadcast scan_npdu chosen_at skip_specifier
i_am_is_chosen = (refl, refl)
