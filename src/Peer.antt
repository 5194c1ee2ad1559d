-- ===== src/Peer.antt =====
-- main.cpp, section 2e: the peer controller whose sensor this device reads. Its state, and how a
-- reading reaches Analog Value 1, "Diamond".
pub mod Tag
pub mod Ack
pub mod Answer
pub mod Poll
use bacnet_profile_example_b.Base.{ℕ, Bool, true, false, not, List, [], ◌∷◌, if◌then◌else◌, ◌==◌}
use bacnet_profile_example_b.Floats.{Floats}
use bacnet_profile_example_b.Device.{Device}
use bacnet_profile_example_b.Bacnet.{
  property_identifier_reliability, property_identifier_present_value,
}

-- `RemotePeer`; a time is milliseconds of the steady clock.
pub record RemotePeer : Type 0 where
  pub bound : Bool
  pub connection_string : List ℕ
  pub read_property_invoke_id : ℕ
  pub read_property_pending : Bool
  pub read_property_multiple_invoke_id : ℕ
  pub read_property_multiple_pending : Bool
  pub poll_count : ℕ
  pub read_property_multiple_unsupported : Bool
  pub sensor_fault_reported : Bool
  pub last_poll : ℕ
  pub last_answer : ℕ

-- The device with its peer, and the properties of Diamond for which BACnetStack_UpdateValue was
-- called, the last one first.
pub record Controller : Type 0 where
  pub device : Device
  pub peer : RemotePeer
  pub updates : List ℕ

unfoldable pub set_diamond_reliability : Controller → ℕ → Controller
set_diamond_reliability c reliability =
    if c.device.diamond_reliability == reliability then c else record c {
      device = record (c.device) { diamond_reliability = reliability };
      updates = property_identifier_reliability ∷ c.updates;
    }

unfoldable pub update_diamond_from_peer : Floats → Controller → ℕ → Controller
update_diamond_from_peer fl c humidity =
    if fl.differs c.device.analog_value humidity
    then record c {
      device = record (c.device) { analog_value = humidity };
      updates = property_identifier_present_value ∷ c.updates;
    }
    else c
