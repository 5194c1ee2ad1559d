-- ===== src/Peer/Ack/Decode.antt =====
-- The two ACK handlers on the answers of a peer that encodes as clause 20.2 says.
use bacnet_profile_example_b.Base.{
  Bool, true, false, ℕ, ◌+◌, ◌*◌, ◌%◌, ◌^◌, ◌≡◌, List, [], ◌∷◌, Option, none, some, ◌⊎◌,
}
use bacnet_profile_example_b.Floats.{Floats}
use bacnet_profile_example_b.Peer.{Controller}

-- The APDU of a ReadProperty-ACK: three header octets, the object identifier [0], the property
-- identifier [1], and the REAL with the octets `v0` to `v3` between opening and closing tag 3.
abbrev pub read_property_ack : ℕ → ℕ → ℕ → ℕ → ℕ → ℕ → ℕ → ℕ → ℕ → List ℕ
read_property_ack i0 i1 i2 i3 property v0 v1 v2 v3 =
    0x30 ∷ 1 ∷ 12 ∷ 0x0c ∷ i0 ∷ i1 ∷ i2 ∷ i3 ∷ 0x19 ∷ property ∷ 0x3e ∷ 0x44 ∷ v0 ∷ v1 ∷ v2 ∷ v3
    ∷ 0x3f ∷ []

-- Four octets, the most significant one first.
abbrev pub real_of : ℕ → ℕ → ℕ → ℕ → ℕ
real_of v0 v1 v2 v3 = ((v0 * 256 + v1) * 256 + v2) * 256 + v3

-- Diamond's value is the number: its bits, but for the sign of a zero.
abbrev pub HasValue : ℕ → Controller → Type 0
HasValue number c =
    (c.device.analog_value ≡ number)
    ⊎ ((c.device.analog_value % 2 ^ 31 ≡ 0) × (number % 2 ^ 31 ≡ 0))

-- After an answer with a number: nothing has changed with the peer's sensor reported faulty;
-- otherwise Diamond has the number and no-fault-detected (0).
abbrev pub AfterReading : Bool → Controller → ℕ → Option Controller → Type 0
AfterReading sensor_fault c number none = ⊥
AfterReading true c number (some c') = c' ≡ c
AfterReading false c number (some c') =
    HasValue number c' × (c'.device.diamond_reliability ≡ 0) × (c'.peer ≡ c.peer)

-- The APDU of a ReadPropertyMultiple-ACK for Present_Value, a REAL, and Status_Flags.
abbrev pub read_property_multiple_ack : ℕ → ℕ → ℕ → ℕ → ℕ → ℕ → ℕ → ℕ → ℕ → List ℕ
read_property_multiple_ack i0 i1 i2 i3 v0 v1 v2 v3 flags =
    0x30 ∷ 2 ∷ 14 ∷ 0x0c ∷ i0 ∷ i1 ∷ i2 ∷ i3 ∷ 0x1e ∷ 0x29 ∷ 85 ∷ 0x4e ∷ 0x44 ∷ v0 ∷ v1 ∷ v2 ∷ v3
    ∷ 0x4f ∷ 0x29 ∷ 111 ∷ 0x4e ∷ 0x82 ∷ 4 ∷ flags ∷ 0x4f ∷ 0x1f ∷ []

-- After an answer with both: with the FAULT flag Diamond keeps its value and is unreliable-other (7),
-- without it Diamond has the number and no-fault-detected (0); the flag is noted.
abbrev pub AfterBoth : Bool → Controller → ℕ → Option Controller → Type 0
AfterBoth sensor_fault c number none = ⊥
AfterBoth true c number (some c') =
    (c'.device.analog_value ≡ c.device.analog_value)
    × (c'.device.diamond_reliability ≡ 7)
    × (c'.peer.sensor_fault_reported ≡ true)
AfterBoth false c number (some c') =
    HasValue number c'
    × (c'.device.diamond_reliability ≡ 0)
    × (c'.peer.sensor_fault_reported ≡ false)
