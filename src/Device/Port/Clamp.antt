-- ===== src/Device/Port/Clamp.antt =====
-- The MS/TP port's two numbers, written by the stack and read back.
use bacnet_profile_example_b.Base.{ℕ, ◌≡◌, refl, true, false, ◌==◌, if◌then◌else◌, ltb, arith}
use bacnet_profile_example_b.Options.{mstp}
use bacnet_profile_example_b.Floats.{Floats}
use bacnet_profile_example_b.Cert.Host.{Host}
use bacnet_profile_example_b.Device.{active_network_port_instance, Device, Query, answer, accepted}
use bacnet_profile_example_b.Device.Get.Unsigned.{get_property_unsigned_integer}
use bacnet_profile_example_b.Device.Set.{set_property_unsigned_integer}
use bacnet_profile_example_b.Bacnet.{
  object_type_network_port, mstp_network_port_instance, property_identifier_max_master,
  property_identifier_max_info_frames,
}

-- A property of this device's MS/TP port.
abbrev pub mstp_port : Device → ℕ → Query
mstp_port d property = record {
  device_instance = d.device_instance;
  object_type = object_type_network_port;
  object_instance = mstp_network_port_instance;
  property_identifier = property;
  use_array_index = false;
  property_array_index = 0;
}

active-mstp :
    (d : Device)
    → d.options.data_link ≡ mstp
    → active_network_port_instance d ≡ mstp_network_port_instance
unfolding active_network_port_instance
active-mstp d link = simp (active_network_port_instance, link) refl

-- On MS/TP a write of Max_Master or Max_Info_Frames to the port is accepted whatever its value, and
-- is read back limited to 127, and to 1..255.
pub get_property_unsigned_integer-mstp_port :
    (host : Host) (fl : Floats) (d : Device) (value priority : ℕ)
    → d.options.data_link ≡ mstp
    → (d' : Device) × (d'' : Device) × (set_property_unsigned_integer host fl d
          (mstp_port d property_identifier_max_master)
          value
          priority
        ≡ (d', accepted))
      × (get_property_unsigned_integer fl d' (mstp_port d property_identifier_max_master)
          ≡ answer (if ltb 127 value then 127 else value))
      × (set_property_unsigned_integer host fl d
            (mstp_port d property_identifier_max_info_frames)
            value
            priority
          ≡ (d'', accepted))
      × (get_property_unsigned_integer fl d'' (mstp_port d property_identifier_max_info_frames)
          ≡ answer (if ltb value 1 then 1 else if ltb 255 value then 255 else value))
unfolding set_property_unsigned_integer get_property_unsigned_integer
get_property_unsigned_integer-mstp_port host fl d value priority link =
    let same : (d.device_instance == d.device_instance) ≡ true = ground arith in
    let active = active-mstp d link in
    let d' = record d {
      options = record (d.options) { mstp_max_master = if ltb 127 value then 127 else value };
    } in
    let d'' = record d {
      options = record (d.options) {
        mstp_max_info_frames = if ltb value 1 then 1 else if ltb 255 value then 255 else value;
      };
    } in
    (
      d',
      d'',
      simp (same, link, active) refl,
      simp (same, link) refl,
      simp (same, link, active) refl,
      simp (same, link) refl,
    )
