-- ===== src/Tests/RequestTests.antt =====
-- More results on the device, applied to one with commanded outputs and to one on MS/TP.
use bacnet_profile_example_b.Base.{ℕ, List, false, some, ◌≡◌, refl, true, [], ◌∷◌, arith}
use bacnet_profile_example_b.Options.{mstp}
use bacnet_profile_example_b.Tests.{floats, host, device, options}
use bacnet_profile_example_b.Priority.{at_power_on, command_write}
use bacnet_profile_example_b.Device.{Device, cold, warm, answer, accepted, analog}
use bacnet_profile_example_b.Device.Get.Flag.{get_property_bool}
use bacnet_profile_example_b.Device.Get.Unsigned.{get_property_unsigned_integer}
use bacnet_profile_example_b.Device.Set.{set_property_unsigned_integer}
use bacnet_profile_example_b.Device.Password.{password_accepted, dcc_password_matches}
use bacnet_profile_example_b.Device.Password.Equality.{password_accepted-dcc_password_matches}
use bacnet_profile_example_b.Device.Commands.{present_value, slot}
use bacnet_profile_example_b.Priority.{effective_priority}
use bacnet_profile_example_b.Priority.Slots.{at_power_on-IsSixteen}
use bacnet_profile_example_b.Device.{multi_state}
use bacnet_profile_example_b.Device.Commands.States.{
  get_property_unsigned_integer-set_property_unsigned_integer,
}
use bacnet_profile_example_b.Device.Port.Clamp.{mstp_port, get_property_unsigned_integer-mstp_port}
use bacnet_profile_example_b.Device.Restart.{restart}
use bacnet_profile_example_b.Device.Restart.PowerOn.{get_property_bool-restart}
use bacnet_profile_example_b.Bacnet.{
  property_identifier_max_master, property_identifier_max_info_frames,
}

-- Analog Output 1 commanded at priority 8.
abbrev commanded_device : Device
commanded_device = record device { analog_output = command_write (at_power_on 21) 8 30 }

get_property_bool-restart_example :
    (get_property_bool
        (restart commanded_device cold)
        (slot (restart commanded_device cold) analog 8)
      ≡ answer true)
    × ((restart commanded_device cold).ivory ≡ commanded_device.ivory)
    × ((restart commanded_device cold).diamond_reliability ≡ commanded_device.diamond_reliability)
    × ((restart commanded_device cold).sc ≡ commanded_device.sc)
    × (get_property_bool
          (restart commanded_device warm)
          (slot (restart commanded_device warm) analog 8)
        ≡ get_property_bool commanded_device (slot commanded_device analog 8))
get_property_bool-restart_example =
    get_property_bool-restart commanded_device analog 8 (omega arith) (omega arith)

get_property_unsigned_integer-set_property_unsigned_integer_example :
    (d' : Device) × (set_property_unsigned_integer host floats device
        (present_value device multi_state)
        3
        8
      ≡ (d', accepted))
    × (get_property_unsigned_integer floats d' (slot device multi_state 8) ≡ answer 3)
unfolding effective_priority
get_property_unsigned_integer-set_property_unsigned_integer_example =
    get_property_unsigned_integer-set_property_unsigned_integer host floats device 3 8 8
      (at_power_on-IsSixteen 1) (omega arith) (omega arith) (omega arith) (omega arith)

-- The device on MS/TP.
abbrev mstp_device : Device
mstp_device = record device { options = record options { data_link = mstp } }

get_property_unsigned_integer-mstp_port_example :
    (d' : Device) × (d'' : Device) × (set_property_unsigned_integer host floats mstp_device
        (mstp_port mstp_device property_identifier_max_master)
        300
        16
      ≡ (d', accepted))
    × (get_property_unsigned_integer floats d'
          (mstp_port mstp_device property_identifier_max_master)
        ≡ answer 127)
    × (set_property_unsigned_integer host floats mstp_device
          (mstp_port mstp_device property_identifier_max_info_frames)
          300
          16
        ≡ (d'', accepted))
    × (get_property_unsigned_integer floats d''
          (mstp_port mstp_device property_identifier_max_info_frames)
        ≡ answer 255)
get_property_unsigned_integer-mstp_port_example =
    get_property_unsigned_integer-mstp_port host floats mstp_device 300 16 refl

abbrev secret : List ℕ
secret = b'1' ∷ b'2' ∷ []

password_accepted-dcc_password_matches_example :
    (password_accepted secret (some (b'1' ∷ b'3' ∷ [])) ≡ false)
    × (dcc_password_matches secret (some (b'1' ∷ b'3' ∷ [])) ≡ false)
password_accepted-dcc_password_matches_example =
    password_accepted-dcc_password_matches secret (some (b'1' ∷ b'3' ∷ []))
