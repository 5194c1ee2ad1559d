-- ===== src/Tests/DeviceTests.antt =====
-- The results on the device, applied to one at power-on.
use bacnet_profile_example_b.Base.{
  inl, overwrite, ℕ, ◌≡◌, ◌≢◌, refl, true, List, [], ◌∷◌, some, ◌==◌, arith, inr, replicate,
}
use bacnet_profile_example_b.Base.Int.{pos, negsuc}
use bacnet_profile_example_b.Bacnet.{reinitialize_state_coldstart}
use bacnet_profile_example_b.Tests.{floats, host, device, ivory}
use bacnet_profile_example_b.Priority.{effective_priority, at_power_on}
use bacnet_profile_example_b.Priority.Slots.{
  commanded-at_power_on, at_power_on-IsSixteen, commanded, commanded-run, run, write, relinquish,
  Command,
}
use bacnet_profile_example_b.Device.{Device, IvoryFile, cold, accepted, answer, analog, binary}
use bacnet_profile_example_b.Device.Get.Real.{get_property_real}
use bacnet_profile_example_b.Device.Get.Enumerated.{get_property_enumerated}
use bacnet_profile_example_b.Device.Get.Flag.{get_property_bool}
use bacnet_profile_example_b.Device.Set.{
  set_property_real, set_property_enumerated, set_property_null,
}
use bacnet_profile_example_b.Device.Commands.{present_value, slot}
use bacnet_profile_example_b.Device.Commands.RoundTrip.{
  get_property_real-set_property_real, get_property_enumerated-set_property_enumerated,
  get_property_bool-set_property_null,
}
use bacnet_profile_example_b.Device.Invariant.{IsWellFormed}
use bacnet_profile_example_b.Device.Invariant.Reached.{
  EndsWell, perform_all, perform_all-IsWellFormed, enumerated, null, file, Write,
}
use bacnet_profile_example_b.Device.Ivory.{write_ivory, read_ivory, acknowledged, overrun}
use bacnet_profile_example_b.Device.Ivory.RoundTrip.{
  Fits, read_ivory-write_ivory, write_ivory-ne-overrun, write_ivory-negative_start,
}
use bacnet_profile_example_b.Device.Services.{reinitialize_device}
use bacnet_profile_example_b.Device.Services.Restart.{reinitialize_device-restart, state_of}
use bacnet_profile_example_b.Device.Password.{password_accepted}

abbrev commands : List Command
commands = write 8 5 ∷ write 20 6 ∷ relinquish 8 ∷ []

commanded-run_example : commanded (run (at_power_on 1) commands) 16 ≡ some 6
unfolding effective_priority
commanded-run_example = commanded-run commands 1 16 (omega arith)

get_property_real-set_property_real_example :
    (d' : Device) × (set_property_real floats device (present_value device analog) 0x42280000 8
      ≡ (d', accepted))
    × (get_property_real floats d' (slot device analog 8) ≡ answer 0x42280000)
get_property_real-set_property_real_example =
    get_property_real-set_property_real floats device 0x42280000 8 8 (at_power_on-IsSixteen 21)
      (omega arith) refl (omega arith) (omega arith)

get_property_enumerated-set_property_enumerated_example :
    (d' : Device) × (set_property_enumerated floats device (present_value device binary) 1 8
      ≡ (d', accepted))
    × (get_property_enumerated floats d' (slot device binary 8) ≡ answer 1)
unfolding effective_priority
get_property_enumerated-set_property_enumerated_example =
    get_property_enumerated-set_property_enumerated floats device 1 8 8 (at_power_on-IsSixteen 0)
      (omega arith) (omega arith) (omega arith)

get_property_bool-set_property_null_example :
    (d' : Device) × (set_property_null device (present_value device analog) 8 ≡ (d', accepted))
    × (get_property_bool d' (slot d' analog 8) ≡ answer true)
unfolding effective_priority
get_property_bool-set_property_null_example =
    get_property_bool-set_property_null device analog 8 8 (at_power_on-IsSixteen 21) (omega arith)
      (omega arith)

device-IsWellFormed : IsWellFormed floats device
device-IsWellFormed = record {
  analog_sixteen = at_power_on-IsSixteen 21;
  binary_sixteen = at_power_on-IsSixteen 0;
  multi_state_sixteen = at_power_on-IsSixteen 1;
  binary_values = λ j v low e. absurd (ground (arith, e, commanded-at_power_on 0 j));
  states = λ j v low e. absurd (ground (arith, e, commanded-at_power_on 1 j));
  buffer_length = refl;
  used_bound = omega arith;
}

abbrev writes : List Write
writes =
    enumerated (present_value device binary) 1 8
    ∷ file 389001 1 (negsuc 0) (b'A' ∷ b'B' ∷ [])
    ∷ null (present_value device binary) 8
    ∷ []

perform_all-IsWellFormed_example : EndsWell floats (perform_all host floats (some device) writes)
perform_all-IsWellFormed_example =
    perform_all-IsWellFormed host floats device writes device-IsWellFormed
      (inl refl, omega arith, tt)

ivory-Fits : Fits ivory
ivory-Fits = record { buffer_length = refl; used_bound = omega arith }

abbrev text : List ℕ
text = b'A' ∷ b'B' ∷ []

-- What appending two octets leaves.
abbrev appended : IvoryFile
appended = record ivory { buffer = overwrite (replicate 4096 0) 12 text; used = 14 }

appends : write_ivory ivory (negsuc 0) text ≡ acknowledged 12 appended
unfolding write_ivory
appends = refl

read_ivory-write_ivory_example : (read_ivory appended 12 2 1000).octets ≡ text
read_ivory-write_ivory_example =
    read_ivory-write_ivory ivory appended (negsuc 0) text 12 1000 ivory-Fits (omega arith) appends

write_ivory-ne-overrun_example : write_ivory ivory (pos 4095) text ≢ overrun
write_ivory-ne-overrun_example =
    write_ivory-ne-overrun ivory (pos 4095) text ivory-Fits (inr (4095, refl, omega arith))
      (omega arith)

write_ivory-negative_start_example : write_ivory ivory (negsuc 1) text ≡ overrun
write_ivory-negative_start_example =
    write_ivory-negative_start ivory 1 text (omega arith) (omega arith) (omega arith) (omega arith)

abbrev password : List ℕ
password = b'1' ∷ b'2' ∷ []

cold_restart : (reinitialize_device password host device 389001 0 (some password)).1 ≡ some cold
unfolding reinitialize_device
cold_restart = refl

reinitialize_device-restart_example :
    ((389001 == 389001) ≡ true)
    × (password_accepted password (some password) ≡ true)
    × (reinitialize_state_coldstart ≡ state_of cold)
    × ((reinitialize_device password host device 389001 0 (some password)).2 ≡ accepted)
reinitialize_device-restart_example =
    reinitialize_device-restart password host device 389001 0 (some password) cold cold_restart
