-- ===== src/Device/Restart.antt =====
-- main.cpp, the main loop's restart block: what a cold or a warm start does to the device. Numbers are
-- bit patterns: of a float 21.5 and 50.0, of a double 20.0, 0.0 and 1.0.
pub mod PowerOn
use bacnet_profile_example_b.Priority.{at_power_on}
use bacnet_profile_example_b.Device.{Device, RestartKind, cold, warm}

-- The block of the main loop once a restart of this kind is due.
unfoldable pub restart : Device → RestartKind → Device
restart d cold = record d {
  analog_input_value = 0x41ac0000;
  analog_value = 0x42480000;
  analog_output = at_power_on 0x4034000000000000;
  binary_output = at_power_on 0;
  multi_state_output = at_power_on 0x3ff0000000000000;
}
restart d warm = d
