-- ===== src/Device/Services.antt =====
-- main.cpp, sections 2c and 2d: the service callbacks. `required` is DCC_PASSWORD.
pub mod Restart
use bacnet_profile_example_b.Base.{
  ℕ, Bool, ◌&&◌, ◌||◌, not, List, Option, none, some, if◌then◌else◌, ◌==◌,
}
use bacnet_profile_example_b.Options.{DataLink, same_link}
use bacnet_profile_example_b.Cert.Host.{Host}
use bacnet_profile_example_b.ScNode.{ScState, apply_staged_certificates}
use bacnet_profile_example_b.ScNode
use bacnet_profile_example_b.Device.{
  Device, Verdict, accepted, declined, rejected, RestartKind, cold, warm,
}
use bacnet_profile_example_b.Device.Password.{Supplied, password_accepted, dcc_password_matches}
use bacnet_profile_example_b.Bacnet.{
  error_code_optional_functionality_not_supported, error_code_password_failure,
  reinitialize_state_activate_changes, reinitialize_state_warmstart, reinitialize_state_coldstart,
  reinitialize_state_startbackup, reinitialize_state_endbackup, reinitialize_state_startrestore,
  reinitialize_state_endrestore, reinitialize_state_abortrestore, sc_network_port_instance,
  network_port_command_discard_changes, object_type_analog_value, analog_value_instance,
  error_code_value_out_of_range,
}

-- The requested state is only printed: the stack runs the communication state machine.
unfoldable pub device_communication_control : List ℕ → Device → ℕ → Supplied → Verdict
unfolding dcc_password_matches
device_communication_control required d device_instance supplied =
    if not (device_instance == d.device_instance)
    then rejected error_code_optional_functionality_not_supported
    else if dcc_password_matches required supplied
    then accepted
    else rejected error_code_password_failure

-- The device, the restart that is asked of the helper if any, and the verdict.
abbrev pub Reinitialized : Type 0
Reinitialized = Device × Option RestartKind × Verdict

is_backup_state : ℕ → Bool
is_backup_state state =
    state == reinitialize_state_startbackup
    || state == reinitialize_state_endbackup
    || state == reinitialize_state_startrestore
    || state == reinitialize_state_endrestore
    || state == reinitialize_state_abortrestore

-- From the point where the staged certificates, if they matter, are in place.
unfoldable pub act_on_state : Device → ℕ → Reinitialized
unfolding is_backup_state
act_on_state d state =
    if state == reinitialize_state_activate_changes
    then (d, none, accepted)
    else if state == reinitialize_state_coldstart
    then (d, some cold, accepted)
    else if state == reinitialize_state_warmstart
    then (d, some warm, accepted)
    else if is_backup_state state
    then (d, none, accepted)
    else (d, none, rejected error_code_optional_functionality_not_supported)

unfoldable pub after_certificates : Device → ℕ → ScState × Option ℕ → Reinitialized
unfolding act_on_state
after_certificates d state (sc', some code) = (record d { sc = sc' }, none, rejected code)
after_certificates d state (sc', none) = act_on_state (record d { sc = sc' }) state

unfoldable pub reinitialize_device : List ℕ → Host → Device → ℕ → ℕ → Supplied → Reinitialized
unfolding password_accepted apply_staged_certificates after_certificates act_on_state
reinitialize_device required host d device_instance state supplied =
    if not (device_instance == d.device_instance)
    then (d, none, rejected error_code_optional_functionality_not_supported)
    else if not (password_accepted required supplied)
    then (d, none, rejected error_code_password_failure)
    else if same_link d.options.data_link DataLink.sc
        && (state == reinitialize_state_activate_changes || state == reinitialize_state_warmstart)
    then after_certificates d state (apply_staged_certificates host d.sc)
    else act_on_state d state

sc_command : Device → ScState × Option ℕ → Device × Verdict
sc_command d (sc', some code) = (record d { sc = sc' }, rejected code)
sc_command d (sc', none) = (record d { sc = sc' }, accepted)

unfoldable pub network_port_command : Host → Device → ℕ → ℕ → ℕ → Device × Verdict
unfolding sc_command ScNode.network_port_command
network_port_command host d device_instance port command =
    if not (device_instance == d.device_instance)
    then (d, rejected error_code_optional_functionality_not_supported)
    else if same_link d.options.data_link DataLink.sc && port == sc_network_port_instance
    then sc_command d (ScNode.network_port_command host d.sc command)
    else if command == network_port_command_discard_changes
    then (d, accepted)
    else (d, rejected error_code_optional_functionality_not_supported)

-- PrepareBackup, CompleteBackup, PrepareRestore and CompleteRestore only print.
unfoldable pub backup_callback : Device → ℕ → Bool
backup_callback d device_instance = device_instance == d.device_instance

unfoldable pub acknowledge_alarm : Device → ℕ → ℕ → ℕ → Verdict
acknowledge_alarm d device_instance event_object_type event_object_instance =
    if not (device_instance == d.device_instance)
    then declined
    else if not (event_object_type == object_type_analog_value)
        || not (event_object_instance == analog_value_instance)
    then rejected error_code_value_out_of_range
    else accepted
