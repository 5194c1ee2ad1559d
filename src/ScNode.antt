-- ===== src/ScNode.antt =====
-- sc/ScNode.cpp: the certificate File objects 2 to 5, the activation of staged certificates, the
-- Network Port commands, and the hub connection's state as main.cpp sees it.
pub mod Hub
pub mod Uuid
use bacnet_profile_example_b.Base.{
  ℕ, ◌+◌, ◌-◌, Bool, true, false, ◌&&◌, ◌||◌, not, List, [], Option, none, some, if◌then◌else◌,
  length, take, drop, ltb, leb, ◌==◌,
}
use bacnet_profile_example_b.Base.Int.{ℤ}
use bacnet_profile_example_b.Base.Text.{codes}
use bacnet_profile_example_b.Cert.Host.{Host}
use bacnet_profile_example_b.Cert.Store.{
  CertStore, stat, read, write, Written, resize_file, Resized, resize_refused, has_staged_changes,
  discard_staged,
}
use bacnet_profile_example_b.Cert.Validate.{Answer, validate_staged}
use bacnet_profile_example_b.Cert.Commit.{commit_staged}
use bacnet_profile_example_b.Cert.Keys.{generate_key_and_csr}
use bacnet_profile_example_b.Cert.Bundle.{write_trusted_issuer_bundle}

abbrev pub file_operational_certificate_instance : ℕ
file_operational_certificate_instance = 2

abbrev pub file_issuer_certificate_1_instance : ℕ
file_issuer_certificate_1_instance = 3

abbrev pub file_issuer_certificate_2_instance : ℕ
file_issuer_certificate_2_instance = 4

abbrev pub file_certificate_signing_request_instance : ℕ
file_certificate_signing_request_instance = 5

abbrev pub network_port_command_discard_changes : ℕ
network_port_command_discard_changes = 1

abbrev pub network_port_command_generate_csr_file : ℕ
network_port_command_generate_csr_file = 9

abbrev pub error_code_invalid_configuration_data : ℕ
error_code_invalid_configuration_data = 46

abbrev pub error_code_optional_functionality_not_supported : ℕ
error_code_optional_functionality_not_supported = 45

abbrev pub state_machine_hub_connection_status : ℕ
state_machine_hub_connection_status = 1

-- `g_certPaths.trustedIssuers` and the other globals of the file.
pub record ScState : Type 0 where
  pub store : CertStore
  pub trusted_issuers : ℕ
  pub reload_credentials_requested : Bool
  pub hub_connected_event : Bool
  pub primary_hub_uri : List ℕ
  pub failover_hub_uri : List ℕ
  pub hub_connection_status : ℕ

unfoldable pub is_certificate_file : ℕ → Bool
is_certificate_file file =
    leb file_operational_certificate_instance file
    && leb file file_certificate_signing_request_instance

unfoldable pub certificate_file_name : ℕ → List ℕ
certificate_file_name file =
    if file == file_operational_certificate_instance
    then codes "Operational Certificate"
    else if file == file_issuer_certificate_1_instance
    then codes "Issuer Certificate 1"
    else if file == file_issuer_certificate_2_instance
    then codes "Issuer Certificate 2"
    else if file == file_certificate_signing_request_instance
    then codes "Certificate Signing Request"
    else codes "?"

unfoldable pub is_certificate_file_read_only : ℕ → Bool
is_certificate_file_read_only file = file == file_certificate_signing_request_instance

-- The size that File_Size answers.
unfoldable pub get_certificate_file_size : ScState → ℕ → Option ℕ
unfolding is_certificate_file stat
get_certificate_file_size sc file =
    if is_certificate_file file
    then elim (stat sc.store file) [ none ↦ none | some (size, modified) ↦ some size ]
    else none

unfoldable pub get_certificate_file_modified : ScState → ℕ → Option ℕ
unfolding is_certificate_file stat
get_certificate_file_modified sc file =
    if is_certificate_file file
    then elim (stat sc.store file) [ none ↦ none | some (size, modified) ↦ some modified ]
    else none

-- The octets handed out and the end-of-file flag.
pub record Chunk : Type 0 where
  pub octets : List ℕ
  pub end_of_file : Bool

unfoldable pub chunk_of : List ℕ → ℕ → ℕ → ℕ → Chunk
chunk_of bytes file_start requested_count max_length =
    let available = length bytes - file_start in
    let wanted = if ltb requested_count available then requested_count else available in
    let count = if ltb max_length wanted then max_length else wanted in
    record {
      octets = take count (drop file_start bytes);
      end_of_file = leb (length bytes) (file_start + count);
    }

unfoldable pub read_certificate_file : ScState → ℕ → ℕ → ℕ → ℕ → Option Chunk
unfolding is_certificate_file read chunk_of
read_certificate_file sc file file_start requested_count max_length =
    if is_certificate_file file
    then elim (read sc.store file) [
      | none ↦ none
      | some bytes ↦
          if ltb (length bytes) file_start
          then none
          else some (chunk_of bytes file_start requested_count max_length)
    ]
    else none

-- `none`: refused with no error code named.
unfoldable pub write_certificate_file : Host → ScState → ℕ → ℤ → List ℕ → ScState × Option Written
unfolding is_certificate_file is_certificate_file_read_only write
write_certificate_file host sc file file_start octets =
    let (store, outcome) = write host sc.store file file_start octets in
    if not (is_certificate_file file) || is_certificate_file_read_only file
    then (sc, none)
    else (record sc { store = store }, some outcome)

unfoldable pub resize_certificate_file : Host → ScState → ℕ → ℕ → ScState × Resized
unfolding is_certificate_file is_certificate_file_read_only resize_file
resize_certificate_file host sc file new_size =
    let (store, outcome) = resize_file host sc.store file new_size in
    if not (is_certificate_file file) || is_certificate_file_read_only file
    then (sc, resize_refused none)
    else (record sc { store = store }, outcome)

-- After a commit that succeeded: the bundle is refreshed (a failure is only printed), and the
-- reload is asked for.
refresh_trust : Host → ScState → ScState
unfolding write_trusted_issuer_bundle
refresh_trust host sc =
    let (store, done) = write_trusted_issuer_bundle host sc.store sc.trusted_issuers in
    record sc { store = store; reload_credentials_requested = true }

commit_certificates : Host → ScState → CertStore × Answer → ScState × Option ℕ
unfolding refresh_trust
commit_certificates host sc (store, some why) =
    (record sc { store = store }, some error_code_invalid_configuration_data)
commit_certificates host sc (store, none) = (refresh_trust host (record sc { store = store }), none)

validated : Host → ScState → CertStore × Answer → ScState × Option ℕ
unfolding commit_certificates commit_staged
validated host sc (store, some why) =
    (record sc { store = store }, some error_code_invalid_configuration_data)
validated host sc (store, none) = commit_certificates host sc (commit_staged host store)

-- `none` is acceptance, `some code` a refusal with that error code.
unfoldable pub apply_staged_certificates : Host → ScState → ScState × Option ℕ
unfolding has_staged_changes validate_staged validated
apply_staged_certificates host sc =
    if has_staged_changes sc.store
    then validated host sc (validate_staged host sc.store)
    else (sc, none)

generated : ScState → CertStore × Answer → ScState × Option ℕ
generated sc (store, some why) =
    (record sc { store = store }, some error_code_invalid_configuration_data)
generated sc (store, none) = (record sc { store = store }, none)

unfoldable pub network_port_command : Host → ScState → ℕ → ScState × Option ℕ
unfolding discard_staged generated generate_key_and_csr
network_port_command host sc command =
    if command == network_port_command_discard_changes
    then (record sc { store = discard_staged sc.store }, none)
    else if command == network_port_command_generate_csr_file
    then generated sc (generate_key_and_csr host sc.store)
    else (sc, some error_code_optional_functionality_not_supported)

-- `CallbackBACnetSCStateChange`.
unfoldable pub state_change : ScState → ℕ → ℕ → ScState
state_change sc state_machine new_state =
    if state_machine == state_machine_hub_connection_status
    then record sc {
      hub_connection_status = new_state;
      hub_connected_event =
          if new_state == 1 || new_state == 2 then true else sc.hub_connected_event;
    }
    else sc

unfoldable pub take_hub_connected_event : ScState → ScState × Bool
take_hub_connected_event sc = (record sc { hub_connected_event = false }, sc.hub_connected_event)

unfoldable pub connected_hub_uri : ScState → List ℕ
connected_hub_uri sc =
    if sc.hub_connection_status == 1
    then sc.primary_hub_uri
    else if sc.hub_connection_status == 2
    then sc.failover_hub_uri
    else []
