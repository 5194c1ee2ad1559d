-- ===== src/Tests/HubTests.antt =====
-- One hub connection.
use bacnet_profile_example_b.Base.{
  ℕ, ◌≡◌, refl, true, false, List, [], ◌∷◌, ◌++◌, none, some, length, arith,
}
use bacnet_profile_example_b.Base.Int.{ℤ, pos}
use bacnet_profile_example_b.Base.Text.{codes}
use bacnet_profile_example_b.Base.Decimal.{digits_value}
use bacnet_profile_example_b.Base.TextMap.{lookup}
use bacnet_profile_example_b.HubConnector.{Connection, Connector, TlsFiles, Websockets, Reason}
use bacnet_profile_example_b.CertLayout.{
  resolve_node_cert_paths, paths_among, find_node_ports, parse_device_folder, instance_of, choose,
  fill_cari,
}
use bacnet_profile_example_b.ScNode.Uuid.{
  load_or_create_device_uuid, create_uuid, new_uuid, uuid_text, load_or_create_device_uuid_again,
}
use bacnet_profile_example_b.HubConnector.Uri.{HubUri, parse_hub_uri}
use bacnet_profile_example_b.HubConnector.UriRoundTrip.{
  plain, authority, Lacks, path_text, meant_path, parse_hub_uri-authority,
}
use bacnet_profile_example_b.HubConnector.Callback.{report_all}
use bacnet_profile_example_b.HubConnector.Api.{connect, reload_credentials}
use bacnet_profile_example_b.HubConnector.Assembly.{IsReceiving, message, together}
use bacnet_profile_example_b.HubConnector.Message.{IsDelivered, report_all-message}
use bacnet_profile_example_b.HubConnector.Queue.{TakesAll, send_all, drain, send_all-drain}
use bacnet_profile_example_b.HubConnector.Run.{
  Operation, starting, connecting, servicing, popping_status, reloading, perform_all, initial,
  AllSound,
}
use bacnet_profile_example_b.HubConnector.Invariant.{perform_all-AllSound}
use bacnet_profile_example_b.HubConnector.Reload.{IsReloaded, reload_credentials-closed}

abbrev hub : List ℕ
hub = codes "wss://10.0.0.1:4443"

abbrev files : TlsFiles
files = record {
  trusted_issuers = codes "issuers.pem";
  certificate = codes "device.pem";
  private_key = codes "key.pem";
  private_key_password = none;
}

-- Socket 7 is open and one frame waits.
abbrev connection : Connection
connection = record {
  uri = hub;
  socket = some 7;
  is_open = true;
  close_requested = false;
  send_queue = (1 ∷ 2 ∷ []) ∷ [];
  receive_assembly = [];
  receive_overflow = false;
}

abbrev connector : Connector
connector = record {
  context = some 1;
  tls_files = files;
  connections = (hub, connection) ∷ [];
  status_events = [];
  received_frames = [];
  reloading = false;
}

-- No attempt gets a socket; the failure is reported before the call returns.
abbrev websockets : Websockets
websockets = record {
  create_context = λ files. some 2;
  connect = λ context info.
      (record { socket = 9; user = some hub; reason = Reason.connection_error } ∷ [], none);
  destroy = λ context. record { socket = 7; user = some hub; reason = Reason.closed } ∷ [];
}

hub_entry : lookup hub connector.connections ≡ some connection
unfolding lookup
hub_entry = refl

connection-IsReceiving : IsReceiving connector hub connection 7
connection-IsReceiving = record { entry = hub_entry; current = refl; not_reloading = refl }

report_all-message_example :
    IsDelivered connector
      (report_all connector (message 7 hub ((1 ∷ 2 ∷ []) ∷ (3 ∷ []) ∷ []) (4 ∷ [])))
      hub
      connection.uri
      7
      (together ((1 ∷ 2 ∷ []) ∷ (3 ∷ []) ∷ []) (4 ∷ []))
report_all-message_example =
    report_all-message connector hub connection 7 ((1 ∷ 2 ∷ []) ∷ (3 ∷ []) ∷ []) (4 ∷ [])
      connection-IsReceiving record { overflow = refl; assembly = refl }

abbrev waiting : List (List ℕ)
waiting = (1 ∷ 2 ∷ []) ∷ []

abbrev sent : List (List ℕ)
sent = (3 ∷ []) ∷ (4 ∷ []) ∷ []

abbrev writes_all : List ℕ → ℤ
writes_all frame = pos (length frame)

writes_all-TakesAll : TakesAll writes_all
writes_all-TakesAll frame = ground arith

send_all-drain_example :
    (after : Connector) × (send_all hub sent connector ≡ some after)
    × ((drain 7 hub writes_all (length (waiting ++ sent)) after).1 ≡ waiting ++ sent)
send_all-drain_example =
    send_all-drain hub 7 writes_all sent waiting connector connection connection-IsReceiving
      record { opened = refl; staying = refl; queue = refl } (omega arith) writes_all-TakesAll

reload_credentials-closed_example :
    IsReloaded websockets files connector (reload_credentials websockets files connector)
reload_credentials-closed_example = reload_credentials-closed websockets files connector refl

address_no_slash : Lacks b'/' (codes "10.0.0.1")
address_no_slash = (refl, (refl, (refl, (refl, (refl, (refl, (refl, (refl, tt))))))))

abbrev hub_parts : HubUri
hub_parts = record { host = codes "10.0.0.1"; port = 4443; path = codes "/" }

parse_hub_uri-authority_example :
    parse_hub_uri (codes "wss://" ++ (authority plain (codes "10.0.0.1") 4443 ++ path_text none))
    ≡ some (record { host = codes "10.0.0.1"; port = 4443; path = meant_path none })
parse_hub_uri-authority_example =
    parse_hub_uri-authority plain b'1' (codes "0.0.0.1") 4443 none (omega arith) (omega arith)
      address_no_slash refl

abbrev some_calls : List Operation
some_calls =
    starting websockets files
    ∷ connecting websockets hub
    ∷ servicing (message 9 hub [] (5 ∷ []))
    ∷ popping_status
    ∷ reloading websockets files
    ∷ []

perform_all-AllSound_example : AllSound (perform_all some_calls initial)
perform_all-AllSound_example = perform_all-AllSound some_calls

abbrev slash : List ℕ → List ℕ → List ℕ
slash directory relative = directory ++ (b'/' ∷ relative)

abbrev random : List ℕ
random = 1 ∷ 2 ∷ 3 ∷ 4 ∷ 5 ∷ 6 ∷ 255 ∷ 8 ∷ 255 ∷ 10 ∷ 11 ∷ 12 ∷ 13 ∷ 14 ∷ 15 ∷ 4096 ∷ []

uuid_created :
    load_or_create_device_uuid none random true (some (uuid_text random))
    ≡ (some (uuid_text random), some (new_uuid random))
unfolding load_or_create_device_uuid create_uuid
uuid_created = refl

load_or_create_device_uuid_again_example :
    load_or_create_device_uuid (some (uuid_text random)) [] false none
    ≡ (some (uuid_text random), some (new_uuid random))
load_or_create_device_uuid_again_example =
    load_or_create_device_uuid_again none (some (uuid_text random)) (some (uuid_text random)) none
      random [] true false (new_uuid random) refl refl uuid_created

-- A tree made for another device is used.
other_tree :
    (resolve_node_cert_paths slash
      (some (
        record {
          name = codes "device-12";
          is_directory = true;
          has_key = true;
          has_csr = false;
          has_opr = false;
        }
        ∷ []))
      (codes "certs")
      389005).private_key
    ≡ codes "certs/cert1/device-12/port-4/key-node.pem"
unfolding resolve_node_cert_paths paths_among find_node_ports parse_device_folder instance_of choose
    fill_cari digits_value
other_tree = refl
