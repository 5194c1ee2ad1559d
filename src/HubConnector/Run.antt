-- ===== src/HubConnector/Run.antt =====
-- The hub connector's calls in any order, as ScNode.cpp and libwebsockets make them.
use bacnet_profile_example_b.Base.{
  ℕ, ◌≡◌, ◌≢◌, ◌≤◌, true, false, List, [], ◌∷◌, Option, none, some, length,
}
use bacnet_profile_example_b.Base.TextMap.{EachValue}
use bacnet_profile_example_b.HubConnector.{
  Connection, Connector, TlsFiles, ReceivedFrame, Report, Websockets,
}
use bacnet_profile_example_b.HubConnector.Api.{
  start, connect, disconnect, send, service, pop_status_event, pop_received, reload_credentials,
}

pub data Operation : Type 0 where
  starting : Websockets → TlsFiles → Operation
  connecting : Websockets → List ℕ → Operation
  disconnecting : List ℕ → Operation
  sending : List ℕ → List ℕ → Operation
  servicing : List Report → Operation
  popping_status popping_frame : Operation
  reloading : Websockets → TlsFiles → Operation

abbrev pub or_kept : Connector → Option Connector → Connector
or_kept s none = s
or_kept s (some s') = s'

unfoldable pub perform : Operation → Connector → Connector
perform (starting ws files) s = start ws files s
perform (connecting ws uri) s = (connect ws uri s).0
perform (disconnecting uri) s = (disconnect uri s).0
perform (sending uri frame) s = or_kept s (send uri frame s)
perform (servicing reports) s = service reports s
perform popping_status s = (pop_status_event s).0
perform popping_frame s = (pop_received s).0
perform (reloading ws files) s = reload_credentials ws files s

unfoldable pub perform_all : List Operation → Connector → Connector
perform_all [] s = s
perform_all (operation ∷ operations) s = perform_all operations (perform operation s)

-- The globals before `Start`.
abbrev pub initial : Connector
initial = record {
  context = none;
  tls_files = record {
    trusted_issuers = [];
    certificate = [];
    private_key = [];
    private_key_password = none;
  };
  connections = [];
  status_events = [];
  received_frames = [];
  reloading = false;
}

-- An entry keeps its URI; an open one has a socket, and only an open one has frames waiting, of
-- which there are at most 64; at most 1600 octets are put together, none of a dropped message.
pub record IsSound (key : List ℕ) (c : Connection) : Type 0 where
  pub uri : c.uri ≡ key
  pub socket : c.is_open ≡ true → c.socket ≢ none
  pub closed_queue : c.is_open ≡ false → c.send_queue ≡ []
  pub queue_bound : length c.send_queue ≤ 64
  pub assembly_bound : length c.receive_assembly ≤ 1600
  pub dropped : c.receive_overflow ≡ true → c.receive_assembly ≡ []

abbrev pub IsFrame : ReceivedFrame → Type 0
IsFrame f = (1 ≤ length f.octets) × (length f.octets ≤ 1600)

abbrev pub AreFrames : List ReceivedFrame → Type 0
AreFrames [] = Unit {0}
AreFrames (f ∷ fs) = IsFrame f × AreFrames fs

pub record AllSound (s : Connector) : Type 0 where
  pub connections : EachValue IsSound s.connections
  pub frames : AreFrames s.received_frames
  pub not_reloading : s.reloading ≡ false
