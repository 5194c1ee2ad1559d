-- ===== src/HubConnector.antt =====
-- sc/ScHubConnector.cpp: the state of the connections to a hub, and what libwebsockets is asked for.
-- libwebsockets is not in the repository: the record `Websockets` stands for its functions, a
-- `Report` for one call of the protocol callback. A socket and a context are numbers (`lws*`,
-- `lws_context*`), NULL is none.
pub mod Uri
pub mod UriRoundTrip
pub mod Callback
pub mod Api
pub mod Run
pub mod Sound
pub mod Stale
pub mod Attempt
pub mod Invariant
pub mod Assembly
pub mod Message
pub mod Queue
pub mod Reload
pub mod Failure
use bacnet_profile_example_b.Base.{ℕ, Bool, true, false, List, [], ◌∷◌, ◌++◌, Option, none, some}
use bacnet_profile_example_b.Base.Int.{ℤ}
use bacnet_profile_example_b.Base.Text.{codes}
use bacnet_profile_example_b.Base.TextMap.{lookup, insert}

abbrev pub hub_subprotocol : List ℕ
hub_subprotocol = codes "hub.bsc.bacnet.org"

abbrev pub max_received_frame_octets : ℕ
max_received_frame_octets = 1600

abbrev pub max_queued_frames : ℕ
max_queued_frames = 64

abbrev pub websocket_status_connected : ℕ
websocket_status_connected = 2

abbrev pub websocket_status_disconnected : ℕ
websocket_status_disconnected = 3

abbrev pub websocket_status_error : ℕ
websocket_status_error = 4

pub record Connection : Type 0 where
  pub uri : List ℕ
  pub socket : Option ℕ
  pub is_open : Bool
  pub close_requested : Bool
  pub send_queue : List (List ℕ)
  pub receive_assembly : List ℕ
  pub receive_overflow : Bool

pub record TlsFiles : Type 0 where
  pub trusted_issuers : List ℕ
  pub certificate : List ℕ
  pub private_key : List ℕ
  pub private_key_password : Option (List ℕ)

pub record StatusEvent : Type 0 where
  pub uri : List ℕ
  pub status : ℕ

pub record ReceivedFrame : Type 0 where
  pub uri : List ℕ
  pub octets : List ℕ

-- The file's globals.
pub record Connector : Type 0 where
  pub context : Option ℕ
  pub tls_files : TlsFiles
  pub connections : List (List ℕ × Connection)
  pub status_events : List StatusEvent
  pub received_frames : List ReceivedFrame
  pub reloading : Bool

-- `reason` with `in`, `length` and what the callback asks libwebsockets about the message: whether
-- it is binary, whether this is its last fragment; and what `lws_write` returns for a frame.
pub data Reason : Type 0 where
  established connection_error closed other : Reason
  receive : (binary final : Bool) (octets : List ℕ) → Reason
  writeable : (List ℕ → ℤ) → Reason

-- A call of the callback; `user` is the entry that the socket's user data points to.
pub record Report : Type 0 where
  pub socket : ℕ
  pub user : Option (List ℕ)
  pub reason : Reason

-- `lws_client_connect_info`, as far as it is set from the URI.
pub record ConnectInfo : Type 0 where
  pub address : List ℕ
  pub port : ℕ
  pub path : List ℕ
  pub protocol : List ℕ

-- `lws_create_context`, `lws_client_connect_via_info` and `lws_context_destroy`: the last two may
-- call the callback before they return.
pub record Websockets : Type 0 where
  pub create_context : TlsFiles → Option ℕ
  pub connect : ℕ → ConnectInfo → List Report × Option ℕ
  pub destroy : ℕ → List Report

-- What libwebsockets is asked to do with a socket.
pub data Call : Type 0 where
  callback_on_writable kill close_normal : ℕ → Call
  write : ℕ → List ℕ → Call

unfoldable pub queue_status : Connector → List ℕ → ℕ → Connector
queue_status s uri status = record s {
  status_events = s.status_events ++ (record { uri = uri; status = status } ∷ []);
}

-- The entry that `g_connections[uri]` makes.
abbrev pub new_connection : Connection
new_connection = record {
  uri = [];
  socket = none;
  is_open = false;
  close_requested = false;
  send_queue = [];
  receive_assembly = [];
  receive_overflow = false;
}

abbrev pub with_connection : Connector → List ℕ → Connection → Connector
with_connection s key c = record s { connections = insert key c s.connections }
