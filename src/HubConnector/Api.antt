-- ===== src/HubConnector/Api.antt =====
-- sc/ScHubConnector.cpp: the functions that ScNode.cpp calls.
use bacnet_profile_example_b.Base.{
  ℕ, Bool, true, false, not, ◌||◌, List, [], ◌∷◌, ◌++◌, Option, none, some, length, leb,
  if◌then◌else◌,
}
use bacnet_profile_example_b.Base.Text.{same_text}
use bacnet_profile_example_b.Base.TextMap.{lookup}
use bacnet_profile_example_b.HubConnector.{
  Connection, Connector, TlsFiles, StatusEvent, ReceivedFrame, Report, ConnectInfo, Websockets,
  Call, queue_status, with_connection, new_connection, hub_subprotocol, max_queued_frames,
  websocket_status_disconnected, websocket_status_error,
}
use bacnet_profile_example_b.HubConnector.Uri.{HubUri, parse_hub_uri}
use bacnet_profile_example_b.HubConnector.Callback.{report_all}

-- `CreateContext` with the files of `s`; its answer is whether there is a context.
unfoldable pub create_context : Websockets → Connector → Connector
create_context ws s = record s { context = ws.create_context s.tls_files }

abbrev pub has_context : Connector → Bool
has_context s = elim s.context [ none ↦ false | some n ↦ true ]

unfoldable pub start : Websockets → TlsFiles → Connector → Connector
start ws tls_files s = create_context ws (record s { tls_files = tls_files })

-- `g_connections[uri]`, as a new attempt resets it.
unfoldable pub fresh : List ℕ → Connection
fresh uri = record new_connection { uri = uri }

unfoldable pub connect_info : HubUri → ConnectInfo
connect_info parts = record {
  address = parts.host;
  port = parts.port;
  path = parts.path;
  protocol = hub_subprotocol;
}

-- Is the last event of the queue about another URI, or is there none?
unfoldable pub last_is_other : List ℕ → List StatusEvent → Bool
last_is_other uri [] = true
last_is_other uri (e ∷ []) = not (same_text e.uri uri)
last_is_other uri (e ∷ f ∷ events) = last_is_other uri (f ∷ events)

unfoldable pub set_socket : Connector → List ℕ → Option Connection → Option ℕ → Connector
set_socket s uri none socket = s
set_socket s uri (some c) socket = with_connection s uri (record c { socket = socket })

-- `if (connection.socket == NULL)`: the failure is queued, unless the queue ends with this URI.
unfoldable pub report_failure : List ℕ → Connector → Option ℕ → Connector
report_failure uri s (some socket) = s
report_failure uri s none =
    if last_is_other uri s.status_events then queue_status s uri websocket_status_error else s

-- What follows `lws_client_connect_via_info`, which returned `socket`.
unfoldable pub attempted : Connector → List ℕ → Option ℕ → Connector
attempted s uri socket =
    report_failure uri (set_socket s uri (lookup uri s.connections) socket) socket

-- The call of `lws_client_connect_via_info`, with the callbacks that it makes before it returns.
unfoldable pub attempt : Connector → List ℕ → List Report × Option ℕ → Connector
attempt s uri (reports, socket) = attempted (report_all s reports) uri socket

unfoldable pub connect_to :
    Websockets → List ℕ → Connector → Option ℕ → Option HubUri → Connector × Bool
connect_to ws uri s none parts = (s, false)
connect_to ws uri s (some context) none = (s, false)
connect_to ws uri s (some context) (some parts) = (
  attempt (with_connection s uri (fresh uri)) uri (ws.connect context (connect_info parts)),
  true,
)

unfoldable pub connect : Websockets → List ℕ → Connector → Connector × Bool
connect ws uri s = connect_to ws uri s s.context (parse_hub_uri uri)

-- The earlier attempt's socket, which `Connect` has libwebsockets kill.
unfoldable pub connect_calls : Connector → List ℕ → List Call
connect_calls s uri = elim (lookup uri s.connections) [
  | none ↦ []
  | some c ↦ elim c.socket [ none ↦ [] | some socket ↦ Call.kill socket ∷ [] ]
]

unfoldable pub request_close : Connector → List ℕ → Connection → Option ℕ → Connector × List Call
request_close s uri c none = (s, [])
request_close s uri c (some socket) = (
  with_connection s uri (record c { close_requested = true }),
  Call.callback_on_writable socket ∷ [],
)

unfoldable pub disconnect_from : Connector → List ℕ → Option Connection → Connector × List Call
disconnect_from s uri none = (s, [])
disconnect_from s uri (some c) = request_close s uri c c.socket

unfoldable pub disconnect : List ℕ → Connector → Connector × List Call
disconnect uri s = disconnect_from s uri (lookup uri s.connections)

-- `Send` on the entry that was found; none when it is refused.
unfoldable pub send_on : Connector → List ℕ → List ℕ → Connection → Option ℕ → Option Connector
send_on s uri frame c none = none
send_on s uri frame c (some socket) =
    if not c.is_open || leb max_queued_frames (length c.send_queue)
    then none
    else some (with_connection s uri (record c { send_queue = c.send_queue ++ (frame ∷ []) }))

unfoldable pub send_to : Connector → List ℕ → List ℕ → Option Connection → Option Connector
send_to s uri frame none = none
send_to s uri frame (some c) = send_on s uri frame c c.socket

unfoldable pub send : List ℕ → List ℕ → Connector → Option Connector
send uri frame s = send_to s uri frame (lookup uri s.connections)

unfoldable pub pop_event : Connector → List StatusEvent → Connector × Option StatusEvent
pop_event s [] = (s, none)
pop_event s (e ∷ events) = (record s { status_events = events }, some e)

unfoldable pub pop_status_event : Connector → Connector × Option StatusEvent
pop_status_event s = pop_event s s.status_events

unfoldable pub pop_frame : Connector → List ReceivedFrame → Connector × Option ReceivedFrame
pop_frame s [] = (s, none)
pop_frame s (f ∷ frames) = (record s { received_frames = frames }, some f)

unfoldable pub pop_received : Connector → Connector × Option ReceivedFrame
pop_received s = pop_frame s s.received_frames

abbrev pub is_live : Connection → Bool
is_live c = elim c.socket [ none ↦ c.is_open | some n ↦ true ]

-- The loop of `ReloadCredentials`: every live connection is closed.
unfoldable pub close_connections : List (List ℕ × Connection) → List (List ℕ × Connection)
close_connections [] = []
close_connections ((key, c) ∷ m) =
    let rest = close_connections m in
    let closed = record c { socket = none; is_open = false; send_queue = [] } in
    if is_live c then (key, closed) ∷ rest else (key, c) ∷ rest

-- The status events that the loop queues.
unfoldable pub closed_events : List (List ℕ × Connection) → List StatusEvent
closed_events [] = []
closed_events ((key, c) ∷ m) =
    let rest = closed_events m in
    if is_live c then record { uri = key; status = websocket_status_disconnected } ∷ rest else rest

unfoldable pub close_all : Connector → Connector
close_all s = record s {
  connections = close_connections s.connections;
  status_events = s.status_events ++ closed_events s.connections;
}

-- `lws_context_destroy` closes the sockets, with callbacks that come in while `g_reloading` is set.
unfoldable pub destroy_context : Websockets → Connector → Option ℕ → Connector
destroy_context ws s none = s
destroy_context ws s (some context) =
    record (report_all (record s { reloading = true }) (ws.destroy context)) {
      context = none;
      reloading = false;
    }

unfoldable pub reload_credentials : Websockets → TlsFiles → Connector → Connector
reload_credentials ws tls_files s =
    let closed = close_all s in
    let destroyed = destroy_context ws closed closed.context in
    create_context ws (record destroyed { tls_files = tls_files })

-- `Service`: libwebsockets calls the callback for what has happened.
unfoldable pub service : List Report → Connector → Connector
service reports s = if has_context s then report_all s reports else s
