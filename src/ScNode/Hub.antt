-- ===== src/ScNode/Hub.antt =====
-- sc/ScNode.cpp: the hub connection as the stack and the main loop use it. BACnetStack_* is not in
-- the repository: its call that takes a status event is recorded, and what it calls back for that event
-- is the argument `reacts`.
use bacnet_profile_example_b.Base.{
  ℕ, zero, suc, ◌≡◌, refl, ap, ◌∙◌, Bool, false, ◌||◌, List, [], ◌∷◌, Option, none, some,
  if◌then◌else◌, length, ltb,
}
use bacnet_profile_example_b.CertLayout.{NodeCertPaths}
use bacnet_profile_example_b.ScNode.{ScState}
use bacnet_profile_example_b.HubConnector.{
  Connector, TlsFiles, StatusEvent, ReceivedFrame, Report, Websockets,
}
use bacnet_profile_example_b.HubConnector.Api.{
  connect, disconnect, send, service, pop_status_event, pop_event, pop_received, reload_credentials,
}
use bacnet_profile_example_b.HubConnector.Run.{Operation, perform_all}

-- The node's globals with those of ScHubConnector.cpp.
pub record Node : Type 0 where
  pub sc : ScState
  pub hub : Connector
  pub cert_paths : NodeCertPaths
  -- `CASSc::KeyPassword::Get()`
  pub key_password : Option (List ℕ)

unfoldable pub current_tls_files : Node → TlsFiles
current_tls_files node = record {
  trusted_issuers = node.cert_paths.trusted_issuers;
  certificate = node.cert_paths.operational_certificate;
  private_key = node.cert_paths.private_key;
  private_key_password = node.key_password;
}

unfoldable pub callback_initiate_websocket : Websockets → List ℕ → Node → Node × Bool
callback_initiate_websocket ws uri node =
    let (hub, started) = connect ws uri node.hub in (record node { hub = hub }, started)

unfoldable pub callback_disconnect_websocket : List ℕ → Node → Node
callback_disconnect_websocket uri node = record node { hub = (disconnect uri node.hub).0 }

abbrev pub with_event :
    StatusEvent → Option (Connector × List StatusEvent) → Option (Connector × List StatusEvent)
with_event event none = none
with_event event (some (hub, events)) = some (hub, event ∷ events)

-- The `while` of `Service`, with the events that were passed to BACnetStack_SetBACnetSCWebSocketStatus;
-- none when the rounds do not suffice.
unfoldable pub report_statuses :
    (StatusEvent → List Operation) → ℕ → Connector → Option (Connector × List StatusEvent)
report_statuses reacts zero hub = none
report_statuses reacts (suc rounds) hub = elim (pop_status_event hub).1 [
  | none ↦ some (hub, [])
  | some event ↦
      with_event event
        (report_statuses reacts rounds (perform_all (reacts event) (pop_status_event hub).0))
]

-- New certificates are loaded when they were activated.
unfoldable pub reload_if_requested : Websockets → Node → Node
reload_if_requested ws node =
    if node.sc.reload_credentials_requested
    then record node {
      sc = record (node.sc) { reload_credentials_requested = false };
      hub = reload_credentials ws (current_tls_files node) node.hub;
    }
    else node

unfoldable pub finish_service :
    Websockets → Node → Option (Connector × List StatusEvent) → Option (Node × List StatusEvent)
finish_service ws node none = none
finish_service ws node (some (hub, events)) =
    some (reload_if_requested ws (record node { hub = hub }), events)

-- `ScNode::Service`, with what libwebsockets reports and the rounds of the loop.
unfoldable pub node_service :
    Websockets
    → (StatusEvent → List Operation)
    → List Report
    → ℕ
    → Node
    → Option (Node × List StatusEvent)
node_service ws reacts reports rounds node =
    finish_service ws node (report_statuses reacts rounds (service reports node.hub))

-- The frame for the stack with the hub's URI; an oversized one is dropped.
unfoldable pub frame_for_stack : ℕ → ℕ → Option ReceivedFrame → Option ReceivedFrame
frame_for_stack max_message_length max_connection_string_length none = none
frame_for_stack max_message_length max_connection_string_length (some frame) =
    if ltb max_message_length (length frame.octets)
      || ltb max_connection_string_length (length frame.uri)
    then none
    else some frame

unfoldable pub receive_from_hub : ℕ → ℕ → Connector → Connector × Option ReceivedFrame
receive_from_hub max_message_length max_connection_string_length hub =
    let (after, frame) = pop_received hub in
    (after, frame_for_stack max_message_length max_connection_string_length frame)

unfoldable pub sent_or_none : Connector → ℕ → Option Connector → Connector × ℕ
sent_or_none hub message_length none = (hub, 0)
sent_or_none hub message_length (some after) = (after, message_length)

unfoldable pub send_to_hub : List ℕ → List ℕ → Connector → Connector × ℕ
send_to_hub message uri hub = sent_or_none hub (length message) (send uri message hub)

-- A stack that calls nothing back.
abbrev pub silent : StatusEvent → List Operation
silent event = []

report_statuses-all :
    (events : List StatusEvent) (hub : Connector)
    → hub.status_events ≡ events
    → report_statuses silent (suc (length events)) hub
      ≡ some (record hub { status_events = [] }, events)
unfolding report_statuses pop_status_event pop_event perform_all
report_statuses-all [] hub e =
    ap
      (λ es. elim (pop_event hub es).1 [
        | none ↦ some (hub, [])
        | some event ↦ with_event event (report_statuses silent 0 (pop_event hub es).0)
      ])
      e
    ∙ λ i. some (record hub { status_events = e i }, [])
report_statuses-all (event ∷ events) hub e =
    ap
      (λ es. elim (pop_event hub es).1 [
        | none ↦ some (hub, [])
        | some event ↦
            with_event event (report_statuses silent (suc (length events)) (pop_event hub es).0)
      ])
      e
    ∙ ap (with_event event)
        (report_statuses-all events (record hub { status_events = events }) refl)

-- With a stack that calls nothing back for a status event, one round more than events suffices, and
-- one pass of `Service` passes every event that waits after libwebsockets' reports to the stack, each
-- once and in order, and leaves none; when new certificates were activated, the credentials are then
-- reloaded, the request is taken back, and the connections lost by it wait for the next pass.
node_service-report_statuses :
    (ws : Websockets) (reports : List Report) (node : Node)
    → let hub = service reports node.hub in
      node_service ws silent reports (suc (length hub.status_events)) node
      ≡ some (
        (if node.sc.reload_credentials_requested
            then record node {
              sc = record (node.sc) { reload_credentials_requested = false };
              hub =
                  reload_credentials ws
                    (current_tls_files node)
                    (record hub { status_events = [] });
            }
            else record node { hub = record hub { status_events = [] } }),
        hub.status_events,
      )
unfolding node_service finish_service reload_if_requested current_tls_files
node_service-report_statuses ws reports node =
    let hub = service reports node.hub in
    ap (finish_service ws node) (report_statuses-all hub.status_events hub refl)
