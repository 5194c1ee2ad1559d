-- ===== src/HubConnector/Callback.antt =====
-- sc/ScHubConnector.cpp, `HubProtocolCallback`: what each event does to the connection.
use bacnet_profile_example_b.Base.{
  ℕ, ◌+◌, Bool, true, false, not, ◌&&◌, List, [], ◌∷◌, ◌++◌, Option, none, some, length, ltb, ◌==◌,
  if◌then◌else◌,
}
use bacnet_profile_example_b.Base.Int.{ℤ, pos, negsuc}
use bacnet_profile_example_b.Base.TextMap.{lookup}
use bacnet_profile_example_b.HubConnector.{
  Connection, Connector, Reason, Report, Call, queue_status, with_connection,
  max_received_frame_octets, websocket_status_connected, websocket_status_disconnected,
  websocket_status_error,
}

-- The state, the callback's answer (0, or -1 to close the socket) and the calls it made.
pub record Handled : Type 0 where
  pub connector : Connector
  pub closes : Bool
  pub calls : List Call

abbrev pub kept : Connector → Handled
kept s = record { connector = s; closes = false; calls = [] }

abbrev pub is_empty {ℓ} : {A : Type ℓ} → List A → Bool
is_empty [] = true
is_empty (x ∷ xs) = false

-- The writable callback is asked for while frames wait.
abbrev pub on_writable_while : ℕ → List (List ℕ) → List Call
on_writable_while socket [] = []
on_writable_while socket (frame ∷ frames) = Call.callback_on_writable socket ∷ []

unfoldable pub on_established : Connector → List ℕ → Connection → ℕ → Handled
on_established s key c socket = record {
  connector =
      queue_status (with_connection s key (record c { socket = some socket; is_open = true })) c.uri
        websocket_status_connected;
  closes = false;
  calls = on_writable_while socket c.send_queue;
}

-- `CLIENT_CONNECTION_ERROR` and `CLIENT_CLOSED`, with their status.
unfoldable pub on_lost : Connector → List ℕ → Connection → ℕ → Handled
on_lost s key c status = kept (
    queue_status
      (with_connection s key (record c { socket = none; is_open = false; send_queue = [] })) c.uri
      status)

-- A fragment is appended, or the message is dropped when it gets too long.
unfoldable pub assemble : Connection → List ℕ → Connection
assemble c octets =
    if c.receive_overflow
    then c
    else if ltb max_received_frame_octets (length c.receive_assembly + length octets)
    then record c { receive_assembly = []; receive_overflow = true }
    else record c { receive_assembly = c.receive_assembly ++ octets }

abbrev pub reset_assembly : Connection → Connection
reset_assembly c = record c { receive_assembly = []; receive_overflow = false }

-- The last fragment has arrived: the frame is queued unless it was dropped or is empty.
unfoldable pub finish_message : Connector → List ℕ → Connection → Connector
finish_message s key c =
    let s' = with_connection s key (reset_assembly c) in
    if not c.receive_overflow && not (is_empty c.receive_assembly)
    then record s' {
      received_frames =
          s'.received_frames ++ (record { uri = c.uri; octets = c.receive_assembly } ∷ []);
    }
    else s'

unfoldable pub on_receive :
    Connector → List ℕ → Connection → (binary final : Bool) → List ℕ → Handled
on_receive s key c binary final octets =
    if not binary
    then kept s
    else if final
    then kept (finish_message s key (assemble c octets))
    else kept (with_connection s key (assemble c octets))

-- `written < (int)frame.size()`.
abbrev pub is_short : ℤ → ℕ → Bool
is_short (pos n) size = ltb n size
is_short (negsuc n) size = true

unfoldable pub write_next :
    Connector → List ℕ → Connection → ℕ → (List ℕ → ℤ) → List (List ℕ) → Handled
write_next s key c socket lws_write [] = kept s
write_next s key c socket lws_write (frame ∷ frames) =
    if is_short (lws_write frame) (length frame)
    then record { connector = s; closes = true; calls = Call.write socket frame ∷ [] }
    else record {
      connector = with_connection s key (record c { send_queue = frames });
      closes = false;
      calls = Call.write socket frame ∷ on_writable_while socket frames;
    }

unfoldable pub on_writeable : Connector → List ℕ → Connection → ℕ → (List ℕ → ℤ) → Handled
on_writeable s key c socket lws_write =
    if c.close_requested
    then record { connector = s; closes = true; calls = Call.close_normal socket ∷ [] }
    else write_next s key c socket lws_write c.send_queue

-- The `switch` on the reason.
unfoldable pub on_reason : Connector → List ℕ → Connection → ℕ → Reason → Handled
on_reason s key c socket Reason.established = on_established s key c socket
on_reason s key c socket Reason.connection_error = on_lost s key c websocket_status_error
on_reason s key c socket Reason.closed = on_lost s key c websocket_status_disconnected
on_reason s key c socket (Reason.receive binary final octets) =
    on_receive s key c binary final octets
on_reason s key c socket (Reason.writeable lws_write) = on_writeable s key c socket lws_write
on_reason s key c socket Reason.other = kept s

abbrev pub is_current : Connection → ℕ → Bool
is_current c socket = elim c.socket [ none ↦ false | some n ↦ socket == n ]

-- A superseded attempt's socket is closed when it is up or still talking.
unfoldable pub closes_stale : Reason → Bool
closes_stale Reason.established = true
closes_stale Reason.connection_error = false
closes_stale Reason.closed = false
closes_stale Reason.other = false
closes_stale (Reason.receive binary final octets) = true
closes_stale (Reason.writeable lws_write) = true

unfoldable pub on_connection : Connector → List ℕ → Option Connection → ℕ → Reason → Handled
on_connection s key none socket reason = kept s
on_connection s key (some c) socket reason =
    if s.reloading
    then kept s
    else if not (is_current c socket)
    then record { connector = s; closes = closes_stale reason; calls = [] }
    else on_reason s key c socket reason

unfoldable pub on_user : Connector → Option (List ℕ) → ℕ → Reason → Handled
on_user s none socket reason = kept s
on_user s (some key) socket reason = on_connection s key (lookup key s.connections) socket reason

unfoldable pub hub_protocol_callback : Connector → Report → Handled
hub_protocol_callback s r = on_user s r.user r.socket r.reason

-- The callback is called for each report in turn; what it answers is libwebsockets' to act on.
unfoldable pub report_all : Connector → List Report → Connector
report_all s [] = s
report_all s (r ∷ reports) = report_all (hub_protocol_callback s r).connector reports
