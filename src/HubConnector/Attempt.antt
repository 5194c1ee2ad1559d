-- ===== src/HubConnector/Attempt.antt =====
-- A new attempt and a request to close keep the hub connector well formed.
use bacnet_profile_example_b.Base.{
  ℕ, ◌≡◌, refl, sym, ap, ◌∙◌, subst, true, List, Option, none, some, arith, by_test, if◌then◌else◌,
}
use bacnet_profile_example_b.Base.TextMap.{
  lookup, insert-EachValue, lookup-EachValue, lookup-insert,
}
use bacnet_profile_example_b.Base.Text.{same_text_self}
use bacnet_profile_example_b.HubConnector.Stale.{report_all-lookup}
use bacnet_profile_example_b.HubConnector.{
  Connection, Connector, Report, Websockets, queue_status, with_connection,
}
use bacnet_profile_example_b.HubConnector.Uri.{HubUri, parse_hub_uri}
use bacnet_profile_example_b.HubConnector.Callback.{report_all}
use bacnet_profile_example_b.HubConnector.Api.{
  fresh, connect_info, last_is_other, set_socket, report_failure, attempted, request_close, attempt,
  connect_to, connect, disconnect_from, disconnect,
}
use bacnet_profile_example_b.HubConnector.Run.{IsSound, AllSound}
use bacnet_profile_example_b.HubConnector.Sound.{report_all-AreSound}

fresh-IsSound : (uri : List ℕ) → IsSound uri (fresh uri)
unfolding fresh
fresh-IsSound uri = record {
  uri = refl;
  socket = λ e. absurd (ground (arith, e));
  closed_queue = λ e. refl;
  queue_bound = omega arith;
  assembly_bound = omega arith;
  dropped = λ e. refl;
}

pub with_connection-AllSound :
    (s : Connector) (key : List ℕ) (c : Connection)
    → AllSound s
    → IsSound key c
    → AllSound (with_connection s key c)
with_connection-AllSound s key c h new = record {
  connections = insert-EachValue IsSound key c s.connections new h.connections;
  frames = h.frames;
  not_reloading = h.not_reloading;
}

pub report_all-AllSound :
    (s : Connector) (reports : List Report) → AllSound s → AllSound (report_all s reports)
report_all-AllSound s reports h =
    let sound = report_all-AreSound s reports h.connections h.frames in
    record {
      connections = sound.connections;
      frames = sound.frames;
      not_reloading = sound.reloading ∙ h.not_reloading;
    }

-- The entry of a new attempt is there, and reports leave it alone while it has no socket.
pub report_all-fresh :
    (s : Connector) (uri : List ℕ) (reports : List Report)
    → lookup uri (report_all (with_connection s uri (fresh uri)) reports).connections
      ≡ some (fresh uri)
unfolding fresh
report_all-fresh s uri reports =
    report_all-lookup (with_connection s uri (fresh uri)) uri (fresh uri) reports
      (lookup-insert uri uri (fresh uri) s.connections
        ∙ ap (λ b. if b then some (fresh uri) else lookup uri s.connections) (same_text_self uri))
      refl

report_failure-AllSound :
    (uri : List ℕ) (s : Connector) (socket : Option ℕ)
    → AllSound s
    → AllSound (report_failure uri s socket)
unfolding report_failure queue_status
report_failure-AllSound uri s (some socket) h = h
report_failure-AllSound uri s none h =
    by_test AllSound (last_is_other uri s.status_events) _ s
      (λ e. record {
        connections = h.connections;
        frames = h.frames;
        not_reloading = h.not_reloading;
      })
      (λ e. h)

attempted-AllSound :
    (s : Connector) (uri : List ℕ) (socket : Option ℕ)
    → lookup uri s.connections ≡ some (fresh uri)
    → AllSound s
    → AllSound (attempted s uri socket)
unfolding attempted set_socket fresh
attempted-AllSound s uri socket found h =
    report_failure-AllSound uri (set_socket s uri (lookup uri s.connections) socket) socket (
      subst (λ o. AllSound (set_socket s uri o socket)) (sym found)
        (with_connection-AllSound s uri (record (fresh uri) { socket = socket }) h
          record {
            uri = refl;
            socket = λ e. absurd (ground (arith, e));
            closed_queue = λ e. refl;
            queue_bound = omega arith;
            assembly_bound = omega arith;
            dropped = λ e. refl;
          }))

pub connect-AllSound :
    (ws : Websockets) (uri : List ℕ) (s : Connector) → AllSound s → AllSound (connect ws uri s).0
unfolding connect connect_to attempt
connect-AllSound ws uri s h = go s.context (parse_hub_uri uri)
  where
    go :
        (context : Option ℕ) (parts : Option HubUri)
        → AllSound (connect_to ws uri s context parts).0
    go none parts = h
    go (some context) none = h
    go (some context) (some parts) =
        let s1 = with_connection s uri (fresh uri) in
        let (reports, socket) = ws.connect context (connect_info parts) in
        attempted-AllSound (report_all s1 reports) uri socket (report_all-fresh s uri reports) (
          report_all-AllSound s1 reports
            (with_connection-AllSound s uri (fresh uri) h (fresh-IsSound uri)))

request_close-AllSound :
    (s : Connector) (uri : List ℕ) (c : Connection) (socket : Option ℕ)
    → AllSound s
    → IsSound uri c
    → AllSound (request_close s uri c socket).0
unfolding request_close
request_close-AllSound s uri c none h sound = h
request_close-AllSound s uri c (some socket) h sound =
    with_connection-AllSound s uri (record c { close_requested = true }) h
      record {
        uri = sound.uri;
        socket = sound.socket;
        closed_queue = sound.closed_queue;
        queue_bound = sound.queue_bound;
        assembly_bound = sound.assembly_bound;
        dropped = sound.dropped;
      }

pub disconnect-AllSound :
    (uri : List ℕ) (s : Connector) → AllSound s → AllSound (disconnect uri s).0
unfolding disconnect disconnect_from
disconnect-AllSound uri s h = go (lookup uri s.connections) refl
  where
    go :
        (o : Option Connection)
        → lookup uri s.connections ≡ o
        → AllSound (disconnect_from s uri o).0
    go none e = h
    go (some c) e =
        request_close-AllSound s uri c c.socket h
          (lookup-EachValue IsSound uri c s.connections e h.connections)
