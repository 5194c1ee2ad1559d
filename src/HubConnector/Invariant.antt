-- ===== src/HubConnector/Invariant.antt =====
-- From the start of the program, whatever is called and whatever libwebsockets reports, the hub
-- connector stays well formed.
use bacnet_profile_example_b.Base.{
  ℕ, ◌≡◌, ◌≤◌, refl, sym, ◌∙◌, subst, Bool, true, false, not, ◌||◌, List, [], ◌∷◌, ◌++◌, Option,
  none, some, length, length-append, arith, by_test, leb,
}
use bacnet_profile_example_b.Base.TextMap.{EachValue, lookup, lookup-EachValue}
use bacnet_profile_example_b.HubConnector.{
  Connection, Connector, TlsFiles, Report, ReceivedFrame, StatusEvent, Websockets,
}
use bacnet_profile_example_b.HubConnector.Callback.{report_all}
use bacnet_profile_example_b.HubConnector.Api.{
  create_context, start, send_to, send_on, send, pop_event, pop_status_event, pop_frame,
  pop_received, is_live, close_connections, close_all, destroy_context, reload_credentials, service,
  has_context,
}
use bacnet_profile_example_b.HubConnector.Run.{
  Operation, starting, connecting, disconnecting, sending, servicing, popping_status, popping_frame,
  reloading, or_kept, perform, perform_all, initial, IsSound, AreFrames, AllSound,
}
use bacnet_profile_example_b.HubConnector.Sound.{report_all-AreSound}
use bacnet_profile_example_b.HubConnector.Attempt.{
  with_connection-AllSound, report_all-AllSound, connect-AllSound, disconnect-AllSound,
}

may_send : (is_open full : Bool) → (not is_open || full) ≡ false → (is_open ≡ true) × (full ≡ false)
may_send true false e = (refl, refl)
may_send true true e = absurd (ground (arith, e))
may_send false full e = absurd (ground (arith, e))

send_on-AllSound :
    (s : Connector) (uri frame : List ℕ) (c : Connection) (socket : Option ℕ)
    → AllSound s
    → IsSound uri c
    → AllSound (or_kept s (send_on s uri frame c socket))
unfolding send_on
send_on-AllSound s uri frame c none h sound = h
send_on-AllSound s uri frame c (some socket) h sound =
    by_test (λ o. AllSound (or_kept s o)) (not c.is_open || leb 64 (length c.send_queue)) none _
      (λ e. h)
      λ e.
        let (opened, room) = may_send c.is_open (leb 64 (length c.send_queue)) e in
        with_connection-AllSound s uri (record c { send_queue = c.send_queue ++ (frame ∷ []) }) h
          record {
            uri = sound.uri;
            socket = sound.socket;
            closed_queue = λ f. absurd (ground (arith, sym opened ∙ f));
            queue_bound =
                subst (λ n. n ≤ 64) (sym (length-append c.send_queue (frame ∷ [])))
                  (ground (arith, room));
            assembly_bound = sound.assembly_bound;
            dropped = sound.dropped;
          }

send-AllSound :
    (uri frame : List ℕ) (s : Connector) → AllSound s → AllSound (or_kept s (send uri frame s))
unfolding send send_to
send-AllSound uri frame s h = go (lookup uri s.connections) refl
  where
    go :
        (o : Option Connection)
        → lookup uri s.connections ≡ o
        → AllSound (or_kept s (send_to s uri frame o))
    go none e = h
    go (some c) e =
        send_on-AllSound s uri frame c c.socket h
          (lookup-EachValue IsSound uri c s.connections e h.connections)

close_connections-IsSound :
    (m : List (List ℕ × Connection)) → EachValue IsSound m → EachValue IsSound (close_connections m)
unfolding close_connections
close_connections-IsSound [] h = tt
close_connections-IsSound ((key, c) ∷ m) (sound, rest) =
    by_test (EachValue IsSound) (is_live c) _ _
      (λ e. (
        record {
          uri = sound.uri;
          socket = λ f. absurd (ground (arith, f));
          closed_queue = λ f. refl;
          queue_bound = omega arith;
          assembly_bound = sound.assembly_bound;
          dropped = sound.dropped;
        },
        close_connections-IsSound m rest,
      ))
      λ e. (sound, close_connections-IsSound m rest)

reload_credentials-AllSound :
    (ws : Websockets) (files : TlsFiles) (s : Connector)
    → AllSound s
    → AllSound (reload_credentials ws files s)
unfolding reload_credentials close_all create_context destroy_context
reload_credentials-AllSound ws files s h = go s.context
  where
    closed : Connector
    closed = close_all s

    go :
        (context : Option ℕ)
        → AllSound
            (create_context ws (record (destroy_context ws closed context) { tls_files = files }))
    go none = record {
      connections = close_connections-IsSound s.connections h.connections;
      frames = h.frames;
      not_reloading = h.not_reloading;
    }
    go (some context) =
        let sound =
          report_all-AreSound (record closed { reloading = true }) (ws.destroy context)
            (close_connections-IsSound s.connections h.connections) h.frames in
        record { connections = sound.connections; frames = sound.frames; not_reloading = refl }

service-AllSound :
    (reports : List Report) (s : Connector) → AllSound s → AllSound (service reports s)
unfolding service
service-AllSound reports s h =
    by_test AllSound (has_context s) (report_all s reports) s (λ e. report_all-AllSound s reports h)
      (λ e. h)

AreFrames-tail : (f : ReceivedFrame) (fs : List ReceivedFrame) → AreFrames (f ∷ fs) → AreFrames fs
AreFrames-tail f fs (first, rest) = rest

pop_received-AllSound : (s : Connector) → AllSound s → AllSound (pop_received s).0
unfolding pop_received pop_frame
pop_received-AllSound s h = go s.received_frames refl
  where
    go : (fs : List ReceivedFrame) → s.received_frames ≡ fs → AllSound (pop_frame s fs).0
    go [] e = h
    go (f ∷ fs) e = record {
      connections = h.connections;
      frames = AreFrames-tail f fs (subst AreFrames e h.frames);
      not_reloading = h.not_reloading;
    }

pop_status_event-AllSound : (s : Connector) → AllSound s → AllSound (pop_status_event s).0
unfolding pop_status_event pop_event
pop_status_event-AllSound s h = go s.status_events
  where
    go : (events : List StatusEvent) → AllSound (pop_event s events).0
    go [] = h
    go (e ∷ events) = record {
      connections = h.connections;
      frames = h.frames;
      not_reloading = h.not_reloading;
    }

perform-AllSound :
    (operation : Operation) (s : Connector) → AllSound s → AllSound (perform operation s)
unfolding perform start create_context
perform-AllSound (starting ws files) s h = record {
  connections = h.connections;
  frames = h.frames;
  not_reloading = h.not_reloading;
}
perform-AllSound (connecting ws uri) s h = connect-AllSound ws uri s h
perform-AllSound (disconnecting uri) s h = disconnect-AllSound uri s h
perform-AllSound (sending uri frame) s h = send-AllSound uri frame s h
perform-AllSound (servicing reports) s h = service-AllSound reports s h
perform-AllSound popping_status s h = pop_status_event-AllSound s h
perform-AllSound popping_frame s h = pop_received-AllSound s h
perform-AllSound (reloading ws files) s h = reload_credentials-AllSound ws files s h

perform_all_from :
    (operations : List Operation) (s : Connector) → AllSound s → AllSound (perform_all operations s)
unfolding perform_all
perform_all_from [] s h = h
perform_all_from (operation ∷ operations) s h =
    perform_all_from operations (perform operation s) (perform-AllSound operation s h)

-- After any calls in any order, with any answers and reports of libwebsockets, every entry is under
-- its URI, an open one has a socket, only an open one has frames waiting and at most 64, no message of
-- more than 1600 octets is put together, and every frame kept for the stack has 1 to 1600 octets.
pub perform_all-AllSound : (operations : List Operation) → AllSound (perform_all operations initial)
perform_all-AllSound operations =
    perform_all_from operations initial
      record { connections = tt; frames = tt; not_reloading = refl }
