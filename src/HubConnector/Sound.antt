-- ===== src/HubConnector/Sound.antt =====
-- The callback keeps every connection well formed.
use bacnet_profile_example_b.Base.{
  ℕ, ◌≡◌, ◌≤◌, refl, sym, ap, ◌∙◌, subst, Bool, true, false, not, ◌&&◌, List, [], ◌∷◌, ◌++◌, Option,
  none, some, length, length-append, arith, by_test,
}
use bacnet_profile_example_b.Base.Int.{ℤ}
use bacnet_profile_example_b.Base.TextMap.{EachValue, lookup, insert-EachValue, lookup-EachValue}
use bacnet_profile_example_b.HubConnector.{
  Connection, Connector, Reason, Report, ReceivedFrame, queue_status, with_connection,
}
use bacnet_profile_example_b.HubConnector.Callback.{
  Handled, on_established, on_lost, assemble, finish_message, on_receive, write_next, on_writeable,
  on_reason, on_connection, on_user, hub_protocol_callback, report_all, is_current, is_short,
  is_empty,
}
use bacnet_profile_example_b.HubConnector.Run.{IsSound, IsFrame, AreFrames}

-- What the callbacks keep; `g_reloading` is as it was.
pub record AreSound (s s' : Connector) : Type 0 where
  pub connections : EachValue IsSound s'.connections
  pub frames : AreFrames s'.received_frames
  pub reloading : s'.reloading ≡ s.reloading

assemble-IsSound :
    (key : List ℕ) (c : Connection) (octets : List ℕ)
    → IsSound key c
    → IsSound key (assemble c octets)
unfolding assemble
assemble-IsSound key c octets h =
    by_test (IsSound key) c.receive_overflow c _ (λ e. h)
      λ e.
        by_test (IsSound key) _ (record c { receive_assembly = []; receive_overflow = true }) _
          (λ f. record {
            uri = h.uri;
            socket = h.socket;
            closed_queue = h.closed_queue;
            queue_bound = h.queue_bound;
            assembly_bound = omega arith;
            dropped = λ d. refl;
          })
          λ f. record {
            uri = h.uri;
            socket = h.socket;
            closed_queue = h.closed_queue;
            queue_bound = h.queue_bound;
            assembly_bound =
                subst (λ n. n ≤ 1600) (sym (length-append c.receive_assembly octets))
                  (ground (arith, f));
            dropped = λ d. absurd (ground (arith, sym d ∙ e));
          }

AreFrames-append :
    (fs : List ReceivedFrame) (f : ReceivedFrame)
    → AreFrames fs
    → IsFrame f
    → AreFrames (fs ++ (f ∷ []))
AreFrames-append [] f h new = (new, tt)
AreFrames-append (g ∷ gs) f (first, rest) new = (first, AreFrames-append gs f rest new)

unchanged :
    (s : Connector) → EachValue IsSound s.connections → AreFrames s.received_frames → AreSound s s
unchanged s connections frames = record {
  connections = connections;
  frames = frames;
  reloading = refl;
}

-- One entry is replaced.
replaced :
    (s : Connector) (key : List ℕ) (c : Connection)
    → EachValue IsSound s.connections
    → AreFrames s.received_frames
    → IsSound key c
    → AreSound s (with_connection s key c)
replaced s key c connections frames h = record {
  connections = insert-EachValue IsSound key c s.connections h connections;
  frames = frames;
  reloading = refl;
}

module _ (s : Connector) (key : List ℕ) (c : Connection) (socket : ℕ)
    (connections : EachValue IsSound s.connections) (frames : AreFrames s.received_frames)
    (h : IsSound key c) where
  on_established-AreSound : AreSound s (on_established s key c socket).connector
  unfolding on_established queue_status
  on_established-AreSound =
      let next =
        replaced s key (record c { socket = some socket; is_open = true }) connections frames
          record {
            uri = h.uri;
            socket = λ e f. absurd (ground (arith, f));
            closed_queue = λ e. absurd (ground (arith, e));
            queue_bound = h.queue_bound;
            assembly_bound = h.assembly_bound;
            dropped = h.dropped;
          } in
      record { connections = next.connections; frames = next.frames; reloading = next.reloading }

  on_lost-AreSound : (status : ℕ) → AreSound s (on_lost s key c status).connector
  unfolding on_lost queue_status
  on_lost-AreSound status =
      let lost = record c { socket = none; is_open = false; send_queue = [] } in
      let next = replaced s key lost connections frames record {
        uri = h.uri;
        socket = λ e. absurd (ground (arith, e));
        closed_queue = λ e. refl;
        queue_bound = omega arith;
        assembly_bound = h.assembly_bound;
        dropped = h.dropped;
      } in
      record { connections = next.connections; frames = next.frames; reloading = next.reloading }

  reset : IsSound key (record c { receive_assembly = []; receive_overflow = false })
  reset = record {
    uri = h.uri;
    socket = h.socket;
    closed_queue = h.closed_queue;
    queue_bound = h.queue_bound;
    assembly_bound = omega arith;
    dropped = λ e. refl;
  }

  finish_message-AreSound : AreSound s (finish_message s key c)
  unfolding finish_message
  finish_message-AreSound =
      let next =
        replaced s key (record c { receive_assembly = []; receive_overflow = false }) connections
          frames reset in
      by_test (AreSound s) (not c.receive_overflow && not (is_empty c.receive_assembly)) _ _
        (λ e. record {
          connections = next.connections;
          frames =
              AreFrames-append s.received_frames _ frames
                (filled c.receive_overflow c.receive_assembly e, h.assembly_bound);
          reloading = refl;
        })
        (λ e. next)
    where
      filled :
          (overflow : Bool) (octets : List ℕ)
          → (not overflow && not (is_empty octets)) ≡ true
          → 1 ≤ length octets
      filled true octets e = absurd (ground (arith, e))
      filled false [] e = absurd (ground (arith, e))
      filled false (x ∷ xs) e = omega arith

  write_next-AreSound :
      (lws_write : List ℕ → ℤ) (frames_left : List (List ℕ))
      → c.send_queue ≡ frames_left
      → AreSound s (write_next s key c socket lws_write frames_left).connector
  unfolding write_next
  write_next-AreSound lws_write [] e = unchanged s connections frames
  write_next-AreSound lws_write (frame ∷ rest) e =
      by_test (λ r. AreSound s (Handled.connector r)) (is_short (lws_write frame) (length frame)) _
        _ (λ f. unchanged s connections frames)
        λ f.
          replaced s key (record c { send_queue = rest }) connections frames
            record {
              uri = h.uri;
              socket = h.socket;
              closed_queue = λ o. absurd (ground (arith, ap length (sym e ∙ h.closed_queue o)));
              queue_bound = omega (arith, h.queue_bound, ap length e);
              assembly_bound = h.assembly_bound;
              dropped = h.dropped;
            }

  on_writeable-AreSound :
      (lws_write : List ℕ → ℤ) → AreSound s (on_writeable s key c socket lws_write).connector
  unfolding on_writeable
  on_writeable-AreSound lws_write =
      by_test (λ r. AreSound s (Handled.connector r)) c.close_requested _
        (write_next s key c socket lws_write c.send_queue) (λ e. unchanged s connections frames)
        λ e. write_next-AreSound lws_write c.send_queue refl

on_receive-AreSound :
    (s : Connector) (key : List ℕ) (c : Connection) (binary final : Bool) (octets : List ℕ)
    → EachValue IsSound s.connections
    → AreFrames s.received_frames
    → IsSound key c
    → AreSound s (on_receive s key c binary final octets).connector
unfolding on_receive
on_receive-AreSound s key c false final octets connections frames h = unchanged s connections frames
on_receive-AreSound s key c true true octets connections frames h =
    finish_message-AreSound s key (assemble c octets) 0 connections frames
      (assemble-IsSound key c octets h)
on_receive-AreSound s key c true false octets connections frames h =
    replaced s key (assemble c octets) connections frames (assemble-IsSound key c octets h)

on_reason-AreSound :
    (s : Connector) (key : List ℕ) (c : Connection) (socket : ℕ) (reason : Reason)
    → EachValue IsSound s.connections
    → AreFrames s.received_frames
    → IsSound key c
    → AreSound s (on_reason s key c socket reason).connector
unfolding on_reason
on_reason-AreSound s key c socket Reason.established connections frames h =
    on_established-AreSound s key c socket connections frames h
on_reason-AreSound s key c socket Reason.connection_error connections frames h =
    on_lost-AreSound s key c socket connections frames h _
on_reason-AreSound s key c socket Reason.closed connections frames h =
    on_lost-AreSound s key c socket connections frames h _
on_reason-AreSound s key c socket Reason.other connections frames h = unchanged s connections frames
on_reason-AreSound s key c socket (Reason.receive binary final octets) connections frames h =
    on_receive-AreSound s key c binary final octets connections frames h
on_reason-AreSound s key c socket (Reason.writeable lws_write) connections frames h =
    on_writeable-AreSound s key c socket connections frames h lws_write

on_connection-AreSound :
    (s : Connector) (key : List ℕ) (o : Option Connection) (socket : ℕ) (reason : Reason)
    → lookup key s.connections ≡ o
    → EachValue IsSound s.connections
    → AreFrames s.received_frames
    → AreSound s (on_connection s key o socket reason).connector
unfolding on_connection
on_connection-AreSound s key none socket reason e connections frames =
    unchanged s connections frames
on_connection-AreSound s key (some c) socket reason e connections frames =
    let P = λ (r : Handled). AreSound s r.connector in
    by_test P s.reloading _ _ (λ f. unchanged s connections frames)
      λ f.
        by_test P (not (is_current c socket)) _ (on_reason s key c socket reason)
          (λ g. unchanged s connections frames)
          λ g.
            on_reason-AreSound s key c socket reason connections frames
              (lookup-EachValue IsSound key c s.connections e connections)

pub hub_protocol_callback-AreSound :
    (s : Connector) (r : Report)
    → EachValue IsSound s.connections
    → AreFrames s.received_frames
    → AreSound s (hub_protocol_callback s r).connector
unfolding hub_protocol_callback on_user
hub_protocol_callback-AreSound s r connections frames = go r.user
  where
    go : (user : Option (List ℕ)) → AreSound s (on_user s user r.socket r.reason).connector
    go none = unchanged s connections frames
    go (some key) =
        on_connection-AreSound s key (lookup key s.connections) r.socket r.reason refl connections
          frames

pub report_all-AreSound :
    (s : Connector) (reports : List Report)
    → EachValue IsSound s.connections
    → AreFrames s.received_frames
    → AreSound s (report_all s reports)
unfolding report_all
report_all-AreSound s [] connections frames = unchanged s connections frames
report_all-AreSound s (r ∷ reports) connections frames =
    let first = hub_protocol_callback-AreSound s r connections frames in
    let rest =
      report_all-AreSound (hub_protocol_callback s r).connector reports first.connections
        first.frames in
    record {
      connections = rest.connections;
      frames = rest.frames;
      reloading = rest.reloading ∙ first.reloading;
    }
