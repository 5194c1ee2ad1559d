-- ===== src/HubConnector/Queue.antt =====
-- The frames that wait on a connection: the hub gets them all, in the order in which they were sent.
use bacnet_profile_example_b.Base.{
  ℕ, zero, suc, ◌+◌, ◌≤◌, ◌<◌, ◌≡◌, refl, ap, ◌∙◌, true, false, not, ◌||◌, List, [], ◌∷◌, ◌++◌,
  Option, none, some, length, length-append, arith, if◌then◌else◌, leb, ◌==◌,
}
use bacnet_profile_example_b.Base.Int.{ℤ}
use bacnet_profile_example_b.HubConnector.{Connection, Connector, Reason, Call, with_connection}
use bacnet_profile_example_b.HubConnector.Callback.{
  Handled, on_reason, on_writeable, write_next, hub_protocol_callback, is_short, on_writable_while,
}
use bacnet_profile_example_b.HubConnector.Api.{send, send_to, send_on}
use bacnet_profile_example_b.HubConnector.Assembly.{
  IsReceiving, hub_protocol_callback-on_reason, with_connection-IsReceiving,
}

-- The frames that the calls write.
abbrev pub written : List Call → List (List ℕ)
written [] = []
written (Call.write socket frame ∷ calls) = frame ∷ written calls
written (Call.callback_on_writable socket ∷ calls) = written calls
written (Call.kill socket ∷ calls) = written calls
written (Call.close_normal socket ∷ calls) = written calls

-- So many writable callbacks, with what they write.
unfoldable pub drain : ℕ → List ℕ → (List ℕ → ℤ) → ℕ → Connector → Connector × List (List ℕ)
drain socket key lws_write zero s = (s, [])
drain socket key lws_write (suc rounds) s =
    let h =
      hub_protocol_callback s
        (record { socket = socket; user = some key; reason = Reason.writeable lws_write }) in
    let (s', frames) = drain socket key lws_write rounds h.connector in
    (s', written h.calls ++ frames)

unfoldable pub send_all : List ℕ → List (List ℕ) → Connector → Option Connector
send_all uri [] s = some s
send_all uri (frame ∷ frames) s = elim (send uri frame s) [
  | none ↦ none
  | some s' ↦ send_all uri frames s'
]

-- `lws_write` takes every frame whole.
abbrev pub TakesAll : (List ℕ → ℤ) → Type 0
TakesAll lws_write = (frame : List ℕ) → is_short (lws_write frame) (length frame) ≡ false

-- Open, with these frames waiting, and no request to close it.
pub record IsOpen (c : Connection) (frames : List (List ℕ)) : Type 0 where
  pub opened : c.is_open ≡ true
  pub staying : c.close_requested ≡ false
  pub queue : c.send_queue ≡ frames

current-some :
    (o : Option ℕ) (socket : ℕ)
    → elim o [ none ↦ false | some n ↦ socket == n ] ≡ true
    → (n : ℕ) × (o ≡ some n)
current-some none socket e = absurd (ground (arith, e))
current-some (some n) socket e = (n, refl)

send_on-some :
    (s : Connector) (key frame : List ℕ) (c : Connection) (n : ℕ)
    → c.is_open ≡ true
    → length c.send_queue < 64
    → send_on s key frame c (some n)
      ≡ some (with_connection s key (record c { send_queue = c.send_queue ++ (frame ∷ []) }))
unfolding send_on
send_on-some s key frame c n opened room =
    let not_full : (not c.is_open || leb 64 (length c.send_queue)) ≡ false =
      ap (λ b. not b || leb 64 (length c.send_queue)) opened ∙ ground (arith, room) in
    ap
      (λ b.
        if b
        then none
        else some (with_connection s key (record c { send_queue = c.send_queue ++ (frame ∷ []) })))
      not_full

send-some :
    (s : Connector) (key frame : List ℕ) (c : Connection) (socket : ℕ)
    → IsReceiving s key c socket
    → c.is_open ≡ true
    → length c.send_queue < 64
    → send key frame s
      ≡ some (with_connection s key (record c { send_queue = c.send_queue ++ (frame ∷ []) }))
unfolding send send_to
send-some s key frame c socket h opened room =
    let (n, current) = current-some c.socket socket h.current in
    ap (send_to s key frame) h.entry
    ∙ ap (send_on s key frame c) current
    ∙ send_on-some s key frame c n opened room

-- One writable callback takes the first frame.
hub_protocol_callback-write :
    (s : Connector) (key frame : List ℕ) (frames : List (List ℕ)) (c : Connection) (socket : ℕ)
    (lws_write : List ℕ → ℤ)
    → IsReceiving s key c socket
    → IsOpen c (frame ∷ frames)
    → TakesAll lws_write
    → hub_protocol_callback s
        (record { socket = socket; user = some key; reason = Reason.writeable lws_write })
      ≡ record {
        connector = with_connection s key (record c { send_queue = frames });
        closes = false;
        calls = Call.write socket frame ∷ on_writable_while socket frames;
      }
unfolding on_reason on_writeable write_next
hub_protocol_callback-write s key frame frames c socket lws_write h opened takes =
    hub_protocol_callback-on_reason s key c socket (Reason.writeable lws_write) h
    ∙ ap
        (λ b.
          if b
          then record { connector = s; closes = true; calls = Call.close_normal socket ∷ [] }
          else write_next s key c socket lws_write c.send_queue)
        opened.staying
    ∙ ap (write_next s key c socket lws_write) opened.queue
    ∙ ap
        (λ b.
          if b
          then record { connector = s; closes = true; calls = Call.write socket frame ∷ [] }
          else record {
            connector = with_connection s key (record c { send_queue = frames });
            closes = false;
            calls = Call.write socket frame ∷ on_writable_while socket frames;
          })
        (takes frame)

written-on_writable_while :
    (socket : ℕ) (frames : List (List ℕ)) → written (on_writable_while socket frames) ≡ []
written-on_writable_while socket [] = refl
written-on_writable_while socket (frame ∷ frames) = refl

drain-frames :
    (socket : ℕ) (key : List ℕ) (lws_write : List ℕ → ℤ) (frames : List (List ℕ)) (s : Connector)
    (c : Connection)
    → IsReceiving s key c socket
    → IsOpen c frames
    → TakesAll lws_write
    → (drain socket key lws_write (length frames) s).1 ≡ frames
unfolding drain
drain-frames socket key lws_write [] s c h opened takes = refl
drain-frames socket key lws_write (frame ∷ frames) s c h opened takes =
    let d = record c { send_queue = frames } in
    let rest =
      drain-frames socket key lws_write frames (with_connection s key d) d
        (with_connection-IsReceiving s key c d socket h refl)
        record { opened = opened.opened; staying = opened.staying; queue = refl } takes in
    ap
      (λ (r : Handled).
        written r.calls ++ (drain socket key lws_write (length frames) r.connector).1)
      (hub_protocol_callback-write s key frame frames c socket lws_write h opened takes)
    ∙ ap
        (λ t.
          (frame ∷ t) ++ (drain socket key lws_write (length frames) (with_connection s key d)).1)
        (written-on_writable_while socket frames)
    ∙ ap (λ t. frame ∷ t) rest

append_assoc : (xs ys zs : List (List ℕ)) → (xs ++ ys) ++ zs ≡ xs ++ (ys ++ zs)
append_assoc [] ys zs = refl
append_assoc (x ∷ xs) ys zs = ap (λ ws. x ∷ ws) (append_assoc xs ys zs)

append_nil : (xs : List (List ℕ)) → xs ≡ xs ++ []
append_nil [] = refl
append_nil (x ∷ xs) = ap (λ ws. x ∷ ws) (append_nil xs)

-- The connection after the frames were sent.
pub record HasSent (s : Connector) (key : List ℕ) (frames queue : List (List ℕ)) (socket : ℕ)
    : Type 0 where
  pub after : Connector
  pub sent : send_all key frames s ≡ some after
  pub entry : Connection
  pub receiving : IsReceiving after key entry socket
  pub waiting : IsOpen entry queue

send_all-HasSent :
    (key : List ℕ) (socket : ℕ) (frames queue : List (List ℕ)) (s : Connector) (c : Connection)
    → IsReceiving s key c socket
    → IsOpen c queue
    → length queue + length frames ≤ 64
    → HasSent s key frames (queue ++ frames) socket
unfolding send_all
send_all-HasSent key socket [] queue s c h opened room = record {
  after = s;
  sent = refl;
  entry = c;
  receiving = h;
  waiting = record {
    opened = opened.opened;
    staying = opened.staying;
    queue = opened.queue ∙ append_nil queue;
  };
}
send_all-HasSent key socket (frame ∷ frames) queue s c h opened room =
    let d = record c { send_queue = c.send_queue ++ (frame ∷ []) } in
    let queued : d.send_queue ≡ queue ++ (frame ∷ []) = ap (λ q. q ++ (frame ∷ [])) opened.queue in
    let first =
      send-some s key frame c socket h opened.opened
        (omega (arith, ap length opened.queue, room)) in
    let rest =
      send_all-HasSent key socket frames (queue ++ (frame ∷ [])) (with_connection s key d) d
        (with_connection-IsReceiving s key c d socket h refl)
        record { opened = opened.opened; staying = opened.staying; queue = queued }
        (omega (arith, length-append queue (frame ∷ []), room)) in
    record {
      after = rest.after;
      sent = ap (λ o. elim o [ none ↦ none | some s' ↦ send_all key frames s' ]) first ∙ rest.sent;
      entry = rest.entry;
      receiving = rest.receiving;
      waiting = record {
        opened = rest.waiting.opened;
        staying = rest.waiting.staying;
        queue = rest.waiting.queue ∙ append_assoc queue (frame ∷ []) frames;
      };
    }

-- On an open connection, outside of a reload and with no request to close it: frames that fit with
-- those that wait in 64 are all accepted, and then, with a hub that takes every frame whole, as many
-- writable callbacks as frames wait write those that waited and the new ones in the order of sending.
pub send_all-drain :
    (key : List ℕ) (socket : ℕ) (lws_write : List ℕ → ℤ) (frames queue : List (List ℕ))
    (s : Connector) (c : Connection)
    → IsReceiving s key c socket
    → IsOpen c queue
    → length queue + length frames ≤ 64
    → TakesAll lws_write
    → (after : Connector) × (send_all key frames s ≡ some after)
      × ((drain socket key lws_write (length (queue ++ frames)) after).1 ≡ queue ++ frames)
send_all-drain key socket lws_write frames queue s c h opened room takes =
    let sent = send_all-HasSent key socket frames queue s c h opened room in
    (
      sent.after,
      sent.sent,
      drain-frames socket key lws_write (queue ++ frames) sent.after sent.entry sent.receiving
          sent.waiting takes,
    )
