-- ===== src/HubConnector/Stale.antt =====
-- Sockets of superseded attempts: an entry with no socket, and one whose current socket is another,
-- is not touched by what libwebsockets reports.
use bacnet_profile_example_b.Base.{
  ℕ, ◌≡◌, refl, sym, ap, ◌∙◌, Bool, true, false, not, ◌&&◌, List, [], ◌∷◌, Option, none, some,
  length, arith, by_test, Bool-cases, inl, inr, if◌then◌else◌, ◌==◌,
}
use bacnet_profile_example_b.Base.Int.{ℤ}
use bacnet_profile_example_b.Base.Text.{same_text, same_text_sound}
use bacnet_profile_example_b.Base.TextMap.{lookup, lookup-insert}
use bacnet_profile_example_b.HubConnector.{
  Connection, Connector, Reason, Report, queue_status, with_connection,
}
use bacnet_profile_example_b.HubConnector.Callback.{
  Handled, on_established, on_lost, assemble, finish_message, on_receive, write_next, on_writeable,
  on_reason, on_connection, on_user, hub_protocol_callback, report_all, is_current, is_short,
  is_empty, closes_stale, reset_assembly,
}

-- The entry at `other` is as it was.
abbrev Leaves : List ℕ → Connector → Connector → Type 0
Leaves other s s' = lookup other s'.connections ≡ lookup other s.connections

module _ (s : Connector) (key other : List ℕ) (differs : same_text key other ≡ false) where
  with_connection-Leaves : (c : Connection) → Leaves other s (with_connection s key c)
  with_connection-Leaves c =
      lookup-insert key other c s.connections
      ∙ ap (λ b. if b then some c else lookup other s.connections) differs

  finish_message-Leaves : (c : Connection) → Leaves other s (finish_message s key c)
  unfolding finish_message
  finish_message-Leaves c =
      by_test (Leaves other s) (not c.receive_overflow && not (is_empty c.receive_assembly)) _ _
        (λ e. with_connection-Leaves (reset_assembly c))
        (λ e. with_connection-Leaves (reset_assembly c))

  on_receive-Leaves :
      (c : Connection) (binary final : Bool) (octets : List ℕ)
      → Leaves other s (on_receive s key c binary final octets).connector
  unfolding on_receive
  on_receive-Leaves c false final octets = refl
  on_receive-Leaves c true true octets = finish_message-Leaves (assemble c octets)
  on_receive-Leaves c true false octets = with_connection-Leaves (assemble c octets)

  write_next-Leaves :
      (c : Connection) (socket : ℕ) (lws_write : List ℕ → ℤ) (frames : List (List ℕ))
      → Leaves other s (write_next s key c socket lws_write frames).connector
  unfolding write_next
  write_next-Leaves c socket lws_write [] = refl
  write_next-Leaves c socket lws_write (frame ∷ frames) =
      by_test (λ r. Leaves other s (Handled.connector r))
        (is_short (lws_write frame) (length frame)) _ _ (λ e. refl)
        λ e. with_connection-Leaves (record c { send_queue = frames })

  on_reason-Leaves :
      (c : Connection) (socket : ℕ) (reason : Reason)
      → Leaves other s (on_reason s key c socket reason).connector
  unfolding on_reason on_established on_lost on_writeable queue_status
  on_reason-Leaves c socket Reason.established =
      with_connection-Leaves (record c { socket = some socket; is_open = true })
  on_reason-Leaves c socket Reason.connection_error =
      with_connection-Leaves (record c { socket = none; is_open = false; send_queue = [] })
  on_reason-Leaves c socket Reason.closed =
      with_connection-Leaves (record c { socket = none; is_open = false; send_queue = [] })
  on_reason-Leaves c socket Reason.other = refl
  on_reason-Leaves c socket (Reason.receive binary final octets) =
      on_receive-Leaves c binary final octets
  on_reason-Leaves c socket (Reason.writeable lws_write) =
      by_test (λ r. Leaves other s (Handled.connector r)) c.close_requested _
        (write_next s key c socket lws_write c.send_queue) (λ e. refl)
        λ e. write_next-Leaves c socket lws_write c.send_queue

  on_connection-Leaves :
      (o : Option Connection) (socket : ℕ) (reason : Reason)
      → Leaves other s (on_connection s key o socket reason).connector
  unfolding on_connection
  on_connection-Leaves none socket reason = refl
  on_connection-Leaves (some c) socket reason =
      let P = λ (r : Handled). Leaves other s r.connector in
      by_test P s.reloading _ _ (λ f. refl)
        λ f.
          by_test P (not (is_current c socket)) _ (on_reason s key c socket reason) (λ g. refl)
            λ g. on_reason-Leaves c socket reason

-- Nothing but the answer of the callback depends on a report of another socket than the current
-- one of its entry: the state is as it was, no call is made, and the socket is closed exactly when it
-- is up or still talking (outside a reload).
pub hub_protocol_callback-closes_stale :
    (s : Connector) (key : List ℕ) (c : Connection) (r : Report)
    → r.user ≡ some key
    → lookup key s.connections ≡ some c
    → is_current c r.socket ≡ false
    → hub_protocol_callback s r
      ≡ record { connector = s; closes = not s.reloading && closes_stale r.reason; calls = [] }
unfolding hub_protocol_callback on_user on_connection
hub_protocol_callback-closes_stale s key c r user found stale =
    ap (λ u. on_user s u r.socket r.reason) user
    ∙ ap (λ o. on_connection s key o r.socket r.reason) found
    ∙ go s.reloading
  where
    go :
        (b : Bool)
        → (if b
            then record { connector = s; closes = false; calls = [] }
            else if not (is_current c r.socket)
            then record { connector = s; closes = closes_stale r.reason; calls = [] }
            else on_reason s key c r.socket r.reason)
          ≡ record { connector = s; closes = not b && closes_stale r.reason; calls = [] }
    go true = refl
    go false = simp stale refl

-- An entry with no socket stays as it is.
pub hub_protocol_callback-lookup :
    (s : Connector) (key : List ℕ) (c : Connection) (r : Report)
    → lookup key s.connections ≡ some c
    → c.socket ≡ none
    → lookup key (hub_protocol_callback s r).connector.connections ≡ some c
unfolding hub_protocol_callback on_user
hub_protocol_callback-lookup s key c r found closed = go r.user refl
  where
    not_current :
        (o : Option ℕ) → o ≡ none → elim o [ none ↦ false | some n ↦ r.socket == n ] ≡ false
    not_current none e = refl
    not_current (some n) e = absurd (ground (arith, e))

    go :
        (user : Option (List ℕ))
        → r.user ≡ user
        → lookup key (on_user s user r.socket r.reason).connector.connections ≡ some c
    go none e = found
    go (some k) e = elim (Bool-cases (same_text k key)) [
      | inr other ↦
          on_connection-Leaves s k key other (lookup k s.connections) r.socket r.reason ∙ found
      | inl same ↦
          let at : k ≡ key = same_text_sound k key same in
          let unmoved =
            hub_protocol_callback-closes_stale s key c r (e ∙ ap some at) found
              (not_current c.socket closed) in
          ap (λ u. lookup key (on_user s u r.socket r.reason).connector.connections) (sym e)
          ∙ ap (λ h. lookup key (Handled.connector h).connections) unmoved
          ∙ found
    ]

pub report_all-lookup :
    (s : Connector) (key : List ℕ) (c : Connection) (reports : List Report)
    → lookup key s.connections ≡ some c
    → c.socket ≡ none
    → lookup key (report_all s reports).connections ≡ some c
unfolding report_all
report_all-lookup s key c [] found closed = found
report_all-lookup s key c (r ∷ reports) found closed =
    report_all-lookup (hub_protocol_callback s r).connector key c reports
      (hub_protocol_callback-lookup s key c r found closed) closed
