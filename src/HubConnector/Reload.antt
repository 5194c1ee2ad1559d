-- ===== src/HubConnector/Reload.antt =====
-- Replacing the TLS context: what becomes of the connections.
use bacnet_profile_example_b.Base.{
  ℕ, ◌≡◌, refl, sym, ap, ◌∙◌, subst, Bool, true, false, List, [], ◌∷◌, ◌++◌, Option, none, some,
  by_test, ◌⊎◌, ◌≢◌, inl, inr, arith,
}
use bacnet_profile_example_b.Base.TextMap.{lookup, EachValue}
use bacnet_profile_example_b.HubConnector.{
  Connection, Connector, TlsFiles, StatusEvent, Report, Websockets,
}
use bacnet_profile_example_b.HubConnector.Callback.{
  Handled, on_connection, on_user, hub_protocol_callback, report_all, kept,
}
use bacnet_profile_example_b.HubConnector.Api.{
  create_context, is_live, close_connections, closed_events, close_all, destroy_context,
  reload_credentials,
}

hub_protocol_callback-reloading :
    (s : Connector) (r : Report) → s.reloading ≡ true → hub_protocol_callback s r ≡ kept s
unfolding hub_protocol_callback on_user on_connection
hub_protocol_callback-reloading s r e = go r.user
  where
    on : (key : List ℕ) (o : Option Connection) → on_connection s key o r.socket r.reason ≡ kept s
    on key none = refl
    on key (some c) = simp e refl

    go : (user : Option (List ℕ)) → on_user s user r.socket r.reason ≡ kept s
    go none = refl
    go (some key) = on key (lookup key s.connections)

report_all-reloading :
    (s : Connector) (reports : List Report) → s.reloading ≡ true → report_all s reports ≡ s
unfolding report_all
report_all-reloading s [] e = refl
report_all-reloading s (r ∷ reports) e =
    ap (λ h. report_all (Handled.connector h) reports) (hub_protocol_callback-reloading s r e)
    ∙ report_all-reloading s reports e

destroy_context-closed :
    (ws : Websockets) (s : Connector) (context : Option ℕ)
    → s.reloading ≡ false
    → s.context ≡ context
    → destroy_context ws s context ≡ record s { context = none }
unfolding destroy_context
destroy_context-closed ws s none e f = λ i. record s { context = f i }
destroy_context-closed ws s (some context) e f =
    ap (λ (t : Connector). record t { context = none; reloading = false })
      (report_all-reloading (record s { reloading = true }) (ws.destroy context) refl)
    ∙ λ i. record s { context = none; reloading = sym e i }

-- No socket, and not open.
abbrev pub IsClosed : List ℕ → Connection → Type 0
IsClosed key c = (c.socket ≡ none) × (c.is_open ≡ false)

not_live-IsClosed : (key : List ℕ) (c : Connection) → is_live c ≡ false → IsClosed key c
not_live-IsClosed key c e = go c.socket refl c.is_open refl
  where
    go :
        (socket : Option ℕ)
        → c.socket ≡ socket
        → (opened : Bool) → c.is_open ≡ opened
        → (c.socket ≡ none) × (c.is_open ≡ false)
    go none f false g = (f, g)
    go none f true g = absurd (ground (arith, e, f, g))
    go (some n) f opened g = absurd (ground (arith, e, f))

close_connections-IsClosed :
    (m : List (List ℕ × Connection)) → EachValue IsClosed (close_connections m)
unfolding close_connections
close_connections-IsClosed [] = tt
close_connections-IsClosed ((key, c) ∷ m) =
    by_test (EachValue IsClosed) (is_live c) _ _ (λ e. ((refl, refl), close_connections-IsClosed m))
      λ e. (not_live-IsClosed key c e, close_connections-IsClosed m)

-- One Disconnected (3) for each connection that has a socket or is open, in their order.
abbrev pub AreLosses : List (List ℕ × Connection) → List StatusEvent → Type 0
AreLosses [] [] = Unit {0}
AreLosses [] (e ∷ events) = ⊥
AreLosses ((key, c) ∷ m) [] = IsClosed key c × AreLosses m []
AreLosses ((key, c) ∷ m) (e ∷ events) =
    (IsClosed key c × AreLosses m (e ∷ events))
    ⊎ (((c.is_open ≡ true) ⊎ (c.socket ≢ none))
        × (e.uri ≡ key)
        × (e.status ≡ 3)
        × AreLosses m events)

skip-AreLosses :
    (key : List ℕ) (c : Connection) (m : List (List ℕ × Connection)) (events : List StatusEvent)
    → IsClosed key c
    → AreLosses m events
    → AreLosses ((key, c) ∷ m) events
skip-AreLosses key c m [] closed h = (closed, h)
skip-AreLosses key c m (e ∷ events) closed h = inl (closed, h)

live_lem : (c : Connection) → is_live c ≡ true → (c.is_open ≡ true) ⊎ (c.socket ≢ none)
live_lem c e = go c.socket refl c.is_open refl
  where
    go :
        (socket : Option ℕ)
        → c.socket ≡ socket
        → (opened : Bool) → c.is_open ≡ opened
        → (c.is_open ≡ true) ⊎ (c.socket ≢ none)
    go socket f true g = inl g
    go none f false g = absurd (ground (arith, e, f, g))
    go (some n) f false g = inr λ empty. ground (arith, sym f ∙ empty)

closed_events-AreLosses : (m : List (List ℕ × Connection)) → AreLosses m (closed_events m)
unfolding closed_events
closed_events-AreLosses [] = tt
closed_events-AreLosses ((key, c) ∷ m) =
    by_test (AreLosses ((key, c) ∷ m)) (is_live c) _ _
      (λ e. inr (live_lem c e, refl, refl, closed_events-AreLosses m))
      λ e.
        skip-AreLosses key c m (closed_events m) (not_live-IsClosed key c e)
          (closed_events-AreLosses m)

reload_credentials-same :
    (ws : Websockets) (files : TlsFiles) (s : Connector)
    → s.reloading ≡ false
    → reload_credentials ws files s ≡ record {
      context = ws.create_context files;
      tls_files = files;
      connections = close_connections s.connections;
      status_events = s.status_events ++ closed_events s.connections;
      received_frames = s.received_frames;
      reloading = s.reloading;
    }
unfolding reload_credentials create_context close_all
reload_credentials-same ws files s e =
    ap (λ (t : Connector). create_context ws (record t { tls_files = files }))
      (destroy_context-closed ws (close_all s) s.context e refl)

-- What a reload with these files leaves of a connector.
pub record IsReloaded (ws : Websockets) (files : TlsFiles) (s after : Connector) : Type 0 where
  pub context : after.context ≡ ws.create_context files
  pub tls_files : after.tls_files ≡ files
  pub connections : EachValue IsClosed after.connections
  pub losses : List StatusEvent
  pub status_events : after.status_events ≡ s.status_events ++ losses
  pub losses-AreLosses : AreLosses s.connections losses
  pub received_frames : after.received_frames ≡ s.received_frames
  pub reloading : after.reloading ≡ false

-- `ReloadCredentials` outside of itself: whatever libwebsockets reports while the context is
-- destroyed, the status events it adds are one Disconnected for each connection that had a socket or
-- was open, in the order of the URIs; afterwards no connection has a socket or is open, frames that
-- were received are kept, and the context is the one made from the new files.
pub reload_credentials-closed :
    (ws : Websockets) (files : TlsFiles) (s : Connector)
    → s.reloading ≡ false
    → IsReloaded ws files s (reload_credentials ws files s)
reload_credentials-closed ws files s e =
    subst (IsReloaded ws files s) (sym (reload_credentials-same ws files s e)) record {
      context = refl;
      tls_files = refl;
      connections = close_connections-IsClosed s.connections;
      losses = closed_events s.connections;
      status_events = refl;
      losses-AreLosses = closed_events-AreLosses s.connections;
      received_frames = refl;
      reloading = e;
    }
