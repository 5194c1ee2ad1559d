-- ===== src/HubConnector/Assembly.antt =====
-- A message that arrives in fragments: the frame that the stack is given is all of them together.
use bacnet_profile_example_b.Base.{
  ℕ, ◌+◌, ◌≡◌, refl, sym, ap, ◌∙◌, Bool, true, false, ◌||◌, List, [], ◌∷◌, ◌++◌, none, some, length,
  length-append, arith, by_test, Bool-cases, inl, inr, if◌then◌else◌, ◌==◌, ltb,
}
use bacnet_profile_example_b.Base.Text.{same_text_self}
use bacnet_profile_example_b.Base.TextMap.{lookup, lookup-insert}
use bacnet_profile_example_b.HubConnector.{
  Connection, Connector, ReceivedFrame, Reason, Report, with_connection,
}
use bacnet_profile_example_b.HubConnector.Callback.{
  on_connection, on_user, on_reason, hub_protocol_callback, is_current, assemble, is_empty,
}

-- A message of `fragments` and a last one, all binary, on the socket.
abbrev pub message : ℕ → List ℕ → List (List ℕ) → List ℕ → List Report
message socket key [] last =
    record { socket = socket; user = some key; reason = Reason.receive true true last } ∷ []
message socket key (f ∷ fragments) last =
    record { socket = socket; user = some key; reason = Reason.receive true false f }
    ∷ message socket key fragments last

abbrev pub together : List (List ℕ) → List ℕ → List ℕ
together [] last = last
together (f ∷ fragments) last = f ++ together fragments last

-- The frame that a message is for the stack: none when it is empty or has more than 1600 octets.
abbrev pub delivered : List ℕ → List ℕ → List ReceivedFrame
delivered uri octets =
    if ltb 1600 (length octets) || is_empty octets
    then []
    else record { uri = uri; octets = octets } ∷ []

-- What has been put together of the octets so far.
pub record HasAssembled (so_far : List ℕ) (c : Connection) : Type 0 where
  pub overflow : c.receive_overflow ≡ ltb 1600 (length so_far)
  pub assembly : c.receive_assembly ≡ (if ltb 1600 (length so_far) then [] else so_far)

-- The current connection of `key`, outside of a reload.
pub record IsReceiving (s : Connector) (key : List ℕ) (c : Connection) (socket : ℕ) : Type 0 where
  pub entry : lookup key s.connections ≡ some c
  pub current : is_current c socket ≡ true
  pub not_reloading : s.reloading ≡ false

pub assemble-HasAssembled :
    (so_far octets : List ℕ) (c : Connection)
    → HasAssembled so_far c
    → HasAssembled (so_far ++ octets) (assemble c octets)
unfolding assemble
assemble-HasAssembled so_far octets c h = elim (Bool-cases (ltb 1600 (length so_far))) [
  | inl long ↦
      let longer : ltb 1600 (length (so_far ++ octets)) ≡ true =
        ap (ltb 1600) (length-append so_far octets) ∙ ground (arith, long) in
      let overflow : c.receive_overflow ≡ true = h.overflow ∙ long in
      let assembly : c.receive_assembly ≡ [] = simp long at h.assembly in
      by_test (HasAssembled (so_far ++ octets)) c.receive_overflow c _
        (λ e. record { overflow = overflow ∙ sym longer; assembly = simp longer assembly })
        λ e. absurd (ground (arith, sym overflow ∙ e))
  | inr short ↦
      let overflow : c.receive_overflow ≡ false = h.overflow ∙ short in
      let assembly : c.receive_assembly ≡ so_far = simp short at h.assembly in
      by_test (HasAssembled (so_far ++ octets)) c.receive_overflow c _
        (λ e. absurd (ground (arith, sym overflow ∙ e)))
        λ e.
          go (ltb 1600 (length c.receive_assembly + length octets))
            (ap (ltb 1600) (length-append so_far octets)
              ∙ ap (λ t. ltb 1600 (length t + length octets)) (sym assembly))
            overflow assembly
]
  where
    go :
        (long : Bool)
        → ltb 1600 (length (so_far ++ octets)) ≡ long
        → c.receive_overflow ≡ false
        → c.receive_assembly ≡ so_far
        → HasAssembled (so_far ++ octets) (
            if long
            then record c { receive_assembly = []; receive_overflow = true }
            else record c { receive_assembly = c.receive_assembly ++ octets })
    go true e overflow assembly = record { overflow = sym e; assembly = simp e refl }
    go false e overflow assembly = record {
      overflow = overflow ∙ sym e;
      assembly = simp e (ap (λ t. t ++ octets) assembly);
    }

-- `assemble` and the reset keep what makes the socket the current one.
pub assemble-current : (c : Connection) (octets : List ℕ) → (assemble c octets).socket ≡ c.socket
unfolding assemble
assemble-current c octets =
    by_test (λ d. Connection.socket d ≡ c.socket) c.receive_overflow c _ (λ e. refl)
      λ e. by_test (λ d. Connection.socket d ≡ c.socket) _ _ _ (λ f. refl) (λ f. refl)

pub assemble-uri : (c : Connection) (octets : List ℕ) → (assemble c octets).uri ≡ c.uri
unfolding assemble
assemble-uri c octets =
    by_test (λ d. Connection.uri d ≡ c.uri) c.receive_overflow c _ (λ e. refl)
      λ e. by_test (λ d. Connection.uri d ≡ c.uri) _ _ _ (λ f. refl) (λ f. refl)

-- A report of the current socket reaches the connection.
pub hub_protocol_callback-on_reason :
    (s : Connector) (key : List ℕ) (c : Connection) (socket : ℕ) (reason : Reason)
    → IsReceiving s key c socket
    → hub_protocol_callback s (record { socket = socket; user = some key; reason = reason })
      ≡ on_reason s key c socket reason
unfolding hub_protocol_callback on_user on_connection
hub_protocol_callback-on_reason s key c socket reason h =
    ap (λ o. on_connection s key o socket reason) h.entry ∙ simp (h.not_reloading, h.current) refl

lookup-with_connection :
    (s : Connector) (key : List ℕ) (c : Connection)
    → lookup key (with_connection s key c).connections ≡ some c
lookup-with_connection s key c =
    lookup-insert key key c s.connections
    ∙ ap (λ b. if b then some c else lookup key s.connections) (same_text_self key)

pub with_connection-IsReceiving :
    (s : Connector) (key : List ℕ) (c d : Connection) (socket : ℕ)
    → IsReceiving s key c socket
    → d.socket ≡ c.socket
    → IsReceiving (with_connection s key d) key d socket
with_connection-IsReceiving s key c d socket h same = record {
  entry = lookup-with_connection s key d;
  current = ap (λ o. elim o [ none ↦ false | some n ↦ socket == n ]) same ∙ h.current;
  not_reloading = h.not_reloading;
}
