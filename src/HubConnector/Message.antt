-- ===== src/HubConnector/Message.antt =====
-- A whole message of fragments, from the first to the last.
use bacnet_profile_example_b.Base.{
  ℕ, ◌≡◌, refl, sym, ap, ◌∙◌, subst, Bool, true, false, not, ◌&&◌, ◌||◌, List, [], ◌∷◌, ◌++◌,
  length, if◌then◌else◌, ltb,
}
use bacnet_profile_example_b.HubConnector.{
  Connection, Connector, ReceivedFrame, Reason, with_connection,
}
use bacnet_profile_example_b.HubConnector.Callback.{
  Handled, on_reason, on_receive, report_all, assemble, finish_message, is_empty, reset_assembly,
}
use bacnet_profile_example_b.HubConnector.Assembly.{
  message, together, delivered, HasAssembled, IsReceiving, assemble-HasAssembled, assemble-current,
  assemble-uri, hub_protocol_callback-on_reason, with_connection-IsReceiving,
}

-- The frame of the message is queued behind the others, and the entry is ready for the next message.
pub record IsDelivered (s s' : Connector) (key uri : List ℕ) (socket : ℕ) (octets : List ℕ)
    : Type 0 where
  pub frames : s'.received_frames ≡ s.received_frames ++ delivered uri octets
  pub entry : Connection
  pub receiving : IsReceiving s' key entry socket
  pub ready : HasAssembled [] entry

append_nil : (fs : List ReceivedFrame) → fs ≡ fs ++ []
append_nil [] = refl
append_nil (f ∷ fs) = ap (λ gs. f ∷ gs) (append_nil fs)

append_assoc : (xs ys zs : List ℕ) → (xs ++ ys) ++ zs ≡ xs ++ (ys ++ zs)
append_assoc [] ys zs = refl
append_assoc (x ∷ xs) ys zs = ap (λ ws. x ∷ ws) (append_assoc xs ys zs)

finish_message-delivered :
    (s : Connector) (key : List ℕ) (c : Connection) (octets : List ℕ)
    → HasAssembled octets c
    → (finish_message s key c).received_frames ≡ s.received_frames ++ delivered c.uri octets
unfolding finish_message
finish_message-delivered s key c octets h =
    go (ltb 1600 (length octets)) c.receive_overflow c.receive_assembly h.overflow h.assembly
  where
    s' : Connector
    s' = with_connection s key (reset_assembly c)

    whole :
        (octets : List ℕ)
        → Connector.received_frames (
            if not (is_empty octets)
            then record s' {
              received_frames = s.received_frames ++ (record { uri = c.uri; octets = octets } ∷ []);
            }
            else s')
          ≡ s.received_frames
            ++ (if is_empty octets then [] else record { uri = c.uri; octets = octets } ∷ [])
    whole [] = append_nil s.received_frames
    whole (x ∷ xs) = refl

    go :
        (long overflow : Bool) (assembly : List ℕ)
        → overflow ≡ long
        → assembly ≡ (if long then [] else octets)
        → Connector.received_frames (
            if not overflow && not (is_empty assembly)
            then record s' {
              received_frames =
                  s.received_frames ++ (record { uri = c.uri; octets = assembly } ∷ []);
            }
            else s')
          ≡ s.received_frames
            ++ (if long || is_empty octets
                then []
                else record { uri = c.uri; octets = octets } ∷ [])
    go true overflow assembly e f = simp e (append_nil s.received_frames)
    go false overflow assembly e f = simp (e, f) (whole octets)

finish_message-IsReceiving :
    (s : Connector) (key : List ℕ) (c d : Connection) (socket : ℕ)
    → IsReceiving s key c socket
    → d.socket ≡ c.socket
    → IsReceiving (finish_message s key d) key (reset_assembly d) socket
unfolding finish_message
finish_message-IsReceiving s key c d socket h same =
    go (not d.receive_overflow && not (is_empty d.receive_assembly)) _
  where
    s' : Connector
    s' = with_connection s key (reset_assembly d)

    next : IsReceiving s' key (reset_assembly d) socket
    next = with_connection-IsReceiving s key c (reset_assembly d) socket h same

    go :
        (b : Bool) (frames : List ReceivedFrame)
        → IsReceiving
            (if b then record s' { received_frames = frames } else s')
            key
            (reset_assembly d)
            socket
    go true frames = record {
      entry = next.entry;
      current = next.current;
      not_reloading = next.not_reloading;
    }
    go false frames = next

report_all-from :
    (socket : ℕ) (key : List ℕ) (fragments : List (List ℕ)) (last : List ℕ) (s : Connector)
    (c : Connection) (so_far : List ℕ)
    → IsReceiving s key c socket
    → HasAssembled so_far c
    → IsDelivered s
        (report_all s (message socket key fragments last))
        key
        c.uri
        socket
        (so_far ++ together fragments last)
unfolding report_all on_reason on_receive
report_all-from socket key [] last s c so_far h assembled =
    let d = assemble c last in
    let e = hub_protocol_callback-on_reason s key c socket (Reason.receive true true last) h in
    subst (λ (r : Handled). IsDelivered s r.connector key c.uri socket (so_far ++ last)) (sym e)
      record {
        frames =
            finish_message-delivered s key d (so_far ++ last)
              (assemble-HasAssembled so_far last c assembled)
            ∙ ap (λ u. s.received_frames ++ delivered u (so_far ++ last)) (assemble-uri c last);
        entry = reset_assembly d;
        receiving = finish_message-IsReceiving s key c d socket h (assemble-current c last);
        ready = record { overflow = refl; assembly = refl };
      }
report_all-from socket key (f ∷ fragments) last s c so_far h assembled =
    let d = assemble c f in
    let e = hub_protocol_callback-on_reason s key c socket (Reason.receive true false f) h in
    let rest =
      report_all-from socket key fragments last (with_connection s key d) d (so_far ++ f)
        (with_connection-IsReceiving s key c d socket h (assemble-current c f))
        (assemble-HasAssembled so_far f c assembled) in
    subst
      (λ (r : Handled).
        IsDelivered s (report_all r.connector (message socket key fragments last)) key c.uri socket
          (so_far ++ (f ++ together fragments last)))
      (sym e)
      record {
        frames =
            rest.frames
            ∙ ap (λ u. s.received_frames ++ delivered u ((so_far ++ f) ++ together fragments last))
                (assemble-uri c f)
            ∙ ap (λ t. s.received_frames ++ delivered c.uri t)
                (append_assoc so_far f (together fragments last));
        entry = rest.entry;
        receiving = rest.receiving;
        ready = rest.ready;
      }

-- On the current socket of an entry that is ready for a message, outside of a reload: a binary
-- message in any number of fragments queues exactly one frame, all fragments together, or none when
-- it has no octet or more than 1600, and leaves the entry ready for the next message.
pub report_all-message :
    (s : Connector) (key : List ℕ) (c : Connection) (socket : ℕ) (fragments : List (List ℕ))
    (last : List ℕ)
    → IsReceiving s key c socket
    → HasAssembled [] c
    → IsDelivered s
        (report_all s (message socket key fragments last))
        key
        c.uri
        socket
        (together fragments last)
report_all-message s key c socket fragments last h ready =
    report_all-from socket key fragments last s c [] h ready
