-- ===== src/HubConnector/Failure.antt =====
-- An attempt to connect that fails at once.
use bacnet_profile_example_b.Base.{ℕ, ◌≡◌, false, List, [], ◌∷◌, ◌++◌, some, ◌⊎◌}
use bacnet_profile_example_b.Base.TextMap.{lookup}
use bacnet_profile_example_b.Base.Text.{same_text}
use bacnet_profile_example_b.HubConnector.{Connector, StatusEvent, Report, with_connection}
use bacnet_profile_example_b.HubConnector.Api.{fresh}

-- Every report is about the entry of this URI.
abbrev pub AreAbout : List ℕ → List Report → Type 0
AreAbout uri [] = Unit {0}
AreAbout uri (r ∷ reports) = (r.user ≡ some uri) × AreAbout uri reports

-- The status event that waits last is about this URI.
abbrev pub LastIs : List ℕ → List StatusEvent → Type 0
LastIs uri [] = ⊥
LastIs uri (e ∷ []) = e.uri ≡ uri
LastIs uri (d ∷ e ∷ events) = LastIs uri (e ∷ events)

-- The queue after a failure: with an Error (4) of this URI at its end, unless the last event was
-- of this URI already.
abbrev pub IsReported : List ℕ → List StatusEvent → List StatusEvent → Type 0
IsReported uri events after =
    ((LastIs uri events → ⊥) × (after ≡ events ++ (record { uri = uri; status = 4 } ∷ [])))
    ⊎ (LastIs uri events × (after ≡ events))

-- What a failed attempt to connect to `uri` leaves.
pub record IsFailed (uri : List ℕ) (s after : Connector) : Type 0 where
  pub status_events : IsReported uri s.status_events after.status_events
  pub own : lookup uri after.connections ≡ some (fresh uri)
  pub others :
      (key : List ℕ)
      → same_text uri key ≡ false
      → lookup key after.connections ≡ lookup key s.connections
  pub context : after.context ≡ s.context
  pub tls_files : after.tls_files ≡ s.tls_files
  pub received_frames : after.received_frames ≡ s.received_frames

set_again : (s : Connector) (uri : List ℕ) → Connector
set_again s uri = with_connection (with_connection s uri (fresh uri)) uri (fresh uri)
