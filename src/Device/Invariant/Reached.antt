-- ===== src/Device/Invariant/Reached.antt =====
-- The requests that write to the device, one after another, and what holds after any of them.
use bacnet_profile_example_b.Base.{
  ℕ, ◌≡◌, refl, Bool, not, ◌||◌, ◌&&◌, List, [], ◌∷◌, Option, none, some, by_test, length, ◌^◌, ◌≤◌,
  ◌==◌,
}
use bacnet_profile_example_b.Base.Int.{ℤ}
use bacnet_profile_example_b.Floats.{Floats}
use bacnet_profile_example_b.Cert.Host.{Host}
use bacnet_profile_example_b.Device.{Device, Query, is_sc_certificate_file}
use bacnet_profile_example_b.Device.Ivory.RoundTrip.{
  Fits, IsStart, write_ivory-Fits, write_ivory-ne-overrun,
}
use mathlib.Core.Option
use bacnet_profile_example_b.Device.Ivory.{
  FileWrite, not_written, write_ivory, write_file, IvoryWrite, acknowledged, refused, overrun,
  ivory_write,
}
use bacnet_profile_example_b.Device.Set.{
  set_property_real, set_property_enumerated, set_property_unsigned_integer, set_property_null,
  set_property_bool,
}
use bacnet_profile_example_b.Device.Invariant.{IsWellFormed}
use bacnet_profile_example_b.Bacnet.{object_type_file, file_instance}
use bacnet_profile_example_b.Device.Invariant.Callbacks.{
  same_parts, set_property_real-IsWellFormed, set_property_enumerated-IsWellFormed,
  set_property_null-IsWellFormed, set_property_bool-IsWellFormed,
  set_property_unsigned_integer-IsWellFormed,
}

-- There is a device, and it is well formed.
abbrev pub EndsWell : Floats → Option Device → Type 0
EndsWell fl none = ⊥
EndsWell fl (some d) = IsWellFormed fl d

abbrev FileEndsWell : Floats → Option (Device × FileWrite) → Type 0
FileEndsWell fl none = ⊥
FileEndsWell fl (some (d, outcome)) = IsWellFormed fl d

ivory_write-FileEndsWell :
    (fl : Floats) (d : Device) (file_start : ℤ) (octets : List ℕ)
    → IsWellFormed fl d
    → IsStart file_start
    → length octets ≤ 2 ^ 31
    → FileEndsWell fl (ivory_write d (write_ivory d.ivory file_start octets))
unfolding ivory_write
ivory_write-FileEndsWell fl d file_start octets h start short =
    go (write_ivory d.ivory file_start octets) refl
  where
    fits_before : Fits d.ivory
    fits_before = record { buffer_length = h.buffer_length; used_bound = h.used_bound }

    go :
        (w : IvoryWrite)
        → write_ivory d.ivory file_start octets ≡ w
        → FileEndsWell fl (ivory_write d w)
    go refused e = h
    go overrun e = write_ivory-ne-overrun d.ivory file_start octets fits_before start short e
    go (acknowledged first f) e =
        let fits = write_ivory-Fits d.ivory f file_start octets first fits_before e in
        record {
          analog_sixteen = h.analog_sixteen;
          binary_sixteen = h.binary_sixteen;
          multi_state_sixteen = h.multi_state_sixteen;
          binary_values = h.binary_values;
          states = h.states;
          buffer_length = fits.buffer_length;
          used_bound = fits.used_bound;
        }

write_file-FileEndsWell :
    (host : Host) (fl : Floats) (d : Device) (device_instance file : ℕ) (file_start : ℤ)
    → (octets : List ℕ) → IsWellFormed fl d
    → IsStart file_start
    → length octets ≤ 2 ^ 31
    → FileEndsWell fl (write_file host d device_instance file file_start octets)
unfolding write_file
write_file-FileEndsWell host fl d device_instance file file_start octets h start short =
    by_test (FileEndsWell fl)
      (device_instance == d.device_instance && is_sc_certificate_file d object_type_file file) _ _
      (λ e. same_parts fl d _ refl refl refl refl refl h)
      λ e.
        by_test (FileEndsWell fl)
          (not (device_instance == d.device_instance) || not (file == file_instance))
          (some (d, not_written none)) _ (λ f. h)
          λ f. ivory_write-FileEndsWell fl d file_start octets h start short

-- The requests of the stack that write.
pub data Write : Type 0 where
  real enumerated unsigned : Query → ℕ → ℕ → Write
  null : Query → ℕ → Write
  bool : Query → Bool → Write
  file : ℕ → ℕ → ℤ → List ℕ → Write

-- The start positions and lengths of the file writes.
abbrev pub AreFromStart : List Write → Type 0
AreFromStart [] = Unit {0}
AreFromStart (file device_instance f file_start octets ∷ ws) =
    IsStart file_start × (length octets ≤ 2 ^ 31) × AreFromStart ws
AreFromStart (w ∷ ws) = AreFromStart ws

-- `none` after undefined behaviour.
unfoldable pub perform : Host → Floats → Device → Write → Option Device
perform host fl d (real q value priority) = some (set_property_real fl d q value priority).0
perform host fl d (enumerated q value priority) =
    some (set_property_enumerated fl d q value priority).0
perform host fl d (unsigned q value priority) =
    some (set_property_unsigned_integer host fl d q value priority).0
perform host fl d (null q priority) = some (set_property_null d q priority).0
perform host fl d (bool q value) = some (set_property_bool d q value).0
perform host fl d (file device_instance f file_start octets) =
    Option.map (λ (r : Device × FileWrite). r.0)
      (write_file host d device_instance f file_start octets)

unfoldable pub perform_all : Host → Floats → Option Device → List Write → Option Device
unfolding perform
perform_all host fl d [] = d
perform_all host fl none (w ∷ ws) = none
perform_all host fl (some d) (w ∷ ws) = perform_all host fl (perform host fl d w) ws

file-EndsWell :
    (fl : Floats) (r : Option (Device × FileWrite))
    → FileEndsWell fl r
    → EndsWell fl (Option.map (λ (p : Device × FileWrite). p.0) r)
file-EndsWell fl none h = h
file-EndsWell fl (some (d, outcome)) h = h

-- From a well-formed device every sequence of writes (the five Set callbacks with any arguments, and
-- `WriteFile` with a start position from 0 on or -1 and at most 2^31 octets) never leaves Ivory's
-- buffer and leads to a well-formed device: 16 slots in each Priority_Array, Binary Output 1 only
-- commanded to 0 or 1, Multi-state Output 1 only to 1, 2 or 3, Ivory within its 4096 octets.
pub perform_all-IsWellFormed :
    (host : Host) (fl : Floats) (d : Device) (ws : List Write)
    → IsWellFormed fl d
    → AreFromStart ws
    → EndsWell fl (perform_all host fl (some d) ws)
unfolding perform_all perform
perform_all-IsWellFormed host fl d [] h allowed = h
perform_all-IsWellFormed host fl d (real q value priority ∷ ws) h allowed =
    perform_all-IsWellFormed host fl _ ws (set_property_real-IsWellFormed fl d q value priority h)
      allowed
perform_all-IsWellFormed host fl d (enumerated q value priority ∷ ws) h allowed =
    perform_all-IsWellFormed host fl _ ws
      (set_property_enumerated-IsWellFormed fl d q value priority h) allowed
perform_all-IsWellFormed host fl d (unsigned q value priority ∷ ws) h allowed =
    perform_all-IsWellFormed host fl _ ws
      (set_property_unsigned_integer-IsWellFormed host fl d q value priority h) allowed
perform_all-IsWellFormed host fl d (null q priority ∷ ws) h allowed =
    perform_all-IsWellFormed host fl _ ws (set_property_null-IsWellFormed fl d q priority h) allowed
perform_all-IsWellFormed host fl d (bool q value ∷ ws) h allowed =
    perform_all-IsWellFormed host fl _ ws (set_property_bool-IsWellFormed fl d q value h) allowed
perform_all-IsWellFormed host fl d (file device_instance f file_start octets ∷ ws) h
      (start, short, allowed) =
    go (perform host fl d (file device_instance f file_start octets))
      (file-EndsWell fl _
        (write_file-FileEndsWell host fl d device_instance f file_start octets h start short))
      λ d' k. perform_all-IsWellFormed host fl d' ws k allowed
  where
    go :
        (o : Option Device)
        → EndsWell fl o
        → ((d' : Device) → IsWellFormed fl d' → EndsWell fl (perform_all host fl (some d') ws))
        → EndsWell fl (perform_all host fl o ws)
    go none k next = absurd k
    go (some d') k next = next d' k
