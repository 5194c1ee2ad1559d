-- ===== src/CommandLine/Leaves.antt =====
-- What the steps of `ParseCommandLine` leave: a property of the settings that each option keeps holds
-- after the loop.
use bacnet_profile_example_b.Base.{
  ℕ, ◌≤◌, ◌≡◌, ◌≢◌, refl, Bool, true, false, not, ◌&&◌, ◌||◌, List, [], ◌∷◌, Option, none, some,
  ◌⊎◌, inl, inr, arith, Bool-cases, by_test, length, ltb, leb, ◌==◌,
}
use bacnet_profile_example_b.Base.Text.{codes, same_text, starts_with}
use bacnet_profile_example_b.Base.Decimal.{digits_value, is_digit}
use bacnet_profile_example_b.Options.{DataLink, CommandLineOptions}
use bacnet_profile_example_b.CommandLine.{
  Platform, in_range, parse_number, Reason, Parsed, Step, number_or_fail, set_data_link,
  set_baud_rate, is_supported_baud_rate, is_known_option, hub_uri_or_fail, failed, parsed,
}
use bacnet_profile_example_b.CommandLine.Parse.{apply_option, checked_option, and_then, parse_loop}

-- No hub URI, or one of 7 to 255 octets that starts with `wss://`.
abbrev pub IsHubUri : List ℕ → Type 0
IsHubUri uri =
    (uri ≡ []) ⊎ ((starts_with (codes "wss://") uri ≡ true) × (7 ≤ length uri) × (length uri ≤ 255))

abbrev pub IsBaudRate : Platform → ℕ → Type 0
IsBaudRate pf n = (is_supported_baud_rate n ≡ true) × ((pf.has_76800_baud ≡ true) ⊎ (n ≢ 76800))

-- Device instance, UDP port, interface index, baud rate, MAC address, Max_Master, Max_Info_Frames
-- and hubs, each in its range.
abbrev pub IsInRange : Platform → CommandLineOptions → Type 0
IsInRange pf o =
    (o.device_instance ≤ 4194302)
    × ((1 ≤ o.udp_port) × (o.udp_port ≤ 65535))
    × (o.ipv6_interface_index ≤ 4294967295)
    × IsBaudRate pf o.mstp_baud_rate
    × (o.mstp_mac_address ≤ 127)
    × ((1 ≤ o.mstp_max_master) × (o.mstp_max_master ≤ 127))
    × ((1 ≤ o.mstp_max_info_frames) × (o.mstp_max_info_frames ≤ 255))
    × IsHubUri o.sc_primary_hub_uri
    × IsHubUri o.sc_failover_hub_uri

-- The step fails, or what it leaves satisfies `P`.
abbrev pub Leaves : (Parsed → Type 0) → Step → Type 0
Leaves P (failed why) = Unit {0}
Leaves P (parsed p) = P p

in_range-bounds :
    (ulong_max minimum maximum n : ℕ) (o : Option ℕ)
    → in_range ulong_max minimum maximum o ≡ some n
    → (o ≡ some n) × (minimum ≤ n) × (n ≤ maximum)
unfolding in_range
in_range-bounds ulong_max minimum maximum n none e = absurd (ground (arith, e))
in_range-bounds ulong_max minimum maximum n (some m) e = ground (arith, e)

-- A number that is accepted is in range, and the text is its digits.
pub parse_number-bounds :
    (pf : Platform) (text : List ℕ) (minimum maximum n : ℕ)
    → parse_number pf text minimum maximum ≡ some n
    → (digits_value 0 text ≡ some n) × (minimum ≤ n) × (n ≤ maximum)
unfolding parse_number
parse_number-bounds pf [] minimum maximum n e = absurd (ground (arith, e))
parse_number-bounds pf (c ∷ cs) minimum maximum n e = elim (Bool-cases (is_digit c)) [
  | inl digit ↦
      in_range-bounds pf.ulong_max minimum maximum n (digits_value 0 (c ∷ cs)) (simp digit at e)
  | inr other ↦ absurd (ground (arith, simp other at e))
]

-- A number option stores what is in range.
pub number_or_fail-Leaves :
    (P : Parsed → Type 0) (pf : Platform) (value : List ℕ) (minimum maximum : ℕ) (store : ℕ → Step)
    → ((n : ℕ) → minimum ≤ n → n ≤ maximum → Leaves P (store n))
    → Leaves P (number_or_fail value store (parse_number pf value minimum maximum))
unfolding number_or_fail
number_or_fail-Leaves P pf value minimum maximum store h =
    go (parse_number pf value minimum maximum) refl
  where
    go :
        (o : Option ℕ)
        → parse_number pf value minimum maximum ≡ o
        → Leaves P (number_or_fail value store o)
    go none e = tt
    go (some n) e =
        let (digits, low, high) = parse_number-bounds pf value minimum maximum n e in h n low high

both_false : (a b : Bool) → (not a || b) ≡ false → (a ≡ true) × (b ≡ false)
both_false true false e = (refl, refl)
both_false true true e = absurd (ground (arith, e))
both_false false b e = absurd (ground (arith, e))

pub hub_uri_or_fail-Leaves :
    (P : Parsed → Type 0) (option value : List ℕ) (store : Step)
    → (IsHubUri value → Leaves P store)
    → Leaves P (hub_uri_or_fail option value store)
unfolding hub_uri_or_fail
hub_uri_or_fail-Leaves P option value store h =
    by_test (Leaves P) (not (starts_with (codes "wss://") value) || leb (length value) 6)
      (failed (Reason.bad_value value)) _ (λ e. tt)
      λ e.
        by_test (Leaves P) (ltb 255 (length value)) (failed (Reason.too_long option)) store
          (λ f. tt)
          λ f.
            let (scheme, longer) =
              both_false (starts_with (codes "wss://") value) (leb (length value) 6) e in
            h (inr (scheme, ground (arith, longer), ground (arith, f)))

available :
    (has_76800 : Bool) (n : ℕ)
    → (not has_76800 && n == 76800) ≡ false
    → (has_76800 ≡ true) ⊎ (n ≢ 76800)
available true n e = inl refl
available false n e = inr λ same. ground (arith, e, same)

not-false : (b : Bool) → not b ≡ false → b ≡ true
not-false true e = refl
not-false false e = absurd (ground (arith, e))

pub set_baud_rate-Leaves :
    (P : Parsed → Type 0) (pf : Platform) (value : List ℕ) (p : Parsed) (n : ℕ)
    → (IsBaudRate pf n → P (record p { options = record p.options { mstp_baud_rate = n } }))
    → Leaves P (set_baud_rate pf value p n)
unfolding set_baud_rate
set_baud_rate-Leaves P pf value p n h =
    by_test (Leaves P) (not (is_supported_baud_rate n)) (failed (Reason.bad_value value)) _
      (λ e. tt)
      λ e.
        by_test (Leaves P) (not pf.has_76800_baud && n == 76800)
          (failed (Reason.no_76800_baud value)) _ (λ f. tt)
          λ f. h (not-false (is_supported_baud_rate n) e, available pf.has_76800_baud n f)

pub set_data_link-Leaves :
    (P : Parsed → Type 0) (value : List ℕ) (p : Parsed) (o : Option DataLink)
    → ((link : DataLink) → P (record p { options = record p.options { data_link = link } }))
    → Leaves P (set_data_link value p o)
unfolding set_data_link
set_data_link-Leaves P value p none h = tt
set_data_link-Leaves P value p (some link) h = h link

pub and_then-Leaves :
    (P Q : Parsed → Type 0) (s : Step) (next : Parsed → Step)
    → Leaves P s
    → ((p : Parsed) → P p → Leaves Q (next p))
    → Leaves Q (and_then s next)
unfolding and_then
and_then-Leaves P Q (failed why) next h then_next = tt
and_then-Leaves P Q (parsed p) next h then_next = then_next p h

pub checked_option-Leaves :
    (P : Parsed → Type 0) (option : List ℕ) (s : Step)
    → Leaves P s
    → Leaves P (checked_option option s)
unfolding checked_option
checked_option-Leaves P option s h =
    by_test (Leaves P) (not (starts_with (codes "--") option))
      (failed (Reason.unexpected_argument option)) _ (λ e. tt)
      λ e.
        by_test (Leaves P) (not (is_known_option option)) (failed (Reason.unknown_option option)) s
          (λ f. tt) (λ f. h)

-- A property that every option keeps holds after the loop.
pub parse_loop-Leaves :
    (P : Parsed → Type 0) (pf : Platform)
    → ((option value : List ℕ) (p : Parsed) → P p → Leaves P (apply_option pf option value p))
    → (arguments : List (List ℕ)) (p : Parsed) → P p
    → Leaves P (parse_loop pf arguments p)
unfolding parse_loop
parse_loop-Leaves P pf keeps [] p h = h
parse_loop-Leaves P pf keeps (option ∷ []) p h =
    by_test (Leaves P) (same_text option (codes "--xml")) (parsed p) _ (λ e. h)
      λ e. checked_option-Leaves P option (failed (Reason.needs_value option)) tt
parse_loop-Leaves P pf keeps (option ∷ value ∷ arguments) p h =
    by_test (Leaves P) (same_text option (codes "--xml")) (parse_loop pf (value ∷ arguments) p) _
      (λ e. parse_loop-Leaves P pf keeps (value ∷ arguments) p h)
      λ e. checked_option-Leaves P option _ (
        and_then-Leaves P P (apply_option pf option value p) (parse_loop pf arguments)
          (keeps option value p h) λ q k. parse_loop-Leaves P pf keeps arguments q k)
