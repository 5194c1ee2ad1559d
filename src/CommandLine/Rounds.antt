-- ===== src/CommandLine/Rounds.antt =====
-- The rounds of `ParseCommandLine`'s loop on the MS/TP options, each with its value printed.
use bacnet_profile_example_b.Base.{
  ℕ, ◌≤◌, ◌≡◌, refl, ap, sym, ◌∙◌, Bool, true, false, not, ◌&&◌, List, ◌∷◌, none, some,
  if◌then◌else◌, inl, inr, arith, set, ◌==◌,
}
use bacnet_profile_example_b.Base.Text.{codes, same_text}
use bacnet_profile_example_b.Base.Decimal.{
  decimal, digits_value, digits_value-decimal, decimal-digit,
}
use bacnet_profile_example_b.Options.{DataLink, CommandLineOptions}
use bacnet_profile_example_b.CommandLine.{
  Platform, in_range, parse_number, known_index, is_known_option, is_data_link_option, Parsed, Step,
  number_or_fail, parse_data_link, set_data_link, set_baud_rate, parsed,
}
use bacnet_profile_example_b.CommandLine.Parse.{
  set_data_link_option, set_known, apply_option, checked_option, and_then, parse_loop,
}
use bacnet_profile_example_b.CommandLine.Leaves.{IsBaudRate}

in_range-some :
    (ulong_max minimum maximum n : ℕ)
    → n ≤ ulong_max
    → minimum ≤ n
    → n ≤ maximum
    → in_range ulong_max minimum maximum (some n) ≡ some n
unfolding in_range
in_range-some ulong_max minimum maximum n h low high = ground (arith, h, low, high)

-- `ParseNumber` reads every number of its range as it is printed, where `unsigned long` holds it.
pub parse_number-decimal :
    (pf : Platform) (minimum maximum n : ℕ)
    → n ≤ pf.ulong_max
    → minimum ≤ n
    → n ≤ maximum
    → parse_number pf (decimal n) minimum maximum ≡ some n
unfolding parse_number
parse_number-decimal pf minimum maximum n h low high =
    let (c, (cs, text, digit)) = decimal-digit n in
    ap (λ t. parse_number pf t minimum maximum) text
    ∙ ap
        (λ b.
          if not b then none else in_range pf.ulong_max minimum maximum (digits_value 0 (c ∷ cs)))
        digit
    ∙ ap (λ t. in_range pf.ulong_max minimum maximum (digits_value 0 t)) (sym text)
    ∙ ap (in_range pf.ulong_max minimum maximum) (digits_value-decimal n)
    ∙ in_range-some pf.ulong_max minimum maximum n h low high

parse_loop_step :
    (pf : Platform) (option value : List ℕ) (arguments : List (List ℕ)) (p q : Parsed)
    → same_text option (codes "--xml") ≡ false
    → ((s : Step) → checked_option option s ≡ s)
    → apply_option pf option value p ≡ parsed q
    → parse_loop pf (option ∷ value ∷ arguments) p ≡ parse_loop pf arguments q
unfolding parse_loop and_then
parse_loop_step pf option value arguments p q not_xml known e =
    simp not_xml (known _ ∙ ap (λ s. and_then s (parse_loop pf arguments)) e)

-- Where `ParseNumber` succeeds, the number is stored.
number_or_fail-decimal :
    (pf : Platform) (minimum maximum n : ℕ) (store : ℕ → Step)
    → n ≤ pf.ulong_max
    → minimum ≤ n
    → n ≤ maximum
    → number_or_fail (decimal n) store (parse_number pf (decimal n) minimum maximum) ≡ store n
unfolding number_or_fail
number_or_fail-decimal pf minimum maximum n store h low high =
    ap (number_or_fail (decimal n) store) (parse_number-decimal pf minimum maximum n h low high)

not_refused : (b c : Bool) → c ≡ false → (not b && c) ≡ false
not_refused true c e = refl
not_refused false c e = e

set_baud_rate-IsBaudRate :
    (pf : Platform) (value : List ℕ) (p : Parsed) (n : ℕ)
    → IsBaudRate pf n
    → set_baud_rate pf value p n
      ≡ parsed (record p { options = record p.options { mstp_baud_rate = n } })
unfolding set_baud_rate
set_baud_rate-IsBaudRate pf value p n (supported, inl available) = simp (supported, available) refl
set_baud_rate-IsBaudRate pf value p n (supported, inr other) =
    simp (supported, not_refused pf.has_76800_baud (n == 76800) (ground (arith, other))) refl

module _ (pf : Platform) (o : CommandLineOptions) (arguments : List (List ℕ))
    (wide : 4294967295 ≤ pf.ulong_max) where
  pub read_device :
      (p : Parsed)
      → o.device_instance ≤ 4194302
      → parse_loop pf (codes "--deviceID" ∷ decimal o.device_instance ∷ arguments) p
        ≡ parse_loop pf arguments
            (record p { options = record p.options { device_instance = o.device_instance } })
  unfolding checked_option is_known_option apply_option
  read_device p h =
      parse_loop_step pf (codes "--deviceID") (decimal o.device_instance) arguments p _ refl
        (λ s. refl)
        (number_or_fail-decimal pf 0 4194302 o.device_instance _ (omega (arith, h, wide))
          (omega arith) h)

  pub read_baud :
      (p : Parsed)
      → IsBaudRate pf o.mstp_baud_rate
      → (1 ≤ o.mstp_baud_rate) × (o.mstp_baud_rate ≤ 115200)
      → parse_loop pf (codes "--mstp-baud" ∷ decimal o.mstp_baud_rate ∷ arguments) p
        ≡ parse_loop pf arguments (record p {
          options = record p.options { mstp_baud_rate = o.mstp_baud_rate };
          given = set p.given 2 true;
        })
  unfolding checked_option is_known_option is_data_link_option apply_option known_index set_known
      set_data_link_option
  read_baud p rate (low, high) =
      let q = record p { given = set p.given 2 true } in
      parse_loop_step pf (codes "--mstp-baud") (decimal o.mstp_baud_rate) arguments p _ refl
        (λ s. refl)
        (number_or_fail-decimal pf 1 4294967295 o.mstp_baud_rate _ (omega (arith, high, wide)) low
            (omega (arith, high))
          ∙ set_baud_rate-IsBaudRate pf (decimal o.mstp_baud_rate) q o.mstp_baud_rate rate)

  pub read_mac :
      (p : Parsed)
      → 0 ≤ o.mstp_mac_address
      → o.mstp_mac_address ≤ 127
      → parse_loop pf (codes "--mstp-mac" ∷ decimal o.mstp_mac_address ∷ arguments) p
        ≡ parse_loop pf arguments (record p {
          options = record p.options { mstp_mac_address = o.mstp_mac_address };
          given = set p.given 3 true;
        })
  unfolding checked_option is_known_option is_data_link_option apply_option known_index set_known
      set_data_link_option
  read_mac p low high =
      parse_loop_step pf (codes "--mstp-mac") (decimal o.mstp_mac_address) arguments p _ refl
        (λ s. refl)
        (number_or_fail-decimal pf 0 127 o.mstp_mac_address _ (omega (arith, high, wide)) low high)

  pub read_max_master :
      (p : Parsed)
      → 1 ≤ o.mstp_max_master
      → o.mstp_max_master ≤ 127
      → parse_loop pf (codes "--mstp-max-master" ∷ decimal o.mstp_max_master ∷ arguments) p
        ≡ parse_loop pf arguments (record p {
          options = record p.options { mstp_max_master = o.mstp_max_master };
          given = set p.given 4 true;
        })
  unfolding checked_option is_known_option is_data_link_option apply_option known_index set_known
      set_data_link_option
  read_max_master p low high =
      parse_loop_step pf (codes "--mstp-max-master") (decimal o.mstp_max_master) arguments p _ refl
        (λ s. refl)
        (number_or_fail-decimal pf 1 127 o.mstp_max_master _ (omega (arith, high, wide)) low high)

  pub read_max_info_frames :
      (p : Parsed)
      → 1 ≤ o.mstp_max_info_frames
      → o.mstp_max_info_frames ≤ 255
      → parse_loop pf
          (codes "--mstp-max-info-frames" ∷ decimal o.mstp_max_info_frames ∷ arguments)
          p
        ≡ parse_loop pf arguments (record p {
          options = record p.options { mstp_max_info_frames = o.mstp_max_info_frames };
          given = set p.given 5 true;
        })
  unfolding checked_option is_known_option is_data_link_option apply_option known_index set_known
      set_data_link_option
  read_max_info_frames p low high =
      parse_loop_step pf (codes "--mstp-max-info-frames") (decimal o.mstp_max_info_frames) arguments
        p _ refl (λ s. refl)
        (number_or_fail-decimal pf 1 255 o.mstp_max_info_frames _ (omega (arith, high, wide)) low
          high)

  pub read_port :
      (p : Parsed)
      → parse_loop pf (codes "--mstp-port" ∷ o.mstp_port_name ∷ arguments) p
        ≡ parse_loop pf arguments (record p {
          options = record p.options { mstp_port_name = o.mstp_port_name };
          given = set p.given 1 true;
        })
  unfolding checked_option is_known_option is_data_link_option apply_option known_index set_known
      set_data_link_option
  read_port p =
      parse_loop_step pf (codes "--mstp-port") o.mstp_port_name arguments p _ refl (λ s. refl) refl

  pub read_data_link :
      (p : Parsed)
      → parse_loop pf (codes "--datalink" ∷ codes "mstp" ∷ arguments) p
        ≡ parse_loop pf arguments
            (record p { options = record p.options { data_link = DataLink.mstp } })
  unfolding checked_option is_known_option apply_option parse_data_link set_data_link
  read_data_link p =
      parse_loop_step pf (codes "--datalink") (codes "mstp") arguments p _ refl (λ s. refl) refl
