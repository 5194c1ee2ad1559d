-- ===== src/CommandLine/Valid.antt =====
-- The settings with which `ParseCommandLine` lets the device run.
use bacnet_profile_example_b.Base.{
  ℕ, ◌≤◌, ◌≡◌, ◌≢◌, subst, ap, true, false, ◌&&◌, List, [], ◌∷◌, Option, none, some, ◌⊎◌, inl, inr,
  arith, Bool-cases, by_test, length, ltb, set,
}
use bacnet_profile_example_b.Base.Text.{codes, same_text}
use bacnet_profile_example_b.Options.{DataLink, CommandLineOptions, same_link}
use bacnet_profile_example_b.CommandLine.{
  Platform, data_link_options, known_index, Reason, ParseResult, Parsed, Step, parse_data_link,
  set_baud_rate, run, exit_success, exit_error, failed, parsed,
}
use bacnet_profile_example_b.CommandLine.Parse.{
  set_data_link_option, set_known, apply_option, parse_loop, misplaced, is_empty, check_needs,
  check_port, check_misplaced, check_combination, nothing_given, parse_command_line, asks_help,
}
use bacnet_profile_example_b.CommandLine.Leaves.{
  IsInRange, Leaves, number_or_fail-Leaves, hub_uri_or_fail-Leaves, set_baud_rate-Leaves,
  set_data_link-Leaves, parse_loop-Leaves,
}

-- What the options of a data link are worth: nothing is left out that the link needs.
pub record IsRunnable (pf : Platform) (o : CommandLineOptions) : Type 0 where
  pub in_range : IsInRange pf o
  pub serial_port :
      o.data_link ≡ DataLink.mstp
      → (o.mstp_port_name ≢ []) × (o.mstp_mac_address ≤ o.mstp_max_master)
  pub hub : o.data_link ≡ DataLink.sc → (o.sc_primary_hub_uri ≢ []) ⊎ (o.import_cari_zip ≢ [])

abbrev AreInRange : Platform → Parsed → Type 0
AreInRange pf p = IsInRange pf p.options

set_data_link_option-AreInRange :
    (pf : Platform) (option value : List ℕ) (p : Parsed)
    → AreInRange pf p
    → Leaves (AreInRange pf) (set_data_link_option pf option value p)
unfolding set_data_link_option
set_data_link_option-AreInRange pf option value p
      (device, port, interface, baud, mac, master, frames, hub, failover) =
    let P = Leaves (AreInRange pf) in
    let Q = AreInRange pf in
    by_test P (same_text option (codes "--interface")) _ _
      (λ e.
        number_or_fail-Leaves Q pf value 1 4294967295 _
          λ n low high. (device, port, high, baud, mac, master, frames, hub, failover))
      λ e.
        by_test P (same_text option (codes "--mstp-port")) _ _
          (λ e. (device, port, interface, baud, mac, master, frames, hub, failover))
          λ e.
            by_test P (same_text option (codes "--mstp-baud")) _ _
              (λ e.
                number_or_fail-Leaves Q pf value 1 4294967295 (set_baud_rate pf value p)
                  λ n low high.
                    set_baud_rate-Leaves Q pf value p n
                      λ rate. (device, port, interface, rate, mac, master, frames, hub, failover))
              λ e.
                by_test P (same_text option (codes "--mstp-mac")) _ _
                  (λ e. number_or_fail-Leaves Q pf value 0 127 _ λ n low high.
                    (device, port, interface, baud, high, master, frames, hub, failover))
                  λ e.
                    by_test P (same_text option (codes "--mstp-max-master")) _ _
                      (λ e. number_or_fail-Leaves Q pf value 1 127 _ λ n low high.
                        (device, port, interface, baud, mac, (low, high), frames, hub, failover))
                      λ e.
                        by_test P (same_text option (codes "--mstp-max-info-frames")) _ _
                          (λ e. number_or_fail-Leaves Q pf value 1 255 _ λ n low high. (
                            device,
                            port,
                            interface,
                            baud,
                            mac,
                            master,
                            (low, high),
                            hub,
                            failover,
                          ))
                          λ e.
                            by_test P (same_text option (codes "--sc-hub")) _ _
                              (λ e. hub_uri_or_fail-Leaves Q option value _ λ uri.
                                (device, port, interface, baud, mac, master, frames, uri, failover))
                              λ e.
                                by_test P (same_text option (codes "--sc-failover-hub")) _ _
                                  (λ e. hub_uri_or_fail-Leaves Q option value _ λ uri.
                                    (device, port, interface, baud, mac, master, frames, hub, uri))
                                  λ e.
                                    by_test P (same_text option (codes "--sc-cert-dir")) _ _
                                      (λ e. (
                                        device, port, interface, baud, mac, master, frames, hub,
                                        failover,
                                      ))
                                      λ e.
                                        by_test P (same_text option (codes "--import-cari")) _ _
                                          (λ e. (
                                            device, port, interface, baud, mac, master, frames, hub,
                                            failover,
                                          ))
                                          λ e. (
                                            device, port, interface, baud, mac, master, frames, hub,
                                            failover,
                                          )

set_known-AreInRange :
    (pf : Platform) (option value : List ℕ) (p : Parsed) (i : Option ℕ)
    → AreInRange pf p
    → Leaves (AreInRange pf) (set_known pf option value p i)
unfolding set_known
set_known-AreInRange pf option value p none h = tt
set_known-AreInRange pf option value p (some i) h =
    set_data_link_option-AreInRange pf option value (record p { given = set p.given i true }) h

apply_option-AreInRange :
    (pf : Platform) (option value : List ℕ) (p : Parsed)
    → AreInRange pf p
    → Leaves (AreInRange pf) (apply_option pf option value p)
unfolding apply_option
apply_option-AreInRange pf option value p h =
    let P = Leaves (AreInRange pf) in
    let Q = AreInRange pf in
    let (device, port, interface, baud, mac, master, frames, hub, failover) = h in
    by_test P (same_text option (codes "--datalink")) _ _
      (λ e. set_data_link-Leaves Q value p (parse_data_link value) λ link. h)
      λ e.
        by_test P (same_text option (codes "--deviceID")) _ _
          (λ e.
            number_or_fail-Leaves Q pf value 0 4194302 _
              λ n low high. (high, port, interface, baud, mac, master, frames, hub, failover))
          λ e.
            by_test P (same_text option (codes "--deviceName")) _ _ (λ e. h)
              λ e.
                by_test P (same_text option (codes "--port")) _ _
                  (λ e. number_or_fail-Leaves Q pf value 1 65535 _ λ n low high.
                    (device, (low, high), interface, baud, mac, master, frames, hub, failover))
                  λ e.
                    set_known-AreInRange pf option value p (known_index data_link_options 0 option)
                      h

-- The parser does not run, or what it runs with satisfies `P`.
abbrev pub Runs : (CommandLineOptions → Type 0) → ParseResult → Type 0
Runs P (run o) = P o
Runs P exit_success = Unit {0}
Runs P (exit_error why) = Unit {0}

not_empty : (text : List ℕ) → is_empty text ≡ false → text ≢ []
unfolding is_empty
not_empty [] e same = absurd (ground (arith, e))
not_empty (c ∷ cs) e same = absurd (ground (arith, ap length same))

one_given : (hub zip : List ℕ) → (is_empty hub && is_empty zip) ≡ false → (hub ≢ []) ⊎ (zip ≢ [])
one_given hub zip e = elim (Bool-cases (is_empty hub)) [
  | inl empty ↦ inr (not_empty zip (simp empty at e))
  | inr given ↦ inl (not_empty hub given)
]

check_needs-IsRunnable :
    (pf : Platform) (o : CommandLineOptions) → IsInRange pf o → Runs (IsRunnable pf) (check_needs o)
unfolding check_needs
check_needs-IsRunnable pf o h =
    let P = Runs (IsRunnable pf) in
    let is_mstp = same_link o.data_link DataLink.mstp in
    let is_sc = same_link o.data_link DataLink.sc in
    by_test P (is_mstp && is_empty o.mstp_port_name) (exit_error Reason.no_serial_port) _ (λ e. tt)
      λ e.
        by_test P (is_mstp && ltb o.mstp_max_master o.mstp_mac_address)
          (exit_error Reason.mac_above_max_master) _ (λ f. tt)
          λ f.
            by_test P (is_sc && is_empty o.sc_primary_hub_uri && is_empty o.import_cari_zip)
              (exit_error Reason.no_hub) (run o) (λ g. tt)
              λ g. record {
                in_range = h;
                serial_port = λ link.
                    let mstp = ap (λ l. same_link l DataLink.mstp) link in
                    (not_empty o.mstp_port_name (simp mstp at e), ground (arith, simp mstp at f));
                hub = λ link.
                    let sc = ap (λ l. same_link l DataLink.sc) link in
                    one_given o.sc_primary_hub_uri o.import_cari_zip (simp sc at g);
              }

check_port-IsRunnable :
    (pf : Platform) (p : Parsed) → AreInRange pf p → Runs (IsRunnable pf) (check_port p)
unfolding check_port
check_port-IsRunnable pf p h =
    by_test (Runs (IsRunnable pf)) _ (exit_error Reason.port_not_udp) (check_needs p.options)
      (λ e. tt) λ e. check_needs-IsRunnable pf p.options h

check_misplaced-IsRunnable :
    (pf : Platform) (p : Parsed) (i : Option ℕ)
    → AreInRange pf p
    → Runs (IsRunnable pf) (check_misplaced p i)
unfolding check_misplaced
check_misplaced-IsRunnable pf p (some i) h = tt
check_misplaced-IsRunnable pf p none h = check_port-IsRunnable pf p h

check_combination-IsRunnable :
    (pf : Platform) (s : Step)
    → Leaves (AreInRange pf) s
    → Runs (IsRunnable pf) (check_combination s)
unfolding check_combination
check_combination-IsRunnable pf (failed why) h = tt
check_combination-IsRunnable pf (parsed p) h =
    check_misplaced-IsRunnable pf p (misplaced data_link_options 0 p.given p.options.data_link) h

-- When `ParseCommandLine`, given options that are in range, lets the device run, each setting is in
-- its range, an MS/TP device has a serial port and a MAC address of at most Max_Master, and a
-- BACnet/SC device has a hub or an archive to import.
pub parse_command_line-IsRunnable :
    (pf : Platform) (arguments : List (List ℕ)) (options o : CommandLineOptions)
    → IsInRange pf options
    → parse_command_line pf arguments options ≡ run o
    → IsRunnable pf o
unfolding parse_command_line nothing_given
parse_command_line-IsRunnable pf arguments options o h e = subst (Runs (IsRunnable pf)) e (
    by_test (Runs (IsRunnable pf)) (asks_help arguments) exit_success _ (λ f. tt)
      λ f. check_combination-IsRunnable pf (parse_loop pf arguments (nothing_given options)) (
        parse_loop-Leaves (AreInRange pf) pf (apply_option-AreInRange pf) arguments
          (nothing_given options) h))
