-- ===== src/CommandLine/RoundTrip.antt =====
-- A command line that names each setting of an MS/TP device is read as these settings.
use bacnet_profile_example_b.Base.{
  ℕ, ◌≤◌, ◌≡◌, ◌≢◌, refl, ap, ◌∙◌, Bool, true, false, List, [], ◌∷◌, arith, set, ltb, ◌==◌,
}
use bacnet_profile_example_b.Base.Text.{codes}
use bacnet_profile_example_b.Base.Decimal.{decimal, is_digit, decimal-digit}
use bacnet_profile_example_b.Options.{DataLink, CommandLineOptions}
use bacnet_profile_example_b.CommandLine.{
  Platform, Parsed, default_options, is_supported_baud_rate, run, parsed,
}
use bacnet_profile_example_b.CommandLine.Parse.{
  parse_loop, misplaced, is_empty, is_help, check_needs, check_port, check_misplaced,
  check_combination, nothing_given, parse_command_line, asks_help,
}
use bacnet_profile_example_b.CommandLine.Leaves.{IsInRange}
use bacnet_profile_example_b.CommandLine.Rounds.{
  read_device, read_baud, read_mac, read_max_master, read_max_info_frames, read_port,
  read_data_link,
}

-- Every setting of an MS/TP device as an option with its value.
abbrev pub mstp_arguments : CommandLineOptions → List (List ℕ)
mstp_arguments o =
    codes "--datalink"
    ∷ codes "mstp"
    ∷ codes "--deviceID"
    ∷ decimal o.device_instance
    ∷ codes "--mstp-port"
    ∷ o.mstp_port_name
    ∷ codes "--mstp-baud"
    ∷ decimal o.mstp_baud_rate
    ∷ codes "--mstp-mac"
    ∷ decimal o.mstp_mac_address
    ∷ codes "--mstp-max-master"
    ∷ decimal o.mstp_max_master
    ∷ codes "--mstp-max-info-frames"
    ∷ decimal o.mstp_max_info_frames
    ∷ []

abbrev pub mstp_options : CommandLineOptions → CommandLineOptions
mstp_options o = record default_options {
  data_link = DataLink.mstp;
  device_instance = o.device_instance;
  mstp_port_name = o.mstp_port_name;
  mstp_baud_rate = o.mstp_baud_rate;
  mstp_mac_address = o.mstp_mac_address;
  mstp_max_master = o.mstp_max_master;
  mstp_max_info_frames = o.mstp_max_info_frames;
}

baud_bounds : (n : ℕ) → is_supported_baud_rate n ≡ true → (1 ≤ n) × (n ≤ 115200)
baud_bounds n e = ground (arith, e)

mstp_given : List Bool
mstp_given = false ∷ true ∷ true ∷ true ∷ true ∷ true ∷ false ∷ false ∷ false ∷ false ∷ []

parse_loop-nil : (pf : Platform) (p : Parsed) → parse_loop pf [] p ≡ parsed p
unfolding parse_loop
parse_loop-nil pf p = refl

-- The options that are left after each round, and the locals.
abbrev from_frames : CommandLineOptions → List (List ℕ)
from_frames o = codes "--mstp-max-info-frames" ∷ decimal o.mstp_max_info_frames ∷ []

abbrev from_master : CommandLineOptions → List (List ℕ)
from_master o = codes "--mstp-max-master" ∷ decimal o.mstp_max_master ∷ from_frames o

abbrev from_mac : CommandLineOptions → List (List ℕ)
from_mac o = codes "--mstp-mac" ∷ decimal o.mstp_mac_address ∷ from_master o

abbrev from_baud : CommandLineOptions → List (List ℕ)
from_baud o = codes "--mstp-baud" ∷ decimal o.mstp_baud_rate ∷ from_mac o

abbrev from_port : CommandLineOptions → List (List ℕ)
from_port o = codes "--mstp-port" ∷ o.mstp_port_name ∷ from_baud o

abbrev from_device : CommandLineOptions → List (List ℕ)
from_device o = codes "--deviceID" ∷ decimal o.device_instance ∷ from_port o

mstp-read :
    (pf : Platform) (o : CommandLineOptions)
    → 4294967295 ≤ pf.ulong_max
    → IsInRange pf o
    → parse_loop pf (mstp_arguments o) (nothing_given default_options)
      ≡ parsed (record { options = mstp_options o; port_given = false; given = mstp_given })
unfolding nothing_given default_options mstp_given
mstp-read pf o wide (device, port, interface, baud, mac, (low, high), (few, many), hub, failover) =
    let start = nothing_given default_options in
    let s0 = record start { options = record start.options { data_link = DataLink.mstp } } in
    let s1 = record s0 { options = record s0.options { device_instance = o.device_instance } } in
    let s2 = record s1 {
      options = record s1.options { mstp_port_name = o.mstp_port_name };
      given = set s1.given 1 true;
    } in
    let s3 = record s2 {
      options = record s2.options { mstp_baud_rate = o.mstp_baud_rate };
      given = set s2.given 2 true;
    } in
    let s4 = record s3 {
      options = record s3.options { mstp_mac_address = o.mstp_mac_address };
      given = set s3.given 3 true;
    } in
    let s5 = record s4 {
      options = record s4.options { mstp_max_master = o.mstp_max_master };
      given = set s4.given 4 true;
    } in
    let s6 = record s5 {
      options = record s5.options { mstp_max_info_frames = o.mstp_max_info_frames };
      given = set s5.given 5 true;
    } in
    read_data_link pf o (from_device o) wide start
    ∙ read_device pf o (from_port o) wide s0 device
    ∙ read_port pf o (from_baud o) wide s1
    ∙ read_baud pf o (from_mac o) wide s2 baud (baud_bounds o.mstp_baud_rate baud.0)
    ∙ read_mac pf o (from_master o) wide s3 (omega arith) mac
    ∙ read_max_master pf o (from_frames o) wide s4 low high
    ∙ read_max_info_frames pf o [] wide s5 few many
    ∙ parse_loop-nil pf s6

not_dash : (c : ℕ) → is_digit c ≡ true → ((c == b'-') ≡ false) × ((c == b'/') ≡ false)
not_dash c e = ground (arith, e)

is_help-decimal : (n : ℕ) → is_help (decimal n) ≡ false
unfolding is_help
is_help-decimal n =
    let (c, (cs, text, digit)) = decimal-digit n in
    let (dash, slash) = not_dash c digit in ap is_help text ∙ simp (dash, slash) refl

asks_help-mstp_arguments :
    (o : CommandLineOptions)
    → is_help o.mstp_port_name ≡ false
    → asks_help (mstp_arguments o) ≡ false
unfolding asks_help is_help
asks_help-mstp_arguments o h =
    simp
      (
        h,
        is_help-decimal o.device_instance,
        is_help-decimal o.mstp_baud_rate,
        is_help-decimal o.mstp_mac_address,
        is_help-decimal o.mstp_max_master,
        is_help-decimal o.mstp_max_info_frames,
      )
      refl

has_name : (text : List ℕ) → text ≢ [] → is_empty text ≡ false
unfolding is_empty
has_name [] h = absurd (h refl)
has_name (c ∷ cs) h = ground arith

-- The command line that gives each MS/TP setting, each in its range, with a serial port that is no
-- request for help and a MAC address of at most Max_Master, runs with these settings and the default
-- ones of the other data links, where `unsigned long` has at least 32 bits.
pub parse_command_line-mstp_arguments :
    (pf : Platform) (o : CommandLineOptions)
    → 4294967295 ≤ pf.ulong_max
    → IsInRange pf o
    → o.mstp_port_name ≢ []
    → is_help o.mstp_port_name ≡ false
    → o.mstp_mac_address ≤ o.mstp_max_master
    → parse_command_line pf (mstp_arguments o) default_options ≡ run (mstp_options o)
unfolding parse_command_line check_combination check_misplaced misplaced mstp_given check_port
    check_needs
parse_command_line-mstp_arguments pf o wide h named no_help below =
    let mac : ltb o.mstp_max_master o.mstp_mac_address ≡ false = ground (arith, below) in
    simp (asks_help-mstp_arguments o no_help) (
      ap check_combination (mstp-read pf o wide h)
      ∙ simp (has_name o.mstp_port_name named, mac) refl)
