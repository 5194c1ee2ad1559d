-- ===== src/Tests/CommandLineTests.antt =====
-- Command lines as a user types them.
use bacnet_profile_example_b.Base.{
  ℕ, ◌≡◌, ◌≢◌, refl, ap, false, List, [], ◌∷◌, length, arith, inl, inr,
}
use bacnet_profile_example_b.Base.Text.{codes}
use bacnet_profile_example_b.Base.Decimal.{digits_value}
use bacnet_profile_example_b.Options.{DataLink, CommandLineOptions}
use bacnet_profile_example_b.CommandLine.{
  Platform, Reason, default_options, run, exit_error, in_range, parse_number, is_data_link_option,
  is_known_option, known_index, number_or_fail, parse_data_link, set_data_link, set_baud_rate,
  hub_uri_or_fail,
}
use bacnet_profile_example_b.CommandLine.Parse.{
  parse_command_line, is_help, asks_help, set_data_link_option, set_known, apply_option,
  checked_option, and_then, parse_loop, misplaced, is_empty, check_needs, check_port,
  check_misplaced, check_combination, nothing_given,
}
use bacnet_profile_example_b.CommandLine.Leaves.{IsInRange}
use bacnet_profile_example_b.CommandLine.Valid.{IsRunnable, parse_command_line-IsRunnable}
use bacnet_profile_example_b.CommandLine.RoundTrip.{
  mstp_arguments, mstp_options, parse_command_line-mstp_arguments,
}

-- Linux on a 64-bit machine.
abbrev linux : Platform
linux = record { ulong_max = 18446744073709551615; has_76800_baud = false }

abbrev mstp_line : List (List ℕ)
mstp_line =
    codes "--datalink"
    ∷ codes "mstp"
    ∷ codes "--mstp-port"
    ∷ codes "COM3"
    ∷ codes "--xml"
    ∷ codes "--mstp-mac"
    ∷ codes "12"
    ∷ []

abbrev mstp_result : CommandLineOptions
mstp_result = record {
  data_link = DataLink.mstp;
  device_instance = 389005;
  udp_port = 47808;
  ipv6_interface_index = 0;
  mstp_port_name = codes "COM3";
  mstp_baud_rate = 38400;
  mstp_mac_address = 12;
  mstp_max_master = 127;
  mstp_max_info_frames = 1;
  sc_primary_hub_uri = [];
  sc_failover_hub_uri = [];
  sc_certificate_directory = codes "./certs";
  import_cari_zip = [];
}

mstp_line_runs : parse_command_line linux mstp_line default_options ≡ run mstp_result
unfolding parse_command_line in_range parse_number is_data_link_option is_known_option known_index
    number_or_fail parse_data_link set_data_link set_baud_rate hub_uri_or_fail is_help asks_help
    set_data_link_option set_known apply_option checked_option and_then parse_loop misplaced
    is_empty check_needs check_port check_misplaced check_combination nothing_given digits_value
    default_options
mstp_line_runs = refl

-- Without `--datalink mstp` the serial port is an error, not ignored.
forgotten_data_link :
    parse_command_line linux (codes "--mstp-port" ∷ codes "COM3" ∷ []) default_options
    ≡ exit_error (Reason.other_data_link 1)
unfolding parse_command_line in_range parse_number is_data_link_option is_known_option known_index
    number_or_fail parse_data_link set_data_link set_baud_rate hub_uri_or_fail is_help asks_help
    set_data_link_option set_known apply_option checked_option and_then parse_loop misplaced
    is_empty check_needs check_port check_misplaced check_combination nothing_given digits_value
    default_options
forgotten_data_link = refl

default_options-IsInRange : IsInRange linux default_options
unfolding default_options
default_options-IsInRange = (
  omega arith,
  (omega arith, omega arith),
  omega arith,
  (refl, inr (ground arith)),
  omega arith,
  (omega arith, omega arith),
  (omega arith, omega arith),
  inl refl,
  inl refl,
)

parse_command_line-IsRunnable_example : IsRunnable linux mstp_result
parse_command_line-IsRunnable_example =
    parse_command_line-IsRunnable linux mstp_line default_options mstp_result
      default_options-IsInRange mstp_line_runs

mstp_result-IsInRange : IsInRange linux mstp_result
mstp_result-IsInRange = (
  omega arith,
  (omega arith, omega arith),
  omega arith,
  (refl, inr (ground arith)),
  omega arith,
  (omega arith, omega arith),
  (omega arith, omega arith),
  inl refl,
  inl refl,
)

com3_named : codes "COM3" ≢ []
com3_named e = absurd (ground (arith, ap length e))

com3_no_help : is_help (codes "COM3") ≡ false
unfolding is_help
com3_no_help = refl

parse_command_line-mstp_arguments_example :
    parse_command_line linux (mstp_arguments mstp_result) default_options
    ≡ run (mstp_options mstp_result)
parse_command_line-mstp_arguments_example =
    parse_command_line-mstp_arguments linux mstp_result (omega arith) mstp_result-IsInRange
      com3_named com3_no_help (omega arith)
