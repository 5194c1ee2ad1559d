-- ===== src/CommandLine/Parse.antt =====
-- command_line.cpp, `ParseCommandLine`: the scan for help, the loop over the options, and the checks
-- of the combination.
use bacnet_profile_example_b.Base.{
  ℕ, suc, Bool, true, false, not, ◌&&◌, ◌||◌, List, [], ◌∷◌, Option, none, some, if◌then◌else◌,
  length, get_or, set, replicate, ltb, ◌==◌,
}
use bacnet_profile_example_b.Base.Text.{codes, same_text, starts_with}
use bacnet_profile_example_b.Options.{DataLink, CommandLineOptions, same_link}
use bacnet_profile_example_b.CommandLine.{
  Platform, parse_number, DataLinkOption, data_link_options, is_known_option, known_index, Reason,
  ParseResult, Parsed, Step, with_options, number_or_fail, parse_data_link, set_data_link,
  set_baud_rate, hub_uri_or_fail, run, exit_success, exit_error, failed, parsed,
}

unfoldable pub is_help : List ℕ → Bool
is_help argument =
    same_text argument (codes "--help")
    || same_text argument (codes "-h")
    || same_text argument (codes "/?")
    || same_text argument (codes "--version")

-- The first loop: is one of the arguments a request for help or the version?
unfoldable pub asks_help : List (List ℕ) → Bool
asks_help [] = false
asks_help (argument ∷ arguments) = is_help argument || asks_help arguments

-- The value of a data-link option that was recorded.
unfoldable pub set_data_link_option : Platform → List ℕ → List ℕ → Parsed → Step
set_data_link_option pf option value p =
    let o = p.options in
    if same_text option (codes "--interface")
    then number_or_fail value (λ n. with_options p (record o { ipv6_interface_index = n }))
        (parse_number pf value 1 4294967295)
    else if same_text option (codes "--mstp-port")
    then with_options p (record o { mstp_port_name = value })
    else if same_text option (codes "--mstp-baud")
    then number_or_fail value (set_baud_rate pf value p) (parse_number pf value 1 4294967295)
    else if same_text option (codes "--mstp-mac")
    then number_or_fail value (λ n. with_options p (record o { mstp_mac_address = n }))
        (parse_number pf value 0 127)
    else if same_text option (codes "--mstp-max-master")
    then number_or_fail value (λ n. with_options p (record o { mstp_max_master = n }))
        (parse_number pf value 1 127)
    else if same_text option (codes "--mstp-max-info-frames")
    then number_or_fail value (λ n. with_options p (record o { mstp_max_info_frames = n }))
        (parse_number pf value 1 255)
    else if same_text option (codes "--sc-hub")
    then hub_uri_or_fail option value (with_options p (record o { sc_primary_hub_uri = value }))
    else if same_text option (codes "--sc-failover-hub")
    then hub_uri_or_fail option value (with_options p (record o { sc_failover_hub_uri = value }))
    else if same_text option (codes "--sc-cert-dir")
    then with_options p (record o { sc_certificate_directory = value })
    else if same_text option (codes "--import-cari")
    then with_options p (record o { import_cari_zip = value })
    else parsed p

-- `dataLinkOptionsGiven[knownIndex] = option`, then the value.
unfoldable pub set_known : Platform → List ℕ → List ℕ → Parsed → Option ℕ → Step
set_known pf option value p none = failed (Reason.unknown_option option)
set_known pf option value p (some i) =
    set_data_link_option pf option value (record p { given = set p.given i true })

-- The body of the second loop for an option with its value.
unfoldable pub apply_option : Platform → List ℕ → List ℕ → Parsed → Step
apply_option pf option value p =
    let o = p.options in
    if same_text option (codes "--datalink")
    then set_data_link value p (parse_data_link value)
    else if same_text option (codes "--deviceID")
    then number_or_fail value (λ n. with_options p (record o { device_instance = n }))
        (parse_number pf value 0 4194302)
    else if same_text option (codes "--deviceName")
    then parsed p
    else if same_text option (codes "--port")
    then number_or_fail value
        (λ n. parsed (record p { options = record o { udp_port = n }; port_given = true }))
        (parse_number pf value 1 65535)
    else set_known pf option value p (known_index data_link_options 0 option)

-- The guards before an option is applied; `next` is the loop's round for the option and its value.
unfoldable pub checked_option : List ℕ → Step → Step
checked_option option next =
    if not (starts_with (codes "--") option)
    then failed (Reason.unexpected_argument option)
    else if not (is_known_option option)
    then failed (Reason.unknown_option option)
    else next

unfoldable pub and_then : Step → (Parsed → Step) → Step
and_then (failed why) next = failed why
and_then (parsed p) next = next p

-- The second loop, on the arguments that are left. An option takes the argument after it.
unfoldable pub parse_loop : Platform → List (List ℕ) → Parsed → Step
parse_loop pf [] p = parsed p
parse_loop pf (option ∷ []) p =
    if same_text option (codes "--xml")
    then parsed p
    else checked_option option (failed (Reason.needs_value option))
parse_loop pf (option ∷ value ∷ arguments) p =
    let skipped = parse_loop pf (value ∷ arguments) p in
    let next = and_then (apply_option pf option value p) (parse_loop pf arguments) in
    if same_text option (codes "--xml") then skipped else checked_option option next

-- The third loop, from `knownIndex` `i` on: the first option given that is another data link's.
unfoldable pub misplaced : List DataLinkOption → ℕ → List Bool → DataLink → Option ℕ
misplaced [] i given link = none
misplaced (o ∷ os) i given link =
    let rest = misplaced os (suc i) given link in
    if get_or given i false && not (same_link o.data_link link) then some i else rest

unfoldable pub is_empty : List ℕ → Bool
is_empty text = length text == 0

-- What the chosen data link needs.
unfoldable pub check_needs : CommandLineOptions → ParseResult
check_needs o =
    if same_link o.data_link DataLink.mstp && is_empty o.mstp_port_name
    then exit_error Reason.no_serial_port
    else if same_link o.data_link DataLink.mstp && ltb o.mstp_max_master o.mstp_mac_address
    then exit_error Reason.mac_above_max_master
    else if same_link o.data_link DataLink.sc
        && is_empty o.sc_primary_hub_uri
        && is_empty o.import_cari_zip
    then exit_error Reason.no_hub
    else run o

unfoldable pub check_port : Parsed → ParseResult
check_port p =
    if p.port_given
      && (same_link p.options.data_link DataLink.mstp || same_link p.options.data_link DataLink.sc)
    then exit_error Reason.port_not_udp
    else check_needs p.options

unfoldable pub check_misplaced : Parsed → Option ℕ → ParseResult
check_misplaced p (some i) = exit_error (Reason.other_data_link i)
check_misplaced p none = check_port p

unfoldable pub check_combination : Step → ParseResult
check_combination (failed why) = exit_error why
check_combination (parsed p) =
    check_misplaced p (misplaced data_link_options 0 p.given p.options.data_link)

unfoldable pub nothing_given : CommandLineOptions → Parsed
nothing_given o = record { options = o; port_given = false; given = replicate 10 false }

-- `arguments` are `argv[1]` and those after it; `options` are the ones that the caller hands over.
unfoldable pub parse_command_line : Platform → List (List ℕ) → CommandLineOptions → ParseResult
parse_command_line pf arguments options =
    let result = check_combination (parse_loop pf arguments (nothing_given options)) in
    if asks_help arguments then exit_success else result
