-- ===== src/CommandLine.antt =====
-- command_line.cpp: which options there are, reading a value of one, and the checks of the
-- combination. An argument is the list of its octets, without the terminating NUL.
pub mod Parse
pub mod Leaves
pub mod Valid
pub mod Rounds
pub mod RoundTrip
pub mod Unset
pub mod Given
pub mod Placed
use bacnet_profile_example_b.Base.{
  ℕ, suc, ◌+◌, Bool, true, false, not, ◌&&◌, ◌||◌, List, [], ◌∷◌, Option, none, some, if◌then◌else◌,
  length, get_or, set, replicate, ltb, leb, ◌==◌,
}
use bacnet_profile_example_b.Base.Text.{codes, same_text, starts_with}
use bacnet_profile_example_b.Base.Decimal.{is_digit, digits_value}
use bacnet_profile_example_b.Options.{DataLink, CommandLineOptions, same_link}

-- What differs between systems: `ULONG_MAX`, and whether 76800 baud is available.
pub record Platform : Type 0 where
  pub ulong_max : ℕ
  pub has_76800_baud : Bool

-- `strtoul` sets `errno` above `ULONG_MAX`.
unfoldable pub in_range : ℕ → ℕ → ℕ → Option ℕ → Option ℕ
in_range ulong_max minimum maximum none = none
in_range ulong_max minimum maximum (some n) =
    if ltb ulong_max n || ltb n minimum || ltb maximum n then none else some n

unfoldable pub parse_number : Platform → List ℕ → ℕ → ℕ → Option ℕ
parse_number pf [] minimum maximum = none
parse_number pf (c ∷ cs) minimum maximum =
    if not (is_digit c)
    then none
    else in_range pf.ulong_max minimum maximum (digits_value 0 (c ∷ cs))

pub record DataLinkOption : Type 0 where
  pub name : List ℕ
  pub data_link : DataLink

abbrev pub data_link_options : List DataLinkOption
data_link_options =
    record { name = codes "--interface"; data_link = DataLink.ipv6 }
    ∷ record { name = codes "--mstp-port"; data_link = DataLink.mstp }
    ∷ record { name = codes "--mstp-baud"; data_link = DataLink.mstp }
    ∷ record { name = codes "--mstp-mac"; data_link = DataLink.mstp }
    ∷ record { name = codes "--mstp-max-master"; data_link = DataLink.mstp }
    ∷ record { name = codes "--mstp-max-info-frames"; data_link = DataLink.mstp }
    ∷ record { name = codes "--sc-hub"; data_link = DataLink.sc }
    ∷ record { name = codes "--sc-failover-hub"; data_link = DataLink.sc }
    ∷ record { name = codes "--sc-cert-dir"; data_link = DataLink.sc }
    ∷ record { name = codes "--import-cari"; data_link = DataLink.sc }
    ∷ []

unfoldable pub is_data_link_option : List DataLinkOption → List ℕ → Bool
is_data_link_option [] option = false
is_data_link_option (o ∷ os) option = same_text o.name option || is_data_link_option os option

unfoldable pub is_known_option : List ℕ → Bool
is_known_option option =
    if same_text option (codes "--datalink")
      || same_text option (codes "--deviceID")
      || same_text option (codes "--deviceName")
      || same_text option (codes "--port")
    then true
    else is_data_link_option data_link_options option

-- `knownIndex` of the option, from `i` on.
unfoldable pub known_index : List DataLinkOption → ℕ → List ℕ → Option ℕ
known_index [] i option = none
known_index (o ∷ os) i option =
    let rest = known_index os (suc i) option in
    if not (same_text o.name option) then rest else some i

-- Why the command line is refused; the text is the option or value that is printed.
pub data Reason : Type 0 where
  unexpected_argument unknown_option needs_value : List ℕ → Reason
  bad_value too_long no_76800_baud : List ℕ → Reason
  other_data_link : ℕ → Reason
  port_not_udp no_serial_port mac_above_max_master no_hub : Reason

pub data ParseResult : Type 0 where
  run : CommandLineOptions → ParseResult
  exit_success : ParseResult
  exit_error : Reason → ParseResult

-- The locals of `ParseCommandLine`: `*options`, `portGiven`, `dataLinkOptionsGiven`.
pub record Parsed : Type 0 where
  pub options : CommandLineOptions
  pub port_given : Bool
  pub given : List Bool

-- One option is read, or the parser returns.
pub data Step : Type 0 where
  failed : Reason → Step
  parsed : Parsed → Step

unfoldable pub default_options : CommandLineOptions
default_options = record {
  data_link = DataLink.ipv4;
  device_instance = 389005;
  udp_port = 47808;
  ipv6_interface_index = 0;
  mstp_port_name = [];
  mstp_baud_rate = 38400;
  mstp_mac_address = 1;
  mstp_max_master = 127;
  mstp_max_info_frames = 1;
  sc_primary_hub_uri = [];
  sc_failover_hub_uri = [];
  sc_certificate_directory = codes "./certs";
  import_cari_zip = [];
}

abbrev pub with_options : Parsed → CommandLineOptions → Step
with_options p o = parsed (record p { options = o })

-- A number in range is stored, another value refused.
unfoldable pub number_or_fail : List ℕ → (ℕ → Step) → Option ℕ → Step
number_or_fail value store none = failed (bad_value value)
number_or_fail value store (some n) = store n

unfoldable pub parse_data_link : List ℕ → Option DataLink
parse_data_link value =
    if same_text value (codes "ipv4") || same_text value (codes "ip")
    then some DataLink.ipv4
    else if same_text value (codes "ipv6")
    then some DataLink.ipv6
    else if same_text value (codes "mstp")
    then some DataLink.mstp
    else if same_text value (codes "sc")
    then some DataLink.sc
    else none

unfoldable pub set_data_link : List ℕ → Parsed → Option DataLink → Step
set_data_link value p none = failed (bad_value value)
set_data_link value p (some link) = with_options p (record p.options { data_link = link })

abbrev pub is_supported_baud_rate : ℕ → Bool
is_supported_baud_rate n =
    n == 9600 || n == 19200 || n == 38400 || n == 57600 || n == 76800 || n == 115200

unfoldable pub set_baud_rate : Platform → List ℕ → Parsed → ℕ → Step
set_baud_rate pf value p n =
    if not (is_supported_baud_rate n)
    then failed (bad_value value)
    else if not pf.has_76800_baud && n == 76800
    then failed (no_76800_baud value)
    else with_options p (record p.options { mstp_baud_rate = n })

-- What `--sc-hub` and `--sc-failover-hub` share.
unfoldable pub hub_uri_or_fail : List ℕ → List ℕ → Step → Step
hub_uri_or_fail option value store =
    if not (starts_with (codes "wss://") value) || leb (length value) 6
    then failed (bad_value value)
    else if ltb 255 (length value)
    then failed (too_long option)
    else store
