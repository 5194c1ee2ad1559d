-- ===== src/Tests.antt =====
-- Concrete data, and each result applied to it: a device on BACnet/IP with a bound peer, and a
-- certificate store with one file.
mod PeerTests
mod DeviceTests
mod RequestTests
mod CertTests
mod CommandLineTests
mod HubTests
mod ArchiveTests
use bacnet_profile_example_b.Base.{
  ℕ, ◌+◌, ◌-◌, ◌%◌, ◌^◌, ◌<◌, ◌≤◌, ◌≡◌, ◌≢◌, refl, Bool, true, false, not, List, [], ◌∷◌, Option,
  none, some, if◌then◌else◌, ◌==◌, arith, inl, inr, length, replicate, take, drop,
}
use bacnet_profile_example_b.Base.Int.{ℤ, pos, negsuc}
use bacnet_profile_example_b.Base.Text.{codes}
use bacnet_profile_example_b.Options.{DataLink, CommandLineOptions}
use bacnet_profile_example_b.Floats.{Floats}
use bacnet_profile_example_b.Priority.{at_power_on, Commandable, effective_priority}
use bacnet_profile_example_b.Priority.Slots.{
  at_power_on-IsSixteen, commanded, commanded-run, run, write, relinquish, last_at, Command,
}
use bacnet_profile_example_b.Cert.Host.{Host}
use bacnet_profile_example_b.Cert.Store.{CertStore, Layout, Staged, DiskFile}
use bacnet_profile_example_b.ScNode.{ScState}
use bacnet_profile_example_b.Device.{
  Device, Ipv6Address, IvoryFile, Output, analog, binary, multi_state, answer, accepted,
}
use bacnet_profile_example_b.Device.Commands.{present_value, slot}
use bacnet_profile_example_b.Peer.{Controller, RemotePeer}

-- Floats that are kept as they are; an integer is its own double.
pub same_bits : (x y : ℕ) → not (x == y) ≡ false → x ≡ y
same_bits x y e = ground (arith, e)

abbrev pub floats : Floats
floats = record {
  widen = λ x. x;
  narrow = λ x. x;
  of_uint = λ n. n;
  to_uint = λ n. n;
  float_of_uint = λ n. n;
  differs = λ x y. not (x == y);
  differs-false = λ x y h k e. inl (same_bits x y e);
  narrow-widen = λ x h e. refl;
  to_uint-of_uint = λ n h. refl;
}

-- A host on which every file operation succeeds; a certificate or key is its first octet.
abbrev pub host : Host
host = record {
  now = 1000;
  writes_temp = λ path. true;
  replaces = λ path. true;
  certificate_of = λ pem. some (length pem);
  key_of = λ pem. some (length pem);
  matches_key = λ leaf key. true;
  is_ca = λ leaf. false;
  verifies = λ leaf chain issuers purpose. true;
  new_key_and_request = λ leaf. none;
  pem_of = λ leaf. none;
}

-- The operational certificate, file 2, is at path 20, the issuer's, file 3, at path 30.
abbrev pub layout : Layout
layout = record {
  paths = (2, 20) ∷ (3, 30) ∷ [];
  read_fallback_instances = [];
  operational_instance = 2;
  issuer_instances = 3 ∷ [];
  private_key_path = 40;
  pending_private_key_path = 41;
  csr_instance = 5;
}

abbrev pub pem : List ℕ
pem = codes "-----BEGIN CERTIFICATE-----AA-----END CERTIFICATE-----"

-- Paths 20, 30 and 40 hold files.
abbrev pub store : CertStore
store = record {
  layout = layout;
  staged = [];
  commit_promotes_pending_key = false;
  files = λ path.
      if path == 20
      then some (record { content = pem; mtime = 1; readable = true })
      else if path == 30
      then some (record { content = pem; mtime = 1; readable = true })
      else if path == 40
      then some (record { content = b'k' ∷ []; mtime = 1; readable = true })
      else none;
  temps = λ path. none;
}

abbrev pub sc_state : ScState
sc_state = record {
  store = store;
  trusted_issuers = 50;
  reload_credentials_requested = false;
  hub_connected_event = false;
  primary_hub_uri = [];
  failover_hub_uri = [];
  hub_connection_status = 0;
}

abbrev pub options : CommandLineOptions
options = record {
  data_link = DataLink.ipv4;
  device_instance = 389001;
  udp_port = 47808;
  ipv6_interface_index = 0;
  mstp_port_name = [];
  mstp_baud_rate = 38400;
  mstp_mac_address = 1;
  mstp_max_master = 127;
  mstp_max_info_frames = 1;
  sc_primary_hub_uri = [];
  sc_failover_hub_uri = [];
  sc_certificate_directory = [];
  import_cari_zip = [];
}

abbrev pub ivory : IvoryFile
ivory = record { buffer = replicate 4096 0; used = 12; archive = false }

abbrev pub device : Device
device = record {
  device_instance = 389001;
  device_name = codes "B-BC";
  firmware_revision = codes "1.0";
  options = options;
  link_speed = 0;
  ip_address = 192 ∷ 168 ∷ 1 ∷ 10 ∷ [];
  ip_subnet_mask = 255 ∷ 255 ∷ 255 ∷ 0 ∷ [];
  ip_default_gateway = 192 ∷ 168 ∷ 1 ∷ 1 ∷ [];
  bacnet_ip_udp_port = 47808;
  ipv6_address = record {
    address = [];
    prefix_length = 64;
    default_gateway = [];
    has_dns_server = false;
    dns_server = [];
  };
  analog_input_value = 0;
  analog_output = at_power_on 21;
  binary_output = at_power_on 0;
  multi_state_output = at_power_on 1;
  analog_value = 50;
  diamond_reliability = 12;
  ivory = ivory;
  sc = sc_state;
}

-- The peer at 192.168.1.20:47808, with a ReadProperty outstanding under invoke id 1.
abbrev pub peer : RemotePeer
peer = record {
  bound = true;
  connection_string = 192 ∷ 168 ∷ 1 ∷ 20 ∷ 186 ∷ 192 ∷ [];
  read_property_invoke_id = 1;
  read_property_pending = true;
  read_property_multiple_invoke_id = 0;
  read_property_multiple_pending = false;
  poll_count = 1;
  read_property_multiple_unsupported = false;
  sensor_fault_reported = false;
  last_poll = 5000;
  last_answer = 5000;
}

abbrev pub controller : Controller
controller = record { device = device; peer = peer; updates = [] }
