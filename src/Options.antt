-- ===== src/Options.antt =====
-- command_line.h: the four data links and the settings that the command line fills in.
-- A text (`std::string`, `char*`) is the list of its octets.
use bacnet_profile_example_b.Base.{ℕ, Bool, true, false, List}

pub data DataLink : Type 0 where
  ipv4 ipv6 mstp sc : DataLink

-- `==` on the enum.
abbrev pub same_link : DataLink → DataLink → Bool
same_link DataLink.ipv4 DataLink.ipv4 = true
same_link DataLink.ipv6 DataLink.ipv6 = true
same_link DataLink.mstp DataLink.mstp = true
same_link DataLink.sc DataLink.sc = true
same_link _ _ = false

pub record CommandLineOptions : Type 0 where
  pub data_link : DataLink
  pub device_instance : ℕ
  pub udp_port : ℕ
  pub ipv6_interface_index : ℕ
  pub mstp_port_name : List ℕ
  pub mstp_baud_rate : ℕ
  pub mstp_mac_address : ℕ
  pub mstp_max_master : ℕ
  pub mstp_max_info_frames : ℕ
  pub sc_primary_hub_uri : List ℕ
  pub sc_failover_hub_uri : List ℕ
  pub sc_certificate_directory : List ℕ
  pub import_cari_zip : List ℕ
