-- ===== src/CertLayout.antt =====
-- sc/cert_layout.cpp: where the certificate files are. `fs::path` of the standard library is an
-- argument: `join` is `(directory / relative).generic_string()`; the directory is written with "/", so
-- its `generic_string()` is itself; `Folder` is an entry of a directory.
use bacnet_profile_example_b.Base.{
  ℕ, Bool, not, ◌||◌, List, [], ◌∷◌, ◌++◌, Option, none, some, if◌then◌else◌, length, drop, ltb,
  ◌==◌,
}
use bacnet_profile_example_b.Base.Text.{codes, starts_with}
use bacnet_profile_example_b.Base.Decimal.{digits_value, decimal}

abbrev pub node_port_id : List ℕ
node_port_id = codes "4"

abbrev pub node_file_name : List ℕ
node_file_name = codes "node"

pub record NodeCertPaths : Type 0 where
  pub cert_dir : List ℕ
  pub port_folder : List ℕ
  pub folder_device_instance : ℕ
  pub note : List ℕ
  pub operational_certificate : List ℕ
  pub certificate_signing_request : List ℕ
  pub issuer_certificate_1 : List ℕ
  pub issuer_certificate_2 : List ℕ
  pub private_key : List ℕ
  pub pending_private_key : List ℕ
  pub trusted_issuers : List ℕ

-- An entry of cert1/: its name, whether it is a directory, and which node files its port folder has.
pub record Folder : Type 0 where
  pub name : List ℕ
  pub is_directory : Bool
  pub has_key : Bool
  pub has_csr : Bool
  pub has_opr : Bool

-- The digits after "device-": at most seven, so `strtoul` cannot overflow.
unfoldable pub instance_of : List ℕ → Option ℕ → Option ℕ
instance_of digits none = none
instance_of digits (some value) =
    if ltb 7 (length digits) || ltb 4194302 value then none else some value

unfoldable pub parse_device_folder : List ℕ → Option ℕ
parse_device_folder name =
    let digits = drop 7 name in
    if not (starts_with (codes "device-") name) || length name == 7
    then none
    else instance_of digits (digits_value 0 digits)

abbrev pub Port : Type 0
Port = List ℕ × ℕ

abbrev pub with_port : Folder → Option ℕ → List Port → List Port
with_port device none ports = ports
with_port device (some n) ports =
    if device.has_key || device.has_csr || device.has_opr
    then (codes "cert1/" ++ (device.name ++ (codes "/port-" ++ node_port_id)), n) ∷ ports
    else ports

unfoldable pub find_node_ports : List Folder → List Port
find_node_ports [] = []
find_node_ports (device ∷ devices) =
    let found = find_node_ports devices in
    if device.is_directory then with_port device (parse_device_folder device.name) found else found

unfoldable pub fill_cari : (List ℕ → List ℕ → List ℕ) → List ℕ → List ℕ → ℕ → NodeCertPaths
fill_cari join directory port_folder n = record {
  cert_dir = directory;
  port_folder = port_folder;
  folder_device_instance = n;
  note = [];
  operational_certificate =
      join directory (port_folder ++ (codes "/opr-" ++ (node_file_name ++ codes ".pem")));
  certificate_signing_request =
      join directory (port_folder ++ (codes "/csr-" ++ (node_file_name ++ codes ".pem")));
  issuer_certificate_1 = join directory (codes "cert1/issuer/iss-1.pem");
  issuer_certificate_2 = join directory (codes "cert1/issuer/iss-2.pem");
  private_key = join directory (port_folder ++ (codes "/key-" ++ (node_file_name ++ codes ".pem")));
  pending_private_key = join directory (codes "key-" ++ (node_file_name ++ codes "-pending.pem"));
  trusted_issuers = join directory (codes "trusted-issuers.pem");
}

unfoldable pub new_node_cert_paths : (List ℕ → List ℕ → List ℕ) → List ℕ → ℕ → NodeCertPaths
new_node_cert_paths join cert_dir device_instance =
    fill_cari join cert_dir
      (codes "cert1/device-" ++ (decimal device_instance ++ (codes "/port-" ++ node_port_id)))
      device_instance

-- `chosenIndex`: the last folder of this device, else `chosen`.
unfoldable pub choose : ℕ → Port → List Port → Port
choose device_instance chosen [] = chosen
choose device_instance chosen (port ∷ ports) =
    let mine = choose device_instance port ports in
    let other = choose device_instance chosen ports in
    if port.1 == device_instance then mine else other

unfoldable pub other_device_note : Port → ℕ → List ℕ
other_device_note (folder, n) device_instance =
    codes "the certificate folder "
    ++ (folder
        ++ (codes " is for device instance "
            ++ (decimal n
                ++ (codes ", but this device is "
                    ++ (decimal device_instance
                        ++ (codes "; using it anyway (rename the folder to device-"
                            ++ (decimal device_instance ++ codes " to match)")))))))

unfoldable pub many_ports_note : List ℕ → List Port → Port → List ℕ
many_ports_note note ports (folder, n) =
    note
    ++ ((if length note == 0 then [] else codes "; ")
        ++ (decimal (length ports)
            ++ (codes " node port folders found under cert1/, using " ++ folder)))

unfoldable pub note_of : ℕ → List Port → Port → List ℕ
note_of device_instance ports port =
    let note = if port.1 == device_instance then [] else other_device_note port device_instance in
    let longer = many_ports_note note ports port in if ltb 1 (length ports) then longer else note

unfoldable pub paths_among : (List ℕ → List ℕ → List ℕ) → List ℕ → ℕ → List Port → NodeCertPaths
paths_among join cert_dir device_instance [] = new_node_cert_paths join cert_dir device_instance
paths_among join cert_dir device_instance (first ∷ more) =
    let port = choose device_instance first (first ∷ more) in
    record (fill_cari join cert_dir port.0 port.1) {
      note = note_of device_instance (first ∷ more) port;
    }

-- `folders` are the entries of cert1/, none when it is no directory.
unfoldable pub resolve_node_cert_paths :
    (List ℕ → List ℕ → List ℕ) → Option (List Folder) → List ℕ → ℕ → NodeCertPaths
resolve_node_cert_paths join folders cert_dir device_instance = elim folders [
  | none ↦ new_node_cert_paths join cert_dir device_instance
  | some found ↦ paths_among join cert_dir device_instance (find_node_ports found)
]
