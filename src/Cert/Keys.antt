-- ===== src/Cert/Keys.antt =====
-- sc/cert_store.cpp: the pending key at start-up and `GenerateKeyAndCsr`.
use bacnet_profile_example_b.Base.{
  ℕ, Bool, true, ◌||◌, not, List, [], ◌∷◌, none, some, if◌then◌else◌, ◌==◌,
}
use bacnet_profile_example_b.Base.Assoc.{lookup}
use bacnet_profile_example_b.Cert.Host.{Host}
use bacnet_profile_example_b.Cert.Pem.{Parsed, parsed, refused, parse_certificates}
use bacnet_profile_example_b.Cert.Store.{CertStore, read_disk, has_staged_changes}
use bacnet_profile_example_b.Cert.Validate.{
  Answer, temp_failed, replace_failed, writes_are_staged, no_csr_file, no_operational,
  openssl_failed, contents, effective, load_key, is_key_of,
}
use bacnet_profile_example_b.Cert.Commit.{
  write_temp_file, remove_temps, replace_with_temp, promote_pending_key,
}

reconcile_with : Host → CertStore → Parsed (List ℕ) → CertStore × Bool
unfolding load_key is_key_of promote_pending_key
reconcile_with host s (refused why) = (s, true)
reconcile_with host s (parsed []) = (s, true)
reconcile_with host s (parsed (leaf ∷ more)) =
    let for_current = is_key_of host leaf (load_key host s s.layout.private_key_path) in
    let for_pending = is_key_of host leaf (load_key host s s.layout.pending_private_key_path) in
    if for_current || not for_pending then (s, true) else promote_pending_key host s

-- `ReconcilePendingKey` at start-up; `true` when the swap did not fail.
unfoldable pub reconcile_pending_key : Host → CertStore → CertStore × Bool
unfolding reconcile_with read_disk lookup
reconcile_pending_key host s =
    if s.layout.pending_private_key_path == 0
    then (s, true)
    else elim (s.files s.layout.pending_private_key_path) [
      | none ↦ (s, true)
      | some f ↦ elim (lookup s.layout.operational_instance s.layout.paths) [
        | none ↦ (s, true)
        | some path ↦
            reconcile_with host s (parse_certificates host (contents (read_disk s path)) [])
      ]
    ]

-- The parts of `GenerateKeyAndCsr` after OpenSSL has made both texts: both temp files first, then
-- the key, then the request.
replace_key_and_csr : Host → CertStore → ℕ → CertStore × Answer
unfolding replace_with_temp remove_temps
replace_key_and_csr host s csr_path =
    let pending = s.layout.pending_private_key_path in
    let (s1, key_done) = replace_with_temp host s pending in
    let (s2, csr_done) = replace_with_temp host s1 csr_path in
    if key_done
    then if csr_done then (s2, none) else (s2, some (replace_failed csr_path))
    else (remove_temps s1 (pending ∷ csr_path ∷ []), some (replace_failed pending))

write_key_and_csr : Host → CertStore → ℕ → List ℕ → List ℕ → CertStore × Answer
unfolding write_temp_file replace_key_and_csr remove_temps
write_key_and_csr host s csr_path key_pem csr_pem =
    let pending = s.layout.pending_private_key_path in
    let (s1, key_done) = write_temp_file host s pending key_pem in
    let (s2, csr_done) = write_temp_file host s1 csr_path csr_pem in
    if key_done
    then if csr_done
      then replace_key_and_csr host s2 csr_path
      else (remove_temps s2 (pending ∷ []), some (temp_failed csr_path))
    else (s1, some (temp_failed pending))

generate_for : Host → CertStore → ℕ → Parsed (List ℕ) → CertStore × Answer
unfolding write_key_and_csr
generate_for host s csr_path (refused why) = (s, some no_operational)
generate_for host s csr_path (parsed []) = (s, some no_operational)
generate_for host s csr_path (parsed (leaf ∷ more)) = elim (host.new_key_and_request leaf) [
  | none ↦ (s, some openssl_failed)
  | some (key_pem, csr_pem) ↦ write_key_and_csr host s csr_path key_pem csr_pem
]

-- `GenerateKeyAndCsr`.
unfoldable pub generate_key_and_csr : Host → CertStore → CertStore × Answer
unfolding generate_for effective lookup has_staged_changes
generate_key_and_csr host s =
    if has_staged_changes s
    then (s, some writes_are_staged)
    else elim (lookup s.layout.csr_instance s.layout.paths) [
      | none ↦ (s, some no_csr_file)
      | some csr_path ↦
          if s.layout.pending_private_key_path == 0
          then (s, some no_csr_file)
          else generate_for host s csr_path
              (parse_certificates host (effective s s.layout.operational_instance) [])
    ]
