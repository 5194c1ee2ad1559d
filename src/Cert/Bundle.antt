-- ===== src/Cert/Bundle.antt =====
-- sc/cert_store.cpp: `WriteTrustedIssuerBundle`, the issuers that TLS trusts.
use bacnet_profile_example_b.Base.{
  ℕ, Bool, true, false, ◌||◌, List, [], ◌∷◌, ◌++◌, none, some, if◌then◌else◌,
}
use bacnet_profile_example_b.Base.Text.{same_text}
use bacnet_profile_example_b.Cert.Host.{Host}
use bacnet_profile_example_b.Cert.Pem.{parsed, refused, parse_certificates}
use bacnet_profile_example_b.Cert.Store.{CertStore, read}
use bacnet_profile_example_b.Cert.Commit.{write_temp_file, remove_temps, replace_with_temp}

contains_text : List ℕ → List (List ℕ) → Bool
contains_text t [] = false
contains_text t (u ∷ us) = same_text u t || contains_text t us

-- The PEM texts of certificates that were not seen yet, with what has been seen.
unseen_pems : Host → List ℕ → List ℕ × List (List ℕ) → List ℕ × List (List ℕ)
unfolding contains_text
unseen_pems host [] acc = acc
unseen_pems host (c ∷ cs) (bundle, seen) = unseen_pems host cs (elim (host.pem_of c) [
  | none ↦ (bundle, seen)
  | some pem ↦ if contains_text pem seen then (bundle, seen) else (bundle ++ pem, pem ∷ seen)
])

bundle_file : Host → CertStore → ℕ → List ℕ × List (List ℕ) → List ℕ × List (List ℕ)
unfolding unseen_pems read
bundle_file host s file acc = elim (read s file) [
  | none ↦ acc
  | some bytes ↦ elim (parse_certificates host bytes []) [
    | refused why ↦ acc
    | parsed certs ↦ unseen_pems host certs acc
  ]
]

unfoldable pub issuer_bundle :
    Host → CertStore → List ℕ → List ℕ × List (List ℕ) → List ℕ × List (List ℕ)
unfolding bundle_file
issuer_bundle host s [] acc = acc
issuer_bundle host s (file ∷ files) acc = issuer_bundle host s files (bundle_file host s file acc)

-- `AtomicWriteFileToDisk`.
unfoldable pub atomic_write_file : Host → CertStore → ℕ → List ℕ → CertStore × Bool
unfolding write_temp_file replace_with_temp remove_temps
atomic_write_file host s path bytes =
    let (s1, written) = write_temp_file host s path bytes in
    let (s2, replaced) = replace_with_temp host s1 path in
    if written
    then if replaced then (s2, true) else (remove_temps s2 (path ∷ []), false)
    else (s1, false)

-- `WriteTrustedIssuerBundle`.
unfoldable pub write_trusted_issuer_bundle : Host → CertStore → ℕ → CertStore × Bool
unfolding issuer_bundle atomic_write_file
write_trusted_issuer_bundle host s bundle_path =
    let (bundle, seen) = issuer_bundle host s s.layout.issuer_instances ([], []) in
    elim bundle [ [] ↦ (s, false) | c ∷ cs ↦ atomic_write_file host s bundle_path (c ∷ cs) ]
