-- ===== src/Tests/CertTests.antt =====
-- The results on the certificate store, applied to one with an operational and an issuer
-- certificate.
use bacnet_profile_example_b.Base.{
  ℕ, ◌+◌, ◌≤◌, ◌≡◌, ◌≢◌, refl, false, List, [], ◌∷◌, ◌++◌, none, some, inl, inr, take, drop,
}
use bacnet_profile_example_b.Base.Int.{pos, negsuc}
use bacnet_profile_example_b.Base.Assoc.{lookup}
use bacnet_profile_example_b.Base.Text.{find, find_from}
use bacnet_profile_example_b.Cert.Host.{Host}
use bacnet_profile_example_b.Cert.Pem.Split.{Terminates, split_pem_blocks-Terminates}
use bacnet_profile_example_b.Cert.Pem.{
  split_pem_blocks, certificate_label, parse_certificates, parsed,
}
use bacnet_profile_example_b.Cert.Store.{
  CertStore, read, write, wrote, write_refused, max_file_bytes,
}
use bacnet_profile_example_b.Cert.Store.Staging.{
  SameRead, read-write, write-refused, write-staged_only,
}
use bacnet_profile_example_b.Cert.Validate.{validate_staged, effective, parse_issuers, temp_failed}
use bacnet_profile_example_b.Cert.Validate.Sound.{IsUsable, validate_staged-accepted}
use bacnet_profile_example_b.Cert.Commit.{commit_staged}
use bacnet_profile_example_b.Cert.Commit.Atomic.{commit_staged-early}
use bacnet_profile_example_b.Tests.{host, store, pem}

-- A line feed after the operational certificate.
abbrev staged_store : CertStore
staged_store = record store {
  staged = (2, record { bytes = pem ++ (b'\n' ∷ []); modified = 1000 }) ∷ [];
}

writes : write host store 2 (negsuc 0) (b'\n' ∷ []) ≡ (staged_store, wrote 54)
unfolding write
writes = refl

read-write_example :
    (bytes : List ℕ) × (read staged_store 2 ≡ some bytes)
    × (take 1 (drop 54 bytes) ≡ b'\n' ∷ [])
    × (54 + 1 ≤ max_file_bytes)
read-write_example = read-write host store staged_store 2 (negsuc 0) (b'\n' ∷ []) 54 writes

write-staged_only_example : (staged_store.files ≡ store.files) × (staged_store.temps ≡ store.temps)
write-staged_only_example =
    write-staged_only host store staged_store 2 (negsuc 0) (b'\n' ∷ []) 54 writes

-- The staged copy that a refused write leaves.
abbrev touched_store : CertStore
touched_store = record store { staged = (2, record { bytes = pem; modified = 1000 }) ∷ [] }

refuses : write host store 2 (pos 1000) (b'\n' ∷ []) ≡ (touched_store, write_refused 11)
unfolding write
refuses = refl

write-refused_example :
    SameRead (read store 2) (read touched_store 2)
    × (touched_store.files ≡ store.files)
    × (touched_store.temps ≡ store.temps)
write-refused_example = write-refused host store touched_store 2 (pos 1000) (b'\n' ∷ []) 11 refuses

-- A host that cannot write a temporary file.
abbrev full_host : Host
full_host = record host { writes_temp = λ path. false }

abbrev failed_store : CertStore
failed_store = (commit_staged full_host staged_store).0

commit_fails : commit_staged full_host staged_store ≡ (failed_store, some (temp_failed 20))
unfolding commit_staged lookup
commit_fails = refl

commit_staged-early_example :
    (failed_store.files ≡ staged_store.files) × (failed_store.staged ≡ staged_store.staged)
commit_staged-early_example =
    commit_staged-early full_host staged_store failed_store 20 (temp_failed 20) (inr refl)
      commit_fails

accepts : validate_staged host staged_store ≡ (staged_store, none)
unfolding validate_staged parse_certificates find_from find
accepts = refl

validate_staged-accepted_example :
    (leaf : ℕ) × (intermediates : List ℕ) × (issuers : List ℕ) × (parse_certificates host
        (effective staged_store 2)
        []
      ≡ parsed (leaf ∷ intermediates))
    × (parse_issuers host staged_store (3 ∷ []) [] ≡ inl issuers)
    × (issuers ≢ [])
    × IsUsable host staged_store staged_store leaf intermediates issuers
validate_staged-accepted_example = validate_staged-accepted host staged_store staged_store accepts

split_pem_blocks-Terminates_example : Terminates (split_pem_blocks pem certificate_label)
split_pem_blocks-Terminates_example = split_pem_blocks-Terminates pem certificate_label
