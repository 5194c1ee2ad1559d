-- ===== src/Cert/Validate.antt =====
-- sc/cert_store.cpp: `ValidateStaged`, the check of the files as they would be after a commit.
pub mod Sound
use bacnet_profile_example_b.Base.{
  ℕ, Bool, true, false, ◌&&◌, ◌||◌, List, [], ◌∷◌, Option, none, some, if◌then◌else◌, length, leb,
  ◌==◌, ◌⊎◌, inl, inr,
}
use bacnet_profile_example_b.Cert.Host.{Host}
use bacnet_profile_example_b.Cert.Pem.{parsed, refused, Reason, parse_certificates}
use bacnet_profile_example_b.Cert.Store.{CertStore, read, read_disk}

-- The `reason` texts, by what they say.
pub data Refusal : Type 0 where
  bad_issuer : ℕ → Reason → Refusal
  no_issuer no_private_key key_mismatch operational_is_ca empty_operational : Refusal
  bad_operational : Reason → Refusal
  unverified : ℕ → Refusal
  no_such_file temp_failed replace_failed promote_failed : ℕ → Refusal
  writes_are_staged no_csr_file no_operational openssl_failed : Refusal

abbrev pub Answer : Type 0
Answer = Option Refusal

-- `X509_PURPOSE_SSL_SERVER` and `X509_PURPOSE_SSL_CLIENT`.
abbrev pub ssl_server : ℕ
ssl_server = 2

abbrev pub ssl_client : ℕ
ssl_client = 1

abbrev pub contents : Option (List ℕ) → List ℕ
contents none = []
contents (some bytes) = bytes

-- A file's contents as they would be after a commit.
unfoldable pub effective : CertStore → ℕ → List ℕ
unfolding read
effective s file = contents (read s file)

unfoldable pub load_key : Host → CertStore → ℕ → Option ℕ
unfolding read_disk
load_key host s path =
    if path == 0 then none else elim (read_disk s path) [ none ↦ none | some pem ↦ host.key_of pem ]

any_verifies : Host → ℕ → List ℕ → ℕ → List ℕ → Bool
any_verifies host leaf chain purpose [] = false
any_verifies host leaf chain purpose (i ∷ is) =
    host.verifies leaf chain (i ∷ []) purpose || any_verifies host leaf chain purpose is

-- Each issuer on its own first, then all of them together if there are two or more.
unfoldable pub chains_to_issuers : Host → ℕ → List ℕ → List ℕ → ℕ → Bool
unfolding any_verifies
chains_to_issuers host leaf intermediates issuers purpose =
    any_verifies host leaf intermediates purpose issuers
    || leb 2 (length issuers) && host.verifies leaf intermediates issuers purpose

unfoldable pub parse_issuers : Host → CertStore → List ℕ → List ℕ → List ℕ ⊎ Refusal
unfolding effective
parse_issuers host s [] out = inl out
parse_issuers host s (file ∷ files) out = elim (parse_certificates host (effective s file) out) [
  | refused why ↦ inr (bad_issuer file why)
  | parsed more ↦ parse_issuers host s files more
]

unfoldable pub is_key_of : Host → ℕ → Option ℕ → Bool
is_key_of host leaf none = false
is_key_of host leaf (some key) = host.matches_key leaf key

-- Which key the operational certificate belongs to: `true` for the pending one.
unfoldable pub owning_key : Host → CertStore → ℕ → Bool ⊎ Refusal
unfolding load_key is_key_of
owning_key host s leaf =
    let key = load_key host s s.layout.private_key_path in
    let pending_key = load_key host s s.layout.pending_private_key_path in
    if is_key_of host leaf key
    then inl false
    else if is_key_of host leaf pending_key
    then inl true
    else elim key [ none ↦ inr no_private_key | some k ↦ inr key_mismatch ]

unfoldable pub verify_roles : Host → ℕ → List ℕ → List ℕ → Answer
unfolding chains_to_issuers
verify_roles host leaf intermediates issuers =
    if chains_to_issuers host leaf intermediates issuers ssl_server
    then if chains_to_issuers host leaf intermediates issuers ssl_client
      then none
      else some (unverified ssl_client)
    else some (unverified ssl_server)

-- From the point where both the issuers and the operational certificate are read.
unfoldable pub check_operational : Host → CertStore → List ℕ → ℕ → List ℕ → CertStore × Answer
unfolding owning_key verify_roles
check_operational host s issuers leaf intermediates = elim (owning_key host s leaf) [
  | inr why ↦ (record s { commit_promotes_pending_key = false }, some why)
  | inl pending ↦ (
    record s { commit_promotes_pending_key = pending },
    if host.is_ca leaf
        then some operational_is_ca
        else verify_roles host leaf intermediates issuers,
  )
]

unfoldable pub validate_operational : Host → CertStore → List ℕ → CertStore × Answer
unfolding check_operational effective
validate_operational host s issuers =
    elim (parse_certificates host (effective s s.layout.operational_instance) []) [
      | refused why ↦ (s, some (bad_operational why))
      | parsed [] ↦ (s, some empty_operational)
      | parsed (leaf ∷ intermediates) ↦ check_operational host s issuers leaf intermediates
    ]

-- `ValidateStaged`: `none` means that the staged files may be activated.
unfoldable pub validate_staged : Host → CertStore → CertStore × Answer
unfolding parse_issuers validate_operational
validate_staged host s = elim (parse_issuers host s s.layout.issuer_instances []) [
  | inr why ↦ (s, some why)
  | inl [] ↦ (s, some no_issuer)
  | inl (i ∷ is) ↦ validate_operational host s (i ∷ is)
]
