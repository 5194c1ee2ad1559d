-- ===== src/Cert/Validate/Sound.antt =====
-- What a successful `ValidateStaged` has established of the certificate files.
use bacnet_profile_example_b.Base.{
  ℕ, ◌≡◌, ◌≢◌, refl, subst, Bool, true, false, List, [], ◌∷◌, Option, none, some, if◌then◌else◌,
  ◌⊎◌, inl, inr, arith, Bool-cases,
}
use bacnet_profile_example_b.Cert.Host.{Host}
use bacnet_profile_example_b.Cert.Pem.{parse_certificates, parsed, refused, Parsed}
use bacnet_profile_example_b.Cert.Store.{CertStore}
use bacnet_profile_example_b.Cert.Validate.{
  no_private_key, key_mismatch, Refusal, Answer, effective, load_key, chains_to_issuers, owning_key,
  is_key_of, verify_roles, check_operational, validate_operational, validate_staged, parse_issuers,
  ssl_server, ssl_client, operational_is_ca, bad_operational, empty_operational, no_issuer,
}

-- The certificate's private key is one of the device's two.
abbrev pub HasKey : Host → CertStore → ℕ → Bool → Type 0
HasKey host s leaf false = is_key_of host leaf (load_key host s s.layout.private_key_path) ≡ true
HasKey host s leaf true =
    is_key_of host leaf (load_key host s s.layout.pending_private_key_path) ≡ true

-- The certificate may be used: it has a key of the device, is no CA, and chains to the issuers both
-- as a TLS server and as a client.
pub record IsUsable (host : Host) (s s' : CertStore) (leaf : ℕ) (intermediates issuers : List ℕ)
    : Type 0 where
  pub key : HasKey host s leaf s'.commit_promotes_pending_key
  pub not_ca : host.is_ca leaf ≡ false
  pub server : chains_to_issuers host leaf intermediates issuers ssl_server ≡ true
  pub client : chains_to_issuers host leaf intermediates issuers ssl_client ≡ true
  pub files : s'.files ≡ s.files
  pub staged : s'.staged ≡ s.staged

verify_roles-none :
    (host : Host) (leaf : ℕ) (intermediates issuers : List ℕ)
    → verify_roles host leaf intermediates issuers ≡ none
    → (chains_to_issuers host leaf intermediates issuers ssl_server ≡ true)
      × (chains_to_issuers host leaf intermediates issuers ssl_client ≡ true)
unfolding verify_roles
verify_roles-none host leaf intermediates issuers e =
    elim (Bool-cases (chains_to_issuers host leaf intermediates issuers ssl_server)) [
      | inr no' ↦ absurd (ground (arith, simp no' at e))
      | inl server ↦
          elim (Bool-cases (chains_to_issuers host leaf intermediates issuers ssl_client)) [
            | inr no' ↦ absurd (ground (arith, simp (server, no') at e))
            | inl client ↦ (server, client)
          ]
    ]

-- Which key it is.
abbrev Owns : Host → CertStore → ℕ → Bool ⊎ Refusal → Type 0
Owns host s leaf (inl pending) = HasKey host s leaf pending
Owns host s leaf (inr why) = Unit {0}

owning_key-Owns :
    (host : Host) (s : CertStore) (leaf : ℕ) → Owns host s leaf (owning_key host s leaf)
unfolding owning_key
owning_key-Owns host s leaf =
    go (is_key_of host leaf (load_key host s s.layout.private_key_path))
      (is_key_of host leaf (load_key host s s.layout.pending_private_key_path))
      (load_key host s s.layout.private_key_path) refl refl
  where
    go :
        (own pending : Bool) (key : Option ℕ)
        → is_key_of host leaf (load_key host s s.layout.private_key_path) ≡ own
        → is_key_of host leaf (load_key host s s.layout.pending_private_key_path) ≡ pending
        → Owns host s leaf (
            if own
            then inl false
            else if pending
            then inl true
            else elim key [ none ↦ inr no_private_key | some k ↦ inr key_mismatch ])
    go true pending key e f = e
    go false true key e f = f
    go false false none e f = tt
    go false false (some k) e f = tt

-- Refused, or the operational certificate is usable.
abbrev Checked : Host → CertStore → ℕ → List ℕ → List ℕ → CertStore × Answer → Type 0
Checked host s leaf intermediates issuers (s', none) = IsUsable host s s' leaf intermediates issuers
Checked host s leaf intermediates issuers (s', some why) = Unit {0}

check_operational-Checked :
    (host : Host) (s : CertStore) (issuers : List ℕ) (leaf : ℕ) (intermediates : List ℕ)
    → Checked host s leaf intermediates issuers
        (check_operational host s issuers leaf intermediates)
unfolding check_operational
check_operational-Checked host s issuers leaf intermediates =
    go (owning_key host s leaf) (owning_key-Owns host s leaf)
  where
    verified :
        (pending ca : Bool) (a : Answer)
        → HasKey host s leaf pending
        → host.is_ca leaf ≡ ca
        → verify_roles host leaf intermediates issuers ≡ a
        → Checked host s leaf intermediates issuers (
          record s { commit_promotes_pending_key = pending },
          if ca then some operational_is_ca else a,
        )
    verified pending true a key e f = tt
    verified pending false (some why) key e f = tt
    verified pending false none key e f =
        let (server, client) = verify_roles-none host leaf intermediates issuers f in
        record {
          key = key;
          not_ca = e;
          server = server;
          client = client;
          files = refl;
          staged = refl;
        }

    go :
        (owner : Bool ⊎ Refusal)
        → Owns host s leaf owner
        → Checked host s leaf intermediates issuers (elim owner [
          | inr why ↦ (record s { commit_promotes_pending_key = false }, some why)
          | inl pending ↦ (
            record s { commit_promotes_pending_key = pending },
            if host.is_ca leaf
                then some operational_is_ca
                else verify_roles host leaf intermediates issuers,
          )
        ])
    go (inr why) owns = tt
    go (inl pending) owns =
        verified pending (host.is_ca leaf) (verify_roles host leaf intermediates issuers) owns refl
          refl

-- Refused, or there are issuers and a usable operational certificate.
abbrev Accepted : Host → CertStore → CertStore × Answer → Type 0
Accepted host s (s', some why) = Unit {0}
Accepted host s (s', none) =
    (leaf : ℕ) × (intermediates : List ℕ) × (issuers : List ℕ) × (parse_certificates host
        (effective s s.layout.operational_instance) []
      ≡ parsed (leaf ∷ intermediates))
    × (parse_issuers host s s.layout.issuer_instances [] ≡ inl issuers)
    × (issuers ≢ [])
    × IsUsable host s s' leaf intermediates issuers

validate_operational-Accepted :
    (host : Host) (s : CertStore) (issuers : List ℕ)
    → parse_issuers host s s.layout.issuer_instances [] ≡ inl issuers
    → issuers ≢ []
    → Accepted host s (validate_operational host s issuers)
unfolding validate_operational
validate_operational-Accepted host s issuers known some_issuer =
    go (parse_certificates host (effective s s.layout.operational_instance) []) refl
  where
    usable :
        (leaf : ℕ) (intermediates : List ℕ) (r : CertStore × Answer)
        → parse_certificates host (effective s s.layout.operational_instance) []
          ≡ parsed (leaf ∷ intermediates)
        → Checked host s leaf intermediates issuers r
        → Accepted host s r
    usable leaf intermediates (s', some why) e checked = tt
    usable leaf intermediates (s', none) e checked =
        (leaf, intermediates, issuers, e, known, some_issuer, checked)

    go :
        (p : Parsed (List ℕ))
        → parse_certificates host (effective s s.layout.operational_instance) [] ≡ p
        → Accepted host s (elim p [
          | refused why ↦ (s, some (bad_operational why))
          | parsed [] ↦ (s, some empty_operational)
          | parsed (leaf ∷ intermediates) ↦ check_operational host s issuers leaf intermediates
        ])
    go (refused why) e = tt
    go (parsed []) e = tt
    go (parsed (leaf ∷ intermediates)) e =
        usable leaf intermediates (check_operational host s issuers leaf intermediates) e
          (check_operational-Checked host s issuers leaf intermediates)

validate_staged-Accepted : (host : Host) (s : CertStore) → Accepted host s (validate_staged host s)
unfolding validate_staged
validate_staged-Accepted host s = go (parse_issuers host s s.layout.issuer_instances []) refl
  where
    go :
        (p : List ℕ ⊎ Refusal)
        → parse_issuers host s s.layout.issuer_instances [] ≡ p
        → Accepted host s (elim p [
          | inr why ↦ (s, some why)
          | inl [] ↦ (s, some no_issuer)
          | inl (i ∷ is) ↦ validate_operational host s (i ∷ is)
        ])
    go (inr why) e = tt
    go (inl []) e = tt
    go (inl (i ∷ is)) e = validate_operational-Accepted host s (i ∷ is) e (λ f. ground (arith, f))

-- When `ValidateStaged` accepts, the operational certificate file holds a leaf certificate whose
-- private key is the device's (the pending one exactly when that is to be promoted), that is no CA
-- and that chains to the issuer files' certificates, one at least, as a TLS server and as a client;
-- and neither the files on disk nor the staged copies have changed.
pub validate_staged-accepted :
    (host : Host) (s s' : CertStore)
    → validate_staged host s ≡ (s', none)
    → (leaf : ℕ) × (intermediates : List ℕ) × (issuers : List ℕ) × (parse_certificates host
          (effective s s.layout.operational_instance)
          []
        ≡ parsed (leaf ∷ intermediates))
      × (parse_issuers host s s.layout.issuer_instances [] ≡ inl issuers)
      × (issuers ≢ [])
      × IsUsable host s s' leaf intermediates issuers
validate_staged-accepted host s s' e = subst (Accepted host s) e (validate_staged-Accepted host s)
