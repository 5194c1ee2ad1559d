-- ===== src/Cert/Host.antt =====
-- What sc/cert_store.cpp calls and does not implement: the clock, the file system's answers and
-- OpenSSL. A path, a certificate and a private key are named by numbers; path 0 is the empty text.
use bacnet_profile_example_b.Base.{ℕ, Bool, List, Option}

pub record Host : Type 0 where
  -- time(NULL)
  pub now : ℕ
  -- Does the system write and flush "<path>.tmp", and does it rename that over `path`?
  pub writes_temp : ℕ → Bool
  pub replaces : ℕ → Bool
  -- PEM_read_bio_X509 and PEM_read_bio_PrivateKey
  pub certificate_of : List ℕ → Option ℕ
  pub key_of : List ℕ → Option ℕ
  -- X509_check_private_key and X509_check_ca
  pub matches_key : ℕ → ℕ → Bool
  pub is_ca : ℕ → Bool
  -- X509_verify_cert of a leaf with its intermediates against a store, for a purpose
  pub verifies : ℕ → List ℕ → List ℕ → ℕ → Bool
  -- A new P-256 key and a request for it with a certificate's subject, both as PEM
  pub new_key_and_request : ℕ → Option (List ℕ × List ℕ)
  -- PEM_write_bio_X509
  pub pem_of : ℕ → Option (List ℕ)
