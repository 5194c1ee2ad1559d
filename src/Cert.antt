-- ===== src/Cert.antt =====
-- sc/cert_store.cpp: the BACnet/SC certificate files and their activation.
pub mod Host
pub mod Pem
pub mod Store
pub mod Validate
pub mod Commit
pub mod Keys
pub mod Bundle
