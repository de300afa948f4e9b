-- ===== src/Crypto.antt =====
-- Keys, signatures and canonical JSON (crates/oan-crypto/src/lib.rs).
pub mod Primitives
pub mod Canonical
pub mod Keys
pub mod Signatures
pub mod DocumentProof
