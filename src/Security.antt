-- ===== src/Security.antt =====
-- Signed service-to-service requests (crates/oan-service-security/src/lib.rs).
pub mod Error
pub mod Time
pub mod Nonce
pub mod Methods
pub mod Envelope
pub mod Control
pub mod Claims
