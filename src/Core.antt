-- ===== src/Core.antt =====
-- The documents that the services share (crates/oan-core/src/lib.rs).
pub mod Suite
pub mod Kinds
pub mod Document
pub mod Codecs
pub mod Validate
pub mod Profile
pub mod Taxonomy
