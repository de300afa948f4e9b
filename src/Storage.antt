-- ===== src/Storage.antt =====
-- Storage for the services (crates/oan-storage/src/lib.rs).
pub mod Limits
pub mod Jobs
pub mod Records
pub mod Files
