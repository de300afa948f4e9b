-- ===== src/Tests.antt =====
-- Concrete runs of the definitions, and the theorems applied to them.
mod Dids
mod Nonces
mod Documents
mod Profiles
mod Domains
mod Bulletins
mod Stores
pub mod Keys
pub mod Crypto
pub mod Requests
pub mod Registrations
pub mod Packages
pub mod Credentials
pub mod Files
pub mod Records
