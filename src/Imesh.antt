-- ===== src/Imesh.antt =====
-- The `imesh` package: the transaction store and what confirmation does to it.
pub mod Types
pub mod Confirm
pub mod Conflict
pub mod Rounds
pub mod Search
pub mod Tables
pub mod Minable
pub mod Store
pub mod Resolve
pub mod Ledger
pub mod Startup
