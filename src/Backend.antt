-- ===== src/Backend.antt =====
-- Where objects are kept: crates/tgdrive-core/src/backend.rs.
pub mod Traits
pub mod Memory
pub use Traits.*
