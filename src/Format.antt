-- ===== src/Format.antt =====
-- crates/tgdrive-core/src/format.rs
pub mod Digest
pub mod Envelope
pub mod Manifest
pub mod Tree
pub mod Superblock
