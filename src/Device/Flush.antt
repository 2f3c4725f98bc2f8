-- ===== src/Device/Flush.antt =====
-- The proofs about `flush`.
pub mod Moves
pub mod Upload
pub mod Uploads
pub mod Commit
pub mod Durable
pub mod Complete
