-- ===== src/Memory.antt =====
-- The scoped memory of s13code/core/memory/.
pub mod Types
pub mod Store
pub mod Recall
pub mod Ingest
pub mod Calls
