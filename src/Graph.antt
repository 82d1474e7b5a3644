-- ===== src/Graph.antt =====
-- The live task graph of s13code/core/live_graph/.
pub mod Types
pub mod Db
pub mod Cycle
pub mod Store
pub mod Patch
pub mod Nodes
pub mod Keys
pub mod Snapshot
pub mod Calls
pub mod Executor
