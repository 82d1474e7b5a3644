-- ===== src/Tests.antt =====
-- Runs at concrete inputs.
mod Graph
mod Executor
mod Memory
mod A2a
mod Chunking
mod Planner
mod Runtime
mod Transports
