-- ===== src/Planner.antt =====
-- planner.py: what a model's reply may put into a graph patch.
pub mod Parse
pub mod Plan
pub mod Tasks
pub mod Safe
