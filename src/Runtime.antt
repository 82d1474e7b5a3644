-- ===== src/Runtime.antt =====
-- runtime.py: the deterministic planner of a run, and the evidence that its answer is given.
pub mod Intent
pub mod Pieces
pub mod Plans
pub mod Edges
pub mod Wired
pub mod Answers
pub mod Recalled
pub mod Diverse
pub mod Evidence
pub mod Bounded
pub mod Accepted
