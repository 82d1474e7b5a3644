-- ===== src/Graph/Calls.antt =====
-- The calls that change the graph database, as data: a history is a list of calls.
pub mod States
pub mod Transitions
pub mod Terminal
pub mod Acyclic
pub mod Blocked
pub mod Closed
pub mod Finished
pub mod Extends
pub mod Journal
pub mod Once
pub mod Frozen
use s13code.Prelude.{ℕ, String, Bool, List, [], ◌∷◌}
use s13code.Json.{Fields}
use s13code.Graph.Types.{TaskSpec, GraphPatch}
use s13code.Graph.Db.{Db}
use s13code.Graph.Store
use s13code.Graph.Patch

pub data Call : Type 0 where
  start : String → Fields → Call
  resume : String → Call
  mark_running : String → List TaskSpec → Call
  record_outcome : String → String → Bool → Fields → Call
  apply_patch : String → GraphPatch → ℕ → Call
  record_external_event : String → String → String → Fields → Call

-- The database after the call, whether it returned or raised.
unfoldable pub step : Db → Call → Db
step db (start run context) = (Store.start run context db).1
step db (resume run) = (Store.resume run db).1
step db (mark_running run tasks) = (Store.mark_running run tasks db).1
step db (record_outcome run nid success payload) =
    (Store.record_outcome run nid success payload db).1
step db (apply_patch run patch trigger) = (Patch.apply_patch run patch trigger db).1
step db (record_external_event run kind nid payload) =
    (Store.record_external_event run kind nid payload db).1

unfoldable pub steps : Db → List Call → Db
steps db [] = db
steps db (c ∷ cs) = steps (step db c) cs
