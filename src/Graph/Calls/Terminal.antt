-- ===== src/Graph/Calls/Terminal.antt =====
-- Keys and ended tasks of core/live_graph/store.py over a history of calls.
use s13code.Prelude.{
  String, ◌≡◌, refl, Bool, true, false, some, List, [], ◌∷◌, inl, inr, arith, Outcome, ok, err,
}
use s13code.Graph.Types.{NodeState, TaskSpec, GraphError}
use s13code.Graph.Db.{Db, for_each}
use s13code.Graph.Store
use s13code.Graph.Store.{start_task}
use s13code.Graph.Patch
use s13code.Graph.Patch.{is_open}
use s13code.Graph.Patch.Stages.{PatchEnd, repeated, refused, committed, apply_patch_cases}
use s13code.Graph.Patch.Apart.{for_each-Unique}
use s13code.Graph.Patch.Settle.{Unique-settled}
use s13code.Graph.Keys.{Unique, Unique-set_state, Unique-set_result}
use s13code.Graph.Nodes.{state_in}
use s13code.Graph.Calls.{
  Call, start, resume, mark_running, record_outcome, apply_patch, record_external_event, step,
  steps,
}
use s13code.Graph.Calls.States.{
  start-nodes, record_external_event-nodes, resume-nodes, record_outcome-nodes, start_task-nodes,
}
use s13code.Graph.Calls.Transitions.{may_move, step-may_move}

start_task-Unique :
    (run : String) (t : TaskSpec) (db db' : Db)
    → start_task run t db ≡ ok (tt, db')
    → Unique db.nodes
    → Unique db'.nodes
start_task-Unique run t db db' h u =
    rw (start_task-nodes run t db db' h) (Unique-set_state _ _ db.nodes u)

mark_running-Unique :
    (run : String) (ts : List TaskSpec) (db : Db)
    → Unique db.nodes
    → Unique (Store.mark_running run ts db).1.nodes
unfolding Store.mark_running
mark_running-Unique run ts db u = go (for_each (start_task run) ts db) refl
  where
    go :
        (o : Outcome GraphError (Unit × Db))
        → for_each (start_task run) ts db ≡ o
        → Unique (Store.mark_running run ts db).1.nodes
    go (ok (_, d)) e = rw e (for_each-Unique (start_task run) (start_task-Unique run) ts db d e u)
    go (err x) e = rw e u

pub step-Unique : (db : Db) (c : Call) → Unique db.nodes → Unique (step db c).nodes
unfolding step
step-Unique db (start r x) u = rw (start-nodes r x db) u
step-Unique db (record_external_event r k n p) u = rw (record_external_event-nodes r k n p db) u
step-Unique db (resume r) u = elim (resume-nodes r db) [
  | inl e ↦ rw e u
  | inr e ↦ rw e (Unique-set_state _ _ db.nodes u)
]
step-Unique db (mark_running r ts) u = mark_running-Unique r ts db u
step-Unique db (record_outcome r n b p) u = elim (record_outcome-nodes r n b p db) [
  | inl e ↦ rw e u
  | inr e ↦ rw e (Unique-set_result _ _ p db.nodes u)
]
step-Unique db (apply_patch r patch trigger) u =
    patched (Patch.apply_patch r patch trigger db) (apply_patch_cases r patch trigger db)
  where
    patched : (o : Outcome GraphError Bool × Db) → PatchEnd r patch trigger db o → Unique o.1.nodes
    patched o (repeated _ e) = rw e u
    patched o (refused _ e) = rw e u
    patched o (committed db' e a) =
        rw e (Unique-settled r patch a.existing trigger db db' u a.stages)

pub terminal_stays : (s t : NodeState) → is_open s ≡ false → may_move s t ≡ true → t ≡ s
terminal_stays s t h m = ground arith

-- If no two nodes share a key and a task has succeeded, failed or been cancelled, then after any
-- list of calls, whatever their outcomes, it is still there in the same state.
pub steps-terminal :
    (cs : List Call) (db : Db) (run nid : String) (s : NodeState)
    → Unique db.nodes
    → is_open s ≡ false
    → state_in run nid db.nodes ≡ some s
    → state_in run nid (steps db cs).nodes ≡ some s
unfolding steps
steps-terminal [] db run nid s u o h = h
steps-terminal (c ∷ cs) db run nid s u o h =
    let (t, e, m) = step-may_move db c run nid s u h in
    steps-terminal cs (step db c) run nid s (step-Unique db c u) o
      (rw (terminal_stays s t o m) at e)
