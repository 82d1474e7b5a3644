-- ===== src/Graph/Calls/Closed.antt =====
-- A finished run of core/live_graph/store.py under one call.
use s13code.Prelude.{
  String, ◌≡◌, sym, ◌∙◌, ap, Bool, true, false, ◌==◌, none, some, eq_iff, Outcome, Bool-cases,
  Option-cases, inl, inr,
}
use s13code.Graph.Types.{NodeState, pending, running, GraphPatch, GraphError}
use s13code.Graph.Db.{Db}
use s13code.Graph.Store.{is_finished, outcome_state}
use s13code.Graph.Patch
use s13code.Graph.Patch.{is_open, finish_runs, add_ids}
use s13code.Graph.Patch.Stages.{Applied, PatchEnd, repeated, refused, committed, apply_patch_cases}
use s13code.Graph.Patch.Checks.{check_patch-Checked}
use s13code.Graph.Patch.Settle.{settled}
use s13code.Graph.Keys.{Unique}
use s13code.Graph.Nodes.{state_in, state_in-in_state, state_in-set_result}
use s13code.Graph.Snapshot.{snapshot-finished}
use s13code.Graph.Calls.{
  Call, start, resume, mark_running, record_outcome, apply_patch, record_external_event, step,
}
use s13code.Graph.Calls.States.{
  start-nodes, record_external_event-nodes, resume-nodes, record_outcome-nodes, mark_running-state,
}
use s13code.Graph.Calls.Transitions.{step-may_move}
use s13code.Graph.Calls.Terminal.{terminal_stays}

-- A finished run has no task that is pending, waiting or running.
abbrev pub AllClosed : Db → Type 0
AllClosed db =
    (run nid : String) (s : NodeState)
    → is_finished run db ≡ true
    → state_in run nid db.nodes ≡ some s
    → is_open s ≡ false

-- The patch would have been refused.
not_committed :
    (run : String) (patch : GraphPatch) (trigger : _) (db db' : Db)
    → Applied run patch trigger db db'
    → is_finished run db ≡ true
    → ⊥
not_committed run patch trigger db db' a f =
    let c = check_patch-Checked a.existing patch a.checked in
    cc (snapshot-finished run db a.existing a.found, c.unfinished, f)

absent_patch :
    (r : String) (patch : GraphPatch) (trigger : _) (db db' : Db) (run nid : String)
    → Unique db.nodes
    → Applied r patch trigger db db'
    → (run == r) ≡ false
    → state_in run nid db.nodes ≡ none
    → state_in run nid db'.nodes ≡ none
absent_patch r patch trigger db db' run nid u a ne h =
    settled r patch a.existing trigger db db' u a.stages run nid ∙ rw (h, ne)

absent_step :
    (db : Db) (c : Call) (run nid : String)
    → Unique db.nodes
    → is_finished run db ≡ true
    → state_in run nid db.nodes ≡ none
    → state_in run nid (step db c).nodes ≡ none
unfolding step
absent_step db (start r x) run nid u f h = rw (start-nodes r x db) h
absent_step db (record_external_event r k n p) run nid u f h =
    rw (record_external_event-nodes r k n p db) h
absent_step db (resume r) run nid u f h = elim (resume-nodes r db) [
  | inl e ↦ rw e h
  | inr e ↦ rw (e, state_in-in_state run nid r running pending db.nodes, h)
]
absent_step db (mark_running r ts) run nid u f h = elim (mark_running-state r ts db run nid) [
  | inl e ↦ e ∙ h
  | inr e ↦ e ∙ rw h
]
absent_step db (record_outcome r n b p) run nid u f h = elim (record_outcome-nodes r n b p db) [
  | inl e ↦ rw e h
  | inr e ↦ rw (e, state_in-set_result run nid r n running (outcome_state b) p db.nodes, h)
]
absent_step db (apply_patch r patch trigger) run nid u f h =
    patched (Patch.apply_patch r patch trigger db) (apply_patch_cases r patch trigger db)
  where
    patched :
        (o : Outcome GraphError Bool × Db)
        → PatchEnd r patch trigger db o
        → state_in run nid o.1.nodes ≡ none
    patched o (repeated _ e) = rw e h
    patched o (refused _ e) = rw e h
    patched o (committed db' e a) = rw e (elim (Bool-cases (run == r)) [
      | inl same ↦ absurd (not_committed r patch trigger db db' a (rw ((eq_iff run r).0 same) at f))
      | inr ne ↦ absent_patch r patch trigger db db' run nid u a ne h
    ])

pub frozen_step :
    (db : Db) (c : Call) (run nid : String)
    → Unique db.nodes
    → AllClosed db
    → is_finished run db ≡ true
    → state_in run nid (step db c).nodes ≡ state_in run nid db.nodes
frozen_step db c run nid u i f = elim (Option-cases (state_in run nid db.nodes)) [
  | inl e ↦ absent_step db c run nid u f e ∙ sym e
  | inr (s, e) ↦
      let (t, k, m) = step-may_move db c run nid s u e in
      k ∙ ap some (terminal_stays s t (i run nid s f e) m) ∙ sym e
]
