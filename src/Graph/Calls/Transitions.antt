-- ===== src/Graph/Calls/Transitions.antt =====
-- The life cycle of a node of core/live_graph/store.py, as a relation between the states before
-- and after a call.
use s13code.Prelude.{
  ℕ, String, ◌≡◌, refl, ◌∙◌, ap, Bool, true, false, not, ◌&&◌, ◌||◌, ◌==◌, some, List, inl, inr,
  arith, eq_iff, if◌then◌else◌, Outcome, Bool-cases, elem,
}
use s13code.Graph.Types.{
  NodeState, pending, running, succeeded, failed, cancelled, waiting, ◌=ₛ◌, GraphError, GraphPatch,
}
use s13code.Graph.Db.{Db, NodeRow}
use s13code.Graph.Store.{outcome_state}
use s13code.Graph.Patch.{is_open, add_ids}
use s13code.Graph.Patch
use s13code.Graph.Patch.Stages.{Applied, PatchEnd, repeated, refused, committed, apply_patch_cases}
use s13code.Graph.Patch.Checks.{check_patch-Checked}
use s13code.Graph.Patch.Settle.{settle, settle_by, settled}
use s13code.Graph.Keys.{Unique}
use s13code.Graph.Snapshot.{snapshot-state}
use s13code.Graph.Nodes.{state_in, swap_state, state_in-in_state, state_in-set_result}
use s13code.Graph.Calls.{
  Call, start, resume, mark_running, record_outcome, apply_patch, record_external_event, step,
}
use s13code.Graph.Calls.States.{
  start-nodes, record_external_event-nodes, resume-nodes, record_outcome-nodes, mark_running-state,
  task_ids,
}

-- The life cycle: the states in which one call may leave a node.
abbrev pub may_move : NodeState → NodeState → Bool
may_move pending t = t =ₛ pending || t =ₛ running || t =ₛ waiting || t =ₛ cancelled
may_move running t = not (t =ₛ waiting)
may_move waiting t = t =ₛ waiting || t =ₛ pending || t =ₛ cancelled
may_move succeeded t = t =ₛ succeeded
may_move failed t = t =ₛ failed
may_move cancelled t = t =ₛ cancelled

may_move_refl : (s : NodeState) → may_move s s ≡ true
may_move_refl pending = refl
may_move_refl running = refl
may_move_refl succeeded = refl
may_move_refl failed = refl
may_move_refl cancelled = refl
may_move_refl waiting = refl

settle_by-may_move :
    (c w u f : Bool) (s : NodeState)
    → (c ≡ true → is_open s ≡ true)
    → (w ≡ true → (s =ₛ pending) ≡ true)
    → (u ≡ true → (s =ₛ waiting) ≡ true)
    → may_move s (settle_by c w u f s) ≡ true
settle_by-may_move c w u f pending hc hw hu = ground arith
settle_by-may_move c w u f running hc hw hu = ground arith
settle_by-may_move c w u f succeeded hc hw hu = ground arith
settle_by-may_move c w u f failed hc hw hu = ground arith
settle_by-may_move c w u f cancelled hc hw hu = ground arith
settle_by-may_move c w u f waiting hc hw hu = ground arith

=ₛ-eq : (s t : NodeState) → (s =ₛ t) ≡ true → s ≡ t
=ₛ-eq s t h = ground arith

swap-may_move :
    (b : Bool) (from to s : NodeState)
    → may_move from to ≡ true
    → may_move s (if b then swap_state from to s else s) ≡ true
swap-may_move false from to s h = may_move_refl s
swap-may_move true from to s h = elim (Bool-cases (s =ₛ from)) [
  | inl e ↦ rw (e, =ₛ-eq s from e) h
  | inr e ↦ rw e (may_move_refl s)
]

-- After the call the node is there, in a state that the life cycle allows.
abbrev Moved : String → String → NodeState → List NodeRow → Type 0
Moved run nid s ns = (t : NodeState) × (state_in run nid ns ≡ some t) × (may_move s t ≡ true)

unmoved :
    (run nid : String) (s : NodeState) {ns ns' : List NodeRow}
    → ns' ≡ ns
    → state_in run nid ns ≡ some s
    → Moved run nid s ns'
unmoved run nid s e h = (s, rw e h, may_move_refl s)

Applied-Moved :
    (run : String) (patch : GraphPatch) (trigger : ℕ) (db db' : Db)
    → Unique db.nodes
    → Applied run patch trigger db db'
    → (run' nid : String) (s : NodeState) → state_in run' nid db.nodes ≡ some s
    → Moved run' nid s db'.nodes
Applied-Moved run patch trigger db db' u a run' nid s h =
    let c = check_patch-Checked a.existing patch a.checked in
    let eff = settled run patch a.existing trigger db db' u a.stages run' nid in
    elim (Bool-cases (run' == run)) [
      | inl e ↦
          let shown =
            snapshot-state run db a.existing a.found nid ∙ (rw ((eq_iff run' run).0 e) at h) in
          (
            settle patch nid s,
            eff ∙ rw (h, e),
            settle_by-may_move _ _ _ patch.finish s (λ m. c.cancels nid s m shown)
                (λ m. c.waits nid s m shown) (λ m. c.resumes nid s m shown),
          )
      | inr e ↦ (s, eff ∙ rw (h, e), may_move_refl s)
    ]

-- If no two nodes share a key and a node of a run is in a state, then after any call, whatever
-- its outcome, the node is there in a state that `may_move` allows: a pending node can start,
-- wait or be cancelled, a running one can end, be cancelled or return to pending, a waiting one
-- can become pending or be cancelled, and a succeeded, failed or cancelled one stays.
pub step-may_move :
    (db : Db) (c : Call) (run nid : String) (s : NodeState)
    → Unique db.nodes
    → state_in run nid db.nodes ≡ some s
    → (t : NodeState) × (state_in run nid (step db c).nodes ≡ some t) × (may_move s t ≡ true)
unfolding step
step-may_move db (start r x) run nid s u h = unmoved run nid s (start-nodes r x db) h
step-may_move db (record_external_event r k n p) run nid s u h =
    unmoved run nid s (record_external_event-nodes r k n p db) h
step-may_move db (resume r) run nid s u h = elim (resume-nodes r db) [
  | inl e ↦ unmoved run nid s e h
  | inr e ↦ (
    if run == r then swap_state running pending s else s,
    rw (e, state_in-in_state run nid r running pending db.nodes, h),
    swap-may_move (run == r) running pending s refl,
  )
]
step-may_move db (mark_running r ts) run nid s u h = elim (mark_running-state r ts db run nid) [
  | inl e ↦ (s, e ∙ h, may_move_refl s)
  | inr e ↦ (
    if run == r && elem nid (task_ids ts) then swap_state pending running s else s,
    e ∙ rw h,
    swap-may_move (run == r && elem nid (task_ids ts)) pending running s refl,
  )
]
step-may_move db (record_outcome r n b p) run nid s u h = elim (record_outcome-nodes r n b p db) [
  | inl e ↦ unmoved run nid s e h
  | inr e ↦ (
    if run == r && nid == n then swap_state running (outcome_state b) s else s,
    rw (e, state_in-set_result run nid r n running (outcome_state b) p db.nodes, h),
    swap-may_move (run == r && nid == n) running (outcome_state b) s (ground arith),
  )
]
step-may_move db (apply_patch r patch trigger) run nid s u h =
    patched (Patch.apply_patch r patch trigger db) (apply_patch_cases r patch trigger db)
  where
    patched :
        (o : Outcome GraphError Bool × Db)
        → PatchEnd r patch trigger db o
        → Moved run nid s o.1.nodes
    patched o (repeated _ e) = unmoved run nid s (ap (λ q. q.1.nodes) e) h
    patched o (refused _ e) = unmoved run nid s (ap (λ q. q.1.nodes) e) h
    patched o (committed db' e a) =
        let (t, k, m) = Applied-Moved r patch trigger db db' u a run nid s h in
        (t, ap (λ q. state_in run nid q.1.nodes) e ∙ k, m)
