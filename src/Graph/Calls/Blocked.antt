-- ===== src/Graph/Calls/Blocked.antt =====
-- Tasks of core/live_graph/store.py behind a task that has failed or been cancelled, over a history
-- of calls.
use mathlib.Core.List.Memᴰ
use s13code.Prelude.{
  ℕ, String, ◌≡◌, ◌≢◌, refl, ap, sym, ◌∙◌, Bool, false, some, List, [], ◌∷◌, ◌++◌, Memᴰ, arith,
  eq_iff, Outcome, ok, Bool-cases, inl, inr, any,
}
use s13code.Graph.Types.{NodeState, succeeded, TaskSpec, GraphError}
use s13code.Graph.Db.{Db, EdgeRow, NodeRow, is_node, has_run, is_edge, for_each, insert_edge}
use s13code.Graph.Store.{ready}
use s13code.Graph.Store.Ready.{ready_lem}
use s13code.Graph.Patch
use s13code.Graph.Patch.{is_open}
use s13code.Graph.Patch.Stages.{peel, PatchEnd, repeated, refused, committed, apply_patch_cases}
use s13code.Graph.Patch.Frame.{edges-committed, edges-added}
use s13code.Graph.Keys.{Unique}
use s13code.Graph.Nodes.{state_in}
use s13code.Graph.Calls.{
  Call, start, resume, mark_running, record_outcome, apply_patch, record_external_event, step,
  steps,
}
use s13code.Graph.Calls.Acyclic.{
  start-edges, mark_running-tables, resume-tables, record_outcome-tables,
  record_external_event-tables,
}
use s13code.Graph.Calls.Terminal.{steps-terminal}

insert_edge-grows :
    (e : EdgeRow) (run : String) (pc : String × String) (db db' : Db)
    → insert_edge run pc db ≡ ok (tt, db')
    → Memᴰ e db.edges
    → Memᴰ e db'.edges
unfolding insert_edge
insert_edge-grows e run (a, b) db db' h m = elim (Bool-cases (has_run run db)) [
  | inr r ↦ absurd (ground arith)
  | inl r ↦ elim (Bool-cases (any (is_edge run a b) db.edges)) [
    | inl k ↦ let q : db.edges ≡ db'.edges = ground arith in rw (← q) m
    | inr k ↦
        let q : db.edges ++ record { run_id = run; parent_id = a; child_id = b } ∷ [] ≡ db'.edges =
          ground arith in
        rw (← q) (Memᴰ.append_left (record { run_id = run; parent_id = a; child_id = b } ∷ []) m)
  ]
]

insert_edges-grow :
    (e : EdgeRow) (run : String) (pcs : List (String × String)) (db db' : Db)
    → for_each (insert_edge run) pcs db ≡ ok (tt, db')
    → Memᴰ e db.edges
    → Memᴰ e db'.edges
unfolding for_each
insert_edges-grow e run [] db db' h m = let q : db ≡ db' = ground arith in rw (← q) m
insert_edges-grow e run (pc ∷ pcs) db db' h m =
    peel (insert_edge run pc) _ db h
      λ _ d k r. insert_edges-grow e run pcs d db' r (insert_edge-grows e run pc db d k m)

-- No call deletes an edge.
step-edge : (db : Db) (c : Call) (e : EdgeRow) → Memᴰ e db.edges → Memᴰ e (step db c).edges
unfolding step
step-edge db (start r x) e m = rw (start-edges r x db) m
step-edge db (record_external_event r k n p) e m =
    rw (ap (λ t. t.edges) (record_external_event-tables r k n p db)) m
step-edge db (resume r) e m = rw (ap (λ t. t.edges) (resume-tables r db)) m
step-edge db (mark_running r ts) e m = rw (ap (λ t. t.edges) (mark_running-tables r ts db)) m
step-edge db (record_outcome r n b p) e m =
    rw (ap (λ t. t.edges) (record_outcome-tables r n b p db)) m
step-edge db (apply_patch r patch trigger) e m =
    patched (Patch.apply_patch r patch trigger db) (apply_patch_cases r patch trigger db)
  where
    patched : (o : Outcome GraphError Bool × Db) → PatchEnd r patch trigger db o → Memᴰ e o.1.edges
    patched o (repeated _ q) = rw q m
    patched o (refused _ q) = rw q m
    patched o (committed db' q a) =
        rw (q, edges-committed r patch a.existing trigger db db' a.stages)
          (insert_edges-grow e r patch.connect a.stages.added a.stages.linked a.stages.links
            (rw (edges-added r patch a.existing trigger db db' a.stages) m))

steps-edge : (cs : List Call) (db : Db) (e : EdgeRow) → Memᴰ e db.edges → Memᴰ e (steps db cs).edges
unfolding steps
steps-edge [] db e m = m
steps-edge (c ∷ cs) db e m = steps-edge cs (step db c) e (step-edge db c e m)

-- The row whose state a key shows.
state_in-row :
    (run nid : String) (ns : List NodeRow) (s : NodeState)
    → state_in run nid ns ≡ some s
    → (n : NodeRow) × Memᴰ n ns × (n.run_id ≡ run) × (n.id ≡ nid) × (n.state ≡ s)
state_in-row run nid [] s h = absurd (ground arith)
state_in-row run nid (n ∷ ns) s h = elim (Bool-cases (is_node run nid n)) [
  | inl e ↦
      let k : some n.state ≡ some s = rw e at h in
      (
        n,
        Memᴰ.head refl,
        ground (arith, eq_iff n.run_id run),
        ground (arith, eq_iff n.id nid),
        ground arith,
      )
  | inr e ↦
      let (q, m, r, i, st) = state_in-row run nid ns s (rw e at h) in (q, Memᴰ.tail m, r, i, st)
]

-- If no two nodes share a key, and a task depends on one that has failed or been cancelled, then
-- after any list of calls, whatever their outcomes, `ready` does not give that task, for any
-- limit.
pub steps-blocked :
    (cs : List Call) (db : Db) (run parent child : String) (s : NodeState) (limit : ℕ)
    (t : TaskSpec)
    → Unique db.nodes
    → is_open s ≡ false
    → s ≢ succeeded
    → state_in run parent db.nodes ≡ some s
    → Memᴰ (record { run_id = run; parent_id = parent; child_id = child }) db.edges
    → Memᴰ t (ready run limit (steps db cs))
    → t.id ≢ child
steps-blocked cs db run parent child s limit t u o ne there edge m same =
    let (few, given, all) = ready_lem run limit (steps db cs) in
    let (n, runnable, e) = given t m in
    let later = steps-terminal cs db run parent s u o there in
    let (p, stored, r, i, st) = state_in-row run parent (steps db cs).nodes s later in
    ne (
      sym st
      ∙ runnable.parents (record { run_id = run; parent_id = parent; child_id = child }) p
          (steps-edge cs db _ edge) stored refl (sym (ap (λ (x : TaskSpec). x.id) e ∙ same)) r i)
