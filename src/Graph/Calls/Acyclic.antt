-- ===== src/Graph/Calls/Acyclic.antt =====
-- The edges of core/live_graph/store.py over a history of calls.
use s13code.Prelude.{
  String, ◌≡◌, refl, ap, Bool, false, ◌==◌, List, [], ◌∷◌, ◌++◌, arith, eq_iff, Outcome, ok, err,
  Bool-cases, inl, inr,
}
use mathlib.Core.List.Memᴰ
use s13code.Json.{Fields}
use s13code.Graph.Types.{TaskSpec, GraphError}
use s13code.Graph.Db.{Db, EdgeRow, for_each, insert_edge, insert_event, empty}
use s13code.Graph.Cycle.Correct.{Acyclic, Precedes, direct, through, has_cycle-Acyclic}
use s13code.Graph.Store
use s13code.Graph.Store.{edges_of, start_task}
use s13code.Graph.Patch
use s13code.Graph.Patch.Stages.{PatchEnd, repeated, refused, committed, apply_patch_cases}
use s13code.Graph.Patch.Frame.{for_each-kept, edges-committed, edges-added, tables}
use s13code.Graph.Calls.{
  Call, start, resume, mark_running, record_outcome, apply_patch, record_external_event, step,
  steps,
}

start_task-tables :
    (run : String) (t : TaskSpec) (db db' : Db)
    → start_task run t db ≡ ok (tt, db')
    → tables db' ≡ tables db
unfolding insert_event
start_task-tables run t db db' h = ground arith

pub mark_running-tables :
    (run : String) (ts : List TaskSpec) (db : Db)
    → tables (Store.mark_running run ts db).1 ≡ tables db
unfolding Store.mark_running
mark_running-tables run ts db = go (for_each (start_task run) ts db) refl
  where
    go :
        (o : Outcome GraphError (Unit × Db))
        → for_each (start_task run) ts db ≡ o
        → tables (Store.mark_running run ts db).1 ≡ tables db
    go (ok (_, d)) e =
        rw e (for_each-kept tables (start_task run) (start_task-tables run) ts db d e)
    go (err x) e = rw e

pub resume-tables : (run : String) (db : Db) → tables (Store.resume run db).1 ≡ tables db
unfolding Store.resume insert_event
resume-tables run db = ground arith

pub record_outcome-tables :
    (run nid : String) (b : Bool) (p : Fields) (db : Db)
    → tables (Store.record_outcome run nid b p db).1 ≡ tables db
unfolding Store.record_outcome insert_event
record_outcome-tables run nid b p db = ground arith

pub record_external_event-tables :
    (run k n : String) (p : Fields) (db : Db)
    → tables (Store.record_external_event run k n p db).1 ≡ tables db
unfolding Store.record_external_event insert_event
record_external_event-tables run k n p db = ground arith

pub start-edges : (run : String) (x : Fields) (db : Db) → (Store.start run x db).1.edges ≡ db.edges
unfolding Store.start insert_event
start-edges run x db = ground arith

edges_of-append :
    (run : String) (es : List EdgeRow) (e : EdgeRow)
    → (e.run_id == run) ≡ false
    → edges_of run (es ++ e ∷ []) ≡ edges_of run es
edges_of-append run [] e h = rw h
edges_of-append run (x ∷ es) e h = rw (edges_of-append run es e h)

insert_edge-other :
    (run' run : String) (pc : String × String) (db db' : Db)
    → (run == run') ≡ false
    → insert_edge run pc db ≡ ok (tt, db')
    → edges_of run' db'.edges ≡ edges_of run' db.edges
unfolding insert_edge
insert_edge-other run' run (a, b) db db' ne h =
    ground
      (arith, edges_of-append run' db.edges (record { run_id = run; parent_id = a; child_id = b }))

-- In every run of the database no task precedes itself.
abbrev pub AllAcyclic : Db → Type 0
AllAcyclic db = (run : String) → Acyclic (edges_of run db.edges)

step-AllAcyclic : (db : Db) (c : Call) → AllAcyclic db → AllAcyclic (step db c)
unfolding step
step-AllAcyclic db (start r x) h run = rw (start-edges r x db) (h run)
step-AllAcyclic db (record_external_event r k n p) h run =
    rw (ap (λ t. t.edges) (record_external_event-tables r k n p db)) (h run)
step-AllAcyclic db (resume r) h run = rw (ap (λ t. t.edges) (resume-tables r db)) (h run)
step-AllAcyclic db (mark_running r ts) h run =
    rw (ap (λ t. t.edges) (mark_running-tables r ts db)) (h run)
step-AllAcyclic db (record_outcome r n b p) h run =
    rw (ap (λ t. t.edges) (record_outcome-tables r n b p db)) (h run)
step-AllAcyclic db (apply_patch r patch trigger) h run =
    patched (Patch.apply_patch r patch trigger db) (apply_patch_cases r patch trigger db)
  where
    patched :
        (o : Outcome GraphError Bool × Db)
        → PatchEnd r patch trigger db o
        → Acyclic (edges_of run o.1.edges)
    patched o (repeated _ e) = rw e (h run)
    patched o (refused _ e) = rw e (h run)
    patched o (committed db' e a) =
        rw (e, edges-committed r patch a.existing trigger db db' a.stages)
          (elim (Bool-cases (r == run)) as (λ _. Acyclic (edges_of run a.stages.linked.edges)) [
            | inl same ↦
                rw (← ((eq_iff r run).0 same))
                  (has_cycle-Acyclic (edges_of r a.stages.linked.edges) a.stages.acyclic)
            | inr ne ↦
                rw
                  (
                    for_each-kept (λ d. edges_of run d.edges) (insert_edge r)
                        (λ pc d d' k. insert_edge-other run r pc d d' ne k) patch.connect
                        a.stages.added a.stages.linked a.stages.links,
                    edges-added r patch a.existing trigger db db' a.stages,
                  )
                  (h run)
          ])

steps-AllAcyclic : (cs : List Call) (db : Db) → AllAcyclic db → AllAcyclic (steps db cs)
unfolding steps
steps-AllAcyclic [] db h = h
steps-AllAcyclic (c ∷ cs) db h = steps-AllAcyclic cs (step db c) (step-AllAcyclic db c h)

no_edges : (u v : String) → ¬ Precedes [] u v
no_edges u v (direct m) = Memᴰ.not-nil m
no_edges u v (through p m) = Memᴰ.not-nil m

-- From the empty database, after any list of calls, whatever their outcomes, no task of any run
-- precedes itself along the dependency edges.
pub steps-Acyclic : (cs : List Call) (run : String) → Acyclic (edges_of run (steps empty cs).edges)
steps-Acyclic cs = steps-AllAcyclic cs empty (λ run u. no_edges u u)
