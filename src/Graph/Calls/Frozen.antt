-- ===== src/Graph/Calls/Frozen.antt =====
-- A finished run of core/live_graph/store.py over a history of calls.
use s13code.Prelude.{
  String, ◌≡◌, refl, ◌∙◌, ap, Bool, true, false, List, [], ◌∷◌, ◌++◌, arith, if◌then◌else◌, Outcome,
}
use s13code.Json.{Fields}
use s13code.Graph.Types.{GraphError}
use s13code.Graph.Db.{Db, RunRow, find_run, insert_event, empty}
use s13code.Graph.Store
use s13code.Graph.Store.{is_finished, finished_of}
use s13code.Graph.Patch
use s13code.Graph.Patch.{finish_runs}
use s13code.Graph.Patch.Stages.{PatchEnd, repeated, refused, committed, apply_patch_cases}
use s13code.Graph.Patch.Frame.{runs-committed}
use s13code.Graph.Keys.{Unique}
use s13code.Graph.Nodes.{state_in}
use s13code.Graph.Calls.{
  Call, start, resume, mark_running, record_outcome, apply_patch, record_external_event, step,
  steps,
}
use s13code.Graph.Calls.Terminal.{step-Unique}
use s13code.Graph.Calls.Closed.{AllClosed, frozen_step}
use s13code.Graph.Calls.Finished.{step-AllClosed, steps_induction}
use s13code.Graph.Calls.Acyclic.{
  mark_running-tables, resume-tables, record_outcome-tables, record_external_event-tables,
}

kept_flag :
    (run : String) {rs rs' : List RunRow}
    → rs' ≡ rs
    → finished_of (find_run run rs) ≡ true
    → finished_of (find_run run rs') ≡ true
kept_flag run e f = rw e f

kept_append :
    (run r : String) (x : Fields) (rs : List RunRow)
    → finished_of (find_run run rs) ≡ true
    → finished_of (find_run run (rs ++ record { id = r; finished = false; context = x } ∷ []))
      ≡ true
kept_append run r x [] f = absurd (ground arith)
kept_append run r x (q ∷ rs) f = ground (arith, kept_append run r x rs)

kept_start :
    (run r : String) (x : Fields) (db : Db)
    → is_finished run db ≡ true
    → is_finished run (Store.start r x db).1 ≡ true
unfolding is_finished Store.start insert_event
kept_start run r x db f = ground (arith, kept_append run r x db.runs)

kept_finish :
    (run r : String) (rs : List RunRow)
    → finished_of (find_run run rs) ≡ true
    → finished_of (find_run run (finish_runs r rs)) ≡ true
kept_finish run r [] f = f
kept_finish run r (q ∷ rs) f = ground (arith, kept_finish run r rs)

kept_finishing :
    (run r : String) (rs : List RunRow) (finish : Bool)
    → finished_of (find_run run rs) ≡ true
    → finished_of (find_run run (if finish then finish_runs r rs else rs)) ≡ true
kept_finishing run r rs true f = kept_finish run r rs f
kept_finishing run r rs false f = f

finished_step :
    (db : Db) (c : Call) (run : String)
    → is_finished run db ≡ true
    → is_finished run (step db c) ≡ true
unfolding step is_finished
finished_step db (start r x) run f = kept_start run r x db f
finished_step db (record_external_event r k n p) run f =
    kept_flag run (ap (λ t. t.runs) (record_external_event-tables r k n p db)) f
finished_step db (resume r) run f = kept_flag run (ap (λ t. t.runs) (resume-tables r db)) f
finished_step db (mark_running r ts) run f =
    kept_flag run (ap (λ t. t.runs) (mark_running-tables r ts db)) f
finished_step db (record_outcome r n b p) run f =
    kept_flag run (ap (λ t. t.runs) (record_outcome-tables r n b p db)) f
finished_step db (apply_patch r patch trigger) run f =
    patched (Patch.apply_patch r patch trigger db) (apply_patch_cases r patch trigger db)
  where
    patched :
        (o : Outcome GraphError Bool × Db)
        → PatchEnd r patch trigger db o
        → finished_of (find_run run o.1.runs) ≡ true
    patched o (repeated _ e) = rw e f
    patched o (refused _ e) = rw e f
    patched o (committed db' e a) =
        rw (e, runs-committed r patch a.existing trigger db db' a.stages)
          (kept_finishing run r db.runs patch.finish f)

frozen_steps :
    (cs : List Call) (db : Db) (run : String)
    → Unique db.nodes
    → AllClosed db
    → is_finished run db ≡ true
    → (is_finished run (steps db cs) ≡ true)
      × ((nid : String) → state_in run nid (steps db cs).nodes ≡ state_in run nid db.nodes)
unfolding steps
frozen_steps [] db run u i f = (f, λ nid. refl)
frozen_steps (c ∷ cs) db run u i f =
    let (done, same) =
      frozen_steps cs (step db c) run (step-Unique db c u) (step-AllClosed db c u i)
        (finished_step db c run f) in
    (done, λ nid. same nid ∙ frozen_step db c run nid u i f)

-- If a run is finished after some calls from the empty database, then after any further calls it
-- is finished, and each identifier shows the same state in it as before, or still none.
pub steps-frozen :
    (cs ds : List Call) (run : String)
    → is_finished run (steps empty cs) ≡ true
    → (is_finished run (steps (steps empty cs) ds) ≡ true)
      × ((nid : String)
          → state_in run nid (steps (steps empty cs) ds).nodes
            ≡ state_in run nid (steps empty cs).nodes)
steps-frozen cs ds run f =
    let (u, i) =
      steps_induction AllClosed step-AllClosed cs empty tt
        (λ run nid s f h. absurd (ground arith)) in
    frozen_steps ds (steps empty cs) run u i f
