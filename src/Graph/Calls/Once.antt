-- ===== src/Graph/Calls/Once.antt =====
-- The table `patches` of core/live_graph/store.py over a history of calls: one row for each
-- trigger event.
use mathlib.Core.List.Memᴰ
use s13code.Prelude.{
  ℕ, String, ◌≡◌, refl, ◌∙◌, ap, Bool, true, false, not, ◌&&◌, ◌||◌, ◌==◌, List, [], ◌∷◌, ◌++◌,
  arith, eq_self, Outcome, ok, any, Memᴰ, eqb,
}
use s13code.Prelude.Members.{Memᴰ-filter, any-append}
use s13code.Json.{Fields}
use s13code.Graph.Types.{GraphPatch, GraphError, Event}
use s13code.Graph.Db.{Db, PatchRow, EventRow, is_patch, insert_event}
use s13code.Graph.Store
use s13code.Graph.Store.{pending_planner_events, is_pending_event, triggers_planner}
use s13code.Graph.Patch
use s13code.Graph.Patch.Stages.{PatchEnd, repeated, refused, committed, apply_patch_cases}
use s13code.Graph.Patch.Frame.{patches-committed}
use s13code.Graph.Calls.{
  Call, start, resume, mark_running, record_outcome, apply_patch, record_external_event, step,
  steps,
}
use s13code.Graph.Calls.Acyclic.{
  mark_running-tables, resume-tables, record_outcome-tables, record_external_event-tables,
}

start-patches :
    (run : String) (x : Fields) (db : Db) → (Store.start run x db).1.patches ≡ db.patches
unfolding Store.start insert_event
start-patches run x db = ground arith

abbrev recorded : String → ℕ → List PatchRow → Bool
recorded run trigger = any (is_patch run trigger)

recorded-same :
    (run : String) (trigger : ℕ) {ps ps' : List PatchRow}
    → ps' ≡ ps
    → recorded run trigger ps ≡ true
    → recorded run trigger ps' ≡ true
recorded-same run trigger e h = rw e h

recorded-append :
    (run : String) (trigger : ℕ) (ps : List PatchRow) (p : PatchRow)
    → recorded run trigger ps ≡ true
    → recorded run trigger (ps ++ p ∷ []) ≡ true
recorded-append run trigger ps p h = rw (any-append (is_patch run trigger) ps (p ∷ []), h)

recorded-step :
    (db : Db) (c : Call) (run : String) (trigger : ℕ)
    → recorded run trigger db.patches ≡ true
    → recorded run trigger (step db c).patches ≡ true
unfolding step
recorded-step db (start r x) run t h = recorded-same run t (start-patches r x db) h
recorded-step db (record_external_event r k n p) run t h =
    recorded-same run t (ap (λ t. t.patches) (record_external_event-tables r k n p db)) h
recorded-step db (resume r) run t h =
    recorded-same run t (ap (λ t. t.patches) (resume-tables r db)) h
recorded-step db (mark_running r ts) run t h =
    recorded-same run t (ap (λ t. t.patches) (mark_running-tables r ts db)) h
recorded-step db (record_outcome r n b p) run t h =
    recorded-same run t (ap (λ t. t.patches) (record_outcome-tables r n b p db)) h
recorded-step db (apply_patch r patch trigger) run t h =
    patched (Patch.apply_patch r patch trigger db) (apply_patch_cases r patch trigger db)
  where
    patched :
        (o : Outcome GraphError Bool × Db)
        → PatchEnd r patch trigger db o
        → recorded run t o.1.patches ≡ true
    patched o (repeated _ e) = rw e h
    patched o (refused _ e) = rw e h
    patched o (committed db' e a) =
        rw (e, patches-committed r patch a.existing trigger db db' a.stages)
          (recorded-append run t db.patches _ h)

recorded-steps :
    (cs : List Call) (db : Db) (run : String) (trigger : ℕ)
    → recorded run trigger db.patches ≡ true
    → recorded run trigger (steps db cs).patches ≡ true
unfolding steps
recorded-steps [] db run trigger h = h
recorded-steps (c ∷ cs) db run trigger h =
    recorded-steps cs (step db c) run trigger (recorded-step db c run trigger h)

eqb_self : (n : ℕ) → eqb n n ≡ true
eqb_self n = ground arith

any-true-right : (b : Bool) → (b || (true || false)) ≡ true
any-true-right true = refl
any-true-right false = refl

commit-recorded :
    (run : String) (patch : GraphPatch) (trigger : ℕ) (db db' : Db)
    → Patch.apply_patch run patch trigger db ≡ (ok true, db')
    → recorded run trigger db'.patches ≡ true
commit-recorded run patch trigger db db' h =
    ended (Patch.apply_patch run patch trigger db) h (apply_patch_cases run patch trigger db)
  where
    ended :
        (o : Outcome GraphError Bool × Db)
        → o ≡ (ok true, db')
        → PatchEnd run patch trigger db o
        → recorded run trigger db'.patches ≡ true
    ended o k (repeated _ e) = absurd (ground arith)
    ended o k (refused _ e) = absurd (ground arith)
    ended o k (committed d e a) =
        let same : d ≡ db' = ground arith in
        rw
          (
            ← same,
            patches-committed run patch a.existing trigger db d a.stages,
            any-append (is_patch run trigger) db.patches,
            eq_self run,
            eqb_self trigger,
          )
          (any-true-right (recorded run trigger db.patches))

repeat_cases :
    (run : String) (patch : GraphPatch) (trigger : ℕ) (db : Db)
    → recorded run trigger db.patches ≡ true
    → Patch.apply_patch run patch trigger db ≡ (ok false, db)
unfolding Patch.apply_patch
repeat_cases run patch trigger db h = rw h

-- Once a patch for an event is committed, then after any calls a patch for the same event of the
-- run returns False and changes nothing, and the event is not among those that the planner still
-- has to answer.
pub apply_patch-once :
    (run : String) (patch patch' : GraphPatch) (trigger : ℕ) (db db' : Db) (cs : List Call)
    → Patch.apply_patch run patch trigger db ≡ (ok true, db')
    → (Patch.apply_patch run patch' trigger (steps db' cs) ≡ (ok false, steps db' cs))
      × ((e : Event)
          → Memᴰ e (pending_planner_events run (steps db' cs))
          → ¬ (e.sequence ≡ trigger))
unfolding pending_planner_events
apply_patch-once run patch patch' trigger db db' cs h =
    let kept = recorded-steps cs db' run trigger (commit-recorded run patch trigger db db' h) in
    (
      repeat_cases run patch' trigger (steps db' cs) kept,
      λ e m same.
          let (row, mr, shown) = Memᴰ.of_map (λ (r : EventRow). r.event) _ m in
          let waiting =
            ((Memᴰ-filter (is_pending_event run (steps db' cs)) row (steps db' cs).events).0
              mr).1 in
          let due = rw (ap (λ (v : Event). v.sequence) shown ∙ same) at waiting in
          absurd (pending_recorded run trigger (steps db' cs) row kept due),
    )
  where
    pending_recorded :
        (run : String) (trigger : ℕ) (d : Db) (row : EventRow)
        → recorded run trigger d.patches ≡ true
        → (row.run_id == run
            && triggers_planner row.event.kind
            && not (recorded run trigger d.patches))
          ≡ true
        → ⊥
    pending_recorded run trigger d row k w = ground arith
