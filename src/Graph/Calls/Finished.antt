-- ===== src/Graph/Calls/Finished.antt =====
-- The tasks of finished runs of core/live_graph/store.py over a history of calls.
use mathlib.Core.Option
use mathlib.Core.Logic.{⊎_elim}
use s13code.Prelude.{
  String, ◌≡◌, refl, sym, ◌∙◌, ap, Bool, true, false, ◌&&◌, ◌==◌, Option, none, some, List, [], ◌∷◌,
  ◌++◌, arith, eq_iff, if◌then◌else◌, Outcome, Bool-cases, ◌⊎◌, inl, inr, elem, eq_self,
}
use s13code.Json.{Fields}
use s13code.Graph.Types.{NodeState, GraphPatch, GraphError}
use s13code.Graph.Db.{Db, RunRow, find_run, insert_event, empty}
use s13code.Graph.Store
use s13code.Graph.Store.{is_finished, finished_of, outcome_state}
use s13code.Graph.Patch
use s13code.Graph.Patch.{is_open, finish_runs, add_ids}
use s13code.Graph.Patch.Stages.{Applied, PatchEnd, repeated, refused, committed, apply_patch_cases}
use s13code.Graph.Patch.Effect.{or_else, entry}
use s13code.Graph.Patch.Settle.{settle, settle_by, settled}
use s13code.Graph.Patch.Frame.{runs-committed}
use s13code.Graph.Keys.{Unique}
use s13code.Graph.Nodes.{state_in}
use s13code.Graph.Calls.{
  Call, start, resume, mark_running, record_outcome, apply_patch, record_external_event, step,
  steps,
}
use s13code.Graph.Calls.Terminal.{step-Unique}
use s13code.Graph.Calls.Acyclic.{
  mark_running-tables, resume-tables, record_outcome-tables, record_external_event-tables,
}
use s13code.Graph.Calls.Closed.{AllClosed, frozen_step}

same_flag :
    (run : String) {rs rs' : List RunRow}
    → rs' ≡ rs
    → finished_of (find_run run rs') ≡ true
    → finished_of (find_run run rs) ≡ true
same_flag run e f = rw e at f

flag_append :
    (run r : String) (x : Fields) (rs : List RunRow)
    → finished_of (find_run run (rs ++ record { id = r; finished = false; context = x } ∷ []))
      ≡ true
    → finished_of (find_run run rs) ≡ true
flag_append run r x [] f = ground arith
flag_append run r x (q ∷ rs) f = ground (arith, flag_append run r x rs)

flag_start :
    (run r : String) (x : Fields) (db : Db)
    → is_finished run (Store.start r x db).1 ≡ true
    → is_finished run db ≡ true
unfolding is_finished Store.start insert_event
flag_start run r x db f = ground (arith, flag_append run r x db.runs)

flag_finish_runs :
    (run r : String) (rs : List RunRow)
    → (run == r) ≡ false
    → finished_of (find_run run (finish_runs r rs)) ≡ true
    → finished_of (find_run run rs) ≡ true
flag_finish_runs run r [] ne f = f
flag_finish_runs run r (q ∷ rs) ne f =
    ground (arith, flag_finish_runs run r rs ne, eq_iff q.id run, eq_iff q.id r, eq_iff run r)

closed_by_patch :
    (r : String) (patch : GraphPatch) (trigger : _) (db db' : Db) (nid : String) (s : NodeState)
    → Unique db.nodes
    → Applied r patch trigger db db'
    → patch.finish ≡ true
    → state_in r nid db'.nodes ≡ some s
    → is_open s ≡ false
closed_by_patch r patch trigger db db' nid s u a fin h =
    let eff = settled r patch a.existing trigger db db' u a.stages r nid in
    go (or_else (state_in r nid db.nodes) (entry (r == r && elem nid (add_ids patch))))
      (sym eff ∙ h)
  where
    closed : (c w q : Bool) (t : NodeState) → is_open (settle_by c w q true t) ≡ false
    closed c w true t = refl
    closed c true false t = refl
    closed true false false t = refl
    closed false false false t = ground arith

    go :
        (o : Option NodeState)
        → Option.map (λ t. if r == r then settle patch nid t else t) o ≡ some s
        → is_open s ≡ false
    go none e = absurd (ground arith)
    go (some t) e =
        let same : settle patch nid t ≡ s = ground (arith, eq_self r) in
        rw (← same, fin)
          (closed (elem nid patch.cancel) (elem nid patch.wait) (elem nid patch.resume) t)

flag_patch :
    (r : String) (patch : GraphPatch) (trigger : _) (db db' : Db) (run : String)
    → Unique db.nodes
    → Applied r patch trigger db db'
    → is_finished run db' ≡ true
    → (is_finished run db ≡ true)
      ⊎ ((nid : String) (s : NodeState) → state_in run nid db'.nodes ≡ some s → is_open s ≡ false)
unfolding is_finished
flag_patch r patch trigger db db' run u a f = elim (Bool-cases patch.finish) [
  | inl fin ↦ elim (Bool-cases (run == r)) [
    | inl same ↦ inr (λ nid s h.
        closed_by_patch r patch trigger db db' nid s u a fin (rw ((eq_iff run r).0 same) at h))
    | inr ne ↦ inl (flag_finish_runs run r db.runs ne (same_flag run (table ∙ rw fin) f))
  ]
  | inr fin ↦ inl (same_flag run (table ∙ rw fin) f)
]
  where
    table : db'.runs ≡ (if patch.finish then finish_runs r db.runs else db.runs)
    table = runs-committed r patch a.existing trigger db db' a.stages

-- After a call a run is finished because it was, or the call closed all its tasks.
flag_step :
    (db : Db) (c : Call) (run : String)
    → Unique db.nodes
    → is_finished run (step db c) ≡ true
    → (is_finished run db ≡ true)
      ⊎ ((nid : String) (s : NodeState)
          → state_in run nid (step db c).nodes ≡ some s
          → is_open s ≡ false)
unfolding step
flag_step db (start r x) run u f = inl (flag_start run r x db f)
flag_step db (record_external_event r k n p) run u f = inl (
    unfold is_finished in
    same_flag run (ap (λ t. t.runs) (record_external_event-tables r k n p db)) f)
flag_step db (resume r) run u f =
    inl (unfold is_finished in same_flag run (ap (λ t. t.runs) (resume-tables r db)) f)
flag_step db (mark_running r ts) run u f =
    inl (unfold is_finished in same_flag run (ap (λ t. t.runs) (mark_running-tables r ts db)) f)
flag_step db (record_outcome r n b p) run u f =
    inl
      (unfold is_finished in same_flag run (ap (λ t. t.runs) (record_outcome-tables r n b p db)) f)
flag_step db (apply_patch r patch trigger) run u f =
    patched (Patch.apply_patch r patch trigger db) (apply_patch_cases r patch trigger db) f
  where
    patched :
        (o : Outcome GraphError Bool × Db)
        → PatchEnd r patch trigger db o
        → is_finished run o.1 ≡ true
        → (is_finished run db ≡ true)
          ⊎ ((nid : String) (s : NodeState)
              → state_in run nid o.1.nodes ≡ some s
              → is_open s ≡ false)
    patched o (repeated _ e) k = inl (rw e at k)
    patched o (refused _ e) k = inl (rw e at k)
    patched o (committed db' e a) k =
        ⊎_elim inl (λ all. inr (λ nid s h. all nid s (rw e at h)))
          (flag_patch r patch trigger db db' run u a (rw e at k))

pub step-AllClosed : (db : Db) (c : Call) → Unique db.nodes → AllClosed db → AllClosed (step db c)
step-AllClosed db c u i run nid s f h = elim (flag_step db c run u f) [
  | inl before ↦ i run nid s before (sym (frozen_step db c run nid u i before) ∙ h)
  | inr all ↦ all nid s h
]

module _ {ℓ} (P : Db → Type ℓ)
    (keep : (db : Db) (c : Call) → Unique db.nodes → P db → P (step db c)) where
  -- What every call keeps, holds over any history.
  pub steps_induction :
      (cs : List Call) (db : Db)
      → Unique db.nodes
      → P db
      → Unique (steps db cs).nodes × P (steps db cs)
  unfolding steps
  steps_induction [] db u h = (u, h)
  steps_induction (c ∷ cs) db u h =
      steps_induction cs (step db c) (step-Unique db c u) (keep db c u h)

-- From the empty database, after any list of calls, no task of a finished run is pending, waiting
-- or running.
pub steps-AllClosed :
    (cs : List Call) (run nid : String) (s : NodeState)
    → is_finished run (steps empty cs) ≡ true
    → state_in run nid (steps empty cs).nodes ≡ some s
    → is_open s ≡ false
steps-AllClosed cs =
    (steps_induction AllClosed step-AllClosed cs empty tt
      (λ run nid s f h. absurd (ground arith))).1
