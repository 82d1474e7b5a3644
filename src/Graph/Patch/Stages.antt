-- ===== src/Graph/Patch/Stages.antt =====
-- The checks and the statements of `apply_patch` in core/live_graph/store.py, in turn.
use s13code.Prelude.{
  ℕ, String, ◌≡◌, refl, ◌∙◌, Bool, true, false, Option, none, some, arith, Outcome, ok, err,
  if◌then◌else◌, ensure, any, Bool-cases, inl, inr,
}
use s13code.Json.{num, field}
use s13code.Graph.Types.{
  pending, waiting, GraphPatch, Event, GraphSnapshot, GraphError, graph_patched,
}
use s13code.Graph.Db.{
  Db, Tx, ◌>>=◌, pure, lift, for_each, insert_node, insert_edge, insert_event, insert_patch,
  is_patch, end_transaction,
}
use s13code.Graph.Cycle.{has_cycle}
use s13code.Graph.Store.{snapshot, edges_of}
use s13code.Graph.Patch.{
  check_patch, cancel_task, put_state, finish_run, reject_cycle, write_patch, apply_new,
  apply_patch, patch_json,
}

-- A sequence that returns is taken apart: what follows is proved for its first result.
pub peel :
    {A B C : Type 0} (m : Tx A) (f : A → Tx B) (db : Db) {r : B × Db}
    → (m >>= f) db ≡ ok r
    → ((a : A) (db' : Db) → m db ≡ ok (a, db') → f a db' ≡ ok r → C)
    → C
peel {A} {B} {C} m f db {r} h k = go (m db) refl
  where
    go : (o : Outcome GraphError (A × Db)) → m db ≡ o → C
    go (ok (a, db')) e = k a db' e (rw e at h)
    go (err x) e = absurd (ground arith)

abbrev pub finishing : String → GraphPatch → Tx Unit
finishing run patch = if patch.finish then finish_run run else pure tt

pub record Stages (run : String) (patch : GraphPatch) (existing : GraphSnapshot) (trigger : ℕ)
    (db db' : Db) : Type 0 where
  pub added : Db
  pub linked : Db
  pub cancelled_db : Db
  pub waited : Db
  pub resumed : Db
  pub closed : Db
  pub journaled : Db
  pub event : Event
  pub adds : for_each (insert_node run) patch.add db ≡ ok (tt, added)
  pub links : for_each (insert_edge run) patch.connect added ≡ ok (tt, linked)
  pub acyclic : has_cycle (edges_of run linked.edges) ≡ some false
  pub cancels :
      for_each (cancel_task run patch.reason existing.nodes) patch.cancel linked
      ≡ ok (tt, cancelled_db)
  pub waits : for_each (put_state run waiting) patch.wait cancelled_db ≡ ok (tt, waited)
  pub resumes : for_each (put_state run pending) patch.resume waited ≡ ok (tt, resumed)
  pub closes : finishing run patch resumed ≡ ok (tt, closed)
  pub journals :
      insert_event run graph_patched none
        (field "trigger_event" (num trigger) (patch_json patch))
        closed
      ≡ ok (event, journaled)
  pub records : insert_patch run trigger (patch_json patch) journaled ≡ ok (tt, db')

reject_cycle_ok :
    (run : String) (db db' : Db)
    → reject_cycle run db ≡ ok (tt, db')
    → (has_cycle (edges_of run db.edges) ≡ some false) × (db' ≡ db)
unfolding reject_cycle ensure
reject_cycle_ok run db db' h = go (has_cycle (edges_of run db.edges)) refl
  where
    go :
        (o : Option Bool)
        → has_cycle (edges_of run db.edges) ≡ o
        → (has_cycle (edges_of run db.edges) ≡ some false) × (db' ≡ db)
    go none e = absurd (ground arith)
    go (some true) e = absurd (ground arith)
    go (some false) e = (e, ground arith)

pub write_patch-Stages :
    (run : String) (patch : GraphPatch) (existing : GraphSnapshot) (trigger : ℕ) (db db' : Db)
    (b : Bool)
    → write_patch run patch existing trigger db ≡ ok (b, db')
    → (b ≡ true) × Stages run patch existing trigger db db'
unfolding write_patch
write_patch-Stages run patch existing trigger db db' b h =
    peel (for_each (insert_node run) patch.add) _ db h λ _ d1 e1 h1.
      peel (for_each (insert_edge run) patch.connect) _ d1 h1 λ _ d2 e2 h2.
        peel (reject_cycle run) _ d2 h2 λ _ d3 e3 h3.
          peel (for_each (cancel_task run patch.reason existing.nodes) patch.cancel) _ d3 h3
            λ _ d4 e4 h4. peel (for_each (put_state run waiting) patch.wait) _ d4 h4 λ _ d5 e5 h5.
              peel (for_each (put_state run pending) patch.resume) _ d5 h5 λ _ d6 e6 h6.
                peel (finishing run patch) _ d6 h6 λ _ d7 e7 h7.
                  peel
                    (insert_event run graph_patched none
                      (field "trigger_event" (num trigger) (patch_json patch)))
                    _ d7 h7
                    λ ev d8 e8 h8.
                      peel (insert_patch run trigger (patch_json patch)) _ d8 h8 λ _ d9 e9 h9.
                        let (kept, same) = reject_cycle_ok run d2 d3 e3 in
                        let end : d9 ≡ db' = ground arith in
                        (
                          ground arith,
                          record {
                            added = d1;
                            linked = d2;
                            cancelled_db = d4;
                            waited = d5;
                            resumed = d6;
                            closed = d7;
                            journaled = d8;
                            event = ev;
                            adds = e1;
                            links = e2;
                            acyclic = kept;
                            cancels = rw same at e4;
                            waits = e5;
                            resumes = e6;
                            closes = e7;
                            journals = e8;
                            records = rw (← end) e9;
                          },
                        )

-- What holds of a call that commits a patch.
pub record Applied (run : String) (patch : GraphPatch) (trigger : ℕ) (db db' : Db) : Type 0 where
  pub existing : GraphSnapshot
  pub fresh : any (is_patch run trigger) db.patches ≡ false
  pub found : snapshot run db ≡ ok existing
  pub checked : check_patch existing patch ≡ ok tt
  pub stages : Stages run patch existing trigger db db'

lift_ok :
    {A : Type 0} (o : Outcome GraphError A) (db db' : Db) (a : A)
    → lift o db ≡ ok (a, db')
    → (o ≡ ok a) × (db' ≡ db)
lift_ok (ok x) db db' a h = ground arith
lift_ok (err e) db db' a h = absurd (ground arith)

apply_new-Applied :
    (run : String) (patch : GraphPatch) (trigger : ℕ) (db db' : Db) (b : Bool)
    → any (is_patch run trigger) db.patches ≡ false
    → apply_new run patch trigger db ≡ ok (b, db')
    → (b ≡ true) × Applied run patch trigger db db'
unfolding apply_new
apply_new-Applied run patch trigger db db' b fresh h =
    peel (λ d. lift (snapshot run d) d) _ db h
      λ existing d1 e1 h1. peel (lift (check_patch existing patch)) _ d1 h1 λ _ d2 e2 h2.
        let (found, s1) = lift_ok (snapshot run db) db d1 existing e1 in
        let (checked, s2) = lift_ok (check_patch existing patch) d1 d2 tt e2 in
        let (done, stages) =
          write_patch-Stages run patch existing trigger db db' b (rw (s2 ∙ s1) at h2) in
        (
          done,
          record {
            existing = existing;
            fresh = fresh;
            found = found;
            checked = checked;
            stages = stages;
          },
        )

-- The three ways in which `apply_patch` ends: the trigger was used, an error, or a commit.
pub data PatchEnd (run : String) (patch : GraphPatch) (trigger : ℕ) (db : Db)
    (r : Outcome GraphError Bool × Db) : Type 0 where
  repeated :
      any (is_patch run trigger) db.patches ≡ true
      → r ≡ (ok false, db)
      → PatchEnd run patch trigger db r
  refused : (e : GraphError) → r ≡ (err e, db) → PatchEnd run patch trigger db r
  committed :
      (db' : Db)
      → r ≡ (ok true, db')
      → Applied run patch trigger db db'
      → PatchEnd run patch trigger db r

abbrev unless_applied : String → GraphPatch → ℕ → Bool → Tx Bool
unless_applied run patch trigger applied =
    if applied then pure false else apply_new run patch trigger

apply_patch-settle :
    (run : String) (patch : GraphPatch) (trigger : ℕ) (db : Db)
    → apply_patch run patch trigger db
      ≡ end_transaction
          (unless_applied run patch trigger (any (is_patch run trigger) db.patches) db)
          db
unfolding apply_patch
apply_patch-settle run patch trigger db = refl

pub apply_patch_cases :
    (run : String) (patch : GraphPatch) (trigger : ℕ) (db : Db)
    → PatchEnd run patch trigger db (apply_patch run patch trigger db)
apply_patch_cases run patch trigger db = elim (Bool-cases (any (is_patch run trigger) db.patches)) [
  | inl e ↦ repeated e (whole ∙ rw e)
  | inr e ↦ ended e (apply_new run patch trigger db) refl
]
  where
    whole :
        apply_patch run patch trigger db
        ≡ end_transaction
            (unless_applied run patch trigger (any (is_patch run trigger) db.patches) db)
            db
    whole = apply_patch-settle run patch trigger db

    ended :
        any (is_patch run trigger) db.patches ≡ false
        → (o : Outcome GraphError (Bool × Db)) → apply_new run patch trigger db ≡ o
        → PatchEnd run patch trigger db (apply_patch run patch trigger db)
    ended fresh (err x) h = refused x (whole ∙ rw (fresh, h))
    ended fresh (ok (b, db')) h =
        let (t, a) = apply_new-Applied run patch trigger db db' b fresh h in
        committed db' (whole ∙ rw (fresh, h, t)) a
