-- ===== src/Graph/Calls/Journal.antt =====
-- The table `events` of core/live_graph/store.py over a history of calls.
use s13code.Prelude.{
  ℕ, suc, String, ◌≡◌, refl, Bool, true, false, Option, none, some, List, [], ◌∷◌, ◌++◌, arith,
  if◌then◌else◌, Outcome, ok, err, Bool-cases, ◌⊎◌, inl, inr, eqb,
}
use s13code.Json.{Fields, end}
use s13code.Graph.Types.{
  NodeState, pending, waiting, running, TaskSpec, GraphPatch, GraphSnapshot, GraphError, NodeView,
  graph_patched, task_cancelled, task_started, run_started, run_resumed, ◌=ₛ◌,
}
use s13code.Graph.Db.{
  Db, EventRow, for_each, insert_event, insert_node, insert_edge, insert_patch, has_run, empty,
  pure, is_some, find_run,
}
use s13code.Graph.Store
use s13code.Graph.Store.{outcome_kind, start_task, started_payload, rowcount, node_in_state}
use s13code.Graph.Patch
use s13code.Graph.Patch.{
  cancel_task, put_state, cancel_leftover, finish_run, leftovers, cancel_payload, was_running,
}
use s13code.Graph.Patch.Stages.{
  peel, Stages, PatchEnd, repeated, refused, committed, apply_patch_cases,
}
use s13code.Graph.Calls.{
  Call, start, resume, mark_running, record_outcome, apply_patch, record_external_event, step,
  steps,
}
use s13code.Graph.Calls.Extends.{
  Rising, Extends, same_journal, Extends-trans, for_each-Extends, one_row, insert_event-Extends,
}

silent :
    (db db' : Db)
    → (db'.events ≡ db.events) × (db'.last_sequence ≡ db.last_sequence)
    → Extends db db'
silent db db' (e, l) = same_journal db db' e l

insert_node-Extends :
    (run : String) (t : TaskSpec) (db db' : Db)
    → insert_node run t db ≡ ok (tt, db')
    → Extends db db'
unfolding insert_node
insert_node-Extends run t db db' h = silent db db' (ground arith, ground arith)

insert_edge-Extends :
    (run : String) (pc : String × String) (db db' : Db)
    → insert_edge run pc db ≡ ok (tt, db')
    → Extends db db'
unfolding insert_edge
insert_edge-Extends run (a, b) db db' h = silent db db' (ground arith, ground arith)

insert_patch-Extends :
    (run : String) (n : ℕ) (p : Fields) (db db' : Db)
    → insert_patch run n p db ≡ ok (tt, db')
    → Extends db db'
unfolding insert_patch
insert_patch-Extends run n p db db' h = silent db db' (ground arith, ground arith)

put_state-Extends :
    (run : String) (s : NodeState) (nid : String) (db db' : Db)
    → put_state run s nid db ≡ ok (tt, db')
    → Extends db db'
unfolding put_state
put_state-Extends run s nid db db' h = silent db db' (ground arith, ground arith)

-- One event at most, whatever else the statements do.
abbrev Logs : Db → Db → Type 0
Logs db db' =
    ((db'.events ≡ db.events) × (db'.last_sequence ≡ db.last_sequence))
    ⊎ ((row : EventRow) × (db'.events ≡ db.events ++ row ∷ [])
        × (row.event.sequence ≡ suc db.last_sequence)
        × (db'.last_sequence ≡ suc db.last_sequence))

Logs-Extends : {db db' : Db} → Logs db db' → Extends db db'
Logs-Extends {db} {db'} (inl q) = silent db db' q
Logs-Extends {db} {db'} (inr (row, e, s, l)) = one_row db db' row e s l

abbrev row_of : String → String → Option String → Fields → Db → EventRow
row_of run kind about p db = record {
  run_id = run;
  event = record { sequence = suc db.last_sequence; kind = kind; node_id = about; payload = p };
}

cancel_task-Extends :
    (run reason : String) (vs : List NodeView) (nid : String) (db db' : Db)
    → cancel_task run reason vs nid db ≡ ok (tt, db')
    → Extends db db'
unfolding cancel_task insert_event
cancel_task-Extends run reason vs nid db db' h =
    one_row db db'
      (row_of run task_cancelled (some nid) (cancel_payload reason (was_running vs nid)) db)
      (ground arith) (ground arith) (ground arith)

cancel_leftover-Extends :
    (run : String) (x : String × NodeState) (db db' : Db)
    → cancel_leftover run x db ≡ ok (tt, db')
    → Extends db db'
unfolding cancel_leftover insert_event
cancel_leftover-Extends run (nid, s) db db' h =
    one_row db db'
      (row_of run task_cancelled (some nid) (cancel_payload "graph finished" (s =ₛ running)) db)
      (ground arith) (ground arith) (ground arith)

start_task-Extends :
    (run : String) (t : TaskSpec) (db db' : Db)
    → start_task run t db ≡ ok (tt, db')
    → Extends db db'
unfolding insert_event
start_task-Extends run t db db' h =
    one_row db db' (row_of run task_started (some t.id) (started_payload t) db) (ground arith)
      (ground arith) (ground arith)

finish_run-Extends :
    (run : String) (f : Bool) (db db' : Db)
    → (if f then finish_run run else pure tt) db ≡ ok (tt, db')
    → Extends db db'
unfolding finish_run
finish_run-Extends run false db db' h = silent db db' (ground arith, ground arith)
finish_run-Extends run true db db' h =
    peel (for_each (cancel_leftover run) (leftovers run db.nodes)) _ db h λ _ d e k.
      Extends-trans db d db'
        (for_each-Extends (cancel_leftover run) (cancel_leftover-Extends run)
          (leftovers run db.nodes) db d e)
        (silent d db' (ground arith, ground arith))

Stages-Extends :
    (run : String) (patch : GraphPatch) (existing : GraphSnapshot) (trigger : ℕ) (db db' : Db)
    → Stages run patch existing trigger db db'
    → Extends db db'
Stages-Extends run patch existing trigger db db' st =
    Extends-trans db st.added db'
      (for_each-Extends _ (insert_node-Extends run) patch.add db st.added st.adds)
      (Extends-trans st.added st.linked db'
        (for_each-Extends _ (insert_edge-Extends run) patch.connect st.added st.linked st.links)
        (Extends-trans st.linked st.cancelled_db db'
          (for_each-Extends _ (cancel_task-Extends run patch.reason existing.nodes) patch.cancel
            st.linked st.cancelled_db st.cancels)
          (Extends-trans st.cancelled_db st.waited db'
            (for_each-Extends _ (put_state-Extends run waiting) patch.wait st.cancelled_db st.waited
              st.waits)
            (Extends-trans st.waited st.resumed db'
              (for_each-Extends _ (put_state-Extends run pending) patch.resume st.waited st.resumed
                st.resumes)
              (Extends-trans st.resumed st.closed db'
                (finish_run-Extends run patch.finish st.resumed st.closed st.closes)
                (Extends-trans st.closed st.journaled db'
                  (insert_event-Extends run graph_patched none _ st.closed st.journaled st.event
                    st.journals)
                  (insert_patch-Extends run trigger _ st.journaled db' st.records)))))))

mark_running-Extends :
    (run : String) (ts : List TaskSpec) (db : Db) → Extends db (Store.mark_running run ts db).1
unfolding Store.mark_running
mark_running-Extends run ts db = go (for_each (start_task run) ts db) refl
  where
    go :
        (o : Outcome GraphError (Unit × Db))
        → for_each (start_task run) ts db ≡ o
        → Extends db (Store.mark_running run ts db).1
    go (ok (_, d)) e = rw e (for_each-Extends (start_task run) (start_task-Extends run) ts db d e)
    go (err x) e = rw e (same_journal db db refl refl)

start-Logs : (run : String) (x : Fields) (db : Db) → Logs db (Store.start run x db).1
unfolding Store.start insert_event
start-Logs run x db = elim (Bool-cases (has_run run db)) [
  | inl e ↦ inl (ground arith, ground arith)
  | inr e ↦
      elim (Bool-cases (
        is_some
          (find_run run (db.runs ++ record { id = run; finished = false; context = x } ∷ [])))) [
            | inl f ↦
                inr (row_of run run_started none end db, ground arith, ground arith, ground arith)
            | inr f ↦ inl (ground arith, ground arith)
          ]
]

external-Logs :
    (run k n : String) (p : Fields) (db : Db) → Logs db (Store.record_external_event run k n p db).1
unfolding Store.record_external_event insert_event
external-Logs run k n p db = elim (Bool-cases (has_run run db)) [
  | inl e ↦ inr (row_of run k (some n) p db, ground arith, ground arith, ground arith)
  | inr e ↦ inl (ground arith, ground arith)
]

resume-Logs : (run : String) (db : Db) → Logs db (Store.resume run db).1
unfolding Store.resume insert_event
resume-Logs run db = elim (Bool-cases (has_run run db)) [
  | inl e ↦ inr (row_of run run_resumed none end db, ground arith, ground arith, ground arith)
  | inr e ↦ inl (ground arith, ground arith)
]

outcome-Logs :
    (run n : String) (b : Bool) (p : Fields) (db : Db)
    → Logs db (Store.record_outcome run n b p db).1
unfolding Store.record_outcome insert_event
outcome-Logs run n b p db =
    elim (Bool-cases (eqb (rowcount (node_in_state run n running) db.nodes) 1)) [
      | inl c ↦ elim (Bool-cases (has_run run db)) [
        | inl e ↦
            inr
              (row_of run (outcome_kind b) (some n) p db, ground arith, ground arith, ground arith)
        | inr e ↦ inl (ground arith, ground arith)
      ]
      | inr c ↦ inl (ground arith, ground arith)
    ]

-- Whatever the call and its outcome, the journal after it is the journal before it, followed by
-- rows whose sequence numbers follow the last one that was given.
pub step-Extends : (db : Db) (c : Call) → Extends db (step db c)
unfolding step
step-Extends db (start r x) = Logs-Extends (start-Logs r x db)
step-Extends db (record_external_event r k n p) = Logs-Extends (external-Logs r k n p db)
step-Extends db (resume r) = Logs-Extends (resume-Logs r db)
step-Extends db (mark_running r ts) = mark_running-Extends r ts db
step-Extends db (record_outcome r n b p) = Logs-Extends (outcome-Logs r n b p db)
step-Extends db (apply_patch r patch trigger) =
    patched (Patch.apply_patch r patch trigger db) (apply_patch_cases r patch trigger db)
  where
    patched : (o : Outcome GraphError Bool × Db) → PatchEnd r patch trigger db o → Extends db o.1
    patched o (repeated _ e) = rw e (same_journal db db refl refl)
    patched o (refused _ e) = rw e (same_journal db db refl refl)
    patched o (committed db' e a) = rw e (Stages-Extends r patch a.existing trigger db db' a.stages)

steps-Extends : (db : Db) (cs : List Call) → Extends db (steps db cs)
unfolding steps
steps-Extends db [] = same_journal db db refl refl
steps-Extends db (c ∷ cs) =
    Extends-trans db (step db c) (steps (step db c) cs) (step-Extends db c)
      (steps-Extends (step db c) cs)

-- From the empty database, after any calls, whatever their outcomes, the events of the journal
-- are numbered from 1 without a gap and the last number is the counter's; after any further calls
-- the journal is the same rows followed by rows with the next numbers.
pub steps-Rising :
    (cs ds : List Call)
    → Rising 0 (steps empty cs).events (steps empty cs).last_sequence
      × ((new : List EventRow) × ((steps (steps empty cs) ds).events
            ≡ (steps empty cs).events ++ new)
          × Rising (steps empty cs).last_sequence new (steps (steps empty cs) ds).last_sequence)
steps-Rising cs ds =
    let first = steps-Extends empty cs in
    let later = steps-Extends (steps empty cs) ds in
    (rw first.rows first.rising, (later.new, later.rows, later.rising))
