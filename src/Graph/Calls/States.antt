-- ===== src/Graph/Calls/States.antt =====
-- What each call does to the state that a key shows.
use mathlib.Core.Option
use s13code.Prelude.{
  String, ◌≡◌, refl, ◌∙◌, Bool, true, false, ◌&&◌, ◌||◌, ◌==◌, Option, none, some, List, [], ◌∷◌,
  map, ◌⊎◌, inl, inr, arith, if◌then◌else◌, Outcome, ok, err, Bool-cases, elem, eqb,
}
use s13code.Json.{Fields}
use s13code.Graph.Types.{NodeState, pending, running, TaskSpec, GraphError}
use s13code.Graph.Db.{Db, for_each, set_state, insert_event, has_run}
use s13code.Graph.Store.{
  start, resume, mark_running, start_task, record_outcome, record_external_event, in_state,
  node_in_state, set_result, outcome_state, rowcount,
}
use s13code.Graph.Patch.Stages.{peel}
use s13code.Graph.Nodes.{state_in, swap_state, state_in-node_in_state}

pub start-nodes :
    (run : String) (context : Fields) (db : Db) → (start run context db).1.nodes ≡ db.nodes
unfolding start insert_event
start-nodes run context db = ground arith

pub record_external_event-nodes :
    (run kind nid : String) (p : Fields) (db : Db)
    → (record_external_event run kind nid p db).1.nodes ≡ db.nodes
unfolding record_external_event insert_event
record_external_event-nodes run kind nid p db = ground arith

pub resume-nodes :
    (run : String) (db : Db)
    → ((resume run db).1.nodes ≡ db.nodes)
      ⊎ ((resume run db).1.nodes ≡ set_state (in_state run running) pending db.nodes)
unfolding resume insert_event
resume-nodes run db = elim (Bool-cases (has_run run db)) [
  | inl e ↦ inr (ground arith)
  | inr e ↦ inl (ground arith)
]

pub record_outcome-nodes :
    (run nid : String) (success : Bool) (p : Fields) (db : Db)
    → ((record_outcome run nid success p db).1.nodes ≡ db.nodes)
      ⊎ ((record_outcome run nid success p db).1.nodes
          ≡ set_result (node_in_state run nid running) (outcome_state success) p db.nodes)
unfolding record_outcome insert_event
record_outcome-nodes run nid success p db =
    elim (Bool-cases (eqb (rowcount (node_in_state run nid running) db.nodes) 1)) [
      | inl e ↦ elim (Bool-cases (has_run run db)) [
        | inl h ↦ inr (ground arith)
        | inr h ↦ inl (ground arith)
      ]
      | inr e ↦ inl (ground arith)
    ]

pub start_task-nodes :
    (run : String) (t : TaskSpec) (db db' : Db)
    → start_task run t db ≡ ok (tt, db')
    → db'.nodes ≡ set_state (node_in_state run t.id pending) running db.nodes
unfolding insert_event
start_task-nodes run t db db' h = ground arith

abbrev pub task_ids : List TaskSpec → List String
task_ids = map (λ t. t.id)

started_twice :
    (b c d : Bool) (o : Option NodeState)
    → Option.map
        (λ s. if b && c then swap_state pending running s else s)
        (Option.map (λ s. if b && d then swap_state pending running s else s) o)
      ≡ Option.map (λ s. if b && (d || c) then swap_state pending running s else s) o
started_twice b c d none = refl
started_twice false c d (some s) = refl
started_twice true c false (some s) = refl
started_twice true false true (some s) = refl
started_twice true true true (some pending) = refl
started_twice true true true (some _) = refl

pub started-state :
    (run : String) (ts : List TaskSpec) (db db' : Db)
    → for_each (start_task run) ts db ≡ ok (tt, db')
    → (run' nid : String)
    → state_in run' nid db'.nodes
      ≡ Option.map
          (λ s. if run' == run && elem nid (task_ids ts) then swap_state pending running s else s)
          (state_in run' nid db.nodes)
unfolding for_each
started-state run [] db db' h run' nid = ground arith
started-state run (t ∷ ts) db db' h run' nid = peel (start_task run t) _ db h λ _ d e k.
    started-state run ts d db' k run' nid
    ∙ rw
        (
          start_task-nodes run t db d e,
          state_in-node_in_state run' nid run t.id pending running db.nodes,
        )
        (started_twice (run' == run) (elem nid (task_ids ts)) (nid == t.id)
          (state_in run' nid db.nodes))

pub mark_running-state :
    (run : String) (ts : List TaskSpec) (db : Db) (run' nid : String)
    → (state_in run' nid (mark_running run ts db).1.nodes ≡ state_in run' nid db.nodes)
      ⊎ (state_in run' nid (mark_running run ts db).1.nodes
          ≡ Option.map
              (λ s.
                if run' == run && elem nid (task_ids ts) then swap_state pending running s else s)
              (state_in run' nid db.nodes))
unfolding mark_running
mark_running-state run ts db run' nid = go (for_each (start_task run) ts db) refl
  where
    go :
        (o : Outcome GraphError (Unit × Db))
        → for_each (start_task run) ts db ≡ o
        → (state_in run' nid (mark_running run ts db).1.nodes ≡ state_in run' nid db.nodes)
          ⊎ (state_in run' nid (mark_running run ts db).1.nodes
              ≡ Option.map
                  (λ s.
                    if run' == run && elem nid (task_ids ts)
                    then swap_state pending running s
                    else s)
                  (state_in run' nid db.nodes))
    go (ok (_, d)) e = inr (rw e (started-state run ts db d e run' nid))
    go (err x) e = inl (rw e)
