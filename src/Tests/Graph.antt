-- ===== src/Tests/Graph.antt =====
-- The live graph at concrete inputs: a run with two tasks, one of which waits for the other.
use mathlib.Core.Option
use s13code.Prelude.{
  ensure, suc, ◌≤◌, ◌<◌, String, ◌≡◌, ◌≢◌, refl, none, arith, true, false, ◌⊎◌, some, List, [], ◌∷◌,
  ◌++◌, Memᴰ, length, ok, err, if◌then◌else◌, any, ◌==◌,
}
use s13code.Json.{end}
use s13code.Graph.Types.{
  NodeState, pending, running, succeeded, failed, cancelled, TaskSpec, GraphPatch, GraphError,
  Event, not_running, key_error,
}
use s13code.Graph.Db.{
  Db, EventRow, NodeRow, empty, is_patch, has_run, for_each, insert_event, insert_node, insert_edge,
  insert_patch, set_state,
}
use s13code.Graph.Cycle.{has_cycle, any_visit, adjacency, append_child, visit, children}
use s13code.Graph.Cycle.Correct.{Acyclic, Precedes, has_cycle_decides}
use s13code.Graph.Store
use s13code.Graph.Store.{
  ready, spec, is_finished, pending_planner_events, edges_of, outcome_kind, outcome_state, rowcount,
  set_result,
}
use s13code.Graph.Store.Ready.{Runnable, ready_lem}
use s13code.Graph.Store.Outcomes.{record_outcome_lem, resume_lem}
use s13code.Graph.Patch
use s13code.Graph.Patch.{is_open, then_check, finish_run, cancel_leftover}
use s13code.Graph.Patch.Commit.{patched_state, apply_patch_lem}
use s13code.Graph.Keys.{Unique}
use s13code.Graph.Nodes.{state_in, swap_state}
use s13code.Graph.Calls.{
  Call, start, resume, mark_running, record_outcome, apply_patch, step, steps,
}
use s13code.Graph.Calls.Transitions.{may_move, step-may_move}
use s13code.Graph.Calls.Terminal.{steps-terminal}
use s13code.Graph.Calls.Acyclic.{steps-Acyclic}
use s13code.Graph.Calls.Blocked.{steps-blocked}
use s13code.Graph.Calls.Finished.{steps-AllClosed}
use s13code.Graph.Calls.Frozen.{steps-frozen}
use s13code.Graph.Calls.Extends.{Rising}
use s13code.Graph.Calls.Journal.{steps-Rising}
use s13code.Graph.Calls.Once.{apply_patch-once}

abbrev task : String → TaskSpec
task name = record { id = name; skill = "fetch"; input = end; metadata = end }

abbrev two_tasks : GraphPatch
two_tasks = record {
  add = task "a" ∷ task "b" ∷ [];
  connect = ("a", "b") ∷ [];
  cancel = [];
  wait = [];
  resume = [];
  finish = false;
  reason = "two tasks";
}

abbrev closing : GraphPatch
closing = record {
  add = [];
  connect = [];
  cancel = [];
  wait = [];
  resume = [];
  finish = true;
  reason = "done";
}

abbrev opened : List Call
opened = start "r" end ∷ apply_patch "r" two_tasks 1 ∷ []

abbrev half_way : List Call
half_way =
    start "r" end
    ∷ apply_patch "r" two_tasks 1
    ∷ mark_running "r" (task "a" ∷ [])
    ∷ record_outcome "r" "a" true end
    ∷ []

abbrev ended : List Call
ended =
    start "r" end
    ∷ apply_patch "r" two_tasks 1
    ∷ mark_running "r" (task "a" ∷ [])
    ∷ record_outcome "r" "a" true end
    ∷ apply_patch "r" closing 4
    ∷ []

opened-Unique : Unique (steps empty opened).nodes
unfolding steps step Store.start Patch.apply_patch for_each insert_event Store.snapshot then_check
    ensure insert_node insert_edge has_cycle any_visit adjacency append_child visit children
    insert_patch set_state
opened-Unique = (refl, (refl, tt))

half_way-Unique : Unique (steps empty half_way).nodes
unfolding steps step Store.start Patch.apply_patch Store.mark_running Store.record_outcome for_each
    insert_event Store.snapshot then_check ensure insert_node insert_edge has_cycle any_visit
    adjacency append_child visit children insert_patch set_state rowcount set_result finish_run
half_way-Unique = (refl, (refl, tt))

has_cycle_decides_example :
    ((has_cycle (("a", "b") ∷ ("b", "a") ∷ []) ≡ some true)
      × ((u : String) × Precedes (("a", "b") ∷ ("b", "a") ∷ []) u u))
    ⊎ ((has_cycle (("a", "b") ∷ ("b", "a") ∷ []) ≡ some false)
        × Acyclic (("a", "b") ∷ ("b", "a") ∷ []))
has_cycle_decides_example = has_cycle_decides (("a", "b") ∷ ("b", "a") ∷ [])

pending_at_first : state_in "r" "a" (steps empty opened).nodes ≡ some pending
unfolding steps step Store.start Patch.apply_patch for_each insert_event Store.snapshot then_check
    ensure insert_node insert_edge has_cycle any_visit adjacency append_child visit children
    insert_patch set_state
pending_at_first = refl

step-may_move_example :
    (t : NodeState) × (state_in "r" "a"
        (step (steps empty opened) (mark_running "r" (task "a" ∷ []))).nodes
      ≡ some t)
    × (may_move pending t ≡ true)
step-may_move_example =
    step-may_move (steps empty opened) (mark_running "r" (task "a" ∷ [])) "r" "a" pending
      opened-Unique pending_at_first

succeeded_then : state_in "r" "a" (steps empty half_way).nodes ≡ some succeeded
unfolding steps step Store.start Patch.apply_patch Store.mark_running Store.record_outcome for_each
    insert_event Store.snapshot then_check ensure insert_node insert_edge has_cycle any_visit
    adjacency append_child visit children insert_patch set_state rowcount set_result finish_run
succeeded_then = refl

steps-terminal_example :
    state_in "r" "a"
      (steps (steps empty half_way) (resume "r" ∷ apply_patch "r" closing 4 ∷ [])).nodes
    ≡ some succeeded
steps-terminal_example =
    steps-terminal (resume "r" ∷ apply_patch "r" closing 4 ∷ []) (steps empty half_way) "r" "a"
      succeeded half_way-Unique refl succeeded_then

steps-Acyclic_example : Acyclic (edges_of "r" (steps empty half_way).edges)
steps-Acyclic_example = steps-Acyclic half_way "r"

ended-finished : is_finished "r" (steps empty ended) ≡ true
unfolding steps step Store.start Patch.apply_patch Store.mark_running Store.record_outcome for_each
    insert_event Store.snapshot then_check ensure insert_node insert_edge has_cycle any_visit
    adjacency append_child visit children insert_patch set_state rowcount set_result finish_run
    is_finished
ended-finished = refl

ended-cancelled : state_in "r" "b" (steps empty ended).nodes ≡ some cancelled
unfolding steps step Store.start Patch.apply_patch Store.mark_running Store.record_outcome for_each
    insert_event Store.snapshot then_check ensure insert_node insert_edge has_cycle any_visit
    adjacency append_child visit children insert_patch set_state rowcount set_result finish_run
    cancel_leftover
ended-cancelled = refl

steps-AllClosed_example : is_open cancelled ≡ false
steps-AllClosed_example = steps-AllClosed ended "r" "b" cancelled ended-finished ended-cancelled

steps-frozen_example :
    (is_finished "r" (steps (steps empty ended) (resume "r" ∷ apply_patch "r" two_tasks 9 ∷ []))
      ≡ true)
    × ((nid : String)
        → state_in "r" nid
            (steps (steps empty ended) (resume "r" ∷ apply_patch "r" two_tasks 9 ∷ [])).nodes
          ≡ state_in "r" nid (steps empty ended).nodes)
steps-frozen_example =
    steps-frozen ended (resume "r" ∷ apply_patch "r" two_tasks 9 ∷ []) "r" ended-finished

steps-Rising_example :
    Rising 0 (steps empty opened).events (steps empty opened).last_sequence
    × ((new : List EventRow) × ((steps (steps empty opened) (resume "r" ∷ [])).events
          ≡ (steps empty opened).events ++ new)
        × Rising
            (steps empty opened).last_sequence
            new
            (steps (steps empty opened) (resume "r" ∷ [])).last_sequence)
steps-Rising_example = steps-Rising opened (resume "r" ∷ [])

ready_lem_example :
    (length (ready "r" 2 (steps empty half_way)) ≤ 2)
    × ((t : TaskSpec)
        → Memᴰ t (ready "r" 2 (steps empty half_way))
        → (n : _) × Runnable "r" (steps empty half_way) n × (spec n ≡ t))
    × (length (ready "r" 2 (steps empty half_way)) < 2
        → (n : _) → Runnable "r" (steps empty half_way) n
        → Memᴰ (spec n) (ready "r" 2 (steps empty half_way)))
ready_lem_example = ready_lem "r" 2 (steps empty half_way)

b_is_ready : ready "r" 2 (steps empty half_way) ≡ task "b" ∷ []
unfolding steps step Store.start Patch.apply_patch Store.mark_running Store.record_outcome for_each
    insert_event Store.snapshot then_check ensure insert_node insert_edge has_cycle any_visit
    adjacency append_child visit children insert_patch set_state rowcount set_result finish_run
    ready
b_is_ready = refl

abbrev row : String → NodeState → NodeRow
row name state = record {
  run_id = "r";
  id = name;
  skill = "fetch";
  input = end;
  metadata = end;
  state = state;
  result = none;
}

-- The task "b" stands behind "a", which has failed.
abbrev held_up : Db
held_up = record empty {
  runs = record { id = "r"; finished = false; context = end } ∷ [];
  nodes = row "a" failed ∷ row "b" pending ∷ row "c" pending ∷ [];
  edges = record { run_id = "r"; parent_id = "a"; child_id = "b" } ∷ [];
}

c_is_ready : ready "r" 2 (steps held_up (resume "r" ∷ [])) ≡ task "c" ∷ []
unfolding steps step Store.resume insert_event set_state ready
c_is_ready = refl

c_in : Memᴰ (task "c") (ready "r" 2 (steps held_up (resume "r" ∷ [])))
c_in = rw c_is_ready (Memᴰ.head refl)

steps-blocked_example : (task "c").id ≢ "b"
steps-blocked_example =
    steps-blocked (resume "r" ∷ []) held_up "r" "a" "b" failed 2 (task "c")
      (refl, (refl, (refl, tt))) refl (λ e. absurd (ground arith)) refl (Memᴰ.head refl) c_in

apply_patch_lem_example :
    ((e : GraphError) × (Patch.apply_patch "r" closing 4 (steps empty half_way)
        ≡ (err e, steps empty half_way)))
    ⊎ ((any (is_patch "r" 4) (steps empty half_way).patches ≡ true)
        × (Patch.apply_patch "r" closing 4 (steps empty half_way)
            ≡ (ok false, steps empty half_way)))
    ⊎ ((any (is_patch "r" 4) (steps empty half_way).patches ≡ false)
        × ((Patch.apply_patch "r" closing 4 (steps empty half_way)).0 ≡ ok true)
        × ((run' nid : String)
            → state_in run' nid (Patch.apply_patch "r" closing 4 (steps empty half_way)).1.nodes
              ≡ patched_state "r" closing run' nid (steps empty half_way)))
apply_patch_lem_example = apply_patch_lem "r" closing 4 (steps empty half_way) half_way-Unique

abbrev started : Db
started = steps empty (start "r" end ∷ [])

first_patch :
    Patch.apply_patch "r" two_tasks 1 started
    ≡ (ok true, (Patch.apply_patch "r" two_tasks 1 started).1)
unfolding steps step Store.start Patch.apply_patch for_each insert_event Store.snapshot then_check
    ensure insert_node insert_edge has_cycle any_visit adjacency append_child visit children
    insert_patch set_state
first_patch = refl

apply_patch-once_example :
    (Patch.apply_patch "r" closing 1
        (steps (Patch.apply_patch "r" two_tasks 1 started).1 (resume "r" ∷ []))
      ≡ (ok false, steps (Patch.apply_patch "r" two_tasks 1 started).1 (resume "r" ∷ [])))
    × ((e : Event)
        → Memᴰ e (
            pending_planner_events "r"
              (steps (Patch.apply_patch "r" two_tasks 1 started).1 (resume "r" ∷ [])))
        → ¬ (e.sequence ≡ 1))
apply_patch-once_example =
    apply_patch-once "r" two_tasks closing 1 started (Patch.apply_patch "r" two_tasks 1 started).1
      (resume "r" ∷ []) first_patch

opened-has_run : has_run "r" (steps empty opened) ≡ true
unfolding steps step Store.start Patch.apply_patch for_each insert_event Store.snapshot then_check
    ensure insert_node insert_edge has_cycle any_visit adjacency append_child visit children
    insert_patch set_state
opened-has_run = refl

record_outcome_lem_example :
    ((state_in "r" "a" (steps empty opened).nodes ≡ some running)
      × ((Store.record_outcome "r" "a" true end (steps empty opened)).0
          ≡ ok (record {
            sequence = suc (steps empty opened).last_sequence;
            kind = outcome_kind true;
            node_id = some "a";
            payload = end;
          }))
      × (state_in "r" "a" (Store.record_outcome "r" "a" true end (steps empty opened)).1.nodes
          ≡ some (outcome_state true)))
    ⊎ (¬ (state_in "r" "a" (steps empty opened).nodes ≡ some running)
        × (Store.record_outcome "r" "a" true end (steps empty opened)
            ≡ (err (not_running "a"), steps empty opened)))
record_outcome_lem_example =
    record_outcome_lem "r" "a" true end (steps empty opened) opened-Unique opened-has_run

resume_lem_example :
    ((has_run "r" (steps empty opened) ≡ true)
      × ((Store.resume "r" (steps empty opened)).0 ≡ ok tt)
      × ((run' nid : String)
          → state_in run' nid (Store.resume "r" (steps empty opened)).1.nodes
            ≡ Option.map
                (λ s. if run' == "r" then swap_state running pending s else s)
                (state_in run' nid (steps empty opened).nodes)))
    ⊎ ((has_run "r" (steps empty opened) ≡ false)
        × (Store.resume "r" (steps empty opened) ≡ (err (key_error "r"), steps empty opened)))
resume_lem_example = resume_lem "r" (steps empty opened)
