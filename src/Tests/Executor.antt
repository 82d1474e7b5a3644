-- ===== src/Tests/Executor.antt =====
-- The executor at concrete inputs: two tasks in turn, and a planner that then finishes the run.
use s13code.Prelude.{
  ℕ, ◌+◌, ◌≤◌, String, ◌≡◌, refl, true, false, ◌==◌, ◌⊎◌, Option, some, List, [], ◌∷◌, ok, length,
  elem, ensure, eqb, if◌then◌else◌, arith,
}
use s13code.Json.{end}
use s13code.Graph.Types.{running, cancelled, TaskSpec, GraphPatch, Event, GraphSnapshot}
use s13code.Graph.Db.{
  empty, for_each, insert_event, insert_node, insert_edge, insert_patch, set_state,
}
use s13code.Graph.Cycle.{has_cycle, any_visit, adjacency, append_child, visit, children}
use s13code.Graph.Store
use s13code.Graph.Store.{rowcount, set_result}
use s13code.Graph.Patch
use s13code.Graph.Patch.{then_check, finish_run, cancel_leftover}
use s13code.Graph.Nodes.{state_in}
use s13code.Graph.Calls.{start, apply_patch, mark_running, steps}
use s13code.Graph.Executor.{
  Config, Exec, returned, Tick, ids, execute, handle, run, replay, plan_event, cancel_flights,
  capacity, ended, fill, handle_all, keep_or_discard, launch, loop, replan, settle_outcome,
  start_all, turn,
}
use s13code.Graph.Executor.Runs.{fresh, run-bounded, run-lands}

abbrev job : String → TaskSpec
job name = record { id = name; skill = "fetch"; input = end; metadata = end }

abbrev add_two : GraphPatch
add_two = record {
  add = job "a" ∷ job "b" ∷ [];
  connect = ("a", "b") ∷ [];
  cancel = [];
  wait = [];
  resume = [];
  finish = false;
  reason = "plan";
}

abbrev nothing : GraphPatch
nothing = record {
  add = [];
  connect = [];
  cancel = [];
  wait = [];
  resume = [];
  finish = false;
  reason = "";
}

abbrev close_run : GraphPatch
close_run = record {
  add = [];
  connect = [];
  cancel = [];
  wait = [];
  resume = [];
  finish = true;
  reason = "done";
}

abbrev answer : GraphSnapshot → Event → Option GraphPatch
answer graph event =
    if event.kind == "run_started"
    then some add_two
    else (if eqb event.sequence 4 then some nothing else some close_run)

abbrev settings : Config
settings = record {
  run_id = "r";
  max_workers = 2;
  max_completed = some 5;
  known = λ skill. skill == "fetch";
  plan = answer;
}

abbrev all_done : Tick
all_done nid = some (returned end)

abbrev three : List Tick
three = all_done ∷ all_done ∷ all_done ∷ []

run-bounded_example :
    (length (run settings false three (fresh empty)).1.in_flight ≤ 2)
    × ((most : ℕ)
        → ◌≡◌ {A = Option ℕ} (some 5) (some most)
        → length (run settings false three (fresh empty)).1.executed
            + length (run settings false three (fresh empty)).1.in_flight
          ≤ most)
    × ((nid : String)
        → elem nid (ids (run settings false three (fresh empty)).1.in_flight) ≡ true
        → (state_in "r" nid (run settings false three (fresh empty)).1.db.nodes ≡ some running)
          ⊎ (state_in "r" nid (run settings false three (fresh empty)).1.db.nodes ≡ some cancelled))
run-bounded_example = run-bounded settings false three empty tt (λ h. absurd (ground arith))

both_run : (run settings false three (fresh empty)).1.executed ≡ "a" ∷ "b" ∷ []
unfolding run replay plan_event cancel_flights capacity ended execute fill handle handle_all
    keep_or_discard launch loop replan settle_outcome start_all turn Store.node_state Store.ready
    Store.record_outcome rowcount set_result Store.start insert_event Store.pending_planner_events
    Store.is_finished Store.snapshot Patch.apply_patch then_check ensure for_each insert_node
    insert_edge has_cycle any_visit adjacency append_child children visit insert_patch set_state
    cancel_leftover finish_run Store.mark_running
both_run = refl

ends : (run settings false three (fresh empty)).0 ≡ ok true
unfolding run replay plan_event cancel_flights capacity ended execute fill handle handle_all
    keep_or_discard launch loop replan settle_outcome start_all turn Store.node_state Store.ready
    Store.record_outcome rowcount set_result Store.start insert_event Store.pending_planner_events
    Store.is_finished Store.snapshot Patch.apply_patch then_check ensure for_each insert_node
    insert_edge has_cycle any_visit adjacency append_child children visit insert_patch set_state
    cancel_leftover finish_run Store.mark_running
ends = refl

run-lands_example : (run settings false three (fresh empty)).1.in_flight ≡ []
run-lands_example = run-lands settings false three empty tt (λ h. absurd (ground arith)) ends

-- The first task is running.
abbrev in_air : Exec
in_air = record {
  db =
      steps empty
        (start "r" end ∷ apply_patch "r" add_two 1 ∷ mark_running "r" (job "a" ∷ []) ∷ []);
  in_flight = job "a" ∷ [];
  executed = [];
  cancelling = [];
}
