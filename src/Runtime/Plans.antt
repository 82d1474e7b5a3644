-- ===== src/Runtime/Plans.antt =====
-- `DeterministicPlanner` of runtime.py, a local class of `S13Runtime.run`.
use s13code.Prelude.{
  String, not, ◌&&◌, ◌||◌, ◌==◌, List, [], ◌∷◌, ◌++◌, elem, filter, text_append, if◌then◌else◌,
}
use s13code.Json.{arr, nil, cons, get_or}
use s13code.Graph.Types.{
  TaskSpec, GraphPatch, run_started, task_succeeded, task_failed, Event, GraphSnapshot,
}
use s13code.Runtime.Intent.{task, agent_task, one_field}
use s13code.Runtime.Pieces.{
  when◌return◌else◌, RunRequest, adds, no_patch, finishes, node_ids, to, from, answer_patch,
  at_node, at_prefix, succeeded_at, all_ended, is_indexed, is_fetched, is_searched, is_research,
  is_other, listed, first_three, index_tasks, fetch_tasks,
}

unfoldable pub first_frontier : RunRequest → GraphPatch
first_frontier request =
    adds
      (if request.explicit_memory
        then request.initial_frontier
          ++ task "remember" "remember_explicit_fact" (one_field "text" request.prompt) ∷ []
        else request.initial_frontier)
      [] (text_append "first frontier selected for " request.mode)

unfoldable pub index_all : RunRequest → GraphSnapshot → Event → GraphPatch
index_all request graph event = elim (listed (get_or "paths" (arr nil) event.payload)) [
  | nil ↦ answer_patch request graph "the directory contained no matching files"
  | cons path paths ↦
      let tasks = index_tasks 0 (cons path paths) in
      adds tasks (from "list_directory" tasks)
        "directory outcome discovered concrete files; index them in parallel"
]

unfoldable pub fetch_all : RunRequest → GraphSnapshot → Event → GraphPatch
fetch_all request graph event =
    elim (first_three (listed (get_or "hits" (arr nil) event.payload))) [
      | nil ↦ answer_patch request graph "search returned no URLs; explain the failure"
      | cons hit hits ↦
          let tasks = fetch_tasks 0 (cons hit hits) in
          adds tasks (from "search" tasks)
            "search outcome discovered concrete pages; fetch them in parallel"
    ]

abbrev pub or_else : List String → List String → List String
or_else [] others = others
or_else (x ∷ xs) others = x ∷ xs

-- The searches, or the fetches if there is none, whatever their outcome.
abbrev pub researched : GraphSnapshot → List String
researched graph =
    or_else (filter is_searched (node_ids graph.nodes)) (filter is_fetched (node_ids graph.nodes))

abbrev pub distill_task : RunRequest → String → TaskSpec
distill_task request agent =
    agent_task "distill" "distiller" (one_field "query" request.prompt) agent

unfoldable pub landed : RunRequest → GraphSnapshot → GraphPatch
landed request graph =
    when elem request.mode
        ("fetch" ∷ "search_fetch" ∷ "parallel_search" ∷ "structured_population" ∷ [])
      && not (elem "distill" (node_ids graph.nodes))
    return adds (distill_task request "distiller" ∷ []) (to "distill" (researched graph))
        "research evidence landed; specialist synthesis can begin"
    else answer_patch request graph "the current research frontier has landed"

unfoldable pub after_recall : RunRequest → GraphSnapshot → GraphPatch
after_recall request graph =
    when request.mode == "index_file" && not (elem "distill" (node_ids graph.nodes))
    return adds (distill_task request "paper_distiller" ∷ []) (("recall", "distill") ∷ [])
        "retrieved paper evidence is ready for extraction"
    else answer_patch request graph "authorized retrieval completed"

-- From `task_failed` on.
unfoldable pub plan_ending : RunRequest → GraphSnapshot → Event → GraphPatch
plan_ending request graph event =
    when event.kind == task_failed && not (at_node "answer" event) && all_ended is_other graph
    return answer_patch request graph "work ended with a visible failure; explain it"
    else when at_node "answer" event && event.kind == task_succeeded
    return finishes "grounded answer produced"
    else when at_node "answer" event && event.kind == task_failed
    return finishes "answer worker failed; failure retained in journal"
    else no_patch

-- From the recall on.
unfoldable pub plan_research : RunRequest → GraphSnapshot → Event → GraphPatch
plan_research request graph event =
    when at_node "recall" event
    return after_recall request graph
    else when at_node "distill" event && not (request.mode == "structured_population")
    return answer_patch request graph "specialist synthesis completed"
    else when (at_prefix "fetch_" event || at_prefix "search_" event) && all_ended is_research graph
    return landed request graph
    else when request.mode == "structured_population" && at_node "distill" event
    return adds
        (agent_task "validate" "coder_validator" (one_field "query" request.prompt)
            "structured_validator"
          ∷ [])
        (("distill", "validate") ∷ []) "validate city structure before answering"
    else when request.mode == "structured_population" && at_node "validate" event
    return answer_patch request graph "structured population fields validated"
    else plan_ending request graph event

-- From the file modes on.
unfoldable pub plan_files : RunRequest → GraphSnapshot → Event → GraphPatch
plan_files request graph event =
    when request.mode == "read_file" && at_node "read_file" event
    return answer_patch request graph "safe sandbox read reached a terminal outcome"
    else when request.mode == "index_directory" && succeeded_at "list_directory" event
    return index_all request graph event
    else when request.mode == "index_directory"
        && at_prefix "index_" event
        && all_ended is_indexed graph
    return answer_patch request graph "all discovered documents reached a terminal state"
    else when request.mode == "search_fetch" && succeeded_at "search" event
    return fetch_all request graph event
    else plan_research request graph event

unfoldable pub plan_birthday : RunRequest → GraphSnapshot → Event → GraphPatch
plan_birthday request graph event =
    let birthday = request.mode == "birthday_reminder" in
    when birthday && succeeded_at "remember" event
    return adds
        (agent_task "reminder" "create_reminder" (one_field "prompt" request.prompt)
            "calendar_writer"
          ∷ [])
        (("remember", "reminder") ∷ []) "explicit fact is durable; create calendar artifacts"
    else when birthday && at_node "reminder" event
    return answer_patch request graph "calendar reminder artifacts are ready"
    else when birthday && at_node "recall" event
    return no_patch
    else plan_files request graph event

unfoldable pub plan : RunRequest → GraphSnapshot → Event → GraphPatch
plan request graph event =
    when event.kind == run_started
    return first_frontier request
    else when succeeded_at "index_file" event
    return adds (task "recall" "memory_recall" (one_field "query" request.prompt) ∷ [])
        (("index_file", "recall") ∷ []) "file is indexed; retrieval can now inspect it"
    else plan_birthday request graph event
