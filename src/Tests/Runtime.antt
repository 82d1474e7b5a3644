-- ===== src/Tests/Runtime.antt =====
-- The deterministic planner and the evidence of an answer at concrete inputs.
use s13code.Prelude.{
  ◌≤◌, String, Bool, true, false, Option, none, some, List, [], ◌∷◌, ◌++◌, map, ◌≡◌, refl, ok, err,
  length, decimal, elem, subst,
}
use s13code.Json.{Fields, str, arr, nil, cons, end, field, get_or}
use s13code.Graph.Types.{
  NodeState, running, succeeded, failed, GraphSnapshot, NodeView, Event, task_succeeded,
  task_failed,
}
use s13code.Memory.Types.{MemoryRecord, document_chunk}
use s13code.Runtime.Intent.{Found, work_intent, one_field}
use s13code.Runtime.Pieces.{when◌return◌else◌, RunRequest, node_ids, all_ended}
use s13code.Runtime.Plans.{plan_birthday, plan_files, plan_research, after_recall, plan}
use s13code.Runtime.Wired.{Wired, plan-Wired}
use s13code.Runtime.Answers.{Progress, plan-Progress}
use s13code.Runtime.Recalled.{recalled, is_foreign, source_key}
use s13code.Runtime.Diverse.{AllForeign, count_source, recalled_lem}
use s13code.Runtime.Evidence.{gather, answer_evidence, node_evidence, no_result}
use s13code.Runtime.Bounded.{Clipped, smaller, total_chars, answer_evidence_lem}
use s13code.Graph.Cycle.{has_cycle, any_visit, adjacency, append_child, visit, children}
use s13code.Graph.Cycle.Correct.{has_cycle-Acyclic}
use s13code.Graph.Patch.{check_patch}
use s13code.Runtime.Accepted.{plan-check_patch}

abbrev nothing : Found
nothing = record {
  index_directory = none;
  index_file = none;
  read_file = none;
  birthday = false;
  reminder = false;
  urls = [];
  asks_page = false;
  quoted_search = none;
  cities = none;
  structured = false;
  family_friendly = false;
  weather = false;
}

cities_intent :
    map (λ t. t.id) (work_intent "p" (record nothing { cities = some ("Oslo" ∷ "Rome" ∷ []) })).1
    ≡ "search_1" ∷ "search_2" ∷ []
unfolding work_intent decimal
cities_intent = refl

abbrev node : String → String → NodeState → Option Fields → NodeView
node id skill state result = record {
  id = id;
  skill = skill;
  input = end;
  metadata = end;
  state = state;
  result = result;
}

abbrev graph_of : List NodeView → GraphSnapshot
graph_of nodes = record { run_id = "r"; finished = false; nodes = nodes; edges = [] }

abbrev outcome : String → String → Event
outcome kind id = record { sequence = 5; kind = kind; node_id = some id; payload = end }

abbrev request : String → RunRequest
request mode = record { prompt = "p"; mode = mode; initial_frontier = []; explicit_memory = false }

-- One of two searches has failed, and both have ended.
abbrev half : GraphSnapshot
half = graph_of (
    node "search_1" "researcher" failed (some end)
    ∷ node "search_2" "researcher" succeeded (some end)
    ∷ [])

plan-Progress_example :
    Progress half (plan (request "parallel_search") half (outcome task_failed "search_1"))
unfolding all_ended
plan-Progress_example =
    plan-Progress (request "parallel_search") half (outcome task_failed "search_1") refl refl refl
      refl

-- An outcome at a node of the graph.
inside :
    (id : String) (ns : List String)
    → elem id ns ≡ true
    → (n : String) → some id ≡ some n
    → elem n ns ≡ true
inside id ns h n e = subst (λ (o : Option String). held o) e h
  where
    held : Option String → Type 0
    held none = ⊥
    held (some n) = elem n ns ≡ true

plan-Wired_example :
    Wired half
      (outcome task_succeeded "search_2")
      (plan (request "parallel_search") half (outcome task_succeeded "search_2"))
plan-Wired_example =
    plan-Wired (request "parallel_search") half (outcome task_succeeded "search_2")
      (inside "search_2" (node_ids half.nodes) refl)

abbrev recalled_file : GraphSnapshot
recalled_file =
    record (graph_of (
      node "index_file" "index_file" succeeded (some end)
      ∷ node "recall" "memory_recall" succeeded (some end)
      ∷ [])) { edges = ("index_file", "recall") ∷ [] }

plan-check_patch_example :
    (check_patch recalled_file
        (plan (request "index_file") recalled_file (outcome task_succeeded "recall"))
      ≡ ok tt)
    × (has_cycle (
          recalled_file.edges
          ++ (plan (request "index_file") recalled_file (outcome task_succeeded "recall")).connect)
        ≡ some false)
unfolding plan plan_birthday plan_files plan_research after_recall when◌return◌else◌ has_cycle
    any_visit adjacency append_child visit children
plan-check_patch_example =
    plan-check_patch (request "index_file") recalled_file (outcome task_succeeded "recall") refl
      (has_cycle-Acyclic recalled_file.edges refl) (refl, refl, tt)
      (inside "recall" (node_ids recalled_file.nodes) refl) refl refl

-- The recall has ended, and the fact is still being stored.
abbrev storing : GraphSnapshot
storing = graph_of (
    node "recall" "memory_recall" succeeded (some end)
    ∷ node "remember" "remember_explicit_fact" running none
    ∷ [])

storing_raises : gather "r" storing ≡ err no_result
unfolding gather
storing_raises = refl

abbrev stored : GraphSnapshot
stored = graph_of (
    node "fetch_1" "fetch_url" succeeded (some (field "text" (str "page") (one_field "url" "u")))
    ∷ node "fetch_2" "fetch_url" failed (some (one_field "error" "late"))
    ∷ [])

abbrev stored_evidence : List Fields
stored_evidence =
    field "text" (str "page")
      (field "sources" (arr (cons (str "u") nil)) (one_field "kind" "web_page"))
    ∷ field "text" (str "late")
        (field "sources" (arr (cons (str "graph://r/fetch_2") nil)) (one_field "kind" "failure"))
    ∷ []

answer_evidence_lem_example :
    (kept : List Fields) × (answer_evidence "r" stored ≡ ok kept)
    × Clipped stored_evidence kept
    × (total_chars kept ≡ smaller 28000 (total_chars stored_evidence))
unfolding gather node_evidence get_or
answer_evidence_lem_example = answer_evidence_lem "r" stored stored_evidence refl

abbrev hit : String → String → MemoryRecord
hit id run = record {
  id = id;
  kind = document_chunk;
  scope = record {
    tenant_id = "t";
    project_id = none;
    user_id = none;
    agent_id = none;
    run_id = none;
  };
  text = id;
  sources = record { uri = "u"; author = "a"; captured_at = "2026"; excerpt = none } ∷ [];
  principal = record { id = "p"; role = "user" };
  metadata = one_field "run_id" run;
  valid_from = "2026";
  valid_to = none;
  confidence = none;
  created_at = "2026";
  status = "current";
  supersedes_id = none;
}

-- The hits of one source, the first of them by this run.
abbrev pool : List MemoryRecord
pool = hit "0" "r" ∷ hit "1" "s" ∷ hit "2" "s" ∷ hit "3" "s" ∷ hit "4" "s" ∷ []

kept_hits : map (λ h. h.id) (recalled true "r" "i" pool) ≡ "1" ∷ "2" ∷ "3" ∷ []
unfolding recalled is_foreign source_key get_or
kept_hits = refl

recalled_lem_example :
    AllForeign "r" "i" (recalled true "r" "i" pool)
    × (length (recalled true "r" "i" pool) ≤ 8)
    × (◌≡◌ {A = Bool} true true → count_source "u" (recalled true "r" "i" pool) ≤ 3)
recalled_lem_example = recalled_lem true "r" "i" pool "u"
