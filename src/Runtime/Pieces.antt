-- ===== src/Runtime/Pieces.antt =====
-- The parts of `DeterministicPlanner` of runtime.py: its patches, its tests of the graph and of the
-- event, and the tasks that it makes of a worker's result.
use text.Mathlib.Text.{starts_with}
use s13code.Prelude.{
  ℕ, suc, String, Bool, true, false, not, ◌&&◌, ◌||◌, ◌==◌, Option, none, some, List, [], ◌∷◌, map,
  all, elem, filter, eqb, if◌then◌else◌,
}
use s13code.Json.{Json, Items, null, bool, num, real, str, arr, obj, nil, cons, end, field, get_or}
use s13code.Graph.Types.{
  succeeded, failed, cancelled, ◌=ₛ◌, TaskSpec, GraphPatch, task_succeeded, Event, NodeView,
  GraphSnapshot,
}
use s13code.Runtime.Intent.{task, one_field, numbered}

-- What the closure of `run` gives the planner.
pub record RunRequest : Type 0 where
  pub prompt : String
  pub mode : String
  pub initial_frontier : List TaskSpec
  pub explicit_memory : Bool

abbrev pub Edges : Type 0
Edges = List (String × String)

abbrev pub adds : List TaskSpec → Edges → String → GraphPatch
adds tasks connect reason = record {
  add = tasks;
  connect = connect;
  cancel = [];
  wait = [];
  resume = [];
  finish = false;
  reason = reason;
}

-- `GraphPatch()`
abbrev pub no_patch : GraphPatch
no_patch = adds [] [] ""

abbrev pub finishes : String → GraphPatch
finishes reason = record no_patch { finish = true; reason = reason }

abbrev pub node_ids : List NodeView → List String
node_ids nodes = map (λ n. n.id) nodes

abbrev pub to : String → List String → Edges
to child parents = map (λ parent. (parent, child)) parents

abbrev pub from : String → List TaskSpec → Edges
from parent tasks = map (λ t. (parent, t.id)) tasks

-- `node_id != "answer" and node["state"] == "succeeded"`
abbrev pub is_parent : NodeView → Bool
is_parent n = not (n.id == "answer") && n.state =ₛ succeeded

-- `if test: return patch`, and what comes after it.
infix 1 when◌return◌else◌
unfoldable pub when◌return◌else◌ : Bool → GraphPatch → GraphPatch → GraphPatch
when true return p else q = p
when false return p else q = q

unfoldable pub answer_patch : RunRequest → GraphSnapshot → String → GraphPatch
answer_patch request graph reason =
    when elem "answer" (node_ids graph.nodes)
    return no_patch
    else adds (task "answer" "answer_with_evidence" (one_field "query" request.prompt) ∷ [])
        (to "answer" (node_ids (filter is_parent graph.nodes))) reason

abbrev pub at_node : String → Event → Bool
at_node id event = elim event.node_id [ none ↦ false | some n ↦ n == id ]

-- `event.node_id and event.node_id.startswith(prefix)`
abbrev pub at_prefix : String → Event → Bool
at_prefix prefix event = elim event.node_id [ none ↦ false | some n ↦ starts_with n prefix ]

abbrev pub succeeded_at : String → Event → Bool
succeeded_at id event = at_node id event && event.kind == task_succeeded

abbrev pub has_ended : NodeView → Bool
has_ended n = n.state =ₛ succeeded || n.state =ₛ failed || n.state =ₛ cancelled

abbrev pub is_nil : List NodeView → Bool
is_nil [] = true
is_nil (n ∷ nodes) = false

-- `work and all(node["state"] in {…} for node in work)`
unfoldable pub all_ended : (String → Bool) → GraphSnapshot → Bool
all_ended is_work graph =
    let work = filter (λ (n : NodeView). is_work n.id) graph.nodes in
    not (is_nil work) && all has_ended work

abbrev pub is_indexed : String → Bool
is_indexed id = starts_with id "index_"

abbrev pub is_fetched : String → Bool
is_fetched id = starts_with id "fetch_"

abbrev pub is_searched : String → Bool
is_searched id = starts_with id "search_"

abbrev pub is_research : String → Bool
is_research id = is_fetched id || is_searched id

abbrev pub is_other : String → Bool
is_other id = not (id == "answer")

-- The workers write lists there.
abbrev pub listed : Json → Items
listed (arr items) = items
listed other = nil

abbrev pub first_three : Items → Items
first_three (cons a (cons b (cons c rest))) = cons a (cons b (cons c nil))
first_three few = few

abbrev pub index_tasks : ℕ → Items → List TaskSpec
index_tasks i nil = []
index_tasks i (cons path paths) =
    task (numbered "index_" i) "index_file" (field "path" path end) ∷ index_tasks (suc i) paths

-- `bool(value)`
abbrev pub truthy : Json → Bool
truthy null = false
truthy (bool b) = b
truthy (num n) = not (eqb n 0)
truthy (real r) = not (r == "0.0" || r == "-0.0")
truthy (str s) = not (s == "")
truthy (arr nil) = false
truthy (arr (cons item items)) = true
truthy (obj end) = false
truthy (obj (field k v rest)) = true

-- `hit["url"]`, if it is true; the workers write objects there.
abbrev pub url_of : Json → Option Json
url_of (obj hit) = let url = get_or "url" null hit in if truthy url then some url else none
url_of other = none

-- The numbers count the hits without a URL too.
abbrev pub fetch_tasks : ℕ → Items → List TaskSpec
fetch_tasks i nil = []
fetch_tasks i (cons hit hits) =
    let rest = fetch_tasks (suc i) hits in
    elim (url_of hit) [
      | none ↦ rest
      | some url ↦ task (numbered "fetch_" i) "fetch_url" (field "url" url end) ∷ rest
    ]
