-- ===== src/Graph/Store.antt =====
-- The methods of `GraphStore` in core/live_graph/store.py, `apply_patch` excepted (see Patch).
pub mod Ready
pub mod Outcomes
use s13code.Prelude.{
  ℕ, zero, suc, String, Bool, true, false, not, ◌&&◌, ◌||◌, ◌==◌, Option, none, some, List, [], ◌∷◌,
  ◌++◌, map, Outcome, ok, err, eqb, if◌then◌else◌, any, filter, take, sort_by, insert_by, text_le,
}
use s13code.Json.{Json, Fields, get_or, str, field, end}
use s13code.Graph.Types.{
  NodeState, pending, running, succeeded, failed, ◌=ₛ◌, TaskSpec, run_started, run_resumed,
  task_started, task_succeeded, task_failed, Event, NodeView, GraphSnapshot, GraphError, key_error,
  not_running,
}
use s13code.Graph.Db.{
  RunRow, NodeRow, EdgeRow, EventRow, PatchRow, Db, find_run, is_node, find_node, Tx, ◌>>=◌, ◌>>◌,
  pure, raise, gets, lift, transaction, for_each, set_state, update_state, has_run, insert_event,
  is_patch,
}

-- `cursor.rowcount` after `INSERT OR IGNORE INTO runs`
abbrev insert_run : String → Fields → Tx Bool
insert_run run context db =
    if has_run run db
    then ok (false, db)
    else ok (
      true,
      record db { runs = db.runs ++ record { id = run; finished = false; context = context } ∷ [] },
    )

start_body : String → Fields → Tx Bool
start_body run context = do
  created ← insert_run run context
  if created then (do insert_event run run_started none end; pure true) else pure false

unfoldable pub start : String → Fields → Db → Outcome GraphError Bool × Db
unfolding start_body
start run context = transaction (start_body run context)

abbrev context_of : String → Option RunRow → Outcome GraphError Fields
context_of run none = err (key_error run)
context_of run (some r) = ok r.context

unfoldable pub context : String → Db → Outcome GraphError Fields
context run db = context_of run (find_run run db.runs)

-- `WHERE run_id=? AND state=?`
abbrev pub in_state : String → NodeState → NodeRow → Bool
in_state run s n = n.run_id == run && n.state =ₛ s

unfoldable pub resume : String → Db → Outcome GraphError Unit × Db
resume run = transaction do
  found ← gets (has_run run)
  if found
      then (do
        update_state (in_state run running) pending
        insert_event run run_resumed none end
        pure tt)
      else raise (key_error run)

abbrev pub of_run : String → EventRow → Bool
of_run run e = e.run_id == run

-- The rows stand in the order of their sequence numbers: see Journal.
unfoldable pub events : String → Db → List Event
events run db = map (λ e. e.event) (filter (of_run run) db.events)

abbrev last : {A : Type 0} → List A → Option A
last [] = none
last (x ∷ []) = some x
last (x ∷ y ∷ xs) = last (y ∷ xs)

unfoldable pub latest_event : String → Db → Option Event
unfolding events
latest_event run db = last (events run db)

abbrev pub view : NodeRow → NodeView
view n = record {
  id = n.id;
  skill = n.skill;
  input = n.input;
  metadata = n.metadata;
  state = n.state;
  result = n.result;
}

abbrev pub view_le : NodeView → NodeView → Bool
view_le a b = text_le a.id b.id

abbrev pub pair_le : String × String → String × String → Bool
pair_le (a, b) (c, d) = if a == c then text_le b d else text_le a c

-- `SELECT parent_id, child_id FROM edges WHERE run_id=?`
abbrev pub edges_of : String → List EdgeRow → List (String × String)
edges_of run [] = []
edges_of run (e ∷ es) =
    let rest = edges_of run es in if e.run_id == run then (e.parent_id, e.child_id) ∷ rest else rest

abbrev pub views_of : String → List NodeRow → List NodeView
views_of run [] = []
views_of run (n ∷ ns) =
    let rest = views_of run ns in if n.run_id == run then view n ∷ rest else rest

abbrev snapshot_of : String → Db → Option RunRow → Outcome GraphError GraphSnapshot
snapshot_of run db none = err (key_error run)
snapshot_of run db (some r) = ok (record {
  run_id = run;
  finished = r.finished;
  nodes = sort_by view_le (views_of run db.nodes);
  edges = sort_by pair_le (edges_of run db.edges);
})

unfoldable pub snapshot : String → Db → Outcome GraphError GraphSnapshot
snapshot run db = snapshot_of run db (find_run run db.runs)

-- `EXISTS (SELECT 1 FROM edges e JOIN nodes p … WHERE e.child_id=n.id AND p.state != ?)`
abbrev pub unmet : Db → NodeRow → EdgeRow → Bool
unmet db n e =
    e.run_id == n.run_id
    && e.child_id == n.id
    && any (λ (p : NodeRow). is_node e.run_id e.parent_id p && not (p.state =ₛ succeeded)) db.nodes

abbrev pub is_ready : String → Db → NodeRow → Bool
is_ready run db n = in_state run pending n && not (any (unmet db n) db.edges)

abbrev pub row_le : NodeRow → NodeRow → Bool
row_le a b = text_le a.id b.id

abbrev pub spec : NodeRow → TaskSpec
spec n = record { id = n.id; skill = n.skill; input = n.input; metadata = n.metadata }

unfoldable pub ready : String → ℕ → Db → List TaskSpec
ready run limit db = map spec (take limit (sort_by row_le (filter (is_ready run db) db.nodes)))

-- `WHERE run_id=? AND id=? AND state=?`
abbrev pub node_in_state : String → String → NodeState → NodeRow → Bool
node_in_state run nid s n = is_node run nid n && n.state =ₛ s

abbrev pub started_payload : TaskSpec → Fields
started_payload task =
    field "skill" (str task.skill)
      (field "agent" (get_or "agent" (str task.skill) task.metadata) end)

abbrev pub start_task : String → TaskSpec → Tx Unit
start_task run task = do
  update_state (node_in_state run task.id pending) running
  insert_event run task_started (some task.id) (started_payload task)
  pure tt

unfoldable pub mark_running : String → List TaskSpec → Db → Outcome GraphError Unit × Db
mark_running run tasks = transaction (for_each (start_task run) tasks)

-- `UPDATE nodes SET state=?, result_json=? WHERE …` and its rowcount.
unfoldable pub set_result : (NodeRow → Bool) → NodeState → Fields → List NodeRow → List NodeRow
set_result test s payload =
    map (λ n. if test n then record n { state = s; result = some payload } else n)

unfoldable pub rowcount : (NodeRow → Bool) → List NodeRow → ℕ
rowcount test [] = 0
rowcount test (n ∷ ns) = if test n then suc (rowcount test ns) else rowcount test ns

abbrev pub outcome_state : Bool → NodeState
outcome_state true = succeeded
outcome_state false = failed

abbrev pub outcome_kind : Bool → String
outcome_kind true = task_succeeded
outcome_kind false = task_failed

abbrev update_result : String → String → Bool → Fields → Tx ℕ
update_result run nid success payload db = ok (
  rowcount (node_in_state run nid running) db.nodes,
  record db {
    nodes = set_result (node_in_state run nid running) (outcome_state success) payload db.nodes;
  },
)

unfoldable pub record_outcome : String → String → Bool → Fields → Db → Outcome GraphError Event × Db
record_outcome run nid success payload = transaction do
  count ← update_result run nid success payload
  if eqb count 1
      then insert_event run (outcome_kind success) (some nid) payload
      else raise (not_running nid)

abbrev pub triggers_planner : String → Bool
triggers_planner kind = kind == run_started || kind == task_succeeded || kind == task_failed

abbrev pub is_pending_event : String → Db → EventRow → Bool
is_pending_event run db e =
    e.run_id == run
    && triggers_planner e.event.kind
    && not (any (is_patch run e.event.sequence) db.patches)

unfoldable pub pending_planner_events : String → Db → List Event
pending_planner_events run db = map (λ e. e.event) (filter (is_pending_event run db) db.events)

abbrev pub finished_of : Option RunRow → Bool
finished_of none = false
finished_of (some r) = r.finished

unfoldable pub is_finished : String → Db → Bool
is_finished run db = finished_of (find_run run db.runs)

abbrev pub state_of : String → Option NodeRow → Outcome GraphError NodeState
state_of nid none = err (key_error nid)
state_of nid (some n) = ok n.state

unfoldable pub node_state : String → String → Db → Outcome GraphError NodeState
node_state run nid db = state_of nid (find_node run nid db.nodes)

unfoldable pub record_external_event :
    String → String → String → Fields → Db → Outcome GraphError Event × Db
record_external_event run kind nid payload = transaction do
  found ← gets (has_run run)
  if found then insert_event run kind (some nid) payload else raise (key_error run)
