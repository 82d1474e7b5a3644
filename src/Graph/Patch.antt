-- ===== src/Graph/Patch.antt =====
-- `GraphStore.apply_patch` of core/live_graph/store.py: the checks, and the statements after them.
pub mod Effect
pub mod Apart
pub mod Settle
pub mod Checks
pub mod Frame
pub mod Stages
pub mod Commit
use s13code.Prelude.{
  ℕ, String, Bool, true, false, not, ◌&&◌, ◌||◌, ◌==◌, Option, none, some, List, [], ◌∷◌, ◌++◌, map,
  Outcome, ok, err, ensure, if◌then◌else◌, any, elem, has_duplicates,
}
use s13code.Json.{Json, Items, Fields, nil, cons, bool, num, str, arr, field, end}
use s13code.Graph.Types.{
  NodeState, pending, running, cancelled, waiting, ◌=ₛ◌, TaskSpec, GraphPatch, task_cancelled,
  graph_patched, NodeView, GraphSnapshot, GraphError, finished_graph, duplicate_task,
  self_dependency, dependency_cycle, unknown_edge, unknown_task, not_pending, not_waiting,
  not_cancellable, key_error, depth_exceeded,
}
use s13code.Graph.Db.{
  RunRow, NodeRow, Db, is_node, Tx, ◌>>=◌, ◌>>◌, pure, raise, gets, lift, transaction, for_each,
  update_state, insert_event, insert_node, insert_edge, insert_patch, is_patch,
}
use s13code.Graph.Cycle.{has_cycle}
use s13code.Graph.Store.{snapshot, edges_of}

unfoldable pub then_check :
    Outcome GraphError Unit → Outcome GraphError Unit → Outcome GraphError Unit
then_check (ok _) k = k
then_check (err e) k = err e

-- `for x in xs: check(x)`
abbrev pub check_each :
    {A : Type 0} → (A → Outcome GraphError Unit) → List A → Outcome GraphError Unit
check_each check [] = ok tt
check_each check (x ∷ xs) = then_check (check x) (check_each check xs)

-- NodeState.PENDING, WAITING or RUNNING
abbrev pub is_open : NodeState → Bool
is_open s = s =ₛ pending || s =ₛ waiting || s =ₛ running

-- `existing.nodes`, read by a key.
abbrev pub find_view : String → List NodeView → Option NodeView
find_view nid [] = none
find_view nid (v ∷ vs) = if v.id == nid then some v else find_view nid vs

abbrev pub view_ids : List NodeView → List String
view_ids vs = map (λ v. v.id) vs

abbrev pub add_ids : GraphPatch → List String
add_ids patch = map (λ t. t.id) patch.add

unfoldable pub check_edge : List String → String × String → Outcome GraphError Unit
check_edge all_ids (parent, child) =
    then_check (ensure (elem parent all_ids && elem child all_ids) (unknown_edge parent child))
      (ensure (not (parent == child)) self_dependency)

-- `existing.nodes[nid]` raises KeyError for a task that the same patch adds.
unfoldable pub check_cancel : List NodeView → String → Outcome GraphError Unit
check_cancel nodes nid = elim (find_view nid nodes) [
  | none ↦ err (key_error nid)
  | some v ↦ ensure (is_open v.state) (not_cancellable nid v.state)
]

unfoldable pub check_state :
    NodeState → GraphError → List NodeView → String → Outcome GraphError Unit
check_state s error nodes nid = elim (find_view nid nodes) [
  | none ↦ ok tt
  | some v ↦ ensure (v.state =ₛ s) error
]

unfoldable pub check_wait : List NodeView → String → Outcome GraphError Unit
unfolding check_state
check_wait nodes nid = check_state pending (not_pending nid) nodes nid

unfoldable pub check_resume : List NodeView → String → Outcome GraphError Unit
unfolding check_state
check_resume nodes nid = check_state waiting (not_waiting nid) nodes nid

-- Every check that stands before the first INSERT, in the order of the source.
unfoldable pub check_patch : GraphSnapshot → GraphPatch → Outcome GraphError Unit
unfolding check_edge check_cancel check_wait check_resume
check_patch existing patch =
    let ids = view_ids existing.nodes in
    let all_ids = ids ++ add_ids patch in
    then_check (ensure (not existing.finished) finished_graph) (
      then_check
        (ensure (not (has_duplicates (add_ids patch) || any (λ x. elem x ids) (add_ids patch)))
          duplicate_task)
        (then_check (check_each (check_edge all_ids) patch.connect) (
          then_check
            (check_each (λ nid. ensure (elem nid all_ids) (unknown_task nid))
              (patch.cancel ++ patch.wait ++ patch.resume))
            (then_check (check_each (check_cancel existing.nodes) patch.cancel) (
              then_check (check_each (check_wait existing.nodes) patch.wait)
                (check_each (check_resume existing.nodes) patch.resume))))))

abbrev pub was_running : List NodeView → String → Bool
was_running nodes nid = elim (find_view nid nodes) [ none ↦ false | some v ↦ v.state =ₛ running ]

abbrev pub cancel_payload : String → Bool → Fields
cancel_payload reason was = field "reason" (str reason) (field "was_running" (bool was) end)

unfoldable pub cancel_task : String → String → List NodeView → String → Tx Unit
cancel_task run reason nodes nid = do
  update_state (is_node run nid) cancelled
  insert_event run task_cancelled (some nid) (cancel_payload reason (was_running nodes nid))
  pure tt

unfoldable pub put_state : String → NodeState → String → Tx Unit
put_state run s nid = update_state (is_node run nid) s

-- `SELECT id, state FROM nodes WHERE run_id=? AND state IN (?, ?, ?)`
abbrev pub leftovers : String → List NodeRow → List (String × NodeState)
leftovers run [] = []
leftovers run (n ∷ ns) =
    let rest = leftovers run ns in
    if n.run_id == run && is_open n.state then (n.id, n.state) ∷ rest else rest

unfoldable pub cancel_leftover : String → String × NodeState → Tx Unit
cancel_leftover run (nid, s) = do
  update_state (is_node run nid) cancelled
  insert_event run task_cancelled (some nid) (cancel_payload "graph finished" (s =ₛ running))
  pure tt

-- `UPDATE runs SET finished=1 WHERE id=?`
abbrev pub finish_runs : String → List RunRow → List RunRow
finish_runs run [] = []
finish_runs run (r ∷ rs) =
    (if r.id == run then record r { finished = true } else r) ∷ finish_runs run rs

unfoldable pub finish_run : String → Tx Unit
unfolding cancel_leftover
finish_run run = do
  rest ← gets (λ db. leftovers run db.nodes)
  for_each (cancel_leftover run) rest
  λ db. ok (tt, record db { runs = finish_runs run db.runs })

abbrev pub strings : List String → Items
strings [] = nil
strings (x ∷ xs) = cons (str x) (strings xs)

abbrev pub pairs : List (String × String) → Items
pairs [] = nil
pairs ((a, b) ∷ xs) = cons (arr (cons (str a) (cons (str b) nil))) (pairs xs)

abbrev pub patch_json : GraphPatch → Fields
patch_json patch = field "reason" (str patch.reason) (
    field "add" (arr (strings (add_ids patch))) (
      field "connect" (arr (pairs patch.connect)) (
        field "cancel" (arr (strings patch.cancel)) (
          field "wait" (arr (strings patch.wait)) (
            field "resume" (arr (strings patch.resume))
              (field "finish" (bool patch.finish) end))))))

abbrev pub cycle_result : Option Bool → Outcome GraphError Bool
cycle_result none = err depth_exceeded
cycle_result (some b) = ok b

unfoldable pub reject_cycle : String → Tx Unit
reject_cycle run = do
  cycle ← (λ db. lift (cycle_result (has_cycle (edges_of run db.edges))) db)
  lift (ensure (not cycle) dependency_cycle)

-- The statements that follow the checks.
unfoldable pub write_patch : String → GraphPatch → GraphSnapshot → ℕ → Tx Bool
unfolding cancel_task put_state finish_run reject_cycle
write_patch run patch existing trigger = do
  for_each (insert_node run) patch.add
  for_each (insert_edge run) patch.connect
  reject_cycle run
  for_each (cancel_task run patch.reason existing.nodes) patch.cancel
  for_each (put_state run waiting) patch.wait
  for_each (put_state run pending) patch.resume
  if patch.finish then finish_run run else pure tt
  insert_event run graph_patched none (field "trigger_event" (num trigger) (patch_json patch))
  insert_patch run trigger (patch_json patch)
  pure true

unfoldable pub apply_new : String → GraphPatch → ℕ → Tx Bool
unfolding check_patch write_patch
apply_new run patch trigger = do
  existing ← (λ db. lift (snapshot run db) db)
  lift (check_patch existing patch)
  write_patch run patch existing trigger

unfoldable pub apply_patch : String → GraphPatch → ℕ → Db → Outcome GraphError Bool × Db
unfolding apply_new
apply_patch run patch trigger = transaction do
  applied ← gets (λ db. any (is_patch run trigger) db.patches)
  if applied then pure false else apply_new run patch trigger
