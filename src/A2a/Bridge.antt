-- ===== src/A2a/Bridge.antt =====
-- `A2AGraphBridge` of core/a2a_adapter/official.py: a waiting node of the graph and its remote task.
pub mod Waiting
use s13code.Prelude.{
  ℕ, String, Bool, true, false, not, ◌&&◌, ◌==◌, Option, none, some, List, [], ◌∷◌, Outcome, ok,
  err, if◌then◌else◌,
}
use s13code.Json.{Fields, str, num, arr, Items, nil, cons, end, field}
use s13code.Graph.Types.{NodeState, waiting, ◌=ₛ◌, GraphPatch, Event, GraphError}
use s13code.Graph.Db.{Db}
use s13code.Graph.Store.{node_state, record_external_event}
use s13code.Graph.Patch.{apply_patch}

-- What the bridge reads of a remote task; its state is a number of the protocol.
pub record RemoteTask : Type 0 where
  pub id : String
  pub state : ℕ
  pub artifact_ids : List String

abbrev pub Key : Type 0
Key = String × String

abbrev pub remember {ℓ} : {A : Type ℓ} → Key → A → List (Key × A) → List (Key × A)
remember key value entries = (key, value) ∷ entries

-- The last value that was stored under a key.
abbrev pub lookup {ℓ} : {A : Type ℓ} → Key → List (Key × A) → Option A
lookup key [] = none
lookup (run, node) (((r, n), value) ∷ entries) =
    if r == run && n == node then some value else lookup (run, node) entries

pub record Bridge : Type 0 where
  pub remote_ids : List (Key × String)
  pub results : List (Key × RemoteTask)

pub data BridgeError : Type 0 where
  must_be_waiting : String → BridgeError
  unknown_remote : BridgeError
  of_store : GraphError → BridgeError

abbrev pub await_remote : Outcome GraphError NodeState → String → Outcome BridgeError Unit
await_remote (err e) node = err (of_store e)
await_remote (ok s) node = if s =ₛ waiting then ok tt else err (must_be_waiting node)

abbrev pub started :
    Outcome BridgeError Unit → Key → String → Bridge → Outcome BridgeError Unit × Bridge
started (err e) key remote_id bridge = (err e, bridge)
started (ok _) key remote_id bridge =
    (ok tt, record bridge { remote_ids = remember key remote_id bridge.remote_ids })

-- `dispatch_waiting` up to the subscription: `remote_id` is what the remote start gives.
unfoldable pub begin_dispatch :
    String → String → String → Db → Bridge → Outcome BridgeError Unit × Bridge
begin_dispatch run node remote_id db bridge =
    started (await_remote (node_state run node db) node) (run, node) remote_id bridge

abbrev pub remote_payload : RemoteTask → Fields
remote_payload final = field "remote_task_id" (str final.id) (field "state" (num final.state) end)

abbrev pub resume_patch : String → GraphPatch
resume_patch node = record {
  add = [];
  connect = [];
  cancel = [];
  wait = [];
  resume = node ∷ [];
  finish = false;
  reason = "official A2A subscription completed";
}

abbrev pub forget_answer : Outcome GraphError Bool × Db → Outcome GraphError Unit × Db
forget_answer (ok applied, db) = (ok tt, db)
forget_answer (err e, db) = (err e, db)

-- The second test of the state, after the subscription.
abbrev pub resume_if :
    Outcome GraphError NodeState → String → String → Event → Db → Outcome GraphError Unit × Db
resume_if (err e) run node event db = (err e, db)
resume_if (ok s) run node event db = elim (s =ₛ waiting) [
  | true ↦ forget_answer (apply_patch run (resume_patch node) event.sequence db)
  | false ↦ (ok tt, db)
]

abbrev pub after_event :
    Outcome GraphError Event × Db → String → String → Outcome GraphError Unit × Db
after_event (err e, db) run node = (err e, db)
after_event (ok event, db) run node = resume_if (node_state run node db) run node event db

-- `dispatch_waiting` from the end of the subscription on, in the tables.
unfoldable pub finish_dispatch : String → String → RemoteTask → Db → Outcome GraphError Unit × Db
finish_dispatch run node final db =
    after_event (record_external_event run "a2a_task_completed" node (remote_payload final) db) run
      node

-- The same, in the bridge.
unfoldable pub keep_result : String → String → RemoteTask → Bridge → Bridge
keep_result run node final bridge = record bridge {
  results = remember (run, node) final bridge.results;
}

abbrev ids_items : List String → Items
ids_items [] = nil
ids_items (id ∷ ids) = cons (str id) (ids_items ids)

abbrev pub skill_result : RemoteTask → Fields
skill_result final =
    field "remote_task_id" (str final.id)
      (field "state" (num final.state) (field "artifacts" (arr (ids_items final.artifact_ids)) end))

-- `result_skill`; a key that is not there is a KeyError.
unfoldable pub result_skill : String → String → Bridge → Outcome BridgeError Fields
result_skill run node bridge = elim (lookup (run, node) bridge.results) [
  | none ↦ err unknown_remote
  | some final ↦ ok (skill_result final)
]

abbrev pub noted : Outcome GraphError Event × Db → Outcome BridgeError Unit × Db
noted (ok event, db) = (ok tt, db)
noted (err e, db) = (err (of_store e), db)

-- `cancel_node`; `final` is what the remote cancel gives.
unfoldable pub cancel_node :
    String → String → RemoteTask → Db → Bridge → Outcome BridgeError Unit × Db
cancel_node run node final db bridge = elim (lookup (run, node) bridge.remote_ids) [
  | none ↦ (err unknown_remote, db)
  | some remote_id ↦ noted (
      record_external_event run "a2a_task_cancelled" node
        (field "remote_task_id" (str remote_id) (field "state" (num final.state) end)) db)
]
