-- ===== src/Graph/Types.antt =====
-- The data of core/live_graph/core.py: node states, task specifications, patches, events.
use s13code.Prelude.{ℕ, String, Bool, Option, List, eqb}
use s13code.Json.{Fields}

pub data NodeState : Type 0 where
  pending running succeeded failed cancelled waiting : NodeState

abbrev pub rank : NodeState → ℕ
rank pending = 0
rank running = 1
rank succeeded = 2
rank failed = 3
rank cancelled = 4
rank waiting = 5

infix 50 ◌=ₛ◌
abbrev pub ◌=ₛ◌ : NodeState → NodeState → Bool
s =ₛ t = eqb (rank s) (rank t)

pub record TaskSpec : Type 0 where
  pub id : String
  pub skill : String
  pub input : Fields
  pub metadata : Fields

pub record GraphPatch : Type 0 where
  pub add : List TaskSpec
  pub connect : List (String × String)
  pub cancel : List String
  pub wait : List String
  pub resume : List String
  pub finish : Bool
  pub reason : String

-- Event kinds are texts; those that the store writes itself have names here.
abbrev pub run_started : String
run_started = "run_started"

abbrev pub run_resumed : String
run_resumed = "run_resumed"

abbrev pub task_started : String
task_started = "task_started"

abbrev pub task_succeeded : String
task_succeeded = "task_succeeded"

abbrev pub task_failed : String
task_failed = "task_failed"

abbrev pub task_cancelled : String
task_cancelled = "task_cancelled"

abbrev pub graph_patched : String
graph_patched = "graph_patched"

pub record Event : Type 0 where
  pub sequence : ℕ
  pub kind : String
  pub node_id : Option String
  pub payload : Fields

-- A node as a snapshot shows it.
pub record NodeView : Type 0 where
  pub id : String
  pub skill : String
  pub input : Fields
  pub metadata : Fields
  pub state : NodeState
  pub result : Option Fields

pub record GraphSnapshot : Type 0 where
  pub run_id : String
  pub finished : Bool
  pub nodes : List NodeView
  pub edges : List (String × String)

-- What a method of the store raises: KeyError, GraphMutationError with its message, or SQLite's
-- IntegrityError for a foreign or a primary key. `depth_exceeded` stands for a recursion of
-- `_has_cycle` cut short.
pub data GraphError : Type 0 where
  key_error : String → GraphError
  finished_graph duplicate_task self_dependency dependency_cycle : GraphError
  unknown_edge : String → String → GraphError
  unknown_task not_pending not_waiting not_running : String → GraphError
  not_cancellable : String → NodeState → GraphError
  foreign_key primary_key depth_exceeded : GraphError
