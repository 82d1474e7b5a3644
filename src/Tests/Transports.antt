-- ===== src/Tests/Transports.antt =====
-- The doors of the A2A adapter and its bridge to the graph at concrete inputs.
use s13code.Prelude.{arith, true, false, none, some, List, [], ◌∷◌, ◌≡◌, refl}
use s13code.Json.{end}
use s13code.Graph.Types.{waiting}
use s13code.Graph.Db.{Db, empty}
use s13code.Chunking.Text.{codes}
use s13code.A2a.Server.{Task, completed, Submission, find_task, no_tasks}
use s13code.A2a.Transports.{
  Credentials, Gate, bearer, rpc_allows, servicer_allows, message_send, tasks_cancel, send_message,
  delete_config_of, Adapter, Act, over_http, over_grpc, acts,
}
use s13code.A2a.Transports.Refines.{rpc_allows-servicer_allows}
use s13code.A2a.Transports.Guarded.{Stranger, done, kept, no_http, no_grpc, acts-Ended}
use s13code.A2a.Bridge.{RemoteTask, finish_dispatch}
use s13code.A2a.Bridge.Waiting.{Resumes, finish_dispatch-Resumes}

abbrev gate : Gate
gate = record { bearer_tokens = codes "token" ∷ []; api_keys = codes "key" ∷ [] }

abbrev with_token : Credentials
with_token = record { authorization = codes "BEARER token"; api_key = none }

abbrev with_nothing : Credentials
with_nothing = record { authorization = []; api_key = none }

admitted :
    (rpc_allows gate with_token ≡ true)
    × (servicer_allows gate with_token ≡ true)
    × (rpc_allows gate with_nothing ≡ false)
unfolding rpc_allows servicer_allows bearer
admitted = (refl, refl, refl)

rpc_allows-servicer_allows_example : rpc_allows gate with_token ≡ servicer_allows gate with_token
rpc_allows-servicer_allows_example = rpc_allows-servicer_allows gate with_token refl

abbrev slow_message : Submission
slow_message = record {
  id = "t";
  context_id = "c";
  text = "slow";
  slow = true;
  callback_url = none;
  callback_token = none;
  now = "1";
}

abbrev old_task : Task
old_task = record {
  id = "old";
  context_id = "c";
  text = "slow";
  state = completed;
  artifacts = [];
  callback_url = none;
  callback_token = none;
  updated_at = "0";
}

abbrev adapter : Adapter
adapter = record {
  server = record no_tasks { tasks = old_task ∷ []; rows = old_task ∷ [] };
  pushes = [];
}

-- A stranger sends a message and deletes a configuration; a caller with a token sends and cancels.
abbrev history : List Act
history =
    over_http with_nothing (message_send slow_message)
    ∷ over_grpc with_token (send_message slow_message)
    ∷ over_grpc with_nothing (delete_config_of "old" "h")
    ∷ over_http with_token (tasks_cancel "old" "2")
    ∷ []

abbrev what_counts : List Act
what_counts =
    over_grpc with_token (send_message slow_message)
    ∷ over_http with_token (tasks_cancel "old" "2")
    ∷ []

nobody : Stranger gate with_nothing
unfolding bearer
nobody = record { closed = refl; token = refl; key = λ k e. absurd (ground arith) }

acts-Ended_example :
    (acts gate gate adapter history ≡ acts gate gate adapter what_counts)
    × (find_task "old" (acts gate gate adapter history).server.tasks ≡ some old_task)
acts-Ended_example =
    acts-Ended gate gate adapter history what_counts "old" old_task
      (no_http with_nothing (message_send slow_message) nobody (
        kept (over_grpc with_token (send_message slow_message)) (
          no_grpc with_nothing (delete_config_of "old" "h") nobody
            (kept (over_http with_token (tasks_cancel "old" "2")) done))))
      (λ nid. refl) refl refl refl refl

abbrev tables : Db
tables = record empty {
  runs = record { id = "r"; finished = false; context = end } ∷ [];
  nodes =
      record {
        run_id = "r";
        id = "n";
        skill = "remote";
        input = end;
        metadata = end;
        state = waiting;
        result = none;
      }
      ∷ [];
}

abbrev final : RemoteTask
final = record { id = "t"; state = 3; artifact_ids = [] }

finish_dispatch-Resumes_example : Resumes "r" "n" tables (finish_dispatch "r" "n" final tables).1
finish_dispatch-Resumes_example = finish_dispatch-Resumes "r" "n" final tables (refl, tt)
