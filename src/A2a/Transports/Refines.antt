-- ===== src/A2a/Transports/Refines.antt =====
-- The callers that `rpc` and `OfficialA2AServicer` admit, and their calls as steps of the task
-- machine of core/a2a_adapter/server.py.
use s13code.Prelude.{
  false, not, ◌&&◌, ◌||◌, Option, none, some, List, [], ◌∷◌, ◌++◌, ◌≡◌, refl, sym, ap, ◌∙◌, inl,
  inr, Bool-cases, if◌then◌else◌,
}
use s13code.Chunking.Text.{Text}
use s13code.A2a.Server.{Server, Step, sends, streams, cancels, step, steps}
use s13code.A2a.Transports.{
  Credentials, Gate, has, is_given, is_closed, bearer_allows, key_text, key_in, rpc_allows,
  servicer_allows, Method, message_send, message_stream, tasks_get, tasks_cancel, other, dispatch,
  rpc, Rpc, Reply, when_admitted, send_message, send_streaming_message, get_task, subscribe_to_task,
  cancel_task, create_config, get_config_of, list_configs_of, delete_config_of, Adapter, servicer,
  Act, over_http, over_grpc, inside, act, acts,
}

-- If the empty text is no API key of the adapter, the JSON-RPC endpoint and the gRPC servicer
-- admit the same credentials.
pub rpc_allows-servicer_allows :
    (gate : Gate) (given : Credentials)
    → has [] gate.api_keys ≡ false
    → rpc_allows gate given ≡ servicer_allows gate given
unfolding rpc_allows servicer_allows
rpc_allows-servicer_allows gate given h =
    ap (λ b. not (is_closed gate) || bearer_allows gate given || b) (keys given.api_key)
  where
    keys :
        (o : Option Text)
        → (is_given (key_text o) && has (key_text o) gate.api_keys) ≡ key_in gate.api_keys o
    keys none = refl
    keys (some []) = sym h
    keys (some (c ∷ key)) = refl

steps_append : (s : Server) (xs ys : List Step) → steps s (xs ++ ys) ≡ steps (steps s xs) ys
unfolding steps
steps_append s [] ys = refl
steps_append s (x ∷ xs) ys = steps_append (step s x) xs ys

-- The steps of the machine that a method takes.
abbrev pub method_steps : Method → List Step
method_steps (message_send m) = sends m ∷ []
method_steps (message_stream m) = streams m ∷ []
method_steps (tasks_get id) = []
method_steps (tasks_cancel id now) = cancels id now ∷ []
method_steps (other name) = []

abbrev pub rpc_steps : Rpc → List Step
rpc_steps (send_message m) = sends m ∷ []
rpc_steps (send_streaming_message m) = streams m ∷ []
rpc_steps (cancel_task id now) = cancels id now ∷ []
rpc_steps (get_task id) = []
rpc_steps (subscribe_to_task id) = []
rpc_steps (create_config c) = []
rpc_steps (get_config_of id) = []
rpc_steps (list_configs_of task) = []
rpc_steps (delete_config_of task id) = []

-- Only the calls that are admitted take steps.
abbrev pub act_steps : Gate → Gate → Act → List Step
act_steps http grpc (over_http given method) =
    if rpc_allows http given then method_steps method else []
act_steps http grpc (over_grpc given call) =
    if servicer_allows grpc given then rpc_steps call else []
act_steps http grpc (inside x) = x ∷ []

abbrev pub acts_steps : Gate → Gate → List Act → List Step
acts_steps http grpc [] = []
acts_steps http grpc (x ∷ xs) = act_steps http grpc x ++ acts_steps http grpc xs

dispatch-steps :
    (method : Method) (s : Server) → (dispatch method s).1 ≡ steps s (method_steps method)
unfolding steps step
dispatch-steps (message_send m) s = refl
dispatch-steps (message_stream m) s = refl
dispatch-steps (tasks_get id) s = refl
dispatch-steps (tasks_cancel id now) s = refl
dispatch-steps (other name) s = refl

when_admitted-steps :
    (gate : Gate) (given : Credentials) (a : Adapter) (next : Reply × Adapter) (xs : List Step)
    → next.1.server ≡ steps a.server xs
    → (when_admitted gate given a next).1.server
      ≡ steps a.server (if servicer_allows gate given then xs else [])
unfolding steps
when_admitted-steps gate given a next xs h = elim (Bool-cases (servicer_allows gate given)) [
  | inl e ↦ rw e h
  | inr e ↦ rw e refl
]

servicer-steps :
    (gate : Gate) (given : Credentials) (call : Rpc) (a : Adapter)
    → (servicer gate given call a).1.server
      ≡ steps a.server (if servicer_allows gate given then rpc_steps call else [])
unfolding servicer steps step
servicer-steps gate given (send_message m) a = when_admitted-steps gate given a _ _ refl
servicer-steps gate given (send_streaming_message m) a = when_admitted-steps gate given a _ _ refl
servicer-steps gate given (get_task id) a = when_admitted-steps gate given a _ _ refl
servicer-steps gate given (subscribe_to_task id) a = when_admitted-steps gate given a _ _ refl
servicer-steps gate given (cancel_task id now) a = when_admitted-steps gate given a _ _ refl
servicer-steps gate given (create_config c) a = when_admitted-steps gate given a _ _ refl
servicer-steps gate given (get_config_of id) a = when_admitted-steps gate given a _ _ refl
servicer-steps gate given (list_configs_of task) a = when_admitted-steps gate given a _ _ refl
servicer-steps gate given (delete_config_of task id) a = when_admitted-steps gate given a _ _ refl

act-steps :
    (http grpc : Gate) (a : Adapter) (x : Act)
    → (act http grpc a x).server ≡ steps a.server (act_steps http grpc x)
unfolding act rpc steps
act-steps http grpc a (over_http given method) = elim (Bool-cases (rpc_allows http given)) [
  | inl e ↦ rw (e, rpc, act, act_steps) (dispatch-steps method a.server)
  | inr e ↦ rw (e, rpc, act, act_steps) refl
]
act-steps http grpc a (over_grpc given call) = servicer-steps grpc given call a
act-steps http grpc a (inside x) = refl

-- The server after a history of calls and of pieces of the work inside.
pub acts-steps :
    (http grpc : Gate) (a : Adapter) (xs : List Act)
    → (acts http grpc a xs).server ≡ steps a.server (acts_steps http grpc xs)
unfolding steps
acts-steps http grpc a [] = refl
acts-steps http grpc a (x ∷ xs) =
    acts-steps http grpc (act http grpc a x) xs
    ∙ ap (λ s. steps s (acts_steps http grpc xs)) (act-steps http grpc a x)
    ∙ sym (steps_append a.server (act_steps http grpc x) (acts_steps http grpc xs))
