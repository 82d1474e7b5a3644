-- ===== src/A2a/Transports.antt =====
-- The two doors to the tasks: `rpc` of core/a2a_adapter/server.py and `OfficialA2AServicer` of
-- core/a2a_adapter/official.py. A call is what it does up to its first await that lets others run.
pub mod Refines
pub mod Guarded
use Prim.Native.String.{String}
use s13code.Prelude.{
  ℕ, ◌+◌, Bool, true, false, not, ◌&&◌, ◌||◌, Option, none, some, List, [], ◌∷◌, map, take, length,
  eqb, leb, any, if◌then◌else◌,
}
use s13code.Chunking.Text.{Text, codes, drop, starts_with}
use s13code.A2a.Server.{
  Task, Submission, Server, find_task, send, stream, cancel, Step, makes_job, streams_on, wakes,
  completes, restarts, step,
}
use s13code.A2a.PushConfigs.{PushConfig, put_config, get_config, list_configs, delete_config}

-- The headers, or the metadata, of a call.
pub record Credentials : Type 0 where
  pub authorization : Text
  pub api_key : Option Text

pub record Gate : Type 0 where
  pub bearer_tokens : List Text
  pub api_keys : List Text

abbrev same : Text → Text → Bool
same s t = eqb (length s) (length t) && starts_with s t

-- `text in set`
abbrev pub has : Text → List Text → Bool
has s texts = any (same s) texts

abbrev pub is_given : Text → Bool
is_given [] = false
is_given (c ∷ s) = true

-- `str.lower` on the letters that "bearer " can match
abbrev lower : ℕ → ℕ
lower c = if leb b'A' c && leb c b'Z' then c + 32 else c

-- The token behind "Bearer ", in any case, or the empty text.
unfoldable pub bearer : Text → Text
bearer authorization =
    if starts_with (map lower (take 7 authorization)) (codes "bearer ")
    then drop 7 authorization
    else []

abbrev pub is_closed : Gate → Bool
is_closed gate = any (λ _. true) gate.bearer_tokens || any (λ _. true) gate.api_keys

abbrev pub bearer_allows : Gate → Credentials → Bool
bearer_allows gate given =
    let token = bearer given.authorization in is_given token && has token gate.bearer_tokens

-- `request.headers.get("x-api-key", "")`
abbrev pub key_text : Option Text → Text
key_text none = []
key_text (some key) = key

-- The test at the head of `rpc`.
unfoldable pub rpc_allows : Gate → Credentials → Bool
rpc_allows gate given =
    let key = key_text given.api_key in
    not (is_closed gate) || bearer_allows gate given || is_given key && has key gate.api_keys

abbrev pub key_in : List Text → Option Text → Bool
key_in keys none = false
key_in keys (some key) = has key keys

-- `_auth` of the servicer; without it the call is aborted.
unfoldable pub servicer_allows : Gate → Credentials → Bool
servicer_allows gate given =
    not (is_closed gate) || bearer_allows gate given || key_in gate.api_keys given.api_key

pub data Method : Type 0 where
  message_send message_stream : Submission → Method
  tasks_get : String → Method
  tasks_cancel : String → String → Method
  other : String → Method

-- What a call gives at once; `will_give` is a task whose later state is the answer.
pub data Reply : Type 0 where
  unauthenticated done not_found : Reply
  gives : Task → Reply
  will_give : String → Reply
  unknown_method : String → Reply
  config : PushConfig → Reply
  configs : List PushConfig → Reply

abbrev found : Option Task → Reply
found none = not_found
found (some task) = gives task

abbrev pub dispatch : Method → Server → Reply × Server
dispatch (message_send m) s = (will_give m.id, send m s)
dispatch (message_stream m) s = (will_give m.id, stream m s)
dispatch (tasks_get id) s = (found (find_task id s.tasks), s)
dispatch (tasks_cancel id now) s = let s' = cancel id now s in (found (find_task id s'.tasks), s')
dispatch (other name) s = (unknown_method name, s)

unfoldable pub rpc : Gate → Credentials → Method → Server → Reply × Server
rpc gate given method s = elim (rpc_allows gate given) [
  | true ↦ dispatch method s
  | false ↦ (unauthenticated, s)
]

-- The methods of the servicer.
pub data Rpc : Type 0 where
  send_message send_streaming_message : Submission → Rpc
  get_task subscribe_to_task : String → Rpc
  cancel_task : String → String → Rpc
  create_config : PushConfig → Rpc
  get_config_of list_configs_of : String → Rpc
  delete_config_of : String → String → Rpc

pub record Adapter : Type 0 where
  pub server : Server
  pub pushes : List PushConfig

abbrev config_found : Option PushConfig → Reply
config_found none = not_found
config_found (some c) = config c

abbrev deleted : Bool → Reply
deleted true = done
deleted false = not_found

-- `await self._auth(context)`, and what follows it in a method.
abbrev pub when_admitted : Gate → Credentials → Adapter → Reply × Adapter → Reply × Adapter
when_admitted gate given a follows =
    if servicer_allows gate given then follows else (unauthenticated, a)

-- Each method awaits `_auth` itself.
unfoldable pub servicer : Gate → Credentials → Rpc → Adapter → Reply × Adapter
servicer gate given (send_message m) a =
    when_admitted gate given a (will_give m.id, record a { server = send m a.server })
servicer gate given (send_streaming_message m) a =
    when_admitted gate given a (will_give m.id, record a { server = stream m a.server })
servicer gate given (get_task id) a =
    when_admitted gate given a (found (find_task id a.server.tasks), a)
servicer gate given (cancel_task id now) a =
    let s' = cancel id now a.server in
    when_admitted gate given a (found (find_task id s'.tasks), record a { server = s' })
servicer gate given (subscribe_to_task id) a =
    when_admitted gate given a (found (find_task id a.server.tasks), a)
servicer gate given (create_config c) a =
    when_admitted gate given a (config c, record a { pushes = put_config c a.pushes })
servicer gate given (get_config_of id) a =
    when_admitted gate given a (config_found (get_config id a.pushes), a)
servicer gate given (list_configs_of task) a =
    when_admitted gate given a (configs (list_configs task a.pushes), a)
servicer gate given (delete_config_of task id) a =
    let (was, rest) = delete_config task id a.pushes in
    when_admitted gate given a (deleted was, record a { pushes = rest })

-- A call from outside, or a piece of the work that goes on inside.
pub data Act : Type 0 where
  over_http : Credentials → Method → Act
  over_grpc : Credentials → Rpc → Act
  inside : Step → Act

unfoldable pub act : Gate → Gate → Adapter → Act → Adapter
act http grpc a (over_http given method) = record a { server = (rpc http given method a.server).1 }
act http grpc a (over_grpc given call) = (servicer grpc given call a).1
act http grpc a (inside x) = record a { server = step a.server x }

abbrev pub acts : Gate → Gate → Adapter → List Act → Adapter
acts http grpc a [] = a
acts http grpc a (x ∷ xs) = acts http grpc (act http grpc a x) xs
