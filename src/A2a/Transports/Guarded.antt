-- ===== src/A2a/Transports/Guarded.antt =====
-- Strangers at the two doors, `rpc` of core/a2a_adapter/server.py and `OfficialA2AServicer` of
-- core/a2a_adapter/official.py, and the tasks that have ended.
use s13code.Prelude.{
  String, ◌≡◌, refl, ◌∙◌, ap, Bool, true, false, ◌&&◌, ◌==◌, Option, none, some, List, [], ◌∷◌,
  arith, any, if◌then◌else◌,
}
use s13code.Prelude.Members.{any-append}
use s13code.Chunking.Text.{Text}
use s13code.A2a.Server.{Task, Server, find_task, is_terminal, works_on, Step}
use s13code.A2a.Server.Saved.{Saved}
use s13code.A2a.Server.Ended.{submits}
use s13code.A2a.Server.Terminal.{steps-Ended}
use s13code.A2a.Transports.{
  Credentials, Gate, has, bearer, is_given, is_closed, key_text, key_in, rpc_allows,
  servicer_allows, Method, message_send, message_stream, tasks_get, tasks_cancel, other, rpc, Reply,
  Rpc, send_message, send_streaming_message, get_task, subscribe_to_task, cancel_task,
  create_config, get_config_of, list_configs_of, delete_config_of, Adapter, when_admitted, servicer,
  Act, over_http, over_grpc, inside, act, acts,
}
use s13code.A2a.Transports.Refines.{method_steps, rpc_steps, act_steps, acts_steps, acts-steps}

-- The gate asks for credentials, and these hold no token and no key of it.
pub record Stranger (gate : Gate) (given : Credentials) : Type 0 where
  pub closed : is_closed gate ≡ true
  pub token : has (bearer given.authorization) gate.bearer_tokens ≡ false
  pub key : (k : Text) → given.api_key ≡ some k → has k gate.api_keys ≡ false

-- The second history is the first one without some calls of strangers.
pub data Purged (http grpc : Gate) : List Act → List Act → Type 0 where
  done : Purged http grpc [] []
  kept : (x : Act) {xs ys : List Act} → Purged http grpc xs ys → Purged http grpc (x ∷ xs) (x ∷ ys)
  no_http :
      (given : Credentials) (method : Method) {xs ys : List Act}
      → Stranger http given
      → Purged http grpc xs ys
      → Purged http grpc (over_http given method ∷ xs) ys
  no_grpc :
      (given : Credentials) (call : Rpc) {xs ys : List Act}
      → Stranger grpc given
      → Purged http grpc xs ys
      → Purged http grpc (over_grpc given call ∷ xs) ys

-- A new task takes the identifier.
abbrev pub gives_id : String → Act → Bool
gives_id nid (over_http given (message_send m)) = m.id == nid
gives_id nid (over_http given (message_stream m)) = m.id == nid
gives_id nid (over_http given _) = false
gives_id nid (over_grpc given (send_message m)) = m.id == nid
gives_id nid (over_grpc given (send_streaming_message m)) = m.id == nid
gives_id nid (over_grpc given _) = false
gives_id nid (inside x) = submits nid x

Stranger-key :
    (gate : Gate) (given : Credentials)
    → Stranger gate given
    → key_in gate.api_keys given.api_key ≡ false
Stranger-key gate given h = of_option given.api_key h.key
  where
    of_option :
        (o : Option Text)
        → ((k : Text) → o ≡ some k → has k gate.api_keys ≡ false)
        → key_in gate.api_keys o ≡ false
    of_option none f = refl
    of_option (some k) f = f k refl

rpc_allows-Stranger :
    (gate : Gate) (given : Credentials) → Stranger gate given → rpc_allows gate given ≡ false
unfolding rpc_allows
rpc_allows-Stranger gate given h =
    let c = h.closed in
    let t = h.token in
    let k : (is_given (key_text given.api_key) && has (key_text given.api_key) gate.api_keys)
        ≡ false =
      of_option given.api_key (Stranger-key gate given h) in
    ground arith
  where
    of_option :
        (o : Option Text)
        → key_in gate.api_keys o ≡ false
        → (is_given (key_text o) && has (key_text o) gate.api_keys) ≡ false
    of_option none f = refl
    of_option (some k) f = and_false (is_given k) f
      where
        and_false : (b : Bool) {c : Bool} → c ≡ false → (b && c) ≡ false
        and_false true e = e
        and_false false e = refl

servicer_allows-Stranger :
    (gate : Gate) (given : Credentials) → Stranger gate given → servicer_allows gate given ≡ false
unfolding servicer_allows
servicer_allows-Stranger gate given h =
    let c = h.closed in let t = h.token in let k = Stranger-key gate given h in ground arith

refused :
    (gate : Gate) (given : Credentials) (a : Adapter) (next : Reply × Adapter)
    → servicer_allows gate given ≡ false
    → (when_admitted gate given a next).1 ≡ a
refused gate given a next e = rw e refl

servicer-refused :
    (gate : Gate) (given : Credentials) (call : Rpc) (a : Adapter)
    → servicer_allows gate given ≡ false
    → (servicer gate given call a).1 ≡ a
unfolding servicer
servicer-refused gate given (send_message m) a e = refused gate given a _ e
servicer-refused gate given (send_streaming_message m) a e = refused gate given a _ e
servicer-refused gate given (get_task id) a e = refused gate given a _ e
servicer-refused gate given (subscribe_to_task id) a e = refused gate given a _ e
servicer-refused gate given (cancel_task id now) a e = refused gate given a _ e
servicer-refused gate given (create_config c) a e = refused gate given a _ e
servicer-refused gate given (get_config_of id) a e = refused gate given a _ e
servicer-refused gate given (list_configs_of task) a e = refused gate given a _ e
servicer-refused gate given (delete_config_of task id) a e = refused gate given a _ e

acts-Purged :
    (http grpc : Gate) (a : Adapter) {xs ys : List Act}
    → Purged http grpc xs ys
    → acts http grpc a xs ≡ acts http grpc a ys
unfolding act rpc
acts-Purged http grpc a done = refl
acts-Purged http grpc a (kept x p) = acts-Purged http grpc (act http grpc a x) p
acts-Purged http grpc a (no_http given method {xs} s p) =
    let e = rpc_allows-Stranger http given s in
    let same : act http grpc a (over_http given method) ≡ a = rw (act, rpc, e) refl in
    ap (λ b. acts http grpc b xs) same ∙ acts-Purged http grpc a p
acts-Purged http grpc a (no_grpc given call {xs} s p) =
    let same : act http grpc a (over_grpc given call) ≡ a =
      servicer-refused grpc given call a (servicer_allows-Stranger grpc given s) in
    ap (λ b. acts http grpc b xs) same ∙ acts-Purged http grpc a p

if_none :
    (nid : String) (b : Bool) (xs : List Step)
    → any (submits nid) xs ≡ false
    → any (submits nid) (if b then xs else []) ≡ false
if_none nid true xs h = h
if_none nid false xs h = refl

method-submits :
    (nid : String) (given : Credentials) (method : Method)
    → gives_id nid (over_http given method) ≡ false
    → any (submits nid) (method_steps method) ≡ false
method-submits nid given (message_send m) h = rw h refl
method-submits nid given (message_stream m) h = rw h refl
method-submits nid given (tasks_get id) h = refl
method-submits nid given (tasks_cancel id now) h = refl
method-submits nid given (other name) h = refl

rpc-submits :
    (nid : String) (given : Credentials) (call : Rpc)
    → gives_id nid (over_grpc given call) ≡ false
    → any (submits nid) (rpc_steps call) ≡ false
rpc-submits nid given (send_message m) h = rw h refl
rpc-submits nid given (send_streaming_message m) h = rw h refl
rpc-submits nid given (get_task id) h = refl
rpc-submits nid given (subscribe_to_task id) h = refl
rpc-submits nid given (cancel_task id now) h = refl
rpc-submits nid given (create_config c) h = refl
rpc-submits nid given (get_config_of id) h = refl
rpc-submits nid given (list_configs_of task) h = refl
rpc-submits nid given (delete_config_of task id) h = refl

-- A history in which no new task takes the identifier is one of steps in which none does.
act-submits :
    (http grpc : Gate) (nid : String) (x : Act)
    → gives_id nid x ≡ false
    → any (submits nid) (act_steps http grpc x) ≡ false
act-submits http grpc nid (over_http given method) h =
    if_none nid (rpc_allows http given) (method_steps method) (method-submits nid given method h)
act-submits http grpc nid (over_grpc given call) h =
    if_none nid (servicer_allows grpc given) (rpc_steps call) (rpc-submits nid given call h)
act-submits http grpc nid (inside x) h = ground arith

acts-submits :
    (http grpc : Gate) (nid : String) (xs : List Act)
    → any (gives_id nid) xs ≡ false
    → any (submits nid) (acts_steps http grpc xs) ≡ false
acts-submits http grpc nid [] h = refl
acts-submits http grpc nid (x ∷ xs) h =
    let first = act-submits http grpc nid x (ground arith) in
    let rest = acts-submits http grpc nid xs (ground arith) in
    any-append (submits nid) (act_steps http grpc x) (acts_steps http grpc xs) ∙ ground arith

-- If the calls of some strangers, who hold no token and no key of a gate that asks for one, are
-- left out of a history of calls over both transports and of pieces of the work inside, then the
-- adapter is the same after it, the push configurations included; and if the table shows the
-- tasks in memory, a task has ended, no handler runs for it, and what is left gives its
-- identifier to no new task, then after the whole history the task is still there unchanged.
pub acts-Ended :
    (http grpc : Gate) (a : Adapter) (xs ys : List Act) (nid : String) (t : Task)
    → Purged http grpc xs ys
    → Saved a.server
    → any (gives_id nid) ys ≡ false
    → find_task nid a.server.tasks ≡ some t
    → is_terminal t.state ≡ true
    → works_on nid a.server.completing ≡ false
    → (acts http grpc a xs ≡ acts http grpc a ys)
      × (find_task nid (acts http grpc a xs).server.tasks ≡ some t)
acts-Ended http grpc a xs ys nid t p k ne f o w =
    let same = acts-Purged http grpc a p in
    let there =
      steps-Ended (acts_steps http grpc ys) a.server nid t k (acts-submits http grpc nid ys ne) f o
        w in
    (
      same,
      ap (λ (b : Adapter). find_task nid b.server.tasks) same
          ∙ ap (λ (s : Server). find_task nid s.tasks) (acts-steps http grpc a ys)
          ∙ there,
    )
