-- ===== src/A2a/Server.antt =====
-- The tasks of `A2ADemoServer` in core/a2a_adapter/server.py. The event loop runs one coroutine at a
-- time from await to await: a step is such a piece, and a list of steps is an interleaving.
pub mod Saved
pub mod Ended
pub mod Terminal
use s13code.Prelude.{
  ℕ, String, Bool, true, false, not, ◌&&◌, ◌||◌, ◌==◌, Option, none, some, List, [], ◌∷◌, ◌++◌, map,
  if◌then◌else◌, elem, filter, any, text_append, eqb,
}

pub data TaskState : Type 0 where
  submitted working completed failed canceled : TaskState

-- `state in TERMINAL`
abbrev pub is_terminal : TaskState → Bool
is_terminal submitted = false
is_terminal working = false
is_terminal completed = true
is_terminal failed = true
is_terminal canceled = true

-- An artifact is its identifier and its text. `history` is never written and is left out.
pub record Task : Type 0 where
  pub id : String
  pub context_id : String
  pub text : String
  pub state : TaskState
  pub artifacts : List (String × String)
  pub callback_url : Option String
  pub callback_token : Option String
  pub updated_at : String

-- `tasks` is the dict, `rows` the table `a2a_tasks`, `jobs` the keys of `_jobs`. The rest says where
-- the coroutines wait: a slow send before its job exists, a job that sleeps, a stream between its
-- two updates, and a handler that runs, in a job or not. `pushed` are the updates given to `_notify`.
pub record Server : Type 0 where
  pub tasks : List Task
  pub rows : List Task
  pub jobs : List String
  pub starting : List String
  pub sleeping : List String
  pub streaming : List String
  pub completing : List (String × Bool)
  pub pushed : List (String × TaskState)

abbrev pub find_task : String → List Task → Option Task
find_task nid [] = none
find_task nid (t ∷ ts) = if t.id == nid then some t else find_task nid ts

-- `self.tasks[task.id] = task`
unfoldable pub put_task : Task → List Task → List Task
put_task t [] = t ∷ []
put_task t (x ∷ xs) = let rest = put_task t xs in if x.id == t.id then t ∷ xs else x ∷ rest

abbrev pub without : String → List Task → List Task
without nid [] = []
without nid (t ∷ ts) = let rest = without nid ts in if t.id == nid then rest else t ∷ rest

-- `DurableTaskStore.save`: `insert or replace`.
unfoldable pub save : Task → List Task → List Task
save t rows = without t.id rows ++ t ∷ []

-- A write to the task in memory and in the table.
unfoldable pub store_task : Task → Server → Server
store_task t s = record s { tasks = put_task t s.tasks; rows = save t s.rows }

abbrev pub stamped : TaskState → List (String × String) → String → Task → Task
stamped state artifacts now t = record t { state = state; artifacts = artifacts; updated_at = now }

-- `not task.callback_url` turned round: an empty text is no address.
abbrev pub has_url : Option String → Bool
has_url none = false
has_url (some url) = not (url == "")

-- `_notify`, up to the delivery: see Push.
abbrev pub push : Task → Server → Server
push t s =
    if has_url t.callback_url then record s { pushed = s.pushed ++ (t.id, t.state) ∷ [] } else s

-- The parameters of a message, with the identifiers made for them. `slow` is the test of the text
-- for "async" or "slow".
pub record Submission : Type 0 where
  pub id : String
  pub context_id : String
  pub text : String
  pub slow : Bool
  pub callback_url : Option String
  pub callback_token : Option String
  pub now : String

-- `_new_task`
unfoldable pub new_task : Submission → Task
new_task m = record {
  id = m.id;
  context_id = m.context_id;
  text = m.text;
  state = submitted;
  artifacts = [];
  callback_url = m.callback_url;
  callback_token = m.callback_token;
  updated_at = m.now;
}

abbrev pub drop_id : String → List String → List String
drop_id nid xs = filter (λ x. not (x == nid)) xs

abbrev pub drop_work : String → Bool → List (String × Bool) → List (String × Bool)
drop_work nid in_job ws = filter (λ w. not (w.0 == nid && eqb_bool w.1 in_job)) ws
  where
    eqb_bool : Bool → Bool → Bool
    eqb_bool true b = b
    eqb_bool false b = not b

abbrev pub works_on : String → List (String × Bool) → Bool
works_on nid ws = any (λ w. w.0 == nid) ws

abbrev pub has_work : String → Bool → List (String × Bool) → Bool
has_work nid in_job ws = any (λ w. w.0 == nid && (if in_job then w.1 else not w.1)) ws

-- `send`, up to its first await that lets others run.
unfoldable pub send : Submission → Server → Server
send m s =
    let t = new_task m in
    let s1 = store_task t s in
    let w = stamped working [] m.now t in
    if m.slow
    then push w (record (store_task w s1) { starting = m.id ∷ s.starting })
    else record s1 { completing = (m.id, false) ∷ s.completing }

-- The end of a slow `send`: its job is made.
unfoldable pub make_job : String → Server → Server
make_job nid s =
    if elem nid s.starting
    then record s {
      starting = drop_id nid s.starting;
      jobs = nid ∷ s.jobs;
      sleeping = nid ∷ s.sleeping;
    }
    else s

-- `stream_updates`, up to its first update.
unfoldable pub stream : Submission → Server → Server
stream m s =
    let t = new_task m in
    record (store_task (stamped working [] m.now t) (store_task t s)) {
      streaming = m.id ∷ s.streaming;
    }

abbrev pub unless_terminal : Option Task → Server → Server → Server
unless_terminal none stay go = stay
unless_terminal (some t) stay go = if is_terminal t.state then stay else go

-- The stream goes on: `if task.state not in TERMINAL: await self._complete(task)`.
unfoldable pub stream_on : String → Server → Server
stream_on nid s =
    let awake = record s { streaming = drop_id nid s.streaming } in
    if elem nid s.streaming
    then unless_terminal (find_task nid s.tasks) awake
        (record awake { completing = (nid, false) ∷ s.completing })
    else s

-- `_complete_later` after its sleep.
unfoldable pub wake : String → Server → Server
wake nid s =
    let awake = record s { sleeping = drop_id nid s.sleeping } in
    if elem nid s.sleeping
    then unless_terminal (find_task nid s.tasks) awake
        (record awake { completing = (nid, true) ∷ s.completing })
    else s

-- What the handler gives: a text, or the name and the text of an exception.
pub data Handled : Type 0 where
  answer : String → Handled
  error : String → Handled

abbrev pub handled_task : Handled → String → Task → Task
handled_task (answer text) now t = stamped completed ((text_append "result-" t.id, text) ∷ []) now t
handled_task (error text) now t = stamped failed ((text_append "error-" t.id, text) ∷ []) now t

abbrev finish_task : Option Task → Handled → String → Server → Server
finish_task none result now s = s
finish_task (some t) result now s = let t' = handled_task result now t in push t' (store_task t' s)

-- `_complete` after its handler.
unfoldable pub complete : String → Bool → Handled → String → Server → Server
complete nid in_job result now s =
    if has_work nid in_job s.completing
    then finish_task (find_task nid s.tasks) result now
        (record s { completing = drop_work nid in_job s.completing })
    else s

-- `job.cancel()` stops the job where it waits.
abbrev pub stop_job : String → Server → Server
stop_job nid s =
    if elem nid s.jobs
    then record s {
      sleeping = drop_id nid s.sleeping;
      completing = drop_work nid true s.completing;
    }
    else s

abbrev cancel_found : Option Task → String → String → Server → Server
cancel_found none nid now s = s
cancel_found (some t) nid now s =
    let t' = stamped canceled t.artifacts now t in
    if is_terminal t.state then s else push t' (stop_job nid (store_task t' s))

-- `cancel`; an unknown task raises ValueError and changes nothing.
unfoldable pub cancel : String → String → Server → Server
cancel nid now s = cancel_found (find_task nid s.tasks) nid now s

abbrev recover_task : Option Task → String → Server → Server
recover_task none now s = s
recover_task (some t) now s =
    if is_terminal t.state || elem t.id s.jobs
    then s
    else (let s' = store_task (stamped working t.artifacts now t) s in
        record s' { jobs = t.id ∷ s.jobs; sleeping = t.id ∷ s.sleeping })

-- The loop of `start`, over the keys of the dict.
unfoldable pub recover : String → List String → Server → Server
recover now [] s = s
recover now (nid ∷ nids) s = recover now nids (recover_task (find_task nid s.tasks) now s)

-- A new process on the same table: `load_all`, then `start`.
unfoldable pub restart : String → Server → Server
restart now s = recover now (map (λ t. t.id) s.rows) (record {
  tasks = s.rows;
  rows = s.rows;
  jobs = [];
  starting = [];
  sleeping = [];
  streaming = [];
  completing = [];
  pushed = s.pushed;
})

pub data Step : Type 0 where
  sends streams : Submission → Step
  makes_job streams_on wakes : String → Step
  completes : String → Bool → Handled → String → Step
  cancels : String → String → Step
  restarts : String → Step

unfoldable pub step : Server → Step → Server
step s (sends m) = send m s
step s (streams m) = stream m s
step s (makes_job nid) = make_job nid s
step s (streams_on nid) = stream_on nid s
step s (wakes nid) = wake nid s
step s (completes nid in_job result now) = complete nid in_job result now s
step s (cancels nid now) = cancel nid now s
step s (restarts now) = restart now s

unfoldable pub steps : Server → List Step → Server
steps s [] = s
steps s (x ∷ xs) = steps (step s x) xs

abbrev pub no_tasks : Server
no_tasks = record {
  tasks = [];
  rows = [];
  jobs = [];
  starting = [];
  sleeping = [];
  streaming = [];
  completing = [];
  pushed = [];
}
