-- ===== src/Graph/Executor.antt =====
-- `LiveGraphExecutor` of core/live_graph/core.py. What the event loop does is data: a tick names the
-- workers that have ended when `asyncio.wait` returns, and a run is driven by a list of ticks.
pub mod Flights
pub mod Sound
pub mod Rounds
pub mod Turns
pub mod Launch
pub mod Results
pub mod Loops
pub mod Runs
use s13code.Prelude.{
  ℕ, zero, suc, ◌+◌, ◌-◌, String, Bool, true, false, not, ◌&&◌, ◌==◌, Option, none, some, List, [],
  ◌∷◌, ◌++◌, map, Outcome, ok, err, ltb, leb, if◌then◌else◌, any, filter, sort_by, text_le,
  text_append, length,
}
use s13code.Json.{Json, Fields, str, field, end}
use s13code.Graph.Types.{
  NodeState, cancelled, waiting, ◌=ₛ◌, TaskSpec, GraphPatch, Event, GraphSnapshot, NodeView,
  GraphError,
}
use s13code.Graph.Db.{Db}
use s13code.Graph.Store
use s13code.Graph.Patch

-- How the coroutine of a worker ends: it returns, raises (the name and the text of the exception),
-- or stops on its cancellation.
pub data Ending : Type 0 where
  returned : Fields → Ending
  raised : String → String → Ending
  stopped : Ending

-- `_execute`: what the future gives. `none` is CancelledError.
unfoldable pub execute : (String → Bool) → TaskSpec → Ending → Option (Bool × Fields)
execute known task ending =
    if known task.skill
    then (elim ending [
      | returned payload ↦ some (true, payload)
      | raised name text ↦
          some (false, field "error" (str (text_append name (text_append ": " text))) end)
      | stopped ↦ none
    ])
    else some (false, field "error" (str (text_append "unknown skill: " task.skill)) end)

-- The planner is outside this component: it answers a snapshot and an event, or raises.
pub record Config : Type 0 where
  pub run_id : String
  pub max_workers : ℕ
  pub max_completed : Option ℕ
  pub known : String → Bool
  pub plan : GraphSnapshot → Event → Option GraphPatch

-- `in_flight` in the order of its insertions, and the futures on which `cancel` was called.
pub record Exec : Type 0 where
  pub db : Db
  pub in_flight : List TaskSpec
  pub executed : List String
  pub cancelling : List String

pub data ExecError : Type 0 where
  in_store : GraphError → ExecError
  in_planner : ExecError

-- A part of `run`: the state stays as it is when an exception leaves it.
abbrev pub Act : Type 0 → Type 0
Act A = Exec → Outcome ExecError A × Exec

abbrev pub and_then :
    {A B : Type 0} → Outcome ExecError A × Exec → (A → Act B) → Outcome ExecError B × Exec
and_then (ok a, x) f = f a x
and_then (err e, x) f = (err e, x)

infixl 10 ◌>>=◌ ◌>>◌
abbrev pub ◌>>=◌ : {A B : Type 0} → Act A → (A → Act B) → Act B
◌>>=◌ m f x = and_then (m x) f

abbrev pub ◌>>◌ : {A B : Type 0} → Act A → Act B → Act B
m >> k = m >>= λ _. k

abbrev pub pure : {A : Type 0} → A → Act A
pure a x = (ok a, x)

abbrev pub modify : (Exec → Exec) → Act Unit
modify f x = (ok tt, f x)

abbrev pub stored : {A : Type 0} → Outcome GraphError A × Db → Exec → Outcome ExecError A × Exec
stored (ok a, d) x = (ok a, record x { db = d })
stored (err e, d) x = (err (in_store e), record x { db = d })

-- A call of a method of the store.
abbrev pub call : {A : Type 0} → (Db → Outcome GraphError A × Db) → Act A
call f x = stored (f x.db) x

abbrev pub asked : Option GraphPatch → Act GraphPatch
asked none x = (err in_planner, x)
asked (some patch) x = (ok patch, x)

-- `_plan`
unfoldable pub plan_event : Config → Event → Act Bool
plan_event c event = do
  graph ← call (λ db. (Store.snapshot c.run_id db, db))
  patch ← asked (c.plan graph event)
  call (Patch.apply_patch c.run_id patch event.sequence)

abbrev pub is_cancelled : String → Db → String → Bool
is_cancelled run db nid = elim (Store.node_state run nid db) [
  | ok s ↦ s =ₛ cancelled
  | err _ ↦ false
]

abbrev pub ids : List TaskSpec → List String
ids ts = map (λ t. t.id) ts

-- `_cancel_graph_cancelled_tasks`. The nodes in flight exist, so `node_state` does not raise: see
-- Runs.
unfoldable pub cancel_flights : Config → Bool → Exec → Exec
cancel_flights c everything x = record x {
  cancelling =
      x.cancelling
      ++ ids
          (filter (λ t. if everything then true else is_cancelled c.run_id x.db t.id) x.in_flight);
}

-- `capacity`, 0 where the source has a negative number: it is only used when positive.
unfoldable pub capacity : Config → Exec → ℕ
capacity c x =
    let free = c.max_workers - length x.in_flight in
    elim c.max_completed [
      | none ↦ free
      | some most ↦
          let left = (most - length x.executed) - length x.in_flight in
          if leb free left then free else left
    ]

unfoldable pub start_all : Config → List TaskSpec → Act Unit
start_all c [] = pure tt
start_all c (t ∷ ts) =
    call (Store.mark_running c.run_id (t ∷ ts))
    >> modify (λ y. record y { in_flight = y.in_flight ++ t ∷ ts })

unfoldable pub launch : Config → ℕ → Act Unit
launch c zero x = (ok tt, x)
launch c (suc n) x = start_all c (Store.ready c.run_id (suc n) x.db) x

-- The head of the loop: fill the free slots.
unfoldable pub fill : Config → Act Unit
fill c x = (if Store.is_finished c.run_id x.db then pure tt else launch c (capacity c x)) x

-- `in_flight.pop(future)`: the identifiers in flight are distinct.
abbrev pub pop : String → List TaskSpec → List TaskSpec
pop nid ts = filter (λ t. not (t.id == nid)) ts

-- Planning after an outcome, unless the run is finished.
unfoldable pub replan : Config → Event → Act Unit
replan c event x =
    (if Store.is_finished c.run_id x.db
        then pure tt
        else (plan_event c event >> modify (cancel_flights c false)))
      x

-- The test stop: `max_completed is not None and len(executed) >= max_completed`.
abbrev pub at_stop : Config → Exec → Bool
at_stop c x = elim c.max_completed [ none ↦ false | some most ↦ leb most (length x.executed) ]

-- The outcome of a future that was not cancelled; the answer tells whether `run` returns.
unfoldable pub settle_outcome : Config → TaskSpec → Bool × Fields → Act Bool
settle_outcome c task (success, payload) = do
  event ← call (Store.record_outcome c.run_id task.id success payload)
  modify (λ y. record y { executed = y.executed ++ task.id ∷ [] })
  replan c event
  λ y. (ok (at_stop c y), y)

unfoldable pub keep_or_discard : Config → TaskSpec → Bool × Fields → Act Bool
keep_or_discard c task result = do
  s ← call (λ db. (Store.node_state c.run_id task.id db, db))
  if s =ₛ cancelled then pure false else settle_outcome c task result

-- One round of `for future in sorted(done, …)`.
unfoldable pub handle : Config → TaskSpec × Ending → Act Bool
handle c (task, ending) x =
    let popped = record x { in_flight = pop task.id x.in_flight } in
    elim (execute c.known task ending) [
      | none ↦ (ok false, popped)
      | some result ↦ keep_or_discard c task result popped
    ]

unfoldable pub handle_all : Config → List (TaskSpec × Ending) → Act Bool
handle_all c [] = pure false
handle_all c (d ∷ ds) = do stop ← handle c d; if stop then pure true else handle_all c ds

-- The workers that have ended when `asyncio.wait` returns, by the identifiers of their tasks.
abbrev pub Tick : Type 0
Tick = String → Option Ending

unfoldable pub ended : Tick → List TaskSpec → List (TaskSpec × Ending)
ended tick [] = []
ended tick (t ∷ ts) =
    let rest = ended tick ts in elim (tick t.id) [ none ↦ rest | some e ↦ (t, e) ∷ rest ]

abbrev pub by_id : TaskSpec × Ending → TaskSpec × Ending → Bool
by_id (a, _) (b, _) = text_le a.id b.id

-- What one turn of `while True` says: go on, or leave the loop.
unfoldable pub turn : Config → Tick → Act Bool
turn c tick = do
  fill c
  λ x. elim x.in_flight [
    | [] ↦ (ok true, x)
    | _ ∷ _ ↦
        (do
          stop ← handle_all c (sort_by by_id (ended tick x.in_flight))
          if stop then pure true else λ y.
              (ok false, if Store.is_finished c.run_id y.db then cancel_flights c true y else y))
          x
  ]

-- The loop over the ticks that the event loop gives; with no tick left it is still waiting.
unfoldable pub loop : Config → List Tick → Act Bool
loop c [] = pure false
loop c (t ∷ ts) = do stop ← turn c t; if stop then pure true else loop c ts

-- `_replay_pending_planner_events`
unfoldable pub replay : Config → List Event → Act Unit
replay c [] x = (ok tt, x)
replay c (e ∷ es) x =
    (if Store.is_finished c.run_id x.db then pure tt else (plan_event c e >> replay c es)) x

-- `run`, up to its report. `start` and `resume` return before the first tick.
unfoldable pub run : Config → Bool → List Tick → Act Bool
run c resume ticks = do
  if resume then call (Store.resume c.run_id) else (call (Store.start c.run_id end) >> pure tt)
  λ x. replay c (Store.pending_planner_events c.run_id x.db) x
  loop c ticks

pub record RunReport : Type 0 where
  pub run_id : String
  pub finished : Bool
  pub executed : List String
  pub waiting : List String

abbrev report_of : Exec → GraphSnapshot → RunReport
report_of x graph = record {
  run_id = graph.run_id;
  finished = graph.finished;
  executed = x.executed;
  waiting =
      map (λ (v : NodeView). v.id) (filter (λ (v : NodeView). v.state =ₛ waiting) graph.nodes);
}

-- `_report`
unfoldable pub report : Config → Act RunReport
report c x = (do graph ← call (λ db. (Store.snapshot c.run_id db, db)); pure (report_of x graph)) x
