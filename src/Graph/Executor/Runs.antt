-- ===== src/Graph/Executor/Runs.antt =====
-- Whole runs of `LiveGraphExecutor` in core/live_graph/core.py.
use s13code.Prelude.{
  ℕ, ◌+◌, ◌≤◌, String, ◌≡◌, refl, ap, Bool, true, false, some, List, [], ◌∷◌, ◌++◌, length, arith,
  eq_self, if◌then◌else◌, Outcome, ok, err, ◌⊎◌, elem,
}
use s13code.Json.{Fields, end}
use s13code.Graph.Types.{running, cancelled, TaskSpec, Event, GraphError}
use s13code.Graph.Db.{Db, RunRow, has_run, find_run, is_some, insert_event}
use s13code.Graph.Store
use s13code.Graph.Keys.{Unique}
use s13code.Graph.Nodes.{state_in}
use s13code.Graph.Calls
use s13code.Graph.Calls.{step}
use s13code.Graph.Calls.Terminal.{step-Unique}
use s13code.Graph.Calls.Acyclic.{resume-tables}
use s13code.Graph.Patch.Frame.{Tables}
use s13code.Graph.Executor.{
  Config, Exec, ExecError, Act, Tick, ◌>>=◌, ◌>>◌, and_then, pure, call, ids, loop, replay, run,
  plan_event,
}
use s13code.Graph.Executor.Sound.{Sound, bind-Keeps, branch-Keeps, call_lem, plan_event-Sound}
use s13code.Graph.Executor.Loops.{Landed, loop-Landed}

replay-Sound :
    (c : Config) (es : List Event) (l : List TaskSpec) (x : Exec)
    → Sound c 0 l x
    → Sound c 0 l (replay c es x).1
unfolding replay
replay-Sound c [] l x s = s
replay-Sound c (e ∷ es) l x s =
    branch-Keeps (Sound c 0 l) (Store.is_finished c.run_id x.db) (pure tt)
      (plan_event c e >> replay c es) (λ y q. q)
      (bind-Keeps (Sound c 0 l) (plan_event c e) _ (plan_event-Sound c e 0 l)
        (λ _ y q. replay-Sound c es l y q))
      x s

abbrev pub fresh : Db → Exec
fresh db = record { db = db; in_flight = []; executed = []; cancelling = [] }

-- With nothing in flight the invariant is about the tables alone.
empty-Sound :
    (c : Config) (d : Db) → Unique d.nodes → has_run c.run_id d ≡ true → Sound c 0 [] (fresh d)
empty-Sound c d u h = record {
  flights = refl;
  unique = u;
  known = h;
  apart = refl;
  flying = λ nid m. absurd (ground arith);
  slots = omega arith;
  quota = λ most k. omega arith;
}

find-append :
    (run : String) (x : Fields) (rs : List RunRow)
    → is_some (find_run run (rs ++ record { id = run; finished = false; context = x } ∷ [])) ≡ true
find-append run x [] = rw (eq_self run)
find-append run x (r ∷ rs) = ground (arith, find-append run x rs)

start-known : (run : String) (x : Fields) (db : Db) → has_run run (Store.start run x db).1 ≡ true
unfolding Store.start insert_event
start-known run x db = ground (arith, find-append run x db.runs)

call_state :
    {A : Type 0} (f : Db → Outcome GraphError A × Db) (d : Db)
    → (call f (fresh d)).1 ≡ fresh (f d).1
call_state f d = call_lem f (fresh d)

-- How a run begins: `resume` or `start`.
abbrev begin : Config → Bool → Act Unit
begin c resume =
    if resume then call (Store.resume c.run_id) else (call (Store.start c.run_id end) >> pure tt)

begin-Sound :
    (c : Config) (resume : Bool) (db : Db)
    → Unique db.nodes
    → (resume ≡ true → has_run c.run_id db ≡ true)
    → Sound c 0 [] (begin c resume (fresh db)).1
begin-Sound c true db u h = rw (call_state (Store.resume c.run_id) db) (
    empty-Sound c (Store.resume c.run_id db).1
      (unfold step in step-Unique db (Calls.resume c.run_id) u)
      (rw (ap (λ (t : Tables). t.runs) (resume-tables c.run_id db)) (h refl)))
begin-Sound c false db u h = done (call (Store.start c.run_id end) (fresh db)) (
    rw (call_state (Store.start c.run_id end) db) (
      empty-Sound c (Store.start c.run_id end db).1
        (unfold step in step-Unique db (Calls.start c.run_id end) u) (start-known c.run_id end db)))
  where
    done :
        (o : Outcome ExecError Bool × Exec)
        → Sound c 0 [] o.1
        → Sound c 0 [] (and_then o (λ _. pure tt)).1
    done (ok a, y) q = q
    done (err e, y) q = q

run-Landed :
    (c : Config) (resume : Bool) (ticks : List Tick) (db : Db)
    → Unique db.nodes
    → (resume ≡ true → has_run c.run_id db ≡ true)
    → Landed c (run c resume ticks (fresh db))
unfolding run
run-Landed c resume ticks db u h = begun (begin c resume (fresh db)) (begin-Sound c resume db u h)
  where
    replayed :
        (o : Outcome ExecError Unit × Exec)
        → Sound c 0 [] o.1
        → Landed c (and_then o (λ _. loop c ticks))
    replayed (ok _, y) q = loop-Landed c ticks [] y q
    replayed (err e, y) q = (([], q), λ k. absurd (ground arith))

    begun :
        (o : Outcome ExecError Unit × Exec)
        → Sound c 0 [] o.1
        → Landed c (
            and_then o (λ _.
              (λ x. replay c (Store.pending_planner_events c.run_id x.db) x) >>= λ _. loop c ticks))
    begun (ok _, y) q =
        replayed (replay c (Store.pending_planner_events c.run_id y.db) y)
          (replay-Sound c (Store.pending_planner_events c.run_id y.db) [] y q)
    begun (err e, y) q = (([], q), λ k. absurd (ground arith))

-- For a database in which no two nodes share a key, and which has the run if it is resumed, after
-- any ticks and whatever the planner and the workers did, also when the run raised: at most
-- `max_workers` tasks are in flight, the executed tasks and those in flight are at most
-- `max_completed` if it is given, and every task in flight is running or cancelled in the tables.
pub run-bounded :
    (c : Config) (resume : Bool) (ticks : List Tick) (db : Db)
    → Unique db.nodes
    → (resume ≡ true → has_run c.run_id db ≡ true)
    → (length (run c resume ticks (fresh db)).1.in_flight ≤ c.max_workers)
      × ((most : ℕ)
          → c.max_completed ≡ some most
          → length (run c resume ticks (fresh db)).1.executed
              + length (run c resume ticks (fresh db)).1.in_flight
            ≤ most)
      × ((nid : String)
          → elem nid (ids (run c resume ticks (fresh db)).1.in_flight) ≡ true
          → (state_in c.run_id nid (run c resume ticks (fresh db)).1.db.nodes ≡ some running)
            ⊎ (state_in c.run_id nid (run c resume ticks (fresh db)).1.db.nodes ≡ some cancelled))
run-bounded c resume ticks db u h =
    let ((l, s), _) = run-Landed c resume ticks db u h in
    let same = s.flights in
    (
      rw same s.slots,
      λ most k. let q = s.quota most k in omega (arith, ap length same),
      λ nid m. s.flying nid (rw same at m),
    )

-- Under the conditions of the bounds, if a run returns without an exception, through the end of
-- the work or the test stop, then no task is in flight.
pub run-lands :
    (c : Config) (resume : Bool) (ticks : List Tick) (db : Db)
    → Unique db.nodes
    → (resume ≡ true → has_run c.run_id db ≡ true)
    → (run c resume ticks (fresh db)).0 ≡ ok true
    → (run c resume ticks (fresh db)).1.in_flight ≡ []
run-lands c resume ticks db u h done = (run-Landed c resume ticks db u h).1 done
