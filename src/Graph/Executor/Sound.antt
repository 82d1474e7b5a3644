-- ===== src/Graph/Executor/Sound.antt =====
-- The invariant of the loop of core/live_graph/core.py, and the parts of the loop.
use mathlib.Core.Option
use s13code.Prelude.{
  ℕ, ◌+◌, ◌≤◌, String, ◌≡◌, refl, ap, Bool, true, false, ◌&&◌, ◌==◌, Option, none, some, List, [],
  ◌∷◌, length, arith, eq_iff, if◌then◌else◌, Outcome, ok, err, inl, inr, Bool-cases, elem,
  has_duplicates,
}
use s13code.Json.{Fields}
use s13code.Graph.Types.{NodeState, running, TaskSpec, GraphPatch, Event, GraphError}
use s13code.Graph.Db.{Db, RunRow, find_run, is_some, has_run}
use s13code.Graph.Store
use s13code.Graph.Store.{outcome_state}
use s13code.Graph.Patch
use s13code.Graph.Patch.{finish_runs}
use s13code.Graph.Patch.Stages.{repeated, refused, committed, apply_patch_cases}
use s13code.Graph.Patch.Frame.{runs-committed, Tables}
use s13code.Graph.Keys.{Unique}
use s13code.Graph.Nodes.{state_in, swap_state, state_in-set_result}
use s13code.Graph.Calls
use s13code.Graph.Calls.{step}
use s13code.Graph.Calls.States.{record_outcome-nodes}
use s13code.Graph.Calls.Terminal.{step-Unique}
use s13code.Graph.Calls.Acyclic.{record_outcome-tables}
use s13code.Graph.Executor.{
  Config, Exec, ExecError, Act, ◌>>=◌, ◌>>◌, and_then, pure, modify, stored, call, asked,
  plan_event, cancel_flights, ids, replan,
}
use s13code.Graph.Executor.Flights.{Flying, apply_patch-Flying}

-- `l` is in flight: distinct tasks, running or cancelled; `k` is the number of outcomes that have
-- left the flight and are not counted as executed.
pub record Sound (c : Config) (k : ℕ) (l : List TaskSpec) (x : Exec) : Type 0 where
  pub flights : x.in_flight ≡ l
  pub unique : Unique x.db.nodes
  pub known : has_run c.run_id x.db ≡ true
  pub apart : has_duplicates (ids l) ≡ false
  pub flying : (nid : String) → elem nid (ids l) ≡ true → Flying (state_in c.run_id nid x.db.nodes)
  pub slots : length l ≤ c.max_workers
  pub quota : (most : ℕ) → c.max_completed ≡ some most → k + length x.executed + length l ≤ most

-- The predicate holds after the part, whether it returned or raised.
abbrev pub Keeps : {A : Type 0} → (Exec → Type 0) → Act A → Type 0
Keeps P m = (x : Exec) → P x → P (m x).1

pub bind-Keeps :
    {A B : Type 0} (P : Exec → Type 0) (m : Act A) (f : A → Act B)
    → Keeps P m
    → ((a : A) → Keeps P (f a))
    → Keeps P (m >>= f)
bind-Keeps {A} {B} P m f km kf x p = go (m x) (km x p)
  where
    go : (o : Outcome ExecError A × Exec) → P o.1 → P (and_then o f).1
    go (ok a, y) q = kf a y q
    go (err e, y) q = q

pub call_lem :
    {A : Type 0} (f : Db → Outcome GraphError A × Db) (x : Exec)
    → (call f x).1 ≡ record x { db = (f x.db).1 }
call_lem {A} f x = go (f x.db)
  where
    go : (o : Outcome GraphError A × Db) → (stored o x).1 ≡ record x { db = o.1 }
    go (ok a, d) = refl
    go (err e, d) = refl

-- A change of the tables keeps the invariant if it keeps what it says of them.
pub Sound-db :
    (c : Config) (k : ℕ) (l : List TaskSpec) (x : Exec) (d : Db)
    → Sound c k l x
    → Unique d.nodes
    → has_run c.run_id d ≡ true
    → ((nid : String) → elem nid (ids l) ≡ true → Flying (state_in c.run_id nid d.nodes))
    → Sound c k l (record x { db = d })
Sound-db c k l x d s u h f = record {
  flights = s.flights;
  unique = u;
  known = h;
  apart = s.apart;
  flying = f;
  slots = s.slots;
  quota = s.quota;
}

pub read-Sound :
    {A : Type 0} (f : Db → Outcome GraphError A) (c : Config) (k : ℕ) (l : List TaskSpec)
    → Keeps (Sound c k l) (call (λ db. (f db, db)))
read-Sound f c k l x s = rw (call_lem (λ db. (f db, db)) x) s

known_finish :
    (run r : String) (rs : List RunRow)
    → is_some (find_run run (finish_runs r rs)) ≡ is_some (find_run run rs)
known_finish run r [] = refl
known_finish run r (q ∷ rs) = ground (arith, known_finish run r rs)

known_finishing :
    (run r : String) (rs : List RunRow) (b : Bool)
    → is_some (find_run run (if b then finish_runs r rs else rs)) ≡ is_some (find_run run rs)
known_finishing run r rs true = known_finish run r rs
known_finishing run r rs false = refl

apply_patch-known :
    (run : String) (patch : GraphPatch) (trigger : ℕ) (db : Db)
    → has_run run db ≡ true
    → has_run run (Patch.apply_patch run patch trigger db).1 ≡ true
apply_patch-known run patch trigger db h = elim (apply_patch_cases run patch trigger db) [
  | repeated _ e ↦ rw e h
  | refused _ e ↦ rw e h
  | committed db' e a ↦
      rw
        (
          e,
          runs-committed run patch a.existing trigger db db' a.stages,
          known_finishing run run db.runs patch.finish,
        )
        h
]

apply_patch-Unique :
    (run : String) (patch : GraphPatch) (trigger : ℕ) (db : Db)
    → Unique db.nodes
    → Unique (Patch.apply_patch run patch trigger db).1.nodes
apply_patch-Unique run patch trigger db u =
    unfold step in step-Unique db (Calls.apply_patch run patch trigger) u

patch-Sound :
    (patch : GraphPatch) (trigger : ℕ) (c : Config) (k : ℕ) (l : List TaskSpec)
    → Keeps (Sound c k l) (call (Patch.apply_patch c.run_id patch trigger))
patch-Sound patch trigger c k l x s = rw (call_lem (Patch.apply_patch c.run_id patch trigger) x) (
    Sound-db c k l x (Patch.apply_patch c.run_id patch trigger x.db).1 s
      (apply_patch-Unique c.run_id patch trigger x.db s.unique)
      (apply_patch-known c.run_id patch trigger x.db s.known)
      (λ nid m. apply_patch-Flying c.run_id patch trigger x.db nid s.unique (s.flying nid m)))

asked-Keeps : (P : Exec → Type 0) (o : Option GraphPatch) → Keeps P (asked o)
asked-Keeps P none x p = p
asked-Keeps P (some patch) x p = p

pub plan_event-Sound :
    (c : Config) (e : Event) (k : ℕ) (l : List TaskSpec) → Keeps (Sound c k l) (plan_event c e)
unfolding plan_event
plan_event-Sound c e k l =
    bind-Keeps (Sound c k l) (call (λ db. (Store.snapshot c.run_id db, db))) _
      (read-Sound (Store.snapshot c.run_id) c k l)
      λ graph.
        bind-Keeps (Sound c k l) (asked (c.plan graph e)) _
          (asked-Keeps (Sound c k l) (c.plan graph e)) λ patch. patch-Sound patch e.sequence c k l

pub cancel_flights-Sound :
    (c : Config) (b : Bool) (k : ℕ) (l : List TaskSpec) (x : Exec)
    → Sound c k l x
    → Sound c k l (cancel_flights c b x)
unfolding cancel_flights
cancel_flights-Sound c b k l x s = record {
  flights = s.flights;
  unique = s.unique;
  known = s.known;
  apart = s.apart;
  flying = s.flying;
  slots = s.slots;
  quota = s.quota;
}

pub branch-Keeps :
    {A : Type 0} (P : Exec → Type 0) (b : Bool) (m n : Act A)
    → Keeps P m
    → Keeps P n
    → Keeps P (if b then m else n)
branch-Keeps P true m n km kn = km
branch-Keeps P false m n km kn = kn

pub replan-Sound :
    (c : Config) (e : Event) (k : ℕ) (l : List TaskSpec) → Keeps (Sound c k l) (replan c e)
unfolding replan
replan-Sound c e k l x s =
    branch-Keeps (Sound c k l) (Store.is_finished c.run_id x.db) (pure tt)
      (plan_event c e >> modify (cancel_flights c false)) (λ y q. q)
      (bind-Keeps (Sound c k l) (plan_event c e) _ (plan_event-Sound c e k l)
        (λ _ y q. cancel_flights-Sound c false k l y q))
      x s

other_key :
    (q : Bool) (s : NodeState) (o : Option NodeState)
    → Flying o
    → Flying (Option.map (λ t. if q && false then swap_state running s t else t) o)
other_key q s o (inl e) = inl (rw e (ground arith))
other_key q s o (inr e) = inr (rw e (ground arith))

record_outcome-Flying :
    (run nid task : String) (b : Bool) (p : Fields) (db : Db)
    → (nid == task) ≡ false
    → Flying (state_in run nid db.nodes)
    → Flying (state_in run nid (Store.record_outcome run task b p db).1.nodes)
record_outcome-Flying run nid task b p db ne f = elim (record_outcome-nodes run task b p db) [
  | inl e ↦ rw e f
  | inr e ↦
      rw (e, state_in-set_result run nid run task running (outcome_state b) p db.nodes, ne)
        (other_key (run == run) (outcome_state b) (state_in run nid db.nodes) f)
]

-- Recording the outcome of a task that has left the flight.
pub outcome-Sound :
    (task : String) (b : Bool) (p : Fields) (c : Config) (k : ℕ) (l : List TaskSpec)
    → elem task (ids l) ≡ false
    → Keeps (Sound c k l) (call (Store.record_outcome c.run_id task b p))
outcome-Sound task b p c k l gone x s = rw (call_lem (Store.record_outcome c.run_id task b p) x) (
    Sound-db c k l x (Store.record_outcome c.run_id task b p x.db).1 s
      (unfold step in step-Unique x.db (Calls.record_outcome c.run_id task b p) s.unique)
      (rw (ap (λ (t : Tables). t.runs) (record_outcome-tables c.run_id task b p x.db)) s.known)
      (λ nid m.
        record_outcome-Flying c.run_id nid task b p x.db (apart_from nid m) (s.flying nid m)))
  where
    apart_from : (nid : String) → elem nid (ids l) ≡ true → (nid == task) ≡ false
    apart_from nid m = elim (Bool-cases (nid == task)) [
      | inl e ↦ absurd (let there = rw ((eq_iff nid task).0 e) at m in ground arith)
      | inr e ↦ e
    ]
