-- ===== src/Graph/Executor/Rounds.antt =====
-- The invariant in the rounds of the loop of core/live_graph/core.py.
use s13code.Prelude.{
  String, ◌≡◌, ap, Bool, true, false, Option, none, some, List, [], ◌∷◌, ◌++◌, length-append, arith,
  eq_self, if◌then◌else◌, Outcome, ok, err, elem,
}
use s13code.Prelude.Distinct.{
  elem-without, has_duplicates-without, length-without-le, length-without-lt,
}
use s13code.Json.{Fields}
use s13code.Graph.Types.{cancelled, ◌=ₛ◌, TaskSpec}
use s13code.Graph.Store
use s13code.Graph.Executor.{
  Config, Exec, ExecError, Act, Ending, ◌>>=◌, and_then, pure, call, execute, ids, replan,
  settle_outcome, keep_or_discard, handle, pop,
}
use s13code.Graph.Executor.Sound.{Sound, Keeps, bind-Keeps, read-Sound, replan-Sound, outcome-Sound}

pub bind-Into :
    {A B : Type 0} (P Q : Exec → Type 0) (m : Act A) (f : A → Act B)
    → ((x : Exec) → P x → Q x)
    → Keeps P m
    → ((a : A) (x : Exec) → P x → Q (f a x).1)
    → (x : Exec) → P x
    → Q ((m >>= f) x).1
bind-Into {A} {B} P Q m f weak km kf x p = go (m x) (km x p)
  where
    go : (o : Outcome ExecError A × Exec) → P o.1 → Q (and_then o f).1
    go (ok a, y) q = kf a y q
    go (err e, y) q = weak y q

Sound-uncounted : (c : Config) (l : List TaskSpec) (x : Exec) → Sound c 1 l x → Sound c 0 l x
Sound-uncounted c l x s = record {
  flights = s.flights;
  unique = s.unique;
  known = s.known;
  apart = s.apart;
  flying = s.flying;
  slots = s.slots;
  quota = λ most h. let q = s.quota most h in omega arith;
}

Sound-counted :
    (c : Config) (l : List TaskSpec) (nid : String) (x : Exec)
    → Sound c 1 l x
    → Sound c 0 l (record x { executed = x.executed ++ nid ∷ [] })
Sound-counted c l nid x s = record {
  flights = s.flights;
  unique = s.unique;
  known = s.known;
  apart = s.apart;
  flying = s.flying;
  slots = s.slots;
  quota = λ most h.
      let q = s.quota most h in let n = length-append x.executed (nid ∷ []) in omega arith;
}

Sound-popped :
    (c : Config) (l : List TaskSpec) (nid : String) (x : Exec)
    → elem nid (ids l) ≡ true
    → Sound c 0 l x
    → Sound c 1 (pop nid l) (record x { in_flight = pop nid x.in_flight })
Sound-popped c l nid x there s = record {
  flights = ap (pop nid) s.flights;
  unique = s.unique;
  known = s.known;
  apart = has_duplicates-without (λ (t : TaskSpec). t.id) nid l s.apart;
  flying =
      λ n m. s.flying n (let e = elem-without (λ (t : TaskSpec). t.id) nid n l in ground arith);
  slots =
      let a = length-without-le (λ (t : TaskSpec). t.id) nid l in let b = s.slots in omega arith;
  quota = λ most h.
      let q = s.quota most h in
      let a = length-without-lt (λ (t : TaskSpec). t.id) nid l there in omega arith;
}

settle_outcome-Sound :
    (c : Config) (task : TaskSpec) (r : Bool × Fields) (l : List TaskSpec)
    → elem task.id (ids l) ≡ false
    → (x : Exec) → Sound c 1 l x
    → Sound c 0 l (settle_outcome c task r x).1
unfolding settle_outcome
settle_outcome-Sound c task (success, payload) l gone =
    bind-Into (Sound c 1 l) (Sound c 0 l)
      (call (Store.record_outcome c.run_id task.id success payload)) _ (Sound-uncounted c l)
      (outcome-Sound task.id success payload c 1 l gone)
      λ event x s.
        bind-Keeps (Sound c 0 l) (replan c event) _ (replan-Sound c event 0 l) (λ _ y q. q)
          (record x { executed = x.executed ++ task.id ∷ [] }) (Sound-counted c l task.id x s)

keep_or_discard-Sound :
    (c : Config) (task : TaskSpec) (r : Bool × Fields) (l : List TaskSpec)
    → elem task.id (ids l) ≡ false
    → (x : Exec) → Sound c 1 l x
    → Sound c 0 l (keep_or_discard c task r x).1
unfolding keep_or_discard
keep_or_discard-Sound c task r l gone =
    bind-Into (Sound c 1 l) (Sound c 0 l) (call (λ db. (Store.node_state c.run_id task.id db, db)))
      _ (Sound-uncounted c l) (read-Sound (Store.node_state c.run_id task.id) c 1 l)
      λ s. chosen (s =ₛ cancelled)
  where
    chosen :
        (b : Bool) (x : Exec)
        → Sound c 1 l x
        → Sound c 0 l ((if b then pure false else settle_outcome c task r) x).1
    chosen true x q = Sound-uncounted c l x q
    chosen false x q = settle_outcome-Sound c task r l gone x q

popped-gone : (nid : String) (l : List TaskSpec) → elem nid (ids (pop nid l)) ≡ false
popped-gone nid l = rw (elem-without (λ (t : TaskSpec). t.id) nid nid l, eq_self nid)

pub handle-Sound :
    (c : Config) (d : TaskSpec × Ending) (l : List TaskSpec) (x : Exec)
    → elem d.0.id (ids l) ≡ true
    → Sound c 0 l x
    → Sound c 0 (pop d.0.id l) (handle c d x).1
unfolding handle
handle-Sound c (task, ending) l x there s = go (execute c.known task ending)
  where
    popped : Sound c 1 (pop task.id l) (record x { in_flight = pop task.id x.in_flight })
    popped = Sound-popped c l task.id x there s

    go :
        (o : Option (Bool × Fields))
        → Sound c 0
            (pop task.id l)
            (elim o as (λ _. Outcome ExecError Bool × Exec) [
              | none ↦ (ok false, record x { in_flight = pop task.id x.in_flight })
              | some result ↦
                  keep_or_discard c task result (record x { in_flight = pop task.id x.in_flight })
            ]).1
    go none =
        Sound-uncounted c (pop task.id l) (record x { in_flight = pop task.id x.in_flight }) popped
    go (some r) =
        keep_or_discard-Sound c task r (pop task.id l) (popped-gone task.id l)
          (record x { in_flight = pop task.id x.in_flight }) popped
