-- ===== src/Graph/Executor/Launch.antt =====
-- The invariant of the loop of core/live_graph/core.py when the free slots are filled.
use s13code.Prelude.{
  ℕ, zero, suc, ◌+◌, ◌-◌, ◌≤◌, String, ◌≡◌, refl, ap, true, false, Option, none, some, List, [],
  ◌∷◌, ◌++◌, length, length-append, arith, Outcome, ok, err, ◌⊎◌, inl, inr, Bool-cases, elem,
  elem-append, has_duplicates,
}
use s13code.Prelude.Distinct.{has_duplicates-append}
use s13code.Graph.Types.{TaskSpec, GraphError}
use s13code.Graph.Db.{Db}
use s13code.Graph.Store
use s13code.Graph.Store.{ready}
use s13code.Graph.Store.Ready.{ready_lem}
use s13code.Graph.Keys.{Unique}
use s13code.Graph.Nodes.{state_in}
use s13code.Graph.Calls
use s13code.Graph.Calls.{step}
use s13code.Graph.Calls.Terminal.{step-Unique}
use s13code.Graph.Calls.Acyclic.{mark_running-tables}
use s13code.Graph.Patch.Frame.{Tables}
use s13code.Graph.Executor.{Config, Exec, ids, start_all, launch, capacity, fill, stored}
use s13code.Graph.Executor.Flights.{Flying, mark_running-Flying, ready-distinct, ready-pending}
use s13code.Graph.Executor.Sound.{Sound}

-- The free slots, and what is left of the quota.
capacity-le :
    (c : Config) (x : Exec)
    → (capacity c x ≤ c.max_workers - length x.in_flight)
      × ((most : ℕ)
          → c.max_completed ≡ some most
          → capacity c x ≤ (most - length x.executed) - length x.in_flight)
unfolding capacity
capacity-le c x = go c.max_completed refl
  where
    go :
        (o : Option ℕ)
        → c.max_completed ≡ o
        → (capacity c x ≤ c.max_workers - length x.in_flight)
          × ((most : ℕ)
              → c.max_completed ≡ some most
              → capacity c x ≤ (most - length x.executed) - length x.in_flight)
    go none e = (rw e (omega arith), λ most h. absurd (ground arith))
    go (some m) e = (
      rw e (ground arith),
      λ most h. let same : most ≡ m = ground arith in rw (e, same) (ground arith),
    )

ids-append : (ts us : List TaskSpec) → ids (ts ++ us) ≡ ids ts ++ ids us
ids-append [] us = refl
ids-append (t ∷ ts) us = rw (ids-append ts us)

-- A ready task is not in flight.
ready-grounded :
    (run : String) (limit : ℕ) (db : Db) (nid : String)
    → Unique db.nodes
    → Flying (state_in run nid db.nodes)
    → elem nid (ids (ready run limit db)) ≡ false
ready-grounded run limit db nid u f = elim (Bool-cases (elem nid (ids (ready run limit db)))) [
  | inl e ↦ absurd (
      let p = ready-pending run limit db nid u e in
      elim f [ inl k ↦ ground arith | inr k ↦ ground arith ])
  | inr e ↦ e
]

-- What is known of the tasks `ts` that are about to start.
record Startable (c : Config) (l ts : List TaskSpec) (x : Exec) : Type 0 where
  distinct : has_duplicates (ids ts) ≡ false
  grounded : (nid : String) → elem nid (ids l) ≡ true → elem nid (ids ts) ≡ false
  fits : length l + length ts ≤ c.max_workers
  counts :
      (most : ℕ) → c.max_completed ≡ some most → length x.executed + (length l + length ts) ≤ most
  marks :
      (((Store.mark_running c.run_id ts x.db).0 ≡ ok tt)
        × ((nid : String)
            → (Flying (state_in c.run_id nid x.db.nodes) ⊎ (elem nid (ids ts) ≡ true))
            → Flying (state_in c.run_id nid (Store.mark_running c.run_id ts x.db).1.nodes)))
      ⊎ ((e : GraphError) × (Store.mark_running c.run_id ts x.db ≡ (err e, x.db)))

started-Sound :
    (c : Config) (l ts : List TaskSpec) (x : Exec)
    → Startable c l ts x
    → ((nid : String)
        → (Flying (state_in c.run_id nid x.db.nodes) ⊎ (elem nid (ids ts) ≡ true))
        → Flying (state_in c.run_id nid (Store.mark_running c.run_id ts x.db).1.nodes))
    → Sound c 0 l x
    → Sound c 0
        (l ++ ts)
        (record x { db = (Store.mark_running c.run_id ts x.db).1; in_flight = x.in_flight ++ ts })
started-Sound c l ts x r f s = record {
  flights = ap (λ q. q ++ ts) s.flights;
  unique = unfold step in step-Unique x.db (Calls.mark_running c.run_id ts) s.unique;
  known = rw (ap (λ (t : Tables). t.runs) (mark_running-tables c.run_id ts x.db)) s.known;
  apart =
      rw (ids-append l ts) (has_duplicates-append (ids l) (ids ts) s.apart r.distinct r.grounded);
  flying = λ nid m. f nid (elim (Bool-cases (elem nid (ids l))) [
    | inl e ↦ inl (s.flying nid e)
    | inr e ↦ inr (rw (ids-append l ts, elem-append nid (ids l) (ids ts), e) at m)
  ]);
  slots = let n = length-append l ts in let b = r.fits in omega arith;
  quota = λ most h. let n = length-append l ts in let b = r.counts most h in omega arith;
}

start_all-Sound :
    (c : Config) (l ts : List TaskSpec) (x : Exec)
    → Startable c l ts x
    → Sound c 0 l x
    → (l' : List TaskSpec) × Sound c 0 l' (start_all c ts x).1
unfolding start_all
start_all-Sound c l [] x r s = (l, s)
start_all-Sound c l (t ∷ ts) x r s = elim r.marks [
  | inl (e, f) ↦ (
    l ++ t ∷ ts,
    rw (stored_ok (Store.mark_running c.run_id (t ∷ ts) x.db) e)
        (started-Sound c l (t ∷ ts) x r f s),
  )
  | inr (err_, e) ↦ (l, rw e s)
]
  where
    stored_ok :
        (o : Outcome GraphError Unit × Db)
        → o.0 ≡ ok tt
        → stored o x ≡ (ok tt, record x { db = o.1 })
    stored_ok (ok _, d) h = refl
    stored_ok (err _, d) h = absurd (ground arith)

launch-Sound :
    (c : Config) (n : ℕ) (l : List TaskSpec) (x : Exec)
    → (length l + n ≤ c.max_workers ⊎ (n ≡ 0))
    → ((most : ℕ)
        → c.max_completed ≡ some most
        → (length x.executed + (length l + n) ≤ most) ⊎ (n ≡ 0))
    → Sound c 0 l x
    → (l' : List TaskSpec) × Sound c 0 l' (launch c n x).1
unfolding launch
launch-Sound c zero l x w q s = (l, s)
launch-Sound c (suc n) l x w q s =
    start_all-Sound c l (ready c.run_id (suc n) x.db) x
      (record {
        distinct = ready-distinct c.run_id (suc n) x.db s.unique;
        grounded = λ nid m. ready-grounded c.run_id (suc n) x.db nid s.unique (s.flying nid m);
        fits = elim w [ inl h ↦ omega (arith, few) | inr h ↦ absurd (omega arith) ];
        counts =
            λ most k. elim (q most k) [ inl h ↦ omega (arith, few) | inr h ↦ absurd (omega arith) ];
        marks = mark_running-Flying c.run_id (suc n) x.db s.unique;
      })
      s
  where
    few : length (ready c.run_id (suc n) x.db) ≤ suc n
    few = (ready_lem c.run_id (suc n) x.db).0

monus_fits : (k l m : ℕ) → k ≤ m - l → (l + k ≤ m) ⊎ (k ≡ 0)
monus_fits zero l m h = inr refl
monus_fits (suc k) l m h = inl (omega arith)

monus_counts : (k e l m : ℕ) → k ≤ (m - e) - l → (e + (l + k) ≤ m) ⊎ (k ≡ 0)
monus_counts zero e l m h = inr refl
monus_counts (suc k) e l m h = inl (omega arith)

pub fill-Sound :
    (c : Config) (l : List TaskSpec) (x : Exec)
    → Sound c 0 l x
    → (l' : List TaskSpec) × Sound c 0 l' (fill c x).1
unfolding fill
fill-Sound c l x s = elim (Bool-cases (Store.is_finished c.run_id x.db)) [
  | inl e ↦ (l, rw e s)
  | inr e ↦
      let (a, b) = capacity-le c x in
      let same = ap length s.flights in
      let (l', s') =
        launch-Sound c (capacity c x) l x
          (monus_fits (capacity c x) (length l) c.max_workers (omega (arith, same)))
          (λ most h.
            monus_counts (capacity c x) (length x.executed) (length l) most
              (omega (arith, same, b most h)))
          s in
      (l', rw e s')
]
