-- ===== src/Graph/Executor/Flights.antt =====
-- What the calls of the executor of core/live_graph/core.py do to the nodes whose tasks are in
-- flight.
use mathlib.Core.Option
use mathlib.Core.List.Memᴰ
use s13code.Prelude.{
  ℕ, String, ◌≡◌, refl, ◌∙◌, ap, Bool, true, false, ◌&&◌, ◌==◌, Option, none, some, List, [], ◌∷◌,
  map, filter, take, sort_by, arith, eq_iff, eq_self, if◌then◌else◌, Outcome, ok, err, ◌⊎◌, inl,
  inr, Bool-cases, elem, has_duplicates, Memᴰ,
}
use s13code.Prelude.Members.{Memᴰ_cons}
use s13code.Prelude.Distinct.{has_duplicates-sort_by, has_duplicates-take, elem-found}
use s13code.Graph.Types.{
  NodeState, pending, running, cancelled, waiting, ◌=ₛ◌, TaskSpec, GraphPatch, GraphError,
}
use s13code.Graph.Db.{Db, NodeRow, is_node, for_each}
use s13code.Graph.Store.{ready, is_ready, row_le, spec, mark_running, start_task}
use s13code.Graph.Store.Ready.{ready_lem}
use s13code.Graph.Patch
use s13code.Graph.Patch.{is_open}
use s13code.Graph.Patch.Stages.{Applied, repeated, refused, committed, apply_patch_cases}
use s13code.Graph.Patch.Checks.{check_patch-Checked}
use s13code.Graph.Patch.Settle.{settle, settle_by, settled}
use s13code.Graph.Keys.{Unique}
use s13code.Graph.Nodes.{state_in, swap_state}
use s13code.Graph.Snapshot.{snapshot-state}
use s13code.Graph.Calls.States.{started-state, task_ids}
use s13code.Graph.Executor.{ids}

stored-key :
    (n : NodeRow) (ns : List NodeRow)
    → Memᴰ n ns
    → (run nid : String) → is_node run nid n ≡ true
    → ¬ (state_in run nid ns ≡ none)
stored-key n [] m run nid k h = Memᴰ.not-nil m
stored-key n (x ∷ ns) m run nid k h = elim ((Memᴰ_cons n x ns).0 m) [
  | inl e ↦ let here : is_node run nid x ≡ true = (rw e at k) in absurd (ground arith)
  | inr t ↦ stored-key n ns t run nid k (ground arith)
]

-- A row of the table is the one that its key finds.
pub Unique-state :
    (n : NodeRow) (ns : List NodeRow)
    → Unique ns
    → Memᴰ n ns
    → state_in n.run_id n.id ns ≡ some n.state
Unique-state n [] u m = absurd (Memᴰ.not-nil m)
Unique-state n (x ∷ ns) u m = elim ((Memᴰ_cons n x ns).0 m) [
  | inl e ↦ rw (e, eq_self x.run_id, eq_self x.id)
  | inr t ↦ elim (Bool-cases (is_node n.run_id n.id x)) [
    | inl k ↦ absurd (
        stored-key n ns t x.run_id x.id
          (ground (
            arith,
            eq_iff n.run_id x.run_id,
            eq_iff n.id x.id,
            eq_iff x.run_id n.run_id,
            eq_iff x.id n.id,
          ))
          u.0)
    | inr k ↦ rw k (Unique-state n ns u.1 t)
  ]
]

absent-ids :
    (p : NodeRow → Bool) (run nid : String) (ns : List NodeRow)
    → ((n : NodeRow) → p n ≡ true → (n.run_id == run) ≡ true)
    → state_in run nid ns ≡ none
    → elem nid (map (λ n. n.id) (filter p ns)) ≡ false
absent-ids p run nid [] only h = refl
absent-ids p run nid (n ∷ ns) only h = elim (Bool-cases (p n)) [
  | inl e ↦
      let here = only n e in
      let rest = absent-ids p run nid ns only (ground arith) in
      rw (e, rest) (ground (arith, eq_iff nid n.id, eq_iff n.id nid))
  | inr e ↦ rw e (absent-ids p run nid ns only (ground arith))
]

filtered-distinct :
    (p : NodeRow → Bool) (run : String) (ns : List NodeRow)
    → ((n : NodeRow) → p n ≡ true → (n.run_id == run) ≡ true)
    → Unique ns
    → has_duplicates (map (λ n. n.id) (filter p ns)) ≡ false
filtered-distinct p run [] only u = refl
filtered-distinct p run (n ∷ ns) only u = elim (Bool-cases (p n)) [
  | inl e ↦ rw (
    e,
    absent-ids p run n.id ns only (rw ((eq_iff n.run_id run).0 (only n e)) at (u.0)),
    filtered-distinct p run ns only u.1,
  )
  | inr e ↦ rw e (filtered-distinct p run ns only u.1)
]

ids-spec : (ns : List NodeRow) → ids (map spec ns) ≡ map (λ n. n.id) ns
ids-spec [] = refl
ids-spec (n ∷ ns) = rw (ids-spec ns)

-- The ready tasks are distinct.
pub ready-distinct :
    (run : String) (limit : ℕ) (db : Db)
    → Unique db.nodes
    → has_duplicates (ids (ready run limit db)) ≡ false
unfolding ready
ready-distinct run limit db u =
    rw (ids-spec (take limit (sort_by row_le (filter (is_ready run db) db.nodes)))) (
      has_duplicates-take (λ n. n.id) limit (sort_by row_le (filter (is_ready run db) db.nodes))
        (rw (has_duplicates-sort_by (λ n. n.id) row_le (filter (is_ready run db) db.nodes))
          (filtered-distinct (is_ready run db) run db.nodes (λ n h. ground arith) u)))

-- A ready task is pending.
pub ready-pending :
    (run : String) (limit : ℕ) (db : Db) (nid : String)
    → Unique db.nodes
    → elem nid (ids (ready run limit db)) ≡ true
    → state_in run nid db.nodes ≡ some pending
ready-pending run limit db nid u h =
    let (t, m, e) = elem-found (λ (t : TaskSpec). t.id) nid (ready run limit db) h in
    let (n, r, s) = (ready_lem run limit db).1 t m in
    rw (← r.here, ← r.waits, ← e, ← s) (Unique-state n db.nodes u r.stored)

-- A task in flight is running, or the graph has cancelled it.
abbrev pub Flying : Option NodeState → Type 0
Flying o = (o ≡ some running) ⊎ (o ≡ some cancelled)

settle-Flying : (c w q f : Bool) → w ≡ false → q ≡ false → Flying (some (settle_by c w q f running))
settle-Flying true w q f hw hq = inr (ground arith)
settle-Flying false w q true hw hq = inr (ground arith)
settle-Flying false w q false hw hq = inl (ground arith)

settle-cancelled :
    (c w q f : Bool) → c ≡ false → w ≡ false → q ≡ false → settle_by c w q f cancelled ≡ cancelled
settle-cancelled c w q f hc hw hq = ground arith

elem-false :
    (x : String) (xs : List String) (s t : NodeState)
    → (elem x xs ≡ true → (s =ₛ t) ≡ true)
    → (s =ₛ t) ≡ false
    → elem x xs ≡ false
elem-false x xs s t h k = elim (Bool-cases (elem x xs)) [
  | inl e ↦ absurd (let m = h e in ground arith)
  | inr e ↦ e
]

not_open :
    (x : String) (xs : List String)
    → (elem x xs ≡ true → is_open cancelled ≡ true)
    → elem x xs ≡ false
not_open x xs h = elim (Bool-cases (elem x xs)) [
  | inl e ↦ absurd (let m = h e in ground arith)
  | inr e ↦ e
]

patched_Flying :
    (run : String) (patch : GraphPatch) (trigger : ℕ) (db db' : Db) (nid : String)
    → Unique db.nodes
    → Applied run patch trigger db db'
    → Flying (state_in run nid db.nodes)
    → Flying (state_in run nid db'.nodes)
patched_Flying run patch trigger db db' nid u a f = elim f [
  | inl e ↦
      let c = check_patch-Checked a.existing patch a.checked in
      let shown = snapshot-state run db a.existing a.found nid ∙ e in
      let s : state_in run nid db'.nodes ≡ some (settle patch nid running) =
        settled run patch a.existing trigger db db' u a.stages run nid ∙ rw (e, eq_self run) in
      rw s (
        settle-Flying _ _ _ patch.finish
          (elem-false nid patch.wait running pending (λ m. c.waits nid running m shown) refl)
          (elem-false nid patch.resume running waiting (λ m. c.resumes nid running m shown) refl))
  | inr e ↦
      let c = check_patch-Checked a.existing patch a.checked in
      let shown = snapshot-state run db a.existing a.found nid ∙ e in
      let s : state_in run nid db'.nodes ≡ some (settle patch nid cancelled) =
        settled run patch a.existing trigger db db' u a.stages run nid ∙ rw (e, eq_self run) in
      inr (
        s
        ∙ ap some (
            settle-cancelled _ _ _ patch.finish
              (not_open nid patch.cancel (λ m. c.cancels nid cancelled m shown))
              (elem-false nid patch.wait cancelled pending (λ m. c.waits nid cancelled m shown)
                refl)
              (elem-false nid patch.resume cancelled waiting (λ m. c.resumes nid cancelled m shown)
                refl)))
]

-- A patch keeps the tasks in flight running, or cancels them.
pub apply_patch-Flying :
    (run : String) (patch : GraphPatch) (trigger : ℕ) (db : Db) (nid : String)
    → Unique db.nodes
    → Flying (state_in run nid db.nodes)
    → Flying (state_in run nid (Patch.apply_patch run patch trigger db).1.nodes)
apply_patch-Flying run patch trigger db nid u f = elim (apply_patch_cases run patch trigger db) [
  | repeated _ e ↦ rw e f
  | refused _ e ↦ rw e f
  | committed db' e a ↦ rw e (patched_Flying run patch trigger db db' nid u a f)
]

started_Flying :
    (b : Bool) (o : Option NodeState)
    → Flying o
    → Flying (Option.map (λ s. if b then swap_state pending running s else s) o)
started_Flying b o (inl e) = inl (rw e (ground arith))
started_Flying b o (inr e) = inr (rw e (ground arith))

-- Starting ready tasks leaves the others in flight as they were, and puts these in flight, if it
-- returns; if it raises nothing changed.
pub mark_running-Flying :
    (run : String) (limit : ℕ) (db : Db)
    → Unique db.nodes
    → (((mark_running run (ready run limit db) db).0 ≡ ok tt)
        × ((nid : String)
            → (Flying (state_in run nid db.nodes) ⊎ (elem nid (ids (ready run limit db)) ≡ true))
            → Flying (state_in run nid (mark_running run (ready run limit db) db).1.nodes)))
      ⊎ ((e : GraphError) × (mark_running run (ready run limit db) db ≡ (err e, db)))
unfolding mark_running
mark_running-Flying run limit db u = go (for_each (start_task run) (ready run limit db) db) refl
  where
    go :
        (o : Outcome GraphError (Unit × Db))
        → for_each (start_task run) (ready run limit db) db ≡ o
        → (((mark_running run (ready run limit db) db).0 ≡ ok tt)
            × ((nid : String)
                → (Flying (state_in run nid db.nodes)
                    ⊎ (elem nid (ids (ready run limit db)) ≡ true))
                → Flying (state_in run nid (mark_running run (ready run limit db) db).1.nodes)))
          ⊎ ((e : GraphError) × (mark_running run (ready run limit db) db ≡ (err e, db)))
    go (err x) e = inr (x, rw e)
    go (ok (tt, d)) e = inl (
      rw e,
      λ nid f.
          rw (e, started-state run (ready run limit db) db d e run nid)
            (elim f [
              | inl k ↦
                  started_Flying (run == run && elem nid (task_ids (ready run limit db)))
                    (state_in run nid db.nodes) k
              | inr k ↦ rw (k, eq_self run, ready-pending run limit db nid u k) (inl refl)
            ]),
    )
