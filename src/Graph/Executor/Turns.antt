-- ===== src/Graph/Executor/Turns.antt =====
-- Turns of the loop of core/live_graph/core.py, one after the other.
use s13code.Prelude.{
  String, ◌≡◌, refl, sym, ◌∙◌, Bool, true, false, Option, none, some, List, [], ◌∷◌, ◌++◌, map,
  sort_by, arith, eq_iff, eq_self, if◌then◌else◌, Outcome, ok, err, inl, inr, Option-cases, elem,
  has_duplicates,
}
use s13code.Prelude.Distinct.{elem-without, elem-sort_by, has_duplicates-sort_by}
use s13code.Json.{Fields}
use s13code.Graph.Types.{cancelled, ◌=ₛ◌, TaskSpec}
use s13code.Graph.Store
use s13code.Graph.Executor.{
  Config, Exec, ExecError, Act, Ending, Tick, ◌>>=◌, and_then, pure, call, execute, ids, replan,
  settle_outcome, keep_or_discard, handle, handle_all, pop, at_stop, ended, by_id,
}
use s13code.Graph.Executor.Sound.{Sound}
use s13code.Graph.Executor.Rounds.{handle-Sound}

-- An answer True means that the test stop is reached.
abbrev Stops : Config → Outcome ExecError Bool × Exec → Type 0
Stops c o = o.0 ≡ ok true → at_stop c o.1 ≡ true

bind-Stops :
    {A : Type 0} (c : Config) (m : Act A) (f : A → Act Bool)
    → ((a : A) (x : Exec) → Stops c (f a x))
    → (x : Exec) → Stops c ((m >>= f) x)
bind-Stops {A} c m f k x = go (m x)
  where
    go : (o : Outcome ExecError A × Exec) → Stops c (and_then o f)
    go (ok a, y) = k a y
    go (err e, y) = λ h. absurd (ground arith)

settle_outcome-Stops :
    (c : Config) (t : TaskSpec) (r : Bool × Fields) (x : Exec) → Stops c (settle_outcome c t r x)
unfolding settle_outcome
settle_outcome-Stops c t (success, payload) =
    bind-Stops c (call (Store.record_outcome c.run_id t.id success payload)) _ λ event x.
      bind-Stops c (replan c event) _ (λ _ y h. ground arith)
        (record x { executed = x.executed ++ t.id ∷ [] })

keep_or_discard-Stops :
    (c : Config) (t : TaskSpec) (r : Bool × Fields) (x : Exec) → Stops c (keep_or_discard c t r x)
unfolding keep_or_discard
keep_or_discard-Stops c t r =
    bind-Stops c (call (λ db. (Store.node_state c.run_id t.id db, db))) _
      λ s. chosen (s =ₛ cancelled)
  where
    chosen : (b : Bool) (x : Exec) → Stops c ((if b then pure false else settle_outcome c t r) x)
    chosen true x h = absurd (ground arith)
    chosen false x h = settle_outcome-Stops c t r x h

handle-Stops : (c : Config) (d : TaskSpec × Ending) (x : Exec) → Stops c (handle c d x)
unfolding handle
handle-Stops c (task, ending) x = go (execute c.known task ending)
  where
    go :
        (o : Option (Bool × Fields))
        → Stops c (elim o as (λ _. Outcome ExecError Bool × Exec) [
          | none ↦ (ok false, record x { in_flight = pop task.id x.in_flight })
          | some result ↦
              keep_or_discard c task result (record x { in_flight = pop task.id x.in_flight })
        ])
    go none = λ h. absurd (ground arith)
    go (some r) = keep_or_discard-Stops c task r (record x { in_flight = pop task.id x.in_flight })

-- The state after a part of the loop: the invariant, and what an answer True says.
abbrev pub Held : Config → Outcome ExecError Bool × Exec → Type 0
Held c o = ((l : List TaskSpec) × Sound c 0 l o.1) × Stops c o

abbrev done_ids : List (TaskSpec × Ending) → List String
done_ids ds = map (λ d. d.0.id) ds

handle_all-Held :
    (c : Config) (ds : List (TaskSpec × Ending)) (l : List TaskSpec) (x : Exec)
    → has_duplicates (done_ids ds) ≡ false
    → ((nid : String) → elem nid (done_ids ds) ≡ true → elem nid (ids l) ≡ true)
    → Sound c 0 l x
    → Held c (handle_all c ds x)
unfolding handle_all
handle_all-Held c [] l x apart inside s = ((l, s), λ h. absurd (ground arith))
handle_all-Held c (d ∷ ds) l x apart inside s =
    go (handle c d x) (handle-Sound c d l x (inside d.0.id (ground (arith, eq_self d.0.id))) s)
      (handle-Stops c d x)
      (λ y q.
        handle_all-Held c ds (pop d.0.id l) y (ground arith)
          (λ nid m.
            rw (elem-without (λ (t : TaskSpec). t.id) d.0.id nid l)
              (let there = inside nid (ground arith) in ground (arith, eq_iff nid d.0.id)))
          q)
  where
    go :
        (o : Outcome ExecError Bool × Exec)
        → Sound c 0 (pop d.0.id l) o.1
        → Stops c o
        → ((y : Exec) → Sound c 0 (pop d.0.id l) y → Held c (handle_all c ds y))
        → Held c (and_then o (λ stop. if stop then pure true else handle_all c ds))
    go (ok true, y) q h rest = ((pop d.0.id l, q), h)
    go (ok false, y) q h rest = rest y q
    go (err e, y) q h rest = ((pop d.0.id l, q), λ k. absurd (ground arith))

elem-ended :
    (tick : Tick) (nid : String) (l : List TaskSpec)
    → elem nid (done_ids (ended tick l)) ≡ true
    → elem nid (ids l) ≡ true
unfolding ended
elem-ended tick nid [] h = h
elem-ended tick nid (t ∷ l) h = elim (Option-cases (tick t.id)) [
  | inl e ↦ ground (arith, elem-ended tick nid l)
  | inr (a, e) ↦ ground (arith, elem-ended tick nid l)
]

has_duplicates-ended :
    (tick : Tick) (l : List TaskSpec)
    → has_duplicates (ids l) ≡ false
    → has_duplicates (done_ids (ended tick l)) ≡ false
unfolding ended
has_duplicates-ended tick [] h = refl
has_duplicates-ended tick (t ∷ l) h = elim (Option-cases (tick t.id)) [
  | inl e ↦ ground (arith, has_duplicates-ended tick l)
  | inr (a, e) ↦ ground (arith, has_duplicates-ended tick l, elem-ended tick t.id l)
]

pub ended-Held :
    (c : Config) (tick : Tick) (l : List TaskSpec) (x : Exec)
    → Sound c 0 l x
    → Held c (handle_all c (sort_by by_id (ended tick l)) x)
ended-Held c tick l x s =
    handle_all-Held c (sort_by by_id (ended tick l)) l x
      (has_duplicates-sort_by (λ (d : TaskSpec × Ending). d.0.id) by_id (ended tick l)
        ∙ has_duplicates-ended tick l s.apart)
      (λ nid m.
        elem-ended tick nid l
          (sym (elem-sort_by (λ (d : TaskSpec × Ending). d.0.id) by_id nid (ended tick l)) ∙ m))
      s
