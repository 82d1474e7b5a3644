-- ===== src/Graph/Executor/Loops.antt =====
-- One turn of the loop of LiveGraphExecutor in core/live_graph/core.py, and the loop.
use s13code.Prelude.{
  ℕ, ◌≤◌, ◌≡◌, refl, sym, ◌∙◌, subst, Bool, true, false, Option, none, some, List, [], ◌∷◌, length,
  leb, arith, if◌then◌else◌, Outcome, ok, err, sort_by,
}
use s13code.Graph.Types.{TaskSpec}
use s13code.Graph.Store
use s13code.Graph.Executor.{
  Config, Exec, ExecError, Tick, ◌>>=◌, and_then, pure, handle_all, at_stop, fill, ended, by_id,
  turn, loop, cancel_flights,
}
use s13code.Graph.Executor.Sound.{Sound, cancel_flights-Sound}
use s13code.Graph.Executor.Turns.{Held, ended-Held}
use s13code.Graph.Executor.Launch.{fill-Sound}

-- The invariant holds, and an answer True leaves no task in flight.
abbrev pub Landed : Config → Outcome ExecError Bool × Exec → Type 0
Landed c o = ((l : List TaskSpec) × Sound c 0 l o.1) × (o.0 ≡ ok true → o.1.in_flight ≡ [])

none_left : (ts : List TaskSpec) → length ts ≤ 0 → ts ≡ []
none_left [] h = refl
none_left (t ∷ ts) h = absurd (omega arith)

-- At the test stop the quota is used up.
stop-empty :
    (c : Config) (l : List TaskSpec) (x : Exec)
    → Sound c 0 l x
    → at_stop c x ≡ true
    → x.in_flight ≡ []
stop-empty c l x s h = go c.max_completed refl
  where
    go : (o : Option ℕ) → c.max_completed ≡ o → x.in_flight ≡ []
    go none e = absurd (let k : at_stop c x ≡ false = rw e in ground arith)
    go (some m) e =
        let k : leb m (length x.executed) ≡ true =
          (let f : at_stop c x ≡ leb m (length x.executed) = rw e in sym f ∙ h) in
        let q = s.quota m e in s.flights ∙ none_left l (ground arith)

pub turn-Landed :
    (c : Config) (tick : Tick) (l : List TaskSpec) (x : Exec)
    → Sound c 0 l x
    → Landed c (turn c tick x)
unfolding turn
turn-Landed c tick l x s = filled (fill c x) (fill-Sound c l x s)
  where
    after : (b : Bool) (y : Exec) → Exec
    after b y = if b then cancel_flights c true y else y

    kept :
        (b : Bool) (l : List TaskSpec) (y : Exec)
        → Sound c 0 l y
        → Sound c 0 l (if b then cancel_flights c true y else y)
    kept true l y q = cancel_flights-Sound c true 0 l y q
    kept false l y q = q

    handled :
        (o : Outcome ExecError Bool × Exec)
        → Held c o
        → Landed c (
            and_then o (λ stop. if stop then pure true else (λ y.
              (ok false, if Store.is_finished c.run_id y.db then cancel_flights c true y else y))))
    handled (ok true, y) ((l', q), stops) = ((l', q), λ _. stop-empty c l' y q (stops refl))
    handled (ok false, y) ((l', q), stops) =
        ((l', kept (Store.is_finished c.run_id y.db) l' y q), λ h. absurd (ground arith))
    handled (err e, y) ((l', q), stops) = ((l', q), λ h. absurd (ground arith))

    flown :
        (ts : List TaskSpec) (y : Exec) (l' : List TaskSpec)
        → Sound c 0 l' y
        → y.in_flight ≡ ts
        → Landed c (elim ts as (λ _. Outcome ExecError Bool × Exec) [
          | [] ↦ (ok true, y)
          | _ ∷ _ ↦
              (handle_all c (sort_by by_id (ended tick y.in_flight)) >>= λ stop.
              if stop then pure true else (λ y.
                (ok false, if Store.is_finished c.run_id y.db then cancel_flights c true y else y)))
                y
        ])
    flown [] y l' q e = ((l', q), λ _. e)
    flown (t ∷ ts) y l' q e = handled (handle_all c (sort_by by_id (ended tick y.in_flight)) y) (
        subst (λ fs. Held c (handle_all c (sort_by by_id (ended tick fs)) y)) (sym q.flights)
          (ended-Held c tick l' y q))

    filled :
        (o : Outcome ExecError Unit × Exec)
        → (l' : List TaskSpec) × Sound c 0 l' o.1
        → Landed c (
            and_then o (λ _ y. elim y.in_flight as (λ _. Outcome ExecError Bool × Exec) [
              | [] ↦ (ok true, y)
              | _ ∷ _ ↦
                  (handle_all c (sort_by by_id (ended tick y.in_flight)) >>= λ stop.
                  if stop then pure true else (λ y. (
                    ok false,
                    if Store.is_finished c.run_id y.db then cancel_flights c true y else y,
                  )))
                    y
            ]))
    filled (ok _, y) (l', q) = flown y.in_flight y l' q refl
    filled (err e, y) (l', q) = ((l', q), λ h. absurd (ground arith))

pub loop-Landed :
    (c : Config) (ticks : List Tick) (l : List TaskSpec) (x : Exec)
    → Sound c 0 l x
    → Landed c (loop c ticks x)
unfolding loop
loop-Landed c [] l x s = ((l, s), λ h. absurd (ground arith))
loop-Landed c (t ∷ ts) l x s =
    go (turn c t x) (turn-Landed c t l x s) (λ l' y q. loop-Landed c ts l' y q)
  where
    go :
        (o : Outcome ExecError Bool × Exec)
        → Landed c o
        → ((l' : List TaskSpec) (y : Exec) → Sound c 0 l' y → Landed c (loop c ts y))
        → Landed c (and_then o (λ stop. if stop then pure true else loop c ts))
    go (ok true, y) (q, h) rest = (q, h)
    go (ok false, y) ((l', q), h) rest = rest l' y q
    go (err e, y) (q, h) rest = (q, λ k. absurd (ground arith))
