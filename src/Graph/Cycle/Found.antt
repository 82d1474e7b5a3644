-- ===== src/Graph/Cycle/Found.antt =====
-- The search of `_has_cycle` in core/live_graph/store.py when it reports a cycle.
use s13code.Prelude.{
  ℕ, zero, suc, String, ◌≡◌, refl, inl, inr, Bool, true, false, ◌==◌, Option, some, List, [], ◌∷◌,
  Memᴰ, arith, eq_iff, elem, Bool-cases, Option-cases, length,
}
use s13code.Graph.Cycle.{
  Adjacency, adjacency, children, keys, Marks, any_visit, visit, has_cycle, unmarked, enter,
}
use s13code.Graph.Cycle.Sound.{
  Visited, on_stack, known, entered, visit_cases, visit-Restores, result_some,
}

-- A walk along one dependency edge or more.
pub data Leads (adj : Adjacency) (u : String) : String → Type 0 where
  link : {v : String} → Memᴰ v (children u adj) → Leads adj u v
  more : {v w : String} → Leads adj u v → Memᴰ w (children v adj) → Leads adj u w

abbrev pub Loop : Adjacency → Type 0
Loop adj = (u : String) × Leads adj u u

module _ (adj : Adjacency) where
  -- Every node on the stack leads to `n`.
  abbrev OnWay : String → Marks → Type 0
  OnWay n m = (a : String) → elem a m.active ≡ true → Leads adj a n

  abbrev Finds : (String → Marks → Option (Bool × Marks)) → Type 0
  Finds v = (c : String) (m m' : Marks) → v c m ≡ some (true, m') → OnWay c m → Loop adj

  any_visit-Finds :
      (fuel : ℕ)
      → Finds (visit adj fuel)
      → (cs : List String) (m m' : Marks) → any_visit (visit adj fuel) cs m ≡ some (true, m')
      → ((c : String) → Memᴰ c cs → OnWay c m)
      → Loop adj
  unfolding any_visit
  any_visit-Finds fuel k [] m m' h w = absurd (ground arith)
  any_visit-Finds fuel k (c ∷ cs) m m' h w = elim (Option-cases (visit adj fuel c m)) [
    | inl e ↦ absurd (ground arith)
    | inr ((true, n), e) ↦ k c m n e (w c (Memᴰ.head refl))
    | inr ((false, n), e) ↦
        let kept = visit-Restores adj fuel c m n false e in
        any_visit-Finds fuel k cs n m' (rw (e, any_visit) at h)
          (λ d mem a on. w d (Memᴰ.tail mem) a (rw kept at on))
  ]

  below_enter :
      (n : String) (m : Marks)
      → OnWay n m
      → (c : String) → Memᴰ c (children n adj)
      → OnWay c (enter n m)
  below_enter n m w c mem a on = elim (Bool-cases (a == n)) [
    | inl e ↦ rw ((eq_iff a n).0 e) (link mem)
    | inr e ↦ more (w a (ground arith)) mem
  ]

  Visited-Finds :
      (fuel : ℕ) (n : String) (m m' : Marks)
      → Finds (visit adj fuel)
      → OnWay n m
      → Visited adj fuel n m true m'
      → Loop adj
  Visited-Finds fuel n m m' k w (on_stack a b e) = (n, w n a)
  Visited-Finds fuel n m m' k w (known a s b e) = absurd (ground arith)
  Visited-Finds fuel n m m' k w (entered j a v es ea) =
      any_visit-Finds fuel k (children n adj) (enter n m) j v (below_enter n m w)

visit-Finds : (adj : Adjacency) (fuel : ℕ) → Finds adj (visit adj fuel)
visit-Finds adj zero n m m' h w = absurd (unfold visit in ground arith)
visit-Finds adj (suc fuel) n m m' h w =
    Visited-Finds adj fuel n m m' (visit-Finds adj fuel) w (visit_cases adj fuel n m m' true h)

pub has_cycle-Loop :
    (rows : List (String × String)) → has_cycle rows ≡ some true → Loop (adjacency rows)
unfolding has_cycle
has_cycle-Loop rows h =
    let adj = adjacency rows in
    let fuel = suc (suc (length (keys adj))) in
    let (m, e) = result_some (any_visit (visit adj fuel) (keys adj) unmarked) true h in
    any_visit-Finds adj fuel (visit-Finds adj fuel) (keys adj) unmarked m e
      (λ c _ a on. absurd (ground arith))
