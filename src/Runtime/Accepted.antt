-- ===== src/Runtime/Accepted.antt =====
-- The graph store accepts what the deterministic planner proposes: the checks of `apply_patch` in
-- core/live_graph/store.py against the patches of runtime.py.
use mathlib.Core.List.Memᴰ
use s13code.Prelude.{
  String, true, false, ◌==◌, some, List, [], ◌∷◌, ◌++◌, Memᴰ, ◌≡◌, refl, sym, ap, subst, ◌⊎◌, inl,
  inr, arith, eq_iff, elem, elem-append, any, has_duplicates, ok, ensure, Bool-cases,
}
use s13code.Graph.Types.{GraphPatch, GraphSnapshot, Event}
use s13code.Graph.Cycle.{has_cycle}
use s13code.Graph.Cycle.Correct.{Precedes, direct, through, Acyclic, has_cycle_decides}
use s13code.Graph.Patch.{check_patch, check_each, check_edge, then_check, add_ids}
use s13code.Runtime.Pieces.{RunRequest, Edges, node_ids}
use s13code.Runtime.Plans.{plan}
use s13code.Runtime.Edges.{EdgesFrom, task_ids}
use s13code.Runtime.Wired.{Wired, plan-Wired}

-- Both ends of each edge are in the graph.
abbrev pub EdgesWithin : List String → Edges → Type 0
EdgesWithin ns [] = Unit
EdgesWithin ns ((a, b) ∷ edges) = (elem a ns ≡ true) × (elem b ns ≡ true) × EdgesWithin ns edges

EdgesWithin-mem :
    (ns : List String) (edges : Edges) (a b : String)
    → EdgesWithin ns edges
    → Memᴰ (a, b) edges
    → (elem a ns ≡ true) × (elem b ns ≡ true)
EdgesWithin-mem ns [] a b w m = absurd (Memᴰ.not-nil m)
EdgesWithin-mem ns ((c, d) ∷ edges) a b (h, k, w) m = elim (Memᴰ.cases_cons m) [
  | inl e ↦ (
    subst (λ x. elem x ns ≡ true) (sym (ap (λ p. p.0) e)) h,
    subst (λ x. elem x ns ≡ true) (sym (ap (λ p. p.1) e)) k,
  )
  | inr t ↦ EdgesWithin-mem ns edges a b w t
]

EdgesFrom-mem :
    (ns added : List String) (edges : Edges) (a b : String)
    → EdgesFrom ns added edges
    → Memᴰ (a, b) edges
    → (elem a ns ≡ true) × (elem b added ≡ true)
EdgesFrom-mem ns added [] a b w m = absurd (Memᴰ.not-nil m)
EdgesFrom-mem ns added ((c, d) ∷ edges) a b (h, k, w) m = elim (Memᴰ.cases_cons m) [
  | inl e ↦ (
    subst (λ x. elem x ns ≡ true) (sym (ap (λ p. p.0) e)) h,
    subst (λ x. elem x added ≡ true) (sym (ap (λ p. p.1) e)) k,
  )
  | inr t ↦ EdgesFrom-mem ns added edges a b w t
]

-- A task that is added is not in the graph.
fresh :
    (ns added : List String) (x : String)
    → any (λ y. elem y ns) added ≡ false
    → elem x added ≡ true
    → elem x ns ≡ false
fresh ns [] x f h = absurd (ground arith)
fresh ns (y ∷ added) x f h = elim (Bool-cases (x == y)) [
  | inl e ↦
      let q : x ≡ y = (eq_iff x y).0 e in subst (λ z. elem z ns ≡ false) (sym q) (ground arith)
  | inr e ↦ fresh ns added x (ground arith) (ground arith)
]

module _ (ns added : List String) (rows edges : Edges) where
  -- From a task of the graph, either along old edges to one, or to a new task.
  abbrev Reaches : String → String → Type 0
  Reaches u v =
      (elem u ns ≡ true) × (((elem v ns ≡ true) × Precedes rows u v) ⊎ (elem v ns ≡ false))

  Precedes-Reaches :
      {u t : String}
      → EdgesWithin ns rows
      → EdgesFrom ns added edges
      → any (λ y. elem y ns) added ≡ false
      → Precedes (rows ++ edges) u t
      → Reaches u t
  Precedes-Reaches {u} {t} w f new (direct m) = elim (Memᴰ.append_cases rows m) [
    | inl a ↦ let (p, q) = EdgesWithin-mem ns rows u t w a in (p, inl (q, direct a))
    | inr b ↦ let (p, q) = EdgesFrom-mem ns added edges u t f b in (p, inr (fresh ns added t new q))
  ]
  Precedes-Reaches {u} {t} w f new (through {v} p m) =
      let (old, so_far) = Precedes-Reaches w f new p in
      elim (Memᴰ.append_cases rows m) [
        | inl a ↦
            let (x, y) = EdgesWithin-mem ns rows v t w a in
            (old, elim so_far [ inl r ↦ inl (y, through r.1 a) | inr n ↦ absurd (ground arith) ])
        | inr b ↦
            let (x, y) = EdgesFrom-mem ns added edges v t f b in (old, inr (fresh ns added t new y))
      ]

  Acyclic-append :
      EdgesWithin ns rows
      → EdgesFrom ns added edges
      → any (λ y. elem y ns) added ≡ false
      → Acyclic rows
      → has_cycle (rows ++ edges) ≡ some false
  Acyclic-append w f new acyclic = elim (has_cycle_decides (rows ++ edges)) [
    | inr (h, _) ↦ h
    | inl (h, (u, p)) ↦
        let (old, back) = Precedes-Reaches w f new p in
        elim back [ inl r ↦ absurd (acyclic u r.1) | inr n ↦ absurd (ground arith) ]
  ]

check_each-EdgesFrom :
    (ns added : List String) (edges : Edges)
    → EdgesFrom ns added edges
    → any (λ y. elem y ns) added ≡ false
    → check_each (check_edge (ns ++ added)) edges ≡ ok tt
unfolding check_edge then_check ensure
check_each-EdgesFrom ns added [] f new = refl
check_each-EdgesFrom ns added ((a, b) ∷ edges) (h, k, f) new =
    let old : elem b ns ≡ false = fresh ns added b new k in
    let differ : (a == b) ≡ false = unlike a b h old in
    let left : elem a (ns ++ added) ≡ true = ground (arith, elem-append a ns added) in
    let right : elem b (ns ++ added) ≡ true = ground (arith, elem-append b ns added) in
    rw (left, right, differ, check_edge) (check_each-EdgesFrom ns added edges f new)
  where
    unlike : (a b : String) → elem a ns ≡ true → elem b ns ≡ false → (a == b) ≡ false
    unlike a b h k = elim (Bool-cases (a == b)) [
      | inr e ↦ e
      | inl e ↦
          let q : a ≡ b = (eq_iff a b).0 e in
          let r : elem b ns ≡ true = subst (λ x. elem x ns ≡ true) q h in absurd (ground arith)
    ]

-- The checks before the first INSERT, for a patch that only adds.
check_patch-Wired :
    (graph : GraphSnapshot) (event : Event) (p : GraphPatch)
    → Wired graph event p
    → graph.finished ≡ false
    → has_duplicates (add_ids p) ≡ false
    → any (λ y. elem y (node_ids graph.nodes)) (add_ids p) ≡ false
    → check_patch graph p ≡ ok tt
unfolding check_patch ensure then_check
check_patch-Wired graph event p w f d n =
    let edges = check_each-EdgesFrom (node_ids graph.nodes) (task_ids p.add) p.connect w.edges n in
    rw (w.no_cancel, w.no_wait, w.no_resume, f, d, n, edges, check_patch) refl

-- If a run is not finished, its dependencies have no cycle and join nodes of the graph, the node
-- of the event, where it has one, is in the graph, and the tasks that the deterministic planner
-- adds have distinct identifiers that are new, then its patch passes every check of `apply_patch`
-- before the first insert, and the dependencies with the new ones have no cycle for `_has_cycle`.
pub plan-check_patch :
    (request : RunRequest) (graph : GraphSnapshot) (event : Event)
    → graph.finished ≡ false
    → Acyclic graph.edges
    → EdgesWithin (node_ids graph.nodes) graph.edges
    → ((n : String) → event.node_id ≡ some n → elem n (node_ids graph.nodes) ≡ true)
    → has_duplicates (add_ids (plan request graph event)) ≡ false
    → any (λ y. elem y (node_ids graph.nodes)) (add_ids (plan request graph event)) ≡ false
    → (check_patch graph (plan request graph event) ≡ ok tt)
      × (has_cycle (graph.edges ++ (plan request graph event).connect) ≡ some false)
plan-check_patch request graph event f acyclic within inside d n =
    let w = plan-Wired request graph event inside in
    (
      check_patch-Wired graph event (plan request graph event) w f d n,
      Acyclic-append (node_ids graph.nodes) (task_ids (plan request graph event).add) graph.edges
          (plan request graph event).connect within w.edges n acyclic,
    )
