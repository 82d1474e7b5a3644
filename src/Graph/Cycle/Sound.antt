-- ===== src/Graph/Cycle/Sound.antt =====
-- The search of `_has_cycle` in core/live_graph/store.py when it reports none.
use mathlib.Core.List.Memᴰ
use s13code.Prelude.{
  ℕ, zero, suc, String, ◌≡◌, ◌∙◌, ap, ◌⊎◌, inl, inr, Bool, true, false, ◌==◌, Option, none, some,
  List, [], ◌∷◌, Memᴰ, arith, eq_iff, elem, Bool-cases, Option-cases, eq_self, length,
}
use s13code.Graph.Cycle.{
  Adjacency, adjacency, children, keys, Marks, remove, any_visit, visit, has_cycle, result,
  unmarked, enter,
}
use s13code.Graph.Cycle.Adjacency.{elem→Memᴰ, children-nil}

pub remove_top : (x : String) (xs : List String) → remove x (x ∷ xs) ≡ xs
unfolding remove
remove_top x xs = rw eq_self

-- Each visit gives the stack back as it found it.
abbrev pub Restores : (String → Marks → Option (Bool × Marks)) → Type 0
Restores v = (c : String) (m m' : Marks) (b : Bool) → v c m ≡ some (b, m') → m'.active ≡ m.active

pub any_visit-Restores :
    (v : String → Marks → Option (Bool × Marks))
    → Restores v
    → (cs : List String) (m m' : Marks) (b : Bool) → any_visit v cs m ≡ some (b, m')
    → m'.active ≡ m.active
unfolding any_visit
any_visit-Restores v r [] m m' b h = ground arith
any_visit-Restores v r (c ∷ cs) m m' b h = elim (Option-cases (v c m)) [
  | inl e ↦ ground arith
  | inr ((true, n), e) ↦ ground (arith, r c m n true e)
  | inr ((false, n), e) ↦
      any_visit-Restores v r cs n m' b (rw (e, any_visit) at h) ∙ r c m n false e
]

-- `Safe adj u`: every chain of dependencies from `u` ends.
pub data Safe (adj : Adjacency) : String → Type 0 where
  safe : {u : String} → ((c : String) → Memᴰ c (children u adj) → Safe adj c) → Safe adj u

module _ (adj : Adjacency) where
  -- What is seen and has left the stack is safe.
  abbrev Explored : Marks → Type 0
  Explored m = (u : String) → elem u m.seen ≡ true → elem u m.active ≡ false → Safe adj u

  abbrev Certifies : (String → Marks → Option (Bool × Marks)) → Type 0
  Certifies v =
      (c : String) (m m' : Marks) → v c m ≡ some (false, m') → Explored m → Safe adj c × Explored m'

  first_or_rest :
      {c : String} {cs : List String} (d : String)
      → Safe adj c
      → (Memᴰ d cs → Safe adj d)
      → (d ≡ c) ⊎ Memᴰ d cs
      → Safe adj d
  first_or_rest d here rest (inl e) = rw e here
  first_or_rest d here rest (inr m) = rest m

  any_visit-Certifies :
      (v : String → Marks → Option (Bool × Marks))
      → Certifies v
      → (cs : List String) (m m' : Marks) → any_visit v cs m ≡ some (false, m')
      → Explored m
      → ((c : String) → Memᴰ c cs → Safe adj c) × Explored m'
  unfolding any_visit
  any_visit-Certifies v k [] m m' h x =
      let e : m ≡ m' = ground arith in (λ c mem. absurd (Memᴰ.not-nil mem), rw (← e) x)
  any_visit-Certifies v k (c ∷ cs) m m' h x = elim (Option-cases (v c m)) [
    | inl e ↦ absurd (ground arith)
    | inr ((true, n), e) ↦ absurd (ground arith)
    | inr ((false, n), e) ↦
        let (here, x') = k c m n e x in
        let (rest, x'') = any_visit-Certifies v k cs n m' (rw (e, any_visit) at h) x' in
        (λ d mem. first_or_rest d here (rest d) (Memᴰ.cases_cons mem), x'')
  ]

-- The three ways in which a visit ends.
pub data Visited (adj : Adjacency) (fuel : ℕ) (n : String) (m : Marks) (b : Bool) (m' : Marks)
    : Type 0 where
  on_stack : elem n m.active ≡ true → b ≡ true → m' ≡ m → Visited adj fuel n m b m'
  known :
      elem n m.active ≡ false
      → elem n m.seen ≡ true
      → b ≡ false
      → m' ≡ m
      → Visited adj fuel n m b m'
  entered :
      (k : Marks)
      → elem n m.active ≡ false
      → any_visit (visit adj fuel) (children n adj) (enter n m) ≡ some (b, k)
      → m'.seen ≡ k.seen
      → m'.active ≡ remove n k.active
      → Visited adj fuel n m b m'

pub visit_cases :
    (adj : Adjacency) (fuel : ℕ) (n : String) (m m' : Marks) (b : Bool)
    → visit adj (suc fuel) n m ≡ some (b, m')
    → Visited adj fuel n m b m'
unfolding visit
visit_cases adj fuel n m m' b h = elim (Bool-cases (elem n m.active)) [
  | inl a ↦ on_stack a (ground arith) (ground arith)
  | inr a ↦ elim (Bool-cases (elem n m.seen)) [
    | inl s ↦ known a s (ground arith) (ground arith)
    | inr s ↦ elim (Option-cases (any_visit (visit adj fuel) (children n adj) (enter n m))) [
      | inl e ↦ absurd (ground arith)
      | inr ((c, k), e) ↦ entered k a (ground arith) (ground arith) (ground arith)
    ]
  ]
]

entered-Restores :
    (adj : Adjacency) (fuel : ℕ) (n : String) (m k m' : Marks) (b : Bool)
    → Restores (visit adj fuel)
    → any_visit (visit adj fuel) (children n adj) (enter n m) ≡ some (b, k)
    → m'.active ≡ remove n k.active
    → (k.active ≡ n ∷ m.active) × (m'.active ≡ m.active)
entered-Restores adj fuel n m k m' b r v e =
    let kept = any_visit-Restores (visit adj fuel) r (children n adj) (enter n m) k b v in
    (kept, e ∙ ap (remove n) kept ∙ remove_top n m.active)

Visited-Restores :
    (adj : Adjacency) (fuel : ℕ) (n : String) (m m' : Marks) (b : Bool)
    → Restores (visit adj fuel)
    → Visited adj fuel n m b m'
    → m'.active ≡ m.active
Visited-Restores adj fuel n m m' b r (on_stack a _ e) = rw e
Visited-Restores adj fuel n m m' b r (known a s _ e) = rw e
Visited-Restores adj fuel n m m' b r (entered k a v _ e) =
    (entered-Restores adj fuel n m k m' b r v e).1

pub visit-Restores : (adj : Adjacency) (fuel : ℕ) → Restores (visit adj fuel)
visit-Restores adj zero n m m' b h = unfold visit in cc
visit-Restores adj (suc fuel) n m m' b h =
    Visited-Restores adj fuel n m m' b (visit-Restores adj fuel) (visit_cases adj fuel n m m' b h)

Explored-enter :
    (adj : Adjacency) (n : String) (m : Marks) → Explored adj m → Explored adj (enter n m)
Explored-enter adj n m x u s a = x u (ground arith) (ground arith)

Explored-leave :
    (adj : Adjacency) (n : String) (m k m' : Marks)
    → Safe adj n
    → k.active ≡ n ∷ m.active
    → m'.seen ≡ k.seen
    → m'.active ≡ m.active
    → Explored adj k
    → Explored adj m'
Explored-leave adj n m k m' sn ka ms ma x u s a = elim (Bool-cases (u == n)) [
  | inl e ↦ rw ((eq_iff u n).0 e) sn
  | inr e ↦ x u (rw (← ms) s) (rw ka (ground (arith, ap (elem u) ma)))
]

Visited-Certifies :
    (adj : Adjacency) (fuel : ℕ) (n : String) (m m' : Marks)
    → Certifies adj (visit adj fuel)
    → Explored adj m
    → Visited adj fuel n m false m'
    → Safe adj n × Explored adj m'
Visited-Certifies adj fuel n m m' c x (on_stack a b e) = absurd (ground arith)
Visited-Certifies adj fuel n m m' c x (known a s b e) = (x n s a, rw e x)
Visited-Certifies adj fuel n m m' c x (entered k a v es ea) =
    let (ka, ma) = entered-Restores adj fuel n m k m' false (visit-Restores adj fuel) v ea in
    let (below, xk) =
      any_visit-Certifies adj (visit adj fuel) c (children n adj) (enter n m) k v
        (Explored-enter adj n m x) in
    (safe below, Explored-leave adj n m k m' (safe below) ka es ma xk)

visit-Certifies : (adj : Adjacency) (fuel : ℕ) → Certifies adj (visit adj fuel)
visit-Certifies adj zero n m m' h x = unfold visit in cc
visit-Certifies adj (suc fuel) n m m' h x =
    Visited-Certifies adj fuel n m m' (visit-Certifies adj fuel) x
      (visit_cases adj fuel n m m' false h)

keys-Safe :
    (adj : Adjacency) → ((c : String) → Memᴰ c (keys adj) → Safe adj c) → (u : String) → Safe adj u
keys-Safe adj all u = elim (Bool-cases (elem u (keys adj))) [
  | inl e ↦ all u (elem→Memᴰ u (keys adj) e)
  | inr e ↦ safe (λ c m. absurd (Memᴰ.not-nil (rw (children-nil u adj e) at m)))
]

pub result_some :
    (o : Option (Bool × Marks)) (b : Bool) → result o ≡ some b → (m : Marks) × (o ≡ some (b, m))
result_some none b h = absurd (ground arith)
result_some (some (c, m)) b h = (m, ground arith)

pub has_cycle-Safe :
    (rows : List (String × String))
    → has_cycle rows ≡ some false
    → (u : String) → Safe (adjacency rows) u
unfolding has_cycle
has_cycle-Safe rows h u =
    let adj = adjacency rows in
    let (m, e) =
      result_some (any_visit (visit adj (suc (suc (length (keys adj))))) (keys adj) unmarked) false
        h in
    let (all, _) =
      any_visit-Certifies adj _ (visit-Certifies adj (suc (suc (length (keys adj))))) (keys adj)
        unmarked m e (λ v s a. absurd (ground arith)) in
    keys-Safe adj all u
