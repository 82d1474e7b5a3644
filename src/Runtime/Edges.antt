-- ===== src/Runtime/Edges.antt =====
-- The edges and the identifiers of a patch of the deterministic planner in runtime.py.
use s13code.Prelude.{
  String, Bool, true, false, ◌&&◌, List, [], ◌∷◌, map, elem, filter, ◌≡◌, refl, arith, eq_iff,
  if◌then◌else◌,
}
use s13code.Graph.Types.{TaskSpec, GraphPatch, NodeView}
use s13code.Runtime.Pieces.{Edges, node_ids, to, from, when◌return◌else◌}
use s13code.Runtime.Plans.{or_else}

abbrev pub AllIn : List String → List String → Type 0
AllIn ns [] = Unit
AllIn ns (x ∷ xs) = (elem x ns ≡ true) × AllIn ns xs

-- Each edge goes from a node of the graph to a task that the patch adds.
abbrev pub EdgesFrom : List String → List String → Edges → Type 0
EdgesFrom ns added [] = Unit
EdgesFrom ns added ((parent, child) ∷ edges) =
    (elem parent ns ≡ true) × (elem child added ≡ true) × EdgesFrom ns added edges

abbrev pub task_ids : List TaskSpec → List String
task_ids tasks = map (λ t. t.id) tasks

pub if_of :
    {A : Type 0} (P : A → Type 0) (t : Bool) {a b : A}
    → (t ≡ true → P a)
    → (t ≡ false → P b)
    → P (if t then a else b)
if_of P true h k = h refl
if_of P false h k = k refl

pub when_of :
    (P : GraphPatch → Type 0) (t : Bool) (p q : GraphPatch)
    → (t ≡ true → P p)
    → (t ≡ false → P q)
    → P (when t return p else q)
unfolding when◌return◌else◌
when_of P true p q h k = h refl
when_of P false p q h k = k refl

elem-cons : (x y : String) (xs : List String) → elem x xs ≡ true → elem x (y ∷ xs) ≡ true
elem-cons x y xs h = ground arith

AllIn-cons : (y : String) (ns xs : List String) → AllIn ns xs → AllIn (y ∷ ns) xs
AllIn-cons y ns [] h = tt
AllIn-cons y ns (x ∷ xs) (h, hs) = (elem-cons x y ns h, AllIn-cons y ns xs hs)

pub AllIn-self : (xs : List String) → AllIn xs xs
AllIn-self [] = tt
AllIn-self (x ∷ xs) = (ground (arith, eq_iff x x), AllIn-cons x xs xs (AllIn-self xs))

pub AllIn-filter : (p : String → Bool) (ns xs : List String) → AllIn ns xs → AllIn ns (filter p xs)
AllIn-filter p ns [] h = tt
AllIn-filter p ns (x ∷ xs) (h, hs) =
    if_of (AllIn ns) (p x) (λ _. (h, AllIn-filter p ns xs hs)) (λ _. AllIn-filter p ns xs hs)

pub AllIn-nodes :
    (p : NodeView → Bool) (ns : List String) (vs : List NodeView)
    → AllIn ns (node_ids vs)
    → AllIn ns (node_ids (filter p vs))
AllIn-nodes p ns [] h = tt
AllIn-nodes p ns (v ∷ vs) (h, hs) =
    if_of (λ ws. AllIn ns (node_ids ws)) (p v) (λ _. (h, AllIn-nodes p ns vs hs))
      (λ _. AllIn-nodes p ns vs hs)

pub AllIn-or_else : (ns xs ys : List String) → AllIn ns xs → AllIn ns ys → AllIn ns (or_else xs ys)
AllIn-or_else ns [] ys hx hy = hy
AllIn-or_else ns (x ∷ xs) ys hx hy = hx

pub to-EdgesFrom :
    (ns : List String) (child : String) (parents : List String)
    → AllIn ns parents
    → EdgesFrom ns (child ∷ []) (to child parents)
to-EdgesFrom ns child [] h = tt
to-EdgesFrom ns child (x ∷ xs) (h, hs) =
    (h, ground (arith, eq_iff child child), to-EdgesFrom ns child xs hs)

EdgesFrom-cons :
    (ns : List String) (x : String) (added : List String) (edges : Edges)
    → EdgesFrom ns added edges
    → EdgesFrom ns (x ∷ added) edges
EdgesFrom-cons ns x added [] h = tt
EdgesFrom-cons ns x added ((a, b) ∷ edges) (h, k, hs) =
    (h, elem-cons b x added k, EdgesFrom-cons ns x added edges hs)

pub from-EdgesFrom :
    (ns : List String) (parent : String) (tasks : List TaskSpec)
    → elem parent ns ≡ true
    → EdgesFrom ns (task_ids tasks) (from parent tasks)
from-EdgesFrom ns parent [] h = tt
from-EdgesFrom ns parent (t ∷ ts) h = (
  h,
  ground (arith, eq_iff t.id t.id),
  EdgesFrom-cons ns t.id (task_ids ts) (from parent ts) (from-EdgesFrom ns parent ts h),
)

pub and_left : (a b : Bool) → (a && b) ≡ true → a ≡ true
and_left a b h = ground arith

pub and_right : (a b : Bool) → (a && b) ≡ true → b ≡ true
and_right a b h = ground arith

pub and_right_left : (a b c : Bool) → (a && (b && c)) ≡ true → b ≡ true
and_right_left a b c h = ground arith
