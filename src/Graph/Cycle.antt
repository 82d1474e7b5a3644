-- ===== src/Graph/Cycle.antt =====
-- `_has_cycle` of core/live_graph/store.py: depth-first search over the dependency edges.
pub mod Adjacency
pub mod Sound
pub mod Total
pub mod Found
pub mod Correct
use s13code.Prelude.{
  ℕ, zero, suc, String, Bool, true, false, ◌==◌, Option, none, some, List, [], ◌∷◌, ◌++◌, length,
  elem, if◌then◌else◌,
}

-- The dict `edges`, in the order of its keys: `edges.setdefault(parent, []).append(child)`.
abbrev pub Adjacency : Type 0
Adjacency = List (String × List String)

unfoldable pub append_child : String → String → Adjacency → Adjacency
append_child parent child [] = (parent, child ∷ []) ∷ []
append_child parent child ((p, cs) ∷ rest) =
    if p == parent then (p, cs ++ child ∷ []) ∷ rest else (p, cs) ∷ append_child parent child rest

abbrev build_from : Adjacency → List (String × String) → Adjacency
build_from adj [] = adj
build_from adj ((parent, child) ∷ rows) = build_from (append_child parent child adj) rows

unfoldable pub adjacency : List (String × String) → Adjacency
adjacency = build_from []

-- `edges.get(nid, ())`
unfoldable pub children : String → Adjacency → List String
children nid [] = []
children nid ((p, cs) ∷ rest) = if p == nid then cs else children nid rest

abbrev pub keys : Adjacency → List String
keys [] = []
keys ((p, cs) ∷ rest) = p ∷ keys rest

pub record Marks : Type 0 where
  pub seen : List String
  pub active : List String

-- `active.remove(nid)` on a set, kept as a list with no repetition.
unfoldable pub remove : String → List String → List String
remove x [] = []
remove x (y ∷ ys) = if x == y then ys else y ∷ remove x ys

-- `any(visit(child) for child in …)`, which stops at the first True. `none` means that the
-- recursion ran deeper than the fuel.
unfoldable pub any_visit :
    (String → Marks → Option (Bool × Marks)) → List String → Marks → Option (Bool × Marks)
any_visit visit [] m = some (false, m)
any_visit visit (c ∷ cs) m = elim (visit c m) [
  | none ↦ none
  | some (found, m') ↦ if found then some (true, m') else any_visit visit cs m'
]

abbrev pub leave : String → Option (Bool × Marks) → Option (Bool × Marks)
leave nid none = none
leave nid (some (cycle, m)) = some (cycle, record m { active = remove nid m.active })

abbrev pub enter : String → Marks → Marks
enter n m = record { seen = n ∷ m.seen; active = n ∷ m.active }

unfoldable pub visit : Adjacency → ℕ → String → Marks → Option (Bool × Marks)
visit adj zero nid m = none
visit adj (suc fuel) nid m =
    let inner = leave nid (any_visit (visit adj fuel) (children nid adj) (enter nid m)) in
    if elem nid m.active then some (true, m) else if elem nid m.seen then some (false, m) else inner

abbrev pub unmarked : Marks
unmarked = record { seen = []; active = [] }

abbrev pub result : Option (Bool × Marks) → Option Bool
result none = none
result (some (found, _)) = some found

-- The nodes on the stack are distinct keys, the last one excepted, so two more than the keys
-- suffice: see Cycle/Total.
unfoldable pub has_cycle : List (String × String) → Option Bool
has_cycle rows =
    let adj = adjacency rows in
    result (any_visit (visit adj (suc (suc (length (keys adj))))) (keys adj) unmarked)
