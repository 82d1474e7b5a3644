-- ===== src/Graph/Cycle/Correct.antt =====
-- `_has_cycle` of core/live_graph/store.py against the relation of depending, directly or through
-- others.
use s13code.Prelude.{String, ◌≡◌, ◌⊎◌, inl, inr, Bool, true, false, some, List, Memᴰ}
use s13code.Graph.Cycle.{Adjacency, adjacency, children, has_cycle}
use s13code.Graph.Cycle.Adjacency.{children-adjacency}
use s13code.Graph.Cycle.Sound.{Safe, safe, has_cycle-Safe}
use s13code.Graph.Cycle.Found.{Leads, link, more, has_cycle-Loop}
use s13code.Graph.Cycle.Total.{has_cycle_total}

-- `u` is a parent of `v`, or of a task that comes before `v`: read from the rows alone.
pub data Precedes (rows : List (String × String)) (u : String) : String → Type 0 where
  direct : {v : String} → Memᴰ (u, v) rows → Precedes rows u v
  through : {v w : String} → Precedes rows u v → Memᴰ (v, w) rows → Precedes rows u w

abbrev pub Acyclic : List (String × String) → Type 0
Acyclic rows = (u : String) → ¬ (Precedes rows u u)

Leads-Precedes :
    (rows : List (String × String)) {u v : String} → Leads (adjacency rows) u v → Precedes rows u v
Leads-Precedes rows {u} (link {v} m) = direct ((children-adjacency u v rows).0 m)
Leads-Precedes rows (more {v} {w} l m) =
    through (Leads-Precedes rows l) ((children-adjacency v w rows).0 m)

-- Walks from the front, for the induction on `Safe`.
data Walk (adj : Adjacency) : String → String → Type 0 where
  one : {u v : String} → Memᴰ v (children u adj) → Walk adj u v
  step : {u v w : String} → Memᴰ v (children u adj) → Walk adj v w → Walk adj u w

extend : {adj : Adjacency} {u v w : String} → Walk adj u v → Memᴰ w (children v adj) → Walk adj u w
extend (one m) n = step m (one n)
extend (step m l) n = step m (extend l n)

Precedes-Walk :
    (rows : List (String × String)) {u v : String} → Precedes rows u v → Walk (adjacency rows) u v
Precedes-Walk rows {u} (direct {v} m) = one ((children-adjacency u v rows).1 m)
Precedes-Walk rows (through {v} {w} p m) =
    extend (Precedes-Walk rows p) ((children-adjacency v w rows).1 m)

rotate :
    {adj : Adjacency} {u : String}
    → Walk adj u u
    → (c : String) × Memᴰ c (children u adj) × Walk adj c c
rotate (one {v = c} m) = (c, m, one m)
rotate (step {v = c} m l) = (c, m, extend l m)

Safe-not-Walk : (adj : Adjacency) {u : String} → Safe adj u → ¬ Walk adj u u
Safe-not-Walk adj (safe below) l = let (c, m, l') = rotate l in Safe-not-Walk adj (below c m) l'

pub has_cycle-Acyclic : (rows : List (String × String)) → has_cycle rows ≡ some false → Acyclic rows
has_cycle-Acyclic rows h u p =
    Safe-not-Walk (adjacency rows) (has_cycle-Safe rows h u) (Precedes-Walk rows p)

-- For any list of edges the search gives an answer within its fuel: it is True and some task
-- precedes itself, or it is False and no task precedes itself.
pub has_cycle_decides :
    (rows : List (String × String))
    → ((has_cycle rows ≡ some true) × ((u : String) × Precedes rows u u))
      ⊎ ((has_cycle rows ≡ some false) × Acyclic rows)
has_cycle_decides rows = decided (has_cycle_total rows)
  where
    decided :
        (b : Bool) × (has_cycle rows ≡ some b)
        → ((has_cycle rows ≡ some true) × ((u : String) × Precedes rows u u))
          ⊎ ((has_cycle rows ≡ some false) × Acyclic rows)
    decided (true, e) = let (u, l) = has_cycle-Loop rows e in inl (e, (u, Leads-Precedes rows l))
    decided (false, e) = inr (e, has_cycle-Acyclic rows e)
