-- ===== src/Graph/Keys.antt =====
-- The primary key of the table `nodes` of core/live_graph/store.py.
use s13code.Prelude.{String, ◌≡◌, refl, Bool, false, none, List, [], ◌∷◌, ◌++◌, map, arith, eq_iff}
use s13code.Json.{Fields}
use s13code.Graph.Types.{NodeState}
use s13code.Graph.Db.{NodeRow, is_node, set_state}
use s13code.Graph.Store.{set_result}
use s13code.Graph.Nodes.{state_in}

abbrev pub Unique : List NodeRow → Type 0
Unique [] = Unit
Unique (n ∷ ns) = (state_in n.run_id n.id ns ≡ none) × Unique ns

module _ (g : NodeRow → NodeRow)
    (kept : (n : NodeRow) → ((g n).run_id ≡ n.run_id) × ((g n).id ≡ n.id)) where
  absent-map :
      (run nid : String) (ns : List NodeRow)
      → state_in run nid ns ≡ none
      → state_in run nid (map g ns) ≡ none
  absent-map run nid [] h = refl
  absent-map run nid (n ∷ ns) h =
      rw ((kept n).0, (kept n).1) (ground (arith, absent-map run nid ns))

  Unique-map : (ns : List NodeRow) → Unique ns → Unique (map g ns)
  Unique-map [] u = tt
  Unique-map (n ∷ ns) u =
      (rw ((kept n).0, (kept n).1) (absent-map n.run_id n.id ns u.0), Unique-map ns u.1)

pub Unique-set_state :
    (test : NodeRow → Bool) (s : NodeState) (ns : List NodeRow)
    → Unique ns
    → Unique (set_state test s ns)
unfolding set_state
Unique-set_state test s ns = Unique-map _ (λ n. (ground arith, ground arith)) ns

pub Unique-set_result :
    (test : NodeRow → Bool) (s : NodeState) (p : Fields) (ns : List NodeRow)
    → Unique ns
    → Unique (set_result test s p ns)
unfolding set_result
Unique-set_result test s p ns = Unique-map _ (λ n. (ground arith, ground arith)) ns

pub absent-append :
    (run nid : String) (ns : List NodeRow) (n : NodeRow)
    → state_in run nid ns ≡ none
    → is_node run nid n ≡ false
    → state_in run nid (ns ++ n ∷ []) ≡ none
absent-append run nid [] n h k = ground arith
absent-append run nid (m ∷ ns) n h k = ground (arith, absent-append run nid ns n)

pub Unique-append :
    (ns : List NodeRow) (n : NodeRow)
    → Unique ns
    → state_in n.run_id n.id ns ≡ none
    → Unique (ns ++ n ∷ [])
Unique-append [] n u h = (refl, tt)
Unique-append (m ∷ ns) n u h = (
  absent-append m.run_id m.id ns n u.0 (
      ground (
        arith,
        eq_iff n.run_id m.run_id,
        eq_iff m.run_id n.run_id,
        eq_iff n.id m.id,
        eq_iff m.id n.id,
      )),
  Unique-append ns n u.1 (ground arith),
)
