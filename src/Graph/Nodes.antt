-- ===== src/Graph/Nodes.antt =====
-- What the statements on the table `nodes` do to the state that one key shows.
use mathlib.Core.Option
use s13code.Prelude.{
  ap, inl, inr, String, ◌≡◌, refl, Bool, true, ◌&&◌, ◌==◌, Option, none, some, List, [], ◌∷◌, ◌++◌,
  arith, eq_iff, if◌then◌else◌, Bool-cases, map,
}
use s13code.Json.{Fields}
use s13code.Graph.Types.{NodeState, ◌=ₛ◌}
use s13code.Graph.Db.{NodeRow, is_node, set_state}
use s13code.Graph.Store.{in_state, node_in_state, set_result}

-- The state of the node with this key, if there is one.
abbrev pub state_in : String → String → List NodeRow → Option NodeState
state_in run nid [] = none
state_in run nid (n ∷ ns) = if is_node run nid n then some n.state else state_in run nid ns

-- `s` in place of the state `from` alone.
abbrev pub swap_state : NodeState → NodeState → NodeState → NodeState
swap_state from s t = if t =ₛ from then s else t

abbrev pub same_key : String → String → String → String → Bool
same_key run nid run' nid' = run == run' && nid == nid'

pub is_node_key :
    (run nid : String) (n : NodeRow) → is_node run nid n ≡ true → (n.run_id ≡ run) × (n.id ≡ nid)
is_node_key run nid n h = ground (arith, eq_iff n.run_id run, eq_iff n.id nid)

module _ (run nid : String) where
  state_in-map :
      (g : NodeRow → NodeRow) (f : NodeState → NodeState)
      → ((n : NodeRow)
          → (is_node run nid (g n) ≡ is_node run nid n)
            × (is_node run nid n ≡ true → (g n).state ≡ f n.state))
      → (ns : List NodeRow) → state_in run nid (map g ns) ≡ Option.map f (state_in run nid ns)
  state_in-map g f h [] = refl
  state_in-map g f h (n ∷ ns) = elim (Bool-cases (is_node run nid n)) [
    | inl e ↦ rw ((h n).0, e) (ap some ((h n).1 e))
    | inr e ↦ rw ((h n).0, e) (state_in-map g f h ns)
  ]

  pub state_in-set_state :
      (run' nid' : String) (s : NodeState) (ns : List NodeRow)
      → state_in run nid (set_state (is_node run' nid') s ns)
        ≡ Option.map (λ t. if same_key run nid run' nid' then s else t) (state_in run nid ns)
  unfolding set_state
  state_in-set_state run' nid' s =
      state_in-map _ _ λ n.
        (ground arith, λ k. let (er, ei) = is_node_key run nid n k in rw (er, ei) (ground arith))

  pub state_in-in_state :
      (run' : String) (from s : NodeState) (ns : List NodeRow)
      → state_in run nid (set_state (in_state run' from) s ns)
        ≡ Option.map (λ t. if run == run' then swap_state from s t else t) (state_in run nid ns)
  unfolding set_state
  state_in-in_state run' from s =
      state_in-map _ _
        λ n. (ground arith, λ k. let (er, _) = is_node_key run nid n k in rw er (ground arith))

  pub state_in-node_in_state :
      (run' nid' : String) (from s : NodeState) (ns : List NodeRow)
      → state_in run nid (set_state (node_in_state run' nid' from) s ns)
        ≡ Option.map
            (λ t. if same_key run nid run' nid' then swap_state from s t else t)
            (state_in run nid ns)
  unfolding set_state
  state_in-node_in_state run' nid' from s =
      state_in-map _ _ λ n.
        (ground arith, λ k. let (er, ei) = is_node_key run nid n k in rw (er, ei) (ground arith))

  pub state_in-set_result :
      (run' nid' : String) (from s : NodeState) (payload : Fields) (ns : List NodeRow)
      → state_in run nid (set_result (node_in_state run' nid' from) s payload ns)
        ≡ Option.map
            (λ t. if same_key run nid run' nid' then swap_state from s t else t)
            (state_in run nid ns)
  unfolding set_result
  state_in-set_result run' nid' from s payload =
      state_in-map _ _ λ n.
        (ground arith, λ k. let (er, ei) = is_node_key run nid n k in rw (er, ei) (ground arith))

  pub state_in-append :
      (ns : List NodeRow) (n : NodeRow)
      → state_in run nid (ns ++ n ∷ []) ≡ (elim (state_in run nid ns) [
        | some s ↦ some s
        | none ↦ if is_node run nid n then some n.state else none
      ])
  state_in-append [] n = ground arith
  state_in-append (m ∷ ns) n = ground (arith, state_in-append ns n)
