-- ===== src/Graph/Patch/Apart.antt =====
-- The keys of the nodes under the statements of `apply_patch` in core/live_graph/store.py.
use s13code.Prelude.{String, ◌≡◌, List, [], ◌∷◌, arith, ok}
use s13code.Graph.Types.{NodeState, TaskSpec, NodeView}
use s13code.Graph.Db.{Db, Tx, for_each, insert_node}
use s13code.Graph.Patch.{cancel_task, put_state, cancel_leftover}
use s13code.Graph.Patch.Stages.{peel}
use s13code.Graph.Patch.Effect.{
  cancel_leftover-nodes, cancel_task-nodes, put_state-nodes, insert_node-nodes, find_node-state_in,
}
use s13code.Graph.Keys.{Unique, Unique-append, Unique-set_state}

-- A loop that keeps the keys apart.
pub for_each-Unique :
    {A : Type 0} (body : A → Tx Unit)
    → ((x : A) (db db' : Db) → body x db ≡ ok (tt, db') → Unique db.nodes → Unique db'.nodes)
    → (xs : List A) (db db' : Db) → for_each body xs db ≡ ok (tt, db')
    → Unique db.nodes
    → Unique db'.nodes
unfolding for_each
for_each-Unique body k [] db db' h u = let e : db ≡ db' = ground arith in rw (← e) u
for_each-Unique body k (x ∷ xs) db db' h u =
    peel (body x) _ db h λ _ d e r. for_each-Unique body k xs d db' r (k x db d e u)

pub insert_node-Unique :
    (run : String) (t : TaskSpec) (db db' : Db)
    → insert_node run t db ≡ ok (tt, db')
    → Unique db.nodes
    → Unique db'.nodes
insert_node-Unique run t db db' h u =
    let (free, e) = insert_node-nodes run t db db' h in
    rw e (Unique-append db.nodes _ u (find_node-state_in run t.id db.nodes free))

pub cancel_task-Unique :
    (run reason : String) (vs : List NodeView) (nid : String) (db db' : Db)
    → cancel_task run reason vs nid db ≡ ok (tt, db')
    → Unique db.nodes
    → Unique db'.nodes
cancel_task-Unique run reason vs nid db db' h u =
    rw (cancel_task-nodes run reason vs nid db db' h) (Unique-set_state _ _ db.nodes u)

pub put_state-Unique :
    (run : String) (s : NodeState) (nid : String) (db db' : Db)
    → put_state run s nid db ≡ ok (tt, db')
    → Unique db.nodes
    → Unique db'.nodes
put_state-Unique run s nid db db' h u =
    rw (put_state-nodes run s nid db db' h) (Unique-set_state _ _ db.nodes u)

pub cancel_leftover-Unique :
    (run : String) (x : String × NodeState) (db db' : Db)
    → cancel_leftover run x db ≡ ok (tt, db')
    → Unique db.nodes
    → Unique db'.nodes
cancel_leftover-Unique run x db db' h u =
    rw (cancel_leftover-nodes run x db db' h) (Unique-set_state _ _ db.nodes u)
