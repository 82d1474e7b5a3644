-- ===== src/Graph/Patch/Effect.antt =====
-- The states that a committed patch leaves, stage by stage.
use mathlib.Core.Option
use s13code.Prelude.{
  ℕ, String, ◌≡◌, refl, ◌∙◌, Bool, true, false, ◌&&◌, ◌||◌, ◌==◌, Option, none, some, List, [], ◌∷◌,
  ◌++◌, map, arith, ok, if◌then◌else◌, elem, eq_iff, Bool-cases, eq_self, inl, inr,
}
use s13code.Json.{Fields}
use s13code.Graph.Types.{NodeState, pending, cancelled, TaskSpec, NodeView, Event}
use s13code.Graph.Db.{
  NodeRow, Db, Tx, is_node, find_node, for_each, set_state, insert_node, insert_edge, insert_event,
  insert_patch,
}
use s13code.Graph.Patch.{cancel_task, put_state, cancel_leftover, leftovers, is_open}
use s13code.Graph.Patch.Stages.{peel}
use s13code.Graph.Keys.{Unique}
use s13code.Graph.Nodes.{is_node_key, state_in, state_in-set_state, state_in-append}

pub insert_event-nodes :
    (run kind : String) (about : Option String) (p : Fields) (db db' : Db) (e : Event)
    → insert_event run kind about p db ≡ ok (e, db')
    → db'.nodes ≡ db.nodes
unfolding insert_event
insert_event-nodes run kind about p db db' e h = ground arith

pub insert_edge-nodes :
    (run : String) (pc : String × String) (db db' : Db)
    → insert_edge run pc db ≡ ok (tt, db')
    → db'.nodes ≡ db.nodes
unfolding insert_edge
insert_edge-nodes run (a, b) db db' h = ground arith

pub insert_patch-nodes :
    (run : String) (t : ℕ) (p : Fields) (db db' : Db)
    → insert_patch run t p db ≡ ok (tt, db')
    → db'.nodes ≡ db.nodes
unfolding insert_patch
insert_patch-nodes run t p db db' h = ground arith

pub cancel_task-nodes :
    (run reason : String) (vs : List NodeView) (nid : String) (db db' : Db)
    → cancel_task run reason vs nid db ≡ ok (tt, db')
    → db'.nodes ≡ set_state (is_node run nid) cancelled db.nodes
unfolding cancel_task insert_event
cancel_task-nodes run reason vs nid db db' h = ground arith

pub put_state-nodes :
    (run : String) (s : NodeState) (nid : String) (db db' : Db)
    → put_state run s nid db ≡ ok (tt, db')
    → db'.nodes ≡ set_state (is_node run nid) s db.nodes
unfolding put_state
put_state-nodes run s nid db db' h = ground arith

pub cancel_leftover-nodes :
    (run : String) (x : String × NodeState) (db db' : Db)
    → cancel_leftover run x db ≡ ok (tt, db')
    → db'.nodes ≡ set_state (is_node run x.0) cancelled db.nodes
unfolding cancel_leftover insert_event
cancel_leftover-nodes run (nid, s) db db' h = ground arith

pub insert_node-nodes :
    (run : String) (t : TaskSpec) (db db' : Db)
    → insert_node run t db ≡ ok (tt, db')
    → (find_node run t.id db.nodes ≡ none)
      × (db'.nodes
          ≡ db.nodes
            ++ record {
              run_id = run;
              id = t.id;
              skill = t.skill;
              input = t.input;
              metadata = t.metadata;
              state = pending;
              result = none;
            }
              ∷ [])
unfolding insert_node
insert_node-nodes run t db db' h = ground arith

merge :
    (b c d : Bool) (s : NodeState) (o : Option NodeState)
    → Option.map (λ t. if b && c then s else t) (Option.map (λ t. if b && d then s else t) o)
      ≡ Option.map (λ t. if b && (d || c) then s else t) o
merge b c d s o = ground arith

-- A loop each of whose rounds puts the node with the key of its element into the state `s`.
module _ {A : Type 0} (run : String) (s : NodeState) (key : A → String) (body : A → Tx Unit)
    (sets : (x : A) (db db' : Db)
      → body x db ≡ ok (tt, db')
      → db'.nodes ≡ set_state (is_node run (key x)) s db.nodes) where
  pub for_each-state :
      (run' nid : String) (xs : List A) (db db' : Db)
      → for_each body xs db ≡ ok (tt, db')
      → state_in run' nid db'.nodes
        ≡ Option.map
            (λ t. if run' == run && elem nid (map key xs) then s else t)
            (state_in run' nid db.nodes)
  unfolding for_each
  for_each-state run' nid [] db db' h = ground arith
  for_each-state run' nid (x ∷ xs) db db' h = peel (body x) _ db h λ _ d e k.
      for_each-state run' nid xs d db' k
      ∙ rw (sets x db d e, state_in-set_state run' nid run (key x) s db.nodes)
          (merge (run' == run) (elem nid (map key xs)) (nid == key x) s
            (state_in run' nid db.nodes))

-- The first value that is there.
abbrev pub or_else : Option NodeState → Option NodeState → Option NodeState
or_else (some s) o = some s
or_else none o = o

-- The state that a task gets on entry.
abbrev pub entry : Bool → Option NodeState
entry b = if b then some pending else none

pub find_node-state_in :
    (run nid : String) (ns : List NodeRow)
    → find_node run nid ns ≡ none
    → state_in run nid ns ≡ none
find_node-state_in run nid [] h = refl
find_node-state_in run nid (n ∷ ns) h = ground (arith, find_node-state_in run nid ns)

join :
    (b c d : Bool) (o : Option NodeState)
    → or_else (or_else o (entry (b && d))) (entry (b && c)) ≡ or_else o (entry (b && (d || c)))
join b c d o = ground arith

pub insert_node-state :
    (run : String) (t : TaskSpec) (db db' : Db)
    → insert_node run t db ≡ ok (tt, db')
    → (run' nid : String)
    → state_in run' nid db'.nodes
      ≡ or_else (state_in run' nid db.nodes) (entry (run' == run && nid == t.id))
insert_node-state run t db db' h run' nid =
    let (_, e) = insert_node-nodes run t db db' h in
    rw (e, state_in-append run' nid db.nodes)
      (ground (arith, eq_iff run' run, eq_iff run run', eq_iff nid t.id, eq_iff t.id nid))

pub adds-state :
    (run : String) (ts : List TaskSpec) (db db' : Db)
    → for_each (insert_node run) ts db ≡ ok (tt, db')
    → (run' nid : String)
    → state_in run' nid db'.nodes
      ≡ or_else (state_in run' nid db.nodes) (entry (run' == run && elem nid (map (λ t. t.id) ts)))
unfolding for_each
adds-state run [] db db' h run' nid = ground arith
adds-state run (t ∷ ts) db db' h run' nid = peel (insert_node run t) _ db h λ _ d e k.
    adds-state run ts d db' k run' nid
    ∙ rw (insert_node-state run t db d e run' nid) (
        join (run' == run) (elem nid (map (λ t. t.id) ts)) (nid == t.id)
          (state_in run' nid db.nodes))

-- A loop that leaves the nodes alone.
pub for_each-nodes :
    {A : Type 0} (body : A → Tx Unit)
    → ((x : A) (db db' : Db) → body x db ≡ ok (tt, db') → db'.nodes ≡ db.nodes)
    → (xs : List A) (db db' : Db) → for_each body xs db ≡ ok (tt, db')
    → db'.nodes ≡ db.nodes
unfolding for_each
for_each-nodes body k [] db db' h = ground arith
for_each-nodes body k (x ∷ xs) db db' h =
    peel (body x) _ db h λ _ d e r. for_each-nodes body k xs d db' r ∙ k x db d e

-- The leftovers of a run are its nodes in an open state.
elem-leftovers-absent :
    (run nid : String) (ns : List NodeRow)
    → state_in run nid ns ≡ none
    → elem nid (map (λ x. x.0) (leftovers run ns)) ≡ false
elem-leftovers-absent run nid [] h = refl
elem-leftovers-absent run nid (n ∷ ns) h =
    ground (arith, elem-leftovers-absent run nid ns, eq_iff nid n.id, eq_iff n.id nid)

abbrev pub is_open_at : Option NodeState → Bool
is_open_at none = false
is_open_at (some s) = is_open s

pub elem-leftovers :
    (run nid : String) (ns : List NodeRow)
    → Unique ns
    → elem nid (map (λ x. x.0) (leftovers run ns)) ≡ is_open_at (state_in run nid ns)
elem-leftovers run nid [] u = refl
elem-leftovers run nid (n ∷ ns) u = elim (Bool-cases (is_node run nid n)) [
  | inl e ↦
      let (er, ei) = is_node_key run nid n e in
      let absent = elem-leftovers-absent run nid ns (rw (er, ei) at u.0) in
      rw (e, er, ei, eq_self) (here (is_open n.state) absent)
  | inr e ↦ rw e (there (n.run_id == run) (is_open n.state) e (elem-leftovers run nid ns u.1))
]
  where
    here :
        (b : Bool)
        → elem nid (map (λ x. x.0) (leftovers run ns)) ≡ false
        → elem nid (
            map
              (λ x. x.0)
              (if true && b then (nid, n.state) ∷ leftovers run ns else leftovers run ns))
          ≡ b
    here true a = rw eq_self
    here false a = a

    there :
        (r b : Bool)
        → (r && n.id == nid) ≡ false
        → elem nid (map (λ x. x.0) (leftovers run ns)) ≡ is_open_at (state_in run nid ns)
        → elem nid (
            map
              (λ x. x.0)
              (if r && b then (n.id, n.state) ∷ leftovers run ns else leftovers run ns))
          ≡ is_open_at (state_in run nid ns)
    there r b ne ih = ground (arith, eq_iff nid n.id, eq_iff n.id nid)
