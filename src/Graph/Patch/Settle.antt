-- ===== src/Graph/Patch/Settle.antt =====
-- What finishing a run and a whole patch do to the state of every node.
use mathlib.Core.Option
use s13code.Prelude.{
  ℕ, String, ◌≡◌, refl, ◌∙◌, ap, Bool, true, false, ◌&&◌, ◌==◌, Option, none, some, List, [], ◌∷◌,
  map, arith, ok, if◌then◌else◌, elem, eq_iff, Bool-cases, inl, inr,
}
use s13code.Graph.Types.{NodeState, pending, waiting, cancelled, GraphPatch, GraphSnapshot}
use s13code.Graph.Db.{Db, Tx, is_node, for_each, set_state, pure}
use s13code.Graph.Patch.{cancel_leftover, finish_run, leftovers, is_open, add_ids}
use s13code.Graph.Patch.Stages.{peel, Stages}
use s13code.Graph.Patch.Effect.{
  is_open_at, elem-leftovers, for_each-state, cancel_leftover-nodes, cancel_task-nodes,
  put_state-nodes, insert_event-nodes, insert_patch-nodes, insert_edge-nodes, for_each-nodes,
  adds-state, or_else, entry,
}
use s13code.Graph.Keys.{Unique}
use s13code.Graph.Nodes.{state_in}
use s13code.Graph.Patch.Apart.{
  for_each-Unique, insert_node-Unique, cancel_task-Unique, put_state-Unique, cancel_leftover-Unique,
}

abbrev close_state : Bool → NodeState → NodeState
close_state b s = if b && is_open s then cancelled else s

close_lem :
    (b : Bool) (o : Option NodeState)
    → Option.map (λ t. if b && is_open_at o then cancelled else t) o ≡ Option.map (close_state b) o
close_lem b none = refl
close_lem b (some s) = refl

leftover_closed :
    (run run' nid : String) (db : Db)
    → Unique db.nodes
    → Option.map
        (λ t.
          if run' == run && elem nid (map (λ x. x.0) (leftovers run db.nodes))
          then cancelled
          else t)
        (state_in run' nid db.nodes)
      ≡ Option.map (close_state (run' == run)) (state_in run' nid db.nodes)
leftover_closed run run' nid db u = elim (Bool-cases (run' == run)) [
  | inl e ↦
      rw (e, (eq_iff run' run).0 e, elem-leftovers run nid db.nodes u)
        (close_lem true (state_in run nid db.nodes))
  | inr e ↦ rw e
]

pub finish_run-state :
    (run : String) (db db' : Db)
    → Unique db.nodes
    → finish_run run db ≡ ok (tt, db')
    → (run' nid : String)
    → state_in run' nid db'.nodes
      ≡ Option.map (close_state (run' == run)) (state_in run' nid db.nodes)
unfolding finish_run
finish_run-state run db db' u h run' nid =
    peel (for_each (cancel_leftover run) (leftovers run db.nodes)) _ db h λ _ d e k.
      let same : db'.nodes ≡ d.nodes = ground arith in
      rw same (
        for_each-state run cancelled (λ x. x.0) (cancel_leftover run) (cancel_leftover-nodes run)
          run' nid (leftovers run db.nodes) db d e
        ∙ leftover_closed run run' nid db u)

finish_run-Unique :
    (run : String) (db db' : Db)
    → finish_run run db ≡ ok (tt, db')
    → Unique db.nodes
    → Unique db'.nodes
unfolding finish_run
finish_run-Unique run db db' h u =
    peel (for_each (cancel_leftover run) (leftovers run db.nodes)) _ db h λ _ d e k.
      let same : db'.nodes ≡ d.nodes = ground arith in
      rw same (
        for_each-Unique (cancel_leftover run) (cancel_leftover-Unique run) (leftovers run db.nodes)
          db d e u)

-- The description: what a patch makes of the state of the task `nid`.
abbrev pub settle_by : Bool → Bool → Bool → Bool → NodeState → NodeState
settle_by cancels waits resumes finishes s =
    let cancelled_state = if cancels then cancelled else s in
    let waiting_state = if waits then waiting else cancelled_state in
    let resumed_state = if resumes then pending else waiting_state in
    if finishes && is_open resumed_state then cancelled else resumed_state

abbrev pub settle : GraphPatch → String → NodeState → NodeState
settle patch nid =
    settle_by (elem nid patch.cancel) (elem nid patch.wait) (elem nid patch.resume) patch.finish

in_turn :
    (r c w u f : Bool) (o : Option NodeState)
    → Option.map
        (λ s. if f then close_state r s else s)
        (Option.map
          (λ s. if r && u then pending else s)
          (Option.map
            (λ s. if r && w then waiting else s)
            (Option.map (λ s. if r && c then cancelled else s) o)))
      ≡ Option.map (λ s. if r then settle_by c w u f s else s) o
in_turn r c w u f none = refl
in_turn false c w u true (some s) = refl
in_turn false c w u false (some s) = refl
in_turn true c w true true (some s) = refl
in_turn true c w true false (some s) = refl
in_turn true c true false true (some s) = refl
in_turn true c true false false (some s) = refl
in_turn true true false false true (some s) = refl
in_turn true true false false false (some s) = refl
in_turn true false false false true (some s) = refl
in_turn true false false false false (some s) = refl

map_same : (xs : List String) → map (λ x. x) xs ≡ xs
map_same [] = refl
map_same (x ∷ xs) = rw (map_same xs)

each-state :
    (run : String) (s : NodeState) (body : String → Tx Unit)
    → ((x : String) (db db' : Db)
        → body x db ≡ ok (tt, db')
        → db'.nodes ≡ set_state (is_node run x) s db.nodes)
    → (run' nid : String) (xs : List String) (db db' : Db) → for_each body xs db ≡ ok (tt, db')
    → state_in run' nid db'.nodes
      ≡ Option.map (λ t. if run' == run && elem nid xs then s else t) (state_in run' nid db.nodes)
each-state run s body sets run' nid xs db db' h =
    rw (map_same xs) at (for_each-state run s (λ x. x) body sets run' nid xs db db' h)

map_id : (o : Option NodeState) → o ≡ Option.map (λ s. s) o
map_id none = refl
map_id (some s) = refl

module _ (run : String) (patch : GraphPatch) (existing : GraphSnapshot) (trigger : ℕ) (db db' : Db)
    (u : Unique db.nodes) (st : Stages run patch existing trigger db db') where
  Unique-resumed : Unique st.resumed.nodes
  Unique-resumed =
      for_each-Unique _ (put_state-Unique run pending) patch.resume st.waited st.resumed st.resumes
        (for_each-Unique _ (put_state-Unique run waiting) patch.wait st.cancelled_db st.waited
          st.waits
          (for_each-Unique _ (cancel_task-Unique run patch.reason existing.nodes) patch.cancel
            st.linked st.cancelled_db st.cancels
            (rw (for_each-nodes _ (insert_edge-nodes run) patch.connect st.added st.linked st.links)
              (for_each-Unique _ (insert_node-Unique run) patch.add db st.added st.adds u))))

  Unique-closed :
      (f : Bool)
      → (if f then finish_run run else pure tt) st.resumed ≡ ok (tt, st.closed)
      → Unique st.closed.nodes
  Unique-closed true h = finish_run-Unique run st.resumed st.closed h Unique-resumed
  Unique-closed false h =
      let e : st.resumed.nodes ≡ st.closed.nodes = ground arith in rw (← e) Unique-resumed

  closed_by :
      (f : Bool)
      → (if f then finish_run run else pure tt) st.resumed ≡ ok (tt, st.closed)
      → (run' nid : String)
      → state_in run' nid st.closed.nodes
        ≡ Option.map
            (λ s. if f then close_state (run' == run) s else s)
            (state_in run' nid st.resumed.nodes)
  closed_by true h run' nid = finish_run-state run st.resumed st.closed Unique-resumed h run' nid
  closed_by false h run' nid =
      ap (state_in run' nid) (let e : st.closed.nodes ≡ st.resumed.nodes = ground arith in e)
      ∙ map_id _

  pub Unique-settled : Unique db'.nodes
  Unique-settled =
      rw
        (
          insert_patch-nodes run trigger _ st.journaled db' st.records,
          insert_event-nodes run _ none _ st.closed st.journaled st.event st.journals,
        )
        (Unique-closed patch.finish st.closes)

  -- The state of every node after a committed patch, from its state before and the patch.
  pub settled :
      (run' nid : String)
      → state_in run' nid db'.nodes
        ≡ Option.map
            (λ s. if run' == run then settle patch nid s else s)
            (or_else (state_in run' nid db.nodes) (entry (run' == run && elem nid (add_ids patch))))
  settled run' nid =
      rw
        (
          insert_patch-nodes run trigger _ st.journaled db' st.records,
          insert_event-nodes run _ none _ st.closed st.journaled st.event st.journals,
          closed_by patch.finish st.closes run' nid,
          each-state run pending _ (put_state-nodes run pending) run' nid patch.resume st.waited
              st.resumed st.resumes,
          each-state run waiting _ (put_state-nodes run waiting) run' nid patch.wait st.cancelled_db
              st.waited st.waits,
          each-state run cancelled _ (cancel_task-nodes run patch.reason existing.nodes) run' nid
              patch.cancel st.linked st.cancelled_db st.cancels,
          for_each-nodes _ (insert_edge-nodes run) patch.connect st.added st.linked st.links,
          adds-state run patch.add db st.added st.adds run' nid,
        )
        (in_turn (run' == run) (elem nid patch.cancel) (elem nid patch.wait) (elem nid patch.resume)
          patch.finish _)
