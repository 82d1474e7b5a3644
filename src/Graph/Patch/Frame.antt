-- ===== src/Graph/Patch/Frame.antt =====
-- What a committed patch does to the tables `runs`, `edges` and `patches`.
use s13code.Prelude.{
  ℕ, String, ◌≡◌, ◌∙◌, ap, Bool, true, false, Option, none, List, [], ◌∷◌, ◌++◌, arith, ok,
  if◌then◌else◌,
}
use s13code.Json.{Fields}
use s13code.Graph.Types.{
  NodeState, pending, waiting, TaskSpec, GraphPatch, GraphSnapshot, NodeView, Event, graph_patched,
}
use s13code.Graph.Db.{
  Db, RunRow, EdgeRow, PatchRow, Tx, for_each, insert_event, insert_node, insert_edge, insert_patch,
  pure,
}
use s13code.Graph.Patch.{
  cancel_task, put_state, cancel_leftover, finish_run, leftovers, finish_runs, patch_json,
}
use s13code.Graph.Patch.Stages.{peel, Stages}

-- A loop keeps what each of its rounds keeps.
pub for_each-kept :
    {A B : Type 0} (f : Db → B) (body : A → Tx Unit)
    → ((x : A) (db db' : Db) → body x db ≡ ok (tt, db') → f db' ≡ f db)
    → (xs : List A) (db db' : Db) → for_each body xs db ≡ ok (tt, db')
    → f db' ≡ f db
unfolding for_each
for_each-kept f body k [] db db' h = let e : db ≡ db' = ground arith in rw e
for_each-kept f body k (x ∷ xs) db db' h =
    peel (body x) _ db h λ _ d e r. for_each-kept f body k xs d db' r ∙ k x db d e

-- All but the nodes, and all but the journal.
pub record Tables : Type 0 where
  pub runs : List RunRow
  pub edges : List EdgeRow
  pub patches : List PatchRow

abbrev pub tables : Db → Tables
tables db = record { runs = db.runs; edges = db.edges; patches = db.patches }

pub insert_event-tables :
    (run kind : String) (about : Option String) (p : Fields) (db db' : Db) (e : Event)
    → insert_event run kind about p db ≡ ok (e, db')
    → tables db' ≡ tables db
unfolding insert_event
insert_event-tables run kind about p db db' e h = ground arith

insert_node-tables :
    (run : String) (t : TaskSpec) (db db' : Db)
    → insert_node run t db ≡ ok (tt, db')
    → tables db' ≡ tables db
unfolding insert_node
insert_node-tables run t db db' h = ground arith

cancel_task-tables :
    (run reason : String) (vs : List NodeView) (nid : String) (db db' : Db)
    → cancel_task run reason vs nid db ≡ ok (tt, db')
    → tables db' ≡ tables db
unfolding cancel_task insert_event
cancel_task-tables run reason vs nid db db' h = ground arith

put_state-tables :
    (run : String) (s : NodeState) (nid : String) (db db' : Db)
    → put_state run s nid db ≡ ok (tt, db')
    → tables db' ≡ tables db
unfolding put_state
put_state-tables run s nid db db' h = ground arith

cancel_leftover-tables :
    (run : String) (x : String × NodeState) (db db' : Db)
    → cancel_leftover run x db ≡ ok (tt, db')
    → tables db' ≡ tables db
unfolding cancel_leftover insert_event
cancel_leftover-tables run (nid, s) db db' h = ground arith

insert_patch-tables :
    (run : String) (trigger : ℕ) (p : Fields) (db db' : Db)
    → insert_patch run trigger p db ≡ ok (tt, db')
    → tables db' ≡ record {
      runs = db.runs;
      edges = db.edges;
      patches = db.patches ++ record { run_id = run; trigger_event = trigger; patch = p } ∷ [];
    }
unfolding insert_patch
insert_patch-tables run trigger p db db' h = ground arith

insert_edge-others :
    (run : String) (pc : String × String) (db db' : Db)
    → insert_edge run pc db ≡ ok (tt, db')
    → ◌≡◌ {A = List RunRow × List PatchRow} (db'.runs, db'.patches) (db.runs, db.patches)
unfolding insert_edge
insert_edge-others run (a, b) db db' h = ground arith

finish_run-tables :
    (run : String) (db db' : Db)
    → finish_run run db ≡ ok (tt, db')
    → tables db' ≡ record { runs = finish_runs run db.runs; edges = db.edges; patches = db.patches }
unfolding finish_run
finish_run-tables run db db' h =
    peel (for_each (cancel_leftover run) (leftovers run db.nodes)) _ db h λ _ d e k.
      let kept =
        for_each-kept tables (cancel_leftover run) (cancel_leftover-tables run)
          (leftovers run db.nodes) db d e in
      ground arith

module _ (run : String) (patch : GraphPatch) (existing : GraphSnapshot) (trigger : ℕ) (db db' : Db)
    (st : Stages run patch existing trigger db db') where
  tables-added : tables st.added ≡ tables db
  tables-added = for_each-kept tables _ (insert_node-tables run) patch.add db st.added st.adds

  tables-resumed : tables st.resumed ≡ tables st.linked
  tables-resumed =
      for_each-kept tables _ (put_state-tables run pending) patch.resume st.waited st.resumed
        st.resumes
      ∙ for_each-kept tables _ (put_state-tables run waiting) patch.wait st.cancelled_db st.waited
          st.waits
      ∙ for_each-kept tables _ (cancel_task-tables run patch.reason existing.nodes) patch.cancel
          st.linked st.cancelled_db st.cancels

  tables-closed :
      (f : Bool)
      → (if f then finish_run run else pure tt) st.resumed ≡ ok (tt, st.closed)
      → tables st.closed ≡ record {
        runs = if f then finish_runs run st.resumed.runs else st.resumed.runs;
        edges = st.resumed.edges;
        patches = st.resumed.patches;
      }
  tables-closed true h = finish_run-tables run st.resumed st.closed h
  tables-closed false h = let e : st.resumed ≡ st.closed = ground arith in rw e

  journaled-eq : tables st.journaled ≡ tables st.closed
  journaled-eq =
      insert_event-tables run graph_patched none _ st.closed st.journaled st.event st.journals

  records-eq : tables db' ≡ record {
    runs = st.journaled.runs;
    edges = st.journaled.edges;
    patches =
        st.journaled.patches
        ++ record { run_id = run; trigger_event = trigger; patch = patch_json patch } ∷ [];
  }
  records-eq = insert_patch-tables run trigger (patch_json patch) st.journaled db' st.records

  linked-others :
      ◌≡◌ {A = List RunRow × List PatchRow}
        (st.linked.runs, st.linked.patches)
        (st.added.runs, st.added.patches)
  linked-others =
      for_each-kept (λ d. (d.runs, d.patches)) _ (insert_edge-others run) patch.connect st.added
        st.linked st.links

  pub runs-committed : db'.runs ≡ (if patch.finish then finish_runs run db.runs else db.runs)
  runs-committed = cc (
    ap (λ t. t.runs) records-eq,
    ap (λ t. t.runs) journaled-eq,
    ap (λ t. t.runs) (tables-closed patch.finish st.closes),
    ap (λ t. if patch.finish then finish_runs run t.runs else t.runs) tables-resumed,
    ap (λ (t : List RunRow × List PatchRow). if patch.finish then finish_runs run t.0 else t.0)
        linked-others,
    ap (λ t. if patch.finish then finish_runs run t.runs else t.runs) tables-added,
  )

  pub edges-committed : db'.edges ≡ st.linked.edges
  edges-committed = cc (
    ap (λ t. t.edges) records-eq,
    ap (λ t. t.edges) journaled-eq,
    ap (λ t. t.edges) (tables-closed patch.finish st.closes),
    ap (λ t. t.edges) tables-resumed,
  )

  pub edges-added : st.added.edges ≡ db.edges
  edges-added = ap (λ t. t.edges) tables-added

  pub patches-committed :
      db'.patches
      ≡ db.patches
        ++ record { run_id = run; trigger_event = trigger; patch = patch_json patch } ∷ []
  patches-committed = cc (
    ap (λ t. t.patches) records-eq,
    ap (λ t. t.patches) journaled-eq,
    ap (λ t. t.patches) (tables-closed patch.finish st.closes),
    ap (λ t. t.patches) tables-resumed,
    ap (λ (t : List RunRow × List PatchRow). t.1) linked-others,
    ap (λ t. t.patches) tables-added,
  )
