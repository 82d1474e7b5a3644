-- ===== src/Graph/Db.antt =====
-- The tables of core/live_graph/store.py and the SQL statements that its methods share.
use s13code.Prelude.{
  ℕ, suc, String, Bool, true, false, ◌&&◌, ◌==◌, Option, none, some, List, [], ◌∷◌, ◌++◌, map,
  Outcome, ok, err, eqb, if◌then◌else◌, any,
}
use s13code.Json.{Fields}
use s13code.Graph.Types.{NodeState, pending, TaskSpec, Event, GraphError, foreign_key, primary_key}

pub record RunRow : Type 0 where
  pub id : String
  pub finished : Bool
  pub context : Fields

pub record NodeRow : Type 0 where
  pub run_id : String
  pub id : String
  pub skill : String
  pub input : Fields
  pub metadata : Fields
  pub state : NodeState
  pub result : Option Fields

pub record EdgeRow : Type 0 where
  pub run_id : String
  pub parent_id : String
  pub child_id : String

pub record EventRow : Type 0 where
  pub run_id : String
  pub event : Event

pub record PatchRow : Type 0 where
  pub run_id : String
  pub trigger_event : ℕ
  pub patch : Fields

-- `last_sequence` is the AUTOINCREMENT counter of the table `events`.
pub record Db : Type 0 where
  pub runs : List RunRow
  pub nodes : List NodeRow
  pub edges : List EdgeRow
  pub events : List EventRow
  pub patches : List PatchRow
  pub last_sequence : ℕ

abbrev pub empty : Db
empty = record { runs = []; nodes = []; edges = []; events = []; patches = []; last_sequence = 0 }

-- `SELECT … FROM runs WHERE id=?`
abbrev pub find_run : String → List RunRow → Option RunRow
find_run run [] = none
find_run run (r ∷ rs) = if r.id == run then some r else find_run run rs

abbrev pub is_node : String → String → NodeRow → Bool
is_node run nid n = n.run_id == run && n.id == nid

-- `SELECT … FROM nodes WHERE run_id=? AND id=?`
abbrev pub find_node : String → String → List NodeRow → Option NodeRow
find_node run nid [] = none
find_node run nid (n ∷ ns) = if is_node run nid n then some n else find_node run nid ns

-- A statement or a transaction: it raises, or gives a value and the new tables.
abbrev pub Tx : Type 0 → Type 0
Tx A = Db → Outcome GraphError (A × Db)

abbrev continue :
    {A B : Type 0} → Outcome GraphError (A × Db) → (A → Tx B) → Outcome GraphError (B × Db)
continue (ok (a, db)) f = f a db
continue (err e) f = err e

infixl 10 ◌>>=◌ ◌>>◌
abbrev pub ◌>>=◌ : {A B : Type 0} → Tx A → (A → Tx B) → Tx B
◌>>=◌ m f db = continue (m db) f

abbrev pub ◌>>◌ : {A B : Type 0} → Tx A → Tx B → Tx B
m >> k = m >>= λ _. k

abbrev pub pure : {A : Type 0} → A → Tx A
pure a db = ok (a, db)

abbrev pub raise : {A : Type 0} → GraphError → Tx A
raise e db = err e

abbrev pub gets : {A : Type 0} → (Db → A) → Tx A
gets f db = ok (f db, db)

abbrev pub lift : {A : Type 0} → Outcome GraphError A → Tx A
lift (ok a) db = ok (a, db)
lift (err e) db = err e

-- `with self.db:` commits on return and rolls back on an exception.
abbrev pub end_transaction :
    {A : Type 0} → Outcome GraphError (A × Db) → Db → Outcome GraphError A × Db
end_transaction (ok (a, db')) db = (ok a, db')
end_transaction (err e) db = (err e, db)

abbrev pub transaction : {A : Type 0} → Tx A → Db → Outcome GraphError A × Db
transaction m db = end_transaction (m db) db

-- `for x in xs: body(x)`
unfoldable pub for_each : {A : Type 0} → (A → Tx Unit) → List A → Tx Unit
for_each body [] = pure tt
for_each body (x ∷ xs) = body x >> for_each body xs

-- `UPDATE nodes SET state=? WHERE …`
unfoldable pub set_state : (NodeRow → Bool) → NodeState → List NodeRow → List NodeRow
set_state test s = map (λ n. if test n then record n { state = s } else n)

abbrev pub update_state : (NodeRow → Bool) → NodeState → Tx Unit
update_state test s db = ok (tt, record db { nodes = set_state test s db.nodes })

abbrev pub is_some : {A : Type 0} → Option A → Bool
is_some none = false
is_some (some _) = true

abbrev pub has_run : String → Db → Bool
has_run run db = is_some (find_run run db.runs)

-- `INSERT INTO events`, which the foreign key to `runs` guards.
unfoldable pub insert_event : String → String → Option String → Fields → Tx Event
insert_event run kind about payload db =
    let event : Event = record {
      sequence = suc db.last_sequence;
      kind = kind;
      node_id = about;
      payload = payload;
    } in
    if has_run run db
    then ok (
      event,
      record db {
        events = db.events ++ record { run_id = run; event = event } ∷ [];
        last_sequence = suc db.last_sequence;
      },
    )
    else err foreign_key

-- `INSERT INTO nodes VALUES (…, NULL)` for one task of a patch.
unfoldable pub insert_node : String → TaskSpec → Tx Unit
insert_node run task db =
    if has_run run db
    then (if is_some (find_node run task.id db.nodes)
        then err primary_key
        else ok (
          tt,
          record db {
            nodes =
                db.nodes
                ++ record {
                  run_id = run;
                  id = task.id;
                  skill = task.skill;
                  input = task.input;
                  metadata = task.metadata;
                  state = pending;
                  result = none;
                }
                  ∷ [];
          },
        ))
    else err foreign_key

abbrev pub is_edge : String → String → String → EdgeRow → Bool
is_edge run parent child e = e.run_id == run && e.parent_id == parent && e.child_id == child

-- `INSERT OR IGNORE INTO edges`: an edge that is there already is left alone.
unfoldable pub insert_edge : String → String × String → Tx Unit
insert_edge run (parent, child) db =
    if has_run run db
    then (if any (is_edge run parent child) db.edges
        then ok (tt, db)
        else ok (
          tt,
          record db {
            edges = db.edges ++ record { run_id = run; parent_id = parent; child_id = child } ∷ [];
          },
        ))
    else err foreign_key

abbrev pub is_patch : String → ℕ → PatchRow → Bool
is_patch run trigger p = p.run_id == run && eqb p.trigger_event trigger

-- `INSERT INTO patches`
unfoldable pub insert_patch : String → ℕ → Fields → Tx Unit
insert_patch run trigger patch db =
    if has_run run db
    then (if any (is_patch run trigger) db.patches
        then err primary_key
        else ok (
          tt,
          record db {
            patches =
                db.patches ++ record { run_id = run; trigger_event = trigger; patch = patch } ∷ [];
          },
        ))
    else err foreign_key
