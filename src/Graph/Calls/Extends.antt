-- ===== src/Graph/Calls/Extends.antt =====
-- Journals that go on: lemmas on the rows that the statements of core/live_graph/store.py add to
-- `events`.
use mathlib.Core.List.{append_assoc, append-nil}
use s13code.Prelude.{ℕ, suc, String, ◌≡◌, sym, subst, ◌∙◌, Option, List, [], ◌∷◌, ◌++◌, arith, ok}
use s13code.Json.{Fields}
use s13code.Graph.Types.{Event}
use s13code.Graph.Db.{Db, EventRow, Tx, for_each, insert_event}
use s13code.Graph.Patch.Stages.{peel}

-- The numbers of the rows follow `lo` one by one, and the last one is `hi`.
abbrev pub Rising : ℕ → List EventRow → ℕ → Type 0
Rising lo [] hi = hi ≡ lo
Rising lo (e ∷ es) hi = (e.event.sequence ≡ suc lo) × Rising (suc lo) es hi

Rising-append :
    (lo mid hi : ℕ) (xs ys : List EventRow)
    → Rising lo xs mid
    → Rising mid ys hi
    → Rising lo (xs ++ ys) hi
Rising-append lo mid hi [] ys p q = subst (λ n. Rising n ys hi) p q
Rising-append lo mid hi (x ∷ xs) ys p q = (p.0, Rising-append (suc lo) mid hi xs ys p.1 q)

-- `db'` has the journal of `db`, and then rows with the next numbers.
pub record Extends (db db' : Db) : Type 0 where
  pub new : List EventRow
  pub rows : db'.events ≡ db.events ++ new
  pub rising : Rising db.last_sequence new db'.last_sequence

pub same_journal :
    (db db' : Db) → db'.events ≡ db.events → db'.last_sequence ≡ db.last_sequence → Extends db db'
same_journal db db' e l = record { new = []; rows = e ∙ sym (append-nil db.events); rising = l }

pub Extends-trans : (a b c : Db) → Extends a b → Extends b c → Extends a c
Extends-trans a b c p q = record {
  new = p.new ++ q.new;
  rows = q.rows ∙ rw (p.rows, append_assoc);
  rising =
      Rising-append a.last_sequence b.last_sequence c.last_sequence p.new q.new p.rising q.rising;
}

pub for_each-Extends :
    {A : Type 0} (body : A → Tx Unit)
    → ((x : A) (db db' : Db) → body x db ≡ ok (tt, db') → Extends db db')
    → (xs : List A) (db db' : Db) → for_each body xs db ≡ ok (tt, db')
    → Extends db db'
unfolding for_each
for_each-Extends body k [] db db' h = same_journal db db' (ground arith) (ground arith)
for_each-Extends body k (x ∷ xs) db db' h =
    peel (body x) _ db h
      λ _ d e r. Extends-trans db d db' (k x db d e) (for_each-Extends body k xs d db' r)

-- One row was written.
pub one_row :
    (db db' : Db) (row : EventRow)
    → db'.events ≡ db.events ++ row ∷ []
    → row.event.sequence ≡ suc db.last_sequence
    → db'.last_sequence ≡ suc db.last_sequence
    → Extends db db'
one_row db db' row e s l = record { new = row ∷ []; rows = e; rising = (s, l) }

pub insert_event-Extends :
    (run kind : String) (about : Option String) (p : Fields) (db db' : Db) (ev : Event)
    → insert_event run kind about p db ≡ ok (ev, db')
    → Extends db db'
unfolding insert_event
insert_event-Extends run kind about p db db' ev h =
    one_row db db' (record { run_id = run; event = ev }) (ground arith) (ground arith)
      (ground arith)
