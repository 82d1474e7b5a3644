-- ===== src/Memory/Store.antt =====
-- `MemoryStore.write` of core/memory/store.py.
use s13code.Prelude.{
  String, Bool, true, false, not, ◌&&◌, ◌||◌, ◌==◌, Option, none, some, List, [], ◌∷◌, ◌++◌,
  Outcome, ok, err, ensure, if◌then◌else◌, any, text_append,
}
use s13code.Prelude.Effects.{◌>>◌, return, check, update}
use s13code.Json.{str, field, end}
use s13code.Memory.Types.{
  working, policy, audit, ◌=ₖ◌, kind_value, ◌=ᵣ◌, MemoryRecord, Memory, MemoryError, current,
  superseded, no_source, absent_superseded, other_kind_or_scope, not_current, policy_denied,
  audit_denied, primary_key,
}

-- What the clock and the generator of identifiers give for one new record.
pub record Stamp : Type 0 where
  pub id : String
  pub now : String

abbrev pub is_empty : {A : Type 0} → List A → Bool
is_empty [] = true
is_empty (_ ∷ _) = false

-- `_assert_write_allowed`
unfoldable pub write_allowed : MemoryRecord → Outcome MemoryError Unit
unfolding ensure
write_allowed r =
    if is_empty r.sources && not (r.kind =ₖ working || r.kind =ₖ audit)
    then err no_source
    else (if r.kind =ₖ policy
          && not (r.principal.role == "operator" || r.principal.role == "system")
        then err policy_denied
        else ensure (not (r.kind =ₖ audit && not (r.principal.role == "gateway"))) audit_denied)

abbrev pub find_record : String → List MemoryRecord → Option MemoryRecord
find_record rid [] = none
find_record rid (r ∷ rs) = if r.id == rid then some r else find_record rid rs

-- `get`
unfoldable pub get : String → Memory → Option MemoryRecord
get rid m = find_record rid m.records

-- `record.supersedes_id` where the source tests its truth: the empty text counts as none.
abbrev pub superseding : MemoryRecord → Option String
superseding r = elim r.supersedes_id [ none ↦ none | some s ↦ if s == "" then none else some s ]

abbrev pub may_supersede : Option MemoryRecord → MemoryRecord → Outcome MemoryError Unit
may_supersede none r = err absent_superseded
may_supersede (some old) r =
    if old.scope =ᵣ r.scope && old.kind =ₖ r.kind
    then ensure (old.status == current) not_current
    else err other_kind_or_scope

unfoldable pub check_superseded : MemoryRecord → Memory → Outcome MemoryError Unit
check_superseded r m = elim (superseding r) [
  | none ↦ ok tt
  | some old ↦ may_supersede (find_record old m.records) r
]

abbrev pub is_record : String → MemoryRecord → Bool
is_record rid r = r.id == rid

-- The two INSERTs of `_write`.
unfoldable pub insert_record : MemoryRecord → Memory → Outcome MemoryError Unit × Memory
insert_record r m = if any (is_record r.id) m.records then (err primary_key, m) else (
  ok tt,
  record m { records = m.records ++ r ∷ []; records_fts = m.records_fts ++ (r.id, r.text) ∷ [] },
)

-- `UPDATE records SET status='superseded' WHERE …`
abbrev pub set_superseded : (MemoryRecord → Bool) → List MemoryRecord → List MemoryRecord
set_superseded test [] = []
set_superseded test (r ∷ rs) =
    (if test r then record r { status = superseded } else r) ∷ set_superseded test rs

unfoldable pub mark_superseded : MemoryRecord → Memory → Memory
mark_superseded r m = elim (superseding r) [
  | none ↦ m
  | some old ↦ record m { records = set_superseded (is_record old) m.records }
]

-- `_write(record, audit=False)`
unfoldable pub write_row : MemoryRecord → Memory → Outcome MemoryError Unit × Memory
write_row r = do
  check (write_allowed r)
  λ m. check (check_superseded r m) m
  insert_record r
  update (mark_superseded r)

-- The record of `_append_audit`.
unfoldable pub audit_record : Stamp → MemoryRecord → MemoryRecord
audit_record stamp r = record {
  id = stamp.id;
  kind = audit;
  scope = r.scope;
  text = text_append "write " (text_append (kind_value r.kind) (text_append " " r.id));
  sources = [];
  principal = record { id = "memory-gateway"; role = "gateway" };
  metadata = field "record_id" (str r.id) (field "actor" (str r.principal.id) end);
  valid_from = stamp.now;
  valid_to = none;
  confidence = none;
  created_at = stamp.now;
  status = current;
  supersedes_id = none;
}

-- `write(record, audit=…)`; the new vector index is a cache.
unfoldable pub write : Stamp → Bool → MemoryRecord → Memory → Outcome MemoryError Unit × Memory
write stamp with_audit r = do
  write_row r
  if with_audit && not (r.kind =ₖ audit) then write_row (audit_record stamp r) else return tt
