-- ===== src/Memory/Recall.antt =====
-- `MemoryStore.recall` of core/memory/store.py: who may read a record, and which are given.
pub mod Authorized
use s13code.Prelude.{
  ℕ, zero, ◌+◌, ◌-◌, String, Bool, true, false, not, ◌&&◌, ◌||◌, ◌==◌, Option, none, some, List, [],
  ◌∷◌, ◌++◌, map, Outcome, ok, err, if◌then◌else◌, any, filter, take, sort_by, elem, text_le, leb,
  eqb,
}
use s13code.Json.{Json, Fields, null, bool, num, real, str, arr, obj, get_or}
use s13code.Memory.Types.{
  MemoryKind, policy, audit, document_chunk, ◌=ₖ◌, MemoryScope, MemoryRecord, Memory, current,
}
use s13code.Memory.Store.{is_record, is_empty}

-- One column of `_scope_where`: `column IS NULL OR column=?`.
abbrev pub column_admits : Option String → Option String → Bool
column_admits none asked = true
column_admits (some s) none = false
column_admits (some s) (some t) = s == t

-- `_scope_where`: the record of scope `own` may be read in a request of scope `asked`.
unfoldable pub scope_admits : MemoryScope → MemoryScope → Bool
scope_admits own asked =
    own.tenant_id == asked.tenant_id
    && column_admits own.project_id asked.project_id
    && column_admits own.user_id asked.user_id
    && column_admits own.agent_id asked.agent_id
    && column_admits own.run_id asked.run_id

-- What Python and SQLite make of the values of the metadata: `int(ordinal)` and a BETWEEN around it,
-- an `=` to a value that is bound to the query, each `none` where the value raises, and ORDER BY.
pub record Comparisons : Type 0 where
  pub between : ℕ → Json → Option (Json → Bool)
  pub equal : Json → Option (Json → Bool)
  pub before : Json → Json → Bool

-- `order` ranks by the score, which mixes vectors of the embedder, the full-text hits and a prior,
-- and then by `created_at`.
pub record Request : Type 0 where
  pub scope : MemoryScope
  pub kinds : List MemoryKind
  pub limit : ℕ
  pub include_history : Bool
  pub expand_neighbors : ℕ
  pub now : String
  pub order : MemoryRecord → MemoryRecord → Bool
  pub compare : Comparisons

-- `status='current' AND (valid_to IS NULL OR valid_to > ?)`
abbrev pub is_valid : String → MemoryRecord → Bool
is_valid now r =
    r.status == current && (elim r.valid_to [ none ↦ true | some until ↦ not (text_le until now) ])

-- Without kinds, audit and policy records are left out.
abbrev pub kind_admits : List MemoryKind → MemoryKind → Bool
kind_admits kinds k =
    if is_empty kinds then not (k =ₖ audit || k =ₖ policy) else any (λ l. l =ₖ k) kinds

unfoldable pub is_authorized : Request → MemoryRecord → Bool
is_authorized q r =
    scope_admits r.scope q.scope
    && (q.include_history || is_valid q.now r)
    && kind_admits q.kinds r.kind

unfoldable pub selected : Request → Memory → List MemoryRecord
selected q m = take q.limit (sort_by q.order (filter (is_authorized q) m.records))

abbrev pub is_null : Json → Bool
is_null null = true
is_null _ = false

abbrev pub meta : String → MemoryRecord → Json
meta key r = get_or key null r.metadata

-- The WHERE of the neighbours, with its parameters bound.
unfoldable pub is_neighbour : (Json → Bool) → (Json → Bool) → (Json → Bool) → MemoryRecord → Bool
is_neighbour same_id same_version in_range r =
    r.status == current
    && r.kind =ₖ document_chunk
    && same_id (meta "document_id" r)
    && same_version (meta "document_version" r)
    && in_range (meta "ordinal" r)

-- The parameters of the query for the neighbours of `s`.
unfoldable pub neighbours_of : Request → MemoryRecord → Option (MemoryRecord → Bool)
neighbours_of q s = elim (q.compare.between q.expand_neighbors (meta "ordinal" s)) [
  | none ↦ none
  | some in_range ↦ elim (q.compare.equal (meta "document_id" s)) [
    | none ↦ none
    | some same_id ↦ elim (q.compare.equal (meta "document_version" s)) [
      | none ↦ none
      | some same_version ↦ some (is_neighbour same_id same_version in_range)
    ]
  ]
]

abbrev pub ordinal_le : Request → MemoryRecord → MemoryRecord → Bool
ordinal_le q a b = q.compare.before (meta "ordinal" a) (meta "ordinal" b)

-- `if neighbour.id not in seen: …`; the identifiers seen are those of the list so far.
unfoldable pub add_unseen : List MemoryRecord → List MemoryRecord → List MemoryRecord
add_unseen expanded [] = expanded
add_unseen expanded (r ∷ rs) =
    if any (is_record r.id) expanded
    then add_unseen expanded rs
    else add_unseen (expanded ++ r ∷ []) rs

-- `none` when a value of the metadata raises.
unfoldable pub add_neighbours :
    Request → Memory → List MemoryRecord → MemoryRecord → Option (List MemoryRecord)
add_neighbours q m expanded s =
    if is_null (meta "document_id" s)
      || is_null (meta "document_version" s)
      || is_null (meta "ordinal" s)
    then some expanded
    else (elim (neighbours_of q s) [
      | none ↦ none
      | some near ↦ some (add_unseen expanded (sort_by (ordinal_le q) (filter near m.records)))
    ])

unfoldable pub expand :
    Request → Memory → List MemoryRecord → List MemoryRecord → Option (List MemoryRecord)
expand q m [] expanded = some expanded
expand q m (s ∷ ss) expanded = elim (add_neighbours q m expanded s) [
  | none ↦ none
  | some more ↦ expand q m ss more
]

-- `recall`; `none` when a value of the metadata raises.
unfoldable pub recall : Request → Memory → Option (List MemoryRecord)
recall q m =
    if eqb q.expand_neighbors 0
    then some (selected q m)
    else expand q m (selected q m) (selected q m)
