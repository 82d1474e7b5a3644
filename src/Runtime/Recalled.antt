-- ===== src/Runtime/Recalled.antt =====
-- The worker `recall` of runtime.py: which of the records that the store gives become evidence.
use s13code.Prelude.{
  ℕ, zero, suc, String, Bool, true, false, not, ◌&&◌, ◌==◌, List, [], ◌∷◌, take, filter, sort_by,
  leb, if◌then◌else◌,
}
use s13code.Json.{Json, Items, Fields, null, str, arr, obj, nil, cons, end, field, get_or}
use s13code.Memory.Types.{
  MemoryKind, episode, fact, playbook, document_chunk, ◌=ₖ◌, kind_value, SourceRef, MemoryRecord,
}

-- `limit` and `kinds` of the request to the store; `corpus_query` tells whether the query names
-- papers, documents, the index or a corpus.
abbrev pub pool_limit : Bool → ℕ
pool_limit corpus_query = if corpus_query then 24 else 8

abbrev pub pool_kinds : Bool → List MemoryKind
pool_kinds corpus_query =
    if corpus_query then document_chunk ∷ [] else fact ∷ document_chunk ∷ playbook ∷ episode ∷ []

abbrev pub is_text : String → Json → Bool
is_text s (str t) = t == s
is_text s other = false

-- Neither this very request nor a record that this run wrote.
unfoldable pub is_foreign : String → String → MemoryRecord → Bool
is_foreign run_id inbound_id hit =
    not (hit.id == inbound_id) && not (is_text run_id (get_or "run_id" null hit.metadata))

abbrev first_uri : String → List SourceRef → String
first_uri id [] = id
first_uri id (source ∷ sources) = source.uri

unfoldable pub source_key : MemoryRecord → String
source_key hit = first_uri hit.id hit.sources

-- `per_source`, as the function that `get(key, 0)` is
abbrev pub bump : String → (String → ℕ) → String → ℕ
bump key counts k = if key == k then suc (counts k) else counts k

-- `room` is how many hits are still missing to eight; the loop breaks when none is.
abbrev pub diversify : (String → ℕ) → ℕ → List MemoryRecord → List MemoryRecord
diversify counts zero hits = []
diversify counts (suc room) [] = []
diversify counts (suc room) (hit ∷ hits) = elim (leb 3 (counts (source_key hit))) [
  | true ↦ diversify counts (suc room) hits
  | false ↦ hit ∷ diversify (bump (source_key hit) counts) room hits
]

abbrev hit_rank : MemoryRecord → ℕ
hit_rank hit = if hit.kind =ₖ fact then 0 else if not (hit.kind =ₖ episode) then 1 else 2

abbrev pub ranked : MemoryRecord → MemoryRecord → Bool
ranked a b = leb (hit_rank a) (hit_rank b)

-- The hits that the worker returns, from those that the store gave.
unfoldable pub recalled : Bool → String → String → List MemoryRecord → List MemoryRecord
recalled corpus_query run_id inbound_id hits =
    let others = filter (is_foreign run_id inbound_id) hits in
    if corpus_query then diversify (λ _. 0) 8 others else take 5 (sort_by ranked others)

abbrev uris : List SourceRef → Items
uris [] = nil
uris (source ∷ sources) = cons (str source.uri) (uris sources)

abbrev hit_fields : MemoryRecord → Json
hit_fields hit = obj (
    field "id" (str hit.id) (
      field "kind" (str (kind_value hit.kind))
        (field "text" (str hit.text) (field "sources" (arr (uris hit.sources)) end))))

abbrev hit_items : List MemoryRecord → Items
hit_items [] = nil
hit_items (hit ∷ hits) = cons (hit_fields hit) (hit_items hits)

unfoldable pub recall_result : Bool → String → String → List MemoryRecord → Fields
recall_result corpus_query run_id inbound_id hits =
    field "hits" (arr (hit_items (recalled corpus_query run_id inbound_id hits))) end
