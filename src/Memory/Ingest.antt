-- ===== src/Memory/Ingest.antt =====
-- `MemoryStore.ingest_document` of core/memory/store.py: a new version of a source replaces the last.
pub mod Parts
pub mod Documents
use Prim.Native.String.{slice}
use s13code.Prelude.{
  ℕ, zero, suc, ◌+◌, String, Bool, true, false, not, ◌&&◌, ◌==◌, Option, none, some, List, [], ◌∷◌,
  ◌++◌, map, Outcome, ok, err, if◌then◌else◌, any, filter, sort_by, leb, eqb, length, text_append,
  decimal,
}
use s13code.Prelude.Effects.{◌>>=◌, ◌>>◌, return, update, rolled_back}
use s13code.Json.{Json, Fields, null, num, str, obj, field, end, get_or}
use s13code.Memory.Types.{
  MemoryKind, audit, document_chunk, ◌=ₖ◌, MemoryScope, MemoryRecord, DocumentRow, Memory,
  MemoryError, current, superseded, primary_key,
}
use s13code.Memory.Store.{Stamp, write_row, set_superseded}

-- The fields of a `DocumentChunk` that the store reads.
pub record Chunk : Type 0 where
  pub text : String
  pub heading : Option String
  pub ordinal : ℕ
  pub previous_ordinal : Option ℕ
  pub next_ordinal : Option ℕ
  pub segmentation : Fields
  pub source_start_char : ℕ
  pub source_end_char : ℕ
  pub source_start_word : ℕ
  pub source_end_word : ℕ

-- A call of `ingest_document`. `sha256` stands for the hash of hashlib, as hexadecimal digits, and
-- `stamp` gives the identifier and the time of each new record, by its place.
pub record Ingestion : Type 0 where
  pub source_text : String
  pub prepared_text : String
  pub chunks : List Chunk
  pub source_uri : String
  pub scope : MemoryScope
  pub source_author : String
  pub preprocessing : String
  pub sha256 : String → String
  pub stamp : ℕ → Stamp

abbrev or_empty : Option String → String
or_empty none = ""
or_empty (some s) = s

abbrev then_field : String → String → String
then_field s t = text_append s (text_append "\u{1f}" t)

-- `_document_id`
unfoldable pub document_id : Ingestion → String
document_id c = text_append "doc_" (
    slice
      (c.sha256 (
        then_field c.scope.tenant_id (
          then_field (or_empty c.scope.project_id) (
            then_field (or_empty c.scope.user_id) (
              then_field (or_empty c.scope.agent_id)
                (then_field (or_empty c.scope.run_id) c.source_uri))))))
      0 24)

abbrev pub is_active : String → DocumentRow → Bool
is_active doc d = d.document_id == doc && d.active

-- `SELECT * FROM documents WHERE document_id=? AND state='active'`
abbrev pub find_active : String → List DocumentRow → Option DocumentRow
find_active doc [] = none
find_active doc (d ∷ ds) = if is_active doc d then some d else find_active doc ds

abbrev pub json_is : String → Json → Bool
json_is s (str t) = s == t
json_is s _ = false

abbrev pub of_document : String → MemoryRecord → Bool
of_document doc r = json_is doc (get_or "document_id" null r.metadata)

-- `UPDATE documents SET state='superseded' WHERE document_id=? AND state='active'`
abbrev pub retire_documents : String → List DocumentRow → List DocumentRow
retire_documents doc [] = []
retire_documents doc (d ∷ ds) =
    (if is_active doc d then record d { active = false } else d) ∷ retire_documents doc ds

unfoldable pub retire : String → Memory → Memory
retire doc m = record m {
  documents = retire_documents doc m.documents;
  records = set_superseded (λ r. r.status == current && of_document doc r) m.records;
}

abbrev pub is_version : String → ℕ → DocumentRow → Bool
is_version doc v d = d.document_id == doc && eqb d.version v

unfoldable pub insert_document : DocumentRow → Memory → Outcome MemoryError Unit × Memory
insert_document d m =
    if any (is_version d.document_id d.version) m.documents
    then (err primary_key, m)
    else (ok tt, record m { documents = m.documents ++ d ∷ [] })

abbrev number : Option ℕ → Json
number none = null
number (some n) = num n

abbrev text_or_null : Option String → Json
text_or_null none = null
text_or_null (some t) = str t

abbrev pub chunk_metadata : Ingestion → ℕ → Chunk → Fields
chunk_metadata c v k = field "document_id" (str (document_id c)) (
    field "document_version" (num v) (
      field "heading" (text_or_null k.heading) (
        field "ordinal" (num k.ordinal) (
          field "previous" (number k.previous_ordinal) (
            field "next" (number k.next_ordinal) (
              field "segmentation" (obj k.segmentation) (
                field "preprocessing" (str c.preprocessing) (
                  field "source_sha256" (str (c.sha256 c.source_text)) (
                    field "prepared_sha256" (str (c.sha256 c.prepared_text)) (
                      field "source_start_char" (num k.source_start_char) (
                        field "source_end_char" (num k.source_end_char) (
                          field "source_start_word" (num k.source_start_word)
                            (field "source_end_word" (num k.source_end_word) end)))))))))))))

abbrev pub chunk_record : Ingestion → ℕ → Stamp → Chunk → MemoryRecord
chunk_record c v stamp k = record {
  id = stamp.id;
  kind = document_chunk;
  scope = c.scope;
  text = k.text;
  sources =
      record {
        uri = c.source_uri;
        author = c.source_author;
        captured_at = stamp.now;
        excerpt = some k.text;
      }
      ∷ [];
  principal = record { id = "gateway"; role = "gateway" };
  metadata = chunk_metadata c v k;
  valid_from = stamp.now;
  valid_to = none;
  confidence = none;
  created_at = stamp.now;
  status = current;
  supersedes_id = none;
}

-- `for chunk in chunks`; `at` is the place of the first one.
unfoldable pub write_chunks :
    Ingestion → ℕ → ℕ → List Chunk → Memory → Outcome MemoryError Unit × Memory
write_chunks c v at [] = return tt
write_chunks c v at (k ∷ ks) =
    write_row (chunk_record c v (c.stamp at) k) >> write_chunks c v (suc at) ks

-- The audit record of a new version.
unfoldable pub index_audit : Ingestion → ℕ → Stamp → MemoryRecord
index_audit c v stamp = record {
  id = stamp.id;
  kind = audit;
  scope = c.scope;
  text = text_append "index document " (text_append (document_id c) (text_append " v" (decimal v)));
  sources = [];
  principal = record { id = "memory-gateway"; role = "gateway" };
  metadata = field "document_id" (str (document_id c)) (
      field "version" (num v) (
        field "chunks" (num (length c.chunks))
          (field "source_sha256" (str (c.sha256 c.source_text)) end)));
  valid_from = stamp.now;
  valid_to = none;
  confidence = none;
  created_at = stamp.now;
  status = current;
  supersedes_id = none;
}

pub record IngestReport : Type 0 where
  pub doc_id : String
  pub version : ℕ
  pub idempotent : Bool
  pub record_ids : List String
  pub source_sha256 : String
  pub prepared_sha256 : String

abbrev ordinal_le : MemoryRecord → MemoryRecord → Bool
ordinal_le a b = ordinal (get_or "ordinal" null a.metadata) (get_or "ordinal" null b.metadata)
  where
    ordinal : Json → Json → Bool
    ordinal (num n) (num k) = leb n k
    ordinal _ _ = true

abbrev is_chunk : String → MemoryRecord → Bool
is_chunk doc r = r.status == current && r.kind =ₖ document_chunk && of_document doc r

-- The content is what the active version has: nothing is written.
unfoldable pub repeat_report : Ingestion → DocumentRow → Memory → IngestReport
repeat_report c d m = record {
  doc_id = document_id c;
  version = d.version;
  idempotent = true;
  record_ids =
      map (λ (r : MemoryRecord). r.id)
        (sort_by ordinal_le (filter (is_chunk (document_id c)) m.records));
  source_sha256 = c.sha256 c.source_text;
  prepared_sha256 = c.sha256 c.prepared_text;
}

abbrev chunk_ids : Ingestion → ℕ → List Chunk → List String
chunk_ids c at [] = []
chunk_ids c at (k ∷ ks) = (c.stamp at).id ∷ chunk_ids c (suc at) ks

unfoldable pub new_report : Ingestion → ℕ → IngestReport
new_report c v = record {
  doc_id = document_id c;
  version = v;
  idempotent = false;
  record_ids = chunk_ids c 1 c.chunks;
  source_sha256 = c.sha256 c.source_text;
  prepared_sha256 = c.sha256 c.prepared_text;
}

unfoldable pub document_row : Ingestion → ℕ → DocumentRow
document_row c v = record {
  document_id = document_id c;
  version = v;
  active = true;
  scope = c.scope;
  source_uri = c.source_uri;
  source_sha256 = c.sha256 c.source_text;
  prepared_sha256 = c.sha256 c.prepared_text;
  preprocessing = c.preprocessing;
  created_at = (c.stamp 0).now;
}

abbrev pub next_version : Option DocumentRow → ℕ
next_version none = 1
next_version (some d) = d.version + 1

abbrev pub retire_active : String → Option DocumentRow → Memory → Memory
retire_active doc none m = m
retire_active doc (some _) m = retire doc m

-- The audit record, and the end of the transaction.
unfoldable pub close_version : Ingestion → ℕ → Memory → Outcome MemoryError IngestReport × Memory
close_version c v = do
  write_row (index_audit c v (c.stamp (suc (length c.chunks))))
  return (new_report c v)

unfoldable pub fill_version : Ingestion → ℕ → Memory → Outcome MemoryError IngestReport × Memory
fill_version c v = do write_chunks c v 1 c.chunks; close_version c v

-- The transaction of a new version.
unfoldable pub write_version :
    Ingestion → Option DocumentRow → Memory → Outcome MemoryError IngestReport × Memory
write_version c found = do
  update (retire_active (document_id c) found)
  insert_document (document_row c (next_version found))
  fill_version c (next_version found)

abbrev pub unchanged : Ingestion → DocumentRow → Bool
unchanged c d =
    d.source_sha256 == c.sha256 c.source_text && d.prepared_sha256 == c.sha256 c.prepared_text

abbrev pub ingest_over :
    Ingestion → Option DocumentRow → Memory → Outcome MemoryError IngestReport × Memory
ingest_over c none m = rolled_back (write_version c none m) m
ingest_over c (some d) m =
    if unchanged c d
    then (ok (repeat_report c d m), m)
    else rolled_back (write_version c (some d) m) m

unfoldable pub ingest_document : Ingestion → Memory → Outcome MemoryError IngestReport × Memory
ingest_document c m = ingest_over c (find_active (document_id c) m.documents) m
