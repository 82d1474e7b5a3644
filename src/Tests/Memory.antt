-- ===== src/Tests/Memory.antt =====
-- The memory at concrete inputs: a document of two chunks in one project.
use mathlib.Core.List.Memᴰ
use s13code.Prelude.{
  length, ℕ, ◌+◌, ◌-◌, Bool, ◌&&◌, ◌==◌, Option, leb, eqb, String, ◌≡◌, refl, true, false, ◌⊎◌, inl,
  inr, none, some, List, [], ◌∷◌, ok, ensure, Memᴰ, decimal,
}
use s13code.Prelude.Members.{Memᴰ_cons}
use s13code.Json.{Json, str, num, end, get_or}
use s13code.Memory.Types.{
  fact, working, audit, policy, MemoryScope, MemoryRecord, Memory, no_memory, current,
}
use s13code.Memory.Store
use s13code.Memory.Store.{
  Stamp, write_allowed, write_row, insert_record, mark_superseded, check_superseded, audit_record,
}
use s13code.Memory.Recall.{
  Request, scope_admits, is_authorized, selected, is_neighbour, neighbours_of, add_unseen,
  add_neighbours, expand, recall,
}
use s13code.Memory.Recall.Authorized.{Covers, recall-no_leak}
use s13code.Memory.Ingest.{
  Chunk, Ingestion, IngestReport, document_id, chunk_record, insert_document, write_chunks,
  index_audit, retire, close_version, fill_version, write_version, new_report, document_row,
  ingest_document,
}
use s13code.Memory.Ingest.Documents.{ingest_document-again}
use s13code.Memory.Calls.{Call, write, steps, step}
use s13code.Memory.Calls
use s13code.Memory.Calls.Authority.{steps-Trusted}
use s13code.Memory.Calls.Versions.{rows_of, Numbered, steps-Numbered}

abbrev team : MemoryScope
team = record {
  tenant_id = "t";
  project_id = some "p";
  user_id = none;
  agent_id = none;
  run_id = none;
}

abbrev piece : ℕ → String → Chunk
piece n body = record {
  text = body;
  heading = none;
  ordinal = n;
  previous_ordinal = none;
  next_ordinal = none;
  segmentation = end;
  source_start_char = 0;
  source_end_char = 1;
  source_start_word = 0;
  source_end_word = 1;
}

abbrev paper : Ingestion
paper = record {
  source_text = "one two";
  prepared_text = "one two";
  chunks = piece 0 "one" ∷ piece 1 "two" ∷ [];
  source_uri = "file:a";
  scope = team;
  source_author = "author";
  preprocessing = "plain";
  sha256 = λ s. s;
  stamp = λ n. record { id = decimal n; now = "2026" };
}

-- The chunks as the first ingestion writes them.
abbrev chunk_one : MemoryRecord
chunk_one = chunk_record paper 1 (record { id = "1"; now = "2026" }) (piece 0 "one")

abbrev chunk_two : MemoryRecord
chunk_two = chunk_record paper 1 (record { id = "2"; now = "2026" }) (piece 1 "two")

abbrev shelf : Memory
shelf = record { records = chunk_one ∷ chunk_two ∷ []; records_fts = []; documents = [] }

-- On texts and natural numbers, the ones that the chunks carry.
abbrev equal_json : Json → Json → Bool
equal_json (str s) (str t) = s == t
equal_json (num a) (num b) = eqb a b
equal_json _ _ = false

abbrev near_to : ℕ → Json → Option (Json → Bool)
near_to around (num n) =
    some λ v. elim v as (λ _. Bool) [ num k ↦ leb (n - around) k && leb k (n + around) | _ ↦ false ]
near_to around _ = none

abbrev in_order : Json → Json → Bool
in_order (num a) (num b) = leb a b
in_order _ _ = true

abbrev question : Request
question = record {
  scope = record {
    tenant_id = "t";
    project_id = some "p";
    user_id = some "u";
    agent_id = none;
    run_id = none;
  };
  kinds = [];
  limit = 1;
  include_history = false;
  expand_neighbors = 1;
  now = "2027";
  order = λ a b. true;
  compare = record { between = near_to; equal = λ p. some (equal_json p); before = in_order };
}

shelf-scope : (r : MemoryRecord) → Memᴰ r shelf.records → r.scope ≡ team
shelf-scope r m = elim ((Memᴰ_cons r chunk_one (chunk_two ∷ [])).0 m) [
  | inl e ↦ rw e
  | inr k ↦ elim ((Memᴰ_cons r chunk_two []).0 k) [ inl e ↦ rw e | inr j ↦ absurd (Memᴰ.not-nil j) ]
]

answered : recall question shelf ≡ some (chunk_one ∷ chunk_two ∷ [])
unfolding recall expand add_neighbours neighbours_of add_unseen is_neighbour selected is_authorized
    scope_admits document_id get_or
answered = refl

recall-no_leak_example : Memᴰ chunk_two shelf.records × Covers team question.scope
recall-no_leak_example =
    recall-no_leak question shelf (chunk_one ∷ chunk_two ∷ []) chunk_two
      (λ s t ms mt _. rw (shelf-scope s ms, shelf-scope t mt)) answered (Memᴰ.tail (Memᴰ.head refl))

abbrev note : MemoryRecord
note = record {
  id = "n";
  kind = fact;
  scope = team;
  text = "a fact";
  sources = record { uri = "u"; author = "a"; captured_at = "2026"; excerpt = none } ∷ [];
  principal = record { id = "agent-1"; role = "agent" };
  metadata = end;
  valid_from = "2026";
  valid_to = none;
  confidence = none;
  created_at = "2026";
  status = current;
  supersedes_id = none;
}

abbrev noted : List Call
noted = write (record { id = "a"; now = "2026" }) true note ∷ []

noted-there : Memᴰ note (steps no_memory noted).records
unfolding steps step Store.write write_row write_allowed ensure check_superseded insert_record
    mark_superseded audit_record
noted-there = Memᴰ.head refl

steps-Trusted_example :
    (note.sources ≡ [] → (fact ≡ working) ⊎ (fact ≡ audit))
    × (fact ≡ policy → (◌≡◌ {A = String} "agent" "operator") ⊎ (◌≡◌ {A = String} "agent" "system"))
    × (fact ≡ audit → ◌≡◌ {A = String} "agent" "gateway")
steps-Trusted_example = steps-Trusted noted note noted-there

abbrev twice : List Call
twice =
    Calls.ingest_document paper
    ∷ Calls.ingest_document (record paper {
      source_text = "changed";
      stamp = λ n. record { id = decimal (n + 10); now = "2027" };
    })
    ∷ []

-- Both versions are stored.
twice-rows : length (rows_of (document_id paper) (steps no_memory twice).documents) ≡ 2
unfolding steps step ingest_document write_version fill_version close_version write_chunks
    insert_document write_row write_allowed ensure check_superseded insert_record mark_superseded
    index_audit document_id document_row decimal retire get_or
twice-rows = refl

steps-Numbered_example :
    (n : ℕ) × Numbered 0 (rows_of (document_id paper) (steps no_memory twice).documents) n
steps-Numbered_example = steps-Numbered twice (document_id paper)

ingested : (ingest_document paper no_memory).0 ≡ ok (new_report paper 1)
unfolding ingest_document write_version fill_version close_version write_chunks insert_document
    write_row write_allowed ensure check_superseded insert_record mark_superseded index_audit
    document_id document_row decimal
ingested = refl

ingest_document-again_example :
    (s : IngestReport) × (ingest_document paper (ingest_document paper no_memory).1
      ≡ (ok s, (ingest_document paper no_memory).1))
    × (s.idempotent ≡ true)
    × (s.version ≡ (new_report paper 1).version)
    × (s.doc_id ≡ (new_report paper 1).doc_id)
ingest_document-again_example = ingest_document-again paper no_memory (new_report paper 1) ingested
