-- ===== src/Memory/Ingest/Documents.antt =====
-- `ingest_document` of core/memory/store.py on the table `documents`, and its repetition.
use s13code.Prelude.{
  ℕ, ◌+◌, String, ◌≡◌, refl, ◌∙◌, ap, true, Option, none, some, List, [], ◌∷◌, ◌++◌, arith, eq_self,
  Outcome, ok, err, ◌⊎◌, inl, inr, Bool-cases,
}
use s13code.Prelude.Effects.{rolled_back}
use s13code.Memory.Types.{DocumentRow, Memory, MemoryError}
use s13code.Memory.Ingest.{
  Ingestion, IngestReport, write_version, retire_documents, ingest_over, ingest_document,
  find_active, is_active, document_id, unchanged, next_version, document_row, new_report,
  repeat_report,
}
use s13code.Memory.Ingest.Parts.{with_row, write_version_cases}

-- The three ways in which `ingest_document` ends.
pub data IngestEnd (c : Ingestion) (m : Memory) (o : Outcome MemoryError IngestReport × Memory)
    : Type 0 where
  repeated :
      (d : DocumentRow)
      → find_active (document_id c) m.documents ≡ some d
      → unchanged c d ≡ true
      → o ≡ (ok (repeat_report c d m), m)
      → IngestEnd c m o
  written :
      (f : Option DocumentRow)
      → find_active (document_id c) m.documents ≡ f
      → o.0 ≡ ok (new_report c (next_version f))
      → o.1.documents ≡ with_row c f m.documents
      → IngestEnd c m o
  refused : (e : MemoryError) → o ≡ (err e, m) → IngestEnd c m o

rolled_end :
    (c : Ingestion) (f : Option DocumentRow) (m : Memory)
    → find_active (document_id c) m.documents ≡ f
    → IngestEnd c m (rolled_back (write_version c f m) m)
rolled_end c f m found = go (write_version c f m) (write_version_cases c f m)
  where
    go :
        (o : Outcome MemoryError IngestReport × Memory)
        → ((r : IngestReport) × (o.0 ≡ ok r)
            × (r ≡ new_report c (next_version f))
            × (o.1.documents ≡ with_row c f m.documents))
          ⊎ ((e : MemoryError) × (o.0 ≡ err e))
        → IngestEnd c m (rolled_back o m)
    go (ok r, n) (inl (r', e, s, d)) = written f found (e ∙ ap ok s) d
    go (ok r, n) (inr (e, k)) = absurd (ground arith)
    go (err x, n) _ = refused x refl

pub ingest_document_cases : (c : Ingestion) (m : Memory) → IngestEnd c m (ingest_document c m)
unfolding ingest_document
ingest_document_cases c m = go (find_active (document_id c) m.documents) refl
  where
    go :
        (f : Option DocumentRow)
        → find_active (document_id c) m.documents ≡ f
        → IngestEnd c m (ingest_over c f m)
    go none e = rolled_end c none m e
    go (some d) e = elim (Bool-cases (unchanged c d)) [
      | inl u ↦ repeated d e u (rw u)
      | inr u ↦ rw u (rolled_end c (some d) m e)
    ]

find-retired :
    (doc : String) (ds : List DocumentRow) (d : DocumentRow)
    → is_active doc d ≡ true
    → find_active doc (retire_documents doc ds ++ d ∷ []) ≡ some d
find-retired doc [] d h = rw h
find-retired doc (x ∷ ds) d h = ground (arith, find-retired doc ds d h)

find-absent :
    (doc : String) (ds : List DocumentRow) (d : DocumentRow)
    → is_active doc d ≡ true
    → find_active doc ds ≡ none
    → find_active doc (ds ++ d ∷ []) ≡ some d
find-absent doc [] d h k = rw h
find-absent doc (x ∷ ds) d h k = ground (arith, find-absent doc ds d h)

find-with_row :
    (c : Ingestion) (f : Option DocumentRow) (ds : List DocumentRow)
    → find_active (document_id c) ds ≡ f
    → find_active (document_id c) (with_row c f ds) ≡ some (document_row c (next_version f))
unfolding document_row
find-with_row c none ds e =
    find-absent (document_id c) ds (document_row c 1) (rw (eq_self (document_id c))) e
find-with_row c (some d) ds e =
    find-retired (document_id c) ds (document_row c (d.version + 1)) (rw (eq_self (document_id c)))

row-unchanged : (c : Ingestion) (v : ℕ) → unchanged c (document_row c v) ≡ true
unfolding document_row
row-unchanged c v = rw (eq_self (c.sha256 c.source_text), eq_self (c.sha256 c.prepared_text))

again_lem :
    (c : Ingestion) (m : Memory) (d : DocumentRow)
    → find_active (document_id c) m.documents ≡ some d
    → unchanged c d ≡ true
    → ingest_document c m ≡ (ok (repeat_report c d m), m)
unfolding ingest_document
again_lem c m d e u = rw (e, u)

-- If an ingestion answers, then the same ingestion on the memory that it left answers that
-- nothing was new, with the same document and version, and changes nothing.
pub ingest_document-again :
    (c : Ingestion) (m : Memory) (r : IngestReport)
    → (ingest_document c m).0 ≡ ok r
    → (s : IngestReport) × (ingest_document c (ingest_document c m).1
        ≡ (ok s, (ingest_document c m).1))
      × (s.idempotent ≡ true)
      × (s.version ≡ r.version)
      × (s.doc_id ≡ r.doc_id)
unfolding repeat_report new_report document_row
ingest_document-again c m r h = go (ingest_document c m) h (ingest_document_cases c m)
  where
    go :
        (o : Outcome MemoryError IngestReport × Memory)
        → o.0 ≡ ok r
        → IngestEnd c m o
        → (s : IngestReport) × (ingest_document c o.1 ≡ (ok s, o.1))
          × (s.idempotent ≡ true)
          × (s.version ≡ r.version)
          × (s.doc_id ≡ r.doc_id)
    go o k (repeated d f u e) =
        let same : repeat_report c d m ≡ r = ground arith in
        (
          repeat_report c d m,
          rw e (again_lem c m d f u),
          refl,
          ap (λ q. q.version) same,
          ap (λ q. q.doc_id) same,
        )
    go o k (written f found e d) =
        let same : new_report c (next_version f) ≡ r = ground arith in
        let there = ap (find_active (document_id c)) d ∙ find-with_row c f m.documents found in
        (
          repeat_report c (document_row c (next_version f)) o.1,
          again_lem c o.1 (document_row c (next_version f)) there
              (row-unchanged c (next_version f)),
          refl,
          ap (λ q. q.version) same,
          ap (λ q. q.doc_id) same,
        )
    go o k (refused x e) = absurd (ground arith)
