-- ===== src/Memory/Ingest/Parts.antt =====
-- What the parts of `ingest_document` in core/memory/store.py do to the table `documents`.
use s13code.Prelude.{
  ℕ, suc, ◌+◌, ◌≡◌, refl, ◌∙◌, ap, Option, none, some, List, [], ◌∷◌, ◌++◌, arith, Outcome, ok, err,
  ◌⊎◌, inl, inr, Bool-cases, Option-cases, any, length,
}
use s13code.Prelude.Effects.{◌>>◌, and_then, return, check, update, Keeps, bind-Keeps}
use s13code.Memory.Types.{MemoryRecord, DocumentRow, Memory, MemoryError, primary_key}
use s13code.Memory.Store.{
  write_allowed, write_row, insert_record, mark_superseded, check_superseded, superseding,
}
use s13code.Memory.Ingest.{
  Ingestion, Chunk, IngestReport, write_chunks, close_version, fill_version, write_version,
  retire_active, retire, retire_documents, insert_document, is_version, document_id, chunk_record,
  index_audit, next_version, document_row, new_report,
}

-- A part that leaves the table alone.
abbrev At : List DocumentRow → Memory → Type 0
At ds m = m.documents ≡ ds

insert_record-At : (r : MemoryRecord) (ds : List DocumentRow) → Keeps (At ds) (insert_record r)
unfolding insert_record
insert_record-At r ds m a = ground (arith, a)

mark_superseded-At :
    (r : MemoryRecord) (ds : List DocumentRow) (m : Memory) → At ds m → At ds (mark_superseded r m)
unfolding mark_superseded
mark_superseded-At r ds m a = elim (Option-cases (superseding r)) [
  | inl e ↦ rw (mark_superseded, e) a
  | inr (old, e) ↦ rw (mark_superseded, e) a
]

check-At :
    (o : Outcome MemoryError Unit) (ds : List DocumentRow) (m : Memory)
    → At ds m
    → At ds (check o m).1
check-At (ok _) ds m a = a
check-At (err e) ds m a = a

pub write_row-At : (r : MemoryRecord) (ds : List DocumentRow) → Keeps (At ds) (write_row r)
unfolding write_row
write_row-At r ds =
    bind-Keeps (At ds) (check (write_allowed r))
      (λ _.
        (λ m. check (check_superseded r m) m) >> (insert_record r >> update (mark_superseded r)))
      (check-At (write_allowed r) ds)
      (λ _.
        bind-Keeps (At ds) (λ m. check (check_superseded r m) m)
          (λ _. insert_record r >> update (mark_superseded r))
          (λ m a. check-At (check_superseded r m) ds m a)
          (λ _.
            bind-Keeps (At ds) (insert_record r) (λ _. update (mark_superseded r))
              (insert_record-At r ds) (λ _ m a. mark_superseded-At r ds m a)))

write_chunks-At :
    (c : Ingestion) (v at : ℕ) (ks : List Chunk) (ds : List DocumentRow)
    → Keeps (At ds) (write_chunks c v at ks)
unfolding write_chunks
write_chunks-At c v at [] ds m a = a
write_chunks-At c v at (k ∷ ks) ds m a =
    bind-Keeps (At ds) (write_row (chunk_record c v (c.stamp at) k))
      (λ _. write_chunks c v (suc at) ks) (write_row-At (chunk_record c v (c.stamp at) k) ds)
      (λ _. write_chunks-At c v (suc at) ks ds) m a

fill_version-At : (c : Ingestion) (v : ℕ) (ds : List DocumentRow) → Keeps (At ds) (fill_version c v)
unfolding fill_version close_version
fill_version-At c v ds =
    bind-Keeps (At ds) (write_chunks c v 1 c.chunks) (λ _. close_version c v)
      (write_chunks-At c v 1 c.chunks ds)
      (λ _.
        bind-Keeps (At ds) (write_row (index_audit c v (c.stamp (suc (length c.chunks)))))
          (λ _. return (new_report c v))
          (write_row-At (index_audit c v (c.stamp (suc (length c.chunks)))) ds) (λ _ m a. a))

-- What the answer of the last part is, when it answers.
fill_version-answer :
    (c : Ingestion) (v : ℕ) (m : Memory) (r : IngestReport)
    → (fill_version c v m).0 ≡ ok r
    → r ≡ new_report c v
unfolding fill_version close_version
fill_version-answer c v m r = outer (write_chunks c v 1 c.chunks m)
  where
    inner :
        (o : Outcome MemoryError Unit × Memory)
        → (and_then o (λ _. return (new_report c v))).0 ≡ ok r
        → r ≡ new_report c v
    inner (ok _, n) h = ground arith
    inner (err e, n) h = absurd (ground arith)

    outer :
        (o : Outcome MemoryError Unit × Memory)
        → (and_then o (λ _. close_version c v)).0 ≡ ok r
        → r ≡ new_report c v
    outer (ok _, n) = inner (write_row (index_audit c v (c.stamp (suc (length c.chunks)))) n)
    outer (err e, n) = λ h. absurd (ground arith)

abbrev pub with_row : Ingestion → Option DocumentRow → List DocumentRow → List DocumentRow
with_row c none ds = ds ++ document_row c 1 ∷ []
with_row c (some d) ds = retire_documents (document_id c) ds ++ document_row c (d.version + 1) ∷ []

retired-documents :
    (c : Ingestion) (o : Option DocumentRow) (m : Memory)
    → (retire_active (document_id c) o m).documents ++ document_row c (next_version o) ∷ []
      ≡ with_row c o m.documents
unfolding retire
retired-documents c none m = refl
retired-documents c (some d) m = refl

-- Either it answers with the new version and has written its row, or it raised.
pub write_version_cases :
    (c : Ingestion) (o : Option DocumentRow) (m : Memory)
    → ((r : IngestReport) × ((write_version c o m).0 ≡ ok r)
        × (r ≡ new_report c (next_version o))
        × ((write_version c o m).1.documents ≡ with_row c o m.documents))
      ⊎ ((e : MemoryError) × ((write_version c o m).0 ≡ err e))
unfolding write_version insert_document document_row fill_version
write_version_cases c o m =
    elim (Bool-cases (
      any (is_version (document_id c) (next_version o))
        (retire_active (document_id c) o m).documents)) [
          | inl e ↦ inr (primary_key, rw e)
          | inr e ↦ rw e (go _ refl)
        ]
  where
    row : DocumentRow
    row = document_row c (next_version o)

    base : Memory
    base = record (retire_active (document_id c) o m) {
      documents = (retire_active (document_id c) o m).documents ++ row ∷ [];
    }

    go :
        (q : Outcome MemoryError IngestReport × Memory)
        → fill_version c (next_version o) base ≡ q
        → ((r : IngestReport) × ((fill_version c (next_version o) base).0 ≡ ok r)
            × (r ≡ new_report c (next_version o))
            × ((fill_version c (next_version o) base).1.documents ≡ with_row c o m.documents))
          ⊎ ((e : MemoryError) × ((fill_version c (next_version o) base).0 ≡ err e))
    go (ok r, n) k = inl (
      r,
      ap (λ q. q.0) k,
      fill_version-answer c (next_version o) base r (ap (λ q. q.0) k),
      fill_version-At c (next_version o) base.documents base refl ∙ retired-documents c o m,
    )
    go (err e, n) k = inr (e, ap (λ q. q.0) k)
