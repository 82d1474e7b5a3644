-- ===== src/Memory/Calls/Versions.antt =====
-- The versions of a document of core/memory/store.py, over a history of calls.
use s13code.Prelude.{
  ℕ, suc, ◌+◌, String, ◌≡◌, refl, sym, ◌∙◌, ap, Bool, true, false, not, ◌&&◌, ◌==◌, Option, none,
  some, List, [], ◌∷◌, ◌++◌, arith, eq_iff, eq_self, if◌then◌else◌, Outcome, inl, inr, Bool-cases,
  filter,
}
use s13code.Prelude.Effects.{bind-Keeps, return}
use s13code.Memory.Types.{audit, ◌=ₖ◌, MemoryRecord, DocumentRow, Memory, MemoryError, no_memory}
use s13code.Memory.Store
use s13code.Memory.Store.{Stamp, is_empty, write_row, audit_record}
use s13code.Memory.Ingest
use s13code.Memory.Ingest.{
  Ingestion, IngestReport, retire_documents, find_active, is_active, document_id, document_row,
  next_version,
}
use s13code.Memory.Ingest.Parts.{write_row-At, with_row}
use s13code.Memory.Ingest.Documents.{IngestEnd, repeated, written, refused, ingest_document_cases}
use s13code.Memory.Calls.{Call, write, ingest_document, step, steps}

-- The rows of one document, in the order in which they were written.
abbrev pub rows_of : String → List DocumentRow → List DocumentRow
rows_of doc ds = filter (λ d. d.document_id == doc) ds

-- Versions follow `v` up to `n`, and the last row alone is active.
abbrev pub Numbered : ℕ → List DocumentRow → ℕ → Type 0
Numbered v [] n = n ≡ v
Numbered v (d ∷ ds) n = (d.version ≡ suc v) × (d.active ≡ is_empty ds) × Numbered (suc v) ds n

-- The same, with no row active.
abbrev Retired : ℕ → List DocumentRow → ℕ → Type 0
Retired v [] n = n ≡ v
Retired v (d ∷ ds) n = (d.version ≡ suc v) × (d.active ≡ false) × Retired (suc v) ds n

abbrev quiet : List DocumentRow → List DocumentRow
quiet [] = []
quiet (d ∷ ds) = (if d.active then record d { active = false } else d) ∷ quiet ds

abbrev first_active : List DocumentRow → Option DocumentRow
first_active [] = none
first_active (d ∷ ds) = if d.active then some d else first_active ds

find_rows :
    (doc : String) (ds : List DocumentRow) → find_active doc ds ≡ first_active (rows_of doc ds)
find_rows doc [] = refl
find_rows doc (d ∷ ds) = ground (arith, find_rows doc ds)

rows-append :
    (doc : String) (ds es : List DocumentRow)
    → rows_of doc (ds ++ es) ≡ rows_of doc ds ++ rows_of doc es
rows-append doc [] es = refl
rows-append doc (d ∷ ds) es = elim (Bool-cases (d.document_id == doc)) [
  | inl e ↦ rw (e, rows-append doc ds es)
  | inr e ↦ rw (e, rows-append doc ds es)
]

rows-retired :
    (doc : String) (ds : List DocumentRow)
    → rows_of doc (retire_documents doc ds) ≡ quiet (rows_of doc ds)
rows-retired doc [] = refl
rows-retired doc (d ∷ ds) = elim (Bool-cases (d.document_id == doc)) [
  | inl e ↦ elim (Bool-cases d.active) [
    | inl a ↦ rw (e, a) (rw (e, rows-retired doc ds))
    | inr a ↦ rw (e, a) (rw (e, rows-retired doc ds))
  ]
  | inr e ↦ rw e (rw (e, rows-retired doc ds))
]

rows-other :
    (doc other : String) (ds : List DocumentRow)
    → (doc == other) ≡ false
    → rows_of other (retire_documents doc ds) ≡ rows_of other ds
rows-other doc other [] ne = refl
rows-other doc other (d ∷ ds) ne = elim (Bool-cases (d.document_id == doc)) [
  | inl e ↦
      let away : (d.document_id == other) ≡ false =
        ground (arith, eq_iff d.document_id doc, eq_iff d.document_id other, eq_iff doc other) in
      elim (Bool-cases d.active) [
        | inl a ↦ rw (e, a) (rw (away, rows-other doc other ds ne))
        | inr a ↦ rw (e, a) (rw (away, rows-other doc other ds ne))
      ]
  | inr e ↦ elim (Bool-cases (d.document_id == other)) [
    | inl k ↦ rw e (rw (k, rows-other doc other ds ne))
    | inr k ↦ rw e (rw (k, rows-other doc other ds ne))
  ]
]

quiet-Retired : (v n : ℕ) (ds : List DocumentRow) → Numbered v ds n → Retired v (quiet ds) n
quiet-Retired v n [] h = h
quiet-Retired v n (d ∷ ds) (a, b, c) = elim (Bool-cases d.active) [
  | inl e ↦ rw e (a, refl, quiet-Retired (suc v) n ds c)
  | inr e ↦ rw e (a, refl, quiet-Retired (suc v) n ds c)
]

Retired-row :
    (v n : ℕ) (ds : List DocumentRow) (d : DocumentRow)
    → Retired v ds n
    → d.version ≡ suc n
    → d.active ≡ true
    → Numbered v (ds ++ d ∷ []) (suc n)
Retired-row v n [] d h s a = (rw (← h) s, a, ap suc h)
Retired-row v n (x ∷ ds) d (p, q, r) s a = (p, rw q (filled ds), Retired-row (suc v) n ds d r s a)
  where
    filled : (es : List DocumentRow) → false ≡ is_empty (es ++ d ∷ [])
    filled [] = refl
    filled (_ ∷ _) = refl

last_active :
    (v n : ℕ) (ds : List DocumentRow) (d : DocumentRow)
    → Numbered v ds n
    → first_active ds ≡ some d
    → d.version ≡ n
last_active v n [] d h e = absurd (ground arith)
last_active v n (x ∷ []) d (a, b, c) e = let same : x ≡ d = ground arith in rw (← same) (a ∙ sym c)
last_active v n (x ∷ y ∷ ds) d (a, b, c) e = last_active (suc v) n (y ∷ ds) d c (ground arith)

none_active : (v n : ℕ) (ds : List DocumentRow) → Numbered v ds n → first_active ds ≡ none → ds ≡ []
none_active v n [] h e = refl
none_active v n (x ∷ []) (a, b, c) e = absurd (ground arith)
none_active v n (x ∷ y ∷ ds) (a, b, c) e =
    absurd (let k = none_active (suc v) n (y ∷ ds) c (ground arith) in ground arith)

abbrev pub AllNumbered : List DocumentRow → Type 0
AllNumbered ds = (doc : String) → (n : ℕ) × Numbered 0 (rows_of doc ds) n

own-Numbered :
    (c : Ingestion) (f : Option DocumentRow) (ds : List DocumentRow)
    → find_active (document_id c) ds ≡ f
    → (n : ℕ) × Numbered 0 (rows_of (document_id c) ds) n
    → (n : ℕ) × Numbered 0 (rows_of (document_id c) (with_row c f ds)) n
unfolding document_row
own-Numbered c none ds e (n, h) = (
  1,
  rw
      (
        rows-append (document_id c) ds (document_row c 1 ∷ []),
        none_active 0 n (rows_of (document_id c) ds) h (sym (find_rows (document_id c) ds) ∙ e),
        eq_self (document_id c),
      )
      (refl, refl, refl),
)
own-Numbered c (some d) ds e (n, h) =
    let last =
      last_active 0 n (rows_of (document_id c) ds) d h (sym (find_rows (document_id c) ds) ∙ e) in
    (
      suc n,
      rw
          (
            rows-append (document_id c) (retire_documents (document_id c) ds)
                (document_row c (d.version + 1) ∷ []),
            rows-retired (document_id c) ds,
            eq_self (document_id c),
          )
          (Retired-row 0 n (quiet (rows_of (document_id c) ds)) (document_row c (d.version + 1))
            (quiet-Retired 0 n (rows_of (document_id c) ds) h) (omega (arith, last)) refl),
    )

other-rows :
    (c : Ingestion) (f : Option DocumentRow) (ds : List DocumentRow) (doc : String)
    → (document_id c == doc) ≡ false
    → rows_of doc (with_row c f ds) ≡ rows_of doc ds
unfolding document_row
other-rows c none ds doc ne =
    rows-append doc ds (document_row c 1 ∷ []) ∙ rw ne (append_none (rows_of doc ds))
  where
    append_none : (es : List DocumentRow) → es ++ [] ≡ es
    append_none [] = refl
    append_none (x ∷ es) = rw (append_none es)
other-rows c (some d) ds doc ne =
    rows-append doc (retire_documents (document_id c) ds) (document_row c (d.version + 1) ∷ [])
    ∙ rw (ne, rows-other (document_id c) doc ds ne) (append_none (rows_of doc ds))
  where
    append_none : (es : List DocumentRow) → es ++ [] ≡ es
    append_none [] = refl
    append_none (x ∷ es) = rw (append_none es)

with_row-Numbered :
    (c : Ingestion) (f : Option DocumentRow) (ds : List DocumentRow)
    → find_active (document_id c) ds ≡ f
    → AllNumbered ds
    → AllNumbered (with_row c f ds)
with_row-Numbered c f ds e a doc = elim (Bool-cases (document_id c == doc)) [
  | inl k ↦ rw (← ((eq_iff (document_id c) doc).0 k)) (own-Numbered c f ds e (a (document_id c)))
  | inr k ↦ rw (other-rows c f ds doc k) (a doc)
]

optional_row :
    (b : Bool) (r : MemoryRecord) (m : Memory)
    → ((if b then write_row r else return tt) m).1.documents ≡ m.documents
optional_row true r m = write_row-At r m.documents m refl
optional_row false r m = refl

write-documents :
    (stamp : Stamp) (b : Bool) (r : MemoryRecord) (m : Memory)
    → (Store.write stamp b r m).1.documents ≡ m.documents
unfolding Store.write
write-documents stamp b r m =
    bind-Keeps (λ (q : Memory). q.documents ≡ m.documents) (write_row r)
      (λ _. if b && not (r.kind =ₖ audit) then write_row (audit_record stamp r) else return tt)
      (λ q h. write_row-At r m.documents q h)
      (λ _ q h. optional_row (b && not (r.kind =ₖ audit)) (audit_record stamp r) q ∙ h) m refl

step-Numbered : (m : Memory) (c : Call) → AllNumbered m.documents → AllNumbered (step m c).documents
unfolding step
step-Numbered m (write stamp b r) a = rw (write-documents stamp b r m) a
step-Numbered m (ingest_document c) a = go (Ingest.ingest_document c m) (ingest_document_cases c m)
  where
    go :
        (o : Outcome MemoryError IngestReport × Memory)
        → IngestEnd c m o
        → AllNumbered o.1.documents
    go o (repeated d f u e) = rw e a
    go o (written f found e d) = rw d (with_row-Numbered c f m.documents found a)
    go o (refused x e) = rw e a

numbered_steps :
    (cs : List Call) (m : Memory) → AllNumbered m.documents → AllNumbered (steps m cs).documents
unfolding steps
numbered_steps [] m a = a
numbered_steps (c ∷ cs) m a = numbered_steps cs (step m c) (step-Numbered m c a)

-- From the empty memory, after any writes and ingestions, whatever their outcomes, the rows of
-- each document have the versions 1, 2 and so on in the order in which they were written, and the
-- last one alone is active.
pub steps-Numbered :
    (cs : List Call) (doc : String)
    → (n : ℕ) × Numbered 0 (rows_of doc (steps no_memory cs).documents) n
steps-Numbered cs = numbered_steps cs no_memory (λ doc. (0, refl))
