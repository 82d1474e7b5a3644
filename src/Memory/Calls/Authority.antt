-- ===== src/Memory/Calls/Authority.antt =====
-- Who wrote the records of core/memory/store.py, over a history of calls.
use mathlib.Core.List.Memᴰ
use s13code.Prelude.{
  ℕ, suc, String, ◌≡◌, refl, Bool, true, false, not, ◌&&◌, ◌||◌, ◌==◌, Option, none, some, List, [],
  ◌∷◌, ◌++◌, arith, eq_iff, if◌then◌else◌, Outcome, ok, err, ensure, ◌⊎◌, inl, inr, Bool-cases,
  Option-cases, Memᴰ, any, length,
}
use s13code.Prelude.Members.{Memᴰ_cons}
use s13code.Prelude.Effects.{
  ◌>>◌, and_then, return, check, update, Keeps, bind-Keeps, rolled_back-Keeps,
}
use s13code.Memory.Types.{
  MemoryKind, working, policy, audit, ◌=ₖ◌, MemoryRecord, DocumentRow, Memory, MemoryError,
  no_memory, superseded, current,
}
use s13code.Memory.Store
use s13code.Memory.Store.{
  Stamp, is_record, is_empty, write_allowed, write_row, insert_record, mark_superseded,
  check_superseded, set_superseded, superseding, audit_record,
}
use s13code.Memory.Ingest
use s13code.Memory.Ingest.{
  Ingestion, Chunk, write_chunks, write_version, retire_active, retire, insert_document,
  ingest_over, find_active, document_id, unchanged, chunk_record, index_audit, next_version,
  document_row, of_document, close_version, fill_version, new_report,
}
use s13code.Memory.Calls.{Call, write, ingest_document, step, steps}

-- Who may have written a record, and with what sources.
pub record Trusted (r : MemoryRecord) : Type 0 where
  pub sourced : r.sources ≡ [] → (r.kind ≡ working) ⊎ (r.kind ≡ audit)
  pub policies : r.kind ≡ policy → (r.principal.role ≡ "operator") ⊎ (r.principal.role ≡ "system")
  pub audits : r.kind ≡ audit → r.principal.role ≡ "gateway"

either : (a b : Bool) → (a || b) ≡ true → (a ≡ true) ⊎ (b ≡ true)
either true b h = inl refl
either false b h = inr h

allowed_role :
    (r : MemoryRecord)
    → write_allowed r ≡ ok tt
    → r.kind ≡ policy
    → (r.principal.role == "operator" || r.principal.role == "system") ≡ true
unfolding write_allowed ensure
allowed_role r h k = ground arith

allowed_gateway :
    (r : MemoryRecord)
    → write_allowed r ≡ ok tt
    → r.kind ≡ audit
    → (r.principal.role == "gateway") ≡ true
unfolding write_allowed ensure
allowed_gateway r h k = ground arith

allowed_sources :
    (r : MemoryRecord)
    → write_allowed r ≡ ok tt
    → r.sources ≡ []
    → (r.kind =ₖ working || r.kind =ₖ audit) ≡ true
unfolding write_allowed ensure
allowed_sources r h k = ground arith

=ₖ-eq : (k l : MemoryKind) → (k =ₖ l) ≡ true → k ≡ l
=ₖ-eq k l h = ground arith

allowed-Trusted : (r : MemoryRecord) → write_allowed r ≡ ok tt → Trusted r
allowed-Trusted r h = record {
  sourced = λ e. elim (either _ _ (allowed_sources r h e)) [
    | inl k ↦ inl (=ₖ-eq r.kind working k)
    | inr k ↦ inr (=ₖ-eq r.kind audit k)
  ];
  policies = λ e. elim (either _ _ (allowed_role r h e)) [
    | inl k ↦ inl ((eq_iff r.principal.role "operator").0 k)
    | inr k ↦ inr ((eq_iff r.principal.role "system").0 k)
  ];
  audits = λ e. (eq_iff r.principal.role "gateway").0 (allowed_gateway r h e);
}

abbrev pub AllTrusted : Memory → Type 0
AllTrusted m = (r : MemoryRecord) → Memᴰ r m.records → Trusted r

restated : (r : MemoryRecord) (s : String) → Trusted r → Trusted (record r { status = s })
restated r s t = record { sourced = t.sourced; policies = t.policies; audits = t.audits }

set_superseded-Trusted :
    (test : MemoryRecord → Bool) (rs : List MemoryRecord)
    → ((r : MemoryRecord) → Memᴰ r rs → Trusted r)
    → (r : MemoryRecord) → Memᴰ r (set_superseded test rs)
    → Trusted r
set_superseded-Trusted test [] a r m = absurd (Memᴰ.not-nil m)
set_superseded-Trusted test (x ∷ rs) a r m =
    elim ((Memᴰ_cons r (if test x then record x { status = superseded } else x)
        (set_superseded test rs)).0
      m) [
        | inl e ↦ rw e (chosen (test x))
        | inr t ↦ set_superseded-Trusted test rs (λ y k. a y (Memᴰ.tail k)) r t
      ]
  where
    chosen : (b : Bool) → Trusted (if b then record x { status = superseded } else x)
    chosen true = restated x superseded (a x (Memᴰ.head refl))
    chosen false = a x (Memᴰ.head refl)

snoc-Trusted :
    (rs : List MemoryRecord) (x : MemoryRecord)
    → ((r : MemoryRecord) → Memᴰ r rs → Trusted r)
    → Trusted x
    → (r : MemoryRecord) → Memᴰ r (rs ++ x ∷ [])
    → Trusted r
snoc-Trusted [] x a t r m = elim ((Memᴰ_cons r x []).0 m) [
  | inl e ↦ rw e t
  | inr k ↦ absurd (Memᴰ.not-nil k)
]
snoc-Trusted (y ∷ rs) x a t r m = elim ((Memᴰ_cons r y (rs ++ x ∷ [])).0 m) [
  | inl e ↦ rw e (a y (Memᴰ.head refl))
  | inr k ↦ snoc-Trusted rs x (λ z j. a z (Memᴰ.tail j)) t r k
]

insert_record-Trusted : (r : MemoryRecord) → Trusted r → Keeps AllTrusted (insert_record r)
unfolding insert_record
insert_record-Trusted r t m a = elim (Bool-cases (any (is_record r.id) m.records)) [
  | inl e ↦ rw e a
  | inr e ↦ rw e (snoc-Trusted m.records r a t)
]

mark_superseded-Trusted :
    (r : MemoryRecord) (m : Memory) → AllTrusted m → AllTrusted (mark_superseded r m)
unfolding mark_superseded
mark_superseded-Trusted r m a = elim (Option-cases (superseding r)) [
  | inl e ↦ rw (mark_superseded, e) a
  | inr (old, e) ↦ rw (mark_superseded, e) (set_superseded-Trusted (is_record old) m.records a)
]

write_row-Trusted : (r : MemoryRecord) → Keeps AllTrusted (write_row r)
unfolding write_row
write_row-Trusted r m a = checked (write_allowed r) refl
  where
    rest : Memory → Outcome MemoryError Unit × Memory
    rest = (λ m. check (check_superseded r m) m) >> (insert_record r >> update (mark_superseded r))

    kept_check :
        (o : Outcome MemoryError Unit) (n : Memory) → AllTrusted n → AllTrusted (check o n).1
    kept_check (ok _) n q = q
    kept_check (err e) n q = q

    checked :
        (o : Outcome MemoryError Unit)
        → write_allowed r ≡ o
        → AllTrusted (and_then (check o m) (λ _. rest)).1
    checked (err e) k = a
    checked (ok _) k =
        bind-Keeps AllTrusted (λ m. check (check_superseded r m) m)
          (λ _. insert_record r >> update (mark_superseded r))
          (λ n q. kept_check (check_superseded r n) n q)
          (λ _.
            bind-Keeps AllTrusted (insert_record r) (λ _. update (mark_superseded r))
              (insert_record-Trusted r (allowed-Trusted r k))
              (λ _ n q. mark_superseded-Trusted r n q))
          m a

optional-Trusted :
    (b : Bool) (r : MemoryRecord) → Keeps AllTrusted (if b then write_row r else return tt)
optional-Trusted true r m a = write_row-Trusted r m a
optional-Trusted false r m a = a

write-Trusted :
    (stamp : Stamp) (b : Bool) (r : MemoryRecord) → Keeps AllTrusted (Store.write stamp b r)
unfolding Store.write
write-Trusted stamp b r =
    bind-Keeps AllTrusted (write_row r) _ (write_row-Trusted r)
      (λ _. optional-Trusted (b && not (r.kind =ₖ audit)) (audit_record stamp r))

write_chunks-Trusted :
    (c : Ingestion) (v at : ℕ) (ks : List Chunk) → Keeps AllTrusted (write_chunks c v at ks)
unfolding write_chunks
write_chunks-Trusted c v at [] m a = a
write_chunks-Trusted c v at (k ∷ ks) m a =
    bind-Keeps AllTrusted (write_row (chunk_record c v (c.stamp at) k))
      (λ _. write_chunks c v (suc at) ks) (write_row-Trusted (chunk_record c v (c.stamp at) k))
      (λ _. write_chunks-Trusted c v (suc at) ks) m a

insert_document-Trusted : (d : DocumentRow) → Keeps AllTrusted (insert_document d)
unfolding insert_document
insert_document-Trusted d m a = ground (arith, a)

retire_active-Trusted :
    (doc : String) (o : Option DocumentRow) (m : Memory)
    → AllTrusted m
    → AllTrusted (retire_active doc o m)
unfolding retire
retire_active-Trusted doc none m a = a
retire_active-Trusted doc (some _) m a =
    set_superseded-Trusted (λ (r : MemoryRecord). r.status == current && of_document doc r)
      m.records a

close_version-Trusted : (c : Ingestion) (v : ℕ) → Keeps AllTrusted (close_version c v)
unfolding close_version
close_version-Trusted c v =
    bind-Keeps AllTrusted (write_row (index_audit c v (c.stamp (suc (length c.chunks)))))
      (λ _. return (new_report c v))
      (write_row-Trusted (index_audit c v (c.stamp (suc (length c.chunks))))) (λ _ m a. a)

fill_version-Trusted : (c : Ingestion) (v : ℕ) → Keeps AllTrusted (fill_version c v)
unfolding fill_version
fill_version-Trusted c v =
    bind-Keeps AllTrusted (write_chunks c v 1 c.chunks) (λ _. close_version c v)
      (write_chunks-Trusted c v 1 c.chunks) (λ _. close_version-Trusted c v)

write_version-Trusted :
    (c : Ingestion) (o : Option DocumentRow) → Keeps AllTrusted (write_version c o)
unfolding write_version
write_version-Trusted c o m a =
    bind-Keeps AllTrusted (insert_document (document_row c (next_version o)))
      (λ _. fill_version c (next_version o))
      (insert_document-Trusted (document_row c (next_version o)))
      (λ _. fill_version-Trusted c (next_version o)) (retire_active (document_id c) o m)
      (retire_active-Trusted (document_id c) o m a)

ingest_over-Trusted : (c : Ingestion) (o : Option DocumentRow) → Keeps AllTrusted (ingest_over c o)
ingest_over-Trusted c none m a =
    rolled_back-Keeps AllTrusted (write_version c none m) m a (write_version-Trusted c none m a)
ingest_over-Trusted c (some d) m a = elim (Bool-cases (unchanged c d)) [
  | inl e ↦ rw e a
  | inr e ↦ rw e (
      rolled_back-Keeps AllTrusted (write_version c (some d) m) m a
        (write_version-Trusted c (some d) m a))
]

step-Trusted : (m : Memory) (c : Call) → AllTrusted m → AllTrusted (step m c)
unfolding step Ingest.ingest_document
step-Trusted m (write stamp b r) a = write-Trusted stamp b r m a
step-Trusted m (ingest_document c) a =
    ingest_over-Trusted c (find_active (document_id c) m.documents) m a

steps_Trusted : (cs : List Call) (m : Memory) → AllTrusted m → AllTrusted (steps m cs)
unfolding steps
steps_Trusted [] m a = a
steps_Trusted (c ∷ cs) m a = steps_Trusted cs (step m c) (step-Trusted m c a)

-- From the empty memory, after any writes and ingestions, whatever their outcomes, a record
-- without sources is working memory or an audit record, a policy was written by an operator or
-- the system, and an audit record by the gateway.
pub steps-Trusted :
    (cs : List Call) (r : MemoryRecord)
    → Memᴰ r (steps no_memory cs).records
    → (r.sources ≡ [] → (r.kind ≡ working) ⊎ (r.kind ≡ audit))
      × (r.kind ≡ policy → (r.principal.role ≡ "operator") ⊎ (r.principal.role ≡ "system"))
      × (r.kind ≡ audit → r.principal.role ≡ "gateway")
steps-Trusted cs r m =
    let t = steps_Trusted cs no_memory (λ r k. absurd (Memᴰ.not-nil k)) r m in
    (t.sourced, t.policies, t.audits)
