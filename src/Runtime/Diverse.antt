-- ===== src/Runtime/Diverse.antt =====
-- The records that the worker `recall` of runtime.py keeps as evidence.
use s13code.Prelude.{
  ℕ, zero, suc, ◌+◌, ◌≤◌, String, Bool, true, false, ◌==◌, List, [], ◌∷◌, ◌≡◌, refl, subst, arith,
  eq_iff, inl, inr, length, length-take-le, take, filter, sort_by, insert_by, leb, Bool-cases,
  if◌then◌else◌,
}
use s13code.Memory.Types.{MemoryRecord}
use s13code.Runtime.Recalled.{is_foreign, source_key, bump, diversify, ranked, recalled}

abbrev pub count_source : String → List MemoryRecord → ℕ
count_source key [] = 0
count_source key (hit ∷ hits) =
    let rest = count_source key hits in if source_key hit == key then suc rest else rest

abbrev pub AllForeign : String → String → List MemoryRecord → Type 0
AllForeign run_id inbound_id [] = Unit
AllForeign run_id inbound_id (hit ∷ hits) =
    (is_foreign run_id inbound_id hit ≡ true) × AllForeign run_id inbound_id hits

length-diversify :
    (counts : String → ℕ) (room : ℕ) (hits : List MemoryRecord)
    → length (diversify counts room hits) ≤ room
length-diversify counts zero hits = omega arith
length-diversify counts (suc room) [] = omega arith
length-diversify counts (suc room) (hit ∷ hits) =
    elim (Bool-cases (leb 3 (counts (source_key hit)))) [
      | inl e ↦ rw (e, diversify) (length-diversify counts (suc room) hits)
      | inr e ↦
          rw (e, diversify)
            (omega (arith, length-diversify (bump (source_key hit) counts) room hits))
    ]

count_source-diversify :
    (counts : String → ℕ) (room : ℕ) (hits : List MemoryRecord) (key : String)
    → counts key ≤ 3
    → counts key + count_source key (diversify counts room hits) ≤ 3
count_source-diversify counts zero hits key h = omega arith
count_source-diversify counts (suc room) [] key h = omega arith
count_source-diversify counts (suc room) (hit ∷ hits) key h =
    elim (Bool-cases (leb 3 (counts (source_key hit)))) [
      | inl e ↦ rw (e, diversify) (count_source-diversify counts (suc room) hits key h)
      | inr e ↦
          rw (e, diversify)
            (elim (Bool-cases (source_key hit == key)) [
              | inl s ↦
                  let q : source_key hit ≡ key = (eq_iff (source_key hit) key).0 s in
                  let free : leb 3 (counts key) ≡ false =
                    subst (λ (k : String). leb 3 (counts k) ≡ false) q e in
                  let up : bump (source_key hit) counts key ≡ suc (counts key) =
                    rw (s, bump) refl in
                  let rest =
                    count_source-diversify (bump (source_key hit) counts) room hits key
                      (ground (arith, up, free)) in
                  rw (s, count_source) (omega (arith, up, rest))
              | inr s ↦
                  let same : bump (source_key hit) counts key ≡ counts key = rw (s, bump) refl in
                  let rest =
                    count_source-diversify (bump (source_key hit) counts) room hits key
                      (omega (arith, same, h)) in
                  rw (s, count_source) (omega (arith, same, rest))
            ])
    ]

module _ (run_id inbound_id : String) where
  filter-AllForeign :
      (hits : List MemoryRecord)
      → AllForeign run_id inbound_id (filter (is_foreign run_id inbound_id) hits)
  filter-AllForeign [] = tt
  filter-AllForeign (hit ∷ hits) = elim (Bool-cases (is_foreign run_id inbound_id hit)) [
    | inl e ↦ rw (e, filter) (e, filter-AllForeign hits)
    | inr e ↦ rw (e, filter) (filter-AllForeign hits)
  ]

  diversify-AllForeign :
      (counts : String → ℕ) (room : ℕ) (hits : List MemoryRecord)
      → AllForeign run_id inbound_id hits
      → AllForeign run_id inbound_id (diversify counts room hits)
  diversify-AllForeign counts zero hits h = tt
  diversify-AllForeign counts (suc room) [] h = tt
  diversify-AllForeign counts (suc room) (hit ∷ hits) (h, hs) =
      elim (Bool-cases (leb 3 (counts (source_key hit)))) [
        | inl e ↦ rw (e, diversify) (diversify-AllForeign counts (suc room) hits hs)
        | inr e ↦
            rw (e, diversify) (h, diversify-AllForeign (bump (source_key hit) counts) room hits hs)
      ]

  take-AllForeign :
      (n : ℕ) (hits : List MemoryRecord)
      → AllForeign run_id inbound_id hits
      → AllForeign run_id inbound_id (take n hits)
  take-AllForeign zero hits h = tt
  take-AllForeign (suc n) [] h = tt
  take-AllForeign (suc n) (hit ∷ hits) (h, hs) = (h, take-AllForeign n hits hs)

  insert_by-AllForeign :
      (hit : MemoryRecord) (hits : List MemoryRecord)
      → is_foreign run_id inbound_id hit ≡ true
      → AllForeign run_id inbound_id hits
      → AllForeign run_id inbound_id (insert_by ranked hit hits)
  insert_by-AllForeign hit [] h hs = (h, tt)
  insert_by-AllForeign hit (g ∷ hits) h (k, hs) = elim (Bool-cases (ranked hit g)) [
    | inl e ↦ rw (e, insert_by) (h, (k, hs))
    | inr e ↦ rw (e, insert_by) (k, insert_by-AllForeign hit hits h hs)
  ]

  sort_by-AllForeign :
      (hits : List MemoryRecord)
      → AllForeign run_id inbound_id hits
      → AllForeign run_id inbound_id (sort_by ranked hits)
  sort_by-AllForeign [] h = tt
  sort_by-AllForeign (hit ∷ hits) (h, hs) =
      insert_by-AllForeign hit (sort_by ranked hits) h (sort_by-AllForeign hits hs)

-- The hits that the worker `recall` returns are neither the request itself nor records that this
-- run wrote; they are at most eight; and for a corpus query at most three of them have the same
-- source.
pub recalled_lem :
    (corpus_query : Bool) (run_id inbound_id : String) (hits : List MemoryRecord) (key : String)
    → AllForeign run_id inbound_id (recalled corpus_query run_id inbound_id hits)
      × (length (recalled corpus_query run_id inbound_id hits) ≤ 8)
      × (corpus_query ≡ true → count_source key (recalled corpus_query run_id inbound_id hits) ≤ 3)
unfolding recalled
recalled_lem true run_id inbound_id hits key =
    let others = filter (is_foreign run_id inbound_id) hits in
    (
      diversify-AllForeign run_id inbound_id (λ _. 0) 8 others
          (filter-AllForeign run_id inbound_id hits),
      length-diversify (λ _. 0) 8 others,
      λ _. omega (arith, count_source-diversify (λ _. 0) 8 others key (omega arith)),
    )
recalled_lem false run_id inbound_id hits key =
    let others = filter (is_foreign run_id inbound_id) hits in
    (
      take-AllForeign run_id inbound_id 5 _
          (sort_by-AllForeign run_id inbound_id others (filter-AllForeign run_id inbound_id hits)),
      omega (arith, length-take-le 5 (sort_by ranked others)),
      λ e. absurd (ground arith),
    )
