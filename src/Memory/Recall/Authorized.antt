-- ===== src/Memory/Recall/Authorized.antt =====
-- Where the records that `recall` of core/memory/store.py gives come from.
use mathlib.Core.List.Memᴰ
use s13code.Prelude.{
  String, ◌≡◌, refl, ap, ◌∙◌, Bool, true, false, ◌&&◌, ◌||◌, Option, none, some, List, [], ◌∷◌,
  ◌++◌, arith, eq_iff, ◌⊎◌, inl, inr, Bool-cases, Option-cases, eqb, any, filter, sort_by, Memᴰ,
}
use s13code.Prelude.Members.{Memᴰ-filter, Memᴰ-sort_by, Memᴰ-take, Memᴰ_cons}
use s13code.Json.{Json}
use s13code.Memory.Types.{MemoryScope, MemoryRecord, Memory, document_chunk, ◌=ₖ◌}
use s13code.Memory.Store.{is_record}
use s13code.Memory.Recall.{
  Request, column_admits, scope_admits, is_authorized, selected, is_neighbour, is_null, meta,
  neighbours_of, add_unseen, add_neighbours, expand, recall, ordinal_le,
}

selected-authorized :
    (q : Request) (m : Memory) (r : MemoryRecord)
    → Memᴰ r (selected q m)
    → Memᴰ r m.records × (is_authorized q r ≡ true)
unfolding selected
selected-authorized q m r h = (Memᴰ-filter (is_authorized q) r m.records).0 (
    (Memᴰ-sort_by q.order r (filter (is_authorized q) m.records)).0
      (Memᴰ-take q.limit r (sort_by q.order (filter (is_authorized q) m.records)) h))

-- A property of all records of a list.
abbrev All : (MemoryRecord → Type 0) → List MemoryRecord → Type 0
All P rs = (r : MemoryRecord) → Memᴰ r rs → P r

All-snoc :
    (P : MemoryRecord → Type 0) (xs : List MemoryRecord) (x : MemoryRecord)
    → All P xs
    → P x
    → All P (xs ++ x ∷ [])
All-snoc P [] x a p r m = elim ((Memᴰ_cons r x []).0 m) [
  | inl e ↦ rw e p
  | inr t ↦ absurd (Memᴰ.not-nil t)
]
All-snoc P (y ∷ xs) x a p r m = elim ((Memᴰ_cons r y (xs ++ x ∷ [])).0 m) [
  | inl e ↦ rw e (a y (Memᴰ.head refl))
  | inr t ↦ All-snoc P xs x (λ q k. a q (Memᴰ.tail k)) p r t
]

add_unseen-All :
    (P : MemoryRecord → Type 0) (rs expanded : List MemoryRecord)
    → All P expanded
    → All P rs
    → All P (add_unseen expanded rs)
unfolding add_unseen
add_unseen-All P [] expanded a b = a
add_unseen-All P (r ∷ rs) expanded a b = elim (Bool-cases (any (is_record r.id) expanded)) [
  | inl e ↦ rw e (add_unseen-All P rs expanded a (λ q m. b q (Memᴰ.tail m)))
  | inr e ↦ rw e (
      add_unseen-All P rs (expanded ++ r ∷ []) (All-snoc P expanded r a (b r (Memᴰ.head refl)))
        (λ q m. b q (Memᴰ.tail m)))
]

-- `r` answers the query for the neighbours of `s`.
abbrev pub Beside : Request → MemoryRecord → MemoryRecord → Type 0
Beside q s r = (near : MemoryRecord → Bool) × (neighbours_of q s ≡ some near) × (near r ≡ true)

add_neighbours-All :
    (q : Request) (m : Memory) (P : MemoryRecord → Type 0) (expanded more : List MemoryRecord)
    (s : MemoryRecord)
    → All P expanded
    → ((r : MemoryRecord) → Memᴰ r m.records → Beside q s r → P r)
    → add_neighbours q m expanded s ≡ some more
    → All P more
unfolding add_neighbours
add_neighbours-All q m P expanded more s a b h =
    elim (Bool-cases (
      is_null (meta "document_id" s)
      || is_null (meta "document_version" s)
      || is_null (meta "ordinal" s))) [
        | inl e ↦
            let k : some expanded ≡ some more = (rw e at h) in
            let same : expanded ≡ more = ground arith in rw (← same) a
        | inr e ↦ elim (Option-cases (neighbours_of q s)) [
          | inl f ↦ let k = rw (e, f) at h in absurd (ground arith)
          | inr (near, f) ↦ with_rows near f (rw (e, f) at h)
        ]
      ]
  where
    with_rows :
        (near : MemoryRecord → Bool)
        → neighbours_of q s ≡ some near
        → some (add_unseen expanded (sort_by (ordinal_le q) (filter near m.records))) ≡ some more
        → All P more
    with_rows near f k =
        let same : add_unseen expanded (sort_by (ordinal_le q) (filter near m.records)) ≡ more =
          ground arith in
        rw (← same) (
          add_unseen-All P (sort_by (ordinal_le q) (filter near m.records)) expanded a (λ r mr.
            let (stored, found) =
              (Memᴰ-filter near r m.records).0
                ((Memᴰ-sort_by (ordinal_le q) r (filter near m.records)).0 mr) in
            b r stored (near, f, found)))

expand-All :
    (q : Request) (m : Memory) (P : MemoryRecord → Type 0) (ss expanded rs : List MemoryRecord)
    → All P expanded
    → ((s r : MemoryRecord) → Memᴰ s ss → Memᴰ r m.records → Beside q s r → P r)
    → expand q m ss expanded ≡ some rs
    → All P rs
unfolding expand
expand-All q m P [] expanded rs a b h = let same : expanded ≡ rs = ground arith in rw (← same) a
expand-All q m P (s ∷ ss) expanded rs a b h = elim (Option-cases (add_neighbours q m expanded s)) [
  | inl e ↦ absurd (ground arith)
  | inr (more, e) ↦
      expand-All q m P ss more rs
        (add_neighbours-All q m P expanded more s a (λ r. b s r (Memᴰ.head refl)) e)
        (λ t r k. b t r (Memᴰ.tail k)) (rw (expand, e) at h)
]

-- asked
pub recall_lem :
    (q : Request) (m : Memory) (rs : List MemoryRecord) (r : MemoryRecord)
    → recall q m ≡ some rs
    → Memᴰ r rs
    → Memᴰ r m.records
      × ((is_authorized q r ≡ true)
          ⊎ ((s : MemoryRecord) × Memᴰ s m.records × (is_authorized q s ≡ true) × Beside q s r))
unfolding recall
recall_lem q m rs r h k = elim (Bool-cases (eqb q.expand_neighbors 0)) [
  | inl e ↦
      let same : selected q m ≡ rs = ground arith in
      let (stored, asked) = selected-authorized q m r (rw (← same) at k) in (stored, inl asked)
  | inr e ↦
      expand-All q m
        (λ r.
          Memᴰ r m.records
          × ((is_authorized q r ≡ true)
              ⊎ ((s : MemoryRecord) × Memᴰ s m.records
                  × (is_authorized q s ≡ true)
                  × Beside q s r)))
        (selected q m) (selected q m) rs
        (λ t j. let (stored, asked) = selected-authorized q m t j in (stored, inl asked))
        (λ s t j stored near.
          let (from, asked) = selected-authorized q m s j in (stored, inr (s, from, asked, near)))
        (rw e at h) r k
]

-- The value equals the parameter of a query.
abbrev equals : Request → Json → Json → Bool
equals q parameter value = elim (q.compare.equal parameter) [ none ↦ false | some f ↦ f value ]

-- The chunk `r` has the document identifier and the version that `s` names.
abbrev pub same_document : Request → MemoryRecord → MemoryRecord → Bool
same_document q r s =
    r.kind =ₖ document_chunk
    && equals q (meta "document_id" s) (meta "document_id" r)
    && equals q (meta "document_version" s) (meta "document_version" r)

Beside-same_document :
    (q : Request) (s r : MemoryRecord) → Beside q s r → same_document q r s ≡ true
unfolding neighbours_of is_neighbour
Beside-same_document q s r (near, e, h) =
    elim (Option-cases (q.compare.between q.expand_neighbors (meta "ordinal" s))) [
      | inl f ↦ let k = rw (f, neighbours_of) at e in absurd (ground arith)
      | inr (in_range, f) ↦ elim (Option-cases (q.compare.equal (meta "document_id" s))) [
        | inl g ↦ let k = rw (f, g, neighbours_of) at e in absurd (ground arith)
        | inr (same_id, g) ↦ elim (Option-cases (q.compare.equal (meta "document_version" s))) [
          | inl i ↦ let k = rw (f, g, i, neighbours_of) at e in absurd (ground arith)
          | inr (same_version, i) ↦
              let k : some (is_neighbour same_id same_version in_range) ≡ some near =
                rw (f, g, i, neighbours_of) at e in
              let same : is_neighbour same_id same_version in_range ≡ near = some_inj k in
              let found : is_neighbour same_id same_version in_range r ≡ true =
                ap (λ (p : MemoryRecord → Bool). p r) same ∙ h in
              rw (same_document, equals, g, i) (ground arith)
        ]
      ]
    ]
  where
    some_inj : {A : Type 0} {x y : A} → some x ≡ some y → x ≡ y
    some_inj k = cc

-- A column of a record restricts nothing, or the request has the same value in it.
abbrev Level : Option String → Option String → Type 0
Level own asked = (p : String) → own ≡ some p → asked ≡ some p

-- Every level that the scope of a record names is the request's own.
pub record Covers (own asked : MemoryScope) : Type 0 where
  pub tenant : own.tenant_id ≡ asked.tenant_id
  pub project : Level own.project_id asked.project_id
  pub user : Level own.user_id asked.user_id
  pub agent : Level own.agent_id asked.agent_id
  pub run : Level own.run_id asked.run_id

column_lem : (own asked : Option String) → column_admits own asked ≡ true → Level own asked
column_lem none asked h p e = absurd (ground arith)
column_lem (some s) none h p e = absurd (ground arith)
column_lem (some s) (some t) h p e = ground (arith, eq_iff s t)

both : (a b : Bool) → (a && b) ≡ true → (a ≡ true) × (b ≡ true)
both true b h = (refl, h)
both false b h = absurd (ground arith)

admits-Covers : (own asked : MemoryScope) → scope_admits own asked ≡ true → Covers own asked
unfolding scope_admits
admits-Covers own asked h =
    let (h1, r) = both _ _ h in
    let (h2, a) = both _ _ h1 in
    let (h3, u) = both _ _ h2 in
    let (t, p) = both _ _ h3 in
    record {
      tenant = (eq_iff own.tenant_id asked.tenant_id).0 t;
      project = column_lem own.project_id asked.project_id p;
      user = column_lem own.user_id asked.user_id u;
      agent = column_lem own.agent_id asked.agent_id a;
      run = column_lem own.run_id asked.run_id r;
    }

-- If every stored chunk has the scope of each stored record, of whatever kind, that names the
-- chunk's document identifier and version in its metadata, then every record that `recall` gives,
-- neighbours included, is stored and its scope covers the request: the tenant is the same, and
-- each level that the record names is the request's own.
pub recall-no_leak :
    (q : Request) (m : Memory) (rs : List MemoryRecord) (r : MemoryRecord)
    → ((s t : MemoryRecord)
        → Memᴰ s m.records
        → Memᴰ t m.records
        → same_document q t s ≡ true
        → t.scope ≡ s.scope)
    → recall q m ≡ some rs
    → Memᴰ r rs
    → Memᴰ r m.records × Covers r.scope q.scope
unfolding is_authorized
recall-no_leak q m rs r owned h k = elim (recall_lem q m rs r h k).1 [
  | inl asked ↦ ((recall_lem q m rs r h k).0, admits-Covers r.scope q.scope (ground arith))
  | inr (s, from, asked, near) ↦
      let stored = (recall_lem q m rs r h k).0 in
      (
        stored,
        rw (owned s r from stored (Beside-same_document q s r near))
            (admits-Covers s.scope q.scope (ground arith)),
      )
]
