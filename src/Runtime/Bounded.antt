-- ===== src/Runtime/Bounded.antt =====
-- The length of the evidence in a prompt of runtime.py.
use Prim.Native.String.{String}
use s13code.Prelude.{
  ℕ, zero, suc, ◌+◌, ◌-◌, ◌≤◌, List, [], ◌∷◌, ◌≡◌, refl, arith, inl, inr, leb, Bool-cases,
  if◌then◌else◌, ok,
}
use s13code.Json.{Fields, str, put, get_or-put}
use s13code.Graph.Types.{GraphSnapshot}
use s13code.Runtime.Evidence.{
  take_chars, chars, text_in, bound, evidence_limit, gather, answer_evidence,
}

abbrev pub total_chars : List Fields → ℕ
total_chars [] = 0
total_chars (item ∷ items) = chars (text_in item) + total_chars items

abbrev pub smaller : ℕ → ℕ → ℕ
smaller a b = if leb a b then a else b

chars-take_chars : (n : ℕ) (s : String) → chars (take_chars n s) ≡ smaller n (chars s)
chars-take_chars zero s = ground arith
chars-take_chars (suc n) String.[] = ground arith
chars-take_chars (suc n) (String.◌∷◌ c s) = ground (arith, chars-take_chars n s)

text_in-put : (s : String) (item : Fields) → text_in (put "text" (str s) item) ≡ s
text_in-put s item = rw (get_or-put "text" (str "") (str s) item) refl

total_chars-bound :
    (limit used : ℕ) (items : List Fields)
    → used ≤ limit
    → used + total_chars (bound limit used items) ≡ smaller limit (used + total_chars items)
total_chars-bound limit used [] h = ground arith
total_chars-bound limit used (item ∷ items) h =
    let text = text_in item in
    let clipped = take_chars (limit - used) text in
    let size : chars clipped ≡ smaller (limit - used) (chars text) = chars-take_chars _ text in
    elim (Bool-cases (leb limit used)) [
      | inl e ↦ rw (e, bound) (ground arith)
      | inr e ↦
          let next : used + chars clipped ≤ limit = ground (arith, size) in
          let rest = total_chars-bound limit (used + chars clipped) items next in
          rw (e, bound) (rw (text_in-put clipped item) (ground (arith, size, rest)))
    ]

-- The items that are kept stand in order, each with the front of its text.
abbrev pub Clipped : List Fields → List Fields → Type 0
Clipped items [] = Unit
Clipped [] (kept ∷ rest) = ⊥
Clipped (item ∷ items) (kept ∷ rest) =
    ((n : ℕ) × (kept ≡ put "text" (str (take_chars n (text_in item))) item)) × Clipped items rest

Clipped-bound : (limit used : ℕ) (items : List Fields) → Clipped items (bound limit used items)
Clipped-bound limit used [] = tt
Clipped-bound limit used (item ∷ items) = elim (Bool-cases (leb limit used)) [
  | inl e ↦ rw (e, bound) tt
  | inr e ↦
      rw (e, bound)
        (
          (limit - used, refl),
          Clipped-bound limit (used + chars (take_chars (limit - used) (text_in item))) items,
        )
]

-- If the evidence of a run is gathered, the worker `answer` keeps items that stand in order from
-- the first one on, each with the front of its text in place of the text, and their texts have as
-- many characters together as all the texts have, or 28,000 if that is less.
pub answer_evidence_lem :
    (run_id : String) (snapshot : GraphSnapshot) (items : List Fields)
    → gather run_id snapshot ≡ ok items
    → (kept : List Fields) × (answer_evidence run_id snapshot ≡ ok kept)
      × Clipped items kept
      × (total_chars kept ≡ smaller 28000 (total_chars items))
unfolding answer_evidence
answer_evidence_lem run_id snapshot items h = (
  bound evidence_limit 0 items,
  rw (h, answer_evidence) refl,
  Clipped-bound evidence_limit 0 items,
  ground (arith, total_chars-bound evidence_limit 0 items (omega arith)),
)
