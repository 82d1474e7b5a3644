-- ===== src/Chunking/Structure.antt =====
-- Where the structural end of a block lies: `_structural_end`, `_table_end` and `_fence_end` of
-- core/memory/chunking.py.
use s13code.Prelude.{
  ℕ, zero, suc, ◌+◌, ◌-◌, ◌≤◌, ◌<◌, Bool, true, false, ◌&&◌, some, List, [], ◌∷◌, ◌≡◌, refl, ◌⊎◌,
  inl, inr, arith, eqb, ltb, length, Bool-cases, Option-cases, if◌then◌else◌,
}
use s13code.Chunking.Text.{Text, drop, slice, starts_with, rfind, codes}
use s13code.Chunking.Markdown.{
  headings_from, heading_length, odd, headings, lines_from, fences, last, line_start, is_row,
  table_from, table_end, fence_end, structural_end,
}
use s13code.Chunking.Slices.{length-slice, rfind-occurs}

abbrev Below : ℕ → List ℕ → Type 0
Below n [] = Unit
Below n (x ∷ xs) = (x < n) × Below n xs

abbrev pub Within : ℕ → ℕ → List ℕ → Type 0
Within a b [] = Unit
Within a b (x ∷ xs) = (a < x) × (x ≤ b) × Within a b xs

Below-le : (m n : ℕ) (xs : List ℕ) → m ≤ n → Below m xs → Below n xs
Below-le m n [] h _ = tt
Below-le m n (x ∷ xs) h (p, ps) = (omega arith, Below-le m n xs h ps)

pub Within-le : (a b c d : ℕ) (xs : List ℕ) → c ≤ a → b ≤ d → Within a b xs → Within c d xs
Within-le a b c d [] h k _ = tt
Within-le a b c d (x ∷ xs) h k (p, q, ps) = (omega arith, omega arith, Within-le a b c d xs h k ps)

ℕ-cases : (n : ℕ) → (n ≡ 0) ⊎ ((k : ℕ) × (n ≡ suc k))
ℕ-cases zero = inl refl
ℕ-cases (suc k) = inr (k, refl)

headings_from-Below :
    (i : ℕ) (at_line : Bool) (skip : ℕ) (s : Text)
    → Below (i + length s) (headings_from i at_line skip s)
headings_from-Below i at_line zero [] = tt
headings_from-Below i at_line (suc k) [] = tt
headings_from-Below i at_line (suc k) (c ∷ s) =
    Below-le _ _ _ (omega arith) (headings_from-Below (suc i) _ k s)
headings_from-Below i at_line zero (c ∷ s) = elim (ℕ-cases (heading_length at_line (c ∷ s))) [
  | inl e ↦ rw (e, headings_from) (Below-le _ _ _ (omega arith) (headings_from-Below (suc i) _ 0 s))
  | inr (k, e) ↦
      rw (e, headings_from)
        (omega arith, Below-le _ _ _ (omega arith) (headings_from-Below (suc i) _ k s))
]

lines_from-Below :
    (here : Text → Bool) (i : ℕ) (at_line : Bool) (s : Text)
    → Below (i + length s) (lines_from here i at_line s)
lines_from-Below here i at_line [] = tt
lines_from-Below here i at_line (c ∷ s) =
    let at_next = eqb c b'\n' in
    let rest : Below (i + suc (length s)) (lines_from here (suc i) at_next s) =
      Below-le _ _ _ (omega arith) (lines_from-Below here (suc i) at_next s) in
    elim (Bool-cases (at_line && here (c ∷ s))) [
      | inl e ↦ rw e (omega arith, rest)
      | inr e ↦ rw e rest
    ]

headings-Below : (s : Text) → Below (0 + length s) (headings s)
unfolding headings
headings-Below s = headings_from-Below 0 true 0 s

fences-Below : (s : Text) → Below (0 + length s) (fences s)
unfolding fences
fences-Below s = lines_from-Below (λ t. starts_with t (codes "```")) 0 true s

last-Below : (n : ℕ) (xs : List ℕ) (k : ℕ) → Below n xs → last xs ≡ some k → k < n
last-Below n [] k _ e = absurd (ground arith)
last-Below n (x ∷ []) k (p, _) e = ground arith
last-Below n (x ∷ y ∷ xs) k (p, ps) e = last-Below n (y ∷ xs) k ps e

nonempty_at : (i c : ℕ) (s p : Text) → starts_with (drop i s) (c ∷ p) ≡ true → i < length s
nonempty_at zero c [] p h = absurd (ground arith)
nonempty_at (suc i) c [] p h = absurd (ground arith)
nonempty_at zero c (d ∷ s) p h = omega arith
nonempty_at (suc i) c (d ∷ s) p h = omega (arith, nonempty_at i c s p h)

pub rfind-lt : (c : ℕ) (p s : Text) (i : ℕ) → rfind (c ∷ p) s ≡ some i → i < length s
rfind-lt c p s i h = nonempty_at i c s p (rfind-occurs (c ∷ p) s i h)

line_start-le : (s : Text) (a b : ℕ) → a ≤ b → b ≤ length s → line_start s a b ≤ b
unfolding line_start
line_start-le s a b h k = elim (Option-cases (rfind (b'\n' ∷ []) (slice a b s))) [
  | inl e ↦ rw (e, line_start) (omega arith)
  | inr (i, e) ↦
      rw (e, line_start)
        (omega (arith, rfind-lt b'\n' [] (slice a b s) i e, length-slice a b s h k))
]

line_start-lt : (s : Text) (a b : ℕ) → a < b → b ≤ length s → line_start s a (b - 1) < b
line_start-lt s a b h k = omega (arith, line_start-le s a (b - 1) (omega arith) (omega arith))

-- The table loop goes up, and ends: fuel for the offset where it begins is enough.
table_from-le : (fuel : ℕ) (s : Text) (a t : ℕ) → t ≤ length s → table_from fuel s a t ≤ t
unfolding table_from
table_from-le zero s a t h = omega arith
table_from-le (suc fuel) s a t h = elim (Bool-cases (ltb a t)) [
  | inr e ↦ rw (e, table_from) (omega arith)
  | inl e ↦
      let p = line_start s a (t - 1) in
      let q : p < t = line_start-lt s a t (ground arith) h in
      elim (Bool-cases (is_row (slice p t s))) [
        | inr f ↦ rw (e, f, table_from) (omega arith)
        | inl f ↦
            rw (e, f, table_from) (omega (arith, q, table_from-le fuel s a p (omega (arith, q))))
      ]
]

table_end-le : (s : Text) (a b : ℕ) → a ≤ b → b ≤ length s → table_end s a b ≤ b
unfolding table_end
table_end-le s a b h k =
    let l = line_start s a b in
    let p : l ≤ b = line_start-le s a b h k in
    let q : table_from l s a l ≤ l = table_from-le l s a l (omega (arith, p)) in
    elim (Bool-cases (is_row (slice l b s) && ltb a (table_from l s a l))) [
      | inl e ↦ rw e (omega (arith, p, q))
      | inr e ↦ rw e (omega arith)
    ]

last_offset-le :
    (a b : ℕ) (s : Text) (xs : List ℕ) (k : ℕ)
    → a ≤ b
    → b ≤ length s
    → Below (0 + length (slice a b s)) xs
    → last xs ≡ some k
    → a + k ≤ b
last_offset-le a b s xs k h l below e =
    omega (arith, last-Below _ xs k below e, length-slice a b s h l)

if_le : (t : Bool) {a b : ℕ} (n : ℕ) → a ≤ n → b ≤ n → (if t then a else b) ≤ n
if_le true n p q = p
if_le false n p q = q

fence_end-le : (s : Text) (a b : ℕ) → a ≤ b → b ≤ length s → fence_end s a b ≤ b
unfolding fence_end
fence_end-le s a b h k = elim (Option-cases (last (fences (slice a b s)))) [
  | inl e ↦ rw (e, fence_end) (table_end-le s a b h k)
  | inr (zero, e) ↦ rw (e, fence_end) (table_end-le s a b h k)
  | inr (suc i, e) ↦
      rw (e, fence_end)
        (if_le (odd (length (fences (slice a b s)))) b
          (last_offset-le a b s _ (suc i) h k (fences-Below _) e) (table_end-le s a b h k))
]

pub structural_end-le : (s : Text) (a b : ℕ) → a ≤ b → b ≤ length s → structural_end s a b ≤ b
unfolding structural_end
structural_end-le s a b h k = elim (Option-cases (last (headings (slice a b s)))) [
  | inl e ↦ rw (e, structural_end) (fence_end-le s a b h k)
  | inr (zero, e) ↦ rw (e, structural_end) (fence_end-le s a b h k)
  | inr (suc i, e) ↦
      rw (e, structural_end) (last_offset-le a b s _ (suc i) h k (headings-Below _) e)
]
