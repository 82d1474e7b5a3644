-- ===== src/Chunking/Bounds.antt =====
-- Where `nominal_end` and `block_end` of core/memory/chunking.py lie, and the first word of a
-- text.
use s13code.Prelude.{
  ℕ, zero, suc, ◌+◌, ◌-◌, ◌≤◌, ◌<◌, Bool, true, false, none, some, List, [], ◌∷◌, ◌≡◌, ◌≢◌, refl,
  subst, inl, inr, arith, leb, length, take, Bool-cases, Option-cases,
}
use s13code.Chunking.Text.{Text, is_space, drop, first_word, ends_from, word_ends}
use s13code.Chunking.Markdown.{structural_end}
use s13code.Chunking.Blocks.{nth_or, last_or, budget_end, nominal_end, block_end}
use s13code.Chunking.Slices.{Blank, Solid, length-drop}
use s13code.Chunking.Structure.{Within, Within-le, structural_end-le}

ends_from-Within :
    (a i : ℕ) (inside : Bool) (s : Text)
    → a ≤ i
    → (inside ≡ true → a < i)
    → Within a (i + length s) (ends_from i inside s)
ends_from-Within a i false [] h k = tt
ends_from-Within a i true [] h k = (k refl, omega arith, tt)
ends_from-Within a i false (c ∷ s) h k = elim (Bool-cases (is_space c)) [
  | inl e ↦
      rw (e, ends_from)
        (Within-le a _ a _ _ (omega arith) (omega arith)
          (ends_from-Within a (suc i) false s (omega arith) (λ _. omega arith)))
  | inr e ↦
      rw (e, ends_from)
        (Within-le a _ a _ _ (omega arith) (omega arith)
          (ends_from-Within a (suc i) true s (omega arith) (λ _. omega arith)))
]
ends_from-Within a i true (c ∷ s) h k = elim (Bool-cases (is_space c)) [
  | inl e ↦
      rw (e, ends_from)
        (
          k refl,
          omega arith,
          Within-le a _ a _ _ (omega arith) (omega arith)
              (ends_from-Within a (suc i) false s (omega arith) (λ _. omega arith)),
        )
  | inr e ↦
      rw (e, ends_from)
        (Within-le a _ a _ _ (omega arith) (omega arith)
          (ends_from-Within a (suc i) true s (omega arith) (λ _. omega arith)))
]

word_ends-Within : (s : Text) → Within 0 (0 + length s) (word_ends s)
unfolding word_ends
word_ends-Within s = ends_from-Within 0 0 false s (omega arith) (λ h. absurd (ground arith))

nth_or-Within :
    (a b d : ℕ) (xs : List ℕ) (n : ℕ)
    → a < d
    → d ≤ b
    → Within a b xs
    → (a < nth_or d xs n) × (nth_or d xs n ≤ b)
nth_or-Within a b d [] n p q _ = (p, q)
nth_or-Within a b d (x ∷ xs) zero p q (h, k, _) = (h, k)
nth_or-Within a b d (x ∷ xs) (suc n) p q (h, k, w) = nth_or-Within a b d xs n p q w

last_or-Within :
    (a b d : ℕ) (xs : List ℕ)
    → a < d
    → d ≤ b
    → Within a b xs
    → (a < last_or d xs) × (last_or d xs ≤ b)
last_or-Within a b d [] p q _ = (p, q)
last_or-Within a b d (x ∷ xs) p q (h, k, w) = last_or-Within a b x xs h k w

budget_end-Within :
    (b : ℕ) (xs : List ℕ) (n : ℕ)
    → 0 < b
    → Within 0 b xs
    → (0 < budget_end b xs n) × (budget_end b xs n ≤ b)
budget_end-Within b xs zero p w = last_or-Within 0 b b xs p (omega arith) w
budget_end-Within b xs (suc n) p w = nth_or-Within 0 b b xs n p (omega arith) w

-- The word budget ends behind the start of the block and in the text.
nominal_end-bounds :
    (s : Text) (n p : ℕ) → p < length s → (p < nominal_end s n p) × (nominal_end s n p ≤ length s)
unfolding nominal_end
nominal_end-bounds s n p h =
    let t = drop p s in
    let l : length t ≡ length s - p = length-drop p s in
    let w : Within 0 (length t) (word_ends t) =
      Within-le 0 _ 0 _ _ (omega arith) (omega arith) (word_ends-Within t) in
    let (a, b) = budget_end-Within (length t) (word_ends t) n (omega (arith, l)) w in
    elim (Bool-cases (leb (length (word_ends t)) n)) [
      | inl e ↦ rw e (h, omega arith)
      | inr e ↦ rw e (omega (arith, a), omega (arith, b, l))
    ]

pub block_end-bounds :
    (s : Text) (n p : ℕ) → p < length s → (p < block_end s n p) × (block_end s n p ≤ length s)
unfolding block_end
block_end-bounds s n p h =
    let m = nominal_end s n p in
    let (a, b) = nominal_end-bounds s n p h in
    let c : structural_end s p m ≤ m = structural_end-le s p m (omega (arith, a)) b in
    elim (Bool-cases (leb (structural_end s p m) p)) [
      | inl e ↦ rw e (a, b)
      | inr e ↦ rw e (ground arith, omega (arith, b, c))
    ]

pub ends_inside : (i : ℕ) (s : Text) → ends_from i true s ≢ []
ends_inside i [] h = absurd (ground arith)
ends_inside i (c ∷ s) h = elim (Bool-cases (is_space c)) [
  | inl e ↦ absurd (ground arith)
  | inr e ↦ ends_inside (suc i) s (rw (e, ends_from) at h)
]

pub word_ends-Solid : (s : Text) → Solid s → word_ends s ≢ []
unfolding word_ends
word_ends-Solid [] h e = h
word_ends-Solid (c ∷ s) h e = ends_inside 1 s (rw (h, word_ends, ends_from) at e)

abbrev pub First : ℕ → Text → Type 0
First i s = (i < length s) × Blank (take i s) × Solid (drop i s)

-- Spaces only stand before the first word.
pub first_word_lem : (s : Text) (i : ℕ) → first_word s ≡ some i → First i s
first_word_lem [] i e = absurd (ground arith)
first_word_lem (c ∷ s) i e = elim (Bool-cases (is_space c)) [
  | inr f ↦
      let g : some 0 ≡ some i = rw (f, first_word) at e in
      let q : 0 ≡ i = ground arith in subst (λ (k : ℕ). First k (c ∷ s)) q (omega arith, tt, f)
  | inl f ↦ elim (Option-cases (first_word s)) [
    | inl n ↦ absurd (ground arith)
    | inr (j, w) ↦
        let g : some (suc j) ≡ some i = rw (f, w, first_word) at e in
        let q : suc j ≡ i = ground arith in
        let (a, b, d) = first_word_lem s j w in
        subst (λ (k : ℕ). First k (c ∷ s)) q (omega (arith, a), (f, b), d)
  ]
]

pub first_word-none : (s : Text) → first_word s ≡ none → Blank s
first_word-none [] e = tt
first_word-none (c ∷ s) e = elim (Bool-cases (is_space c)) [
  | inr f ↦ absurd (ground arith)
  | inl f ↦ elim (Option-cases (first_word s)) [
    | inl n ↦ (f, first_word-none s n)
    | inr (j, w) ↦ absurd (ground arith)
  ]
]
