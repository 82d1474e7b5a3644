-- ===== src/Chunking/Settled.antt =====
-- Where `settle` in core/memory/chunking.py puts a block: the piece is kept whole, or its suffix
-- is rolled over to the next round.
use Prim.Native.String.{String}
use s13code.Prelude.{
  ℕ, zero, suc, ◌+◌, ◌-◌, ◌≤◌, ◌<◌, true, false, Option, none, some, [], ◌∷◌, ◌≡◌, ◌≢◌, refl, sym,
  ap, ◌∙◌, subst, ◌⊎◌, inl, inr, arith, length, take, Bool-cases, Option-cases,
}
use s13code.Chunking.Text.{
  Text, is_space, drop, slice, rstrip, strip, trim, starts_with, find, rfind,
}
use s13code.Chunking.Blocks.{Segmenter, Decision, Piece}
use s13code.Chunking.Segments.{
  is_empty, complete_suffix, split_at, decide, rolled_piece, rolled_over, kept, settle,
}
use s13code.Chunking.Slices.{
  Blank, Solid, drop-drop, slice_prefix, rstrip-Solid, strip-Solid, Solid-nonempty, rfind-occurs,
  starts_with-Solid,
}

-- Where a round begins: at a word, or at the end of the text.
abbrev pub Next : Text → ℕ → Type 0
Next t q = (q ≡ length t) ⊎ ((q < length t) × Solid (drop q t))

-- A block without the spaces behind it, and where the text goes on.
pub record Block (t : Text) (p : ℕ) (b : Text) (rest : ℕ) : Type 0 where
  pub solid : Solid b
  pub stripped : rstrip b ≡ b
  pub here : slice p (p + length b) t ≡ b
  pub gap : Blank (slice (p + length b) rest t)
  pub before_rest : p + length b ≤ rest
  pub in_text : rest ≤ length t
  pub goes_on : Next t rest

abbrev pub Stretch : Text → ℕ → Piece → ℕ → Type 0
Stretch t p r q =
    (r.start ≡ p)
    × (p < r.stop)
    × (r.stop ≤ q)
    × (q ≤ length t)
    × (r.text ≡ strip (slice p r.stop t))
    × (r.text ≢ [])
    × Blank (slice r.stop q t)
    × Next t q

abbrev pub Step : Text → ℕ → Option Piece × ℕ → Type 0
Step t p (none, q) = ⊥
Step t p (some r, q) = Stretch t p r q

pub slice_empty : (a : ℕ) (t : Text) → slice a a t ≡ []
unfolding slice
slice_empty a t = let e : a - a ≡ 0 = omega arith in ap (λ n. take n (drop a t)) e

trim-trim : (c : ℕ) (s : Text) → rstrip s ≡ s → rstrip (trim c s) ≡ trim c s
trim-trim c [] h = elim (Bool-cases (is_space c)) [ inl e ↦ rw e refl | inr e ↦ rw e (rw e refl) ]
trim-trim c (d ∷ s) h = rw (h, rstrip) refl

pub rstrip-rstrip : (s : Text) → rstrip (rstrip s) ≡ rstrip s
rstrip-rstrip [] = refl
rstrip-rstrip (c ∷ s) = trim-trim c (rstrip s) (rstrip-rstrip s)

pub find-prefix : (p s : Text) → starts_with s p ≡ true → find p s ≡ some 0
find-prefix p [] h = rw h refl
find-prefix p (c ∷ s) h = rw (h, find) refl

drop-take-Solid : (i n : ℕ) (u : Text) → Solid (drop i (take n u)) → Solid (drop i u)
drop-take-Solid zero zero u h = absurd h
drop-take-Solid (suc i) zero u h = absurd h
drop-take-Solid zero (suc n) [] h = absurd h
drop-take-Solid (suc i) (suc n) [] h = absurd h
drop-take-Solid zero (suc n) (c ∷ u) h = h
drop-take-Solid (suc i) (suc n) (c ∷ u) h = drop-take-Solid i n u h

pub take-Solid : (i : ℕ) (u : Text) → Solid u → Solid (take (suc i) u)
take-Solid i [] h = h
take-Solid i (c ∷ u) h = h

drop-Solid-lt : (i : ℕ) (u : Text) → Solid (drop i u) → i < length u
drop-Solid-lt zero [] h = absurd h
drop-Solid-lt (suc i) [] h = absurd h
drop-Solid-lt zero (c ∷ u) h = omega arith
drop-Solid-lt (suc i) (c ∷ u) h = omega (arith, drop-Solid-lt i u h)

is_empty-Solid : (s : Text) → Solid s → is_empty s ≡ false
is_empty-Solid [] h = absurd h
is_empty-Solid (c ∷ s) h = refl

split_at_lem :
    (b second : Text) (k : ℕ)
    → split_at b second ≡ some k
    → (is_empty second ≡ false) × (rfind (rstrip second) (rstrip b) ≡ some k)
unfolding split_at
split_at_lem b second k e = elim (Bool-cases (complete_suffix b second)) [
  | inl f ↦ (unfold complete_suffix in ground arith, rw (f, split_at) at e)
  | inr f ↦ absurd (false-none k (rw (f, split_at) at e))
]
  where
    false-none : (k : ℕ) → ◌≡◌ {A = Option ℕ} none (some k) → ⊥
    false-none k h = cc

kept-Step :
    (t : Text) (p : ℕ) (b second : Text) (rest : ℕ) (d : Decision)
    → Block t p b rest
    → Step t p (kept d b p second rest)
kept-Step t p b second rest d h = (
  refl,
  omega (arith, drop-Solid-lt 0 b h.solid),
  h.before_rest,
  h.in_text,
  sym (ap strip h.here ∙ strip-Solid b h.solid ∙ h.stripped),
  Solid-nonempty b h.solid,
  h.gap,
  h.goes_on,
)

-- The suffix begins with a word, so the round after this one begins at a word.
suffix-Solid :
    (t : Text) (p : ℕ) (b : Text) (rest i : ℕ)
    → Block t p b rest
    → Solid (drop i b)
    → Solid (drop (p + i) t)
suffix-Solid t p b rest i h s =
    let e : take (p + length b - p) (drop p t) ≡ b = unfold slice in h.here in
    let inner : Solid (drop i (take (p + length b - p) (drop p t))) =
      subst (λ (x : Text). Solid (drop i x)) (sym e) s in
    let below : Solid (drop i (drop p t)) = drop-take-Solid i (p + length b - p) (drop p t) inner in
    subst (λ (x : Text). Solid x) (drop-drop p i t) below

rolled-Stretch :
    (t : Text) (p : ℕ) (b : Text) (rest i : ℕ) (r : Piece)
    → Block t p b rest
    → Solid (drop (suc i) b)
    → r.text ≡ strip (take (suc i) b)
    → r.start ≡ p
    → r.stop ≡ p + suc i
    → Stretch t p r (p + suc i)
rolled-Stretch t p b rest i r h s e f g =
    let l : suc i < length b = drop-Solid-lt (suc i) b s in
    let front : slice p (p + suc i) t ≡ take (suc i) b =
      slice_prefix p (p + length b) (suc i) t (omega arith) ∙ ap (take (suc i)) h.here in
    let text : r.text ≡ strip (slice p r.stop t) =
      e ∙ ap strip (sym front) ∙ ap (λ n. strip (slice p n t)) (sym g) in
    let full : r.text ≢ [] = λ x.
      Solid-nonempty _ (rstrip-Solid _ (take-Solid i b h.solid))
        (sym (strip-Solid _ (take-Solid i b h.solid)) ∙ sym e ∙ x) in
    let k : p + suc i < length t = omega (arith, h.before_rest, h.in_text) in
    let gap : Blank (slice r.stop (p + suc i) t) =
      subst (λ (n : ℕ). Blank (slice n (p + suc i) t)) (sym g)
        (subst (λ (x : Text). Blank x) (sym (slice_empty (p + suc i) t)) tt) in
    (
      f,
      omega (arith, g),
      omega (arith, g),
      omega (arith, k),
      text,
      full,
      gap,
      inr (k, suffix-Solid t p b rest (suc i) h s),
    )

rolled-Step :
    (t : Text) (p : ℕ) (b second : Text) (rest i : ℕ) (d : Decision)
    → Block t p b rest
    → Solid (drop (suc i) b)
    → Step t p (rolled_over d b p second (suc i))
rolled-Step t p b second rest i d h s =
    let n : is_empty (strip (take (suc i) b)) ≡ false =
      ap is_empty (strip-Solid _ (take-Solid i b h.solid))
      ∙ is_empty-Solid _ (rstrip-Solid _ (take-Solid i b h.solid)) in
    rw n (rolled-Stretch t p b rest i (rolled_piece d b p second (suc i)) h s refl refl refl)

pub settle-Step :
    (t : Text) (p : ℕ) (b : Text) (rest : ℕ) (segmenter : Segmenter) (second : Text)
    (note : String × Option Text)
    → Block t p b rest
    → (second ≡ []) ⊎ Solid second
    → Step t p (settle segmenter b p rest (second, note))
unfolding settle
settle-Step t p b rest segmenter second note h begins = elim (Option-cases (split_at b second)) [
  | inl e ↦ rw (e, settle) (kept-Step t p b second rest (decide segmenter b note) h)
  | inr (zero, e) ↦ rw (e, settle) (kept-Step t p b second rest (decide segmenter b note) h)
  | inr (suc i, e) ↦
      let (full, found) = split_at_lem b second (suc i) e in
      let found' : rfind (rstrip second) b ≡ some (suc i) =
        ap (rfind (rstrip second)) (sym h.stripped) ∙ found in
      let solid : Solid second = begins_full second begins full in
      rw (e, settle)
        (rolled-Step t p b second rest i (decide segmenter b note) h
          (starts_with-Solid _ _ (rstrip-Solid second solid) (rfind-occurs _ b (suc i) found')))
]
  where
    begins_full :
        (second : Text) → (second ≡ []) ⊎ Solid second → is_empty second ≡ false → Solid second
    begins_full [] g f = absurd (ground arith)
    begins_full (c ∷ s) (inl x) f = absurd (ground arith)
    begins_full (c ∷ s) (inr x) f = x
