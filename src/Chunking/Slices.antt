-- ===== src/Chunking/Slices.antt =====
-- Lemmas on the text operations that core/memory/chunking.py calls: slices, stripped texts, and
-- the places that a search finds.
use s13code.Prelude.{
  ℕ, zero, suc, ◌+◌, ◌-◌, ◌≤◌, true, false, none, some, List, [], ◌∷◌, ◌++◌, ◌≡◌, ◌≢◌, refl, sym,
  ap, subst, ◌∙◌, ◌⊎◌, inl, inr, arith, eqb, length, take, Bool-cases, Option-cases, if◌then◌else◌,
}
use s13code.Chunking.Text.{
  Text, is_space, drop, slice, lstrip, rstrip, strip, trim, starts_with, rfind,
}

abbrev pub Blank : Text → Type 0
Blank [] = Unit
Blank (c ∷ s) = (is_space c ≡ true) × Blank s

-- A word begins here.
abbrev pub Solid : Text → Type 0
Solid [] = ⊥
Solid (c ∷ s) = is_space c ≡ false

pub append-Blank : (s t : Text) → Blank s → Blank t → Blank (s ++ t)
append-Blank [] t _ ht = ht
append-Blank (c ∷ s) t (h, hs) ht = (h, append-Blank s t hs ht)

add-suc : (m n : ℕ) → suc m + n ≡ suc (m + n)
add-suc m n = omega arith

module _ {A : Type 0} where
  pub take-nil : (n : ℕ) → take {A = A} n [] ≡ []
  take-nil zero = refl
  take-nil (suc n) = refl

  pub drop-nil : (n : ℕ) → drop {A = A} n [] ≡ []
  drop-nil zero = refl
  drop-nil (suc n) = refl

  pub take_append : (m n : ℕ) (s : List A) → take (m + n) s ≡ take m s ++ take n (drop m s)
  take_append zero n s = ap (λ k. take k s) (omega arith)
  take_append (suc m) n [] = take-nil (suc m + n) ∙ sym (take-nil n)
  take_append (suc m) n (c ∷ s) =
      ap (λ k. take k (c ∷ s)) (add-suc m n) ∙ ap (λ t. c ∷ t) (take_append m n s)

  pub drop-drop : (m n : ℕ) (s : List A) → drop n (drop m s) ≡ drop (m + n) s
  drop-drop zero n s = ap (λ k. drop k s) (omega arith)
  drop-drop (suc m) n [] = drop-nil n ∙ sym (drop-nil (suc m + n))
  drop-drop (suc m) n (c ∷ s) = drop-drop m n s ∙ ap (λ k. drop k (c ∷ s)) (sym (add-suc m n))

  pub length-drop : (n : ℕ) (s : List A) → length (drop n s) ≡ length s - n
  length-drop zero s = omega arith
  length-drop (suc n) [] = omega arith
  length-drop (suc n) (c ∷ s) = omega (arith, length-drop n s)

  pub length-take : (n : ℕ) (s : List A) → n ≤ length s → length (take n s) ≡ n
  length-take zero s h = refl
  length-take (suc n) [] h = absurd (omega arith)
  length-take (suc n) (c ∷ s) h = omega (arith, length-take n s (omega arith))

  pub take-append_length : (s t : List A) → take (length s) (s ++ t) ≡ s
  take-append_length [] t = refl
  take-append_length (c ∷ s) t = ap (λ x. c ∷ x) (take-append_length s t)

  pub drop-append_length : (s t : List A) → drop (length s) (s ++ t) ≡ t
  drop-append_length [] t = refl
  drop-append_length (c ∷ s) t = drop-append_length s t

  pub take-drop : (n : ℕ) (s : List A) → take n s ++ drop n s ≡ s
  take-drop zero s = refl
  take-drop (suc n) [] = refl
  take-drop (suc n) (c ∷ s) = ap (λ x. c ∷ x) (take-drop n s)

  pub take_all : (s : List A) → take (length s) s ≡ s
  take_all [] = refl
  take_all (c ∷ s) = ap (λ x. c ∷ x) (take_all s)

  pub take-take : (m n : ℕ) (s : List A) → m ≤ n → take m (take n s) ≡ take m s
  take-take zero n s h = refl
  take-take (suc m) zero s h = absurd (omega arith)
  take-take (suc m) (suc n) [] h = refl
  take-take (suc m) (suc n) (c ∷ s) h = ap (λ x. c ∷ x) (take-take m n s (omega arith))

  -- Two slices that meet make one.
  pub slice_join :
      (a b c : ℕ) (s : List A) → a ≤ b → b ≤ c → slice a c s ≡ slice a b s ++ slice b c s
  unfolding slice
  slice_join a b c s h k =
      let e : c - a ≡ (b - a) + (c - b) = omega arith in
      let f : a + (b - a) ≡ b = omega arith in
      ap (λ n. take n (drop a s)) e
      ∙ take_append (b - a) (c - b) (drop a s)
      ∙ ap (λ t. take (b - a) (drop a s) ++ take (c - b) t) (drop-drop a (b - a) s)
      ∙ ap (λ n. take (b - a) (drop a s) ++ take (c - b) (drop n s)) f

  pub length-slice : (a b : ℕ) (s : List A) → a ≤ b → b ≤ length s → length (slice a b s) ≡ b - a
  unfolding slice
  length-slice a b s h k = length-take (b - a) (drop a s) (omega (arith, length-drop a s))

  -- A prefix of a slice is a slice.
  pub slice_prefix : (a b i : ℕ) (s : List A) → i ≤ b - a → slice a (a + i) s ≡ take i (slice a b s)
  unfolding slice
  slice_prefix a b i s h =
      let e : a + i - a ≡ i = omega arith in
      ap (λ n. take n (drop a s)) e ∙ sym (take-take i (b - a) (drop a s) h)

  -- What follows a prefix of a slice, up to its end.
  pub slice_suffix :
      (a b : ℕ) (u v : List A) (s : List A)
      → slice a b s ≡ u ++ v
      → a + length u ≤ b
      → slice (a + length u) b s ≡ v
  slice_suffix a b u v s e h =
      let front : slice a (a + length u) s ≡ u =
        slice_prefix a b (length u) s (omega arith)
        ∙ ap (λ t. take (length u) t) e
        ∙ take-append_length u v in
      let both : u ++ slice (a + length u) b s ≡ u ++ v =
        sym (ap (λ t. t ++ slice (a + length u) b s) front)
        ∙ sym (slice_join a (a + length u) b s (omega arith) h)
        ∙ e in
      sym (drop-append_length u (slice (a + length u) b s))
      ∙ ap (λ t. drop (length u) t) both
      ∙ drop-append_length u v

trim-parts : (c : ℕ) (t r : Text) → Blank r → (x : Text) × (c ∷ (t ++ r) ≡ trim c t ++ x) × Blank x
trim-parts c [] r b = elim (Bool-cases (is_space c)) [
  | inl e ↦ (c ∷ r, rw e refl, (e, b))
  | inr e ↦ (r, rw e refl, b)
]
trim-parts c (d ∷ t) r b = (r, refl, b)

-- `rstrip` takes spaces only.
pub rstrip-parts : (s : Text) → (r : Text) × (s ≡ rstrip s ++ r) × Blank r
rstrip-parts [] = ([], refl, tt)
rstrip-parts (c ∷ s) =
    let (r, e, b) = rstrip-parts s in
    let (x, f, d) = trim-parts c (rstrip s) r b in (x, ap (λ t. c ∷ t) e ∙ f, d)

trim-Solid : (c : ℕ) (t : Text) → is_space c ≡ false → Solid (trim c t)
trim-Solid c [] h = rw h h
trim-Solid c (d ∷ t) h = h

pub rstrip-Solid : (s : Text) → Solid s → Solid (rstrip s)
rstrip-Solid [] h = h
rstrip-Solid (c ∷ s) h = trim-Solid c (rstrip s) h

lstrip-Solid : (s : Text) → Solid s → lstrip s ≡ s
lstrip-Solid [] h = refl
lstrip-Solid (c ∷ s) h = rw h refl

-- A text that begins with a word loses the spaces at its end.
pub strip-Solid : (s : Text) → Solid s → strip s ≡ rstrip s
unfolding strip
strip-Solid s h = ap rstrip (lstrip-Solid s h)

-- A stripped text begins with a word, or is empty.
pub lstrip-begins : (s : Text) → (lstrip s ≡ []) ⊎ Solid (lstrip s)
lstrip-begins [] = inl refl
lstrip-begins (c ∷ s) = elim (Bool-cases (is_space c)) [
  | inl e ↦ rw e (lstrip-begins s)
  | inr e ↦ inr (rw e e)
]

pub strip-begins : (s : Text) → (strip s ≡ []) ⊎ Solid (strip s)
unfolding strip
strip-begins s = elim (lstrip-begins s) [
  | inl e ↦ inl (ap rstrip e)
  | inr h ↦ inr (rstrip-Solid (lstrip s) h)
]

Solid-append : (s t : Text) → Solid s → Solid (s ++ t)
Solid-append [] t h = absurd h
Solid-append (c ∷ s) t h = h

pub Solid-prefix : (s t : Text) → s ≢ [] → Solid (s ++ t) → Solid s
Solid-prefix [] t n h = absurd (n refl)
Solid-prefix (c ∷ s) t n h = h

pub Solid-nonempty : (s : Text) → Solid s → s ≢ []
Solid-nonempty [] h e = h
Solid-nonempty (c ∷ s) h e = subst (λ (t : Text). Solid t) e h

eqb_refl : (n : ℕ) → eqb n n ≡ true
eqb_refl n = ground arith

pub starts_with-append : (s t : Text) → starts_with (s ++ t) s ≡ true
starts_with-append [] [] = refl
starts_with-append [] (d ∷ t) = refl
starts_with-append (c ∷ s) t = rw (eqb_refl c) (starts_with-append s t)

here-occurs :
    (p s : Text) (i : ℕ)
    → (if starts_with s p then some 0 else none) ≡ some i
    → starts_with (drop i s) p ≡ true
here-occurs p s i h = elim (Bool-cases (starts_with s p)) [
  | inl e ↦ let q : 0 ≡ i = ground arith in subst (λ (k : ℕ). starts_with (drop k s) p ≡ true) q e
  | inr e ↦ absurd (ground arith)
]

-- What `rfind` finds is there.
pub rfind-occurs : (p s : Text) (i : ℕ) → rfind p s ≡ some i → starts_with (drop i s) p ≡ true
rfind-occurs p [] i h = here-occurs p [] i h
rfind-occurs p (c ∷ s) i h = elim (Option-cases (rfind p s)) [
  | inl e ↦ here-occurs p (c ∷ s) i (rw e at h)
  | inr (j, e) ↦
      let f : some (suc j) ≡ some i = rw e at h in
      let q : suc j ≡ i = cc in
      subst (λ (k : ℕ). starts_with (drop k (c ∷ s)) p ≡ true) q (rfind-occurs p s j e)
]

pub starts_with-Solid : (s p : Text) → Solid p → starts_with s p ≡ true → Solid s
starts_with-Solid s [] h e = absurd h
starts_with-Solid [] (d ∷ p) h e = absurd (ground arith)
starts_with-Solid (c ∷ s) (d ∷ p) h e =
    let q : c ≡ d = ground arith in subst (λ (x : ℕ). is_space x ≡ false) (sym q) h
