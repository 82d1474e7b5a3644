-- ===== src/Chunking/Rounds.antt =====
-- One round of the loop of `semantic_chunks`: the piece that it appends, and where it goes on.
use s13code.Prelude.{
  ℕ, suc, ◌+◌, ◌-◌, ◌≤◌, ◌<◌, true, some, [], ◌∷◌, ◌++◌, ◌≡◌, refl, sym, ap, ◌∙◌, subst, ◌⊎◌, inl,
  inr, arith, length, take, ltb, Bool-cases, Option-cases, Outcome, ok, err, length-append,
}
use s13code.Chunking.Text.{
  Text, drop, slice, rstrip, strip, starts_with, find, first_word, word_count,
}
use s13code.Chunking.Blocks.{Segmenter, second_topic, block_end, remainder_start}
use s13code.Chunking.Segments.{replied, answered, ask, settle, block_start, round}
use s13code.Chunking.Slices.{
  Blank, Solid, append-Blank, drop-drop, length-drop, take_all, length-slice, take-append_length,
  slice_join, slice_prefix, slice_suffix, rstrip-parts, rstrip-Solid, strip-Solid, strip-begins,
  starts_with-append,
}
use s13code.Chunking.Bounds.{block_end-bounds, first_word_lem, first_word-none}
use s13code.Chunking.Settled.{
  Next, Block, Step, rstrip-rstrip, find-prefix, take-Solid, settle-Step,
}

replied-begins : (s : Text) → (s ≡ []) ⊎ Solid s → ((replied s).0 ≡ []) ⊎ Solid (replied s).0
replied-begins [] h = h
replied-begins (c ∷ s) h = h

pub ask-begins :
    (g : Segmenter) (floor : ℕ) (b : Text) → ((ask g floor b).0 ≡ []) ⊎ Solid (ask g floor b).0
unfolding ask
ask-begins g floor b = elim (Bool-cases (ltb (word_count b) floor)) [
  | inl e ↦ rw (e, ask) (inl refl)
  | inr e ↦ rw (e, ask) (answered-begins (second_topic g b))
]
  where
    answered-begins : (o : Outcome Text Text) → ((answered o).0 ≡ []) ⊎ Solid (answered o).0
    answered-begins (err e) = inl refl
    answered-begins (ok reply) = replied-begins (strip reply) (strip-begins reply)

slice-take : (q i : ℕ) (t : Text) → slice q (q + i) t ≡ take i (drop q t)
unfolding slice
slice-take q i t = let e : q + i - q ≡ i = omega arith in ap (λ n. take n (drop q t)) e

pub slice_rest : (q : ℕ) (t : Text) → q ≤ length t → slice q (length t) t ≡ drop q t
unfolding slice
slice_rest q t h = ap (λ n. take n (drop q t)) (sym (length-drop q t)) ∙ take_all (drop q t)

pub remainder-Next :
    (t : Text) (q : ℕ)
    → q ≤ length t
    → (q ≤ remainder_start t q)
      × (remainder_start t q ≤ length t)
      × Blank (slice q (remainder_start t q) t)
      × Next t (remainder_start t q)
unfolding remainder_start
remainder-Next t q h = elim (Option-cases (first_word (drop q t))) [
  | inl e ↦
      rw (e, remainder_start)
        (
          h,
          omega arith,
          subst (λ (x : Text). Blank x) (sym (slice_rest q t h)) (first_word-none _ e),
          inl refl,
        )
  | inr (i, e) ↦
      let (a, b, c) = first_word_lem (drop q t) i e in
      let k : q + i < length t = omega (arith, a, length-drop q t) in
      rw (e, remainder_start)
        (
          omega arith,
          omega (arith, k),
          subst (λ (x : Text). Blank x) (sym (slice-take q i t)) b,
          inr (k, subst (λ (x : Text). Solid x) (drop-drop q i t) c),
        )
]

slice-Solid : (t : Text) (p stop : ℕ) → Solid (drop p t) → p < stop → Solid (slice p stop t)
unfolding slice
slice-Solid t p stop s h =
    let e : suc (stop - p - 1) ≡ stop - p = omega arith in
    subst (λ (n : ℕ). Solid (take n (drop p t))) e (take-Solid (stop - p - 1) (drop p t) s)

-- The block of a round, for any split of its slice into a text and the spaces behind it.
Block-from :
    (t : Text) (p stop : ℕ) (b r : Text)
    → Solid b
    → rstrip b ≡ b
    → slice p stop t ≡ b ++ r
    → Blank r
    → p < stop
    → stop ≤ length t
    → Block t p b (remainder_start t stop)
Block-from t p stop b r s f e blank h k =
    let (up, down, gap, next) = remainder-Next t stop k in
    let rest = remainder_start t stop in
    let size : length b + length r ≡ stop - p =
      sym (length-append b r) ∙ sym (ap length e) ∙ length-slice p stop t (omega arith) k in
    let l : p + length b ≤ stop = omega (arith, size) in
    let tail : Blank (slice (p + length b) stop t) =
      subst (λ (x : Text). Blank x) (sym (slice_suffix p stop b r t e l)) blank in
    record {
      solid = s;
      stripped = f;
      here =
          slice_prefix p stop (length b) t (omega (arith, size))
          ∙ ap (take (length b)) e
          ∙ take-append_length b r;
      gap =
          subst (λ (x : Text). Blank x) (sym (slice_join (p + length b) stop rest t l up))
            (append-Blank _ _ tail gap);
      before_rest = omega (arith, l, up);
      in_text = down;
      goes_on = next;
    }

Block-of :
    (t : Text) (p stop : ℕ)
    → Solid (drop p t)
    → p < stop
    → stop ≤ length t
    → Block t p (strip (slice p stop t)) (remainder_start t stop)
Block-of t p stop s h k =
    let c = slice p stop t in
    let solid : Solid c = slice-Solid t p stop s h in
    let (r, e, blank) = rstrip-parts c in
    subst (λ (x : Text). Block t p x (remainder_start t stop)) (sym (strip-Solid c solid))
      (Block-from t p stop (rstrip c) r (rstrip-Solid c solid) (rstrip-rstrip c) e blank h k)

-- The block stands at the front of its slice, where `find` meets it.
block_start_lem : (p : ℕ) (c : Text) → Solid c → block_start p c (strip c) ≡ p
unfolding block_start
block_start_lem p c s =
    let (r, e, blank) = rstrip-parts c in
    let front : starts_with c (rstrip c) ≡ true =
      ap (λ x. starts_with x (rstrip c)) e ∙ starts_with-append (rstrip c) r in
    let found : find (strip c) c ≡ some 0 =
      ap (λ x. find x c) (strip-Solid c s) ∙ find-prefix (rstrip c) c front in
    rw (found, block_start) (omega arith)

-- A round appends a piece that begins where it began, and goes on behind it at a word.
pub round-Step :
    (g : Segmenter) (n floor : ℕ) (t : Text) (p : ℕ)
    → p < length t
    → Solid (drop p t)
    → Step t p (round g n floor t p)
unfolding round
round-Step g n floor t p h s =
    let stop = block_end t n p in
    let (a, b) = block_end-bounds t n p h in
    let c = slice p stop t in
    let rest = remainder_start t stop in
    let reply = ask g floor (strip c) in
    subst (λ (k : ℕ). Step t p (settle g (strip c) k rest reply))
      (sym (block_start_lem p c (slice-Solid t p stop s a)))
      (settle-Step t p (strip c) rest g reply.0 reply.1 (Block-of t p stop s a b)
        (ask-begins g floor (strip c)))
