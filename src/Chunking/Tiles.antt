-- ===== src/Chunking/Tiles.antt =====
-- The loop of `semantic_chunks` in core/memory/chunking.py, and the chunks that it returns.
use s13code.Prelude.{
  ℕ, zero, suc, ◌+◌, ◌-◌, ◌≤◌, ◌<◌, Bool, true, false, Option, none, some, List, [], ◌∷◌, ◌≡◌, ◌≢◌,
  refl, sym, ap, ◌∙◌, subst, ◌⊎◌, inl, inr, arith, length, ltb, Bool-cases,
}
use s13code.Chunking.Text.{Text, is_space, drop, slice, lstrip, strip, word_ends}
use s13code.Chunking.Blocks.{Segmenter, Piece, DocumentChunk, remainder_start}
use s13code.Chunking.Segments.{
  round, append_piece, pieces_from, raw_pieces, before, chunk, chunks_from, source_of, floor_of,
  semantic_chunks,
}
use s13code.Chunking.Slices.{
  Blank, append-Blank, slice_join, lstrip-begins, Solid-nonempty, rstrip-Solid,
}
use s13code.Chunking.Bounds.{word_ends-Solid}
use s13code.Chunking.Settled.{Next, Step, slice_empty}
use s13code.Chunking.Rounds.{slice_rest, remainder-Next, round-Step}

-- From the offset `p` on, the pieces stand in order, each is what its span says, and there are
-- only spaces between them and behind them.
abbrev pub Tiled : Text → ℕ → List Piece → Type 0
Tiled t p [] = Blank (slice p (length t) t)
Tiled t p (r ∷ rs) =
    (p ≤ r.start)
    × Blank (slice p r.start t)
    × (r.start < r.stop)
    × (r.stop ≤ length t)
    × (r.text ≡ strip (slice r.start r.stop t))
    × (r.text ≢ [])
    × Tiled t r.stop rs

Tiled-back :
    (t : Text) (q p : ℕ) (rs : List Piece)
    → q ≤ p
    → p ≤ length t
    → Blank (slice q p t)
    → Tiled t p rs
    → Tiled t q rs
Tiled-back t q p [] h k b w =
    subst (λ (x : Text). Blank x) (sym (slice_join q p (length t) t h k)) (append-Blank _ _ b w)
Tiled-back t q p (r ∷ rs) h k b (l, w, a, b', c, d, rest) = (
  omega arith,
  subst (λ (x : Text). Blank x) (sym (slice_join q p r.start t h l)) (append-Blank _ _ b w),
  a,
  b',
  c,
  d,
  rest,
)

slice_none : (p : ℕ) (t : Text) → p ≡ length t → Blank (slice p (length t) t)
slice_none p t h =
    let e : slice p (length t) t ≡ [] =
      ap (λ n. slice n (length t) t) h ∙ slice_empty (length t) t in
    subst (λ (x : Text). Blank x) (sym e) tt

-- What a round leaves for the rounds after it.
step-Next : (t : Text) (p : ℕ) (o : Option Piece × ℕ) → Step t p o → (p < o.1) × Next t o.1
step-Next t p (none, q) h = absurd h
step-Next t p (some r, q) (e, a, b, c, text, full, gap, next) = (omega arith, next)

append_piece-Tiled :
    (t : Text) (p : ℕ) (o : Option Piece × ℕ) (rs : List Piece)
    → Step t p o
    → Tiled t o.1 rs
    → Tiled t p (append_piece o.0 rs)
append_piece-Tiled t p (none, q) rs h w = absurd h
append_piece-Tiled t p (some r, q) rs (e, a, b, c, text, full, gap, next) w = (
  omega (arith, e),
  subst (λ (k : ℕ). Blank (slice p k t)) (sym e)
      (subst (λ (x : Text). Blank x) (sym (slice_empty p t)) tt),
  omega (arith, e, a),
  omega (arith, b, c),
  text ∙ ap (λ k. strip (slice k r.stop t)) (sym e),
  full,
  Tiled-back t r.stop q rs b c gap w,
)

-- The loop from a place where a round may begin, on fuel for the characters that are left.
pieces_from-Tiled :
    (fuel : ℕ) (g : Segmenter) (n floor : ℕ) (t : Text) (p : ℕ)
    → length t - p < fuel
    → Next t p
    → (rs : List Piece) × (pieces_from fuel g n floor t p ≡ some rs) × Tiled t p rs
unfolding pieces_from
pieces_from-Tiled zero g n floor t p f h = absurd (omega arith)
pieces_from-Tiled (suc fuel) g n floor t p f (inl e) =
    let q : ltb p (length t) ≡ false = ground arith in
    ([], rw (q, pieces_from) refl, slice_none p t e)
pieces_from-Tiled (suc fuel) g n floor t p f (inr (l, s)) =
    let q : ltb p (length t) ≡ true = ground arith in
    let o = round g n floor t p in
    let step : Step t p o = round-Step g n floor t p l s in
    let (up, next) = step-Next t p o step in
    let (first, ends, w) = cons_of (word_ends (drop p t)) (word_ends-Solid (drop p t) s) in
    let (rs, e, tiled) = pieces_from-Tiled fuel g n floor t o.1 (omega (arith, up)) next in
    (append_piece o.0 rs, rw (q, w, e, pieces_from) refl, append_piece-Tiled t p o rs step tiled)
  where
    cons_of : (xs : List ℕ) → xs ≢ [] → (x : ℕ) × (ys : List ℕ) × (xs ≡ x ∷ ys)
    cons_of [] h = absurd (h refl)
    cons_of (x ∷ ys) h = (x, ys, refl)

-- The loop of `semantic_chunks` ends for every segmenter, budget and floor.
raw_pieces-Tiled :
    (g : Segmenter) (n floor : ℕ) (t : Text)
    → (rs : List Piece) × (raw_pieces g n floor t ≡ some rs) × Tiled t 0 rs
unfolding raw_pieces
raw_pieces-Tiled g n floor t =
    let (up, down, gap, next) = remainder-Next t 0 (omega arith) in
    let p = remainder_start t 0 in
    let (rs, e, tiled) = pieces_from-Tiled (suc (length t)) g n floor t p (omega arith) next in
    (rs, e, Tiled-back t 0 p rs up down gap tiled)

-- The same for the chunks of a document.
abbrev pub Covers : Text → ℕ → List DocumentChunk → Type 0
Covers t p [] = Blank (slice p (length t) t)
Covers t p (c ∷ cs) =
    (p ≤ c.source_start_char)
    × Blank (slice p c.source_start_char t)
    × (c.source_start_char < c.source_end_char)
    × (c.source_end_char ≤ length t)
    × (c.text ≡ strip (slice c.source_start_char c.source_end_char t))
    × (c.text ≢ [])
    × Covers t c.source_end_char cs

-- A chunk names the chunk before it and the chunk behind it, and the ends name none.
abbrev pub Linked : Option ℕ → List DocumentChunk → Type 0
Linked previous [] = Unit
Linked previous (c ∷ []) = (c.previous_ordinal ≡ previous) × (c.next_ordinal ≡ none)
Linked previous (c ∷ d ∷ cs) =
    (c.previous_ordinal ≡ previous)
    × (c.next_ordinal ≡ some d.ordinal)
    × Linked (some c.ordinal) (d ∷ cs)

chunks_from-Covers :
    (t : Text) (total i p : ℕ) (rs : List Piece)
    → Tiled t p rs
    → Covers t p (chunks_from t total i rs)
unfolding chunk
chunks_from-Covers t total i p [] w = w
chunks_from-Covers t total i p (r ∷ rs) (a, b, c, d, e, f, w) =
    (a, b, c, d, e, f, chunks_from-Covers t total (suc i) r.stop rs w)

chunks_from-Linked :
    (t : Text) (total i : ℕ) (rs : List Piece)
    → i + length rs ≡ total
    → Linked (before i) (chunks_from t total i rs)
unfolding chunk
chunks_from-Linked t total i [] h = tt
chunks_from-Linked t total i (r ∷ []) h = (refl, ground arith)
chunks_from-Linked t total i (r ∷ q ∷ rs) h =
    (refl, ground arith, chunks_from-Linked t total (suc i) (q ∷ rs) (omega (arith, h)))

lstrip-Blank : (s : Text) → lstrip s ≡ [] → Blank s
lstrip-Blank [] h = tt
lstrip-Blank (c ∷ s) h = elim (Bool-cases (is_space c)) [
  | inl e ↦ (e, lstrip-Blank s (rw (e, lstrip) at h))
  | inr e ↦ absurd (ground arith)
]

strip-Blank : (s : Text) → strip s ≡ [] → Blank s
unfolding strip
strip-Blank s h = elim (lstrip-begins s) [
  | inl e ↦ lstrip-Blank s e
  | inr x ↦ absurd (Solid-nonempty _ (rstrip-Solid (lstrip s) x) h)
]

chunked :
    (g : Segmenter) (n : ℕ) (min_words : Option ℕ) (preprocess : Bool) (given : Text)
    → (cs : List DocumentChunk) × (semantic_chunks g n min_words preprocess given ≡ some cs)
      × Covers (source_of preprocess given) 0 cs
      × Linked none cs
unfolding semantic_chunks
chunked g n min_words preprocess given =
    let t = source_of preprocess given in
    elim (begin t) [
      | inl e ↦ (
        [],
        rw (e, semantic_chunks) refl,
        subst (λ (x : Text). Blank x) (sym (slice_rest 0 t (omega arith))) (strip-Blank t e),
        tt,
      )
      | inr (c, s, e) ↦
          let (rs, f, w) = raw_pieces-Tiled g n (floor_of min_words) t in
          (
            chunks_from t (length rs) 0 rs,
            rw (e, f, semantic_chunks) refl,
            chunks_from-Covers t (length rs) 0 0 rs w,
            chunks_from-Linked t (length rs) 0 rs (omega arith),
          )
    ]
  where
    begin : (t : Text) → (strip t ≡ []) ⊎ ((c : ℕ) × (s : Text) × (strip t ≡ c ∷ s))
    begin t = go (strip t)
      where
        go : (x : Text) → (x ≡ []) ⊎ ((c : ℕ) × (s : Text) × (x ≡ c ∷ s))
        go [] = inl refl
        go (c ∷ s) = inr (c, s, refl)

-- For every segmenter, whatever it replies or raises, every word budget, floor and document, the
-- loop of `semantic_chunks` ends and it returns chunks: each has a text, which is what its span
-- says in the prepared document without the spaces around it; the spans are not empty, stand in
-- order, do not overlap and lie in the document; and before, between and behind them there are
-- only spaces.
pub semantic_chunks-Covers :
    (g : Segmenter) (n : ℕ) (min_words : Option ℕ) (preprocess : Bool) (given : Text)
    → (cs : List DocumentChunk) × (semantic_chunks g n min_words preprocess given ≡ some cs)
      × Covers (source_of preprocess given) 0 cs
semantic_chunks-Covers g n min_words preprocess given =
    let (cs, e, w, l) = chunked g n min_words preprocess given in (cs, e, w)

-- In what `semantic_chunks` returns, each chunk names the ordinal of the chunk before it as its
-- previous one and that of the chunk behind it as its next one, the first names no previous and
-- the last no next.
pub semantic_chunks-Linked :
    (g : Segmenter) (n : ℕ) (min_words : Option ℕ) (preprocess : Bool) (given : Text)
    (cs : List DocumentChunk)
    → semantic_chunks g n min_words preprocess given ≡ some cs
    → Linked none cs
semantic_chunks-Linked g n min_words preprocess given cs h =
    let (ds, e, w, l) = chunked g n min_words preprocess given in
    let q : some ds ≡ some cs = sym e ∙ h in
    let r : ds ≡ cs = cc in subst (λ (x : List DocumentChunk). Linked none x) r l
