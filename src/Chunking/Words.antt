-- ===== src/Chunking/Words.antt =====
-- `_take_words` and `fixed_word_chunks` of core/memory/chunking.py, which cut a text at its words.
use Prim.Native.String.{String}
use mathlib.Core.List.{append_assoc, append-nil}
use s13code.Prelude.{
  ℕ, zero, suc, ◌≤◌, false, List, [], ◌∷◌, ◌++◌, ◌≡◌, ◌≢◌, refl, sym, ap, ◌∙◌, inl, inr, arith,
  length, length-take-le, take, leb, Bool-cases, if◌then◌else◌, Outcome, ok, err,
}
use s13code.Chunking.Text.{
  Text, is_space, drop, lstrip, rstrip, strip, words_from, split_words, word_starts, word_count,
}
use s13code.Chunking.Blocks.{nth_or}
use s13code.Chunking.Slices.{length-drop, take-drop}

-- `_take_words`: the words up to the limit, and the rest of the text.
unfoldable pub take_words : Text → ℕ → Text × Text
take_words text limit =
    let starts = word_starts text in
    let split_at = nth_or (length text) starts limit in
    if leb (length starts) limit
    then (strip text, [])
    else (rstrip (take split_at text), lstrip (drop split_at text))

-- `" ".join(tokens)`
abbrev pub join_words : List Text → Text
join_words [] = []
join_words (w ∷ []) = w
join_words (w ∷ v ∷ ws) = w ++ (b' ' ∷ join_words (v ∷ ws))

-- `range(0, len(tokens), words)`, on fuel for the tokens
abbrev pub groups : ℕ → ℕ → List Text → List Text
groups zero n tokens = []
groups (suc fuel) n [] = []
groups (suc fuel) n (w ∷ ws) = join_words (take n (w ∷ ws)) ∷ groups fuel n (drop n (w ∷ ws))

-- `fixed_word_chunks`; a step of zero is a ValueError
unfoldable pub fixed_word_chunks : Text → ℕ → Outcome String (List Text)
fixed_word_chunks text zero = err "range() arg 3 must not be zero"
fixed_word_chunks text (suc n) =
    let tokens = split_words text in ok (groups (length tokens) (suc n) tokens)

abbrev SolidWord : Text → Type 0
SolidWord [] = Unit
SolidWord (c ∷ s) = (is_space c ≡ false) × SolidWord s

abbrev Tokens : List Text → Type 0
Tokens [] = Unit
Tokens (w ∷ ws) = (w ≢ []) × SolidWord w × Tokens ws

Solid_word-append : (s t : Text) → SolidWord s → SolidWord t → SolidWord (s ++ t)
Solid_word-append [] t _ h = h
Solid_word-append (c ∷ s) t (k, hs) h = (k, Solid_word-append s t hs h)

words_from-Tokens : (w s : Text) → SolidWord w → Tokens (words_from w s)
words_from-Tokens [] [] h = tt
words_from-Tokens (d ∷ w) [] h = (λ e. absurd (ground arith), h, tt)
words_from-Tokens [] (c ∷ s) h = elim (Bool-cases (is_space c)) [
  | inl e ↦ rw (e, words_from) (words_from-Tokens [] s tt)
  | inr e ↦ rw (e, words_from) (words_from-Tokens (c ∷ []) s (e, tt))
]
words_from-Tokens (d ∷ w) (c ∷ s) (k, h) = elim (Bool-cases (is_space c)) [
  | inl e ↦ rw (e, words_from) (λ x. absurd (ground arith), (k, h), words_from-Tokens [] s tt)
  | inr e ↦
      rw (e, words_from)
        (words_from-Tokens (d ∷ (w ++ c ∷ [])) s (k, Solid_word-append w (c ∷ []) h (e, tt)))
]

-- A word in front of the text is read whole.
words_from-append : (w v s : Text) → SolidWord v → words_from w (v ++ s) ≡ words_from (w ++ v) s
words_from-append w [] s h = ap (λ x. words_from x s) (sym (append-nil w))
words_from-append [] (c ∷ v) s (k, h) = rw (k, words_from) (words_from-append (c ∷ []) v s h)
words_from-append (d ∷ w) (c ∷ v) s (k, h) =
    rw (k, words_from)
      (words_from-append (d ∷ (w ++ c ∷ [])) v s h
        ∙ ap (λ x. words_from (d ∷ x) s) (append_assoc w (c ∷ []) v))

words_from_space : (w s : Text) → w ≢ [] → words_from w (b' ' ∷ s) ≡ w ∷ words_from [] s
unfolding is_space
words_from_space [] s h = absurd (h refl)
words_from_space (d ∷ w) s h = refl

words_from_end : (w : Text) → w ≢ [] → words_from w [] ≡ w ∷ []
words_from_end [] h = absurd (h refl)
words_from_end (d ∷ w) h = refl

split_words-join_words : (ws : List Text) → Tokens ws → split_words (join_words ws) ≡ ws
unfolding split_words
split_words-join_words [] h = refl
split_words-join_words (w ∷ []) (n, s, h) =
    ap (words_from []) (sym (append-nil w)) ∙ words_from-append [] w [] s ∙ words_from_end w n
split_words-join_words (w ∷ v ∷ ws) (n, s, h) =
    words_from-append [] w (b' ' ∷ join_words (v ∷ ws)) s
    ∙ words_from_space w (join_words (v ∷ ws)) n
    ∙ ap (λ x. w ∷ x) (split_words-join_words (v ∷ ws) h)

take-Tokens : (n : ℕ) (ws : List Text) → Tokens ws → Tokens (take n ws)
take-Tokens zero ws h = tt
take-Tokens (suc n) [] h = tt
take-Tokens (suc n) (w ∷ ws) (a, b, h) = (a, b, take-Tokens n ws h)

drop-Tokens : (n : ℕ) (ws : List Text) → Tokens ws → Tokens (drop n ws)
drop-Tokens zero ws h = h
drop-Tokens (suc n) [] h = tt
drop-Tokens (suc n) (w ∷ ws) (a, b, h) = drop-Tokens n ws h

-- The words of all the chunks, in order.
abbrev pub all_words : List Text → List Text
all_words [] = []
all_words (c ∷ cs) = split_words c ++ all_words cs

all_words-groups :
    (fuel n : ℕ) (ws : List Text)
    → length ws ≤ fuel
    → Tokens ws
    → all_words (groups fuel (suc n) ws) ≡ ws
all_words-groups zero n [] f h = refl
all_words-groups zero n (w ∷ ws) f h = absurd (omega arith)
all_words-groups (suc fuel) n [] f h = refl
all_words-groups (suc fuel) n (w ∷ ws) f h =
    let l : length (drop n ws) ≤ fuel = omega (arith, length-drop n ws) in
    ap (λ x. x ++ all_words (groups fuel (suc n) (drop n ws)))
      (split_words-join_words (take (suc n) (w ∷ ws)) (take-Tokens (suc n) (w ∷ ws) h))
    ∙ ap (λ x. take (suc n) (w ∷ ws) ++ x)
        (all_words-groups fuel n (drop n ws) l (drop-Tokens (suc n) (w ∷ ws) h))
    ∙ take-drop (suc n) (w ∷ ws)

-- Each chunk has at most the given number of words.
abbrev pub Short : ℕ → List Text → Type 0
Short n [] = Unit
Short n (c ∷ cs) = (word_count c ≤ n) × Short n cs

groups-Short : (fuel n : ℕ) (ws : List Text) → Tokens ws → Short n (groups fuel n ws)
unfolding word_count
groups-Short zero n ws h = tt
groups-Short (suc fuel) n [] h = tt
groups-Short (suc fuel) n (w ∷ ws) h =
    let e = ap length (split_words-join_words (take n (w ∷ ws)) (take-Tokens n (w ∷ ws) h)) in
    (
      omega (arith, e, length-take-le n (w ∷ ws)),
      groups-Short fuel n (drop n (w ∷ ws)) (drop-Tokens n (w ∷ ws) h),
    )

-- With a number of words that is not zero, `fixed_word_chunks` returns chunks that have no more
-- words each than that number, and whose words in order are the words of the text.
pub fixed_word_chunks_lem :
    (text : Text) (n : ℕ)
    → (cs : List Text) × (fixed_word_chunks text (suc n) ≡ ok cs)
      × (all_words cs ≡ split_words text)
      × Short (suc n) cs
unfolding fixed_word_chunks
fixed_word_chunks_lem text n =
    let ws = split_words text in
    let h : Tokens ws = unfold split_words in words_from-Tokens [] text tt in
    (
      groups (length ws) (suc n) ws,
      refl,
      all_words-groups (length ws) n ws (omega arith) h,
      groups-Short (length ws) (suc n) ws h,
    )
