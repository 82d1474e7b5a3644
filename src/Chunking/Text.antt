-- ===== src/Chunking/Text.antt =====
-- Python's text operations that core/memory/chunking.py calls, on the code points of a text.
use Prim.Native.Char.{code}
use Prim.Native.String.{String}
use s13code.Prelude.{
  ℕ, zero, suc, ◌-◌, Bool, true, false, ◌&&◌, ◌||◌, Option, none, some, List, [], ◌∷◌, ◌++◌, eqb,
  leb, if◌then◌else◌, take, length,
}

abbrev pub Text : Type 0
Text = List ℕ

-- A literal of the source.
abbrev pub codes : String → Text
codes String.[] = []
codes (String.◌∷◌ c s) = code c ∷ codes s

-- `str.isspace`, which `\s`, `strip` and `split` test.
unfoldable pub is_space : ℕ → Bool
is_space c =
    leb 9 c && leb c 13
    || leb 28 c && leb c 32
    || eqb c 133
    || eqb c 160
    || eqb c 5760
    || leb 8192 c && leb c 8202
    || eqb c 8232
    || eqb c 8233
    || eqb c 8239
    || eqb c 8287
    || eqb c 12288

abbrev pub drop {ℓ} : {A : Type ℓ} → ℕ → List A → List A
drop zero s = s
drop (suc n) [] = []
drop (suc n) (c ∷ s) = drop n s

-- `s[a:b]` for offsets that are not negative
unfoldable pub slice {ℓ} : {A : Type ℓ} → ℕ → ℕ → List A → List A
slice a b s = take (b - a) (drop a s)

abbrev pub lstrip : Text → Text
lstrip [] = []
lstrip (c ∷ s) = let rest = lstrip s in if is_space c then rest else c ∷ s

abbrev pub trim : ℕ → Text → Text
trim c [] = if is_space c then [] else c ∷ []
trim c (d ∷ s) = c ∷ d ∷ s

abbrev pub rstrip : Text → Text
rstrip [] = []
rstrip (c ∷ s) = trim c (rstrip s)

unfoldable pub strip : Text → Text
strip s = rstrip (lstrip s)

abbrev pub starts_with : Text → Text → Bool
starts_with s [] = true
starts_with [] (d ∷ p) = false
starts_with (c ∷ s) (d ∷ p) = eqb c d && starts_with s p

-- `s.find(p)`; `none` stands for -1
abbrev pub find : Text → Text → Option ℕ
find p [] = if starts_with [] p then some 0 else none
find p (c ∷ s) = elim (starts_with (c ∷ s) p) [
  | true ↦ some 0
  | false ↦ elim (find p s) [ none ↦ none | some i ↦ some (suc i) ]
]

-- `s.rfind(p)`
abbrev pub rfind : Text → Text → Option ℕ
rfind p [] = if starts_with [] p then some 0 else none
rfind p (c ∷ s) = elim (rfind p s) [
  | none ↦ if starts_with (c ∷ s) p then some 0 else none
  | some i ↦ some (suc i)
]

-- `s.endswith(p)`
unfoldable pub ends_with : Text → Text → Bool
ends_with s p = leb (length p) (length s) && starts_with (drop (length s - length p) s) p

-- The words of `s` behind the characters of `word`, which are not spaces.
abbrev pub words_from : Text → Text → List Text
words_from [] [] = []
words_from (d ∷ w) [] = (d ∷ w) ∷ []
words_from [] (c ∷ s) = elim (is_space c) [ true ↦ words_from [] s | false ↦ words_from (c ∷ []) s ]
words_from (d ∷ w) (c ∷ s) = elim (is_space c) [
  | true ↦ (d ∷ w) ∷ words_from [] s
  | false ↦ words_from (d ∷ (w ++ c ∷ [])) s
]

-- `s.split()`
unfoldable pub split_words : Text → List Text
split_words s = words_from [] s

-- `len(s.split())`, and the number of matches of `\S+`
unfoldable pub word_count : Text → ℕ
word_count s = length (split_words s)

-- The offsets where the matches of `\S+` end; `inside` tells whether `i` stands behind a character
-- of a word.
abbrev pub ends_from : ℕ → Bool → Text → List ℕ
ends_from i false [] = []
ends_from i true [] = i ∷ []
ends_from i inside (c ∷ s) = elim (is_space c) [
  | true ↦ let rest = ends_from (suc i) false s in if inside then i ∷ rest else rest
  | false ↦ ends_from (suc i) true s
]

-- The offsets where the matches of `\S+` start.
abbrev pub starts_from : ℕ → Bool → Text → List ℕ
starts_from i inside [] = []
starts_from i inside (c ∷ s) = elim (is_space c) [
  | true ↦ starts_from (suc i) false s
  | false ↦ let rest = starts_from (suc i) true s in if inside then rest else i ∷ rest
]

unfoldable pub word_ends : Text → List ℕ
word_ends s = ends_from 0 false s

unfoldable pub word_starts : Text → List ℕ
word_starts s = starts_from 0 false s

-- The start of the first match of `\S+`.
abbrev pub first_word : Text → Option ℕ
first_word [] = none
first_word (c ∷ s) = elim (is_space c) [
  | true ↦ elim (first_word s) [ none ↦ none | some i ↦ some (suc i) ]
  | false ↦ some 0
]
