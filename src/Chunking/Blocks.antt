-- ===== src/Chunking/Blocks.antt =====
-- The parts of `semantic_chunks` of core/memory/chunking.py: its segmenter, its records, and a block
-- within the word budget.
use Prim.Native.String.{String}
use s13code.Prelude.{
  ℕ, zero, suc, ◌+◌, Bool, ◌==◌, Option, none, some, List, [], ◌∷◌, Outcome, ok, leb, if◌then◌else◌,
  length,
}
use s13code.Chunking.Text.{Text, drop, word_ends, first_word}
use s13code.Chunking.Markdown.{structural_end, second_heading}

-- A `TopicSegmenter`: the local model service and an injected one are answers from outside, as a
-- function of the block; an error carries the text of its exception.
pub data Segmenter : Type 0 where
  ollama : String → (Text → Outcome Text Text) → Segmenter
  heading_topics : Segmenter
  injected : String → (Text → Outcome Text Text) → Segmenter

unfoldable pub second_topic : Segmenter → Text → Outcome Text Text
second_topic (ollama model answer) block = answer block
second_topic heading_topics block = ok (second_heading block)
second_topic (injected name answer) block = answer block

abbrev pub mode_of : Segmenter → String
mode_of (ollama model answer) = "ollama_topic_segmenter"
mode_of heading_topics = "heading_fallback"
mode_of (injected name answer) = "injected_topic_segmenter"

abbrev pub model_of : Segmenter → Option String
model_of (ollama model answer) = some model
model_of heading_topics = none
model_of (injected name answer) = some name

-- `S13_LIVE_SEMANTIC_CHUNKING`, whose default follows the embedder
unfoldable pub choose_segmenter : Option Segmenter → Option String → Bool → Segmenter → Segmenter
choose_segmenter (some segmenter) setting live_embedder service = segmenter
choose_segmenter none (some setting) live_embedder service =
    if setting == "1" then service else heading_topics
choose_segmenter none none live_embedder service = if live_embedder then service else heading_topics

pub record Decision : Type 0 where
  pub mode : String
  pub model : Option String
  pub block_words : ℕ
  pub outcome : String
  pub error : Option Text
  pub suffix_start_char : Option ℕ
  pub suffix_words : Option ℕ

-- An element of `raw`.
pub record Piece : Type 0 where
  pub text : Text
  pub decision : Decision
  pub start : ℕ
  pub stop : ℕ

pub record DocumentChunk : Type 0 where
  pub text : Text
  pub heading : Option Text
  pub ordinal : ℕ
  pub previous_ordinal : Option ℕ
  pub next_ordinal : Option ℕ
  pub segmentation : Decision
  pub source_start_char : ℕ
  pub source_end_char : ℕ
  pub source_start_word : ℕ
  pub source_end_word : ℕ

abbrev pub nth_or : ℕ → List ℕ → ℕ → ℕ
nth_or default [] n = default
nth_or default (x ∷ xs) zero = x
nth_or default (x ∷ xs) (suc n) = nth_or default xs n

abbrev pub last_or : ℕ → List ℕ → ℕ
last_or default [] = default
last_or default (x ∷ xs) = last_or x xs

-- `matches[max_words - 1].end()`; the index -1 is the last match
abbrev pub budget_end : ℕ → List ℕ → ℕ → ℕ
budget_end default ends zero = last_or default ends
budget_end default ends (suc n) = nth_or default ends n

unfoldable pub nominal_end : Text → ℕ → ℕ → ℕ
nominal_end markdown max_words pending =
    let ends = word_ends (drop pending markdown) in
    if leb (length ends) max_words
    then length markdown
    else pending + budget_end (length (drop pending markdown)) ends max_words

unfoldable pub block_end : Text → ℕ → ℕ → ℕ
block_end markdown max_words pending =
    let nominal = nominal_end markdown max_words pending in
    let structural = structural_end markdown pending nominal in
    if leb structural pending then nominal else structural

-- The start of the next word, or the end of the text.
unfoldable pub remainder_start : Text → ℕ → ℕ
remainder_start markdown stop = elim (first_word (drop stop markdown)) [
  | some i ↦ stop + i
  | none ↦ length markdown
]
