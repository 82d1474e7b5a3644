-- ===== src/Chunking/Segments.antt =====
-- `semantic_chunks` of core/memory/chunking.py: a block within the word budget, one question to the
-- segmenter, and a roll-over of the suffix that it names.
use Prim.Native.String.{String}
use s13code.Prelude.{
  ℕ, zero, suc, ◌+◌, ◌-◌, Bool, true, false, not, ◌&&◌, Option, none, some, List, [], ◌∷◌, Outcome,
  ok, err, ltb, if◌then◌else◌, length, take,
}
use s13code.Chunking.Text.{
  Text, drop, slice, rstrip, strip, find, rfind, ends_with, word_count, word_ends,
}
use s13code.Chunking.Markdown.{heading, prepare_markdown}
use s13code.Chunking.Blocks.{
  Segmenter, second_topic, mode_of, model_of, Decision, Piece, DocumentChunk, block_end,
  remainder_start,
}

-- What the segmenter gave, the outcome noted for it, and the error if it raised.
abbrev pub replied : Text → Text × (String × Option Text)
replied [] = ([], ("one_topic", none))
replied (c ∷ s) = (c ∷ s, ("second_topic_returned", none))

abbrev pub answered : Outcome Text Text → Text × (String × Option Text)
answered (err error) = ([], ("segmenter_failed_fallback_to_block", some error))
answered (ok reply) = replied (strip reply)

unfoldable pub ask : Segmenter → ℕ → Text → Text × (String × Option Text)
ask segmenter floor block = elim (ltb (word_count block) floor) [
  | true ↦ ([], ("below_semantic_floor", none))
  | false ↦ answered (second_topic segmenter block)
]

abbrev pub is_empty {ℓ} : {A : Type ℓ} → List A → Bool
is_empty [] = true
is_empty (x ∷ xs) = false

unfoldable pub complete_suffix : Text → Text → Bool
complete_suffix block second = not (is_empty second) && ends_with (rstrip block) (rstrip second)

-- `split_at`, where `none` stands for -1
unfoldable pub split_at : Text → Text → Option ℕ
split_at block second = elim (complete_suffix block second) [
  | true ↦ rfind (rstrip second) (rstrip block)
  | false ↦ none
]

abbrev pub decide : Segmenter → Text → String × Option Text → Decision
decide segmenter block (outcome, error) = record {
  mode = mode_of segmenter;
  model = model_of segmenter;
  block_words = word_count block;
  outcome = outcome;
  error = error;
  suffix_start_char = none;
  suffix_words = none;
}

-- One round: the piece that it appends, if any, and the next `pending_start`.
abbrev pub rolled_piece : Decision → Text → ℕ → Text → ℕ → Piece
rolled_piece decision block block_start second i = record {
  text = strip (take i block);
  decision = record decision {
    outcome = "suffix_rollover";
    suffix_start_char = some i;
    suffix_words = some (word_count second);
  };
  start = block_start;
  stop = block_start + i;
}

abbrev pub rolled_over : Decision → Text → ℕ → Text → ℕ → Option Piece × ℕ
rolled_over decision block block_start second i =
    let piece = rolled_piece decision block block_start second i in
    (if is_empty piece.text then none else some piece, block_start + i)

abbrev pub kept_outcome : Text → Text → String → String
kept_outcome block second outcome =
    if not (is_empty second) && complete_suffix block second
    then "suffix_at_block_start_kept_as_block"
    else if not (is_empty second)
    then "non_suffix_rejected_kept_as_block"
    else outcome

abbrev pub kept : Decision → Text → ℕ → Text → ℕ → Option Piece × ℕ
kept decision block block_start second remainder =
    let noted = record decision { outcome = kept_outcome block second decision.outcome } in
    let piece : Piece = record {
      text = block;
      decision = noted;
      start = block_start;
      stop = block_start + length block;
    } in
    (some piece, remainder)

unfoldable pub settle : Segmenter → Text → ℕ → ℕ → Text × (String × Option Text) → Option Piece × ℕ
settle segmenter block block_start remainder (second, note) =
    let decision = decide segmenter block note in
    elim (split_at block second) [
      | some (suc i) ↦ rolled_over decision block block_start second (suc i)
      | some zero ↦ kept decision block block_start second remainder
      | none ↦ kept decision block block_start second remainder
    ]

-- `pending_start + markdown[pending_start:block_end].find(block)`
unfoldable pub block_start : ℕ → Text → Text → ℕ
block_start pending candidate block = elim (find block candidate) [
  | some i ↦ pending + i
  | none ↦ pending - 1
]

unfoldable pub round : Segmenter → ℕ → ℕ → Text → ℕ → Option Piece × ℕ
round segmenter max_words floor markdown pending =
    let stop = block_end markdown max_words pending in
    let candidate = slice pending stop markdown in
    let block = strip candidate in
    settle segmenter block (block_start pending candidate block) (remainder_start markdown stop)
      (ask segmenter floor block)

abbrev pub append_piece : Option Piece → List Piece → List Piece
append_piece none pieces = pieces
append_piece (some piece) pieces = piece ∷ pieces

-- `while pending_start < len(markdown)`, on fuel: `none` when it runs out
unfoldable pub pieces_from : ℕ → Segmenter → ℕ → ℕ → Text → ℕ → Option (List Piece)
pieces_from zero segmenter max_words floor markdown pending = none
pieces_from (suc fuel) segmenter max_words floor markdown pending =
    elim (ltb pending (length markdown)) [
      | false ↦ some []
      | true ↦ elim (word_ends (drop pending markdown)) [
        | [] ↦ some []
        | first ∷ ends ↦
            let (piece, next) = round segmenter max_words floor markdown pending in
            elim (pieces_from fuel segmenter max_words floor markdown next) [
              | none ↦ none
              | some pieces ↦ some (append_piece piece pieces)
            ]
      ]
    ]

-- Each round moves on by a character at least.
unfoldable pub raw_pieces : Segmenter → ℕ → ℕ → Text → Option (List Piece)
raw_pieces segmenter max_words floor markdown =
    pieces_from (suc (length markdown)) segmenter max_words floor markdown
      (remainder_start markdown 0)

unfoldable pub word_number : Text → ℕ → ℕ
word_number source char_offset = word_count (take char_offset source)

abbrev pub before : ℕ → Option ℕ
before zero = none
before (suc i) = some i

unfoldable pub chunk : Text → ℕ → ℕ → Piece → DocumentChunk
chunk markdown total i piece = record {
  text = piece.text;
  heading = heading piece.text;
  ordinal = i;
  previous_ordinal = before i;
  next_ordinal = if ltb (i + 1) total then some (i + 1) else none;
  segmentation = piece.decision;
  source_start_char = piece.start;
  source_end_char = piece.stop;
  source_start_word = word_number markdown piece.start;
  source_end_word = word_number markdown piece.stop;
}

abbrev pub chunks_from : Text → ℕ → ℕ → List Piece → List DocumentChunk
chunks_from markdown total i [] = []
chunks_from markdown total i (piece ∷ pieces) =
    chunk markdown total i piece ∷ chunks_from markdown total (suc i) pieces

abbrev pub source_of : Bool → Text → Text
source_of true markdown = (prepare_markdown markdown).0
source_of false markdown = markdown

abbrev pub floor_of : Option ℕ → ℕ
floor_of none = 40
floor_of (some n) = n

-- `none` only if the loop did not end.
unfoldable pub semantic_chunks :
    Segmenter → ℕ → Option ℕ → Bool → Text → Option (List DocumentChunk)
semantic_chunks segmenter max_words min_words preprocess given =
    let markdown = source_of preprocess given in
    elim (strip markdown) [
      | [] ↦ some []
      | c ∷ s ↦ elim (raw_pieces segmenter max_words (floor_of min_words) markdown) [
        | none ↦ none
        | some pieces ↦ some (chunks_from markdown (length pieces) 0 pieces)
      ]
    ]
