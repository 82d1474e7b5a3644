-- ===== src/Tests/Chunking.antt =====
-- Runs of core/memory/chunking.py on small documents.
use s13code.Prelude.{true, false, Option, none, some, List, [], ◌∷◌, map, ◌≡◌, refl, ok}
use s13code.Chunking.Text.{
  Text, codes, slice, strip, split_words, is_space, word_starts, word_ends, word_count, ends_with,
}
use s13code.Chunking.Markdown.{
  headings, heading_at, heading, prepare_markdown, wrapped, titles, cut_at, structural_end,
  fence_end, table_end, table_from, line_start, is_row, fences, second_heading,
}
use s13code.Chunking.Blocks.{
  Segmenter, heading_topics, injected, DocumentChunk, second_topic, block_end, nominal_end,
  remainder_start,
}
use s13code.Chunking.Segments.{
  source_of, split_at, complete_suffix, semantic_chunks, raw_pieces, pieces_from, round, settle,
  ask, block_start, chunk, word_number,
}
use s13code.Chunking.Tiles.{Covers, Linked, semantic_chunks-Covers, semantic_chunks-Linked}
use s13code.Chunking.Words.{all_words, Short, take_words, fixed_word_chunks, fixed_word_chunks_lem}

abbrev two_topics : Text
two_topics = codes "# A\nalpha beta\n\n# B\ngamma"

headings_two : headings two_topics ≡ 0 ∷ 16 ∷ []
unfolding headings heading_at is_space slice
headings_two = refl

-- The second line of a heading pattern may hold its text, and then is part of that match.
headings_across : headings (codes "#\n# B\n") ≡ 0 ∷ []
unfolding headings heading_at is_space slice
headings_across = refl

heading_two : heading two_topics ≡ some (codes "A")
unfolding heading heading_at is_space slice strip
heading_two = refl

second_two : second_heading two_topics ≡ codes "# B\ngamma"
unfolding second_heading headings heading_at is_space slice strip
second_two = refl

-- A budget that ends inside the second section stops at its heading.
structural_two : structural_end two_topics 0 19 ≡ 16
unfolding structural_end headings heading_at is_space slice
structural_two = refl

abbrev page : Text
page = codes "nav\n# Title: T\n> Abstract: a\n| Comments: c\n## Submission history\nx"

page_prepared : prepare_markdown page ≡ (codes "# Title: T\n> Abstract: a", "arxiv_abstract_page")
unfolding prepare_markdown wrapped titles cut_at is_space slice strip
page_prepared = refl

take_two : take_words (codes "a  b c d") 2 ≡ (codes "a  b", codes "c d")
unfolding take_words word_starts is_space
take_two = refl

fixed_two : fixed_word_chunks (codes " a b  c ") 2 ≡ ok (codes "a b" ∷ codes "c" ∷ [])
unfolding fixed_word_chunks split_words is_space
fixed_two = refl

abbrev texts : Option (List DocumentChunk) → List Text
texts none = []
texts (some cs) = map (λ c. c.text) cs

-- The block ends before the last heading, although the budget takes both topics.
cut_two :
    texts (semantic_chunks heading_topics 40 (some 0) false (codes "# A\na\n# B"))
    ≡ codes "# A\na" ∷ codes "# B" ∷ []
unfolding semantic_chunks raw_pieces pieces_from round settle ask second_topic second_heading
    headings heading_at is_space slice strip split_at complete_suffix ends_with block_start
    block_end nominal_end structural_end fence_end table_end table_from line_start is_row fences
    remainder_start word_ends word_count split_words chunk word_number heading
cut_two = refl

abbrev names_b : Segmenter
names_b = injected "S" (λ b. ok (codes "b c"))

-- The suffix that the segmenter names is a block of its own; there it is no second topic.
rolled_b :
    texts (semantic_chunks names_b 40 (some 0) false (codes "a b c")) ≡ codes "a" ∷ codes "b c" ∷ []
unfolding semantic_chunks raw_pieces pieces_from round settle ask second_topic second_heading
    headings heading_at is_space slice strip split_at complete_suffix ends_with block_start
    block_end nominal_end structural_end fence_end table_end table_from line_start is_row fences
    remainder_start word_ends word_count split_words chunk word_number heading
rolled_b = refl

-- A reply that is no suffix leaves the block whole.
invented :
    texts
      (semantic_chunks (injected "S" (λ b. ok (codes "made up"))) 2 (some 0) false (codes "a b c"))
    ≡ codes "a b" ∷ codes "c" ∷ []
unfolding semantic_chunks raw_pieces pieces_from round settle ask second_topic second_heading
    headings heading_at is_space slice strip split_at complete_suffix ends_with block_start
    block_end nominal_end structural_end fence_end table_end table_from line_start is_row fences
    remainder_start word_ends word_count split_words chunk word_number heading
invented = refl

semantic_chunks-Covers_example :
    (cs : List DocumentChunk) × (semantic_chunks names_b 40 (some 0) true (codes " a b c")
      ≡ some cs)
    × Covers (source_of true (codes " a b c")) 0 cs
semantic_chunks-Covers_example = semantic_chunks-Covers names_b 40 (some 0) true (codes " a b c")

abbrev found : Option (List DocumentChunk) → List DocumentChunk
found none = []
found (some cs) = cs

abbrev rolled : List DocumentChunk
rolled = found (semantic_chunks names_b 40 (some 0) false (codes "a b c"))

semantic_chunks-Linked_example : Linked none rolled
unfolding semantic_chunks raw_pieces pieces_from round settle ask second_topic second_heading
    headings heading_at is_space slice strip split_at complete_suffix ends_with block_start
    block_end nominal_end structural_end fence_end table_end table_from line_start is_row fences
    remainder_start word_ends word_count split_words chunk word_number heading
semantic_chunks-Linked_example =
    semantic_chunks-Linked names_b 40 (some 0) false (codes "a b c") rolled refl

fixed_word_chunks_lem_example :
    (cs : List Text) × (fixed_word_chunks (codes "a b c") 2 ≡ ok cs)
    × (all_words cs ≡ split_words (codes "a b c"))
    × Short 2 cs
fixed_word_chunks_lem_example = fixed_word_chunks_lem (codes "a b c") 1
