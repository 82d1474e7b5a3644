-- ===== src/Chunking/Suffix.antt =====
-- The fence of `semantic_chunks` against boundaries that the segmenter of core/memory/chunking.py
-- invents.
use s13code.Prelude.{ℕ, ◌<◌, Option, [], ◌++◌, ◌≡◌, ◌≢◌, length, ◌⊎◌, String}
use s13code.Chunking.Text.{Text, rstrip}
use s13code.Chunking.Blocks.{Segmenter, Piece}
use s13code.Chunking.Segments.{decide, rolled_over, kept}

-- What a round makes of a block and of the text `second` that the segmenter gave: the block is cut
-- before a proper suffix, or it stays whole and there is none.
pub data CutOrWhole (segmenter : Segmenter) (block second : Text) (note : String × Option Text)
    (start rest : ℕ) (o : Option Piece × ℕ) : Type 0 where
  cut :
      (u : Text)
      → rstrip block ≡ u ++ rstrip second
      → 0 < length u
      → second ≢ []
      → o ≡ rolled_over (decide segmenter block note) block start second (length u)
      → CutOrWhole segmenter block second note start rest o
  whole :
      (second ≡ []) ⊎ ((u : Text) → rstrip block ≡ u ++ rstrip second → length u ≡ 0)
      → o ≡ kept (decide segmenter block note) block start second rest
      → CutOrWhole segmenter block second note start rest o
