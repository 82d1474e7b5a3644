-- ===== src/Chunking.antt =====
-- core/memory/chunking.py: a document cut into topical blocks that keep their place in the source.
pub mod Text
pub mod Markdown
pub mod Blocks
pub mod Segments
pub mod Slices
pub mod Structure
pub mod Bounds
pub mod Settled
pub mod Rounds
pub mod Tiles
pub mod Suffix
pub mod Words
