-- ===== src/Insertion.antt =====
-- The parts of an insertion below the root, in main_vectorized.c.
mod Defs
pub mod Paths
pub mod MaxLeaf
unfoldable pub use Defs.*
