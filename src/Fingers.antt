-- ===== src/Fingers.antt =====
-- The finger of main_vectorized.c, which walks down the trie along the symbols of a key.
mod Defs
pub mod Steps
pub mod Descend
unfoldable pub use Defs.*
