-- ===== src/Lookup.antt =====
-- `ct_lookup` of main_vectorized.c, and the trie that a table holds.
mod Defs
pub mod Tree
pub mod Children
pub mod Walk
pub mod Attempts
pub mod Rounds
pub mod Compare
pub mod Descents
pub mod Refines
unfoldable pub use Defs.*
