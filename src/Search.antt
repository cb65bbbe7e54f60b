-- ===== src/Search.antt =====
-- The search of a bucket for an entry, by its colour or by its parent's, in main.c and in
-- main_vectorized.c, and the colours of a pair of buckets.
mod Defs
pub mod Headers
pub mod Cells
mod Lanes
pub mod Buckets
unfoldable pub use Defs.*
