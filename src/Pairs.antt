-- ===== src/Pairs.antt =====
-- The functions of main_vectorized.c that find an entry in its pair of buckets, update it where it
-- stands now, and remove it.
mod Defs
pub mod Firsts
pub mod Finds
pub mod Returns
pub mod Writes
pub mod Rewrites
pub mod Flags
pub mod Updates
pub mod Stale
unfoldable pub use Defs.*
