-- ===== src/Prefetch.antt =====
-- The prefetcher of `descend` in main_vectorized.c, which hashes the prefixes of a key ahead of the
-- descent.
mod Defs
pub mod Room
pub mod Steps
pub mod Hashes
pub mod Injective
unfoldable pub use Defs.*
