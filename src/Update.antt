-- ===== src/Update.antt =====
-- `ct_update` of main_vectorized.c.
mod Defs
pub mod Headers
pub mod Rewrites
pub mod Writes
pub mod Listing
pub mod Outcome
pub mod Refines
unfoldable pub use Defs.*
