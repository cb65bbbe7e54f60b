-- ===== src/Relocate.antt =====
-- `relocate_entry` of main_vectorized.c: how a full bucket gets a free cell.
mod Defs
pub mod Queue
pub mod Scans
pub mod Weights
pub mod Writes
pub mod Keeps
pub mod Moves
pub mod Outcome
unfoldable pub use Defs.*
