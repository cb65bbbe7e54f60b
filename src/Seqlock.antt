-- ===== src/Seqlock.antt =====
-- The sequence lock of atomics.c and atomics.h: `write_entry` and `read_entry` while other threads
-- run between their accesses.
mod Defs
pub mod Versions
pub mod Reads
unfoldable pub use Defs.*
