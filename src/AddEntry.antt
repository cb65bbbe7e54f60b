-- ===== src/AddEntry.antt =====
-- `add_entry` of main_vectorized.c: where a new entry goes and the colour that it gets.
mod Defs
pub mod Stored
pub mod Added
unfoldable pub use Defs.*
