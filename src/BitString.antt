-- ===== src/BitString.antt =====
-- The bit strings of util.c: bit 0 is the highest bit of the first byte.
mod Defs
pub mod Marks
pub mod Lowest
pub mod Ranges
unfoldable pub use Defs.*
