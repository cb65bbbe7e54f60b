-- ===== src/Colors.antt =====
-- The colour of a new entry: `unused_color_in_pair` in its scalar, AVX2 and AVX-512 versions.
mod Defs
pub mod Marks
pub mod Words
pub mod Unused
unfoldable pub use Defs.*
