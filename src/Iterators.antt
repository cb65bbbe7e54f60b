-- ===== src/Iterators.antt =====
-- The iterators of main_vectorized.c, in the build without MULTITHREADING.
mod Defs
mod Predecessors
pub mod Listed
pub mod Left
pub mod Walk
unfoldable pub use Defs.*
unfoldable pub use Predecessors.*
