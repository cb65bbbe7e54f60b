-- ===== src/CreateRoot.antt =====
-- `create_root` of main_vectorized.c.
mod Defs
pub mod Ready
pub mod Tables
pub mod Rooted
unfoldable pub use Defs.*
