-- ===== src/Keys.antt =====
-- key_object.h: a key with its value, and the order of keys.
mod Defs
pub mod Order
unfoldable pub use Defs.*
