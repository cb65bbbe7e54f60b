-- ===== src/Symbols.antt =====
-- Keys as strings of 5-bit symbols: `get_string_symbol`, the vector loop `key_to_symbols` that
-- computes all symbols of a key, eight at a time, and the symbols of a jump node, in
-- main_vectorized.c.
mod Defs
pub mod Chunk
pub mod Round
pub mod Key
unfoldable pub use Defs.*
