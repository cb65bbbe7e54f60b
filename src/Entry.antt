-- ===== src/Entry.antt =====
-- `ct_entry` of cuckoo_trie_internal.h, its fields and the functions that read and write them.
--
-- An entry is its 15 stored bytes: three of header, six that a node's type gives a meaning to, and
-- the locator that ends it. The padding byte of `ct_entry` is never stored and is left out. The
-- functions that the header writes over QWORDs or over a 128-bit value are written so here too, by
-- `entry_bits` and `entry_of_bits`.
mod Defs
pub mod Bytes
pub mod Fields
pub mod Nibbles
unfoldable pub use Defs.*
