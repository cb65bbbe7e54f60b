-- ===== src/Entry/Bytes.antt =====
-- Every stored byte of an entry is below 256, and the 120-bit form loses nothing.
use cuckoo_trie_vectorized.Base.{◌^◌, ◌<◌, ◌≡◌, arith}
use cuckoo_trie_vectorized.Entry.Defs.{Locator, Body, Entry, entry_bits, entry_of_bits}

pub record IsLocator (l : Locator) : Type 0 where
  pub bucket_fits : l.primary_bucket < 2 ^ 32
  pub tag_fits : l.tag < 2 ^ 8
  pub color_fits : l.color < 2 ^ 8

pub record IsBody (b : Body) : Type 0 where
  pub fits0 : b.byte0 < 2 ^ 8
  pub fits1 : b.byte1 < 2 ^ 8
  pub fits2 : b.byte2 < 2 ^ 8
  pub fits3 : b.byte3 < 2 ^ 8
  pub fits4 : b.byte4 < 2 ^ 8
  pub fits5 : b.byte5 < 2 ^ 8

-- The fields of an entry fit the C types that store them.
pub record IsEntry (e : Entry) : Type 0 where
  pub flags_fit : e.parent_color_and_flags < 2 ^ 8
  pub color_and_tag_fits : e.color_and_tag < 2 ^ 8
  pub last_symbol_fits : e.last_symbol < 2 ^ 8
  pub body_fits : IsBody e.body
  pub link_fits : IsLocator e.link

pub entry_of_bits-entry_bits : (e : Entry) → IsEntry e → entry_of_bits (entry_bits e) ≡ e
unfolding entry_of_bits entry_bits
entry_of_bits-entry_bits e h = ground arith
