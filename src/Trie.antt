-- ===== src/Trie.antt =====
-- `ct_bucket` and `cuckoo_trie`, with the places in the table.
use cuckoo_trie_vectorized.Base.{ℕ, List, Bool, get_or, set, replicate}
use cuckoo_trie_vectorized.Config.{
  cuckoo_bucket_size, invalid_color, parent_color_shift, tag_bits, type_unused,
}
use cuckoo_trie_vectorized.Base.{◌<<<◌, bit_or}
use cuckoo_trie_vectorized.Entry.{Entry, Body, Locator}

-- `write_lock_and_seq`: the lowest byte is the write lock, the other three are the sequence.
pub record Bucket : Type 0 where
  pub cells : List Entry
  pub write_lock_and_seq : ℕ

-- The bucket of the list's head, `min_leaf_bucket`, is the last one of `buckets`, at index
-- `num_buckets`.
pub record Trie : Type 0 where
  pub buckets : List Bucket
  pub num_buckets : ℕ
  pub num_pairs : ℕ
  pub num_shuffle_blocks : ℕ
  pub bucket_mix_table : List ℕ
  pub is_empty : Bool

abbrev pub zero_body : Body
zero_body = record { byte0 = 0; byte1 = 0; byte2 = 0; byte3 = 0; byte4 = 0; byte5 = 0 }

abbrev pub zero_locator : Locator
zero_locator = record { primary_bucket = 0; tag = 0; color = 0 }

-- The `unused_entry` of `init_buckets` and `remove_entry_by_address`: fields that an initialiser
-- leaves out are 0.
abbrev pub unused_entry : Entry
unused_entry = record {
  parent_color_and_flags = bit_or (invalid_color <<< parent_color_shift) type_unused;
  color_and_tag = invalid_color <<< tag_bits;
  last_symbol = 0;
  body = zero_body;
  link = zero_locator;
}

abbrev pub zero_entry : Entry
zero_entry = record {
  parent_color_and_flags = 0;
  color_and_tag = 0;
  last_symbol = 0;
  body = zero_body;
  link = zero_locator;
}

-- A bucket of the fresh mapping, which is all zeros.
abbrev pub zero_bucket : Bucket
zero_bucket = record { cells = replicate cuckoo_bucket_size zero_entry; write_lock_and_seq = 0 }

-- A cell of the table, which the source names by its address.
pub record Cell : Type 0 where
  pub bucket : ℕ
  pub index : ℕ

-- Reads outside the table do not happen in the source; here they give zeros.
unfoldable pub bucket_at : Trie → ℕ → Bucket
bucket_at t b = get_or t.buckets b zero_bucket

unfoldable pub set_bucket : Trie → ℕ → Bucket → Trie
set_bucket t b v = record t { buckets = set t.buckets b v }

unfoldable pub cell_at : Bucket → ℕ → Entry
cell_at b i = get_or b.cells i zero_entry

unfoldable pub entry_at : Trie → Cell → Entry
unfolding bucket_at cell_at
entry_at t c = cell_at (bucket_at t c.bucket) c.index
