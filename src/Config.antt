-- ===== src/Config.antt =====
-- The constants of config.h, cuckoo_trie.h, cuckoo_trie_internal.h, atomics.h and main_vectorized.c.
use cuckoo_trie_vectorized.Base.{ℕ, ◌+◌, ◌*◌, ◌/◌, ◌-◌, ◌^◌}

abbrev pub cuckoo_bucket_size : ℕ
cuckoo_bucket_size = 4

abbrev pub bits_per_symbol : ℕ
bits_per_symbol = 5

abbrev pub max_jump_symbols : ℕ
max_jump_symbols = 8

abbrev pub tag_bits : ℕ
tag_bits = 4

abbrev pub max_key_bytes : ℕ
max_key_bytes = 256

abbrev pub fanout : ℕ
fanout = 2 ^ bits_per_symbol

abbrev pub child_bitmap_bytes : ℕ
child_bitmap_bytes = (fanout + 1 + 7) / 8

abbrev pub symbol_end : ℕ
symbol_end = 0

abbrev pub max_key_symbols : ℕ
max_key_symbols = (max_key_bytes * 8 + bits_per_symbol - 1) / bits_per_symbol

abbrev pub symbol_mask : ℕ
symbol_mask = fanout - 1

abbrev pub type_unused : ℕ
type_unused = 0

abbrev pub type_leaf : ℕ
type_leaf = 1

abbrev pub type_bitmap : ℕ
type_bitmap = 2

abbrev pub type_jump : ℕ
type_jump = 3

abbrev pub type_mask : ℕ
type_mask = 3

abbrev pub flag_secondary_bucket : ℕ
flag_secondary_bucket = 4

abbrev pub flag_dirty : ℕ
flag_dirty = 8

abbrev pub parent_color_shift : ℕ
parent_color_shift = 4

abbrev pub child_color_shift : ℕ
child_color_shift = 4

abbrev pub seq_increment : ℕ
seq_increment = 2 ^ 8

abbrev pub max_locks : ℕ
max_locks = max_key_symbols + 3

abbrev pub max_valid_color : ℕ
max_valid_color = 2 * cuckoo_bucket_size

abbrev pub invalid_color : ℕ
invalid_color = max_valid_color + 1

abbrev pub root_color : ℕ
root_color = 0

abbrev pub hash_start_value : ℕ
hash_start_value = 0

abbrev pub hugepage_size : ℕ
hugepage_size = 2 ^ 21

abbrev pub cacheline_bytes : ℕ
cacheline_bytes = 64

-- `sizeof(ct_bucket)`: four cells of 15 bytes and the 32-bit counter fill one cache line.
abbrev pub sizeof_bucket : ℕ
sizeof_bucket = 64
