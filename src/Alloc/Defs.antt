-- ===== src/Alloc/Defs.antt =====
-- `ct_alloc` and what it calls. The huge pages and the heap are the host's: it says which mappings
-- it grants, and whether `malloc` finds room for the handle.
use cuckoo_trie_vectorized.Base.{
  ℕ, zero, suc, ◌+◌, ◌-◌, ◌*◌, ◌/◌, ◌%◌, ◌^◌, Bool, true, List, [], ◌∷◌, ◌==◌, if◌then◌else◌,
  replicate, set, u64, ◌>>>◌,
}
use cuckoo_trie_vectorized.Config.{
  cuckoo_bucket_size, fanout, bits_per_symbol, tag_bits, hugepage_size, sizeof_bucket, type_leaf,
}
use cuckoo_trie_vectorized.Entry.{Entry, Locator}
use cuckoo_trie_vectorized.Random.{rand_seed, rand_uint64}
use cuckoo_trie_vectorized.Trie.{Bucket, Trie, Cell, unused_entry, zero_bucket}

pub record Host : Type 0 where
  pub mmap_succeeds : ℕ → Bool
  pub malloc_succeeds : Bool

-- `no_table` is the NULL of `ct_alloc`, with nothing left mapped; `division_trap` is the `% 0` of
-- `init_bucket_mix_table`. With a table stands the number of bytes that are mapped for it.
pub data Allocation : Type 0 where
  no_table : Allocation
  division_trap : Allocation
  table : Trie → (mapped : ℕ) → Allocation

unfoldable pub num_buckets_for : ℕ → ℕ
num_buckets_for num_cells =
    let num_buckets = u64 (num_cells + cuckoo_bucket_size - 1) / cuckoo_bucket_size in
    u64 (u64 (num_buckets + fanout * 2 - 1) / (fanout * 2) * (fanout * 2))

-- The size of a mapping of so many buckets.
unfoldable pub mapping_bytes : ℕ → ℕ
mapping_bytes num_buckets =
    u64 ((u64 (num_buckets * sizeof_bucket) / hugepage_size + 1) * hugepage_size)

unfoldable pub mix_table_from : ℕ → ℕ → ℕ → List ℕ
mix_table_from zero num_buckets rand_state = []
mix_table_from (suc left) num_buckets rand_state =
    let drawn = rand_uint64 rand_state in
    (drawn.value % num_buckets) ∷ mix_table_from left num_buckets drawn.state

unfoldable pub init_bucket_mix_table : ℕ → List ℕ
init_bucket_mix_table num_buckets = mix_table_from (2 ^ tag_bits) num_buckets (rand_seed 1)

abbrev pub unused_bucket : Bucket
unused_bucket = record { cells = replicate cuckoo_bucket_size unused_entry; write_lock_and_seq = 0 }

-- The loop over the buckets below `bucket_num + left`, from `bucket_num` on.
unfoldable pub init_buckets_from : ℕ → ℕ → List Bucket → List Bucket
init_buckets_from zero bucket_num buckets = buckets
init_buckets_from (suc left) bucket_num buckets =
    init_buckets_from left (suc bucket_num) (set buckets bucket_num unused_bucket)

unfoldable pub init_buckets : Trie → Trie
init_buckets trie = record trie { buckets = init_buckets_from trie.num_buckets 0 trie.buckets }

-- The head of the list of leaves, on zeroed memory.
abbrev pub min_leaf_bucket : Bucket
min_leaf_bucket =
    let next_leaf : Locator = record { primary_bucket = 2 ^ 32 - 1; tag = 0; color = 0 } in
    let min_leaf : Entry = record unused_entry {
      parent_color_and_flags = type_leaf;
      color_and_tag = 0;
      link = next_leaf;
    } in
    record zero_bucket { cells = set zero_bucket.cells 0 min_leaf }

unfoldable pub trie_min_leaf : Trie → Cell
trie_min_leaf trie = record { bucket = trie.num_buckets; index = 0 }

-- The allocated table, given its number of buckets.
unfoldable pub fresh_table : ℕ → Trie
fresh_table num_buckets =
    let num_pairs = u64 (num_buckets * 2 ^ tag_bits) in
    init_buckets record {
      buckets = set (replicate (num_buckets + 1) zero_bucket) num_buckets min_leaf_bucket;
      num_buckets = num_buckets;
      num_pairs = num_pairs;
      num_shuffle_blocks = num_pairs >>> bits_per_symbol;
      bucket_mix_table = init_bucket_mix_table num_buckets;
      is_empty = true;
    }

unfoldable pub ct_alloc : Host → ℕ → Allocation
ct_alloc host num_cells =
    let num_buckets = num_buckets_for num_cells in
    let mapped = mapping_bytes (u64 (num_buckets + 1)) in
    if host.mmap_succeeds mapped
    then (if host.malloc_succeeds
        then (if num_buckets == 0 then division_trap else table (fresh_table num_buckets) mapped)
        else no_table)
    else no_table

-- The bytes that `ct_free` unmaps.
unfoldable pub ct_free : Trie → ℕ
ct_free trie = mapping_bytes trie.num_buckets
