-- ===== src/Alloc/Sizes.antt =====
-- The sizes that `ct_alloc` computes.
use cuckoo_trie_vectorized.Base.{ℕ, ◌+◌, ◌*◌, ◌%◌, ◌^◌, ◌≤◌, ◌<◌, ◌≡◌, arith}
use cuckoo_trie_vectorized.Alloc.Defs.{num_buckets_for, mapping_bytes}

-- Up to `2 ^ 33` cells: the least multiple of 64 buckets that holds them.
pub num_buckets_for_lem :
    (num_cells : ℕ)
    → 0 < num_cells
    → num_cells ≤ 2 ^ 33
    → let n = num_buckets_for num_cells in
      (n % 64 ≡ 0) × (num_cells ≤ n * 4) × (n * 4 < num_cells + 256) × (n < 2 ^ 32)
unfolding num_buckets_for
num_buckets_for_lem num_cells pos small = omega arith

-- The bucket of the list's head never needs a page of its own.
pub mapping_bytes-add_one :
    (n : ℕ) → n % 64 ≡ 0 → n < 2 ^ 32 → mapping_bytes (n + 1) ≡ mapping_bytes n
unfolding mapping_bytes
mapping_bytes-add_one n whole small = omega arith
