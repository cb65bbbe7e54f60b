-- ===== src/Hash/Bounds.antt =====
-- Hashes stay below the number of pairs.
use native.Mathlib.Nat.{mod-eq_of_lt}
use cuckoo_trie_vectorized.Base.{ℕ, ◌+◌, ◌*◌, ◌/◌, ◌%◌, ◌≤◌, ◌<◌, bit_xor, ◌≡◌, arith}
use cuckoo_trie_vectorized.Bits.{bit_xor_split, bit_xor-lt, bit_xor-zero, bit_and-low_mask}
use cuckoo_trie_vectorized.Trie.{Trie}
use cuckoo_trie_vectorized.Hash.Defs.{accumulate_hash, hash_to_bucket, hash_to_tag}
use cuckoo_trie_vectorized.Hash.Geometry.{IsGeometry}

-- A symbol, up to 32, changes only the six low bits.
pub xor_symbol :
    (x symbol : ℕ) → symbol ≤ 32 → bit_xor x symbol ≡ x / 64 * 64 + bit_xor (x % 64) symbol
xor_symbol x symbol s =
    ground (arith, bit_xor_split 6 (x / 64) (x % 64) 0 symbol, bit_xor-zero (x / 64))

pub xor_symbol-lt : (n x symbol : ℕ) → n % 64 ≡ 0 → x < n → symbol ≤ 32 → bit_xor x symbol < n
xor_symbol-lt n x symbol whole below s =
    omega (arith, xor_symbol x symbol s, bit_xor-lt 6 (x % 64) symbol (omega arith) (omega arith))

row_and_column :
    (row column rows columns : ℕ)
    → row < rows
    → column < columns
    → row * columns + column < rows * columns
row_and_column row column rows columns r c = grind arith

module _ (t : Trie) (g : IsGeometry t) where
  mixed-lt : (x symbol : ℕ) → x < t.num_pairs → symbol ≤ 32 → bit_xor x symbol < t.num_pairs
  mixed-lt x symbol below s =
      xor_symbol-lt t.num_pairs x symbol (omega (arith, g.pairs, g.whole_blocks)) below s

  pub column-lt :
      (x symbol : ℕ) → x < t.num_pairs → symbol ≤ 32 → bit_xor x symbol / 32 < t.num_shuffle_blocks
  column-lt x symbol below s =
      omega (arith, mixed-lt x symbol below s, g.blocks, g.pairs, g.whole_blocks)

  place-lt :
      (x symbol : ℕ)
      → x < t.num_pairs
      → symbol ≤ 32
      → bit_xor x symbol % 32 * t.num_shuffle_blocks + bit_xor x symbol / 32 < t.num_pairs
  place-lt x symbol below s = omega (
    arith,
    row_and_column (bit_xor x symbol % 32) (bit_xor x symbol / 32) 32 t.num_shuffle_blocks
        (omega arith) (column-lt x symbol below s),
    g.blocks,
    g.pairs,
    g.whole_blocks,
  )

  -- The hash without its wrap-around, which never happens.
  pub accumulate_hash_lem :
      (x symbol : ℕ)
      → x < t.num_pairs
      → symbol ≤ 32
      → accumulate_hash t x symbol
        ≡ bit_xor x symbol % 32 * t.num_shuffle_blocks + bit_xor x symbol / 32
  unfolding accumulate_hash
  accumulate_hash_lem x symbol below s =
      rw (bit_and-low_mask 5)
        (mod-eq_of_lt (omega (arith, place-lt x symbol below s, g.pairs, g.addressable)))

  -- A symbol leads from a hash in range to a hash in range, and the bucket and the tag that it
  -- stands for are in range as well.
  pub accumulate_hash-lt :
      (x symbol : ℕ)
      → x < t.num_pairs
      → symbol ≤ 32
      → (accumulate_hash t x symbol < t.num_pairs)
        × (hash_to_bucket (accumulate_hash t x symbol) < t.num_buckets)
        × (hash_to_tag (accumulate_hash t x symbol) < 16)
  unfolding hash_to_bucket hash_to_tag
  accumulate_hash-lt x symbol below s =
      (in_range, omega (arith, in_range, g.pairs), rw (bit_and-low_mask 4) (omega arith))
    where
      in_range : accumulate_hash t x symbol < t.num_pairs
      in_range = rw (accumulate_hash_lem x symbol below s) (place-lt x symbol below s)
