-- ===== src/Hash/Geometry.antt =====
-- The sizes of a table, as `ct_alloc` sets them up.
use cuckoo_trie_vectorized.Base.{ℕ, ◌*◌, ◌/◌, ◌%◌, ◌^◌, ◌<◌, ◌≡◌}
use cuckoo_trie_vectorized.Hash.Defs.{mix_value}
use cuckoo_trie_vectorized.Trie.{Trie}

-- Bucket numbers fit the 32 bits of a locator, and the number of all ones is not one of them.
pub record IsGeometry (t : Trie) : Type 0 where
  pub some_buckets : 0 < t.num_buckets
  pub whole_blocks : t.num_buckets % 64 ≡ 0
  pub addressable : t.num_buckets < 2 ^ 32
  pub pairs : t.num_pairs ≡ t.num_buckets * 16
  pub blocks : t.num_shuffle_blocks ≡ t.num_pairs / 32
  pub mix_bound : (tag : ℕ) → mix_value t tag < t.num_buckets
