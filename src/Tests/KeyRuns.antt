-- ===== src/Tests/KeyRuns.antt =====
-- The order of keys at two keys, of which one is the beginning of the other.
use cuckoo_trie_vectorized.Base.{◌≡◌, arith, [], ◌∷◌}
use cuckoo_trie_vectorized.Keys.{Kv, equal, kv_key_compare}
use cuckoo_trie_vectorized.Keys.Order
use cuckoo_trie_vectorized.Keys.Order.{IsKv, lexicographic, key_of, opposite}

abbrev short_key : Kv
short_key = record { key_size = 2; value_size = 1; bytes = 7 ∷ 9 ∷ 255 ∷ [] }

abbrev long_key : Kv
long_key = record { key_size = 3; value_size = 0; bytes = 7 ∷ 9 ∷ 1 ∷ [] }

kv_key_compare_example :
    (kv_key_compare short_key long_key ≡ lexicographic (key_of short_key) (key_of long_key))
    × (kv_key_compare short_key long_key ≡ equal → key_of short_key ≡ key_of long_key)
    × (kv_key_compare long_key short_key ≡ opposite (kv_key_compare short_key long_key))
kv_key_compare_example =
    Order.kv_key_compare-lexicographic short_key long_key
      (record { size_fits = omega arith; bytes_there = omega arith })
      (record { size_fits = omega arith; bytes_there = omega arith })
