-- ===== src/Lookup/Defs.antt =====
-- `ct_lookup` of main_vectorized.c. `none` is an assertion that fails, among them that of a search
-- that gives up; NULL is `some none`.
use cuckoo_trie_vectorized.Base.{
  ℕ, zero, suc, ◌+◌, false, List, [], ◌∷◌, Option, none, some, ◌==◌, if◌then◌else◌,
}
use cuckoo_trie_vectorized.Config.{type_leaf}
use cuckoo_trie_vectorized.Entry.{entry_type, entry_kv}
use cuckoo_trie_vectorized.Trie.{Trie, Cell}
use cuckoo_trie_vectorized.Symbols.{Memory}
use cuckoo_trie_vectorized.Keys.{Kv, Sign, less, equal, greater, kv_key_compare_to}
use cuckoo_trie_vectorized.Prefetch.{KeyPrefetcher}
use cuckoo_trie_vectorized.Pairs.{EntryCopy, View}
use cuckoo_trie_vectorized.Fingers.{
  Finger, Descent, stopped, arrived, gave_up, out_of_fuel, init_finger, descend,
}

-- The key object at each address.
abbrev pub Objects : Type 0
Objects = ℕ → Kv

-- The bytes of an array in memory.
unfoldable pub bytes_at : Memory → ℕ → ℕ → List ℕ
bytes_at memory from zero = []
bytes_at memory from (suc n) = memory from ∷ bytes_at memory (from + 1) n

abbrev pub if_equal : Sign → ℕ → Option ℕ
if_equal equal kv = some kv
if_equal less kv = none
if_equal greater kv = none

-- What `ct_lookup` returns after the descent.
unfoldable pub lookup_result : Objects → ℕ → List ℕ → Descent → Option (Option ℕ)
lookup_result kv_at key_size key (arrived finger) =
    if entry_type finger.containing_entry.value == type_leaf
    then some (some (entry_kv finger.containing_entry.value))
    else none
lookup_result kv_at key_size key (stopped symbol finger) =
    let leaf_kv = entry_kv finger.containing_entry.value in
    if entry_type finger.containing_entry.value == type_leaf
    then some (if_equal (kv_key_compare_to (kv_at leaf_kv) key_size key) leaf_kv)
    else some none
lookup_result kv_at key_size key gave_up = none
lookup_result kv_at key_size key out_of_fuel = none

-- What follows `init_finger`.
unfoldable pub lookup_from :
    Objects
    → KeyPrefetcher
    → Trie
    → (ℕ → View)
    → Memory
    → ℕ
    → ℕ
    → Finger × Option Cell
    → Option (Option ℕ)
unfolding lookup_result bytes_at
lookup_from kv_at uninitialized trie views memory key_size key_bytes (finger, none) = some none
lookup_from kv_at uninitialized trie views memory key_size key_bytes (finger, some root) =
    lookup_result kv_at key_size (bytes_at memory key_bytes key_size)
      (descend uninitialized trie views memory finger key_size key_bytes false)

unfoldable pub ct_lookup :
    Objects → KeyPrefetcher → EntryCopy → Trie → (ℕ → View) → Memory → ℕ → ℕ → Option (Option ℕ)
unfolding lookup_from
ct_lookup kv_at uninitialized unread trie views memory key_size key_bytes =
    lookup_from kv_at uninitialized trie views memory key_size key_bytes (init_finger unread trie)
