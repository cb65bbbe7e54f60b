-- ===== src/Tests/LookupRuns.antt =====
-- The theorems on descents and lookups at a trie of two keys.
use cuckoo_trie_vectorized.Base.{ℕ, ◌≡◌, ◌↔◌, arith, true, Option, some}
use cuckoo_trie_vectorized.Symbols.{get_string_symbol}
use cuckoo_trie_vectorized.Symbols.Key.{key_bytes}
use cuckoo_trie_vectorized.Prefetch.{symbol_count}
use cuckoo_trie_vectorized.Pairs.{still}
use cuckoo_trie_vectorized.Fingers.{init_finger, descend}
use cuckoo_trie_vectorized.Fingers.Descend
use cuckoo_trie_vectorized.Fingers.Descend.{Walked}
use cuckoo_trie_vectorized.Lookup.{ct_lookup}
use cuckoo_trie_vectorized.Lookup.Tree.{Holds}
use cuckoo_trie_vectorized.Lookup.Compare.{HasKey}
use cuckoo_trie_vectorized.Lookup.Refines
use cuckoo_trie_vectorized.Tests.TwoKeys.{
  two_keys, key_at, two_keys-IsTrie, stack_garbage, unread_entry, zeros,
}

ct_lookup_example :
    (r : Option ℕ) × (ct_lookup key_at stack_garbage unread_entry two_keys
        (λ i. still two_keys)
        zeros
        1
        40
      ≡ some r)
    × ((kv : ℕ) → (r ≡ some kv) ↔ (Holds two_keys kv × HasKey key_at zeros 1 40 kv))
ct_lookup_example =
    Refines.ct_lookup-IsAnswer key_at two_keys zeros stack_garbage unread_entry 1 40 two_keys-IsTrie
      (λ a. omega arith) (omega arith)

descend_example : Walked two_keys (get_string_symbol 1 (key_bytes zeros 40)) (symbol_count 1) true (
    descend stack_garbage two_keys
      (λ i. still two_keys)
      zeros
      (init_finger unread_entry two_keys).0
      1
      40
      true)
descend_example =
    Descend.descend-Walked two_keys two_keys (λ i. still two_keys) zeros stack_garbage unread_entry
      1 40 true (λ a. omega arith) (omega arith)
