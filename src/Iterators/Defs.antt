-- ===== src/Iterators/Defs.antt =====
-- `ct_iter_goto` and `ct_iter_next`, in the build without MULTITHREADING, where SI_RETRY is an
-- assertion that fails. `none` is an assertion that fails.
use cuckoo_trie_vectorized.Base.{
  ℕ, zero, suc, ◌+◌, ◌-◌, ◌^◌, Bool, true, false, List, Option, none, some, ◌==◌, ltb,
  if◌then◌else◌, length,
}
use cuckoo_trie_vectorized.Config.{type_leaf, type_bitmap}
use cuckoo_trie_vectorized.Entry.{entry_type, entry_kv}
use cuckoo_trie_vectorized.Trie.{Trie, Cell}
use cuckoo_trie_vectorized.Symbols.{Memory, get_jump_symbol}
use cuckoo_trie_vectorized.Keys.{Sign, less, equal, greater, kv_key_compare_to}
use cuckoo_trie_vectorized.Prefetch.{KeyPrefetcher, prefetcher_start, prefetcher_step, symbol_count}
use cuckoo_trie_vectorized.Locks.{Status, si_ok, si_retry}
use cuckoo_trie_vectorized.Pairs.{EntryCopy, still, read_min_leaf}
use cuckoo_trie_vectorized.Fingers.{Finger, refused, moved, lost, init_finger, try_descend}
use cuckoo_trie_vectorized.Lookup.{Objects, bytes_at}
use cuckoo_trie_vectorized.Iterators.Predecessors.{
  PredLocator, locator_to_entry, path_slot, prefetch_path_child_predecessor,
  validate_entry_single_threaded, get_predecessor_atomic,
}

-- `ct_iter`. There is one list, so `leaves` has one entry. The trie is passed along.
pub record Iter : Type 0 where
  pub is_exhausted : Bool
  pub report_current : Bool
  pub leaf : EntryCopy

-- The `(uint32_t)-1` that ends the list.
abbrev pub no_bucket : ℕ
no_bucket = 2 ^ 32 - 1

unfoldable pub ct_iter_next_internal : Trie → Iter → Option (Status × Iter)
ct_iter_next_internal trie iter = elim (locator_to_entry trie iter.leaf.value.link) [
  | none ↦ none
  | some new_leaf ↦
      if entry_type new_leaf.value == type_leaf
      then some (si_ok, record iter { leaf = new_leaf })
      else some (si_retry, iter)
]

-- `assert(result == SI_OK)`
unfoldable pub assert_ok : Option (Status × Iter) → Option Iter
assert_ok none = none
assert_ok (some (si_ok, iter)) = some iter
assert_ok (some (status, iter)) = none

unfoldable pub next_leaf : Option Iter → Option (Option ℕ × Iter)
next_leaf none = none
next_leaf (some iter) = some (some (entry_kv iter.leaf.value), iter)

unfoldable pub ct_iter_next : Trie → Iter → Option (Option ℕ × Iter)
unfolding next_leaf assert_ok ct_iter_next_internal
ct_iter_next trie iter =
    if iter.is_exhausted
    then some (none, iter)
    else (if iter.report_current
        then some (some (entry_kv iter.leaf.value), record iter { report_current = false })
        else (if iter.leaf.value.link.primary_bucket == no_bucket
            then some (none, record iter { is_exhausted = true })
            else next_leaf (assert_ok (ct_iter_next_internal trie iter))))

-- What the loop over the key's symbols leaves: the finger, `last_bitmap_path_pos` and `symbol`.
pub record Walk : Type 0 where
  pub finger : Finger
  pub last_bitmap_path_pos : Option ℕ
  pub symbol : ℕ

-- The loop, by the rounds left.
unfoldable pub goto_rounds : ℕ → Trie → KeyPrefetcher → ℕ → Walk → Option Walk
goto_rounds zero trie prefetcher depth w = some w
goto_rounds (suc rounds) trie prefetcher depth w =
    let stepped = prefetcher_step prefetcher trie in
    let symbol = stepped.key_symbols depth in
    let seen : Walk = record {
      finger = w.finger;
      last_bitmap_path_pos =
          if entry_type w.finger.containing_entry.value == type_bitmap
          then some (length w.finger.path - 1)
          else w.last_bitmap_path_pos;
      symbol = symbol;
    } in
    elim (try_descend trie (still trie) w.finger symbol true (stepped.prefix_hashes depth)) [
      | refused ↦ some seen
      | moved finger ↦ goto_rounds rounds trie stepped (suc depth) (record seen { finger = finger })
      | lost ↦ none
    ]

abbrev pub is_less : Sign → Bool
is_less less = true
is_less equal = false
is_less greater = false

-- Whether the key is before all keys under the lowest node on its path, or is the key of that leaf.
unfoldable pub is_before_longest_prefix : Objects → List ℕ → ℕ → Walk → Bool
is_before_longest_prefix kv_at key key_size w =
    let longest_prefix = w.finger.containing_entry.value in
    if entry_type longest_prefix == type_leaf
    then (if is_less (kv_key_compare_to (kv_at (entry_kv longest_prefix)) key_size key)
        then false
        else true)
    else ltb w.symbol (get_jump_symbol longest_prefix w.finger.depth_in_jump)

-- The iterator on the predecessor.
unfoldable pub place_after : Iter → Option (Option EntryCopy) → Option (Status × Iter)
place_after iter none = none
place_after iter (some none) = some (si_retry, iter)
place_after iter (some (some leaf)) = some (si_ok, record iter { leaf = leaf })

-- No bitmap is on the path. `entry_dirty` is 0 in this build.
unfoldable pub goto_without_bitmap : Trie → Iter → Bool → Option (Status × Iter)
unfolding validate_entry_single_threaded
goto_without_bitmap trie iter before =
    let leaf = read_min_leaf trie in
    let placed = record iter { leaf = leaf } in
    if before
    then (if validate_entry_single_threaded trie leaf then some (si_ok, placed) else none)
    else some (si_ok, record iter { is_exhausted = true })

-- What follows the loop.
unfoldable pub goto_predecessor :
    Objects → Trie → Memory → Iter → ℕ → ℕ → Option Walk → Option (Status × Iter)
unfolding place_after goto_without_bitmap is_before_longest_prefix
goto_predecessor kv_at trie memory iter key_size key_bytes none = none
goto_predecessor kv_at trie memory iter key_size key_bytes (some w) =
    let finger = w.finger in
    let before = is_before_longest_prefix kv_at (bytes_at memory key_bytes key_size) key_size w in
    let placed = λ (predecessor : Option PredLocator).
      place_after iter (get_predecessor_atomic trie finger predecessor) in
    if entry_type finger.containing_entry.value == type_bitmap
    then placed (prefetch_path_child_predecessor trie finger (length finger.path - 1) w.symbol)
    else (elim w.last_bitmap_path_pos [
      | none ↦ goto_without_bitmap trie iter before
      | some last ↦
          let last_bitmap_child = (path_slot finger.path (suc last)).entry.value.last_symbol in
          placed (
            prefetch_path_child_predecessor trie finger last
              (if before then last_bitmap_child else last_bitmap_child + 1))
    ])

unfoldable pub goto_from :
    Objects
    → KeyPrefetcher
    → Trie
    → Memory
    → Iter
    → ℕ
    → ℕ
    → Finger × Option Cell
    → Option (Status × Iter)
unfolding goto_rounds goto_predecessor
goto_from kv_at uninitialized trie memory iter key_size key_bytes (finger, none) =
    some (si_ok, record iter { is_exhausted = true })
goto_from kv_at uninitialized trie memory iter key_size key_bytes (finger, some root) =
    if key_size == 0
    then some (si_ok, record iter { leaf = read_min_leaf trie })
    else goto_predecessor kv_at trie memory iter key_size key_bytes (
        goto_rounds (symbol_count key_size) trie
          (prefetcher_start uninitialized trie memory key_size key_bytes) 0
          (record { finger = finger; last_bitmap_path_pos = none; symbol = 2 ^ 64 - 1 }))

unfoldable pub ct_iter_goto_internal :
    Objects → KeyPrefetcher → EntryCopy → Trie → Memory → Iter → ℕ → ℕ → Option (Status × Iter)
unfolding goto_from
ct_iter_goto_internal kv_at uninitialized unread trie memory iter key_size key_bytes =
    goto_from kv_at uninitialized trie memory (record iter { is_exhausted = false }) key_size
      key_bytes (init_finger unread trie)

unfoldable pub goto_advanced : Option Iter → Option Iter
goto_advanced none = none
goto_advanced (some iter) = some (record iter { report_current = true })

-- What `ct_iter_goto` does with the leaf where it placed the iterator.
unfoldable pub goto_finish : Trie → Option Iter → Option Iter
unfolding goto_advanced
goto_finish trie none = none
goto_finish trie (some iter) =
    if iter.leaf.value.link.primary_bucket == no_bucket
    then some (record iter { is_exhausted = true })
    else (if iter.is_exhausted
        then some iter
        else goto_advanced (assert_ok (ct_iter_next_internal trie iter)))

unfoldable pub ct_iter_goto :
    Objects → KeyPrefetcher → EntryCopy → Trie → Memory → Iter → ℕ → ℕ → Option Iter
unfolding goto_finish ct_iter_goto_internal
ct_iter_goto kv_at uninitialized unread trie memory iter key_size key_bytes = goto_finish trie (
    assert_ok
      (ct_iter_goto_internal kv_at uninitialized unread trie memory iter key_size key_bytes))
