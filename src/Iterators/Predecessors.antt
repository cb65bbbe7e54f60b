-- ===== src/Iterators/Predecessors.antt =====
-- The predecessor of a key in the list of leaves, for a finger whose path is tracked, in the build
-- without MULTITHREADING, where an entry on the path that changed is an assertion that fails. A
-- position in the path is its index. `none` is an assertion that fails.
use cuckoo_trie_vectorized.Base.{
  ℕ, zero, suc, Bool, true, ◌&&◌, List, [], ◌∷◌, Option, none, some, ◌==◌, if◌then◌else◌, get_or,
  drop,
}
use cuckoo_trie_vectorized.Config.{type_leaf, type_bitmap}
use cuckoo_trie_vectorized.Entry.{Entry, Locator, entry_type, entry_color}
use cuckoo_trie_vectorized.Trie.{Trie, entry_at, zero_entry}
use cuckoo_trie_vectorized.Hash.{hash_to_bucket, hash_to_tag, accumulate_hash}
use cuckoo_trie_vectorized.BitString.{last_bit_before}
use cuckoo_trie_vectorized.Pairs.{
  EntryCopy, still, entries_equal, read_min_leaf, find_entry_in_pair_by_color,
  find_entry_in_pair_by_parent,
}
use cuckoo_trie_vectorized.Fingers.{PathEntry, Finger, child_bitmap}

unfoldable pub locator_to_entry : Trie → Locator → Option EntryCopy
locator_to_entry trie locator =
    find_entry_in_pair_by_color trie (still trie) locator.primary_bucket locator.tag locator.color

-- `none` is the -1 of the source.
unfoldable pub bitmap_child_before : Entry → ℕ → Option ℕ
bitmap_child_before bitmap_node symbol = last_bit_before (child_bitmap bitmap_node) symbol

-- Places behind the end of a path are never read.
abbrev pub path_slot : List PathEntry → ℕ → PathEntry
path_slot path i = get_or path i (record {
  entry = record {
    value = zero_entry;
    last_pos = record { bucket = 0; index = 0 };
    last_seq = 0;
    primary_bucket = 0;
  };
  prefix_hash = 0;
})

-- The rest of `find_left_descend` once no child of the bitmap at a position is left of the path: the
-- position above it of a bitmap with such a child, and the last such child.
unfoldable pub ascend_left : List PathEntry → ℕ → Option (ℕ × ℕ)
unfolding bitmap_child_before
ascend_left path zero = none
ascend_left path (suc path_pos) =
    let rest = ascend_left path path_pos in
    let entry = (path_slot path path_pos).entry.value in
    let backtrack_symbol = (path_slot path (suc path_pos)).entry.value.last_symbol in
    if entry_type entry == type_bitmap
    then (elim (bitmap_child_before entry backtrack_symbol) [
      | none ↦ rest
      | some prev_child_symbol ↦ some (path_pos, prev_child_symbol)
    ])
    else rest

-- `none` is the NULL of the source.
unfoldable pub find_left_descend : List PathEntry → ℕ → ℕ → Option (ℕ × ℕ)
unfolding ascend_left
find_left_descend path path_pos symbol =
    elim (bitmap_child_before (path_slot path path_pos).entry.value symbol) [
      | some prev_child_symbol ↦ some (path_pos, prev_child_symbol)
      | none ↦ ascend_left path path_pos
    ]

-- `subtree[0]` of `ct_pred_locator`, whose finger is passed along.
pub record PredLocator : Type 0 where
  pub path_pos : ℕ
  pub primary_bucket : ℕ
  pub parent_color : ℕ
  pub last_symbol : ℕ
  pub tag : ℕ

-- `none` is the invalid locator, with the primary bucket -1. The hint to the cache changes no state.
unfoldable pub prefetch_path_child_predecessor : Trie → Finger → ℕ → ℕ → Option PredLocator
unfolding find_left_descend
prefetch_path_child_predecessor trie finger path_pos symbol =
    elim (find_left_descend finger.path path_pos symbol) [
      | none ↦ none
      | some (bitmap_path_pos, left_symbol) ↦
          let bitmap_prefix_hash = (path_slot finger.path bitmap_path_pos).prefix_hash in
          let child_prefix_hash = accumulate_hash trie bitmap_prefix_hash left_symbol in
          some (record {
            path_pos = bitmap_path_pos;
            primary_bucket = hash_to_bucket child_prefix_hash;
            parent_color = entry_color (path_slot finger.path bitmap_path_pos).entry.value;
            last_symbol = left_symbol;
            tag = hash_to_tag child_prefix_hash;
          })
    ]

-- Whether no assertion of `validate_entry` fails. It compares the bytes in this build.
unfoldable pub validate_entry_single_threaded : Trie → EntryCopy → Bool
validate_entry_single_threaded trie local_copy =
    entries_equal (entry_at trie local_copy.last_pos) local_copy.value

unfoldable pub validate_path_single_threaded : Trie → List PathEntry → Bool
unfolding validate_entry_single_threaded
validate_path_single_threaded trie [] = true
validate_path_single_threaded trie (slot ∷ rest) =
    validate_entry_single_threaded trie slot.entry && validate_path_single_threaded trie rest

-- The predecessor under the node that the locator describes, or `some none` where the source
-- returns 0. `entry_dirty` is 0 in this build.
unfoldable pub predecessor_under :
    Trie → Finger → PredLocator → EntryCopy → Option (Option EntryCopy)
unfolding validate_path_single_threaded locator_to_entry
predecessor_under trie finger locator subtree_root =
    let unchanged = validate_path_single_threaded trie (drop locator.path_pos finger.path) in
    let below = locator_to_entry trie subtree_root.value.link in
    if entry_type subtree_root.value == type_leaf
    then (if unchanged then some (some subtree_root) else none)
    else (elim below [
      | none ↦ none
      | some result ↦
          if entry_type result.value == type_leaf
          then (if unchanged && validate_entry_single_threaded trie subtree_root
              then some (some result)
              else none)
          else some none
    ])

unfoldable pub get_predecessor_atomic :
    Trie → Finger → Option PredLocator → Option (Option EntryCopy)
unfolding predecessor_under
get_predecessor_atomic trie finger none =
    if validate_path_single_threaded trie finger.path
    then some (some (read_min_leaf trie))
    else none
get_predecessor_atomic trie finger (some locator) =
    elim (find_entry_in_pair_by_parent trie (still trie) locator.primary_bucket locator.tag
      locator.last_symbol locator.parent_color) [
        | none ↦ none
        | some subtree_root ↦ predecessor_under trie finger locator subtree_root
      ]
