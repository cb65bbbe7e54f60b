-- ===== src/Insertion/Defs.antt =====
-- The parts of `create_leaf` at a bitmap node, in the build without MULTITHREADING. `none` is an
-- assertion that fails.
use cuckoo_trie_vectorized.Base.{
  ℕ, zero, suc, ◌-◌, bit_or, Bool, ◌&&◌, List, Option, none, some, ◌==◌, ltb, ◌<<<◌, if◌then◌else◌,
  set, length,
}
use cuckoo_trie_vectorized.Config.{type_bitmap, type_leaf, parent_color_shift}
use cuckoo_trie_vectorized.Entry.{
  Entry, entry_type, entry_color, entry_tag, entry_set_kv, entry_set_child_bit,
}
use cuckoo_trie_vectorized.Trie.{Trie, Cell}
use cuckoo_trie_vectorized.Hash.{accumulate_hash, hash_to_bucket, hash_to_tag}
use cuckoo_trie_vectorized.Locks.{Status}
use cuckoo_trie_vectorized.Pairs.{EntryCopy}
use cuckoo_trie_vectorized.Fingers.{PathEntry, Finger}
use cuckoo_trie_vectorized.AddEntry.{add_entry}
use cuckoo_trie_vectorized.Iterators.{path_slot}
use cuckoo_trie_vectorized.Update.{update_entry_single_threaded}

-- The byte behind the bits of a bitmap node.
abbrev pub max_child : Entry → ℕ
max_child e = e.body.byte5

-- The leaf behind the predecessor in the list: the table and the copy of the predecessor.
unfoldable pub linklist_insert : Trie → EntryCopy → Entry → ℕ → Option (Trie × EntryCopy)
linklist_insert trie predecessor new_entry primary_bucket =
    update_entry_single_threaded trie predecessor (record predecessor.value {
      link = record {
        primary_bucket = primary_bucket;
        tag = entry_tag new_entry;
        color = entry_color new_entry;
      };
    })

-- The first of two leaves behind the predecessor.
unfoldable pub linklist_insert_two : Trie → EntryCopy → ℕ → ℕ → Option (Trie × EntryCopy)
linklist_insert_two trie predecessor entry_1_hash entry_1_color =
    update_entry_single_threaded trie predecessor (record predecessor.value {
      link = record {
        primary_bucket = hash_to_bucket entry_1_hash;
        tag = hash_to_tag entry_1_hash;
        color = entry_1_color;
      };
    })

-- The new leaf in its pair. `unread` is what the stack holds at the place of the leaf.
unfoldable pub create_bitmap_child :
    Entry → Trie → Finger → ℕ → ℕ → ℕ → Option (Status × Trie × Option Cell × Entry)
create_bitmap_child unread trie finger bitmap_color symbol kv =
    let child = record unread {
      parent_color_and_flags = bit_or (bitmap_color <<< parent_color_shift) type_leaf;
      last_symbol = symbol;
    } in
    add_entry trie (accumulate_hash trie finger.prefix_hash symbol) (entry_set_kv child kv)
      (some finger.containing_entry.last_pos)

unfoldable pub mark_bitmap_child : Trie → EntryCopy → ℕ → ℕ → ℕ → Option (Trie × EntryCopy)
mark_bitmap_child trie bitmap_local_copy symbol child_prefix_hash child_color =
    let marked = entry_set_child_bit bitmap_local_copy.value symbol in
    let maximal = record marked {
      body = record marked.body { byte5 = symbol };
      link = record {
        primary_bucket = hash_to_bucket child_prefix_hash;
        tag = hash_to_tag child_prefix_hash;
        color = child_color;
      };
    } in
    update_entry_single_threaded trie bitmap_local_copy
      (if ltb (max_child bitmap_local_copy.value) symbol then maximal else marked)

-- Whether the path comes from a child that is not the last one of a bitmap.
unfoldable pub comes_from_smaller : Entry → Entry → Bool
comes_from_smaller parent child =
    (entry_type parent == type_bitmap) && ltb child.last_symbol (max_child parent)

-- The loop of `propagate_max_leaf` from a position of the path on.
unfoldable pub propagate_from : ℕ → ℕ → Trie → List PathEntry → Option (Trie × List PathEntry)
unfolding comes_from_smaller
propagate_from top zero trie path = some (trie, path)
propagate_from top (suc path_pos) trie path =
    let child = (path_slot path (suc path_pos)).entry.value in
    let slot = path_slot path path_pos in
    let parent = slot.entry.value in
    if ltb top (suc path_pos)
    then (if comes_from_smaller parent child
        then some (trie, path)
        else (elim (update_entry_single_threaded trie slot.entry
            (record parent { link = child.link })) [
              | none ↦ none
              | some (trie', copy') ↦
                  propagate_from top path_pos trie'
                    (set path path_pos (record slot { entry = copy' }))
            ]))
    else some (trie, path)

unfoldable pub propagate_max_leaf : Trie → List PathEntry → ℕ → Option (Trie × List PathEntry)
unfolding propagate_from
propagate_max_leaf trie path top = propagate_from top (length path - 1) trie path
