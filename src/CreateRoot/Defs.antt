-- ===== src/CreateRoot/Defs.antt =====
-- `create_root`, in the build without MULTITHREADING, where `write_lock_bucket` does nothing and
-- succeeds.
use cuckoo_trie_vectorized.Base.{ℕ, bit_or, false, ◌<<<◌, if◌then◌else◌, ◌-◌, ◌^◌}
use cuckoo_trie_vectorized.Config.{
  invalid_color, parent_color_shift, type_leaf, root_color, tag_bits, hash_start_value,
}
use cuckoo_trie_vectorized.Entry.{Entry, entry_set_kv}
use cuckoo_trie_vectorized.Trie.{Trie, Cell, entry_at}
use cuckoo_trie_vectorized.Hash.{hash_to_bucket, hash_to_tag}
use cuckoo_trie_vectorized.Alloc.{trie_min_leaf}
use cuckoo_trie_vectorized.Locks.{Status, si_ok, si_exists}
use cuckoo_trie_vectorized.Relocate.{set_entry}

abbrev pub root_tag : ℕ
root_tag = hash_to_tag hash_start_value

-- The root is a leaf, and the last one of the list. `unread` is what the stack holds at its place.
unfoldable pub root_leaf : Entry → ℕ → Entry
root_leaf unread kv =
    let with_header = record unread {
      parent_color_and_flags = bit_or (invalid_color <<< parent_color_shift) type_leaf;
      color_and_tag = bit_or (root_color <<< tag_bits) root_tag;
    } in
    let with_kv = entry_set_kv with_header kv in
    record with_kv { link = record with_kv.link { primary_bucket = 2 ^ 32 - 1 } }

-- The head of the list in front of the root.
unfoldable pub before_root : Entry → Entry
before_root min_leaf = record min_leaf {
  link = record {
    primary_bucket = hash_to_bucket hash_start_value;
    tag = root_tag;
    color = root_color;
  };
}

-- The status and the table behind it.
unfoldable pub create_root : Entry → Trie → ℕ → Status × Trie
unfolding root_leaf before_root
create_root unread trie kv =
    let root_pos : Cell = record { bucket = hash_to_bucket hash_start_value; index = 0 } in
    let rooted = set_entry trie root_pos (root_leaf unread kv) in
    let head = trie_min_leaf rooted in
    let listed = set_entry rooted head (before_root (entry_at rooted head)) in
    if trie.is_empty then (si_ok, record listed { is_empty = false }) else (si_exists, trie)
