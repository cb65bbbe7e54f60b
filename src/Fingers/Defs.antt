-- ===== src/Fingers/Defs.antt =====
-- `ct_finger` and the functions of main_vectorized.c that walk it down the trie. The lock manager
-- of a finger is a state of its own. Another thread may write between two searches: each search
-- has a view of its own.
use cuckoo_trie_vectorized.Base.{
  ℕ, zero, suc, Bool, true, false, List, [], ◌∷◌, ◌++◌, Option, none, some, ◌==◌, if◌then◌else◌,
}
use cuckoo_trie_vectorized.Config.{symbol_end, hash_start_value, type_leaf, type_jump}
use cuckoo_trie_vectorized.Entry.{
  Entry, entry_type, entry_color, entry_jump_size, entry_child_color,
}
use cuckoo_trie_vectorized.Trie.{Trie, Cell}
use cuckoo_trie_vectorized.Hash.{hash_to_bucket, hash_to_tag, accumulate_hash}
use cuckoo_trie_vectorized.BitString.{get_bit}
use cuckoo_trie_vectorized.Symbols.{Memory, get_jump_symbol, jump_bits}
use cuckoo_trie_vectorized.Prefetch.{KeyPrefetcher, prefetcher_start, prefetcher_step, symbol_count}
use cuckoo_trie_vectorized.Pairs.{
  EntryCopy, View, find_entry_in_pair_by_color, find_entry_in_pair_by_parent, find_root,
}

-- `ct_path_entry`
pub record PathEntry : Type 0 where
  pub entry : EntryCopy
  pub prefix_hash : ℕ

-- `path` is the used part of the array: `last_path_entry` is its last entry. The array has
-- MAX_KEY_SYMBOLS = 410 elements and no write to it is checked, so the list is the array only while
-- it is no longer: on the path of a key of at most 255 bytes.
pub record Finger : Type 0 where
  pub containing_entry : EntryCopy
  pub path : List PathEntry
  pub prefix_hash : ℕ
  pub last_prefix_symbol : ℕ
  pub prefix_len : ℕ
  pub depth_in_jump : ℕ

unfoldable pub store_path_entry : Finger → Finger
store_path_entry finger =
    let slot : PathEntry = record {
      entry = finger.containing_entry;
      prefix_hash = finger.prefix_hash;
    } in
    record finger { path = finger.path ++ slot ∷ [] }

abbrev pub root_last_symbol : ℕ
root_last_symbol = 0

abbrev pub at_root : EntryCopy → Finger
at_root copy = store_path_entry (record {
  containing_entry = copy;
  path = [];
  prefix_hash = hash_start_value;
  last_prefix_symbol = root_last_symbol;
  prefix_len = 0;
  depth_in_jump = 0;
})

-- The finger, and the root's address if there is a root. `unread` is what the stack holds at the
-- place of `containing_entry`.
unfoldable pub init_finger : EntryCopy → Trie → Finger × Option Cell
unfolding find_root store_path_entry
init_finger unread trie =
    if trie.is_empty
    then (at_root unread, none)
    else (at_root (find_root trie), some (find_root trie).last_pos)

unfoldable pub finger_extend_prefix_known_hash : Finger → ℕ → ℕ → Finger
finger_extend_prefix_known_hash finger symbol new_hash = record finger {
  prefix_hash = new_hash;
  last_prefix_symbol = symbol;
  prefix_len = suc finger.prefix_len;
}

unfoldable pub finger_extend_prefix : Finger → Trie → ℕ → Finger
unfolding finger_extend_prefix_known_hash
finger_extend_prefix finger trie symbol =
    let new_hash = accumulate_hash trie finger.prefix_hash symbol in
    finger_extend_prefix_known_hash finger symbol new_hash

unfoldable pub finger_node_changed : Finger → Bool → Finger
unfolding store_path_entry
finger_node_changed finger extend_path =
    let top = record finger { depth_in_jump = 0 } in
    if extend_path then store_path_entry top else top

-- `child_bitmap` of a bitmap node shares its bytes with `jump_bits`.
abbrev pub child_bitmap : Entry → List ℕ
child_bitmap e = jump_bits e

-- What `try_descend` returns: 0, or 1 with the finger one symbol on. A search that gives up is an
-- assertion that fails.
pub data Attempt : Type 0 where
  refused : Attempt
  moved : Finger → Attempt
  lost : Attempt

-- The finger on the node that a search returned.
unfoldable pub arrive_at : Finger → Bool → Option EntryCopy → Attempt
unfolding finger_node_changed
arrive_at finger save_path none = lost
arrive_at finger save_path (some copy) =
    moved (finger_node_changed (record finger { containing_entry = copy }) save_path)

unfoldable pub descend_jump : Trie → View → Finger → ℕ → Bool → ℕ → Attempt
unfolding arrive_at finger_extend_prefix_known_hash
descend_jump trie view finger symbol save_path expected_hash =
    let containing_entry = finger.containing_entry.value in
    let extended = finger_extend_prefix_known_hash finger symbol expected_hash in
    let deeper = record extended { depth_in_jump = suc finger.depth_in_jump } in
    if get_jump_symbol containing_entry finger.depth_in_jump == symbol
    then (if suc finger.depth_in_jump == entry_jump_size containing_entry
        then arrive_at deeper save_path (
            find_entry_in_pair_by_color trie view (hash_to_bucket expected_hash)
              (hash_to_tag expected_hash) (entry_child_color containing_entry))
        else moved deeper)
    else refused

unfoldable pub descend_bitmap : Trie → View → Finger → ℕ → Bool → ℕ → Attempt
unfolding arrive_at finger_extend_prefix_known_hash
descend_bitmap trie view finger symbol save_path expected_hash =
    let containing_entry = finger.containing_entry.value in
    let extended = finger_extend_prefix_known_hash finger symbol expected_hash in
    if get_bit (child_bitmap containing_entry) symbol
    then arrive_at extended save_path (
        find_entry_in_pair_by_parent trie view (hash_to_bucket expected_hash)
          (hash_to_tag expected_hash) symbol (entry_color containing_entry))
    else refused

unfoldable pub try_descend : Trie → View → Finger → ℕ → Bool → ℕ → Attempt
unfolding descend_jump descend_bitmap
try_descend trie view finger symbol save_path expected_hash =
    if entry_type finger.containing_entry.value == type_leaf
    then refused
    else (if entry_type finger.containing_entry.value == type_jump
        then descend_jump trie view finger symbol save_path expected_hash
        else descend_bitmap trie view finger symbol save_path expected_hash)

-- How `descend` ends: at a symbol that it could not descend, or behind the END symbol, which is
-- the -1 of the source.
pub data Descent : Type 0 where
  stopped : ℕ → Finger → Descent
  arrived : Finger → Descent
  gave_up : Descent
  out_of_fuel : Descent

-- A round behind the attempt.
unfoldable pub proceed : (Finger → Descent) → Finger → ℕ → Attempt → Descent
proceed rest finger symbol refused = stopped symbol finger
proceed rest finger symbol (moved finger') = elim (symbol == symbol_end) [
  | true ↦ arrived finger'
  | false ↦ rest finger'
]
proceed rest finger symbol lost = gave_up

-- The loop of `descend`. `views i` is what the search at the prefix of `i` symbols sees.
unfoldable pub descend_rounds : ℕ → Trie → (ℕ → View) → KeyPrefetcher → Finger → Bool → Descent
descend_rounds zero trie views prefetcher finger track_path = out_of_fuel
descend_rounds (suc fuel) trie views prefetcher finger track_path =
    let stepped = prefetcher_step prefetcher trie in
    let symbol = stepped.key_symbols finger.prefix_len in
    proceed (λ finger'. descend_rounds fuel trie views stepped finger' track_path) finger symbol
      (try_descend trie (views finger.prefix_len) finger symbol track_path
        (stepped.prefix_hashes finger.prefix_len))

-- `uninitialized` is what the stack holds at the place of the prefetcher. As many rounds as the
-- key has symbols are enough.
unfoldable pub descend :
    KeyPrefetcher → Trie → (ℕ → View) → Memory → Finger → ℕ → ℕ → Bool → Descent
descend uninitialized trie views memory finger key_size key_bytes track_path =
    descend_rounds (symbol_count key_size) trie views
      (prefetcher_start uninitialized trie memory key_size key_bytes) finger track_path
