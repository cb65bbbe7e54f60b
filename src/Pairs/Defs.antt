-- ===== src/Pairs/Defs.antt =====
-- The search of a pair of buckets, and the updates of an entry that was read before.
--
-- A search looks at its buckets one after the other while other threads write: a `View` is what
-- it sees at each look, of each bucket. An update runs in buckets that the thread has locked, so
-- it acts on a table that nobody else changes. `none` is an assertion that fails.
use cuckoo_trie_vectorized.Base.{
  ℕ, zero, suc, ◌+◌, ◌-◌, ◌*◌, ◌/◌, ◌^◌, bit_and, bit_or, Bool, true, false, ◌&&◌, List, Option,
  none, some, ◌==◌, if◌then◌else◌, set, u32, ◌∷◌, [],
}
use cuckoo_trie_vectorized.Config.{seq_increment, flag_secondary_bucket, hash_start_value}
use cuckoo_trie_vectorized.Entry.{
  Entry, entry_tag, entry_color, entry_set_dirty, entry_set_clean, entry_bits, header_qword,
}
use cuckoo_trie_vectorized.Trie.{Trie, Cell, bucket_at, set_bucket, entry_at, unused_entry}
use cuckoo_trie_vectorized.Hash.{hash_to_bucket, hash_to_tag, mix_bucket}
use cuckoo_trie_vectorized.Alloc.{trie_min_leaf}
use cuckoo_trie_vectorized.Locks.{BucketWriteLock, find_write_lock, masked_seq}
use cuckoo_trie_vectorized.Search.{
  SeenBucket, LocalCopy, find_entry_in_bucket_by_color_vectorized,
  find_entry_in_bucket_by_parent_vectorized,
}

-- `ct_entry_local_copy`
pub record EntryCopy : Type 0 where
  pub value : Entry
  pub last_pos : Cell
  pub last_seq : ℕ
  pub primary_bucket : ℕ

-- What look number `t` sees of a bucket.
abbrev pub View : Type 0
View = ℕ → ℕ → SeenBucket

-- A table that stays as it is.
abbrev pub still : Trie → View
still trie t b =
    let bucket = bucket_at trie b in
    record {
      start_counter = bucket.write_lock_and_seq;
      cells = bucket.cells;
      end_counter = bucket.write_lock_and_seq;
    }

abbrev pub placed : ℕ → ℕ → LocalCopy → EntryCopy
placed b primary copy = record {
  value = copy.value;
  last_pos = record { bucket = b; index = copy.index };
  last_seq = copy.last_seq;
  primary_bucket = primary;
}

-- The loop over the pair, from look `t` on, with the rounds that `assert(count < 100)` leaves.
unfoldable pub search_pair :
    (SeenBucket → Bool → Option LocalCopy) → View → ℕ → ℕ → ℕ → ℕ → Option EntryCopy
search_pair search view primary secondary zero t = none
search_pair search view primary secondary (suc rounds) t = elim (search (view t primary) false) [
  | some copy ↦ some (placed primary primary copy)
  | none ↦ elim (search (view (suc t) secondary) true) [
    | some copy ↦ some (placed secondary primary copy)
    | none ↦ search_pair search view primary secondary rounds (suc (suc t))
  ]
]

unfoldable pub find_entry_in_pair_by_color : Trie → View → ℕ → ℕ → ℕ → Option EntryCopy
find_entry_in_pair_by_color trie view primary tag color =
    search_pair
      (λ (seen : SeenBucket) (is_secondary : Bool).
        find_entry_in_bucket_by_color_vectorized seen is_secondary tag color)
      view primary (mix_bucket trie primary tag) 100 0

unfoldable pub find_entry_in_pair_by_parent : Trie → View → ℕ → ℕ → ℕ → ℕ → Option EntryCopy
find_entry_in_pair_by_parent trie view primary tag last_symbol parent_color =
    search_pair
      (λ (seen : SeenBucket) (is_secondary : Bool).
        find_entry_in_bucket_by_parent_vectorized seen is_secondary tag last_symbol parent_color)
      view primary (mix_bucket trie primary tag) 100 0

-- The entry at a cell with the counter of its bucket, as `read_entry` gives them.
unfoldable pub read_entry_at : Trie → Cell → ℕ → EntryCopy
read_entry_at trie pos primary = record {
  value = entry_at trie pos;
  last_pos = pos;
  last_seq = (bucket_at trie pos.bucket).write_lock_and_seq;
  primary_bucket = primary;
}

unfoldable pub find_root : Trie → EntryCopy
find_root trie =
    let root_primary_bucket = hash_to_bucket hash_start_value in
    read_entry_at trie (record { bucket = root_primary_bucket; index = 0 }) root_primary_bucket

-- The primary bucket is `-1ULL`.
unfoldable pub read_min_leaf : Trie → EntryCopy
read_min_leaf trie = read_entry_at trie (trie_min_leaf trie) (2 ^ 64 - 1)

-- The two QWORDs that begin and end an entry: they overlap in one byte.
unfoldable pub entries_equal : Entry → Entry → Bool
entries_equal a b =
    (header_qword a == header_qword b) && (entry_bits a / 2 ^ 56 == entry_bits b / 2 ^ 56)

unfoldable pub validate_entry : Trie → EntryCopy → Bool
validate_entry trie copy =
    masked_seq (bucket_at trie copy.last_pos.bucket).write_lock_and_seq == masked_seq copy.last_seq

-- The entries of a path, from one position of it to its last.
unfoldable pub validate_path_from : Trie → List EntryCopy → Bool
validate_path_from trie [] = true
validate_path_from trie (copy ∷ rest) = validate_entry trie copy && validate_path_from trie rest

-- The cell and the counter after `write_entry`, and the counter that it returns. Its assertions
-- are that no write is in progress and that the bucket is locked.
unfoldable pub write_entry : Trie → Cell → Entry → Option (Trie × ℕ)
write_entry trie pos src =
    let bucket = bucket_at trie pos.bucket in
    let seq = bucket.write_lock_and_seq in
    let new_seq = u32 (seq + 2 * seq_increment) in
    let cells = set bucket.cells pos.index src in
    if bit_and seq seq_increment == 0
    then (if bit_and seq 1 == 0
        then none
        else some (
          set_bucket trie pos.bucket (record { cells = cells; write_lock_and_seq = new_seq }),
          new_seq,
        ))
    else none

-- `new_value` with the secondary flag of the entry as it stands now.
unfoldable pub adjusted : Entry → Entry → Entry
adjusted new_value current = record new_value {
  parent_color_and_flags =
      bit_or (bit_and new_value.parent_color_and_flags (0xFF - flag_secondary_bucket))
        (bit_and current.parent_color_and_flags flag_secondary_bucket);
}

unfoldable pub update_entry_slow_path : Trie → EntryCopy → Entry → Option (Trie × EntryCopy)
update_entry_slow_path trie copy new_value =
    elim (find_entry_in_pair_by_color trie (still trie) copy.primary_bucket (entry_tag copy.value)
      (entry_color copy.value)) [
        | none ↦ none
        | some found ↦
            let value = adjusted new_value (entry_at trie found.last_pos) in
            elim (write_entry trie found.last_pos value) [
              | none ↦ none
              | some (trie', new_seq) ↦ some (
                trie',
                record copy { value = value; last_pos = found.last_pos; last_seq = new_seq },
              )
            ]
      ]

unfoldable pub update_entry : Trie → EntryCopy → Entry → Option (Trie × EntryCopy)
unfolding update_entry_slow_path
update_entry trie copy new_value =
    if validate_entry trie copy
    then elim (write_entry trie copy.last_pos new_value) [
      | none ↦ none
      | some (trie', new_seq) ↦ some (trie', record copy { value = new_value; last_seq = new_seq })
    ]
    else update_entry_slow_path trie copy new_value

unfoldable pub mark_entry_dirty : Trie → EntryCopy → Option (Trie × EntryCopy)
mark_entry_dirty trie copy = update_entry trie copy (entry_set_dirty copy.value)

unfoldable pub mark_entry_clean : Trie → EntryCopy → Option (Trie × EntryCopy)
mark_entry_clean trie copy = update_entry trie copy (entry_set_clean copy.value)

-- The thread's own locks hold the assertion that the bucket is write-locked.
unfoldable pub remove_entry_by_address : List BucketWriteLock → Trie → Cell → Option Trie
remove_entry_by_address locks trie pos = elim (find_write_lock locks pos.bucket) [
  | none ↦ none
  | some i ↦ elim (write_entry trie pos unused_entry) [
    | none ↦ none
    | some (trie', new_seq) ↦ some trie'
  ]
]

unfoldable pub remove_entry_by_value : List BucketWriteLock → Trie → Entry → ℕ → Option Trie
remove_entry_by_value locks trie entry prefix_hash =
    elim (find_entry_in_pair_by_color trie (still trie) (hash_to_bucket prefix_hash)
      (hash_to_tag prefix_hash) (entry_color entry)) [
        | none ↦ none
        | some found ↦ remove_entry_by_address locks trie found.last_pos
      ]
