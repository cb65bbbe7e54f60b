-- ===== src/Relocate/Defs.antt =====
-- `relocate_entry` in the build without MULTITHREADING, where no call of the lock manager does
-- anything and `upgrade_bucket_lock` reports SI_OK: a breadth-first search for a bucket with a free
-- cell, and the moves of entries along the path to it.
use cuckoo_trie_vectorized.Base.{
  ℕ, zero, suc, bit_or, bit_xor, Bool, true, false, ◌&&◌, ◌||◌, List, [], ◌∷◌, ◌++◌, Option, none,
  some, ◌==◌, ltb, get_or, set, length, ◌<<<◌,
}
use cuckoo_trie_vectorized.Config.{
  cuckoo_bucket_size, flag_secondary_bucket, hash_start_value, invalid_color, parent_color_shift,
  tag_bits, type_unused,
}
use cuckoo_trie_vectorized.Entry.{Entry}
use cuckoo_trie_vectorized.Trie.{Trie, Cell, bucket_at, set_bucket, entry_at}
use cuckoo_trie_vectorized.Hash.{hash_to_bucket, alternate_bucket}
use cuckoo_trie_vectorized.Locks.{Status, si_ok, si_fail}
use cuckoo_trie_vectorized.Search.{find_free_cell_in_bucket}

-- `relocation_queue_entry`. The first one has no parent, and its last two fields are never read.
pub record QueueEntry : Type 0 where
  pub bucket : ℕ
  pub parent_queue_pos : ℕ
  pub child_idx : ℕ

abbrev pub no_entry : QueueEntry
no_entry = record { bucket = 0; parent_queue_pos = 0; child_idx = 0 }

abbrev pub relocate_queue_size : ℕ
relocate_queue_size = 1000

abbrev pub queue_at : List QueueEntry → ℕ → QueueEntry
queue_at queue k = get_or queue k no_entry

-- The loop that sets `already_inserted`.
unfoldable pub already_inserted : List QueueEntry → ℕ → Bool
already_inserted [] bucket = false
already_inserted (entry ∷ rest) bucket = (entry.bucket == bucket) || already_inserted rest bucket

abbrev pub is_cell : Cell → Cell → Bool
is_cell c d = (c.bucket == d.bucket) && (c.index == d.index)

abbrev pub root_cell : Cell
root_cell = record { bucket = hash_to_bucket hash_start_value; index = 0 }

-- Entries that stay where they are. The immovable entry may be NULL.
unfoldable pub must_stay : Option Cell → Cell → Bool
must_stay none cell = is_cell cell root_cell
must_stay (some immovable) cell = is_cell cell immovable || is_cell cell root_cell

-- What the loop over the cells of one bucket ends with: the queue, and the free cell with the child
-- that generated it.
pub data Scan : Type 0 where
  all_full : List QueueEntry → Scan
  free_found : List QueueEntry → Cell → ℕ → Scan

-- The loop from cell `i` on, for the bucket at `queue_pos`.
unfoldable pub scan_cells : Trie → Option Cell → ℕ → ℕ → ℕ → ℕ → List QueueEntry → Scan
scan_cells trie immovable bucket queue_pos zero i queue = all_full queue
scan_cells trie immovable bucket queue_pos (suc rounds) i queue =
    let cell : Cell = record { bucket = bucket; index = i } in
    let child = alternate_bucket trie (entry_at trie cell) bucket in
    elim (must_stay immovable cell || already_inserted queue child) [
      | true ↦ scan_cells trie immovable bucket queue_pos rounds (suc i) queue
      | false ↦ elim (find_free_cell_in_bucket (bucket_at trie child).cells 0) [
        | some free ↦ free_found queue (record { bucket = child; index = free }) i
        | none ↦ elim (ltb (length queue) relocate_queue_size) [
          | true ↦
              scan_cells trie immovable bucket queue_pos rounds (suc i) (
                queue
                ++ record { bucket = child; parent_queue_pos = queue_pos; child_idx = i } ∷ [])
          | false ↦ scan_cells trie immovable bucket queue_pos rounds (suc i) queue
        ]
      ]
    ]

-- What the search ends with: the queue, the position of the bucket whose child has the free cell,
-- that cell, and the child.
pub data Search : Type 0 where
  not_found : Search
  found : List QueueEntry → ℕ → Cell → ℕ → Search
  out_of_fuel : Search

unfoldable pub search_queue : Trie → Option Cell → ℕ → ℕ → List QueueEntry → Search
search_queue trie immovable zero queue_pos queue = out_of_fuel
search_queue trie immovable (suc fuel) queue_pos queue = elim (ltb queue_pos (length queue)) [
  | false ↦ not_found
  | true ↦
      elim (scan_cells trie immovable (queue_at queue queue_pos).bucket queue_pos cuckoo_bucket_size
        0 queue) [
          | all_full queue' ↦ search_queue trie immovable fuel (suc queue_pos) queue'
          | free_found queue' free child ↦ found queue' queue_pos free child
        ]
]

-- `write_entry` without MULTITHREADING.
unfoldable pub set_entry : Trie → Cell → Entry → Trie
set_entry trie pos src =
    let bucket = bucket_at trie pos.bucket in
    set_bucket trie pos.bucket (record bucket { cells = set bucket.cells pos.index src })

-- An entry as it is written into its alternate bucket.
abbrev pub moved : Entry → Entry
moved e = record e {
  parent_color_and_flags = bit_xor e.parent_color_and_flags flag_secondary_bucket;
}

-- `entry_buf` when it is written to the cell that is freed: the other fields are those of the entry
-- that was moved last.
abbrev pub emptied : Entry → Entry
emptied e = record e {
  parent_color_and_flags = bit_or (invalid_color <<< parent_color_shift) type_unused;
  color_and_tag = invalid_color <<< tag_bits;
}

-- The moves, from position `queue_pos` of the queue back to its first: the table, the cell freed
-- last and `entry_buf`.
unfoldable pub move_path : Trie → List QueueEntry → ℕ → ℕ → ℕ → Cell → Option (Trie × Cell × Entry)
move_path trie queue zero queue_pos child free_cell = none
move_path trie queue (suc fuel) queue_pos child free_cell =
    let entry = queue_at queue queue_pos in
    let occupied_cell : Cell = record { bucket = entry.bucket; index = child } in
    let entry_buf = moved (entry_at trie occupied_cell) in
    let trie' = set_entry trie free_cell entry_buf in
    elim (queue_pos == 0) [
      | true ↦ some (trie', occupied_cell, entry_buf)
      | false ↦ move_path trie' queue fuel entry.parent_queue_pos entry.child_idx occupied_cell
    ]

-- The status, the table, and the cell that `*output` names.
unfoldable pub relocate_entry : Trie → ℕ → Option Cell → Option (Status × Trie × Option Cell)
relocate_entry trie bucket_num immovable =
    let start : QueueEntry = record { bucket = bucket_num; parent_queue_pos = 0; child_idx = 0 } in
    elim (search_queue trie immovable (suc relocate_queue_size) 0 (start ∷ [])) [
      | not_found ↦ some (si_fail, trie, none)
      | found queue queue_pos free child ↦
          elim (move_path trie queue (suc queue_pos) queue_pos child free) [
            | none ↦ none
            | some (trie', cell, entry_buf) ↦
                some (si_ok, set_entry trie' cell (emptied entry_buf), some cell)
          ]
      | out_of_fuel ↦ none
    ]
