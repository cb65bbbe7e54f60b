-- ===== src/AddEntry/Defs.antt =====
-- `add_entry` in the build without MULTITHREADING, where no call of the lock manager does anything,
-- `upgrade_bucket_lock` and `read_unlock_bucket` report SI_OK, and SI_RETRY is never reported.
use cuckoo_trie_vectorized.Base.{ℕ, bit_or, Option, none, some, ◌<<<◌}
use cuckoo_trie_vectorized.Config.{flag_secondary_bucket, tag_bits}
use cuckoo_trie_vectorized.Entry.{Entry, entry_add_flags, entry_set_color_and_tag}
use cuckoo_trie_vectorized.Trie.{Trie, Cell, bucket_at}
use cuckoo_trie_vectorized.Hash.{hash_to_bucket, hash_to_tag, mix_bucket}
use cuckoo_trie_vectorized.Locks.{Status, si_ok}
use cuckoo_trie_vectorized.Search.{find_free_cell_in_bucket}
use cuckoo_trie_vectorized.Colors.{unused_color_in_pair_vectorized}
use cuckoo_trie_vectorized.Relocate.{set_entry, relocate_entry}

abbrev pub secondary_bucket : Trie → ℕ → ℕ
secondary_bucket trie prefix_hash =
    mix_bucket trie (hash_to_bucket prefix_hash) (hash_to_tag prefix_hash)

-- The entry that is written, for an unused colour.
unfoldable pub stored_entry : ℕ → Entry → ℕ → ℕ → Entry
stored_entry prefix_hash entry flags_to_add unused_color =
    entry_set_color_and_tag (entry_add_flags entry flags_to_add)
      (bit_or (unused_color <<< tag_bits) (hash_to_tag prefix_hash))

-- From the label `cell_found` on, with the number of the secondary bucket: the status, the table, the cell that `*new_entry` names and
-- `*entry`. `none` is the assertion that a colour is free.
unfoldable pub cell_found :
    Trie → ℕ → ℕ → Entry → ℕ → Cell → Option (Status × Trie × Option Cell × Entry)
cell_found trie secondary prefix_hash entry flags_to_add result =
    elim (unused_color_in_pair_vectorized (bucket_at trie (hash_to_bucket prefix_hash)).cells
      (bucket_at trie secondary).cells) [
        | none ↦ none
        | some unused_color ↦
            let entry' = stored_entry prefix_hash entry flags_to_add unused_color in
            some (si_ok, set_entry trie result entry', some result, entry')
      ]

unfoldable pub add_entry :
    Trie → ℕ → Entry → Option Cell → Option (Status × Trie × Option Cell × Entry)
add_entry trie prefix_hash entry immovable =
    let primary = hash_to_bucket prefix_hash in
    let secondary = secondary_bucket trie prefix_hash in
    elim (find_free_cell_in_bucket (bucket_at trie primary).cells 0) [
      | some i ↦
          cell_found trie secondary prefix_hash entry 0 (record { bucket = primary; index = i })
      | none ↦ elim (find_free_cell_in_bucket (bucket_at trie secondary).cells 0) [
        | some i ↦
            cell_found trie secondary prefix_hash entry flag_secondary_bucket
              (record { bucket = secondary; index = i })
        | none ↦ elim (relocate_entry trie primary immovable) [
          | none ↦ none
          | some (si_ok, trie', some cell) ↦ cell_found trie' secondary prefix_hash entry 0 cell
          | some (status, trie', output) ↦ some (status, trie', none, entry)
        ]
      ]
    ]
