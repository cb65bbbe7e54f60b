-- ===== src/Tests/RelocateRuns.antt =====
-- The relocation from a full bucket, and a new entry for it.
use cuckoo_trie_vectorized.Base.{
  ℕ, zero, suc, ◌+◌, ◌*◌, ◌<◌, ◌≡◌, refl, arith, Bool, true, false, get_or, replicate, none, some,
  ◌⊎◌,
}
use cuckoo_trie_vectorized.Entry.{Entry, entry_is_secondary}
use cuckoo_trie_vectorized.Entry.Bytes.{IsEntry}
use cuckoo_trie_vectorized.Trie.{
  Trie, Cell, cell_at, entry_at, unused_entry, zero_entry, set_bucket,
}
use cuckoo_trie_vectorized.Alloc.Table
use cuckoo_trie_vectorized.Alloc.Table.{IsFresh}
use cuckoo_trie_vectorized.Locks.{si_ok, si_fail}
use cuckoo_trie_vectorized.Relocate.{set_entry, relocate_entry}
use cuckoo_trie_vectorized.Relocate.Queue.{IsTable}
use cuckoo_trie_vectorized.Relocate.Writes.{set_entry-IsTable}
use cuckoo_trie_vectorized.Relocate.Outcome
use cuckoo_trie_vectorized.Relocate.Outcome.{IsRelocated}
use cuckoo_trie_vectorized.Hash.{hash_to_bucket, hash_to_tag}
use cuckoo_trie_vectorized.Hash.Pair.{mix-unmix_inverse}
use cuckoo_trie_vectorized.AddEntry.{add_entry}
use cuckoo_trie_vectorized.AddEntry.Added
use cuckoo_trie_vectorized.AddEntry.Added.{in_pair, IsAdded}
use cuckoo_trie_vectorized.Tests.{small_table, buckets_of_small_table, leaf}

cell_of_unused : (i : ℕ) → IsEntry (get_or (replicate 4 unused_entry) i zero_entry)
cell_of_unused zero = omega arith
cell_of_unused (suc zero) = omega arith
cell_of_unused (suc (suc zero)) = omega arith
cell_of_unused (suc (suc (suc zero))) = omega arith
cell_of_unused (suc (suc (suc (suc i)))) = omega arith

fresh-IsTable : (trie : Trie) → IsFresh trie → IsTable trie
unfolding entry_at cell_at
fresh-IsTable trie f = record {
  geometry = f.geometry;
  enough_buckets = omega (arith, f.bucket_count);
  four_cells = λ b below. rw (f.unused b below) refl;
  stored = λ b i below. rw (f.unused b below) (cell_of_unused i);
}

-- A leaf in its primary bucket, of tag 7.
abbrev leaf_of_color : ℕ → Entry
leaf_of_color color = record leaf { parent_color_and_flags = 0x31; color_and_tag = color * 16 + 7 }

abbrev cell : ℕ → Cell
cell i = record { bucket = 5; index = i }

-- Bucket 5 is full.
abbrev full_table : Trie
full_table =
    set_entry
      (set_entry
        (set_entry (set_entry small_table (cell 0) (leaf_of_color 0)) (cell 1) (leaf_of_color 1))
        (cell 2) (leaf_of_color 2))
      (cell 3) (leaf_of_color 3)

with_leaf-IsTable :
    (trie : Trie) (i color : ℕ)
    → IsTable trie
    → trie.num_buckets ≡ 64
    → i < 4
    → color < 16
    → IsTable (set_entry trie (cell i) (leaf_of_color color))
with_leaf-IsTable trie i color table size i_fits fits =
    set_entry-IsTable trie (cell i) (leaf_of_color color) table (omega (arith, size)) i_fits
      (omega (arith, fits))

full_table-IsTable : IsTable full_table
unfolding set_entry set_bucket
full_table-IsTable =
    with_leaf-IsTable _ 3 3
      (with_leaf-IsTable _ 2 2
        (with_leaf-IsTable _ 1 1
          (with_leaf-IsTable _ 0 0
            (fresh-IsTable small_table
              (Table.fresh_table-IsFresh 64 (omega arith) refl (omega arith)))
            buckets_of_small_table (omega arith) (omega arith))
          buckets_of_small_table (omega arith) (omega arith))
        buckets_of_small_table (omega arith) (omega arith))
      buckets_of_small_table (omega arith) (omega arith)

relocate_entry_example :
    (relocate_entry full_table 5 (some (cell 2)) ≡ some (si_fail, full_table, none))
    ⊎ ((trie' : Trie) × (freed : Cell) × (relocate_entry full_table 5 (some (cell 2))
          ≡ some (si_ok, trie', some freed))
        × IsRelocated full_table (some (cell 2)) 5 trie' freed)
unfolding set_entry set_bucket
relocate_entry_example =
    Outcome.relocate_entry-IsRelocated full_table (some (cell 2)) full_table-IsTable 5
      (omega (arith, buckets_of_small_table))

-- The hash of bucket 5 and tag 7, whose primary bucket is full.
pair_in_range : (s : Bool) → in_pair full_table 87 leaf s < full_table.num_buckets
unfolding hash_to_bucket set_entry set_bucket
pair_in_range false = omega (arith, buckets_of_small_table)
pair_in_range true =
    (mix-unmix_inverse full_table 5 (hash_to_tag 87) full_table-IsTable.geometry
      (omega (arith, buckets_of_small_table))).0

add_entry_example :
    (add_entry full_table 87 (leaf_of_color 0) (some (cell 2))
      ≡ some (si_fail, full_table, none, leaf_of_color 0))
    ⊎ ((result : Trie) × (added : Cell) × (e : Entry) × (add_entry full_table 87
            (leaf_of_color 0)
            (some (cell 2))
          ≡ some (si_ok, result, some added, e))
        × IsAdded full_table 87 (leaf_of_color 0) result added e)
unfolding entry_is_secondary
add_entry_example =
    Added.add_entry-IsAdded full_table 87 (leaf_of_color 0) (omega arith) refl pair_in_range
      full_table-IsTable (some (cell 2))
