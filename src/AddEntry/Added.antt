-- ===== src/AddEntry/Added.antt =====
-- What `add_entry` does to the table.
use cuckoo_trie_vectorized.Base.{
  ℕ, ◌+◌, ◌<◌, ◌≤◌, ◌≡◌, ◌≢◌, refl, arith, Bool, true, false, Option, none, some, length, ◌⊎◌, inl,
  inr, sym, ap, subst, Option-cases,
}
use cuckoo_trie_vectorized.Config.{max_valid_color}
use cuckoo_trie_vectorized.Entry.{Entry, entry_type, entry_color, entry_is_secondary}
use cuckoo_trie_vectorized.Entry.Bytes.{IsEntry}
use cuckoo_trie_vectorized.Trie.{Trie, Cell, bucket_at, cell_at, entry_at}
use cuckoo_trie_vectorized.Hash.{hash_to_bucket}
use cuckoo_trie_vectorized.Locks.{Status, si_ok, si_fail}
use cuckoo_trie_vectorized.Search.{find_free_cell_in_bucket}
use cuckoo_trie_vectorized.Search.Headers.{flag_value}
use cuckoo_trie_vectorized.Pairs.Finds.{pair_bucket}
use cuckoo_trie_vectorized.Relocate.{set_entry}
use cuckoo_trie_vectorized.Relocate.Queue.{IsTable}
use cuckoo_trie_vectorized.Relocate.Scans.{find_free_cell_in_bucket-unused}
use cuckoo_trie_vectorized.Relocate.Weights.{weight, total, total-set_entry}
use cuckoo_trie_vectorized.Relocate.Writes.{
  entry_at-set_entry, entry_at-set_entry_ne, set_entry-IsTable,
}
use cuckoo_trie_vectorized.Relocate.Outcome.{IsRelocated, weight-unused, relocate_entry-IsRelocated}
use cuckoo_trie_vectorized.AddEntry.Defs.{secondary_bucket, stored_entry, cell_found, add_entry}
use cuckoo_trie_vectorized.AddEntry.Stored.{IsStored, IsNew, stored_entry-IsStored, new_color}

module _ (trie : Trie) (prefix_hash : ℕ) (entry : Entry) where
  abbrev pub in_pair : Bool → ℕ
  in_pair is_secondary =
      pair_bucket (hash_to_bucket prefix_hash) (secondary_bucket trie prefix_hash) is_secondary

  -- The new entry stands in its pair, with a colour that no other cell of the pair has, and the
  -- table has one entry more.
  pub record IsAdded (trie' : Trie) (cell : Cell) (e : Entry) : Type 0 where
    pub is_secondary : Bool
    pub color : ℕ
    pub stored : IsStored prefix_hash entry is_secondary color e
    pub stands : entry_at trie' cell ≡ e
    pub bucket_eq : cell.bucket ≡ in_pair is_secondary
    pub valid : color ≤ max_valid_color
    pub unique :
        (s : Bool) (i : ℕ)
        → i < 4
        → (in_pair s ≡ cell.bucket → i ≢ cell.index)
        → entry_color (entry_at trie' (record { bucket = in_pair s; index = i })) ≢ color
    pub table_now : IsTable trie'
    pub one_more :
        (test : ℕ → Entry → Bool)
        → total (weight trie test) trie'.buckets 0
          ≡ total (weight trie test) trie.buckets 0 + weight trie test cell.bucket e

  module _ (h : IsEntry entry) (primary_flag : entry_is_secondary entry ≡ false)
      (in_range : (s : Bool) → in_pair s < trie.num_buckets) where
    -- From a free cell of a table that has the same entries.
    module _ (trie' : Trie) (is_secondary : Bool) (i : ℕ) (table : IsTable trie')
        (size : trie'.num_buckets ≡ trie.num_buckets) (i_fits : i < 4)
        (unused : entry_type (entry_at trie' (record { bucket = in_pair is_secondary; index = i }))
          ≡ 0)
        (same : (test : ℕ → Entry → Bool)
          → total (weight trie test) trie'.buckets 0
            ≡ total (weight trie test) trie.buckets 0) where
      abbrev pos : Cell
      pos = record { bucket = in_pair is_secondary; index = i }

      in_table : (s : Bool) → in_pair s < trie'.num_buckets
      in_table s = omega (arith, in_range s, size)

      below : in_pair is_secondary < length trie'.buckets
      below = omega (arith, in_table is_secondary, table.enough_buckets)

      index_below : i < length (bucket_at trie' (in_pair is_secondary)).cells
      index_below = rw (table.four_cells (in_pair is_secondary) (in_table is_secondary)) i_fits

      chosen :
          (c : ℕ) × IsNew
            (bucket_at trie' (in_pair false)).cells
            (bucket_at trie' (in_pair true)).cells
            c
      unfolding entry_at cell_at
      chosen =
          new_color (bucket_at trie' (in_pair false)).cells (bucket_at trie' (in_pair true)).cells
            (table.four_cells (in_pair false) (in_table false))
            (table.four_cells (in_pair true) (in_table true))
            (λ j. table.stored (in_pair false) j (in_table false))
            (λ j. table.stored (in_pair true) j (in_table true))

      abbrev new_entry : Entry
      new_entry = stored_entry prefix_hash entry (flag_value is_secondary) chosen.0

      other_color :
          (s : Bool) (j : ℕ)
          → j < 4
          → entry_color (entry_at trie' (record { bucket = in_pair s; index = j })) ≢ chosen.0
      unfolding entry_at cell_at
      other_color false j fits = chosen.1.2 j fits
      other_color true j fits = chosen.1.3 j fits

      new_entry-IsStored : IsStored prefix_hash entry is_secondary chosen.0 new_entry
      new_entry-IsStored =
          stored_entry-IsStored prefix_hash entry h primary_flag is_secondary chosen.0
            (omega (arith, chosen.1.1))

      new_entry-IsAdded : IsAdded (set_entry trie' pos new_entry) pos new_entry
      new_entry-IsAdded = record {
        is_secondary = is_secondary;
        color = chosen.0;
        stored = new_entry-IsStored;
        stands = entry_at-set_entry trie' pos new_entry below index_below;
        bucket_eq = refl;
        valid = chosen.1.1;
        unique = λ s j fits differs.
            subst (λ (e : Entry). entry_color e ≢ chosen.0)
              (sym (entry_at-set_entry_ne trie' pos new_entry below (in_pair s) j differs))
              (other_color s j fits);
        table_now =
            set_entry-IsTable trie' pos new_entry table (in_table is_secondary) i_fits
              new_entry-IsStored.fits;
        one_more = λ test. omega (
          arith,
          total-set_entry (weight trie test) trie' pos new_entry below index_below,
          same test,
          weight-unused trie test (in_pair is_secondary) (entry_at trie' pos) unused,
        );
      }

      cell_found-IsAdded :
          (result : Trie) × (e : Entry) × (cell_found trie'
              (secondary_bucket trie prefix_hash)
              prefix_hash
              entry
              (flag_value is_secondary)
              pos
            ≡ some (si_ok, result, some pos, e))
          × IsAdded result pos e
      unfolding cell_found
      cell_found-IsAdded =
          (set_entry trie' pos new_entry, new_entry, ground (arith, chosen.1.0), new_entry-IsAdded)

    -- The two results.
    abbrev IsOutcome : Option (Status × Trie × Option Cell × Entry) → Type 0
    IsOutcome outcome =
        (outcome ≡ some (si_fail, trie, none, entry))
        ⊎ ((result : Trie) × (cell : Cell) × (e : Entry) × (outcome
              ≡ some (si_ok, result, some cell, e))
            × IsAdded result cell e)

    module _ (table : IsTable trie) (immovable : Option Cell) where
      -- A free cell in one of the two buckets.
      free_cell :
          (s : Bool) (i : ℕ)
          → find_free_cell_in_bucket (bucket_at trie (in_pair s)).cells 0 ≡ some i
          → IsOutcome (
              cell_found trie
                (secondary_bucket trie prefix_hash)
                prefix_hash
                entry
                (flag_value s)
                (record { bucket = in_pair s; index = i }))
      unfolding entry_at cell_at
      free_cell s i finds =
          let free = find_free_cell_in_bucket-unused (bucket_at trie (in_pair s)).cells 0 i finds in
          let here : i ≡ free.0 = omega (arith, free.1) in
          let added =
            cell_found-IsAdded trie s i table refl
              (omega (arith, here, free.2, table.four_cells (in_pair s) (in_range s)))
              (rw (here) free.3) (λ test. refl) in
          inr (added.0, record { bucket = in_pair s; index = i }, added.1, added.2, added.3)

      -- A cell that the relocation freed.
      freed_cell :
          (trie' : Trie) (cell : Cell)
          → IsRelocated trie immovable (hash_to_bucket prefix_hash) trie' cell
          → IsOutcome
              (cell_found trie' (secondary_bucket trie prefix_hash) prefix_hash entry 0 cell)
      freed_cell trie' cell r =
          let here : record { bucket = in_pair false; index = cell.index } ≡ cell =
            ap (λ (b : ℕ). record { bucket = b; index = cell.index }) (sym r.bucket_eq) in
          let added =
            cell_found-IsAdded trie' false cell.index r.kept.table_now r.kept.same_size r.index_fits
              (subst (λ (c : Cell). entry_type (entry_at trie' c) ≡ 0) (sym here) r.unused)
              r.same_entries in
          subst
            (λ (c : Cell).
              IsOutcome
                (cell_found trie' (secondary_bucket trie prefix_hash) prefix_hash entry 0 c))
            here
            (inr (
              added.0,
              record { bucket = in_pair false; index = cell.index },
              added.1,
              added.2,
              added.3,
            ))

      -- Where both buckets are full.
      both_full :
          find_free_cell_in_bucket (bucket_at trie (in_pair false)).cells 0 ≡ none
          → find_free_cell_in_bucket (bucket_at trie (in_pair true)).cells 0 ≡ none
          → IsOutcome (add_entry trie prefix_hash entry immovable)
      unfolding add_entry
      both_full full1 full2 =
          elim (relocate_entry-IsRelocated trie immovable table (in_pair false) (in_range false)) [
            | inl failed ↦ inl (ground (arith, full1, full2, failed))
            | inr (trie', cell, done, r) ↦
                let same : add_entry trie prefix_hash entry immovable
                    ≡ cell_found trie' (secondary_bucket trie prefix_hash) prefix_hash entry 0
                        cell =
                  ground (arith, full1, full2, done) in
                subst IsOutcome (sym same) (freed_cell trie' cell r)
          ]

      -- In a table of allocated sizes with four stored cells in each bucket, for a hash whose buckets
      -- are in range and an entry of stored bytes without the secondary flag, add_entry always
      -- returns. It reports SI_FAIL and leaves the table as it was, or it reports SI_OK. Then the
      -- entry stands in a bucket of its pair, with the tag of the hash, the flag of that bucket and a
      -- valid colour that no other cell of the pair has, and is else as it was handed over. The table
      -- is well formed and holds just this one entry more, also where others were moved.
      pub add_entry-IsAdded : IsOutcome (add_entry trie prefix_hash entry immovable)
      unfolding add_entry
      add_entry-IsAdded =
          elim (Option-cases (find_free_cell_in_bucket (bucket_at trie (in_pair false)).cells 0)) [
            | inr (i, finds) ↦
                let same : add_entry trie prefix_hash entry immovable
                    ≡ cell_found trie (secondary_bucket trie prefix_hash) prefix_hash entry 0
                        (record { bucket = in_pair false; index = i }) =
                  ground (arith, finds) in
                subst IsOutcome (sym same) (free_cell false i finds)
            | inl full1 ↦
                elim (Option-cases
                  (find_free_cell_in_bucket (bucket_at trie (in_pair true)).cells 0)) [
                    | inr (i, finds) ↦
                        let same : add_entry trie prefix_hash entry immovable
                            ≡ cell_found trie (secondary_bucket trie prefix_hash) prefix_hash entry
                                4 (record { bucket = in_pair true; index = i }) =
                          ground (arith, full1, finds) in
                        subst IsOutcome (sym same) (free_cell true i finds)
                    | inl full2 ↦ both_full full1 full2
                  ]
          ]
