-- ===== src/Relocate/Outcome.antt =====
-- What `relocate_entry` does to the table.
use cuckoo_trie_vectorized.Base.{
  ℕ, suc, ◌<◌, ◌≡◌, refl, arith, Bool, List, length, [], ◌∷◌, Option, none, some, ◌⊎◌, inl, inr,
}
use cuckoo_trie_vectorized.Entry.{Entry, entry_type}
use cuckoo_trie_vectorized.Entry.Bytes.{IsEntry}
use cuckoo_trie_vectorized.Trie.{Trie, Cell, entry_at}
use cuckoo_trie_vectorized.Locks.{Status, si_ok, si_fail}
use cuckoo_trie_vectorized.Relocate.Defs.{
  QueueEntry, relocate_queue_size, Search, not_found, found, out_of_fuel, search_queue, set_entry,
  emptied, relocate_entry, queue_at,
}
use cuckoo_trie_vectorized.Relocate.Queue.{IsTable, IsQueue, child_bucket-lt}
use cuckoo_trie_vectorized.Relocate.Scans.{IsPathEnd, SearchEnds, search_queue-SearchEnds}
use cuckoo_trie_vectorized.Relocate.Weights.{weight, total, total-set_entry}
use cuckoo_trie_vectorized.Relocate.Writes.{entry_at-set_entry}
use cuckoo_trie_vectorized.Relocate.Keeps.{IsKept, set_entry-IsKept, emptied-IsEntry}
use cuckoo_trie_vectorized.Relocate.Moves.{free_below, IsMoving, IsMoved, move_path-IsMoved}

-- A free cell in the bucket, and the same entries in the table as before, each in one of its two
-- buckets: whatever is asked of the primary bucket and of the value without the secondary flag, as
-- many entries pass.
pub record IsRelocated (trie : Trie) (immovable : Option Cell) (bucket_num : ℕ) (trie' : Trie)
    (cell : Cell) : Type 0 where
  pub bucket_eq : cell.bucket ≡ bucket_num
  pub index_fits : cell.index < 4
  pub kept : IsKept trie immovable trie'
  pub unused : entry_type (entry_at trie' cell) ≡ 0
  pub same_entries :
      (test : ℕ → Entry → Bool)
      → total (weight trie test) trie'.buckets 0 ≡ total (weight trie test) trie.buckets 0

emptied-unused : (e : Entry) → entry_type (emptied e) ≡ 0
unfolding entry_type
emptied-unused e = refl

pub weight-unused :
    (trie : Trie) (test : ℕ → Entry → Bool) (b : ℕ) (e : Entry)
    → entry_type e ≡ 0
    → weight trie test b e ≡ 0
unfolding weight
weight-unused trie test b e h = rw (h) refl

module _ (trie : Trie) (immovable : Option Cell) (table : IsTable trie) (bucket_num : ℕ)
    (in_range : bucket_num < trie.num_buckets) where
  abbrev start : QueueEntry
  start = record { bucket = bucket_num; parent_queue_pos = 0; child_idx = 0 }

  start-IsQueue : IsQueue trie immovable bucket_num (start ∷ [])
  start-IsQueue = record {
    not_empty = omega arith;
    small = omega arith;
    first = refl;
    in_range = λ k below. let here : k ≡ 0 = omega (arith, below) in rw (here) in_range;
    child = λ k positive below. absurd (omega (arith, positive, below));
    distinct = λ j k ordered below. absurd (omega (arith, ordered, below));
  }

  emptied-IsRelocated :
      (queue : List QueueEntry) (q : IsQueue trie immovable bucket_num queue) (trie' : Trie)
      (cell : Cell) (e : Entry)
      → IsMoved trie immovable table bucket_num queue q trie' cell
      → IsEntry e
      → IsRelocated trie immovable bucket_num (set_entry trie' cell (emptied e)) cell
  emptied-IsRelocated queue q trie' cell e m fits =
      let below : cell.bucket < length trie'.buckets =
        omega (arith, m.in_range, m.kept.same_size, m.kept.table_now.enough_buckets) in
      let index_below =
        free_below trie immovable table bucket_num queue q trie' cell m.in_range m.index_fits
          m.kept in
      record {
        bucket_eq = m.bucket_eq;
        index_fits = m.index_fits;
        kept =
            set_entry-IsKept trie immovable trie' cell (emptied e) m.kept m.in_range m.index_fits
              (emptied-IsEntry e fits) m.may_change;
        unused =
            rw (entry_at-set_entry trie' cell (emptied e) below index_below) (emptied-unused e);
        same_entries = λ test. omega (
          arith,
          total-set_entry (weight trie test) trie' cell (emptied e) below index_below,
          m.doubled test,
          weight-unused trie test cell.bucket (emptied e) (emptied-unused e),
        );
      }

  path-IsMoving :
      (queue : List QueueEntry) (pos child : ℕ) (free : Cell)
      (p : IsPathEnd trie immovable bucket_num queue pos free child)
      → IsMoving trie immovable table bucket_num queue p.queue_ok trie pos child free
  path-IsMoving queue pos child free p =
      let free_in_range : free.bucket < trie.num_buckets = rw (p.free_bucket) (
        child_bucket-lt trie (queue_at queue pos).bucket child table
          (p.queue_ok.in_range pos p.pos_fits)) in
      record {
        pos_fits = p.pos_fits;
        child_fits = p.child_fits;
        free_bucket = p.free_bucket;
        free_new = λ k below. p.free_new k (omega (arith, below, p.pos_fits));
        free_in_range = free_in_range;
        movable = p.movable;
        free_fits = omega (arith, p.free_below, table.four_cells free.bucket free_in_range);
        may_change = inr p.free_unused;
        kept = record { same_size = refl; table_now = table; stays = λ b i must used. refl };
        old = λ k below. refl;
        doubled = λ test.
            omega (arith, weight-unused trie test free.bucket (entry_at trie free) p.free_unused);
      }

  abbrev IsOutcome : Option (Status × Trie × Option Cell) → Type 0
  IsOutcome outcome =
      (outcome ≡ some (si_fail, trie, none))
      ⊎ ((trie' : Trie) × (cell : Cell) × (outcome ≡ some (si_ok, trie', some cell))
          × IsRelocated trie immovable bucket_num trie' cell)

  search-IsOutcome :
      (result : Search)
      → search_queue trie immovable (suc relocate_queue_size) 0 (start ∷ []) ≡ result
      → SearchEnds trie immovable bucket_num result
      → IsOutcome (relocate_entry trie bucket_num immovable)
  unfolding relocate_entry
  search-IsOutcome not_found e h = inl (ground (arith, e))
  search-IsOutcome (found queue pos child_cell child) e p =
      let m =
        move_path-IsMoved trie immovable table bucket_num queue p.queue_ok (suc pos) trie pos child
          child_cell (omega arith) (path-IsMoving queue pos child child_cell p) in
      inr (
        set_entry m.0 m.1 (emptied m.2),
        m.1,
        ground (arith, e, m.3),
        emptied-IsRelocated queue p.queue_ok m.0 m.1 m.2 m.4 m.5,
      )
  search-IsOutcome out_of_fuel e h = absurd h

  -- In a table of allocated sizes with four stored cells in each bucket, and for a bucket in range,
  -- relocate_entry always returns. It reports SI_FAIL and leaves the table as it was, or it reports
  -- SI_OK with a free cell of the bucket: then the table holds the same entries as before, each in
  -- its primary or secondary bucket with the flag that belongs there. For any test of an entry's
  -- primary bucket and of its value but for the flag, as many entries in use pass as before. The root
  -- and the immovable entry stay where they are, and the table stays well formed.
  pub relocate_entry-IsRelocated :
      (relocate_entry trie bucket_num immovable ≡ some (si_fail, trie, none))
      ⊎ ((trie' : Trie) × (cell : Cell) × (relocate_entry trie bucket_num immovable
            ≡ some (si_ok, trie', some cell))
          × IsRelocated trie immovable bucket_num trie' cell)
  relocate_entry-IsRelocated = search-IsOutcome _ refl (
      search_queue-SearchEnds trie table bucket_num immovable (suc relocate_queue_size) 0
        (start ∷ []) (omega arith) (omega arith) start-IsQueue)
