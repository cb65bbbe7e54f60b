-- ===== src/Relocate/Moves.antt =====
-- The moves along a path: after each, the table counts each entry once but for the one that stands
-- in two places, in the cell to be freed and in the one before it.
use cuckoo_trie_vectorized.Base.{
  ℕ, zero, suc, ◌+◌, ◌<◌, ◌≤◌, ◌≡◌, ◌≢◌, refl, arith, Bool, false, ◌==◌, List, Option, some, length,
  Bool-cases, ==_iff, inl, inr, ◌∙◌, ap,
}
use cuckoo_trie_vectorized.Entry.{Entry}
use cuckoo_trie_vectorized.Entry.Bytes.{IsEntry}
use cuckoo_trie_vectorized.Trie.{Trie, Bucket, Cell, bucket_at, cell_at, entry_at}
use cuckoo_trie_vectorized.Relocate.Defs.{
  QueueEntry, must_stay, queue_at, set_entry, moved, move_path,
}
use cuckoo_trie_vectorized.Relocate.Queue.{IsTable, IsQueue, child_bucket}
use cuckoo_trie_vectorized.Relocate.Writes.{bucket_at-set_entry_ne}
use cuckoo_trie_vectorized.Relocate.Keeps.{IsKept, MayChange, set_entry-IsKept, moved-IsEntry}
use cuckoo_trie_vectorized.Relocate.Weights.{weight, total, total-set_entry, weight-moved}

module _ (trie : Trie) (immovable : Option Cell) (table : IsTable trie) (bucket_num : ℕ)
    (queue : List QueueEntry) (q : IsQueue trie immovable bucket_num queue) where
  -- The entry of `cell` counts twice.
  abbrev IsDoubled : Trie → Cell → Type 0
  IsDoubled trie' cell =
      (test : ℕ → Entry → Bool)
      → total (weight trie test) trie'.buckets 0
        ≡ total (weight trie test) trie.buckets 0
          + weight trie test cell.bucket (entry_at trie' cell)

  pub free_below :
      (trie' : Trie) (cell : Cell)
      → cell.bucket < trie.num_buckets
      → cell.index < 4
      → IsKept trie immovable trie'
      → cell.index < length (bucket_at trie' cell.bucket).cells
  free_below trie' cell in_range fits k =
      rw (k.table_now.four_cells cell.bucket (omega (arith, in_range, k.same_size))) fits

  -- Before a move into `free`, from child `child` of the bucket at `pos`.
  pub record IsMoving (trie' : Trie) (pos child : ℕ) (free : Cell) : Type 0 where
    pub pos_fits : pos < length queue
    pub child_fits : child < 4
    pub free_bucket : free.bucket ≡ child_bucket trie (queue_at queue pos).bucket child
    pub free_new : (k : ℕ) → k ≤ pos → (queue_at queue k).bucket ≢ free.bucket
    pub free_in_range : free.bucket < trie.num_buckets
    pub old :
        (k : ℕ)
        → k ≤ pos
        → bucket_at trie' (queue_at queue k).bucket ≡ bucket_at trie (queue_at queue k).bucket
    pub movable :
        must_stay immovable (record { bucket = (queue_at queue pos).bucket; index = child }) ≡ false
    pub free_fits : free.index < 4
    pub may_change : MayChange trie immovable free
    pub kept : IsKept trie immovable trie'
    pub doubled : IsDoubled trie' free

  -- Behind the last move.
  pub record IsMoved (trie' : Trie) (cell : Cell) : Type 0 where
    pub bucket_eq : cell.bucket ≡ bucket_num
    pub index_fits : cell.index < 4
    pub in_range : cell.bucket < trie.num_buckets
    pub may_change : MayChange trie immovable cell
    pub kept : IsKept trie immovable trie'
    pub doubled : IsDoubled trie' cell

  module _ (trie' : Trie) (pos child : ℕ) (free : Cell) (m : IsMoving trie' pos child free) where
    abbrev occupied : Cell
    occupied = record { bucket = (queue_at queue pos).bucket; index = child }

    abbrev next : Trie
    next = set_entry trie' free (moved (entry_at trie' occupied))

    same_entry : entry_at trie' occupied ≡ entry_at trie occupied
    unfolding entry_at
    same_entry = ap (λ (bucket : Bucket). cell_at bucket child) (m.old pos (omega arith))

    next_bucket : bucket_at next occupied.bucket ≡ bucket_at trie occupied.bucket
    next_bucket =
        bucket_at-set_entry_ne trie' free _ occupied.bucket (m.free_new pos (omega arith))
        ∙ m.old pos (omega arith)

    next_entry : entry_at next occupied ≡ entry_at trie occupied
    unfolding entry_at
    next_entry = ap (λ (bucket : Bucket). cell_at bucket child) next_bucket

    weight_moves :
        (test : ℕ → Entry → Bool)
        → weight trie test free.bucket (moved (entry_at trie' occupied))
          ≡ weight trie test occupied.bucket (entry_at trie occupied)
    weight_moves test =
        rw (same_entry, m.free_bucket)
          (weight-moved trie table.geometry occupied.bucket (q.in_range pos m.pos_fits)
            (entry_at trie occupied)
            (table.stored occupied.bucket child (q.in_range pos m.pos_fits)) test)

    next-IsDoubled : IsDoubled next occupied
    next-IsDoubled test = rw (next_entry) (
        omega (
          arith,
          total-set_entry (weight trie test) trie' free (moved (entry_at trie' occupied))
              (omega (arith, m.free_in_range, m.kept.same_size, m.kept.table_now.enough_buckets))
              (free_below trie' free m.free_in_range m.free_fits m.kept),
          m.doubled test,
          weight_moves test,
        ))

    moves-IsEntry : IsEntry (moved (entry_at trie' occupied))
    moves-IsEntry = moved-IsEntry (entry_at trie' occupied) (
        m.kept.table_now.stored occupied.bucket child
          (omega (arith, m.kept.same_size, q.in_range pos m.pos_fits)))

    next-IsKept : IsKept trie immovable next
    next-IsKept =
        set_entry-IsKept trie immovable trie' free (moved (entry_at trie' occupied)) m.kept
          m.free_in_range m.free_fits moves-IsEntry m.may_change

    last-IsMoved : pos ≡ 0 → IsMoved next occupied
    last-IsMoved here = record {
      bucket_eq = rw (here) q.first;
      index_fits = m.child_fits;
      in_range = q.in_range pos m.pos_fits;
      may_change = inl m.movable;
      kept = next-IsKept;
      doubled = next-IsDoubled;
    }

    next-IsMoving :
        0 < pos
        → IsMoving next
            (queue_at queue pos).parent_queue_pos
            (queue_at queue pos).child_idx
            occupied
    next-IsMoving positive =
        let c = q.child pos positive m.pos_fits in
        record {
          pos_fits = omega (arith, c.earlier, m.pos_fits);
          child_fits = c.index_fits;
          free_bucket = c.bucket_eq;
          free_new = λ k below. q.distinct k pos (omega (arith, below, c.earlier)) m.pos_fits;
          free_in_range = q.in_range pos m.pos_fits;
          old = λ k below.
              bucket_at-set_entry_ne trie' free _ (queue_at queue k).bucket
                (m.free_new k (omega (arith, below, c.earlier)))
              ∙ m.old k (omega (arith, below, c.earlier));
          movable = c.movable;
          free_fits = m.child_fits;
          may_change = inl m.movable;
          kept = next-IsKept;
          doubled = next-IsDoubled;
        }

  -- The moves end at the first bucket of the queue.
  pub move_path-IsMoved :
      (fuel : ℕ) (trie' : Trie) (pos child : ℕ) (free : Cell)
      → pos < fuel
      → IsMoving trie' pos child free
      → (result : Trie) × (cell : Cell) × (entry_buf : Entry) × (move_path trie' queue fuel pos
            child free
          ≡ some (result, cell, entry_buf))
        × IsMoved result cell
        × IsEntry entry_buf
  unfolding move_path
  move_path-IsMoved zero trie' pos child free enough m = absurd (omega (arith, enough))
  move_path-IsMoved (suc fuel) trie' pos child free enough m = elim (Bool-cases (pos == 0)) [
    | inl first ↦ (
      next trie' pos child free m,
      record { bucket = (queue_at queue pos).bucket; index = child },
      moved (entry_at trie' (record { bucket = (queue_at queue pos).bucket; index = child })),
      rw (move_path, first) refl,
      last-IsMoved trie' pos child free m ((==_iff pos 0).0 first),
      moves-IsEntry trie' pos child free m,
    )
    | inr later ↦
        let positive : 0 < pos = ground (arith, later) in
        let c = q.child pos positive m.pos_fits in
        let rest =
          move_path-IsMoved fuel (next trie' pos child free m) (queue_at queue pos).parent_queue_pos
            (queue_at queue pos).child_idx
            (record { bucket = (queue_at queue pos).bucket; index = child })
            (omega (arith, c.earlier, enough)) (next-IsMoving trie' pos child free m positive) in
        (rest.0, rest.1, rest.2, rw (move_path, later) rest.3, rest.4, rest.5)
  ]
