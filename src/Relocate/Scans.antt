-- ===== src/Relocate/Scans.antt =====
-- The search for a free cell: it ends, and what it finds is the end of a path of alternate buckets.
use cuckoo_trie_vectorized.Base.{
  ℕ, zero, suc, ◌+◌, ◌<◌, ◌≤◌, ◌≡◌, ◌≢◌, refl, arith, false, ◌||◌, List, [], ◌∷◌, ◌++◌, Option,
  some, ◌==◌, ltb, get_or, length, get_or-append_left, length-append, Bool-cases, Option-cases, inl,
  inr, ltb→lt, ◌∙◌, sym, ap,
}
use cuckoo_trie_vectorized.Config.{cuckoo_bucket_size, type_unused}
use cuckoo_trie_vectorized.Entry.{Entry, entry_type}
use cuckoo_trie_vectorized.Trie.{Trie, Cell, bucket_at, cell_at, entry_at, zero_entry}
use cuckoo_trie_vectorized.Search.{find_free_cell_in_bucket}
use cuckoo_trie_vectorized.Relocate.Defs.{
  QueueEntry, no_entry, relocate_queue_size, queue_at, already_inserted, must_stay, Scan, all_full,
  free_found, scan_cells, Search, not_found, found, out_of_fuel, search_queue,
}
use cuckoo_trie_vectorized.Relocate.Queue.{
  IsTable, IsQueue, child_bucket, not_inserted, append-IsQueue,
}

pub find_free_cell_in_bucket-unused :
    (cells : List Entry) (k j : ℕ)
    → find_free_cell_in_bucket cells k ≡ some j
    → (place : ℕ) × (j ≡ k + place)
      × (place < length cells)
      × (entry_type (get_or cells place zero_entry) ≡ 0)
unfolding find_free_cell_in_bucket
find_free_cell_in_bucket-unused [] k j q = absurd (ground (arith, q))
find_free_cell_in_bucket-unused (e ∷ rest) k j q = elim (Bool-cases (entry_type e == type_unused)) [
  | inl unused ↦ (0, ground (arith, q, unused), omega arith, ground (arith, unused))
  | inr used ↦
      let (place, q', below, unused) =
        find_free_cell_in_bucket-unused rest (suc k) j (ground (arith, q, used)) in
      (suc place, omega (arith, q'), omega (arith, below), unused)
]

-- A free cell in the alternate bucket of a child, outside the buckets of the queue.
pub record IsPathEnd (trie : Trie) (immovable : Option Cell) (bucket_num : ℕ)
    (queue : List QueueEntry) (pos : ℕ) (free : Cell) (child : ℕ) : Type 0 where
  pub queue_ok : IsQueue trie immovable bucket_num queue
  pub pos_fits : pos < length queue
  pub child_fits : child < 4
  pub movable :
      must_stay immovable (record { bucket = (queue_at queue pos).bucket; index = child }) ≡ false
  pub free_bucket : free.bucket ≡ child_bucket trie (queue_at queue pos).bucket child
  pub free_new : (k : ℕ) → k < length queue → (queue_at queue k).bucket ≢ free.bucket
  pub free_below : free.index < length (bucket_at trie free.bucket).cells
  pub free_unused : entry_type (entry_at trie free) ≡ 0

abbrev ScanEnds : Trie → Option Cell → ℕ → ℕ → Scan → Type 0
ScanEnds trie immovable bucket_num pos (all_full queue) =
    IsQueue trie immovable bucket_num queue × (pos < length queue)
ScanEnds trie immovable bucket_num pos (free_found queue free child) =
    IsPathEnd trie immovable bucket_num queue pos free child

abbrev pub SearchEnds : Trie → Option Cell → ℕ → Search → Type 0
SearchEnds trie immovable bucket_num not_found = Unit {0}
SearchEnds trie immovable bucket_num (found queue pos free child) =
    IsPathEnd trie immovable bucket_num queue pos free child
SearchEnds trie immovable bucket_num out_of_fuel = ⊥

module _ (trie : Trie) (table : IsTable trie) (bucket_num : ℕ) (immovable : Option Cell)
    (pos : ℕ) where
  free_cell-IsPathEnd :
      (queue : List QueueEntry) (i free : ℕ)
      → IsQueue trie immovable bucket_num queue
      → pos < length queue
      → i < 4
      → must_stay immovable (record { bucket = (queue_at queue pos).bucket; index = i }) ≡ false
      → already_inserted queue (child_bucket trie (queue_at queue pos).bucket i) ≡ false
      → find_free_cell_in_bucket
          (bucket_at trie (child_bucket trie (queue_at queue pos).bucket i)).cells
          0
        ≡ some free
      → IsPathEnd trie immovable bucket_num queue pos
          (record { bucket = child_bucket trie (queue_at queue pos).bucket i; index = free })
          i
  unfolding entry_at cell_at
  free_cell-IsPathEnd queue i free q pos_fits i_fits movable new finds =
      let child = child_bucket trie (queue_at queue pos).bucket i in
      let unused = find_free_cell_in_bucket-unused (bucket_at trie child).cells 0 free finds in
      let here : free ≡ unused.0 = omega (arith, unused.1) in
      record {
        queue_ok = q;
        pos_fits = pos_fits;
        child_fits = i_fits;
        movable = movable;
        free_bucket = refl;
        free_new = λ k below. not_inserted queue child k new below;
        free_below = rw (here) unused.2;
        free_unused = rw (here) unused.3;
      }

  scan_cells-ScanEnds :
      (rounds i b : ℕ) (queue : List QueueEntry)
      → rounds + i ≡ 4
      → IsQueue trie immovable bucket_num queue
      → pos < length queue
      → b ≡ (queue_at queue pos).bucket
      → ScanEnds trie immovable bucket_num pos (scan_cells trie immovable b pos rounds i queue)
  unfolding scan_cells
  scan_cells-ScanEnds zero i b queue e q fits same = (q, fits)
  scan_cells-ScanEnds (suc rounds) i b queue e q fits same =
      let cell : Cell = record { bucket = b; index = i } in
      let i_fits : i < 4 = omega (arith, e) in
      let next = scan_cells-ScanEnds rounds (suc i) b queue (omega (arith, e)) q fits same in
      elim (Bool-cases
        (must_stay immovable cell || already_inserted queue (child_bucket trie b i))) [
          | inl stays ↦ rw (ScanEnds, stays) next
          | inr moves ↦
              elim (Option-cases
                (find_free_cell_in_bucket (bucket_at trie (child_bucket trie b i)).cells 0)) [
                  | inr (free, finds) ↦
                      rw (ScanEnds, moves, finds)
                        (rw (same) (
                          free_cell-IsPathEnd queue i free q fits i_fits
                            (rw (sym same) (ground (arith, moves)))
                            (rw (sym same) (ground (arith, moves))) (rw (sym same) finds)))
                  | inl full ↦ elim (Bool-cases (ltb (length queue) relocate_queue_size)) [
                    | inr no_room ↦ rw (ScanEnds, moves, full, no_room) next
                    | inl room ↦
                        rw (ScanEnds, moves, full, room)
                          (scan_cells-ScanEnds rounds (suc i) b
                            (queue
                              ++ record {
                                bucket = child_bucket trie b i;
                                parent_queue_pos = pos;
                                child_idx = i;
                              }
                                ∷ [])
                            (omega (arith, e))
                            (rw (same) (
                              append-IsQueue trie immovable table bucket_num queue q pos fits i
                                i_fits (rw (sym same) (ground (arith, moves)))
                                (rw (sym same) (ground (arith, moves))) (ltb→lt _ _ room)))
                            (omega (
                              arith,
                              fits,
                              length-append queue (
                                  record {
                                    bucket = child_bucket trie b i;
                                    parent_queue_pos = pos;
                                    child_idx = i;
                                  }
                                  ∷ []),
                            ))
                            (same
                              ∙ ap (λ (entry : QueueEntry). entry.bucket)
                                  (sym (get_or-append_left queue _ pos no_entry fits))))
                  ]
                ]
        ]

module _ (trie : Trie) (table : IsTable trie) (bucket_num : ℕ) (immovable : Option Cell) where
  abbrev scan : ℕ → List QueueEntry → Scan
  scan queue_pos queue =
      scan_cells trie immovable (queue_at queue queue_pos).bucket queue_pos cuckoo_bucket_size 0
        queue

  after_scan :
      (fuel queue_pos : ℕ) (result : Scan)
      → ((queue : List QueueEntry)
          → IsQueue trie immovable bucket_num queue
          → queue_pos < length queue
          → SearchEnds trie immovable bucket_num
              (search_queue trie immovable fuel (suc queue_pos) queue))
      → ScanEnds trie immovable bucket_num queue_pos result
      → SearchEnds trie immovable bucket_num (elim result [
        | all_full queue ↦ search_queue trie immovable fuel (suc queue_pos) queue
        | free_found queue free child ↦ found queue queue_pos free child
      ])
  after_scan fuel queue_pos (all_full queue) next h = next queue h.0 h.1
  after_scan fuel queue_pos (free_found queue free child) next h = h

  -- With fuel for the places that the queue may have, the search ends.
  pub search_queue-SearchEnds :
      (fuel queue_pos : ℕ) (queue : List QueueEntry)
      → relocate_queue_size < fuel + queue_pos
      → queue_pos ≤ length queue
      → IsQueue trie immovable bucket_num queue
      → SearchEnds trie immovable bucket_num (search_queue trie immovable fuel queue_pos queue)
  unfolding search_queue
  search_queue-SearchEnds zero queue_pos queue enough reached q =
      absurd (omega (arith, enough, reached, q.small))
  search_queue-SearchEnds (suc fuel) queue_pos queue enough reached q =
      elim (Bool-cases (ltb queue_pos (length queue))) [
        | inr done ↦ rw (SearchEnds, done) tt
        | inl more ↦
            rw (SearchEnds, more)
              (after_scan fuel queue_pos (scan queue_pos queue)
                (λ queue' q' fits.
                  search_queue-SearchEnds fuel (suc queue_pos) queue' (omega (arith, enough)) fits
                    q')
                (scan_cells-ScanEnds trie table bucket_num immovable queue_pos 4 0
                  (queue_at queue queue_pos).bucket queue (omega arith) q (ltb→lt _ _ more) refl))
      ]
