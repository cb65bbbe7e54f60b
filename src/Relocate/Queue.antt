-- ===== src/Relocate/Queue.antt =====
-- The queue of the search: each bucket in it but the first is the alternate bucket of a child of an
-- earlier one, and no bucket stands in it twice.
use cuckoo_trie_vectorized.Base.{
  ℕ, zero, suc, ◌<◌, ◌≤◌, ◌≡◌, ◌≢◌, refl, arith, false, Option, List, [], ◌∷◌, ◌++◌, length,
  length-append, get_or-append_left, ◌⊎◌, inl, inr, dec_lt,
}
use cuckoo_trie_vectorized.Entry.Bytes.{IsEntry}
use cuckoo_trie_vectorized.Trie.{Trie, Cell, bucket_at, entry_at}
use cuckoo_trie_vectorized.Hash.{alternate_bucket}
use cuckoo_trie_vectorized.Hash.Geometry.{IsGeometry}
use cuckoo_trie_vectorized.Hash.Pair.{alternate_bucket_twice}
use cuckoo_trie_vectorized.Relocate.Defs.{
  QueueEntry, no_entry, relocate_queue_size, queue_at, already_inserted, must_stay,
}

-- A table of allocated sizes whose buckets have four stored cells each.
pub record IsTable (trie : Trie) : Type 0 where
  pub geometry : IsGeometry trie
  pub enough_buckets : trie.num_buckets ≤ length trie.buckets
  pub four_cells : (b : ℕ) → b < trie.num_buckets → length (bucket_at trie b).cells ≡ 4
  pub stored :
      (b i : ℕ) → b < trie.num_buckets → IsEntry (entry_at trie (record { bucket = b; index = i }))

-- The bucket that an entry of `bucket` would move to.
abbrev pub child_bucket : Trie → ℕ → ℕ → ℕ
child_bucket trie bucket i =
    alternate_bucket trie (entry_at trie (record { bucket = bucket; index = i })) bucket

pub child_bucket-lt :
    (trie : Trie) (b i : ℕ)
    → IsTable trie
    → b < trie.num_buckets
    → child_bucket trie b i < trie.num_buckets
child_bucket-lt trie b i h below =
    (alternate_bucket_twice trie (entry_at trie (record { bucket = b; index = i })) b h.geometry
      (h.stored b i below) below).0

-- The entry at place `k` was generated by an earlier one.
pub record IsChild (trie : Trie) (immovable : Option Cell) (queue : List QueueEntry) (k : ℕ)
    : Type 0 where
  pub earlier : (queue_at queue k).parent_queue_pos < k
  pub index_fits : (queue_at queue k).child_idx < 4
  pub movable :
      must_stay immovable (record {
        bucket = (queue_at queue (queue_at queue k).parent_queue_pos).bucket;
        index = (queue_at queue k).child_idx;
      })
      ≡ false
  pub bucket_eq :
      (queue_at queue k).bucket
      ≡ child_bucket trie
          (queue_at queue (queue_at queue k).parent_queue_pos).bucket
          (queue_at queue k).child_idx

pub record IsQueue (trie : Trie) (immovable : Option Cell) (bucket_num : ℕ)
    (queue : List QueueEntry) : Type 0 where
  pub not_empty : 0 < length queue
  pub small : length queue ≤ relocate_queue_size
  pub first : (queue_at queue 0).bucket ≡ bucket_num
  pub in_range : (k : ℕ) → k < length queue → (queue_at queue k).bucket < trie.num_buckets
  pub child : (k : ℕ) → 0 < k → k < length queue → IsChild trie immovable queue k
  pub distinct :
      (j k : ℕ) → j < k → k < length queue → (queue_at queue j).bucket ≢ (queue_at queue k).bucket

pub not_inserted :
    (queue : List QueueEntry) (b k : ℕ)
    → already_inserted queue b ≡ false
    → k < length queue
    → (queue_at queue k).bucket ≢ b
unfolding already_inserted
not_inserted [] b k h below q = absurd (omega (arith, below))
not_inserted (e ∷ rest) b zero h below q = absurd (ground (arith, h, q))
not_inserted (e ∷ rest) b (suc k) h below q =
    not_inserted rest b k (ground (arith, h)) (omega (arith, below)) q

last_of_append :
    (queue : List QueueEntry) (e : QueueEntry) → queue_at (queue ++ e ∷ []) (length queue) ≡ e
last_of_append [] e = refl
last_of_append (d ∷ rest) e = last_of_append rest e

module _ (trie : Trie) (immovable : Option Cell) (table : IsTable trie) (bucket_num : ℕ)
    (queue : List QueueEntry) (q : IsQueue trie immovable bucket_num queue) (pos : ℕ)
    (pos_fits : pos < length queue) (i : ℕ) (i_fits : i < 4)
    (new : already_inserted queue (child_bucket trie (queue_at queue pos).bucket i) ≡ false)
    (movable : must_stay immovable (record { bucket = (queue_at queue pos).bucket; index = i })
      ≡ false)
    (room : length queue < relocate_queue_size) where
  abbrev new_entry : QueueEntry
  new_entry = record {
    bucket = child_bucket trie (queue_at queue pos).bucket i;
    parent_queue_pos = pos;
    child_idx = i;
  }

  longer : length (queue ++ new_entry ∷ []) ≡ suc (length queue)
  longer = omega (arith, length-append queue (new_entry ∷ []))

  old : (k : ℕ) → k < length queue → queue_at (queue ++ new_entry ∷ []) k ≡ queue_at queue k
  old k below = get_or-append_left queue (new_entry ∷ []) k no_entry below

  last : queue_at (queue ++ new_entry ∷ []) (length queue) ≡ new_entry
  last = last_of_append queue new_entry

  -- A place of the longer queue is an old one or the last one.
  place_cases :
      (k : ℕ) → k < length (queue ++ new_entry ∷ []) → (k < length queue) ⊎ (k ≡ length queue)
  place_cases k below = elim (dec_lt k (length queue)) [
    | yes before ↦ inl before
    | no behind ↦ inr (omega (arith, below, longer, behind))
  ]

  old_child :
      (k : ℕ) → 0 < k → k < length queue → IsChild trie immovable (queue ++ new_entry ∷ []) k
  old_child k positive below =
      let c = q.child k positive below in
      record {
        earlier = rw (old k below) c.earlier;
        index_fits = rw (old k below) c.index_fits;
        movable =
            rw
              (
                old k below,
                old (queue_at queue k).parent_queue_pos (omega (arith, c.earlier, below)),
              )
              c.movable;
        bucket_eq =
            rw
              (
                old k below,
                old (queue_at queue k).parent_queue_pos (omega (arith, c.earlier, below)),
              )
              c.bucket_eq;
      }

  last_child : IsChild trie immovable (queue ++ new_entry ∷ []) (length queue)
  last_child = record {
    earlier = rw (last) pos_fits;
    index_fits = rw (last) i_fits;
    movable = rw (last, old pos pos_fits) movable;
    bucket_eq = rw (last, old pos pos_fits) refl;
  }

  pub append-IsQueue : IsQueue trie immovable bucket_num (queue ++ new_entry ∷ [])
  append-IsQueue = record {
    not_empty = omega (arith, longer);
    small = omega (arith, longer, room);
    first = rw (old 0 q.not_empty) q.first;
    in_range = λ k below. elim (place_cases k below) [
      | inl before ↦ rw (old k before) (q.in_range k before)
      | inr here ↦
          rw (here, last)
            (child_bucket-lt trie (queue_at queue pos).bucket i table (q.in_range pos pos_fits))
    ];
    child = λ k positive below. elim (place_cases k below) [
      | inl before ↦ old_child k positive before
      | inr here ↦ rw (here) last_child
    ];
    distinct = λ j k ordered below. elim (place_cases k below) [
      | inl before ↦
          rw (old k before, old j (omega (arith, ordered, before))) (q.distinct j k ordered before)
      | inr here ↦
          let earlier : j < length queue = omega (arith, ordered, here) in
          rw (here, last, old j earlier)
            (not_inserted queue (child_bucket trie (queue_at queue pos).bucket i) j new earlier)
    ];
  }
