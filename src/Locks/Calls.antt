-- ===== src/Locks/Calls.antt =====
-- The functions of atomics.c by which the rest of the library locks and unlocks buckets and entries.
use cuckoo_trie_vectorized.Base.{
  ℕ, ◌+◌, ◌*◌, ◌/◌, ◌%◌, ◌^◌, bit_and, List, [], ◌∷◌, Option, none, some, ◌==◌, if◌then◌else◌,
  get_or, u32,
}
use cuckoo_trie_vectorized.Config.{seq_increment}
use cuckoo_trie_vectorized.Trie.{Cell}
use cuckoo_trie_vectorized.Locks.Defs.{
  BucketWriteLock, BucketReadLock, LockState, EntryPosition, Status, si_ok, si_retry, store_word,
  masked_seq, try_take_lock, taken, freed, find_write_lock, drop_lock, remove_lock, add_lock,
  count_up, count_down, entry_up, entry_down, lock_at, set_lock, write_lock_unlocked_bucket,
}

-- A NULL result is `si_retry`.
unfoldable pub write_lock_bucket : LockState → ℕ → Option (Status × LockState)
unfolding add_lock try_take_lock
write_lock_bucket s b =
    let s' : LockState = record s { words = taken s.words b } in
    if try_take_lock s.words b
    then elim (add_lock s' b) [ none ↦ none | some new ↦ some (si_ok, new) ]
    else elim (find_write_lock s.locks b) [
      | none ↦ some (si_retry, s')
      | some i ↦ some (si_ok, set_lock s' i (count_up (lock_at s i)))
    ]

-- `total_refcount--`, and the lock goes when nothing is left of it.
unfoldable pub lower_lock : LockState → ℕ → BucketWriteLock → LockState
unfolding remove_lock drop_lock
lower_lock s i lock =
    let lowered = set_lock s i (count_down lock) in
    if (count_down lock).total_refcount == 0 then remove_lock lowered i else lowered

unfoldable pub release_bucket_lock : LockState → ℕ → Option LockState
release_bucket_lock s b = elim (find_write_lock s.locks b) [
  | none ↦ none
  | some i ↦ if (lock_at s i).total_refcount == 0 then none else some (lower_lock s i (lock_at s i))
]

unfoldable pub upgrade_bucket_lock : LockState → BucketReadLock → Option (Status × LockState)
upgrade_bucket_lock s r = elim (find_write_lock s.locks r.bucket) [
  | some i ↦
      if masked_seq (s.words r.bucket) == r.seq
      then some (si_ok, set_lock s i (count_up (lock_at s i)))
      else some (si_retry, s)
  | none ↦ elim (write_lock_unlocked_bucket s r.bucket) [
    | none ↦ none
    | some (si_ok, s') ↦
        if masked_seq (s'.words r.bucket) == r.seq
        then some (si_ok, s')
        else elim (release_bucket_lock s' r.bucket) [
          | none ↦ none
          | some s'' ↦ some (si_retry, s'')
        ]
    | some (other, s') ↦ some (si_retry, s')
  ]
]

unfoldable pub write_lock_entry_in_locked_bucket : LockState → Cell → Option LockState
write_lock_entry_in_locked_bucket s entry = elim (find_write_lock s.locks entry.bucket) [
  | none ↦ none
  | some i ↦ some (set_lock s i (entry_up (count_up (lock_at s i)) entry.index))
]

-- Where source and destination share a bucket, both pointers name one lock.
unfoldable pub move_entry_lock : LockState → Cell → Cell → Option LockState
move_entry_lock s dst src = elim (find_write_lock s.locks src.bucket) [
  | none ↦ none
  | some i ↦ elim (find_write_lock s.locks dst.bucket) [
    | none ↦ none
    | some j ↦
        let s' = set_lock s i (count_down (entry_down (lock_at s i) src.index)) in
        let s'' = set_lock s' j (count_up (entry_up (lock_at s' j) dst.index)) in
        if get_or (lock_at s i).entry_refcounts src.index 0 == 0 then some s else some s''
  ]
]

-- The three upper bytes, read as a word and a byte.
unfoldable pub read_bucket_seq : ℕ → ℕ
read_bucket_seq w =
    let low_word = w / 2 ^ 8 % 2 ^ 16 in
    let high_byte = w / 2 ^ 24 % 2 ^ 8 in u32 (high_byte * 2 ^ 24 + low_word * 2 ^ 8)

unfoldable pub upgrade_lock : LockState → EntryPosition → Option (Status × LockState)
unfolding add_lock try_take_lock
upgrade_lock s entry =
    let b = entry.last_pos.bucket in
    let entry_seq = masked_seq entry.last_seq in
    let s' : LockState = record s { words = taken s.words b } in
    if try_take_lock s.words b
    then elim (add_lock s' b) [
      | none ↦ none
      | some new ↦
          if read_bucket_seq (new.words b) == entry_seq
          then some (si_ok, set_lock new 0 (entry_up (lock_at new 0) entry.last_pos.index))
          else elim (release_bucket_lock new b) [ none ↦ none | some old ↦ some (si_retry, old) ]
    ]
    else elim (find_write_lock s.locks b) [
      | none ↦ some (si_retry, s')
      | some i ↦
          if masked_seq (s'.words b) == entry_seq
          then some (si_ok, set_lock s' i (count_up (entry_up (lock_at s i) entry.last_pos.index)))
          else some (si_retry, s')
    ]

unfoldable pub write_unlock : LockState → Cell → Option LockState
write_unlock s entry = elim (find_write_lock s.locks entry.bucket) [
  | none ↦ none
  | some i ↦
      if get_or (lock_at s i).entry_refcounts entry.index 0 == 0
      then none
      else some (lower_lock s i (entry_down (lock_at s i) entry.index))
]

-- The stores of 0, from the oldest lock to the newest.
unfoldable pub free_all : (ℕ → ℕ) → List BucketWriteLock → ℕ → ℕ
free_all words [] = words
free_all words (lock ∷ older) = freed (free_all words older) lock.bucket

unfoldable pub release_all_locks : LockState → LockState
unfolding free_all
release_all_locks s = record { words = free_all s.words s.locks; locks = [] }

-- What `write_entry` leaves of the sequence: two increments, from an even one in a locked bucket.
unfoldable pub write_entry_seq : (ℕ → ℕ) → ℕ → Option (ℕ → ℕ)
write_entry_seq words b =
    let seq = words b in
    if bit_and seq seq_increment == 0
    then (if bit_and seq 1 == 0
        then none
        else some (store_word words b (u32 (seq + 2 * seq_increment))))
    else none
