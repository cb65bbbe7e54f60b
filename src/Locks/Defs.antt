-- ===== src/Locks/Defs.antt =====
-- The lock manager of atomics.c: what a thread does to its own table of locks and to the words
-- `write_lock_and_seq` that all threads share.
--
-- Once a thread has a bucket's lock byte, no other thread changes the word, so each function acts
-- on the shared words in one step: at its exchange, at its store of 0, or at its read of a word.
-- `none` is an assertion that fails.
use cuckoo_trie_vectorized.Base.{
  ℕ, zero, suc, ◌+◌, ◌-◌, ◌*◌, ◌/◌, ◌%◌, ◌^◌, bit_and, Bool, true, false, List, [], ◌∷◌, Option,
  none, some, ◌==◌, ltb, if◌then◌else◌, get_or, set, length, replicate, u32,
}
use cuckoo_trie_vectorized.Config.{cuckoo_bucket_size, max_locks}
use cuckoo_trie_vectorized.Trie.{Cell}

-- `ct_bucket_write_lock`
pub record BucketWriteLock : Type 0 where
  pub bucket : ℕ
  pub entry_refcounts : List ℕ
  pub total_refcount : ℕ

-- `ct_bucket_read_lock`
pub record BucketReadLock : Type 0 where
  pub bucket : ℕ
  pub seq : ℕ

-- What a thread sees: the shared words by bucket, and `ct_lock_mgr`. The head of `locks` is the lock
-- before `next_write_lock`, the last one is `bucket_write_locks[0]`.
pub record LockState : Type 0 where
  pub words : ℕ → ℕ
  pub locks : List BucketWriteLock

-- The position and sequence word that a `ct_entry_local_copy` remembers.
pub record EntryPosition : Type 0 where
  pub last_pos : Cell
  pub last_seq : ℕ

pub data Status : Type 0 where
  si_ok : Status
  si_retry : Status
  si_exists : Status
  si_fail : Status

abbrev pub store_word : (ℕ → ℕ) → ℕ → ℕ → ℕ → ℕ
store_word words b w c = if c == b then w else words c

-- The byte `write_lock`, the lowest of the word, and a store to it.
abbrev pub lock_byte : ℕ → ℕ
lock_byte w = w % 2 ^ 8

abbrev pub with_lock_byte : ℕ → ℕ → ℕ
with_lock_byte w byte = w / 2 ^ 8 * 2 ^ 8 + byte

-- `w & (~0xFF)`
unfoldable pub masked_seq : ℕ → ℕ
masked_seq w = bit_and w (2 ^ 32 - 1 - 0xFF)

abbrev pub no_lock : BucketWriteLock
no_lock = record { bucket = 0; entry_refcounts = []; total_refcount = 0 }

-- The exchange: whether the byte was 0, and the words after it.
unfoldable pub try_take_lock : (ℕ → ℕ) → ℕ → Bool
try_take_lock words b = lock_byte (words b) == 0

abbrev pub taken : (ℕ → ℕ) → ℕ → ℕ → ℕ
taken words b = store_word words b (with_lock_byte (words b) 1)

abbrev pub freed : (ℕ → ℕ) → ℕ → ℕ → ℕ
freed words b = store_word words b (with_lock_byte (words b) 0)

-- The place of the lock, counted from the newest.
unfoldable pub find_write_lock : List BucketWriteLock → ℕ → Option ℕ
find_write_lock [] b = none
find_write_lock (lock ∷ rest) b =
    if lock.bucket == b
    then some 0
    else elim (find_write_lock rest b) [ none ↦ none | some i ↦ some (suc i) ]

unfoldable pub bucket_write_locked : LockState → ℕ → Bool
bucket_write_locked s b = elim (find_write_lock s.locks b) [ none ↦ false | some i ↦ true ]

-- The last lock of the array takes the place of the one removed.
unfoldable pub drop_lock : List BucketWriteLock → ℕ → List BucketWriteLock
drop_lock [] i = []
drop_lock (last ∷ rest) zero = rest
drop_lock (last ∷ rest) (suc i) = set rest i last

unfoldable pub remove_lock : LockState → ℕ → LockState
unfolding drop_lock
remove_lock s i = record s {
  words = freed s.words (get_or s.locks i no_lock).bucket;
  locks = drop_lock s.locks i;
}

unfoldable pub read_lock_bucket : (ℕ → ℕ) → ℕ → BucketReadLock
read_lock_bucket words b = record { bucket = b; seq = masked_seq (words b) }

unfoldable pub read_unlock_bucket : (ℕ → ℕ) → BucketReadLock → Status
read_unlock_bucket words r = if masked_seq (words r.bucket) == r.seq then si_ok else si_fail

unfoldable pub add_lock : LockState → ℕ → Option LockState
add_lock s b =
    let new_lock : BucketWriteLock = record {
      bucket = b;
      entry_refcounts = replicate cuckoo_bucket_size 0;
      total_refcount = 1;
    } in
    if ltb (length s.locks) max_locks then some (record s { locks = new_lock ∷ s.locks }) else none

-- `total_refcount++` and `entry_refcounts[i]++`, and the same with `--`; each field is a uint32_t.
abbrev pub count_up : BucketWriteLock → BucketWriteLock
count_up lock = record lock { total_refcount = u32 (lock.total_refcount + 1) }

abbrev pub count_down : BucketWriteLock → BucketWriteLock
count_down lock = record lock { total_refcount = u32 (lock.total_refcount + 2 ^ 32 - 1) }

abbrev pub entry_up : BucketWriteLock → ℕ → BucketWriteLock
entry_up lock i = record lock {
  entry_refcounts = set lock.entry_refcounts i (u32 (get_or lock.entry_refcounts i 0 + 1));
}

abbrev pub entry_down : BucketWriteLock → ℕ → BucketWriteLock
entry_down lock i = record lock {
  entry_refcounts = set lock.entry_refcounts i (u32 (get_or lock.entry_refcounts i 0 + 2 ^ 32 - 1));
}

abbrev pub lock_at : LockState → ℕ → BucketWriteLock
lock_at s i = get_or s.locks i no_lock

abbrev pub set_lock : LockState → ℕ → BucketWriteLock → LockState
set_lock s i lock = record s { locks = set s.locks i lock }

-- NULL is `si_retry`.
unfoldable pub write_lock_unlocked_bucket : LockState → ℕ → Option (Status × LockState)
unfolding add_lock try_take_lock
write_lock_unlocked_bucket s b = elim (find_write_lock s.locks b) [
  | some i ↦ none
  | none ↦
      if try_take_lock s.words b
      then elim (add_lock (record s { words = taken s.words b }) b) [
        | none ↦ none
        | some s' ↦ some (si_ok, s')
      ]
      else some (si_retry, record s { words = taken s.words b })
]
