-- ===== src/Tests/LockRuns.antt =====
-- The theorems on locks and on the sequence lock at concrete runs.
use cuckoo_trie_vectorized.Base.{ℕ, ◌+◌, ◌^◌, ◌<◌, ◌≡◌, refl, arith, true, List, [], ◌∷◌, some}
use cuckoo_trie_vectorized.Locks.{
  LockState, EntryPosition, si_ok, si_retry, taken, freed, find_write_lock, lower_lock, remove_lock,
  drop_lock, write_lock_bucket, release_bucket_lock, upgrade_lock, add_lock, try_take_lock,
  masked_seq, read_bucket_seq,
}
use cuckoo_trie_vectorized.Locks.Changes.{IsLockState, with_new_lock}
use cuckoo_trie_vectorized.Locks.Balance
use cuckoo_trie_vectorized.Locks.Balance.{SameLocks}
use cuckoo_trie_vectorized.Locks.Outcome
use cuckoo_trie_vectorized.Locks.Outcome.{UpgradeOutcome}
use cuckoo_trie_vectorized.Locks.Threads
use cuckoo_trie_vectorized.Locks.Threads.{
  Threads, LockCall, IsExclusive, Reach, no_locks, view, resume, perform,
}
use cuckoo_trie_vectorized.Seqlock.{
  Access, begin_write, writer_access, reader_access, lock_access, finished, accesses, access,
  writer_starts, writer_moves, reader_moves, lock_moves,
}
use cuckoo_trie_vectorized.Seqlock.Reads
use cuckoo_trie_vectorized.Seqlock.Reads.{at_rest}

abbrev unlocked : ℕ → ℕ
unlocked c = 0

abbrev before : LockState
before = record { words = unlocked; locks = [] }

-- The thread has locked bucket 7.
abbrev after : LockState
after = with_new_lock (record before { words = taken unlocked 7 }) 7

locks_seven : write_lock_bucket before 7 ≡ some (si_ok, after)
unfolding write_lock_bucket add_lock try_take_lock
locks_seven = refl

Reach-IsExclusive_example : IsExclusive (resume (no_locks unlocked) 3 after)
unfolding perform
Reach-IsExclusive_example =
    Threads.Reach-IsExclusive unlocked (λ c. refl)
      (Threads.next Threads.here
        (Threads.act (no_locks unlocked) 3 (Threads.write_lock 7) after (rw locks_seven refl)))

before-IsLockState : IsLockState before
before-IsLockState = record {
  distinct = tt;
  bytes = λ c. omega arith;
  locked = λ c held. absurd (ground arith);
}

release-write_lock_example :
    (s'' : LockState) × (release_bucket_lock after 7 ≡ some s'') × SameLocks before s''
unfolding find_write_lock
release-write_lock_example =
    Balance.release_bucket_lock-write_lock_bucket before before-IsLockState 7 after locks_seven
      (λ i found. absurd (ground arith))

-- Bucket 7 was written once since the entry was read.
abbrev written : LockState
written = record { words = λ c. 512; locks = [] }

abbrev stale : EntryPosition
stale = record { last_pos = record { bucket = 7; index = 2 }; last_seq = 0 }

written-IsLockState : IsLockState written
written-IsLockState = record {
  distinct = tt;
  bytes = λ c. omega arith;
  locked = λ c held. absurd (ground arith);
}

abbrev given_up : LockState
given_up = record { words = freed (taken written.words 7) 7; locks = [] }

gives_up : upgrade_lock written stale ≡ some (si_retry, given_up)
unfolding upgrade_lock try_take_lock add_lock read_bucket_seq masked_seq release_bucket_lock
    find_write_lock lower_lock remove_lock drop_lock
gives_up = refl

upgrade_lock-Outcome_example : UpgradeOutcome written stale si_retry given_up
upgrade_lock-Outcome_example =
    Outcome.upgrade_lock-Outcome written written-IsLockState stale (omega arith) si_retry given_up
      gives_up

-- A write between the loads of a reader, which starts again.
abbrev interleaved : List Access
interleaved =
    lock_access true
    ∷ reader_access
    ∷ reader_access
    ∷ begin_write 8 9
    ∷ writer_access
    ∷ reader_access
    ∷ writer_access
    ∷ writer_access
    ∷ reader_access
    ∷ reader_access
    ∷ reader_access
    ∷ reader_access
    ∷ reader_access
    ∷ []

run_of_reader : (accesses (at_rest 0 3 4) interleaved).reader ≡ finished 513 8 9
unfolding accesses access writer_starts writer_moves reader_moves lock_moves
run_of_reader = refl

few_writes :
    (accesses (at_rest 0 3 4) interleaved).finish_writes
    < (accesses (at_rest 0 3 4) interleaved).start_writes + 2 ^ 23
unfolding accesses access writer_starts writer_moves reader_moves lock_moves
few_writes = omega arith

read_entry_not_torn_example :
    (◌≡◌ 8 (accesses (at_rest 0 3 4) interleaved).start1)
    × (◌≡◌ 9 (accesses (at_rest 0 3 4) interleaved).start2)
read_entry_not_torn_example =
    Reads.read_entry_not_torn 0 3 4 interleaved 513 8 9 (omega arith) run_of_reader few_writes
