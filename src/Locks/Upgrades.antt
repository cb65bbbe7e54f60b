-- ===== src/Locks/Upgrades.antt =====
-- The calls that take a lock and check the sequence behind it, and the release of all locks.
use cuckoo_trie_vectorized.Base.{
  ℕ, List, [], ◌∷◌, none, some, ◌==◌, if◌then◌else◌, ◌≡◌, refl, arith, Bool-cases, Option-cases,
  inl, inr,
}
use cuckoo_trie_vectorized.Locks.Defs.{
  BucketWriteLock, BucketReadLock, LockState, EntryPosition, Status, si_ok, si_retry, si_exists,
  si_fail, find_write_lock, try_take_lock, add_lock, set_lock, lock_at, count_up, entry_up,
  masked_seq, write_lock_unlocked_bucket, lock_byte,
}
use cuckoo_trie_vectorized.Locks.Calls.{
  release_bucket_lock, upgrade_bucket_lock, read_bucket_seq, upgrade_lock, release_all_locks,
  free_all,
}
use cuckoo_trie_vectorized.Locks.Held.{held}
use cuckoo_trie_vectorized.Locks.Changes.{
  IsLockState, Tracks, Tracks-refl, Tracks-trans, Tracks-IsLockState, set_lock-Tracks,
  add_lock-Tracks, taken_again-Tracks,
}
use cuckoo_trie_vectorized.Locks.Tracking.{
  release_bucket_lock-Tracks, write_lock_unlocked_bucket-Tracks, counted_again-Tracks, exchanged,
}

-- Every held bucket is freed.
free_all_byte :
    (words : ℕ → ℕ) (locks : List BucketWriteLock) (c : ℕ)
    → lock_byte (free_all words locks c) ≡ (if held locks c then 0 else lock_byte (words c))
unfolding free_all
free_all_byte words [] c = refl
free_all_byte words (lock ∷ older) c = ground (arith, free_all_byte words older c)

module _ (s : LockState) (v : IsLockState s) where
  pub release_all_locks-Tracks : Tracks s (release_all_locks s)
  unfolding release_all_locks
  release_all_locks-Tracks = record {
    still_distinct = tt;
    change = λ c. ground (arith, free_all_byte s.words s.locks c);
  }

  -- Giving back a lock that was just taken.
  given_back-Tracks :
      (b : ℕ) (s' s'' : LockState)
      → Tracks s s'
      → release_bucket_lock s' b ≡ some s''
      → Tracks s s''
  given_back-Tracks b s' s'' t e =
      Tracks-trans s v s' s'' t
        (release_bucket_lock-Tracks s' (Tracks-IsLockState s v s' t) b s'' e)

  pub upgrade_bucket_lock-Tracks :
      (r : BucketReadLock) (status : Status) (s' : LockState)
      → upgrade_bucket_lock s r ≡ some (status, s')
      → Tracks s s'
  unfolding upgrade_bucket_lock
  upgrade_bucket_lock-Tracks r status s' e =
      elim (Option-cases (find_write_lock s.locks r.bucket)) [
        | inr (i, found) ↦ elim (Bool-cases (masked_seq (s.words r.bucket) == r.seq)) [
          | inl same ↦
              let q : s' ≡ set_lock s i (count_up (lock_at s i)) = ground arith in
              rw q (set_lock-Tracks s v i (count_up (lock_at s i)) refl)
          | inr changed ↦ let q : s' ≡ s = ground arith in rw q (Tracks-refl s v)
        ]
        | inl missing ↦ elim (Option-cases (write_lock_unlocked_bucket s r.bucket)) [
          | inl full ↦ absurd (ground arith)
          | inr ((got, held_now), locked) ↦ after_lock got held_now locked missing
        ]
      ]
    where
      locks_it :
          (held_now : LockState) (got : Status)
          → write_lock_unlocked_bucket s r.bucket ≡ some (got, held_now)
          → Tracks s held_now
      locks_it held_now got = write_lock_unlocked_bucket-Tracks s v r.bucket got held_now

      after_lock :
          (got : Status) (held_now : LockState)
          → write_lock_unlocked_bucket s r.bucket ≡ some (got, held_now)
          → find_write_lock s.locks r.bucket ≡ none
          → Tracks s s'
      after_lock si_ok held_now locked missing =
          elim (Bool-cases (masked_seq (held_now.words r.bucket) == r.seq)) [
            | inl same ↦
                let q : s' ≡ held_now = ground arith in rw q (locks_it held_now si_ok locked)
            | inr changed ↦ elim (Option-cases (release_bucket_lock held_now r.bucket)) [
              | inl gone ↦ absurd (ground arith)
              | inr (old, released) ↦
                  let q : s' ≡ old = ground arith in
                  rw q (
                    given_back-Tracks r.bucket held_now old (locks_it held_now si_ok locked)
                      released)
            ]
          ]
      after_lock si_retry held_now locked missing =
          let q : s' ≡ held_now = ground arith in rw q (locks_it held_now si_retry locked)
      after_lock si_exists held_now locked missing =
          let q : s' ≡ held_now = ground arith in rw q (locks_it held_now si_exists locked)
      after_lock si_fail held_now locked missing =
          let q : s' ≡ held_now = ground arith in rw q (locks_it held_now si_fail locked)

  pub upgrade_lock-Tracks :
      (entry : EntryPosition) (status : Status) (s' : LockState)
      → upgrade_lock s entry ≡ some (status, s')
      → Tracks s s'
  unfolding upgrade_lock
  upgrade_lock-Tracks entry status s' e = elim (Bool-cases (try_take_lock s.words b)) [
    | inl free ↦ elim (Option-cases (add_lock (exchanged s v b) b)) [
      | inl full ↦ absurd (ground arith)
      | inr (new, added) ↦ elim (Bool-cases (read_bucket_seq (new.words b) == seq)) [
        | inl same ↦
            let q : s' ≡ set_lock new 0 (entry_up (lock_at new 0) entry.last_pos.index) =
              ground arith in
            rw q (counted new (add_lock-Tracks s v b new free added))
        | inr changed ↦ elim (Option-cases (release_bucket_lock new b)) [
          | inl gone ↦ absurd (ground arith)
          | inr (old, released) ↦
              let q : s' ≡ old = ground arith in
              rw q (given_back-Tracks b new old (add_lock-Tracks s v b new free added) released)
        ]
      ]
    ]
    | inr busy ↦ elim (Option-cases (find_write_lock s.locks b)) [
      | inl missing ↦
          let q : s' ≡ exchanged s v b = ground arith in rw q (taken_again-Tracks s v b busy)
      | inr (i, found) ↦ elim (Bool-cases (masked_seq ((exchanged s v b).words b) == seq)) [
        | inl same ↦
            let q : s' ≡ set_lock (exchanged s v b) i (more i) = ground arith in
            rw q (counted_again-Tracks s v b i (more i) busy refl)
        | inr changed ↦
            let q : s' ≡ exchanged s v b = ground arith in rw q (taken_again-Tracks s v b busy)
      ]
    ]
  ]
    where
      b : ℕ
      b = entry.last_pos.bucket

      seq : ℕ
      seq = masked_seq entry.last_seq

      more : ℕ → BucketWriteLock
      more i = count_up (entry_up (lock_at s i) entry.last_pos.index)

      counted :
          (new : LockState)
          → Tracks s new
          → Tracks s (set_lock new 0 (entry_up (lock_at new 0) entry.last_pos.index))
      counted new t = Tracks-trans s v new _ t (
          set_lock-Tracks new (Tracks-IsLockState s v new t) 0
            (entry_up (lock_at new 0) entry.last_pos.index) refl)
