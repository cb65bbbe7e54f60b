-- ===== src/Locks/Tracking.antt =====
-- Every call of the lock manager keeps the locks and the lock bytes together.
use cuckoo_trie_vectorized.Base.{
  ℕ, ◌+◌, ◌<◌, false, some, ◌==◌, get_or, length, length-set, ◌≡◌, refl, arith, Bool-cases,
  Option-cases, u32, inl, inr,
}
use cuckoo_trie_vectorized.Trie.{Cell}
use cuckoo_trie_vectorized.Locks.Defs.{
  BucketWriteLock, store_word, LockState, Status, find_write_lock, taken, try_take_lock, add_lock,
  set_lock, lock_at, count_up, count_down, entry_up, entry_down, write_lock_unlocked_bucket,
}
use cuckoo_trie_vectorized.Locks.Calls.{
  write_lock_bucket, lower_lock, release_bucket_lock, write_lock_entry_in_locked_bucket,
  move_entry_lock, write_unlock, write_entry_seq,
}
use cuckoo_trie_vectorized.Locks.Held.{find_write_lock-some}
use cuckoo_trie_vectorized.Locks.Changes.{
  IsLockState, Tracks, Tracks-refl, Tracks-trans, Tracks-IsLockState, set_lock-Tracks,
  remove_lock-Tracks, add_lock-Tracks, taken_again-Tracks, store_word-Tracks,
}

module _ (s : LockState) (v : IsLockState s) where
  pub lower_lock-Tracks :
      (i : ℕ) (lock : BucketWriteLock)
      → i < length s.locks
      → lock.bucket ≡ (lock_at s i).bucket
      → Tracks s (lower_lock s i lock)
  unfolding lower_lock
  lower_lock-Tracks i lock below same = elim (Bool-cases ((count_down lock).total_refcount == 0)) [
    | inl last ↦ rw last (
        Tracks-trans s v lowered _ kept (
          remove_lock-Tracks lowered (Tracks-IsLockState s v lowered kept) i
            (rw (length-set s.locks i (count_down lock)) below)))
    | inr more ↦ rw more kept
  ]
    where
      lowered : LockState
      lowered = set_lock s i (count_down lock)

      kept : Tracks s lowered
      kept = set_lock-Tracks s v i (count_down lock) same

  pub release_bucket_lock-Tracks :
      (b : ℕ) (s' : LockState) → release_bucket_lock s b ≡ some s' → Tracks s s'
  unfolding release_bucket_lock
  release_bucket_lock-Tracks b s' e = elim (Option-cases (find_write_lock s.locks b)) [
    | inl missing ↦ absurd (ground arith)
    | inr (i, found) ↦
        let q : s' ≡ lower_lock s i (lock_at s i) = ground arith in
        rw q (lower_lock-Tracks i (lock_at s i) ((find_write_lock-some s.locks b i found).0) refl)
  ]

  abbrev pub exchanged : ℕ → LockState
  exchanged b = record s { words = taken s.words b }

  -- A change of counts behind an exchange that failed.
  pub counted_again-Tracks :
      (b i : ℕ) (lock : BucketWriteLock)
      → try_take_lock s.words b ≡ false
      → lock.bucket ≡ (lock_at s i).bucket
      → Tracks s (set_lock (exchanged b) i lock)
  counted_again-Tracks b i lock failed same =
      Tracks-trans s v (exchanged b) _ again
        (set_lock-Tracks (exchanged b) (Tracks-IsLockState s v (exchanged b) again) i lock same)
    where
      again : Tracks s (exchanged b)
      again = taken_again-Tracks s v b failed

  pub write_lock_bucket-Tracks :
      (b : ℕ) (r : Status) (s' : LockState) → write_lock_bucket s b ≡ some (r, s') → Tracks s s'
  unfolding write_lock_bucket
  write_lock_bucket-Tracks b r s' e = elim (Bool-cases (try_take_lock s.words b)) [
    | inl free ↦ elim (Option-cases (add_lock (exchanged b) b)) [
      | inl full ↦ absurd (ground arith)
      | inr (new, added) ↦
          let q : s' ≡ new = ground arith in rw q (add_lock-Tracks s v b new free added)
    ]
    | inr busy ↦ elim (Option-cases (find_write_lock s.locks b)) [
      | inl missing ↦
          let q : s' ≡ exchanged b = ground arith in rw q (taken_again-Tracks s v b busy)
      | inr (i, found) ↦
          let q : s' ≡ set_lock (exchanged b) i (count_up (lock_at s i)) = ground arith in
          rw q (counted_again-Tracks b i (count_up (lock_at s i)) busy refl)
    ]
  ]

  pub write_lock_unlocked_bucket-Tracks :
      (b : ℕ) (r : Status) (s' : LockState)
      → write_lock_unlocked_bucket s b ≡ some (r, s')
      → Tracks s s'
  unfolding write_lock_unlocked_bucket
  write_lock_unlocked_bucket-Tracks b r s' e = elim (Option-cases (find_write_lock s.locks b)) [
    | inr (i, found) ↦ absurd (ground arith)
    | inl missing ↦ elim (Bool-cases (try_take_lock s.words b)) [
      | inr busy ↦ let q : s' ≡ exchanged b = ground arith in rw q (taken_again-Tracks s v b busy)
      | inl free ↦ elim (Option-cases (add_lock (exchanged b) b)) [
        | inl full ↦ absurd (ground arith)
        | inr (new, added) ↦
            let q : s' ≡ new = ground arith in rw q (add_lock-Tracks s v b new free added)
      ]
    ]
  ]

  pub write_lock_entry-Tracks :
      (c : Cell) (s' : LockState) → write_lock_entry_in_locked_bucket s c ≡ some s' → Tracks s s'
  unfolding write_lock_entry_in_locked_bucket
  write_lock_entry-Tracks c s' e = elim (Option-cases (find_write_lock s.locks c.bucket)) [
    | inl missing ↦ absurd (ground arith)
    | inr (i, found) ↦
        let q : s' ≡ set_lock s i (entry_up (count_up (lock_at s i)) c.index) = ground arith in
        rw q (set_lock-Tracks s v i (entry_up (count_up (lock_at s i)) c.index) refl)
  ]

  pub write_unlock-Tracks : (c : Cell) (s' : LockState) → write_unlock s c ≡ some s' → Tracks s s'
  unfolding write_unlock
  write_unlock-Tracks c s' e = elim (Option-cases (find_write_lock s.locks c.bucket)) [
    | inl missing ↦ absurd (ground arith)
    | inr (i, found) ↦
        let q : s' ≡ lower_lock s i (entry_down (lock_at s i) c.index) = ground arith in
        rw q (
          lower_lock-Tracks i (entry_down (lock_at s i) c.index)
            ((find_write_lock-some s.locks c.bucket i found).0) refl)
  ]

  pub move_entry_lock-Tracks :
      (dst src : Cell) (s' : LockState) → move_entry_lock s dst src ≡ some s' → Tracks s s'
  unfolding move_entry_lock
  move_entry_lock-Tracks dst src s' e = elim (Option-cases (find_write_lock s.locks src.bucket)) [
    | inl missing ↦ absurd (ground arith)
    | inr (i, found) ↦ elim (Option-cases (find_write_lock s.locks dst.bucket)) [
      | inl missing ↦ absurd (ground arith)
      | inr (j, found') ↦
          elim (Bool-cases (get_or (lock_at s i).entry_refcounts src.index 0 == 0)) [
            | inl unlocked ↦ let q : s' ≡ s = ground arith in rw q (Tracks-refl s v)
            | inr moved ↦
                let q : s'
                    ≡ set_lock (left i) j (count_up (entry_up (lock_at (left i) j) dst.index)) =
                  ground arith in
                rw q (
                  Tracks-trans s v (left i) _ (leaves i) (
                    set_lock-Tracks (left i) (Tracks-IsLockState s v (left i) (leaves i)) j
                      (count_up (entry_up (lock_at (left i) j) dst.index)) refl))
          ]
    ]
  ]
    where
      left : ℕ → LockState
      left i = set_lock s i (count_down (entry_down (lock_at s i) src.index))

      leaves : (i : ℕ) → Tracks s (left i)
      leaves i = set_lock-Tracks s v i (count_down (entry_down (lock_at s i) src.index)) refl

  pub write_entry_seq-Tracks :
      (b : ℕ) (words : ℕ → ℕ)
      → write_entry_seq s.words b ≡ some words
      → Tracks s (record s { words = words })
  unfolding write_entry_seq
  write_entry_seq-Tracks b words e =
      let q : words ≡ store_word s.words b (u32 (s.words b + 512)) = ground arith in
      rw q (store_word-Tracks s v b (u32 (s.words b + 512)) (omega arith))
