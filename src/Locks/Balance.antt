-- ===== src/Locks/Balance.antt =====
-- A release undoes a lock.
use cuckoo_trie_vectorized.Base.{
  ℕ, zero, suc, ◌+◌, ◌^◌, ◌<◌, true, false, List, [], ◌∷◌, some, ◌==◌, get_or, set, length, ◌≡◌,
  refl, ◌∙◌, ap, arith, Bool-cases, Option-cases, inl, inr, ==_iff, ==_refl, get_or-set_self,
}
use cuckoo_trie_vectorized.Locks.Defs.{
  BucketWriteLock, LockState, si_ok, lock_byte, no_lock, find_write_lock, taken, freed,
  try_take_lock, add_lock, lock_at, set_lock, count_up, count_down, remove_lock, drop_lock,
}
use cuckoo_trie_vectorized.Locks.Calls.{write_lock_bucket, release_bucket_lock, lower_lock}
use cuckoo_trie_vectorized.Locks.Held.{held, find_write_lock-some}
use cuckoo_trie_vectorized.Locks.Changes.{IsLockState, with_new_lock, add_lock-some}

-- A lock that is in use and has room for one more count.
pub record IsCounted (lock : BucketWriteLock) : Type 0 where
  pub used : 0 < lock.total_refcount
  pub has_room : lock.total_refcount + 1 < 2 ^ 32

find_write_lock-set :
    (locks : List BucketWriteLock) (b i : ℕ) (lock : BucketWriteLock)
    → find_write_lock locks b ≡ some i
    → lock.bucket ≡ b
    → find_write_lock (set locks i lock) b ≡ some i
unfolding find_write_lock
find_write_lock-set [] b i lock e same = cc
find_write_lock-set (first ∷ rest) b zero lock e same = ground (arith, ==_iff lock.bucket b)
find_write_lock-set (first ∷ rest) b (suc i) lock e same =
    ground (arith, find_write_lock-set rest b i lock)

set-set {ℓ} : {A : Type ℓ} (xs : List A) (i : ℕ) (v w : A) → set (set xs i v) i w ≡ set xs i w
set-set [] i v w = refl
set-set (x ∷ xs) zero v w = refl
set-set (x ∷ xs) (suc i) v w = ap (◌∷◌ x) (set-set xs i v w)

set-get_or {ℓ} : {A : Type ℓ} (xs : List A) (i : ℕ) (d : A) → set xs i (get_or xs i d) ≡ xs
set-get_or [] i d = refl
set-get_or (x ∷ xs) zero d = refl
set-get_or (x ∷ xs) (suc i) d = ap (◌∷◌ x) (set-get_or xs i d)

-- The same locks and the same words.
pub record SameLocks (s s' : LockState) : Type 0 where
  pub same_locks : s'.locks ≡ s.locks
  pub same_words : (c : ℕ) → s'.words c ≡ s.words c

count_up_down : (lock : BucketWriteLock) → IsCounted lock → count_down (count_up lock) ≡ lock
count_up_down lock k = ground (arith, k.has_room)

release_found :
    (s : LockState) (b i : ℕ) (lock : BucketWriteLock)
    → find_write_lock s.locks b ≡ some i
    → lock_at s i ≡ lock
    → (lock.total_refcount == 0) ≡ false
    → ((count_down lock).total_refcount == 0) ≡ false
    → release_bucket_lock s b ≡ some (set_lock s i (count_down lock))
unfolding release_bucket_lock lower_lock
release_found s b i lock found here used more = ground arith

module _ (s : LockState) (v : IsLockState s) (b : ℕ) where
  pub release_new :
      lock_byte (s.words b) ≡ 0
      → (s'' : LockState) × (release_bucket_lock
            (with_new_lock (record s { words = taken s.words b }) b)
            b
          ≡ some s'')
        × SameLocks s s''
  unfolding release_bucket_lock lower_lock find_write_lock remove_lock drop_lock
  release_new was_free = (
    record s { words = freed (taken s.words b) b },
    ground (arith, ==_refl b),
    record { same_locks = refl; same_words = λ c. ground arith },
  )

  release_counted :
      (i : ℕ) (words : ℕ → ℕ)
      → find_write_lock s.locks b ≡ some i
      → IsCounted (lock_at s i)
      → ((c : ℕ) → words c ≡ s.words c)
      → (s'' : LockState) × (release_bucket_lock
            (record { words = words; locks = set s.locks i (count_up (lock_at s i)) })
            b
          ≡ some s'')
        × SameLocks s s''
  release_counted i words found counted same = (
    record { words = words; locks = set (set s.locks i up) i (count_down up) },
    release_found (record { words = words; locks = set s.locks i up }) b i up
        (find_write_lock-set s.locks b i up found place.1)
        (get_or-set_self s.locks i up no_lock place.0) (ground (arith, counted.has_room))
        (ground (arith, counted.used, counted.has_room)),
    record { same_locks = restored; same_words = same },
  )
    where
      up : BucketWriteLock
      up = count_up (lock_at s i)

      place : (i < length s.locks) × ((lock_at s i).bucket ≡ b) × (held s.locks b ≡ true)
      place = find_write_lock-some s.locks b i found

      restored : set (set s.locks i up) i (count_down up) ≡ s.locks
      restored =
          set-set s.locks i up (count_down up)
          ∙ ap (set s.locks i) (count_up_down (lock_at s i) counted)
          ∙ set-get_or s.locks i no_lock

  -- If `write_lock_bucket` locks bucket `b`, `release_bucket_lock` then succeeds and restores the
  -- locks and every shared word, given that a lock that the thread already had on `b` is in use and
  -- has room for one more count.
  pub release_bucket_lock-write_lock_bucket :
      (s' : LockState)
      → write_lock_bucket s b ≡ some (si_ok, s')
      → ((i : ℕ) → find_write_lock s.locks b ≡ some i → IsCounted (lock_at s i))
      → (s'' : LockState) × (release_bucket_lock s' b ≡ some s'') × SameLocks s s''
  unfolding write_lock_bucket
  release_bucket_lock-write_lock_bucket s' e counted = elim (Bool-cases (try_take_lock s.words b)) [
    | inl free ↦ elim (Option-cases (add_lock (record s { words = taken s.words b }) b)) [
      | inl full ↦ absurd (ground arith)
      | inr (new, added) ↦
          let q : s' ≡ new = ground arith in
          rw (q, add_lock-some (record s { words = taken s.words b }) b new added)
            (release_new (free_byte free))
    ]
    | inr busy ↦ elim (Option-cases (find_write_lock s.locks b)) [
      | inl missing ↦ absurd (ground arith)
      | inr (i, found) ↦
          let q : s'
              ≡ record { words = taken s.words b; locks = set s.locks i (count_up (lock_at s i)) } =
            ground arith in
          rw q (release_counted i (taken s.words b) found (counted i found) (taken_again busy))
    ]
  ]
    where
      free_byte : try_take_lock s.words b ≡ true → lock_byte (s.words b) ≡ 0
      free_byte free = unfold try_take_lock in ground arith

      taken_again : try_take_lock s.words b ≡ false → (c : ℕ) → taken s.words b c ≡ s.words c
      taken_again busy c = unfold try_take_lock in ground (arith, v.bytes b)
