-- ===== src/Locks/Held.antt =====
-- Which buckets a table of locks holds, and how the changes of the table change that.
use cuckoo_trie_vectorized.Base.{
  ℕ, zero, suc, ◌<◌, Bool, true, false, not, ◌||◌, ◌&&◌, List, [], ◌∷◌, none, some, ◌==◌, get_or,
  set, length, ◌≡◌, refl, arith, ==_refl, ==_iff,
}
use cuckoo_trie_vectorized.Locks.Defs.{BucketWriteLock, find_write_lock, drop_lock, no_lock}

abbrev pub held : List BucketWriteLock → ℕ → Bool
held [] c = false
held (lock ∷ rest) c = (lock.bucket == c) || held rest c

-- No bucket has two locks.
abbrev pub Distinct : List BucketWriteLock → Type 0
Distinct [] = Unit {0}
Distinct (lock ∷ rest) = (held rest lock.bucket ≡ false) × Distinct rest

-- The place found is that of a lock on the bucket.
pub find_write_lock-some :
    (locks : List BucketWriteLock) (b i : ℕ)
    → find_write_lock locks b ≡ some i
    → (i < length locks) × ((get_or locks i no_lock).bucket ≡ b) × (held locks b ≡ true)
unfolding find_write_lock
find_write_lock-some [] b i e = cc
find_write_lock-some (lock ∷ rest) b zero e = ground (arith, find_write_lock-some rest b 0)
find_write_lock-some (lock ∷ rest) b (suc i) e = ground (arith, find_write_lock-some rest b i)

pub find_write_lock-none :
    (locks : List BucketWriteLock) (b : ℕ) → find_write_lock locks b ≡ none → held locks b ≡ false
unfolding find_write_lock
find_write_lock-none [] b e = refl
find_write_lock-none (lock ∷ rest) b e = ground (arith, find_write_lock-none rest b)

pub held-set :
    (locks : List BucketWriteLock) (i : ℕ) (lock : BucketWriteLock) (c : ℕ)
    → lock.bucket ≡ (get_or locks i no_lock).bucket
    → held (set locks i lock) c ≡ held locks c
held-set [] i lock c e = refl
held-set (first ∷ rest) zero lock c e = rw e refl
held-set (first ∷ rest) (suc i) lock c e = rw (held-set rest i lock c e) refl

pub Distinct-set :
    (locks : List BucketWriteLock) (i : ℕ) (lock : BucketWriteLock)
    → lock.bucket ≡ (get_or locks i no_lock).bucket
    → Distinct locks
    → Distinct (set locks i lock)
Distinct-set [] i lock e d = tt
Distinct-set (first ∷ rest) zero lock e d = rw e d
Distinct-set (first ∷ rest) (suc i) lock e d =
    (rw (held-set rest i lock first.bucket e) d.0, Distinct-set rest i lock e d.1)

pub held-get_or :
    (locks : List BucketWriteLock) (i : ℕ)
    → i < length locks
    → held locks (get_or locks i no_lock).bucket ≡ true
held-get_or [] i below = absurd (omega arith)
held-get_or (lock ∷ rest) zero below = rw (==_refl lock.bucket)
held-get_or (lock ∷ rest) (suc i) below = ground (arith, held-get_or rest i)

-- A lock in the place of another.
held-replace :
    (locks : List BucketWriteLock) (i : ℕ) (lock : BucketWriteLock) (c : ℕ)
    → i < length locks
    → Distinct locks
    → held (set locks i lock) c
      ≡ (lock.bucket == c) || (held locks c && not ((get_or locks i no_lock).bucket == c))
held-replace [] i lock c below d = absurd (omega arith)
held-replace (first ∷ rest) zero lock c below d = ground arith
held-replace (first ∷ rest) (suc i) lock c below d =
    ground (arith, held-replace rest i lock c, held-get_or rest i)

pub held-drop_lock :
    (locks : List BucketWriteLock) (i c : ℕ)
    → i < length locks
    → Distinct locks
    → held (drop_lock locks i) c ≡ held locks c && not ((get_or locks i no_lock).bucket == c)
unfolding drop_lock
held-drop_lock [] i c below d = absurd (omega arith)
held-drop_lock (last ∷ rest) zero c below d = ground arith
held-drop_lock (last ∷ rest) (suc i) c below d =
    ground (arith, held-replace rest i last c, held-get_or rest i)

Distinct-replace :
    (locks : List BucketWriteLock) (i : ℕ) (lock : BucketWriteLock)
    → i < length locks
    → Distinct locks
    → held locks lock.bucket ≡ false
    → Distinct (set locks i lock)
Distinct-replace [] i lock below d new = absurd (omega arith)
Distinct-replace (first ∷ rest) zero lock below d new = (ground arith, d.1)
Distinct-replace (first ∷ rest) (suc i) lock below d new = (
  ground (
    arith,
    held-replace rest i lock first.bucket,
    ==_iff lock.bucket first.bucket,
    ==_iff first.bucket lock.bucket,
  ),
  Distinct-replace rest i lock (omega arith) d.1 (ground arith),
)

pub Distinct-drop_lock :
    (locks : List BucketWriteLock) (i : ℕ)
    → i < length locks
    → Distinct locks
    → Distinct (drop_lock locks i)
unfolding drop_lock
Distinct-drop_lock [] i below d = absurd (omega arith)
Distinct-drop_lock (last ∷ rest) zero below d = d.1
Distinct-drop_lock (last ∷ rest) (suc i) below d =
    Distinct-replace rest i last (omega arith) d.1 d.0
