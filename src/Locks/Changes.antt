-- ===== src/Locks/Changes.antt =====
-- How a thread's locks and the shared lock bytes change together.
use cuckoo_trie_vectorized.Base.{
  ℕ, ◌<◌, true, false, ◌∷◌, some, length, ◌≡◌, refl, arith, ◌⊎◌, inl, replicate,
}
use cuckoo_trie_vectorized.Locks.Defs.{
  BucketWriteLock, LockState, lock_byte, with_lock_byte, taken, store_word, try_take_lock, add_lock,
  remove_lock, set_lock, lock_at,
}
use cuckoo_trie_vectorized.Locks.Held.{
  held, Distinct, held-set, Distinct-set, held-drop_lock, Distinct-drop_lock, held-get_or,
}

-- Each bucket has at most one lock, lock bytes are 0 or 1, and a bucket that is held is locked.
pub record IsLockState (s : LockState) : Type 0 where
  pub distinct : Distinct s.locks
  pub bytes : (c : ℕ) → lock_byte (s.words c) < 2
  pub locked : (c : ℕ) → held s.locks c ≡ true → lock_byte (s.words c) ≡ 1

-- For one bucket: nothing changed, it was free and is now held, or it was held and is now free.
abbrev pub Change : LockState → LockState → ℕ → Type 0
Change s s' c =
    ((lock_byte (s'.words c) ≡ lock_byte (s.words c)) × (held s'.locks c ≡ held s.locks c))
    ⊎ ((lock_byte (s.words c) ≡ 0) × (lock_byte (s'.words c) ≡ 1) × (held s'.locks c ≡ true))
    ⊎ ((held s.locks c ≡ true) × (lock_byte (s'.words c) ≡ 0) × (held s'.locks c ≡ false))

pub record Tracks (s s' : LockState) : Type 0 where
  pub still_distinct : Distinct s'.locks
  pub change : (c : ℕ) → Change s s' c

abbrev pub new_lock : ℕ → BucketWriteLock
new_lock b = record { bucket = b; entry_refcounts = replicate 4 0; total_refcount = 1 }

abbrev pub with_new_lock : LockState → ℕ → LockState
with_new_lock s b = record s { locks = new_lock b ∷ s.locks }

pub add_lock-some :
    (s : LockState) (b : ℕ) (s' : LockState) → add_lock s b ≡ some s' → s' ≡ with_new_lock s b
unfolding add_lock
add_lock-some s b s' e = ground arith

module _ (s : LockState) (v : IsLockState s) where
  pub Tracks-refl : Tracks s s
  Tracks-refl = record { still_distinct = v.distinct; change = λ c. inl (refl, refl) }

  pub Tracks-IsLockState : (s' : LockState) → Tracks s s' → IsLockState s'
  Tracks-IsLockState s' t = record {
    distinct = t.still_distinct;
    bytes = λ c. ground (arith, t.change c, v.bytes c);
    locked = λ c h. ground (arith, t.change c, v.locked c);
  }

  pub Tracks-trans : (s' s'' : LockState) → Tracks s s' → Tracks s' s'' → Tracks s s''
  Tracks-trans s' s'' t t' = record {
    still_distinct = t'.still_distinct;
    change = λ c. ground (arith, t.change c, t'.change c, v.locked c, v.bytes c);
  }

  lock_byte-store_word :
      (b w c : ℕ)
      → lock_byte w ≡ lock_byte (s.words b)
      → lock_byte (store_word s.words b w c) ≡ lock_byte (s.words c)
  lock_byte-store_word b w c e = ground arith

  -- A store that keeps the lock byte.
  pub store_word-Tracks :
      (b w : ℕ)
      → lock_byte w ≡ lock_byte (s.words b)
      → Tracks s (record s { words = store_word s.words b w })
  store_word-Tracks b w e = record {
    still_distinct = v.distinct;
    change = λ c. inl (lock_byte-store_word b w c e, refl);
  }

  -- An exchange that fails stores the 1 that is there.
  pub taken_again-Tracks :
      (b : ℕ) → try_take_lock s.words b ≡ false → Tracks s (record s { words = taken s.words b })
  unfolding try_take_lock
  taken_again-Tracks b failed =
      store_word-Tracks b (with_lock_byte (s.words b) 1) (ground (arith, v.bytes b))

  with_new_lock-Tracks :
      (b : ℕ)
      → lock_byte (s.words b) ≡ 0
      → Tracks s (with_new_lock (record s { words = taken s.words b }) b)
  with_new_lock-Tracks b was_free = record {
    still_distinct = (ground (arith, v.locked b), v.distinct);
    change = λ c. ground arith;
  }

  pub add_lock-Tracks :
      (b : ℕ) (s' : LockState)
      → try_take_lock s.words b ≡ true
      → add_lock (record s { words = taken s.words b }) b ≡ some s'
      → Tracks s s'
  unfolding try_take_lock
  add_lock-Tracks b s' was_free e =
      rw (add_lock-some (record s { words = taken s.words b }) b s' e)
        (with_new_lock-Tracks b (ground arith))

  pub set_lock-Tracks :
      (i : ℕ) (lock : BucketWriteLock)
      → lock.bucket ≡ (lock_at s i).bucket
      → Tracks s (set_lock s i lock)
  set_lock-Tracks i lock e = record {
    still_distinct = Distinct-set s.locks i lock e v.distinct;
    change = λ c. inl (refl, held-set s.locks i lock c e);
  }

  pub remove_lock-Tracks : (i : ℕ) → i < length s.locks → Tracks s (remove_lock s i)
  unfolding remove_lock
  remove_lock-Tracks i below = record {
    still_distinct = Distinct-drop_lock s.locks i below v.distinct;
    change = λ c.
        ground (arith, held-drop_lock s.locks i c below v.distinct, held-get_or s.locks i below);
  }
