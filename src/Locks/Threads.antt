-- ===== src/Locks/Threads.antt =====
-- All threads together: each has a lock manager of its own, and a step is one call by one thread.
use cuckoo_trie_vectorized.Base.{
  ℕ, true, false, List, [], Option, none, some, ◌==◌, if◌then◌else◌, ◌≡◌, ◌∙◌, arith, Bool-cases,
  Option-cases, ◌⊎◌, inl, inr, sym, ==_iff, ==_refl,
}
use cuckoo_trie_vectorized.Trie.{Cell}
use cuckoo_trie_vectorized.Locks.Defs.{
  BucketWriteLock, BucketReadLock, LockState, EntryPosition, Status, lock_byte,
}
use cuckoo_trie_vectorized.Locks.Calls.{
  write_lock_bucket, release_bucket_lock, upgrade_bucket_lock, write_lock_entry_in_locked_bucket,
  move_entry_lock, upgrade_lock, write_unlock, release_all_locks, write_entry_seq,
}
use cuckoo_trie_vectorized.Locks.Held.{held}
use cuckoo_trie_vectorized.Locks.Changes.{IsLockState, Tracks, Tracks-IsLockState}
use cuckoo_trie_vectorized.Locks.Tracking.{
  release_bucket_lock-Tracks, write_lock_bucket-Tracks, write_lock_entry-Tracks,
  move_entry_lock-Tracks, write_unlock-Tracks, write_entry_seq-Tracks,
}
use cuckoo_trie_vectorized.Locks.Upgrades.{
  release_all_locks-Tracks, upgrade_bucket_lock-Tracks, upgrade_lock-Tracks,
}

pub data LockCall : Type 0 where
  write_lock : ℕ → LockCall
  upgrade_bucket : BucketReadLock → LockCall
  release_bucket : ℕ → LockCall
  lock_entry : Cell → LockCall
  move_lock : Cell → Cell → LockCall
  upgrade : EntryPosition → LockCall
  unlock : Cell → LockCall
  release_all : LockCall
  write : ℕ → LockCall

abbrev state_of : Option (Status × LockState) → Option LockState
state_of none = none
state_of (some (status, s)) = some s

-- The state after a call, whatever status it returns.
unfoldable pub perform : LockCall → LockState → Option LockState
perform (write_lock b) s = state_of (write_lock_bucket s b)
perform (upgrade_bucket r) s = state_of (upgrade_bucket_lock s r)
perform (release_bucket b) s = release_bucket_lock s b
perform (lock_entry c) s = write_lock_entry_in_locked_bucket s c
perform (move_lock dst src) s = move_entry_lock s dst src
perform (upgrade entry) s = state_of (upgrade_lock s entry)
perform (unlock c) s = write_unlock s c
perform release_all s = some (release_all_locks s)
perform (write b) s = elim (write_entry_seq s.words b) [
  | none ↦ none
  | some words ↦ some (record s { words = words })
]

-- The threads by number, and what they share.
pub record Threads : Type 0 where
  pub shared : ℕ → ℕ
  pub tables : ℕ → List BucketWriteLock

abbrev pub view : Threads → ℕ → LockState
view x t = record { words = x.shared; locks = x.tables t }

abbrev pub resume : Threads → ℕ → LockState → Threads
resume x t s = record { shared = s.words; tables = λ u. if u == t then s.locks else x.tables u }

pub data Step : Threads → Threads → Type 0 where
  act :
      (x : Threads) (t : ℕ) (call : LockCall) (s : LockState)
      → perform call (view x t) ≡ some s
      → Step x (resume x t s)

pub data Reach (x : Threads) : Threads → Type 0 where
  here : Reach x x
  next : {y z : Threads} → Reach x y → Step y z → Reach x z

pub record IsExclusive (x : Threads) : Type 0 where
  pub each : (t : ℕ) → IsLockState (view x t)
  pub owned : (c : ℕ) → (lock_byte (x.shared c) ≡ 0) ⊎ ((t : ℕ) × (held (x.tables t) c ≡ true))
  pub alone : (c t u : ℕ) → held (x.tables t) c ≡ true → held (x.tables u) c ≡ true → t ≡ u

perform-Tracks :
    (call : LockCall) (s s' : LockState) → IsLockState s → perform call s ≡ some s' → Tracks s s'
unfolding perform
perform-Tracks (write_lock b) s s' v e = elim (Option-cases (write_lock_bucket s b)) [
  | inl failed ↦ absurd (ground arith)
  | inr ((status, s''), done) ↦
      let q : s' ≡ s'' = ground arith in rw q (write_lock_bucket-Tracks s v b status s'' done)
]
perform-Tracks (upgrade_bucket r) s s' v e = elim (Option-cases (upgrade_bucket_lock s r)) [
  | inl failed ↦ absurd (ground arith)
  | inr ((status, s''), done) ↦
      let q : s' ≡ s'' = ground arith in rw q (upgrade_bucket_lock-Tracks s v r status s'' done)
]
perform-Tracks (release_bucket b) s s' v e = release_bucket_lock-Tracks s v b s' e
perform-Tracks (lock_entry c) s s' v e = write_lock_entry-Tracks s v c s' e
perform-Tracks (move_lock dst src) s s' v e = move_entry_lock-Tracks s v dst src s' e
perform-Tracks (upgrade entry) s s' v e = elim (Option-cases (upgrade_lock s entry)) [
  | inl failed ↦ absurd (ground arith)
  | inr ((status, s''), done) ↦
      let q : s' ≡ s'' = ground arith in rw q (upgrade_lock-Tracks s v entry status s'' done)
]
perform-Tracks (unlock c) s s' v e = write_unlock-Tracks s v c s' e
perform-Tracks release_all s s' v e =
    let q : s' ≡ release_all_locks s = ground arith in rw q (release_all_locks-Tracks s v)
perform-Tracks (write b) s s' v e = elim (Option-cases (write_entry_seq s.words b)) [
  | inl failed ↦ absurd (ground arith)
  | inr (words, done) ↦
      let q : s' ≡ record s { words = words } = ground arith in
      rw q (write_entry_seq-Tracks s v b words done)
]

-- A call by thread `t`.
module _ (x : Threads) (h : IsExclusive x) (t : ℕ) (s : LockState)
    (tracked : Tracks (view x t) s) where
  others_locked :
      (u c : ℕ) → (u == t) ≡ false → held (x.tables u) c ≡ true → lock_byte (s.words c) ≡ 1
  others_locked u c other holds =
      ground (arith, tracked.change c, (h.each u).locked c holds, h.alone c t u)

  each_after : (u : ℕ) → IsLockState (view (resume x t s) u)
  each_after u = elim (Bool-cases (u == t)) [
    | inl self ↦ rw self (Tracks-IsLockState (view x t) (h.each t) s tracked)
    | inr other ↦ rw other record {
      distinct = (h.each u).distinct;
      bytes = (Tracks-IsLockState (view x t) (h.each t) s tracked).bytes;
      locked = λ c holds. others_locked u c other holds;
    }
  ]

  still_holds :
      (u c : ℕ)
      → held s.locks c ≡ held (x.tables t) c
      → held (x.tables u) c ≡ true
      → held ((resume x t s).tables u) c ≡ true
  still_holds u c same holds = elim (Bool-cases (u == t)) [
    | inl self ↦ let e : u ≡ t = (==_iff u t).0 self in rw self (same ∙ rw e at holds)
    | inr other ↦ rw other holds
  ]

  -- No thread holds a bucket that `t` holds after its call.
  not_both :
      (u c : ℕ) → (u == t) ≡ false → held s.locks c ≡ true → held (x.tables u) c ≡ true → u ≡ t
  not_both u c other mine theirs =
      ground (arith, tracked.change c, (h.each u).locked c theirs, h.alone c u t theirs)

  owned_after :
      (c : ℕ) → (lock_byte (s.words c) ≡ 0) ⊎ ((u : ℕ) × (held ((resume x t s).tables u) c ≡ true))
  owned_after c = elim (tracked.change c) [
    | inl (byte, same) ↦ elim (h.owned c) [
      | inl zero_byte ↦ inl (byte ∙ zero_byte)
      | inr (u, holds) ↦ inr (u, still_holds u c same holds)
    ]
    | inr (inl (was, is, now)) ↦ inr (t, rw (==_refl t) now)
    | inr (inr (was, free, gone)) ↦ inl free
  ]

  alone_after :
      (c u w : ℕ)
      → held ((resume x t s).tables u) c ≡ true
      → held ((resume x t s).tables w) c ≡ true
      → u ≡ w
  alone_after c u w p q = elim (Bool-cases (u == t)) [
    | inl u_self ↦ elim (Bool-cases (w == t)) [
      | inl w_self ↦ (==_iff u t).0 u_self ∙ sym ((==_iff w t).0 w_self)
      | inr w_other ↦
          (==_iff u t).0 u_self ∙ sym (not_both w c w_other (rw u_self at p) (rw w_other at q))
    ]
    | inr u_other ↦ elim (Bool-cases (w == t)) [
      | inl w_self ↦
          not_both u c u_other (rw w_self at q) (rw u_other at p) ∙ sym ((==_iff w t).0 w_self)
      | inr w_other ↦ h.alone c u w (rw u_other at p) (rw w_other at q)
    ]
  ]

  pub resume-IsExclusive : IsExclusive (resume x t s)
  resume-IsExclusive = record { each = each_after; owned = owned_after; alone = alone_after }

pub Step-IsExclusive : {x y : Threads} → Step x y → IsExclusive x → IsExclusive y
Step-IsExclusive (act x t call s done) h =
    resume-IsExclusive x h t s (perform-Tracks call (view x t) s (h.each t) done)

abbrev pub no_locks : (ℕ → ℕ) → Threads
no_locks words = record { shared = words; tables = λ t. [] }

no_locks-IsExclusive :
    (words : ℕ → ℕ) → ((c : ℕ) → lock_byte (words c) ≡ 0) → IsExclusive (no_locks words)
no_locks-IsExclusive words unlocked = record {
  each = λ t. record {
    distinct = tt;
    bytes = λ c. omega (arith, unlocked c);
    locked = λ c holds. absurd (ground arith);
  };
  owned = λ c. inl (unlocked c);
  alone = λ c t u p q. absurd (ground arith);
}

-- Whatever calls the threads make, in any order, from unlocked buckets on: a thread has at most one
-- lock on a bucket, two threads never hold the same bucket, each lock byte is 0 or 1, and it is 1
-- exactly if some thread holds the bucket.
pub Reach-IsExclusive :
    (words : ℕ → ℕ) {x : Threads}
    → ((c : ℕ) → lock_byte (words c) ≡ 0)
    → Reach (no_locks words) x
    → IsExclusive x
Reach-IsExclusive words unlocked here = no_locks-IsExclusive words unlocked
Reach-IsExclusive words unlocked (next before step) =
    Step-IsExclusive step (Reach-IsExclusive words unlocked before)
