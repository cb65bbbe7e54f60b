-- ===== src/Locks/Outcome.antt =====
-- What `upgrade_lock` reports, on each of its branches.
use cuckoo_trie_vectorized.Base.{
  ℕ, ◌+◌, ◌-◌, ◌*◌, ◌/◌, ◌^◌, ◌<◌, true, false, some, ◌==◌, ◌≡◌, ◌≢◌, refl, ◌∙◌, ap, arith,
  Bool-cases, Option-cases, ◌⊎◌, inl, inr, sym, ==_iff, ==_refl,
}
use cuckoo_trie_vectorized.Bits.{bit_and-shifted, bit_and-low_mask}
use cuckoo_trie_vectorized.Locks.Defs.{
  BucketWriteLock, LockState, EntryPosition, Status, si_ok, si_retry, lock_byte, masked_seq,
  find_write_lock, taken, try_take_lock, add_lock, lock_at, set_lock, count_up, entry_up,
}
use cuckoo_trie_vectorized.Locks.Calls.{upgrade_lock, release_bucket_lock, read_bucket_seq}
use cuckoo_trie_vectorized.Locks.Held.{held, held-set, find_write_lock-some, find_write_lock-none}
use cuckoo_trie_vectorized.Locks.Changes.{IsLockState, with_new_lock, add_lock-some}
use cuckoo_trie_vectorized.Locks.Balance.{SameLocks, release_new}

-- `& ~0xFF` on a word of 32 bits.
pub masked_seq_lem : (w : ℕ) → w < 2 ^ 32 → masked_seq w ≡ w / 2 ^ 8 * 2 ^ 8
unfolding masked_seq
masked_seq_lem w fits =
    omega (arith, bit_and-shifted 8 w (2 ^ 24 - 1), bit_and-low_mask 24 (w / 2 ^ 8))

read_bucket_seq_lem : (w : ℕ) → w < 2 ^ 32 → read_bucket_seq w ≡ w / 2 ^ 8 * 2 ^ 8
unfolding read_bucket_seq
read_bucket_seq_lem w fits = omega arith

seq-locked : (w : ℕ) → w < 2 ^ 32 → read_bucket_seq (w / 2 ^ 8 * 2 ^ 8 + 1) ≡ masked_seq w
seq-locked w fits =
    omega (arith, read_bucket_seq_lem (w / 2 ^ 8 * 2 ^ 8 + 1) (omega arith), masked_seq_lem w fits)

abbrev pub UpgradeOutcome : LockState → EntryPosition → Status → LockState → Type 0
UpgradeOutcome s entry status s' =
    let b = entry.last_pos.bucket in
    let current = masked_seq (s.words b) in
    let remembered = masked_seq entry.last_seq in
    ((status ≡ si_ok) × (held s'.locks b ≡ true) × (current ≡ remembered))
    ⊎ ((status ≡ si_retry)
        × SameLocks s s'
        × ((current ≢ remembered) ⊎ ((lock_byte (s.words b) ≡ 1) × (held s.locks b ≡ false))))

module _ (s : LockState) (v : IsLockState s) (entry : EntryPosition)
    (fits : s.words entry.last_pos.bucket < 2 ^ 32) where
  abbrev b : ℕ
  b = entry.last_pos.bucket

  abbrev locked_words : LockState
  locked_words = record s { words = taken s.words b }

  seq-taken : read_bucket_seq (taken s.words b b) ≡ masked_seq (s.words b)
  seq-taken = rw (==_refl b) (seq-locked (s.words b) fits)

  same_again : try_take_lock s.words b ≡ false → (c : ℕ) → taken s.words b c ≡ s.words c
  unfolding try_take_lock
  same_again busy c = ground (arith, v.bytes b)

  abbrev remembered : ℕ
  remembered = masked_seq entry.last_seq

  -- The exchange gave the thread the lock.
  locked_outcome :
      (new s' : LockState) (status : Status)
      → new ≡ with_new_lock locked_words b
      → read_bucket_seq (new.words b) ≡ remembered
      → status ≡ si_ok
      → s' ≡ set_lock new 0 (entry_up (lock_at new 0) entry.last_pos.index)
      → UpgradeOutcome s entry status s'
  locked_outcome new s' status is_new same ok q = inl (
    ok,
    rw (q, is_new, ==_refl b),
    sym seq-taken ∙ ap (λ (x : LockState). read_bucket_seq (x.words b)) (sym is_new) ∙ same,
  )

  given_back_outcome :
      (new old s' : LockState) (status : Status)
      → new ≡ with_new_lock locked_words b
      → read_bucket_seq (new.words b) ≢ remembered
      → release_bucket_lock new b ≡ some old
      → lock_byte (s.words b) ≡ 0
      → status ≡ si_retry
      → s' ≡ old
      → UpgradeOutcome s entry status s'
  given_back_outcome new old s' status is_new changed released was_free retry q =
      let (back, done, same) = release_new s v b was_free in
      let e : old ≡ back = ground (arith, is_new, released, done) in
      inr (
        retry,
        rw (q, e) same,
        inl (λ h.
            changed (ap (λ (x : LockState). read_bucket_seq (x.words b)) is_new ∙ seq-taken ∙ h)),
      )

  kept_outcome :
      (s' : LockState) (status : Status)
      → try_take_lock s.words b ≡ false
      → (masked_seq (s.words b) ≢ remembered) ⊎ (held s.locks b ≡ false)
      → status ≡ si_retry
      → s' ≡ locked_words
      → UpgradeOutcome s entry status s'
  unfolding try_take_lock
  kept_outcome s' status busy reason retry q = inr (
    retry,
    rw q (record { same_locks = refl; same_words = same_again busy }),
    elim reason [ inl changed ↦ inl changed | inr other ↦ inr (ground (arith, v.bytes b), other) ],
  )

  -- `upgrade_lock` reports SI_OK only if the thread then holds the bucket and the sequence is the
  -- one that the entry was read at. Otherwise it reports SI_RETRY and leaves every lock and every
  -- word as they were, and either the sequence has changed or another thread has the bucket.
  pub upgrade_lock-Outcome :
      (status : Status) (s' : LockState)
      → upgrade_lock s entry ≡ some (status, s')
      → UpgradeOutcome s entry status s'
  unfolding upgrade_lock
  upgrade_lock-Outcome status s' e = elim (Bool-cases (try_take_lock s.words b)) [
    | inl free ↦ elim (Option-cases (add_lock locked_words b)) [
      | inl full ↦ absurd (ground arith)
      | inr (new, added) ↦
          let is_new = add_lock-some locked_words b new added in
          elim (Bool-cases (read_bucket_seq (new.words b) == remembered)) [
            | inl same ↦
                locked_outcome new s' status is_new ((==_iff _ _).0 same) (ground arith)
                  (ground arith)
            | inr changed ↦ elim (Option-cases (release_bucket_lock new b)) [
              | inl gone ↦ absurd (ground arith)
              | inr (old, released) ↦
                  given_back_outcome new old s' status is_new
                    (λ h. ground (arith, (==_iff _ _).1 h)) released (free_byte free) (ground arith)
                    (ground arith)
            ]
          ]
    ]
    | inr busy ↦ elim (Option-cases (find_write_lock s.locks b)) [
      | inl missing ↦
          kept_outcome s' status busy (inr (find_write_lock-none s.locks b missing)) (ground arith)
            (ground arith)
      | inr (i, found) ↦ elim (Bool-cases (masked_seq (taken s.words b b) == remembered)) [
        | inl same ↦
            let q : s' ≡ set_lock locked_words i (more i) = ground arith in
            inl (
              ground arith,
              rw q
                  (held-set s.locks i (more i) b refl ∙ (find_write_lock-some s.locks b i found).2),
              ap masked_seq (sym (same_again busy b)) ∙ (==_iff _ _).0 same,
            )
        | inr changed ↦
            kept_outcome s' status busy
              (inl (λ h. ground (arith, (==_iff _ _).1 (ap masked_seq (same_again busy b) ∙ h))))
              (ground arith) (ground arith)
      ]
    ]
  ]
    where
      more : ℕ → BucketWriteLock
      more i = count_up (entry_up (lock_at s i) entry.last_pos.index)

      free_byte : try_take_lock s.words b ≡ true → lock_byte (s.words b) ≡ 0
      free_byte free = unfold try_take_lock in ground arith
