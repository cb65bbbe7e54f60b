-- ===== src/Pairs/Stale.antt =====
-- `validate_entry` and `remove_entry_by_address`: a write makes the copies of its bucket stale.
use cuckoo_trie_vectorized.Base.{
  ℕ, ◌^◌, ◌<◌, ◌≡◌, ◌≢◌, refl, arith, true, false, List, none, some, length, get_or-set_self, ◌⊎◌,
  inl, inr, ◌∙◌, sym, subst, Option-cases, ==_iff, ==_refl, ==-ne,
}
use cuckoo_trie_vectorized.Entry.{Entry}
use cuckoo_trie_vectorized.Trie.{Trie, Cell, bucket_at, cell_at, entry_at, unused_entry, zero_entry}
use cuckoo_trie_vectorized.Locks.{BucketWriteLock, find_write_lock, masked_seq}
use cuckoo_trie_vectorized.Locks.Outcome.{masked_seq_lem}
use cuckoo_trie_vectorized.Pairs.Defs.{
  EntryCopy, validate_entry, write_entry, remove_entry_by_address,
}
use cuckoo_trie_vectorized.Pairs.Writes.{
  IsWritable, next_seq, with_entry, write_entry_lem, bucket_at-with_entry, bucket_at-with_entry_ne,
  entry_at-with_entry,
}

-- A write moves the sequence on.
next_seq-ne : (seq : ℕ) → seq < 2 ^ 32 → masked_seq (next_seq seq) ≢ masked_seq seq
next_seq-ne seq fits q =
    omega (arith, fits, q, masked_seq_lem seq fits, masked_seq_lem (next_seq seq) (omega arith))

module _ (trie : Trie) (pos : Cell) (e : Entry) (writable : IsWritable (bucket_at trie pos.bucket))
    (below : pos.bucket < length trie.buckets)
    (counter_fits : (bucket_at trie pos.bucket).write_lock_and_seq < 2 ^ 32) where
  abbrev seq_before : ℕ
  seq_before = (bucket_at trie pos.bucket).write_lock_and_seq

  -- In a locked bucket that nobody writes in, write_entry succeeds. Each copy of the bucket that
  -- validate_entry accepted before is rejected then, unless it takes over the counter that
  -- write_entry returns; on copies of other buckets validate_entry says what it said before.
  pub validate_entry-write_entry :
      (result : Trie) × (new_seq : ℕ) × (write_entry trie pos e ≡ some (result, new_seq))
      × ((copy : EntryCopy)
          → copy.last_pos.bucket ≡ pos.bucket
          → validate_entry trie copy ≡ true
          → (validate_entry result copy ≡ false)
            × (validate_entry result (record copy { last_seq = new_seq }) ≡ true))
      × ((copy : EntryCopy)
          → copy.last_pos.bucket ≢ pos.bucket
          → validate_entry result copy ≡ validate_entry trie copy)
  unfolding validate_entry
  validate_entry-write_entry = (
    with_entry trie pos e,
    next_seq (bucket_at trie pos.bucket).write_lock_and_seq,
    write_entry_lem trie pos e writable,
    λ copy here valid.
        let agreed : masked_seq seq_before ≡ masked_seq copy.last_seq =
          subst
            (λ (b : ℕ). masked_seq (bucket_at trie b).write_lock_and_seq ≡ masked_seq copy.last_seq)
            here ((==_iff _ _).0 valid) in
        rw (here, bucket_at-with_entry trie pos e below)
          (
            ==-ne (masked_seq (next_seq seq_before)) (masked_seq copy.last_seq)
                (λ q. next_seq-ne seq_before counter_fits (q ∙ sym agreed)),
            ==_refl (masked_seq (next_seq seq_before)),
          ),
    λ copy other.
        rw (bucket_at-with_entry_ne trie pos e copy.last_pos.bucket (λ q. other (sym q))) refl,
  )

module _ (trie : Trie) (pos : Cell) (writable : IsWritable (bucket_at trie pos.bucket))
    (below : pos.bucket < length trie.buckets)
    (index_below : pos.index < length (bucket_at trie pos.bucket).cells) where
  blanked : entry_at (with_entry trie pos unused_entry) pos ≡ unused_entry
  unfolding entry_at cell_at
  blanked = rw (bucket_at-with_entry trie pos unused_entry below) (
      get_or-set_self (bucket_at trie pos.bucket).cells pos.index unused_entry zero_entry
        index_below)

  -- For a cell of a locked bucket of the table that nobody writes in, remove_entry_by_address succeeds exactly if
  -- one of the thread's locks is on the bucket: it then blanks the cell and keeps all others. Without
  -- such a lock its assertion fails.
  pub remove_entry_by_address-Outcome :
      (locks : List BucketWriteLock)
      → ((find_write_lock locks pos.bucket ≡ none)
          × (remove_entry_by_address locks trie pos ≡ none))
        ⊎ ((k : ℕ) × (result : Trie) × (find_write_lock locks pos.bucket ≡ some k)
            × (remove_entry_by_address locks trie pos ≡ some result)
            × (entry_at result pos ≡ unused_entry)
            × ((b i : ℕ)
                → (b ≡ pos.bucket → i ≢ pos.index)
                → entry_at result (record { bucket = b; index = i })
                  ≡ entry_at trie (record { bucket = b; index = i })))
  unfolding remove_entry_by_address
  remove_entry_by_address-Outcome locks =
      let writes = write_entry_lem trie pos unused_entry writable in
      elim (Option-cases (find_write_lock locks pos.bucket)) [
        | inl missing ↦ inl (missing, ground (arith, missing))
        | inr (k, locked) ↦ inr (
          k,
          with_entry trie pos unused_entry,
          locked,
          ground (arith, locked, writes),
          blanked,
          λ b i differs. entry_at-with_entry trie pos unused_entry b i below differs,
        )
      ]
