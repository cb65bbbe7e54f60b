-- ===== src/Seqlock/Reads.antt =====
-- What a reader returns.
use cuckoo_trie_vectorized.Base.{
  ℕ, ◌+◌, ◌*◌, ◌^◌, ◌<◌, bit_and, false, List, [], ◌∷◌, ◌==◌, ◌≡◌, refl, arith, Bool-cases, inl,
  inr, ==_iff,
}
use cuckoo_trie_vectorized.Seqlock.Defs.{
  Writer, idle, raised, half, stored, Reader, looping, loaded, first_part, both_parts, finished,
  SharedEntry, Access, begin_write, begin_write_elsewhere, writer_access, reader_access,
  lock_access, reader_moves, access, accesses,
}
use cuckoo_trie_vectorized.Seqlock.Versions.{
  Counts, Idle, ReaderSaw, ReaderCounts, IsVersioned, in_progress_lem, counts,
  writer_moves-IsVersioned, writer_starts-IsVersioned, lock_moves-IsVersioned,
}

module _ (x : SharedEntry) (h : IsVersioned x) where
  saw :
      (r : Reader)
      → x.reader ≡ r
      → x.writes ≡ x.start_writes
      → Idle x.writer
      → (x.part1 ≡ x.start1) × (x.part2 ≡ x.start2) × ReaderSaw r x.start1 x.start2
  saw r e same now_idle = rw e at (h.steady same now_idle)

  seen : (r : Reader) → x.reader ≡ r → ReaderCounts r x.start_writes
  seen r e = rw e at h.reader_counted

  -- The reader starts between two writes.
  between_writes :
      (w : Writer)
      → x.writer ≡ w
      → (bit_and x.counter 256 == 256) ≡ false
      → Counts x.counter (2 * x.writes)
  between_writes idle e none_now = counts x h idle e
  between_writes (raised seq p1 p2) e none_now =
      absurd (ground (arith, counts x h (raised seq p1 p2) e, in_progress_lem x.counter))
  between_writes (half seq p2) e none_now =
      absurd (ground (arith, counts x h (half seq p2) e, in_progress_lem x.counter))
  between_writes (stored seq) e none_now =
      absurd (ground (arith, counts x h (stored seq) e, in_progress_lem x.counter))

  looping-IsVersioned :
      (bit_and x.counter 256 == 256) ≡ false
      → IsVersioned (record x {
        reader = loaded x.counter;
        start_writes = x.writes;
        start1 = x.part1;
        start2 = x.part2;
      })
  looping-IsVersioned none_now = record {
    counted = h.counted;
    started = omega arith;
    reader_counted = between_writes x.writer refl none_now;
    steady = λ same now_idle. (refl, refl, tt);
    right = tt;
  }

  -- The counter that is still the one of the start, after fewer writes than it can tell apart.
  unchanged :
      (w : Writer) (seq1 p1 p2 : ℕ)
      → x.writer ≡ w
      → x.reader ≡ both_parts seq1 p1 p2
      → x.counter ≡ seq1
      → x.writes < x.start_writes + 2 ^ 23
      → (p1 ≡ x.start1) × (p2 ≡ x.start2)
  unchanged idle seq1 p1 p2 e r same few =
      (saw (both_parts seq1 p1 p2) r
        (omega (arith, counts x h idle e, seen (both_parts seq1 p1 p2) r, h.started)) (rw e tt)).2
  unchanged (raised seq q1 q2) seq1 p1 p2 e r same few =
      absurd (omega (arith, counts x h (raised seq q1 q2) e, seen (both_parts seq1 p1 p2) r))
  unchanged (half seq q2) seq1 p1 p2 e r same few =
      absurd (omega (arith, counts x h (half seq q2) e, seen (both_parts seq1 p1 p2) r))
  unchanged (stored seq) seq1 p1 p2 e r same few =
      absurd (omega (arith, counts x h (stored seq) e, seen (both_parts seq1 p1 p2) r))

  finish-IsVersioned :
      (seq1 p1 p2 : ℕ)
      → x.reader ≡ both_parts seq1 p1 p2
      → x.counter ≡ seq1
      → IsVersioned (record x { reader = finished seq1 p1 p2; finish_writes = x.writes })
  finish-IsVersioned seq1 p1 p2 r same = record {
    counted = h.counted;
    started = h.started;
    reader_counted = tt;
    steady = λ now_same now_idle. let (s1, s2, t) = h.steady now_same now_idle in (s1, s2, tt);
    right = λ few. unchanged x.writer seq1 p1 p2 refl r same few;
  }

  again-IsVersioned : IsVersioned (record x { reader = looping })
  again-IsVersioned = record {
    counted = h.counted;
    started = h.started;
    reader_counted = tt;
    steady = λ now_same now_idle. let (s1, s2, t) = h.steady now_same now_idle in (s1, s2, tt);
    right = tt;
  }

  reader_moves-IsVersioned : (r : Reader) → x.reader ≡ r → IsVersioned (reader_moves x r)
  unfolding reader_moves
  reader_moves-IsVersioned looping e = elim (Bool-cases (bit_and x.counter 256 == 256)) [
    | inl writing ↦ rw writing h
    | inr none_now ↦ rw none_now (looping-IsVersioned none_now)
  ]
  reader_moves-IsVersioned (loaded seq1) e = record {
    counted = h.counted;
    started = h.started;
    reader_counted = seen (loaded seq1) e;
    steady = λ same now_idle. let (s1, s2, t) = saw (loaded seq1) e same now_idle in (s1, s2, s1);
    right = tt;
  }
  reader_moves-IsVersioned (first_part seq1 p1) e = record {
    counted = h.counted;
    started = h.started;
    reader_counted = seen (first_part seq1 p1) e;
    steady = λ same now_idle.
        let (s1, s2, t) = saw (first_part seq1 p1) e same now_idle in (s1, s2, (t, s2));
    right = tt;
  }
  reader_moves-IsVersioned (both_parts seq1 p1 p2) e = elim (Bool-cases (x.counter == seq1)) [
    | inl same ↦ rw same (finish-IsVersioned seq1 p1 p2 e ((==_iff x.counter seq1).0 same))
    | inr changed ↦ rw changed again-IsVersioned
  ]
  reader_moves-IsVersioned (finished seq1 p1 p2) e = h

  -- Each access, by either thread, keeps the versions apart.
  pub access-IsVersioned : (a : Access) → IsVersioned (access x a)
  unfolding access
  access-IsVersioned (begin_write p1 p2) =
      writer_starts-IsVersioned x h x.writer (raised x.counter p1 p2) refl (λ i. i) (λ c. c)
  access-IsVersioned begin_write_elsewhere =
      writer_starts-IsVersioned x h x.writer (stored x.counter) refl (λ i. i) (λ c. c)
  access-IsVersioned writer_access = writer_moves-IsVersioned x h x.writer refl
  access-IsVersioned reader_access = reader_moves-IsVersioned x.reader refl
  access-IsVersioned (lock_access taken) = lock_moves-IsVersioned x h x.writer taken refl

pub accesses-IsVersioned :
    (x : SharedEntry) (run : List Access) → IsVersioned x → IsVersioned (accesses x run)
unfolding accesses
accesses-IsVersioned x [] h = h
accesses-IsVersioned x (a ∷ run) h =
    accesses-IsVersioned (access x a) run (access-IsVersioned x h a)

-- An entry that nobody reads or writes.
abbrev pub at_rest : ℕ → ℕ → ℕ → SharedEntry
at_rest counter p1 p2 = record {
  counter = counter;
  part1 = p1;
  part2 = p2;
  writer = idle;
  reader = looping;
  writes = 0;
  start_writes = 0;
  start1 = p1;
  start2 = p2;
  finish_writes = 0;
}

-- From an entry at rest whose counter is a fresh bucket's, under any interleaving of one reader with
-- any number of writes in the bucket: if the reader has left its loop, and fewer than 2 ^ 23 writes
-- were completed between its first load and its last, the two halves that it returns are those that
-- the entry had together at that first load.
pub read_entry_not_torn :
    (byte p1 p2 : ℕ) (run : List Access) (seq1 r1 r2 : ℕ)
    → byte < 2
    → (accesses (at_rest byte p1 p2) run).reader ≡ finished seq1 r1 r2
    → (accesses (at_rest byte p1 p2) run).finish_writes
      < (accesses (at_rest byte p1 p2) run).start_writes + 2 ^ 23
    → (r1 ≡ (accesses (at_rest byte p1 p2) run).start1)
      × (r2 ≡ (accesses (at_rest byte p1 p2) run).start2)
read_entry_not_torn byte p1 p2 run seq1 r1 r2 fits done few =
    (rw done at (accesses-IsVersioned (at_rest byte p1 p2) run rested).right) few
  where
    rested : IsVersioned (at_rest byte p1 p2)
    rested = record {
      counted = omega arith;
      started = omega arith;
      reader_counted = tt;
      steady = λ same now_idle. (refl, refl, tt);
      right = tt;
    }
