-- ===== src/Seqlock/Versions.antt =====
-- The counter tells which version of the entry a reader has seen.
use cuckoo_trie_vectorized.Base.{
  ℕ, ◌+◌, ◌*◌, ◌/◌, ◌%◌, ◌^◌, ◌≤◌, ◌<◌, bit_and, Bool, ◌==◌, u32, ◌≡◌, arith, Bool-cases, inl, inr,
}
use cuckoo_trie_vectorized.Bits.{bit_and-shifted, bit_and-low_mask}
use cuckoo_trie_vectorized.Seqlock.Defs.{
  Writer, idle, raised, half, stored, Reader, looping, loaded, first_part, both_parts, finished,
  SharedEntry, writer_starts, writer_moves, lock_moves,
}

-- The sequence of `n` writes, of which the last may be in progress.
abbrev pub Counts : ℕ → ℕ → Type 0
Counts word n = (word < 2 ^ 32) × (word / 2 ^ 8 ≡ n % 2 ^ 24)

abbrev pub WriterCounts : Writer → ℕ → ℕ → Type 0
WriterCounts idle counter writes = Counts counter (2 * writes)
WriterCounts (raised seq p1 p2) counter writes =
    Counts counter (2 * writes + 1) × Counts seq (2 * writes)
WriterCounts (half seq p2) counter writes =
    Counts counter (2 * writes + 1) × Counts seq (2 * writes)
WriterCounts (stored seq) counter writes = Counts counter (2 * writes + 1) × Counts seq (2 * writes)

abbrev pub Idle : Writer → Type 0
Idle idle = Unit {0}
Idle busy = ⊥

-- What the reader has loaded agrees with the version that it started from.
abbrev pub ReaderSaw : Reader → ℕ → ℕ → Type 0
ReaderSaw looping start1 start2 = Unit {0}
ReaderSaw (loaded seq1) start1 start2 = Unit {0}
ReaderSaw (first_part seq1 p1) start1 start2 = p1 ≡ start1
ReaderSaw (both_parts seq1 p1 p2) start1 start2 = (p1 ≡ start1) × (p2 ≡ start2)
ReaderSaw (finished seq1 p1 p2) start1 start2 = Unit {0}

abbrev pub ReaderCounts : Reader → ℕ → Type 0
ReaderCounts looping n = Unit {0}
ReaderCounts (loaded seq1) n = Counts seq1 (2 * n)
ReaderCounts (first_part seq1 p1) n = Counts seq1 (2 * n)
ReaderCounts (both_parts seq1 p1 p2) n = Counts seq1 (2 * n)
ReaderCounts (finished seq1 p1 p2) n = Unit {0}

abbrev pub FinishedRight : Reader → ℕ → ℕ → ℕ → ℕ → Type 0
FinishedRight (finished seq1 p1 p2) finish_writes start_writes start1 start2 =
    finish_writes < start_writes + 2 ^ 23 → (p1 ≡ start1) × (p2 ≡ start2)
FinishedRight other finish_writes start_writes start1 start2 = Unit {0}

pub record IsVersioned (x : SharedEntry) : Type 0 where
  pub counted : WriterCounts x.writer x.counter x.writes
  pub started : x.start_writes ≤ x.writes
  pub reader_counted : ReaderCounts x.reader x.start_writes
  pub steady :
      x.writes ≡ x.start_writes
      → Idle x.writer
      → (x.part1 ≡ x.start1) × (x.part2 ≡ x.start2) × ReaderSaw x.reader x.start1 x.start2
  pub right : FinishedRight x.reader x.finish_writes x.start_writes x.start1 x.start2

pub in_progress_lem : (w : ℕ) → bit_and w 256 ≡ w / 2 ^ 8 % 2 * 256
in_progress_lem w = omega (arith, bit_and-shifted 8 w 1, bit_and-low_mask 1 (w / 2 ^ 8))

module _ (x : SharedEntry) (h : IsVersioned x) where
  pub counts : (w : Writer) → x.writer ≡ w → WriterCounts w x.counter x.writes
  counts w e = rw e at h.counted

  pub writer_moves-IsVersioned : (w : Writer) → x.writer ≡ w → IsVersioned (writer_moves x w)
  unfolding writer_moves
  writer_moves-IsVersioned idle e = h
  writer_moves-IsVersioned (raised seq p1 p2) e = record {
    counted = counts (raised seq p1 p2) e;
    started = h.started;
    reader_counted = h.reader_counted;
    steady = λ same writing. absurd writing;
    right = h.right;
  }
  writer_moves-IsVersioned (half seq p2) e = record {
    counted = counts (half seq p2) e;
    started = h.started;
    reader_counted = h.reader_counted;
    steady = λ same writing. absurd writing;
    right = h.right;
  }
  writer_moves-IsVersioned (stored seq) e = record {
    counted = omega (arith, counts (stored seq) e);
    started = omega (arith, h.started);
    reader_counted = h.reader_counted;
    steady = λ same now_idle. absurd (omega (arith, h.started, same));
    right = h.right;
  }

  -- Both ways to begin a write raise the counter by one.
  begin-IsVersioned :
      (w : Writer)
      → x.writer ≡ idle
      → (Idle w → ⊥)
      → (Counts (u32 (x.counter + 256)) (2 * x.writes + 1) × Counts x.counter (2 * x.writes)
          → WriterCounts w (u32 (x.counter + 256)) x.writes)
      → IsVersioned (record x { counter = u32 (x.counter + 256); writer = w })
  begin-IsVersioned w e busy counted = record {
    counted = counted (omega (arith, counts idle e));
    started = h.started;
    reader_counted = h.reader_counted;
    steady = λ same now_idle. absurd (busy now_idle);
    right = h.right;
  }

  pub writer_starts-IsVersioned :
      (v w : Writer)
      → x.writer ≡ v
      → (Idle w → ⊥)
      → (Counts (u32 (x.counter + 256)) (2 * x.writes + 1) × Counts x.counter (2 * x.writes)
          → WriterCounts w (u32 (x.counter + 256)) x.writes)
      → IsVersioned (writer_starts x v w)
  unfolding writer_starts
  writer_starts-IsVersioned idle w e busy counted = elim (Bool-cases (bit_and x.counter 1 == 0)) [
    | inl unlocked ↦ rw unlocked h
    | inr locked ↦ rw locked (begin-IsVersioned w e busy counted)
  ]
  writer_starts-IsVersioned (raised seq p1 p2) w e busy counted = h
  writer_starts-IsVersioned (half seq p2) w e busy counted = h
  writer_starts-IsVersioned (stored seq) w e busy counted = h

  pub lock_moves-IsVersioned :
      (w : Writer) (taken : Bool) → x.writer ≡ w → IsVersioned (lock_moves x w taken)
  unfolding lock_moves
  lock_moves-IsVersioned idle taken e = record {
    counted = rw e (ground (arith, counts idle e));
    started = h.started;
    reader_counted = h.reader_counted;
    steady = h.steady;
    right = h.right;
  }
  lock_moves-IsVersioned (raised seq p1 p2) taken e = h
  lock_moves-IsVersioned (half seq p2) taken e = h
  lock_moves-IsVersioned (stored seq) taken e = h
