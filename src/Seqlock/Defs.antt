-- ===== src/Seqlock/Defs.antt =====
-- `read_entry` and `write_entry` on one entry, one atomic access at a time.
--
-- An entry is two QWORDs, and its bucket has one counter for all its entries. At most one thread
-- writes in a bucket, since it holds the bucket's lock; it writes this entry or another one. The
-- fields from `writes` on are not in the program: they count the writes in the bucket and keep what
-- the reader is to be compared with.
use cuckoo_trie_vectorized.Base.{
  ℕ, suc, ◌+◌, ◌*◌, ◌/◌, ◌^◌, bit_and, Bool, List, [], ◌∷◌, ◌==◌, if◌then◌else◌, u32,
}
use cuckoo_trie_vectorized.Config.{seq_increment}

-- Where the writer stands: before `write_entry`, behind its first, second or third store. `seq` is
-- the counter that it read.
pub data Writer : Type 0 where
  idle : Writer
  raised : (seq part1 part2 : ℕ) → Writer
  half : (seq part2 : ℕ) → Writer
  stored : (seq : ℕ) → Writer

-- Where the reader stands: at the head of its loop, behind each of its loads, or behind the loop.
pub data Reader : Type 0 where
  looping : Reader
  loaded : (seq1 : ℕ) → Reader
  first_part : (seq1 part1 : ℕ) → Reader
  both_parts : (seq1 part1 part2 : ℕ) → Reader
  finished : (seq1 part1 part2 : ℕ) → Reader

pub record SharedEntry : Type 0 where
  pub counter : ℕ
  pub part1 : ℕ
  pub part2 : ℕ
  pub writer : Writer
  pub reader : Reader
  pub writes : ℕ
  pub start_writes : ℕ
  pub start1 : ℕ
  pub start2 : ℕ
  pub finish_writes : ℕ

pub data Access : Type 0 where
  begin_write : (part1 part2 : ℕ) → Access
  begin_write_elsewhere : Access
  writer_access : Access
  reader_access : Access
  lock_access : Bool → Access

abbrev pub write_in_progress : ℕ → Bool
write_in_progress seq = bit_and seq seq_increment == seq_increment

-- `write_entry` up to its first store. Its assertions are that no write is in progress, which an
-- idle writer grants, and that the bucket is locked.
abbrev pub begin : SharedEntry → Writer → SharedEntry
begin x w = record x { counter = u32 (x.counter + seq_increment); writer = w }

unfoldable pub writer_starts : SharedEntry → Writer → Writer → SharedEntry
writer_starts x idle w = if bit_and x.counter 1 == 0 then x else begin x w
writer_starts x busy w = x

-- The next store of `write_entry`. A write elsewhere stands at `stored` at once.
unfoldable pub writer_moves : SharedEntry → Writer → SharedEntry
writer_moves x idle = x
writer_moves x (raised seq p1 p2) = record x { part1 = p1; writer = half seq p2 }
writer_moves x (half seq p2) = record x { part2 = p2; writer = stored seq }
writer_moves x (stored seq) = record x {
  counter = u32 (seq + 2 * seq_increment);
  writer = idle;
  writes = suc x.writes;
}

-- The next load of `read_entry`.
unfoldable pub reader_moves : SharedEntry → Reader → SharedEntry
reader_moves x looping = if write_in_progress x.counter then x else record x {
  reader = loaded x.counter;
  start_writes = x.writes;
  start1 = x.part1;
  start2 = x.part2;
}
reader_moves x (loaded seq1) = record x { reader = first_part seq1 x.part1 }
reader_moves x (first_part seq1 p1) = record x { reader = both_parts seq1 p1 x.part2 }
reader_moves x (both_parts seq1 p1 p2) =
    if x.counter == seq1
    then record x { reader = finished seq1 p1 p2; finish_writes = x.writes }
    else record x { reader = looping }
reader_moves x (finished seq1 p1 p2) = x

-- The byte `write_lock` is exchanged or cleared, by a thread that is not writing.
unfoldable pub lock_moves : SharedEntry → Writer → Bool → SharedEntry
lock_moves x idle taken = record x {
  counter = x.counter / 2 ^ 8 * 2 ^ 8 + (if taken then 1 else 0);
}
lock_moves x busy taken = x

unfoldable pub access : SharedEntry → Access → SharedEntry
unfolding writer_starts writer_moves reader_moves lock_moves
access x (begin_write p1 p2) = writer_starts x x.writer (raised x.counter p1 p2)
access x begin_write_elsewhere = writer_starts x x.writer (stored x.counter)
access x writer_access = writer_moves x x.writer
access x reader_access = reader_moves x x.reader
access x (lock_access taken) = lock_moves x x.writer taken

-- Any sequence of accesses.
unfoldable pub accesses : SharedEntry → List Access → SharedEntry
accesses x [] = x
accesses x (a ∷ rest) = accesses (access x a) rest
