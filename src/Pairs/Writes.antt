-- ===== src/Pairs/Writes.antt =====
-- A write to a cell of the table: what it stores, and what a search of the pair finds after it.
use cuckoo_trie_vectorized.Base.{
  ℕ, zero, suc, ◌+◌, ◌*◌, ◌/◌, ◌^◌, ◌<◌, ◌≡◌, ◌≢◌, refl, arith, bit_and, Bool, true, List, some,
  length, set, get_or-set_self, get_or-set_ne, ==_refl, u32, ℕ_discrete, ap, sym,
}
use cuckoo_trie_vectorized.Config.{seq_increment}
use cuckoo_trie_vectorized.Bits.{bit_and-shifted, bit_and-low_mask}
use cuckoo_trie_vectorized.Entry.{Entry}
use cuckoo_trie_vectorized.Trie.{
  Trie, Bucket, Cell, bucket_at, set_bucket, cell_at, entry_at, zero_bucket, zero_entry,
}
use cuckoo_trie_vectorized.Search.{LocalCopy, validated}
use cuckoo_trie_vectorized.Search.Buckets.{first_match}
use cuckoo_trie_vectorized.Search.Headers.{IsCell}
use cuckoo_trie_vectorized.Pairs.Defs.{still, write_entry}
use cuckoo_trie_vectorized.Pairs.Firsts.{first_cell-replaced, index_below}
use cuckoo_trie_vectorized.Pairs.Finds.{first_match-IsCopy}
use cuckoo_trie_vectorized.Pairs.Returns.{IsBucket}

-- A bucket of the table that is locked and that nobody writes in.
pub record IsWritable (bucket : Bucket) : Type 0 where
  pub locked : bit_and bucket.write_lock_and_seq 1 ≡ 1
  pub idle : bit_and bucket.write_lock_and_seq seq_increment ≡ 0

abbrev pub next_seq : ℕ → ℕ
next_seq seq = u32 (seq + 2 * seq_increment)

abbrev pub written : Bucket → ℕ → Entry → Bucket
written bucket i e = record {
  cells = set bucket.cells i e;
  write_lock_and_seq = next_seq bucket.write_lock_and_seq;
}

abbrev pub with_entry : Trie → Cell → Entry → Trie
with_entry trie pos e = set_bucket trie pos.bucket (written (bucket_at trie pos.bucket) pos.index e)

pub write_entry_lem :
    (trie : Trie) (pos : Cell) (e : Entry)
    → IsWritable (bucket_at trie pos.bucket)
    → write_entry trie pos e
      ≡ some (with_entry trie pos e, next_seq (bucket_at trie pos.bucket).write_lock_and_seq)
unfolding write_entry
write_entry_lem trie pos e h = rw (h.idle, h.locked) refl

-- The counter that a write leaves has no write in progress.
pub next_seq-idle :
    (seq : ℕ) → bit_and seq seq_increment ≡ 0 → bit_and (next_seq seq) seq_increment ≡ 0
next_seq-idle seq h = ground (
  arith,
  h,
  bit_and-shifted 8 seq 1,
  bit_and-shifted 8 (next_seq seq) 1,
  bit_and-low_mask 1 (seq / 2 ^ 8),
  bit_and-low_mask 1 (next_seq seq / 2 ^ 8),
)

pub bucket_at-with_entry :
    (trie : Trie) (pos : Cell) (e : Entry)
    → pos.bucket < length trie.buckets
    → bucket_at (with_entry trie pos e) pos.bucket ≡ written (bucket_at trie pos.bucket) pos.index e
unfolding bucket_at set_bucket
bucket_at-with_entry trie pos e h = get_or-set_self trie.buckets pos.bucket _ zero_bucket h

pub bucket_at-with_entry_ne :
    (trie : Trie) (pos : Cell) (e : Entry) (b : ℕ)
    → pos.bucket ≢ b
    → bucket_at (with_entry trie pos e) b ≡ bucket_at trie b
unfolding bucket_at set_bucket
bucket_at-with_entry_ne trie pos e b h = get_or-set_ne trie.buckets pos.bucket b _ zero_bucket h

-- All other cells stay.
pub entry_at-with_entry :
    (trie : Trie) (pos : Cell) (e : Entry) (b i : ℕ)
    → pos.bucket < length trie.buckets
    → (b ≡ pos.bucket → i ≢ pos.index)
    → entry_at (with_entry trie pos e) (record { bucket = b; index = i })
      ≡ entry_at trie (record { bucket = b; index = i })
unfolding entry_at cell_at
entry_at-with_entry trie pos e b i below h = elim (ℕ_discrete b pos.bucket) [
  | yes same ↦
      rw (same, bucket_at-with_entry trie pos e below)
        (get_or-set_ne (bucket_at trie pos.bucket).cells pos.index i e zero_entry
          (λ q. h same (sym q)))
  | no differs ↦
      ap (λ (bucket : Bucket). cell_at bucket i)
        (bucket_at-with_entry_ne trie pos e b (λ q. differs (sym q)))
]

pub written-IsBucket :
    (cells : List Entry) (i : ℕ) (e : Entry) → IsBucket cells → IsCell e → IsBucket (set cells i e)
written-IsBucket cells zero e h cell = record {
  e0 = e;
  e1 = h.e1;
  e2 = h.e2;
  e3 = h.e3;
  cells_eq = rw (h.cells_eq) refl;
  cell0 = cell;
  cell1 = h.cell1;
  cell2 = h.cell2;
  cell3 = h.cell3;
}
written-IsBucket cells (suc zero) e h cell = record {
  e0 = h.e0;
  e1 = e;
  e2 = h.e2;
  e3 = h.e3;
  cells_eq = rw (h.cells_eq) refl;
  cell0 = h.cell0;
  cell1 = cell;
  cell2 = h.cell2;
  cell3 = h.cell3;
}
written-IsBucket cells (suc (suc zero)) e h cell = record {
  e0 = h.e0;
  e1 = h.e1;
  e2 = e;
  e3 = h.e3;
  cells_eq = rw (h.cells_eq) refl;
  cell0 = h.cell0;
  cell1 = h.cell1;
  cell2 = cell;
  cell3 = h.cell3;
}
written-IsBucket cells (suc (suc (suc zero))) e h cell = record {
  e0 = h.e0;
  e1 = h.e1;
  e2 = h.e2;
  e3 = e;
  cells_eq = rw (h.cells_eq) refl;
  cell0 = h.cell0;
  cell1 = h.cell1;
  cell2 = h.cell2;
  cell3 = cell;
}
written-IsBucket cells (suc (suc (suc (suc i)))) e h cell = record {
  e0 = h.e0;
  e1 = h.e1;
  e2 = h.e2;
  e3 = h.e3;
  cells_eq = rw (h.cells_eq) refl;
  cell0 = h.cell0;
  cell1 = h.cell1;
  cell2 = h.cell2;
  cell3 = h.cell3;
}

module _ (test : Entry → Bool) (trie : Trie) (b : ℕ) (writable : IsWritable (bucket_at trie b))
    (below : b < length trie.buckets) (e : Entry) (passes : test e ≡ true) where
  -- A search that found an entry finds what was written over it.
  pub first_match-with_entry :
      (t : ℕ) (copy : LocalCopy)
      → first_match test (still trie t b) ≡ some copy
      → first_match test (still (with_entry trie (record { bucket = b; index = copy.index }) e) t b)
        ≡ some (record {
          value = e;
          index = copy.index;
          last_seq = next_seq (bucket_at trie b).write_lock_and_seq;
        })
  unfolding first_match validated
  first_match-with_entry t copy q =
      let c = first_match-IsCopy test (still trie t b) copy q in
      let pos : Cell = record { bucket = b; index = copy.index } in
      rw
        (
          bucket_at-with_entry trie pos e below,
          next_seq-idle (bucket_at trie b).write_lock_and_seq writable.idle,
          first_cell-replaced test (bucket_at trie b).cells copy.index e c.first passes,
          ==_refl (next_seq (bucket_at trie b).write_lock_and_seq),
          get_or-set_self (bucket_at trie b).cells copy.index e zero_entry
              (index_below test (bucket_at trie b).cells copy.index c.first),
        )
        refl
