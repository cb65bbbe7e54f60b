-- ===== src/Relocate/Writes.antt =====
-- A write to one cell, and that it keeps the table well formed.
use cuckoo_trie_vectorized.Base.{
  ℕ, ◌<◌, ◌≡◌, ◌≢◌, arith, length, set, length-set, get_or-set_self, get_or-set_ne, ℕ_discrete, ◌∙◌,
  sym, ap,
}
use cuckoo_trie_vectorized.Entry.{Entry}
use cuckoo_trie_vectorized.Entry.Bytes.{IsEntry}
use cuckoo_trie_vectorized.Trie.{
  Trie, Bucket, Cell, bucket_at, set_bucket, cell_at, entry_at, zero_bucket, zero_entry,
}
use cuckoo_trie_vectorized.Relocate.Defs.{set_entry}
use cuckoo_trie_vectorized.Relocate.Queue.{IsTable}

module _ (trie : Trie) (pos : Cell) (e : Entry) where
  pub bucket_at-set_entry_ne :
      (b : ℕ) → b ≢ pos.bucket → bucket_at (set_entry trie pos e) b ≡ bucket_at trie b
  unfolding bucket_at set_entry set_bucket
  bucket_at-set_entry_ne b h =
      get_or-set_ne trie.buckets pos.bucket b _ zero_bucket (λ q. h (sym q))

  pub length-set_entry : length (set_entry trie pos e).buckets ≡ length trie.buckets
  unfolding set_entry set_bucket
  length-set_entry = length-set trie.buckets pos.bucket _

  module _ (below : pos.bucket < length trie.buckets) where
    pub bucket_at-set_entry :
        bucket_at (set_entry trie pos e) pos.bucket ≡ record (bucket_at trie pos.bucket) {
          cells = set (bucket_at trie pos.bucket).cells pos.index e;
        }
    unfolding bucket_at set_entry set_bucket
    bucket_at-set_entry = get_or-set_self trie.buckets pos.bucket _ zero_bucket below

    pub entry_at-set_entry :
        pos.index < length (bucket_at trie pos.bucket).cells
        → entry_at (set_entry trie pos e) pos ≡ e
    unfolding entry_at cell_at
    entry_at-set_entry index_below =
        rw (bucket_at-set_entry)
          (get_or-set_self (bucket_at trie pos.bucket).cells pos.index e zero_entry index_below)

    -- All other cells stay.
    pub entry_at-set_entry_ne :
        (b i : ℕ)
        → (b ≡ pos.bucket → i ≢ pos.index)
        → entry_at (set_entry trie pos e) (record { bucket = b; index = i })
          ≡ entry_at trie (record { bucket = b; index = i })
    unfolding entry_at cell_at
    entry_at-set_entry_ne b i differs = elim (ℕ_discrete b pos.bucket) [
      | yes same ↦
          rw (same, bucket_at-set_entry)
            (get_or-set_ne (bucket_at trie pos.bucket).cells pos.index i e zero_entry
              (λ q. differs same (sym q)))
      | no other ↦ ap (λ (bucket : Bucket). cell_at bucket i) (bucket_at-set_entry_ne b other)
    ]

  module _ (table : IsTable trie) (in_range : pos.bucket < trie.num_buckets)
      (index_fits : pos.index < 4) (fits : IsEntry e) where
    below_length : pos.bucket < length trie.buckets
    below_length = omega (arith, in_range, table.enough_buckets)

    index_below : pos.index < length (bucket_at trie pos.bucket).cells
    index_below = rw (table.four_cells pos.bucket in_range) index_fits

    set_entry-four_cells :
        (b : ℕ) → b < trie.num_buckets → length (bucket_at (set_entry trie pos e) b).cells ≡ 4
    set_entry-four_cells b below = elim (ℕ_discrete b pos.bucket) [
      | yes same ↦
          rw (same, bucket_at-set_entry below_length)
            (length-set (bucket_at trie pos.bucket).cells pos.index e
              ∙ table.four_cells pos.bucket in_range)
      | no other ↦ rw (bucket_at-set_entry_ne b other) (table.four_cells b below)
    ]

    set_entry-stored :
        (b i : ℕ)
        → b < trie.num_buckets
        → IsEntry (entry_at (set_entry trie pos e) (record { bucket = b; index = i }))
    set_entry-stored b i below = elim (ℕ_discrete b pos.bucket) [
      | yes same ↦ elim (ℕ_discrete i pos.index) [
        | yes here ↦ rw (same, here, entry_at-set_entry below_length index_below) fits
        | no elsewhere ↦
            rw (entry_at-set_entry_ne below_length b i (λ q. elsewhere)) (table.stored b i below)
      ]
      | no other ↦
          rw (entry_at-set_entry_ne below_length b i (λ q. absurd (other q)))
            (table.stored b i below)
    ]

    pub set_entry-IsTable : IsTable (set_entry trie pos e)
    unfolding set_entry set_bucket
    set_entry-IsTable = record {
      geometry = record {
        some_buckets = table.geometry.some_buckets;
        whole_blocks = table.geometry.whole_blocks;
        addressable = table.geometry.addressable;
        pairs = table.geometry.pairs;
        blocks = table.geometry.blocks;
        mix_bound = table.geometry.mix_bound;
      };
      enough_buckets = omega (arith, table.enough_buckets, length-set_entry);
      four_cells = set_entry-four_cells;
      stored = set_entry-stored;
    }
