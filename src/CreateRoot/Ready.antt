-- ===== src/CreateRoot/Ready.antt =====
-- The table that `ct_alloc` returns, ready for its first key.
use cuckoo_trie_vectorized.Base.{ℕ, zero, suc, ◌<◌, ◌≡◌, refl, arith, true, length}
use cuckoo_trie_vectorized.Config.{type_unused}
use cuckoo_trie_vectorized.Entry.{entry_type}
use cuckoo_trie_vectorized.Trie.{Trie, Cell, unused_entry, bucket_at, cell_at, entry_at}
use cuckoo_trie_vectorized.Alloc.{unused_bucket}
use cuckoo_trie_vectorized.Alloc.Table.{IsFresh}
use cuckoo_trie_vectorized.Search.Headers.{IsCell}
use cuckoo_trie_vectorized.Pairs.Returns.{IsBucket}
use cuckoo_trie_vectorized.Lookup.{Objects}
use cuckoo_trie_vectorized.Lookup.Tree.{IsTrie, InTable}

-- A table without entries, and with its head of the list.
pub record IsReady (kv_at : Objects) (trie : Trie) : Type 0 where
  pub is_trie : IsTrie kv_at trie
  pub empty : trie.is_empty ≡ true
  pub unused : (c : Cell) → InTable trie c → entry_type (entry_at trie c) ≡ type_unused
  pub head_there : trie.num_buckets < length trie.buckets
  pub head_cells : 0 < length (bucket_at trie trie.num_buckets).cells

blank-IsCell : IsCell unused_entry
blank-IsCell = (omega arith, λ e. (refl, refl))

blank_cells-IsBucket : IsBucket unused_bucket.cells
blank_cells-IsBucket = record {
  e0 = unused_entry;
  e1 = unused_entry;
  e2 = unused_entry;
  e3 = unused_entry;
  cells_eq = refl;
  cell0 = blank-IsCell;
  cell1 = blank-IsCell;
  cell2 = blank-IsCell;
  cell3 = blank-IsCell;
}

unused_cells : (i : ℕ) → i < 4 → entry_type (cell_at unused_bucket i) ≡ type_unused
unfolding cell_at entry_type
unused_cells zero h = refl
unused_cells (suc zero) h = refl
unused_cells (suc (suc zero)) h = refl
unused_cells (suc (suc (suc zero))) h = refl
unused_cells (suc (suc (suc (suc i)))) h = absurd (omega (arith, h))

pub IsFresh-IsReady : (kv_at : Objects) (trie : Trie) → IsFresh trie → IsReady kv_at trie
unfolding entry_at
IsFresh-IsReady kv_at trie fresh = record {
  is_trie = record {
    geometry = fresh.geometry;
    buckets = λ b below. rw (fresh.unused b below) blank_cells-IsBucket;
    quiet = λ b below. rw (fresh.unused b below) refl;
    rooted = λ rooted. absurd (ground (arith, rooted, fresh.empty));
  };
  empty = fresh.empty;
  unused = λ c inside. rw (fresh.unused c.bucket inside.0) (unused_cells c.index inside.1);
  head_there = omega (arith, fresh.bucket_count);
  head_cells = rw (fresh.head) (omega arith);
}
