-- ===== src/CreateRoot/Tables.antt =====
-- The table after `create_root`, cell by cell.
use cuckoo_trie_vectorized.Base.{
  ℕ, ◌-◌, ◌^◌, ◌<◌, ◌≡◌, ◌≢◌, sym, ap, ◌∙◌, subst, arith, false, length, ℕ_discrete, bit_and,
}
use cuckoo_trie_vectorized.Config.{type_unused, seq_increment, root_color}
use cuckoo_trie_vectorized.Entry.{Entry, entry_type, entry_kv, entry_set_kv}
use cuckoo_trie_vectorized.Entry.Bytes.{IsEntry}
use cuckoo_trie_vectorized.Entry.Fields.{IsCanonical, entry_kv-entry_set_kv}
use cuckoo_trie_vectorized.Trie.{Trie, Cell, bucket_at, set_bucket, cell_at, entry_at}
use cuckoo_trie_vectorized.Hash.{hash_to_bucket, hash_to_tag}
use cuckoo_trie_vectorized.Hash.Geometry.{IsGeometry}
use cuckoo_trie_vectorized.Alloc.{trie_min_leaf}
use cuckoo_trie_vectorized.Search.Headers.{IsCell}
use cuckoo_trie_vectorized.Pairs.Returns.{IsBucket}
use cuckoo_trie_vectorized.Pairs.Writes.{written-IsBucket}
use cuckoo_trie_vectorized.Relocate.{set_entry}
use cuckoo_trie_vectorized.Relocate.Writes.{
  bucket_at-set_entry_ne, bucket_at-set_entry, length-set_entry, entry_at-set_entry,
  entry_at-set_entry_ne,
}
use cuckoo_trie_vectorized.Lookup.{Objects}
use cuckoo_trie_vectorized.Lookup.Tree.{IsTrie, InTable, root_cell}
use cuckoo_trie_vectorized.Update.Writes
use cuckoo_trie_vectorized.CreateRoot.Ready.{IsReady}
use cuckoo_trie_vectorized.CreateRoot.Defs.{root_leaf, before_root}

module _ (unread : Entry) (kv : ℕ) (stored : IsEntry unread) where
  root_leaf-IsEntry : IsEntry (root_leaf unread kv)
  unfolding root_leaf entry_set_kv hash_to_tag
  root_leaf-IsEntry = record {
    flags_fit = omega arith;
    color_and_tag_fits = omega arith;
    last_symbol_fits = stored.last_symbol_fits;
    body_fits = omega arith;
    link_fits = record {
      bucket_fits = omega arith;
      tag_fits = stored.link_fits.tag_fits;
      color_fits = stored.link_fits.color_fits;
    };
  }

  root_leaf-IsCell : IsCell (root_leaf unread kv)
  unfolding root_leaf entry_type entry_set_kv
  root_leaf-IsCell = (root_leaf-IsEntry, λ unused. absurd (omega (arith, unused)))

  -- All of the root but its key object.
  abbrev prepared : Entry
  prepared = record unread {
    parent_color_and_flags = 0x91;
    color_and_tag = 0;
    link = record unread.link { primary_bucket = 2 ^ 32 - 1 };
  }

  prepared-IsEntry : IsEntry prepared
  prepared-IsEntry = record {
    flags_fit = omega arith;
    color_and_tag_fits = omega arith;
    last_symbol_fits = stored.last_symbol_fits;
    body_fits = stored.body_fits;
    link_fits = record {
      bucket_fits = omega arith;
      tag_fits = stored.link_fits.tag_fits;
      color_fits = stored.link_fits.color_fits;
    };
  }

  pub entry_kv-root_leaf : IsCanonical kv → entry_kv (root_leaf unread kv) ≡ kv
  unfolding root_leaf entry_set_kv hash_to_tag
  entry_kv-root_leaf canonical = (entry_kv-entry_set_kv prepared kv prepared-IsEntry canonical).0

module _ (kv_at : Objects) (trie : Trie) (fresh : IsReady kv_at trie) (unread : Entry) (kv : ℕ)
    (stored : IsEntry unread) where
  abbrev t : IsTrie kv_at trie
  t = fresh.is_trie

  abbrev head : Cell
  head = trie_min_leaf trie

  -- With the root, and then with the head in front of it.
  abbrev with_root : Trie
  with_root = set_entry trie root_cell (root_leaf unread kv)

  abbrev with_list : Trie
  with_list = set_entry with_root head (before_root (entry_at with_root head))

  abbrev pub created : Trie
  created = record with_list { is_empty = false }

  in_table : InTable trie root_cell
  unfolding hash_to_bucket
  in_table = (t.geometry.some_buckets, omega arith)

  root_below : root_cell.bucket < length trie.buckets
  root_below = Writes.below_length kv_at trie t root_cell 0 in_table

  root_written : entry_at with_root root_cell ≡ root_leaf unread kv
  root_written =
      entry_at-set_entry trie root_cell (root_leaf unread kv) root_below
        (Writes.index_below kv_at trie t root_cell 0 in_table)

  head_bucket : bucket_at with_root head.bucket ≡ bucket_at trie head.bucket
  unfolding trie_min_leaf hash_to_bucket
  head_bucket =
      bucket_at-set_entry_ne trie root_cell (root_leaf unread kv) head.bucket
        (λ e. omega (arith, e, t.geometry.some_buckets))

  head_below : head.bucket < length with_root.buckets
  unfolding trie_min_leaf
  head_below =
      omega (arith, length-set_entry trie root_cell (root_leaf unread kv), fresh.head_there)

  -- The buckets of the table are those with the root.
  kept_bucket : (b : ℕ) → b < trie.num_buckets → bucket_at created b ≡ bucket_at with_root b
  unfolding trie_min_leaf bucket_at
  kept_bucket b below =
      bucket_at-set_entry_ne with_root head (before_root (entry_at with_root head)) b
        (λ e. omega (arith, e, below))

  kept_entry : (c : Cell) → InTable trie c → entry_at created c ≡ entry_at with_root c
  unfolding entry_at
  kept_entry c inside = ap (λ (b : _). cell_at b c.index) (kept_bucket c.bucket inside.0)

  pub created-root : entry_at created root_cell ≡ root_leaf unread kv
  created-root = kept_entry root_cell in_table ∙ root_written

  pub created-unused :
      (c : Cell)
      → InTable trie c
      → (c.bucket ≡ root_cell.bucket → c.index ≢ root_cell.index)
      → entry_type (entry_at created c) ≡ type_unused
  created-unused c inside differs =
      ap entry_type (
        kept_entry c inside
        ∙ entry_at-set_entry_ne trie root_cell (root_leaf unread kv) root_below c.bucket c.index
            differs)
      ∙ fresh.unused c inside

  pub created-head :
      (entry_at created (trie_min_leaf created)).link
      ≡ record { primary_bucket = 0; tag = 0; color = root_color }
  unfolding trie_min_leaf entry_at bucket_at before_root set_entry set_bucket hash_to_bucket
      hash_to_tag
  created-head =
      ap (λ (e : Entry). e.link)
        (entry_at-set_entry with_root head (before_root (entry_at with_root head)) head_below
          (rw (head_bucket) fresh.head_cells))

  pub created-IsBucket : (b : ℕ) → b < trie.num_buckets → IsBucket (bucket_at created b).cells
  created-IsBucket b below = rw (kept_bucket b below) (elim (ℕ_discrete b root_cell.bucket) [
    | yes same ↦
        subst (λ (x : ℕ). IsBucket (bucket_at with_root x).cells) (sym same)
          (rw (bucket_at-set_entry trie root_cell (root_leaf unread kv) root_below) (
            written-IsBucket (bucket_at trie root_cell.bucket).cells 0 (root_leaf unread kv)
              (t.buckets root_cell.bucket in_table.0) (root_leaf-IsCell unread kv stored)))
    | no other ↦
        rw (bucket_at-set_entry_ne trie root_cell (root_leaf unread kv) b other) (t.buckets b below)
  ])

  pub created-quiet :
      (b : ℕ)
      → b < trie.num_buckets
      → bit_and (bucket_at created b).write_lock_and_seq seq_increment ≡ 0
  created-quiet b below = rw (kept_bucket b below) (elim (ℕ_discrete b root_cell.bucket) [
    | yes same ↦
        subst (λ (x : ℕ). bit_and (bucket_at with_root x).write_lock_and_seq seq_increment ≡ 0)
          (sym same)
          (rw (bucket_at-set_entry trie root_cell (root_leaf unread kv) root_below)
            (t.quiet root_cell.bucket in_table.0))
    | no other ↦
        rw (bucket_at-set_entry_ne trie root_cell (root_leaf unread kv) b other) (t.quiet b below)
  ])

  pub created-IsGeometry : IsGeometry created
  unfolding set_entry set_bucket
  created-IsGeometry = record {
    some_buckets = t.geometry.some_buckets;
    whole_blocks = t.geometry.whole_blocks;
    addressable = t.geometry.addressable;
    pairs = t.geometry.pairs;
    blocks = t.geometry.blocks;
    mix_bound = t.geometry.mix_bound;
  }
