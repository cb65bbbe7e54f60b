-- ===== src/Tests/IterRuns.antt =====
-- The theorems on iterators, updates and the first key, at a trie of two keys and at a fresh table.
use cuckoo_trie_vectorized.Base.{
  ℕ, zero, suc, ◌<◌, ◌≤◌, ◌≡◌, ◌↔◌, ◌⊎◌, inl, refl, arith, true, false, List, [], ◌∷◌, some,
}
use cuckoo_trie_vectorized.Entry.{Entry, Locator, entry_type}
use cuckoo_trie_vectorized.Entry.Bytes.{IsEntry}
use cuckoo_trie_vectorized.Trie.{Trie, bucket_at, cell_at, entry_at}
use cuckoo_trie_vectorized.Lookup.Tree.{IsTrie, Holds, InTable}
use cuckoo_trie_vectorized.Iterators.{Iter, ct_iter_goto}
use cuckoo_trie_vectorized.Iterators.{
  path_slot, find_left_descend, ascend_left, bitmap_child_before,
}
use cuckoo_trie_vectorized.Iterators.Left.{IsPath, IsLeft, find_left_descend-IsLeft}
use cuckoo_trie_vectorized.BitString.{last_bit_before}
use cuckoo_trie_vectorized.Fingers.{PathEntry}
use cuckoo_trie_vectorized.Update.{ct_update, s_ok, s_notfound, kv_key_bytes}
use cuckoo_trie_vectorized.Update.Outcome.{SameKey, IsReplacement, IsNew}
use cuckoo_trie_vectorized.Update.Refines.{ct_update-IsReplacement}
use cuckoo_trie_vectorized.Insertion.{propagate_max_leaf}
use cuckoo_trie_vectorized.Insertion.MaxLeaf.{propagate_max_leaf-Propagated}
use cuckoo_trie_vectorized.Insertion.Paths.{node, place_of, Propagated}
use cuckoo_trie_vectorized.Relocate.Queue.{IsTable}
use cuckoo_trie_vectorized.Pairs.Flags.{IsBucket-IsEntry}
use cuckoo_trie_vectorized.Locks.{si_ok, si_exists}
use cuckoo_trie_vectorized.Iterators.Walk.{ct_iter_goto-iter_calls}
use cuckoo_trie_vectorized.Iterators.Listed.{IsListed, iter_calls, listing}
use cuckoo_trie_vectorized.CreateRoot.{create_root}
use cuckoo_trie_vectorized.Alloc.{fresh_table}
use cuckoo_trie_vectorized.Alloc.Table.{IsFresh, fresh_table-IsFresh}
use cuckoo_trie_vectorized.CreateRoot.Rooted.{create_root-IsTrie}
use cuckoo_trie_vectorized.Tests.TwoKeys.{
  root_node, blank, two_keys, key_at, one_byte, two_keys-IsTrie, stack_garbage, unread_entry, zeros,
}
use cuckoo_trie_vectorized.Tests.TwoLeaves.{two_keys-IsListed}

abbrev stale_iter : Iter
stale_iter = record { is_exhausted = true; report_current = true; leaf = unread_entry }

ct_iter_goto_example :
    (iter : Iter) × (ct_iter_goto key_at stack_garbage unread_entry two_keys zeros stale_iter 0 40
      ≡ some iter)
    × ((n : ℕ) → iter_calls n two_keys iter ≡ some (listing n (100 ∷ 200 ∷ [])))
ct_iter_goto_example =
    ct_iter_goto-iter_calls key_at two_keys zeros stack_garbage unread_entry stale_iter 40
      (100 ∷ 200 ∷ []) two_keys-IsTrie two_keys-IsListed

-- A table of 64 buckets, as `ct_alloc` fills it.
abbrev no_keys : Trie
no_keys = fresh_table 64

no_keys-IsFresh : IsFresh no_keys
no_keys-IsFresh = fresh_table-IsFresh 64 (omega arith) refl (omega arith)

unread-IsEntry : IsEntry blank
unread-IsEntry = omega arith

create_root_example :
    (trie : Trie) × (create_root blank no_keys 200 ≡ (si_ok, trie))
    × IsTrie key_at trie
    × ((q : ℕ) → Holds trie q ↔ (q ≡ 200))
    × IsListed trie (200 ∷ [])
    × ((rooted : Trie) (garbage : Entry) (other : ℕ)
        → create_root garbage (record rooted { is_empty = false }) other
          ≡ (si_exists, record rooted { is_empty = false }))
create_root_example =
    create_root-IsTrie key_at no_keys blank 200 no_keys-IsFresh unread-IsEntry (record {
      is_kv = record { size_fits = omega arith; bytes_there = omega arith };
      bytes = one_byte;
      canonical = inl (omega arith);
    })

-- A bitmap node with a child of the symbol 5, below the root.
abbrev lower_node : Entry
lower_node = record root_node {
  last_symbol = 1;
  body = record { byte0 = 0x04; byte1 = 0; byte2 = 0; byte3 = 0; byte4 = 0; byte5 = 5 };
}

abbrev slot_of : Entry → PathEntry
slot_of e = record { entry = record unread_entry { value = e }; prefix_hash = 0 }

abbrev two_nodes : List PathEntry
two_nodes = slot_of root_node ∷ slot_of lower_node ∷ []

two_nodes-IsPath : IsPath two_nodes
two_nodes-IsPath = record { stored = stored; symbols = symbols }
  where
    stored : (i : ℕ) → IsEntry (path_slot two_nodes i).entry.value
    stored zero = omega arith
    stored (suc zero) = omega arith
    stored (suc (suc i)) = omega arith

    symbols : (i : ℕ) → (path_slot two_nodes i).entry.value.last_symbol ≤ 32
    symbols zero = omega arith
    symbols (suc zero) = omega arith
    symbols (suc (suc i)) = omega arith

-- Nothing is left of the symbol 3 in the lower node, so the root's child of the symbol 0 is next.
find_left_descend_run : find_left_descend two_nodes 1 3 ≡ some (0, 0)
unfolding find_left_descend ascend_left bitmap_child_before last_bit_before entry_type
    cuckoo_trie_vectorized.BitString.big_endian_qword
    cuckoo_trie_vectorized.BitString.count_trailing_zeros
find_left_descend_run = refl

find_left_descend_example : IsLeft two_nodes 1 3 (find_left_descend two_nodes 1 3)
find_left_descend_example = find_left_descend-IsLeft two_nodes 1 3 two_nodes-IsPath (omega arith)

-- The object at 300 has the key of that at 200.
new-IsNew : IsNew key_at zeros 300
unfolding cuckoo_trie_vectorized.Lookup.bytes_at kv_key_bytes
new-IsNew = record {
  is_kv = record { size_fits = omega arith; bytes_there = omega arith };
  short = omega arith;
  bytes = one_byte;
  in_memory = refl;
  canonical = inl (omega arith);
}

ct_update_example :
    ((ct_update key_at stack_garbage unread_entry two_keys zeros 300 ≡ some (s_notfound, two_keys))
      × ((q : ℕ) → Holds two_keys q → ¬ SameKey key_at q 300))
    ⊎ ((trie' : Trie) × (ct_update key_at stack_garbage unread_entry two_keys zeros 300
          ≡ some (s_ok, trie'))
        × IsReplacement key_at two_keys (100 ∷ 200 ∷ []) 300 trie'
        × ((q : ℕ) × Holds two_keys q × SameKey key_at q 300))
ct_update_example =
    ct_update-IsReplacement key_at two_keys zeros stack_garbage unread_entry 300 (100 ∷ 200 ∷ [])
      two_keys-IsTrie two_keys-IsListed (λ a. omega arith) new-IsNew

abbrev new_max_leaf : Locator
new_max_leaf = record { primary_bucket = 7; tag = 3; color = 2 }

-- The lower node got a new last leaf, and it is the last child of the root.
abbrev changed_path : List PathEntry
changed_path =
    record {
      entry = record unread_entry {
        value = root_node;
        last_pos = record { bucket = 0; index = 0 };
      };
      prefix_hash = 0;
    }
    ∷ slot_of (record lower_node { link = new_max_leaf })
    ∷ []

two_keys-IsTable : IsTable two_keys
unfolding entry_at cell_at
two_keys-IsTable = record {
  geometry = two_keys-IsTrie.geometry;
  enough_buckets = omega arith;
  four_cells = λ b below. rw ((two_keys-IsTrie.buckets b below).cells_eq) refl;
  stored = λ b i below.
      IsBucket-IsEntry (bucket_at two_keys b).cells i (two_keys-IsTrie.buckets b below);
}

root-InTable : (i : ℕ) → i < 1 → InTable two_keys (place_of changed_path i)
root-InTable zero h = (omega arith, omega arith)
root-InTable (suc i) h = absurd (omega (arith, h))

root_stands : (i : ℕ) → i < 1 → node changed_path i ≡ entry_at two_keys (place_of changed_path i)
unfolding entry_at bucket_at
root_stands zero h = refl
root_stands (suc i) h = absurd (omega (arith, h))

propagate_max_leaf_example :
    Propagated two_keys changed_path 0 1 new_max_leaf (propagate_max_leaf two_keys changed_path 0)
propagate_max_leaf_example =
    propagate_max_leaf-Propagated two_keys changed_path 0 1 refl two_keys-IsTable
      (record {
        inside = omega arith;
        in_table = root-InTable;
        stands = root_stands;
        distinct = λ i j up below. absurd (omega (arith, up, below));
      })
      (record { bucket_fits = omega arith; tag_fits = omega arith; color_fits = omega arith })
