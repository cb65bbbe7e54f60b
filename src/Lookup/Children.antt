-- ===== src/Lookup/Children.antt =====
-- In a trie that nobody writes in, the searches find the children of a node.
use cuckoo_trie_vectorized.Base.{
  ℕ, zero, suc, ◌<◌, ◌≤◌, ◌≡◌, refl, arith, subst, Bool, true, false, List, length, some,
}
use cuckoo_trie_vectorized.Config.{max_valid_color}
use cuckoo_trie_vectorized.Entry.{Entry}
use cuckoo_trie_vectorized.Trie.{Trie, Cell, bucket_at, cell_at, entry_at}
use cuckoo_trie_vectorized.Hash.{hash_to_bucket, hash_to_tag, mix_bucket}
use cuckoo_trie_vectorized.Hash.Geometry.{IsGeometry}
use cuckoo_trie_vectorized.Hash.Bounds.{accumulate_hash-lt}
use cuckoo_trie_vectorized.Hash.Pair.{mix-unmix_inverse}
use cuckoo_trie_vectorized.Prefetch.Steps.{prefix_hash}
use cuckoo_trie_vectorized.Pairs.{
  EntryCopy, still, find_entry_in_pair_by_color, find_entry_in_pair_by_parent,
}
use cuckoo_trie_vectorized.Pairs.Firsts.{index_below, index_passes}
use cuckoo_trie_vectorized.Pairs.Finds.{IsSeen, IsFromPair, pair_bucket}
use cuckoo_trie_vectorized.Pairs.Returns.{
  IsBucket, find_entry_in_pair_by_color-returns, find_entry_in_pair_by_parent-returns,
}
use cuckoo_trie_vectorized.Lookup.Defs.{Objects}
use cuckoo_trie_vectorized.Lookup.Tree.{IsTrie, InTable, IsPlaced, IsOnly, color_test, parent_test}

length-IsBucket : (cells : List Entry) → IsBucket cells → length cells ≡ 4
length-IsBucket cells h = rw (h.cells_eq) refl

module _ (kv_at : Objects) (trie : Trie) (h : IsTrie kv_at trie) (hash : ℕ) where
  pair_at : Bool → ℕ
  pair_at s =
      pair_bucket (hash_to_bucket hash) (mix_bucket trie (hash_to_bucket hash) (hash_to_tag hash)) s

  module _ (in_range : hash_to_bucket hash < trie.num_buckets) where
    pair_at-lt : (s : Bool) → pair_at s < trie.num_buckets
    unfolding pair_at
    pair_at-lt false = in_range
    pair_at-lt true =
        (mix-unmix_inverse trie (hash_to_bucket hash) (hash_to_tag hash) h.geometry in_range).0

    placed-IsSeen :
        (test : Bool → Entry → Bool) (pos : Cell) (placed : IsPlaced trie test hash pos)
        → IsSeen (test placed.is_secondary) (still trie 0 (pair_at placed.is_secondary))
    unfolding pair_at entry_at cell_at
    placed-IsSeen test pos placed = record {
      quiet = record {
        not_written =
            rw (h.quiet (pair_at placed.is_secondary) (pair_at-lt placed.is_secondary)) refl;
        unchanged = refl;
      };
      index = pos.index;
      below = omega (
        arith,
        placed.index_fits,
        length-IsBucket (bucket_at trie (pair_at placed.is_secondary)).cells
            (h.buckets (pair_at placed.is_secondary) (pair_at-lt placed.is_secondary)),
      );
      passes =
          subst (λ (c : Cell). test placed.is_secondary (entry_at trie c) ≡ true) placed.pos_eq
            placed.passes;
    }

    from_pair-IsPlaced :
        (test : Bool → Entry → Bool) (found : EntryCopy)
        → IsFromPair test
            (still trie)
            (hash_to_bucket hash)
            (mix_bucket trie (hash_to_bucket hash) (hash_to_tag hash))
            found
        → IsPlaced trie test hash found.last_pos
    unfolding pair_at entry_at cell_at
    from_pair-IsPlaced test found from = record {
      is_secondary = from.is_secondary;
      index_fits = rw (← four) (index_below (test from.is_secondary) _ _ from.copied.first);
      pos_eq = rw (from.bucket_eq) refl;
      passes = index_passes (test from.is_secondary) _ _ from.copied.first;
    }
      where
        four : length (bucket_at trie found.last_pos.bucket).cells ≡ 4
        four =
            length-IsBucket (bucket_at trie found.last_pos.bucket).cells
              (h.buckets found.last_pos.bucket (rw (from.bucket_eq) (pair_at-lt from.is_secondary)))

    -- The copy is of the entry that stands alone in its pair.
    from_pair-place :
        (test : Bool → Entry → Bool) (pos : Cell) (found : EntryCopy)
        → IsOnly trie test hash pos
        → IsFromPair test
            (still trie)
            (hash_to_bucket hash)
            (mix_bucket trie (hash_to_bucket hash) (hash_to_tag hash))
            found
        → (found.last_pos ≡ pos)
          × (found.value ≡ entry_at trie found.last_pos)
          × InTable trie found.last_pos
    unfolding pair_at entry_at cell_at
    from_pair-place test pos found only from =
        let placed = from_pair-IsPlaced test found from in
        (
          only.alone found.last_pos placed,
          from.copied.value_eq,
          (rw (from.bucket_eq) (pair_at-lt from.is_secondary), placed.index_fits),
        )

    pair-IsBucket :
        (t : ℕ) (s : Bool)
        → IsBucket
            (still trie t (
              pair_bucket
                (hash_to_bucket hash)
                (mix_bucket trie (hash_to_bucket hash) (hash_to_tag hash))
                s)).cells
    unfolding pair_at
    pair-IsBucket t s = h.buckets (pair_at s) (pair_at-lt s)

    module _ (tag_fits : hash_to_tag hash < 16) (pos : Cell) where
      pub find_by_color-child :
          (color : ℕ)
          → color ≤ max_valid_color
          → IsOnly trie (color_test (hash_to_tag hash) color) hash pos
          → (found : EntryCopy) × (find_entry_in_pair_by_color trie
                (still trie)
                (hash_to_bucket hash)
                (hash_to_tag hash)
                color
              ≡ some found)
            × (found.last_pos ≡ pos)
            × (found.value ≡ entry_at trie found.last_pos)
            × InTable trie found.last_pos
      unfolding pair_at
      find_by_color-child color valid only =
          let (found, e, from) =
            find_entry_in_pair_by_color-returns trie (still trie) (hash_to_bucket hash)
              (hash_to_tag hash) pair-IsBucket tag_fits 0 (omega arith) only.placed.is_secondary
              color valid (placed-IsSeen (color_test (hash_to_tag hash) color) pos only.placed) in
          let places = from_pair-place (color_test (hash_to_tag hash) color) pos found only from in
          (found, e, places.0, places.1, places.2)

      pub find_by_parent-child :
          (s color : ℕ)
          → s ≤ 32
          → color ≤ max_valid_color
          → IsOnly trie (parent_test (hash_to_tag hash) s color) hash pos
          → (found : EntryCopy) × (find_entry_in_pair_by_parent trie
                (still trie)
                (hash_to_bucket hash)
                (hash_to_tag hash)
                s
                color
              ≡ some found)
            × (found.last_pos ≡ pos)
            × (found.value ≡ entry_at trie found.last_pos)
            × InTable trie found.last_pos
      unfolding pair_at
      find_by_parent-child s color s_fits valid only =
          let (found, e, from) =
            find_entry_in_pair_by_parent-returns trie (still trie) (hash_to_bucket hash)
              (hash_to_tag hash) pair-IsBucket tag_fits 0 (omega arith) only.placed.is_secondary s
              color (omega arith) valid
              (placed-IsSeen (parent_test (hash_to_tag hash) s color) pos only.placed) in
          let places =
            from_pair-place (parent_test (hash_to_tag hash) s color) pos found only from in
          (found, e, places.0, places.1, places.2)

-- The hash of a prefix of a key is in range.
pub prefix_hash-lt :
    (trie : Trie) (symbol : ℕ → ℕ) (n : ℕ)
    → IsGeometry trie
    → ((i : ℕ) → symbol i ≤ 32)
    → prefix_hash trie symbol n < trie.num_pairs
unfolding prefix_hash
prefix_hash-lt trie symbol zero g fits = omega (arith, g.some_buckets, g.pairs)
prefix_hash-lt trie symbol (suc n) g fits =
    (accumulate_hash-lt trie g (prefix_hash trie symbol n) (symbol n)
      (prefix_hash-lt trie symbol n g fits) (fits n)).0
