-- ===== src/Pairs/Returns.antt =====
-- The two searches of a pair of buckets while other threads write, on buckets of four cells.
use cuckoo_trie_vectorized.Base.{ℕ, ◌*◌, ◌<◌, ◌≤◌, ◌≡◌, refl, Bool, List, [], ◌∷◌, some, sym}
use cuckoo_trie_vectorized.Config.{max_valid_color}
use cuckoo_trie_vectorized.Entry.{Entry}
use cuckoo_trie_vectorized.Trie.{Trie}
use cuckoo_trie_vectorized.Hash.{mix_bucket}
use cuckoo_trie_vectorized.Search.{
  SeenBucket, find_entry_in_bucket_by_color_vectorized, find_entry_in_bucket_by_parent_vectorized,
}
use cuckoo_trie_vectorized.Search.Headers.{IsCell, has_color, has_parent}
use cuckoo_trie_vectorized.Search.Buckets.{
  first_match, seen_cells, find_by_color_agree, find_by_parent_agree,
}
use cuckoo_trie_vectorized.Pairs.Defs.{
  EntryCopy, View, find_entry_in_pair_by_color, find_entry_in_pair_by_parent,
}
use cuckoo_trie_vectorized.Pairs.Finds.{IsSeen, IsFromPair, pair_bucket, look_at, returned}

-- Four cells, each in use or blank.
pub record IsBucket (cells : List Entry) : Type 0 where
  pub e0 : Entry
  pub e1 : Entry
  pub e2 : Entry
  pub e3 : Entry
  pub cells_eq : cells ≡ e0 ∷ e1 ∷ e2 ∷ e3 ∷ []
  pub cell0 : IsCell e0
  pub cell1 : IsCell e1
  pub cell2 : IsCell e2
  pub cell3 : IsCell e3

module _ (seen : SeenBucket) (h : IsBucket seen.cells) (is_secondary : Bool) (tag : ℕ)
    (tag_fits : tag < 16) where
  seen_eq : seen_cells seen.start_counter h.e0 h.e1 h.e2 h.e3 seen.end_counter ≡ seen
  seen_eq = rw (sym h.cells_eq) refl

  pub search_by_color :
      (color : ℕ)
      → color ≤ max_valid_color
      → find_entry_in_bucket_by_color_vectorized seen is_secondary tag color
        ≡ first_match (λ e. has_color e is_secondary tag color) seen
  search_by_color color valid =
      rw (sym seen_eq)
        (find_by_color_agree seen.start_counter seen.end_counter h.e0 h.e1 h.e2 h.e3 h.cell0 h.cell1
          h.cell2 h.cell3 is_secondary tag tag_fits color valid).1

  pub search_by_parent :
      (last_symbol parent_color : ℕ)
      → last_symbol < 256
      → parent_color ≤ max_valid_color
      → find_entry_in_bucket_by_parent_vectorized seen is_secondary tag last_symbol parent_color
        ≡ first_match (λ e. has_parent e is_secondary tag last_symbol parent_color) seen
  search_by_parent last_symbol parent_color l_fits valid =
      rw (sym seen_eq)
        (find_by_parent_agree seen.start_counter seen.end_counter h.e0 h.e1 h.e2 h.e3 h.cell0
          h.cell1 h.cell2 h.cell3 is_secondary tag tag_fits last_symbol parent_color l_fits valid).1

-- The bucket where the entry waits, as the look of round `n` sees it.
abbrev pub last_look : Trie → View → ℕ → ℕ → ℕ → Bool → SeenBucket
last_look trie view primary tag n is_secondary =
    view (look_at (2 * n) is_secondary)
      (pair_bucket primary (mix_bucket trie primary tag) is_secondary)

module _ (trie : Trie) (view : View) (primary tag : ℕ)
    (cells : (t : ℕ) (s : Bool)
      → IsBucket (view t (pair_bucket primary (mix_bucket trie primary tag) s)).cells)
    (tag_fits : tag < 16) (n : ℕ) (n_fits : n < 100) (is_secondary : Bool) where
  -- While other threads write as they like, find_entry_in_pair_by_color returns if one of its
  -- hundred rounds sees an entry with the tag and a valid colour in a bucket that nobody writes in
  -- meanwhile. What it returns is a copy of such an entry, from one of the two buckets of the pair
  -- and with the flag of that bucket, as one undisturbed look saw it.
  pub find_entry_in_pair_by_color-returns :
      (color : ℕ)
      → color ≤ max_valid_color
      → IsSeen
          (λ e. has_color e is_secondary tag color)
          (last_look trie view primary tag n is_secondary)
      → (found : EntryCopy) × (find_entry_in_pair_by_color trie view primary tag color ≡ some found)
        × IsFromPair
            (λ s e. has_color e s tag color)
            view
            primary
            (mix_bucket trie primary tag)
            found
  unfolding find_entry_in_pair_by_color
  find_entry_in_pair_by_color-returns color valid h =
      let search = λ (seen : SeenBucket) (s : Bool).
        find_entry_in_bucket_by_color_vectorized seen s tag color in
      let agrees = λ (t : ℕ) (s : Bool).
        search_by_color (view t (pair_bucket primary (mix_bucket trie primary tag) s)) (cells t s) s
          tag tag_fits color valid in
      returned search (λ s e. has_color e s tag color) view primary (mix_bucket trie primary tag)
        agrees n n_fits is_secondary h

  -- The same for find_entry_in_pair_by_parent, which looks for the tag, the last symbol and a valid
  -- colour of the parent.
  pub find_entry_in_pair_by_parent-returns :
      (last_symbol parent_color : ℕ)
      → last_symbol < 256
      → parent_color ≤ max_valid_color
      → IsSeen
          (λ e. has_parent e is_secondary tag last_symbol parent_color)
          (last_look trie view primary tag n is_secondary)
      → (found : EntryCopy) × (find_entry_in_pair_by_parent trie view primary tag last_symbol
            parent_color
          ≡ some found)
        × IsFromPair
            (λ s e. has_parent e s tag last_symbol parent_color)
            view
            primary
            (mix_bucket trie primary tag)
            found
  unfolding find_entry_in_pair_by_parent
  find_entry_in_pair_by_parent-returns last_symbol parent_color l_fits valid h =
      let search = λ (seen : SeenBucket) (s : Bool).
        find_entry_in_bucket_by_parent_vectorized seen s tag last_symbol parent_color in
      let agrees = λ (t : ℕ) (s : Bool).
        search_by_parent (view t (pair_bucket primary (mix_bucket trie primary tag) s)) (cells t s)
          s tag tag_fits last_symbol parent_color l_fits valid in
      returned search (λ s e. has_parent e s tag last_symbol parent_color) view primary
        (mix_bucket trie primary tag) agrees n n_fits is_secondary h
