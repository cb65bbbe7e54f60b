-- ===== src/Search/Buckets.antt =====
-- A whole bucket: the loops of main.c and the vectorised searches of main_vectorized.c find the
-- same cell.
use cuckoo_trie_vectorized.Base.{
  ℕ, suc, ◌≤◌, Bool-cases, inl, inr, true, false, ◌<◌, bit_and, ◌≡◌, refl, arith, Bool, ◌==◌,
  if◌then◌else◌, List, [], ◌∷◌, Option, none, some, ◌∙◌, sym, ap,
}
use cuckoo_trie_vectorized.Config.{max_valid_color, type_unused}
use cuckoo_trie_vectorized.Entry.{Entry, header_qword, entry_type}
use cuckoo_trie_vectorized.Search.Defs.{
  SeenBucket, LocalCopy, color_header_mask, color_header_values, parent_header_mask,
  parent_header_values, cell_matches, validated, copy_found, copy_asserted, being_written,
  scan_headers, search_headers, find_entry_in_bucket_by_color, find_entry_in_bucket_by_parent,
  find_entry_in_bucket_by_color_vectorized, find_entry_in_bucket_by_parent_vectorized,
}
use cuckoo_trie_vectorized.Search.Lanes.{match_pair_lem, pairs_first}
use cuckoo_trie_vectorized.Search.Headers.{IsCell, has_color, has_parent}
use cuckoo_trie_vectorized.Search.Cells.{
  color_test, parent_test, color_matches, parent_matches, has_parent-used,
}

-- The first cell that passes a test, if the bucket was not being written and did not change.
unfoldable pub first_cell : (Entry → Bool) → List Entry → ℕ → Option ℕ
first_cell test [] i = none
first_cell test (e ∷ rest) i = if test e then some i else first_cell test rest (suc i)

unfoldable pub first_match : (Entry → Bool) → SeenBucket → Option LocalCopy
first_match test seen =
    if being_written seen then none else copy_found seen (first_cell test seen.cells 0)

abbrev All : (Entry → Type 0) → List Entry → Type 0
All P [] = Unit {0}
All P (e ∷ rest) = P e × All P rest

scan_headers-first_cell :
    (cells : List Entry) (test : Entry → Bool) (mask values i : ℕ)
    → All (λ e. (bit_and (header_qword e) mask == values) ≡ test e) cells
    → scan_headers cells mask values i ≡ first_cell test cells i
unfolding scan_headers first_cell
scan_headers-first_cell [] test mask values i h = refl
scan_headers-first_cell (e ∷ rest) test mask values i h =
    rw (h.0, scan_headers-first_cell rest test mask values (suc i) h.1) refl

search_headers-first_match :
    (seen : SeenBucket) (test : Entry → Bool) (mask values : ℕ)
    → All (λ e. (bit_and (header_qword e) mask == values) ≡ test e) seen.cells
    → search_headers seen mask values ≡ first_match test seen
unfolding search_headers first_match
search_headers-first_match seen test mask values h =
    ap (λ (found : Option ℕ). if being_written seen then none else copy_found seen found)
      (scan_headers-first_cell seen.cells test mask values 0 h)

abbrev pub seen_cells : ℕ → Entry → Entry → Entry → Entry → ℕ → SeenBucket
seen_cells start e0 e1 e2 e3 end = record {
  start_counter = start;
  cells = e0 ∷ e1 ∷ e2 ∷ e3 ∷ [];
  end_counter = end;
}

module _ (start end : ℕ) (e0 e1 e2 e3 : Entry) where
  abbrev seen : SeenBucket
  seen = seen_cells start e0 e1 e2 e3 end

  first_of_four :
      (test : Entry → Bool)
      → first_match test seen ≡ (
          if being_written seen
          then none
          else if test e0
          then validated seen 0
          else if test e1
          then validated seen 1
          else if test e2
          then validated seen 2
          else if test e3
          then validated seen 3
          else none)
  unfolding first_match first_cell
  first_of_four test = ground arith

  -- A test that only cells in use pass never meets the assertion.
  asserted-first_match :
      (test : Entry → Bool)
      → All (λ e. test e ≡ true → (entry_type e == type_unused) ≡ false) seen.cells
      → copy_asserted seen (first_cell test seen.cells 0)
        ≡ some (copy_found seen (first_cell test seen.cells 0))
  unfolding copy_asserted first_cell
  asserted-first_match test (u0, (u1, (u2, (u3, _)))) = elim (Bool-cases (test e0)) [
    | inl here ↦ rw (here, u0 here) refl
    | inr no0 ↦ elim (Bool-cases (test e1)) [
      | inl here ↦ rw (no0, here, u1 here) refl
      | inr no1 ↦ elim (Bool-cases (test e2)) [
        | inl here ↦ rw (no0, no1, here, u2 here) refl
        | inr no2 ↦ elim (Bool-cases (test e3)) [
          | inl here ↦ rw (no0, no1, no2, here, u3 here) refl
          | inr no3 ↦ rw (no0, no1, no2, no3) refl
        ]
      ]
    ]
  ]

  module _ (c0 : IsCell e0) (c1 : IsCell e1) (c2 : IsCell e2) (c3 : IsCell e3) (is_secondary : Bool)
      (tag : ℕ) (tag_fits : tag < 16) where
    -- On four cells that are in use or blank, and for a tag of four bits and a valid colour, the
    -- loop of main.c and the SSE search of main_vectorized.c both return a copy of the first cell
    -- with that colour, tag and secondary flag, or NULL if there is none, if a write is in progress
    -- or if the counter changed.
    pub find_by_color_agree :
        (color : ℕ)
        → color ≤ max_valid_color
        → (find_entry_in_bucket_by_color seen is_secondary tag color
            ≡ first_match (λ e. has_color e is_secondary tag color) seen)
          × (find_entry_in_bucket_by_color_vectorized seen is_secondary tag color
              ≡ first_match (λ e. has_color e is_secondary tag color) seen)
    unfolding find_entry_in_bucket_by_color find_entry_in_bucket_by_color_vectorized
    find_by_color_agree color valid = (
      search_headers-first_match seen (λ e. has_color e is_secondary tag color) color_header_mask
          (color_header_values is_secondary tag color)
          (test c0, (test c1, (test c2, (test c3, tt)))),
      ap (λ (found : Option LocalCopy). if being_written seen then none else found)
            (rw
              (
                match_pair_lem (header_qword e0) (header_qword e1) tag color_header_mask values,
                match_pair_lem (header_qword e2) (header_qword e3) tag color_header_mask values,
                matched c0,
                matched c1,
                matched c2,
                matched c3,
              )
              (pairs_first seen _ _ _ _))
          ∙ sym (first_of_four (λ e. has_color e is_secondary tag color)),
    )
      where
        values : ℕ
        values = color_header_values is_secondary tag color

        test :
            {e : Entry}
            → IsCell e
            → (bit_and (header_qword e) color_header_mask == values)
              ≡ has_color e is_secondary tag color
        test {e} c = color_test e c.0 is_secondary tag tag_fits color (omega arith)

        matched :
            {e : Entry}
            → IsCell e
            → cell_matches (header_qword e) tag color_header_mask values
              ≡ has_color e is_secondary tag color
        matched {e} c = color_matches e c is_secondary tag tag_fits color valid

    -- On four cells that are in use or blank, and for a tag of four bits, a last symbol of eight bits
    -- and a valid colour of the parent, the loop of main.c does not meet its assertion that the cell
    -- found is in use. It and the unrolled tests of main_vectorized.c both return a copy of the first
    -- cell with that tag, last symbol, colour of the parent and secondary flag, or NULL if there is
    -- none, if a write is in progress or if the counter changed.
    pub find_by_parent_agree :
        (last_symbol parent_color : ℕ)
        → last_symbol < 256
        → parent_color ≤ max_valid_color
        → (find_entry_in_bucket_by_parent seen is_secondary tag last_symbol parent_color
            ≡ some (first_match (λ e. has_parent e is_secondary tag last_symbol parent_color) seen))
          × (find_entry_in_bucket_by_parent_vectorized seen is_secondary tag last_symbol
                parent_color
              ≡ first_match (λ e. has_parent e is_secondary tag last_symbol parent_color) seen)
    unfolding first_match find_entry_in_bucket_by_parent find_entry_in_bucket_by_parent_vectorized
    find_by_parent_agree last_symbol parent_color l_fits valid = (
      rw
          (
            scan_headers-first_cell seen.cells
                (λ e. has_parent e is_secondary tag last_symbol parent_color) parent_header_mask
                values 0 (test c0, (test c1, (test c2, (test c3, tt)))),
            asserted-first_match (λ e. has_parent e is_secondary tag last_symbol parent_color)
                (used c0, (used c1, (used c2, (used c3, tt)))),
          )
          (ground arith),
      rw (matched c0, matched c1, matched c2, matched c3) refl
          ∙ sym (first_of_four (λ e. has_parent e is_secondary tag last_symbol parent_color)),
    )
      where
        values : ℕ
        values = parent_header_values is_secondary tag last_symbol parent_color

        test :
            {e : Entry}
            → IsCell e
            → (bit_and (header_qword e) parent_header_mask == values)
              ≡ has_parent e is_secondary tag last_symbol parent_color
        test {e} c =
            parent_test e c.0 is_secondary tag tag_fits last_symbol parent_color l_fits
              (omega arith)

        used :
            {e : Entry}
            → IsCell e
            → has_parent e is_secondary tag last_symbol parent_color ≡ true
            → (entry_type e == type_unused) ≡ false
        used {e} c = has_parent-used e c is_secondary tag last_symbol parent_color valid

        matched :
            {e : Entry}
            → IsCell e
            → cell_matches (header_qword e) tag parent_header_mask values
              ≡ has_parent e is_secondary tag last_symbol parent_color
        matched {e} c =
            parent_matches e c is_secondary tag tag_fits last_symbol parent_color l_fits valid
