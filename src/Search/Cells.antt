-- ===== src/Search/Cells.antt =====
-- One cell: the test of each search is a comparison of fields, and the test in front of it never
-- turns away a cell that matches.
use cuckoo_trie_vectorized.Base.{
  ℕ, ◌≤◌, ◌<◌, bit_and, ◌≡◌, arith, Bool, true, false, not, ◌&&◌, ◌==◌, ==-ne,
}
use cuckoo_trie_vectorized.Config.{max_valid_color}
use cuckoo_trie_vectorized.Bits.{bit_and-low_mask}
use cuckoo_trie_vectorized.Bits.Bytes.{and_secondary}
use cuckoo_trie_vectorized.Entry.{
  Entry, header_qword, entry_color, entry_tag, entry_is_secondary, entry_type, entry_parent_color,
}
use cuckoo_trie_vectorized.Entry.Bytes.{IsEntry}
use cuckoo_trie_vectorized.Search.Defs.{
  color_header_mask, color_header_values, parent_header_mask, parent_header_values, prefilter,
  cell_matches,
}
use cuckoo_trie_vectorized.Search.Headers.{
  IsCell, has_color, has_parent, color_header_values_lem, parent_header_values_lem, color_masked,
  tag_masked, type_masked, parent_masked,
}

module _ (e : Entry) (h : IsEntry e) (is_secondary : Bool) (tag : ℕ) (tag_fits : tag < 16) where
  pub color_test :
      (color : ℕ)
      → color < 16
      → (bit_and (header_qword e) color_header_mask == color_header_values is_secondary tag color)
        ≡ has_color e is_secondary tag color
  unfolding entry_color entry_tag entry_is_secondary
  color_test color fits =
      rw (color_header_values_lem is_secondary tag color tag_fits fits, color_masked e h)
        (ground (
          arith,
          bit_and-low_mask 4 e.color_and_tag,
          and_secondary e.parent_color_and_flags,
          h.color_and_tag_fits,
          h.flags_fit,
        ))

  pub parent_test :
      (last_symbol parent_color : ℕ)
      → last_symbol < 256
      → parent_color < 16
      → (bit_and (header_qword e) parent_header_mask
          == parent_header_values is_secondary tag last_symbol parent_color)
        ≡ has_parent e is_secondary tag last_symbol parent_color
  unfolding entry_parent_color entry_tag entry_is_secondary
  parent_test last_symbol parent_color l_fits c_fits =
      rw
        (
          parent_header_values_lem is_secondary tag last_symbol parent_color tag_fits l_fits c_fits,
          parent_masked e h,
        )
        (ground (
          arith,
          bit_and-low_mask 4 e.color_and_tag,
          and_secondary e.parent_color_and_flags,
          h.color_and_tag_fits,
          h.flags_fit,
          h.last_symbol_fits,
        ))

  pub prefilter_lem :
      prefilter (header_qword e) tag ≡ not (entry_type e == 0) && (entry_tag e == tag)
  unfolding prefilter entry_type entry_tag
  prefilter_lem =
      rw (tag_masked e h, type_masked e h)
        (ground (
          arith,
          bit_and-low_mask 4 e.color_and_tag,
          bit_and-low_mask 4 tag,
          bit_and-low_mask 2 e.parent_color_and_flags,
        ))

module _ (e : Entry) (cell : IsCell e) (is_secondary : Bool) (tag : ℕ) (tag_fits : tag < 16) where
  pub color_matches :
      (color : ℕ)
      → color ≤ max_valid_color
      → cell_matches
          (header_qword e)
          tag
          color_header_mask
          (color_header_values is_secondary tag color)
        ≡ has_color e is_secondary tag color
  unfolding cell_matches entry_color
  color_matches color valid =
      rw
        (
          prefilter_lem e cell.0 is_secondary tag tag_fits,
          color_test e cell.0 is_secondary tag tag_fits color (omega arith),
        )
        (ground (arith, cell.1))

  pub parent_matches :
      (last_symbol parent_color : ℕ)
      → last_symbol < 256
      → parent_color ≤ max_valid_color
      → cell_matches
          (header_qword e)
          tag
          parent_header_mask
          (parent_header_values is_secondary tag last_symbol parent_color)
        ≡ has_parent e is_secondary tag last_symbol parent_color
  unfolding cell_matches entry_parent_color
  parent_matches last_symbol parent_color l_fits valid =
      rw
        (
          prefilter_lem e cell.0 is_secondary tag tag_fits,
          parent_test e cell.0 is_secondary tag tag_fits last_symbol parent_color l_fits
              (omega arith),
        )
        (ground (arith, cell.1))

-- A blank cell has no valid colour of a parent.
pub has_parent-used :
    (e : Entry) (cell : IsCell e) (is_secondary : Bool) (tag last_symbol parent_color : ℕ)
    → parent_color ≤ max_valid_color
    → has_parent e is_secondary tag last_symbol parent_color ≡ true
    → (entry_type e == 0) ≡ false
unfolding entry_parent_color
has_parent-used e cell is_secondary tag last_symbol parent_color valid passes =
    ==-ne (entry_type e) 0 (λ unused. ground (arith, valid, passes, (cell.1 unused).0))
