-- ===== src/Colors/Defs.antt =====
-- The three functions of main_vectorized.c that choose a colour for a new entry of a pair of buckets.
use cuckoo_trie_vectorized.Base.{
  ℕ, ◌+◌, ◌-◌, ◌^◌, bit_and, bit_or, List, ◌∷◌, Option, none, some, ◌==◌, if◌then◌else◌, get_or,
  u64, ltb, ◌<<<◌, ◌>>>◌,
}
use cuckoo_trie_vectorized.Config.{tag_bits, max_valid_color}
use cuckoo_trie_vectorized.Entry.{Entry, header_qword, entry_color}
use cuckoo_trie_vectorized.BitString.{count_trailing_zeros}
use cuckoo_trie_vectorized.Trie.{zero_entry}

abbrev pub all_valid_colors : ℕ
all_valid_colors = (1 <<< (max_valid_color + 1)) - 1

-- The end of each version: `none` is the assertion that a colour is free.
unfoldable pub free_color : ℕ → Option ℕ
free_color used_colors =
    if bit_and used_colors all_valid_colors == all_valid_colors
    then none
    else some (count_trailing_zeros 64 (2 ^ 64 - 1 - used_colors))

-- The scalar loop, over a cell of each bucket at a time.
unfoldable pub used_colors_from : List Entry → List Entry → ℕ → ℕ
used_colors_from (e ∷ cells1) (f ∷ cells2) used_colors =
    used_colors_from cells1 cells2
      (bit_or (bit_or used_colors (u64 (1 <<< entry_color e))) (u64 (1 <<< entry_color f)))
used_colors_from cells1 cells2 used_colors = used_colors

unfoldable pub unused_color_in_pair_scalar : List Entry → List Entry → Option ℕ
unused_color_in_pair_scalar cells1 cells2 = free_color (used_colors_from cells1 cells2 0)

-- A lane of the vectorised versions, from the header of a cell: mask, shift right by a constant,
-- and shift 1 left by the colour, where a count of 64 or more gives 0.
unfoldable pub color_lane : ℕ → ℕ
color_lane header =
    let color = bit_and header (0xFF <<< 8) >>> (8 + tag_bits) in
    if ltb color 64 then 1 <<< color else 0

abbrev lane_of : List Entry → ℕ → ℕ
lane_of cells i = color_lane (header_qword (get_or cells i zero_entry))

-- Lanes 0 to 3 are the first bucket's cells, 4 to 7 the second's.
unfoldable pub unused_color_in_pair_avx512 : List Entry → List Entry → Option ℕ
unused_color_in_pair_avx512 cells1 cells2 = free_color (
    bit_or
      (bit_or
        (bit_or
          (bit_or
            (bit_or (bit_or (bit_or (lane_of cells1 0) (lane_of cells1 1)) (lane_of cells1 2))
              (lane_of cells1 3))
            (lane_of cells2 0))
          (lane_of cells2 1))
        (lane_of cells2 2))
      (lane_of cells2 3))

-- Without AVX-512 the lanes of the two buckets are joined first.
unfoldable pub unused_color_in_pair_vectorized : List Entry → List Entry → Option ℕ
unused_color_in_pair_vectorized cells1 cells2 =
    let combined = λ (i : ℕ). bit_or (lane_of cells1 i) (lane_of cells2 i) in
    free_color (bit_or (bit_or (bit_or (combined 0) (combined 1)) (combined 2)) (combined 3))
