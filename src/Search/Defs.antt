-- ===== src/Search/Defs.antt =====
-- The search of one bucket: the loops of main.c and the vectorised code of main_vectorized.c.
use cuckoo_trie_vectorized.Base.{
  ℕ, zero, suc, ◌+◌, ◌-◌, ◌*◌, ◌/◌, ◌%◌, ◌^◌, bit_and, bit_or, bit_xor, Bool, not, ◌&&◌, List, [],
  ◌∷◌, Option, none, some, ◌==◌, if◌then◌else◌, get_or, u8, u64, ◌<<<◌, ◌>>>◌,
}
use cuckoo_trie_vectorized.Config.{
  tag_bits, type_mask, flag_secondary_bucket, parent_color_shift, seq_increment, type_unused,
}
use cuckoo_trie_vectorized.Entry.{Entry, header_qword, entry_type}
use cuckoo_trie_vectorized.BitString.{count_trailing_zeros}
use cuckoo_trie_vectorized.Trie.{zero_entry}

-- What a search sees of a bucket: the counter before it, the cells, and the counter behind it. While
-- the counter stays, the cells do.
pub record SeenBucket : Type 0 where
  pub start_counter : ℕ
  pub cells : List Entry
  pub end_counter : ℕ

-- `ct_entry_local_copy` as a search fills it in, with the cell's index in the bucket.
pub record LocalCopy : Type 0 where
  pub value : Entry
  pub index : ℕ
  pub last_seq : ℕ

abbrev pub seen_entry : SeenBucket → ℕ → Entry
seen_entry seen i = get_or seen.cells i zero_entry

abbrev pub header : SeenBucket → ℕ → ℕ
header seen i = header_qword (seen_entry seen i)

-- `header_mask` and `header_values`, as the four functions build them. The first byte of an entry is
-- `parent_color_and_flags`, the second `color_and_tag`, the third `last_symbol`.
abbrev pub tag_mask64 : ℕ
tag_mask64 = (2 ^ tag_bits - 1) <<< 8

abbrev pub color_header_mask : ℕ
color_header_mask =
    bit_or (bit_or tag_mask64 (((0xFF <<< tag_bits) % 2 ^ 8) <<< 8)) flag_secondary_bucket

abbrev pub with_secondary : Bool → ℕ → ℕ
with_secondary is_secondary values =
    if is_secondary then bit_or values flag_secondary_bucket else values

unfoldable pub color_header_values : Bool → ℕ → ℕ → ℕ
color_header_values is_secondary tag color =
    with_secondary is_secondary (bit_or (u64 (tag <<< 8)) (u64 (color <<< (8 + tag_bits))))

abbrev pub parent_header_mask : ℕ
parent_header_mask =
    bit_or (bit_or (bit_or tag_mask64 (0xFF <<< 16)) ((0xFF <<< parent_color_shift) % 2 ^ 8))
      flag_secondary_bucket

unfoldable pub parent_header_values : Bool → ℕ → ℕ → ℕ → ℕ
parent_header_values is_secondary tag last_symbol parent_color = with_secondary is_secondary (
    bit_or (bit_or (u64 (tag <<< 8)) (u64 (last_symbol <<< 16)))
      (u64 (parent_color <<< parent_color_shift)))

-- The end of each search: the copy counts only if the counter did not move.
unfoldable pub validated : SeenBucket → ℕ → Option LocalCopy
validated seen i =
    if seen.end_counter == seen.start_counter
    then some (record { value = seen_entry seen i; index = i; last_seq = seen.start_counter })
    else none

abbrev pub copy_found : SeenBucket → Option ℕ → Option LocalCopy
copy_found seen none = none
copy_found seen (some i) = validated seen i

abbrev pub being_written : SeenBucket → Bool
being_written seen = not (bit_and seen.start_counter seq_increment == 0)

-- The loop over the cells, from cell `i` on.
unfoldable pub scan_headers : List Entry → ℕ → ℕ → ℕ → Option ℕ
scan_headers [] mask values i = none
scan_headers (cell ∷ rest) mask values i =
    if bit_and (header_qword cell) mask == values
    then some i
    else scan_headers rest mask values (suc i)

unfoldable pub search_headers : SeenBucket → ℕ → ℕ → Option LocalCopy
search_headers seen mask values =
    if being_written seen then none else copy_found seen (scan_headers seen.cells mask values 0)

unfoldable pub find_entry_in_bucket_by_color : SeenBucket → Bool → ℕ → ℕ → Option LocalCopy
find_entry_in_bucket_by_color seen is_secondary tag color =
    search_headers seen color_header_mask (color_header_values is_secondary tag color)

-- The search by parent asserts that the cell it found is in use, before it looks at the counter again.
unfoldable pub copy_asserted : SeenBucket → Option ℕ → Option (Option LocalCopy)
copy_asserted seen none = some none
copy_asserted seen (some i) =
    if entry_type (seen_entry seen i) == type_unused then none else some (validated seen i)

-- `some none` is the NULL of the source, and `none` an assertion that fails.
unfoldable pub find_entry_in_bucket_by_parent :
    SeenBucket → Bool → ℕ → ℕ → ℕ → Option (Option LocalCopy)
unfolding copy_asserted
find_entry_in_bucket_by_parent seen is_secondary tag last_symbol parent_color =
    let values = parent_header_values is_secondary tag last_symbol parent_color in
    if being_written seen
    then some none
    else copy_asserted seen (scan_headers seen.cells parent_header_mask values 0)

-- The cheap test in front of the full one: the cell is in use and its tag fits.
abbrev pub tag_value64 : ℕ → ℕ
tag_value64 tag = bit_and tag (2 ^ tag_bits - 1) <<< 8

unfoldable pub prefilter : ℕ → ℕ → Bool
prefilter h tag = not (bit_and (u8 h) type_mask == 0) && (bit_and h tag_mask64 == tag_value64 tag)

unfoldable pub cell_matches : ℕ → ℕ → ℕ → ℕ → Bool
unfolding prefilter
cell_matches h tag mask values = prefilter h tag && (bit_and h mask == values)

unfoldable pub find_entry_in_bucket_by_parent_vectorized :
    SeenBucket → Bool → ℕ → ℕ → ℕ → Option LocalCopy
find_entry_in_bucket_by_parent_vectorized seen is_secondary tag last_symbol parent_color =
    let values = parent_header_values is_secondary tag last_symbol parent_color in
    let matches = λ (i : ℕ). cell_matches (header seen i) tag parent_header_mask values in
    if being_written seen
    then none
    else if matches 0
    then validated seen 0
    else if matches 1
    then validated seen 1
    else if matches 2
    then validated seen 2
    else if matches 3
    then validated seen 3
    else none

-- `__m128i` as two lanes of 64 bits, and the intrinsics that the search by colour calls.
abbrev pub Lanes : Type 0
Lanes = ℕ × ℕ

abbrev pub all_ones : ℕ
all_ones = 2 ^ 64 - 1

abbrev cmpeq_lane : ℕ → ℕ → ℕ
cmpeq_lane a b = if a == b then all_ones else 0

unfoldable pub set1_epi64x : ℕ → Lanes
set1_epi64x a = (a, a)

unfoldable pub and_si128 : Lanes → Lanes → Lanes
and_si128 (a, b) (c, d) = (bit_and a c, bit_and b d)

unfoldable pub xor_si128 : Lanes → Lanes → Lanes
xor_si128 (a, b) (c, d) = (bit_xor a c, bit_xor b d)

unfoldable pub cmpeq_epi64 : Lanes → Lanes → Lanes
cmpeq_epi64 (a, b) (c, d) = (cmpeq_lane a c, cmpeq_lane b d)

-- The top bit of each of the eight bytes of a lane.
unfoldable pub movemask_lane : ℕ → ℕ → ℕ
movemask_lane zero a = 0
movemask_lane (suc bytes) a = a / 2 ^ 7 % 2 + 2 * movemask_lane bytes (a / 2 ^ 8)

unfoldable pub movemask_epi8 : Lanes → ℕ
unfolding movemask_lane
movemask_epi8 (a, b) = movemask_lane 8 a + 2 ^ 8 * movemask_lane 8 b

-- The mask of the bytes of two cells that match.
unfoldable pub match_pair : Lanes → ℕ → ℕ → ℕ → ℕ
unfolding set1_epi64x and_si128 xor_si128 cmpeq_epi64 movemask_epi8
match_pair headers tag mask values =
    let type_check = and_si128 headers (set1_epi64x type_mask) in
    let type_nonzero = xor_si128 (cmpeq_epi64 type_check (set1_epi64x 0)) (set1_epi64x all_ones) in
    let tag_check =
      cmpeq_epi64 (and_si128 headers (set1_epi64x tag_mask64)) (set1_epi64x (tag_value64 tag)) in
    let prefilter_pass = and_si128 type_nonzero tag_check in
    let full_check = cmpeq_epi64 (and_si128 headers (set1_epi64x mask)) (set1_epi64x values) in
    movemask_epi8 (and_si128 prefilter_pass full_check)

unfoldable pub find_entry_in_bucket_by_color_vectorized :
    SeenBucket → Bool → ℕ → ℕ → Option LocalCopy
find_entry_in_bucket_by_color_vectorized seen is_secondary tag color =
    let values = color_header_values is_secondary tag color in
    let m01 = match_pair (header seen 0, header seen 1) tag color_header_mask values in
    let m23 = match_pair (header seen 2, header seen 3) tag color_header_mask values in
    if being_written seen
    then none
    else if not (m01 == 0)
    then validated seen (count_trailing_zeros 32 m01 >>> 3)
    else if m23 == 0
    then none
    else validated seen (2 + count_trailing_zeros 32 m23 >>> 3)

unfoldable pub find_free_cell_in_bucket : List Entry → ℕ → Option ℕ
unfolding entry_type
find_free_cell_in_bucket [] i = none
find_free_cell_in_bucket (cell ∷ rest) i =
    if entry_type cell == type_unused then some i else find_free_cell_in_bucket rest (suc i)
