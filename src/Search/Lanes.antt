-- ===== src/Search/Lanes.antt =====
-- The lanes of the SSE search: which byte masks it makes and which cell it takes from them.
use cuckoo_trie_vectorized.Base.{
  ℕ, ◌+◌, ◌-◌, ◌*◌, ◌/◌, ◌%◌, ◌^◌, bit_and, bit_xor, ◌≡◌, refl, arith, Bool, true, false, not, ◌&&◌,
  ◌==◌, if◌then◌else◌, Option, none,
}
use cuckoo_trie_vectorized.Bits.{bit_and-low_mask}
use cuckoo_trie_vectorized.BitString.{count_trailing_zeros}
use cuckoo_trie_vectorized.Search.Defs.{
  SeenBucket, LocalCopy, cell_matches, validated, match_pair, movemask_lane, tag_mask64,
  tag_value64,
}

abbrev ones_if : Bool → ℕ
ones_if b = if b then 2 ^ 64 - 1 else 0

-- The three comparisons of a lane.
lane_lem :
    (unused tag_fits header_fits : Bool)
    → bit_and
        (bit_and (bit_xor (ones_if unused) (2 ^ 64 - 1)) (ones_if tag_fits))
        (ones_if header_fits)
      ≡ ones_if ((not unused && tag_fits) && header_fits)
lane_lem true true true = refl
lane_lem true true false = refl
lane_lem true false true = refl
lane_lem true false false = refl
lane_lem false true true = refl
lane_lem false true false = refl
lane_lem false false true = refl
lane_lem false false false = refl

pair_mask :
    (first second : Bool)
    → movemask_lane 8 (ones_if first) + 256 * movemask_lane 8 (ones_if second)
      ≡ (if first then 0xFF else 0) + (if second then 0xFF00 else 0)
unfolding movemask_lane
pair_mask true true = refl
pair_mask true false = refl
pair_mask false true = refl
pair_mask false false = refl

type_of_byte : (h : ℕ) → bit_and (h % 256) 3 ≡ bit_and h 3
type_of_byte h = omega (arith, bit_and-low_mask 2 (h % 256), bit_and-low_mask 2 h)

module _ (h0 h1 tag mask values : ℕ) where
  -- Each lane of the comparison is all ones exactly if its cell matches.
  pub match_pair_lem :
      match_pair (h0, h1) tag mask values
      ≡ (if cell_matches h0 tag mask values then 0xFF else 0)
        + (if cell_matches h1 tag mask values then 0xFF00 else 0)
  unfolding match_pair cell_matches
  match_pair_lem =
      rw
        (
          type_of_byte h0,
          type_of_byte h1,
          lane_lem (bit_and h0 3 == 0) (bit_and h0 tag_mask64 == tag_value64 tag)
              (bit_and h0 mask == values),
          lane_lem (bit_and h1 3 == 0) (bit_and h1 tag_mask64 == tag_value64 tag)
              (bit_and h1 mask == values),
        )
        (pair_mask _ _)

-- The index that `count_trailing_zeros` finds in the masks of two pairs.
abbrev pub mask_of : Bool → Bool → ℕ
mask_of first second = (if first then 0xFF else 0) + (if second then 0xFF00 else 0)

abbrev pub of_pairs : SeenBucket → ℕ → ℕ → Option LocalCopy
of_pairs seen m01 m23 =
    if not (m01 == 0)
    then validated seen (count_trailing_zeros 32 m01 / 2 ^ 3)
    else if m23 == 0
    then none
    else validated seen (2 + count_trailing_zeros 32 m23 / 2 ^ 3)

pub pairs_first :
    (seen : SeenBucket) (b0 b1 b2 b3 : Bool)
    → of_pairs seen (mask_of b0 b1) (mask_of b2 b3) ≡ (
        if b0
        then validated seen 0
        else if b1
        then validated seen 1
        else if b2
        then validated seen 2
        else if b3
        then validated seen 3
        else none)
unfolding count_trailing_zeros
pairs_first seen true true b2 b3 = refl
pairs_first seen true false b2 b3 = refl
pairs_first seen false true b2 b3 = refl
pairs_first seen false false true true = refl
pairs_first seen false false true false = refl
pairs_first seen false false false true = refl
pairs_first seen false false false false = refl
