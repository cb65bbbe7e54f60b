-- ===== src/Colors/Words.antt =====
-- A word whose digits are the colours of some cells, and the lowest colour that it leaves.
use Prim.Native.Nat.{max}
use cuckoo_trie_vectorized.Base.{
  ℕ, ◌-◌, ◌*◌, ◌/◌, ◌^◌, ◌≤◌, ◌<◌, bit_and, bit_or, ◌≡◌, refl, ap, ◌∙◌, arith, List, [], ◌∷◌, ◌==◌,
  ltb, length, some, u64, true, false, ==-ne, ◌≢◌, dec_lt, ◌++◌, ltb→lt,
}
use cuckoo_trie_vectorized.Base.Table.{every, every_sound}
use cuckoo_trie_vectorized.Config.{max_valid_color}
use cuckoo_trie_vectorized.Bits.{
  bit, bit-bit_or, bit-bit_and, bit_or-lt, bit-lt, bit_and-shifted, bit_and-low_mask,
}
use cuckoo_trie_vectorized.Entry.{Entry, entry_color, header_qword}
use cuckoo_trie_vectorized.Entry.Bytes.{IsEntry}
use cuckoo_trie_vectorized.BitString.{count_trailing_zeros}
use cuckoo_trie_vectorized.BitString.Lowest.{count_trailing_zeros_lem, IsLowest}
use cuckoo_trie_vectorized.Search.Headers.{header_fields}
use cuckoo_trie_vectorized.Colors.Defs.{free_color, color_lane}
use cuckoo_trie_vectorized.Colors.Marks.{taken, bit-pow, bit-not, bit-zero, some_color_free}

-- A valid colour that no cell has, while some cell has each lower one.
pub record IsFirstUnused (c : ℕ) (cells : List Entry) : Type 0 where
  pub valid : c ≤ max_valid_color
  pub unused : taken c cells ≡ 0
  pub lower_used : (d : ℕ) → d < c → taken d cells ≡ 1

-- The digits of the word are the colours of the cells.
pub record Covers (used : ℕ) (cells : List Entry) : Type 0 where
  fits : used < 2 ^ 64
  digit : (c : ℕ) → bit used c ≡ taken c cells

module _ (used : ℕ) (cells : List Entry) (covers : Covers used cells) (few : length cells < 9) where
  free_one : (c : ℕ) × (c < 9) × (taken c cells ≡ 0)
  free_one = some_color_free 9 cells few

  abbrev flipped : ℕ
  flipped = 2 ^ 64 - 1 - used

  flipped_digit : (c : ℕ) → c < 64 → bit flipped c ≡ 1 - taken c cells
  flipped_digit c below =
      bit-not 64 used c covers.fits below ∙ ap (λ (d : ℕ). 1 - d) (covers.digit c)

  not_full : (bit_and used 0x1ff == 0x1ff) ≡ false
  not_full =
      let (free, low, unused) = free_one in
      ==-ne _ _ (λ e. omega (
        arith,
        ap (λ (w : ℕ). bit w free) e,
        bit-bit_and free used 0x1ff,
        bit-not 9 0 free (omega arith) low,
        bit-zero free,
        covers.digit free,
        unused,
      ))

  flipped_ne_zero : flipped ≢ 0
  flipped_ne_zero e =
      let (free, low, unused) = free_one in
      omega (
        arith,
        flipped_digit free (omega arith),
        unused,
        ap (λ (w : ℕ). bit w free) e,
        bit-zero free,
      )

  lowest_free : (c : ℕ) → c < 64 → IsLowest flipped c → IsFirstUnused c cells
  lowest_free c below lowest = record {
    valid = not_above;
    unused = omega (arith, flipped_digit c below, lowest.set, covers.digit c, bit-lt c used);
    lower_used = λ d lower. omega (
      arith,
      flipped_digit d (omega arith),
      lowest.clear_below d lower,
      covers.digit d,
      bit-lt d used,
    );
  }
    where
      not_above : c ≤ 8
      not_above =
          let (free, low, unused) = free_one in
          elim (dec_lt free c) [
            | yes lower ↦ absurd (
                omega
                  (arith, flipped_digit free (omega arith), lowest.clear_below free lower, unused))
            | no first ↦ omega (arith, first, low)
          ]

  pub free_color-IsFirstUnused : (c : ℕ) × (free_color used ≡ some c) × IsFirstUnused c cells
  unfolding free_color
  free_color-IsFirstUnused =
      let lowest = count_trailing_zeros_lem 64 flipped flipped_ne_zero (omega arith) in
      (
        count_trailing_zeros 64 flipped,
        rw not_full refl,
        lowest_free (count_trailing_zeros 64 flipped) lowest.0 lowest.1,
      )

small_power : (k : ℕ) → k < 16 → 2 ^ k < 2 ^ 64
small_power k below =
    ltb→lt (2 ^ k) (2 ^ 64) (every_sound 16 (λ k. ltb (2 ^ k) (2 ^ 64)) k table below)
  where
    table : every 16 (λ k. ltb (2 ^ k) (2 ^ 64)) ≡ true
    table = unfold every in refl

color-lt : (e : Entry) → IsEntry e → entry_color e < 16
unfolding entry_color
color-lt e h = omega (arith, h.color_and_tag_fits)

pub color_power : (e : Entry) → IsEntry e → u64 (1 * 2 ^ entry_color e) ≡ 2 ^ entry_color e
color_power e h = omega (arith, small_power (entry_color e) (color-lt e h))

pub color_lane_lem : (e : Entry) → IsEntry e → color_lane (header_qword e) ≡ 2 ^ entry_color e
unfolding color_lane entry_color
color_lane_lem e h =
    let color : bit_and (header_qword e) 0xff00 / 2 ^ 12 ≡ e.color_and_tag / 16 = omega (
      arith,
      header_fields e h,
      bit_and-shifted 8 (header_qword e) 0xff,
      bit_and-low_mask 8 (header_qword e / 2 ^ 8),
    ) in
    rw color (ground (arith, h.color_and_tag_fits))

pub Covers-one : (e : Entry) → IsEntry e → Covers (2 ^ entry_color e) (e ∷ [])
Covers-one e h = record {
  fits = small_power (entry_color e) (color-lt e h);
  digit = λ c. ground (arith, bit-pow (entry_color e) c);
}

pub Covers-none : Covers 0 []
Covers-none = record { fits = omega arith; digit = bit-zero }

pub taken-append : (c : ℕ) (xs ys : List Entry) → taken c (xs ++ ys) ≡ max (taken c xs) (taken c ys)
taken-append c [] ys = omega arith
taken-append c (e ∷ xs) ys = omega (arith, taken-append c xs ys)

-- One cell of each list at a time.
abbrev pub interleave : List Entry → List Entry → List Entry
interleave (e ∷ xs) (f ∷ ys) = e ∷ f ∷ interleave xs ys
interleave xs ys = xs ++ ys

pub taken-interleave :
    (c : ℕ) (xs ys : List Entry) → taken c (interleave xs ys) ≡ max (taken c xs) (taken c ys)
taken-interleave c (e ∷ xs) (f ∷ ys) = omega (arith, taken-interleave c xs ys)
taken-interleave c (e ∷ xs) [] = taken-append c (e ∷ xs) []
taken-interleave c [] ys = omega arith

pub Covers-or :
    {a b : ℕ} {xs ys : List Entry} → Covers a xs → Covers b ys → Covers (bit_or a b) (xs ++ ys)
Covers-or {a} {b} {xs} {ys} p q = record {
  fits = bit_or-lt 64 a b p.fits q.fits;
  digit = λ c. omega (arith, bit-bit_or c a b, p.digit c, q.digit c, taken-append c xs ys);
}

pub Covers-same :
    {used : ℕ} {xs ys : List Entry}
    → ((c : ℕ) → taken c xs ≡ taken c ys)
    → Covers used xs
    → Covers used ys
Covers-same same p = record { fits = p.fits; digit = λ c. p.digit c ∙ same c }

pub first_unique :
    (cells : List Entry) (c d : ℕ) → IsFirstUnused c cells → IsFirstUnused d cells → c ≡ d
first_unique cells c d p q = elim (dec_lt c d) [
  | yes lower ↦ absurd (omega (arith, q.lower_used c lower, p.unused))
  | no above ↦ elim (dec_lt d c) [
    | yes lower ↦ absurd (omega (arith, p.lower_used d lower, q.unused))
    | no below ↦ omega (arith, above, below)
  ]
]
