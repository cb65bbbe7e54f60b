-- ===== src/BitString/Ranges.antt =====
-- `last_bit_before` and `copy_bits`.
use cuckoo_trie_vectorized.Base.{
  ℕ, zero, suc, ◌+◌, ◌-◌, ◌*◌, ◌/◌, ◌%◌, ◌^◌, ◌≤◌, ◌<◌, bit_and, ◌≡◌, refl, arith, true, false, not,
  List, ◌==◌, leb, if◌then◌else◌, length, Option, none, some, u8, ◌<<<◌, ◌∙◌, ap, sym, Bool-cases,
  inl, inr, ==_iff,
}
use cuckoo_trie_vectorized.Base.Table.{every, every_sound, same, same→eq}
use cuckoo_trie_vectorized.Bits.{bit, bit-lt, bit_above, bit_below, bit-bit_and, bit_and-lt}
use cuckoo_trie_vectorized.BitString.Lowest.{IsLowest, count_trailing_zeros_lem}
use cuckoo_trie_vectorized.BitString.Defs.{
  byte_at, get_bit, big_endian_qword, last_bit_before, count_trailing_zeros, copy_bits,
  copy_bits_from, extract_bits,
}

read_table :
    every 8
      (λ r. every 256 (λ x. same (not (bit_and (u8 (x <<< r)) 0x80 == 0)) (bit x (7 - r) == 1)))
    ≡ true
unfolding every
read_table = refl

read_place :
    (x r : ℕ) → x < 256 → r < 8 → not (bit_and (u8 (x <<< r)) 0x80 == 0) ≡ (bit x (7 - r) == 1)
read_place x r xs rs = same→eq _ _ (every_sound 256 _ x (every_sound 8 _ r read_table rs) xs)

-- The mask of `last_bit_before`, at every end and every place of the QWORD.
mask_table :
    every 64 (λ end.
      every 64
        (λ c. bit (2 ^ 64 - 1 - (2 ^ 64 - 1) / 2 ^ end) c == (if leb (64 - end) c then 1 else 0)))
    ≡ true
unfolding every
mask_table = refl

mask_place :
    (end c : ℕ)
    → end < 64
    → c < 64
    → bit (2 ^ 64 - 1 - (2 ^ 64 - 1) / 2 ^ end) c ≡ (if leb (64 - end) c then 1 else 0)
mask_place end c es cs = (==_iff _ _).0 (every_sound 64 _ c (every_sound 64 _ end mask_table es) cs)

abbrev qword_of : ℕ → ℕ → ℕ → ℕ → ℕ → ℕ → ℕ → ℕ → ℕ
qword_of a b c d e f g h =
    (a * 2 ^ 24 + b * 2 ^ 16 + c * 2 ^ 8 + d) * 2 ^ 32 + (e * 2 ^ 24 + f * 2 ^ 16 + g * 2 ^ 8 + h)

abbrev Parts : ℕ → ℕ → ℕ → ℕ → ℕ → ℕ → ℕ → ℕ → Type 0
Parts a b c d e f g h =
    (qword_of a b c d e f g h / 2 ^ 56 % 256 ≡ a)
    × (qword_of a b c d e f g h / 2 ^ 48 % 256 ≡ b)
    × (qword_of a b c d e f g h / 2 ^ 40 % 256 ≡ c)
    × (qword_of a b c d e f g h / 2 ^ 32 % 256 ≡ d)
    × (qword_of a b c d e f g h / 2 ^ 24 % 256 ≡ e)
    × (qword_of a b c d e f g h / 2 ^ 16 % 256 ≡ f)
    × (qword_of a b c d e f g h / 2 ^ 8 % 256 ≡ g)
    × (qword_of a b c d e f g h / 2 ^ 0 % 256 ≡ h)
    × (qword_of a b c d e f g h < 2 ^ 64)

-- Each byte stands in the QWORD, the first one highest.
qword-Parts :
    (a b c d e f g h : ℕ)
    → a < 256
    → b < 256
    → c < 256
    → d < 256
    → e < 256
    → f < 256
    → g < 256
    → h < 256
    → Parts a b c d e f g h
qword-Parts a b c d e f g h pa pb pc pd pe pf pg ph = omega arith

module _ (bs : List ℕ) (bytes : (k : ℕ) → byte_at bs k < 256) where
  parts :
      Parts
        (byte_at bs 0)
        (byte_at bs 1)
        (byte_at bs 2)
        (byte_at bs 3)
        (byte_at bs 4)
        (byte_at bs 5)
        (byte_at bs 6)
        (byte_at bs 7)
  parts =
      qword-Parts (byte_at bs 0) (byte_at bs 1) (byte_at bs 2) (byte_at bs 3) (byte_at bs 4)
        (byte_at bs 5) (byte_at bs 6) (byte_at bs 7) (bytes 0) (bytes 1) (bytes 2) (bytes 3)
        (bytes 4) (bytes 5) (bytes 6) (bytes 7)

  byte_of_qword : (k : ℕ) → k < 8 → big_endian_qword bs / 2 ^ ((7 - k) * 8) % 256 ≡ byte_at bs k
  unfolding big_endian_qword
  byte_of_qword zero h = parts.0
  byte_of_qword (suc zero) h = parts.1
  byte_of_qword (suc (suc zero)) h = parts.2
  byte_of_qword (suc (suc (suc zero))) h = parts.3
  byte_of_qword (suc (suc (suc (suc zero)))) h = parts.4
  byte_of_qword (suc (suc (suc (suc (suc zero))))) h = parts.5
  byte_of_qword (suc (suc (suc (suc (suc (suc zero)))))) h = parts.6
  byte_of_qword (suc (suc (suc (suc (suc (suc (suc zero))))))) h = parts.7
  byte_of_qword (suc (suc (suc (suc (suc (suc (suc (suc k)))))))) h = absurd (omega arith)

  qword-lt : big_endian_qword bs < 2 ^ 64
  unfolding big_endian_qword
  qword-lt = parts.8

  -- Bit `j` of the string is the digit of the QWORD at place `63 - j`.
  bit_of_qword : (j : ℕ) → j < 64 → get_bit bs j ≡ (bit (big_endian_qword bs) (63 - j) == 1)
  unfolding get_bit
  bit_of_qword j h =
      read_place (byte_at bs (j / 8)) (j % 8) (bytes (j / 8)) (omega arith)
      ∙ ap (λ (d : ℕ). d == 1) (sym same_digit)
    where
      q : ℕ
      q = big_endian_qword bs / 2 ^ ((7 - j / 8) * 8)

      place : 63 - j ≡ (7 - j / 8) * 8 + (7 - j % 8)
      place = omega arith

      same_digit : bit (big_endian_qword bs) (63 - j) ≡ bit (byte_at bs (j / 8)) (7 - j % 8)
      same_digit = rw place (
          bit_above ((7 - j / 8) * 8) (7 - j % 8) (big_endian_qword bs)
          ∙ ap (λ (x : ℕ). bit x (7 - j % 8)) (split q)
          ∙ bit_below 8 (7 - j % 8) (q / 256) (q % 256) (omega arith)
          ∙ ap (λ (x : ℕ). bit x (7 - j % 8)) (byte_of_qword (j / 8) (omega arith)))
        where
          split : (x : ℕ) → x ≡ x / 256 * 2 ^ 8 + x % 256
          split x = omega arith

  module _ (end : ℕ) (es : end < 64) where
    abbrev kept : ℕ
    kept = bit_and (big_endian_qword bs) (2 ^ 64 - 1 - (2 ^ 64 - 1) / 2 ^ end)

    -- What is left of the QWORD are the digits of the bits before `end`.
    kept_digit :
        (c : ℕ)
        → c < 64
        → bit kept c ≡ (if leb (64 - end) c then bit (big_endian_qword bs) c else 0)
    kept_digit c cs = ground (
      arith,
      bit-bit_and c (big_endian_qword bs) (2 ^ 64 - 1 - (2 ^ 64 - 1) / 2 ^ end),
      mask_place end c es cs,
      bit-lt c (big_endian_qword bs),
    )

    kept-lt : kept < 2 ^ 64
    kept-lt = bit_and-lt 64 (big_endian_qword bs) _ qword-lt (omega arith)

    bit_clear : (j : ℕ) → j < end → bit kept (63 - j) ≡ 0 → get_bit bs j ≡ false
    bit_clear j js zero_digit =
        ground (arith, bit_of_qword j (omega arith), kept_digit (63 - j) (omega arith))

    none_before : kept ≡ 0 → (j : ℕ) → j < end → get_bit bs j ≡ false
    none_before e j js = bit_clear j js (rw e (zero_digits (63 - j)))
      where
        zero_digits : (c : ℕ) → bit 0 c ≡ 0
        zero_digits zero = refl
        zero_digits (suc c) = zero_digits c

    found :
        (c : ℕ)
        → c < 64
        → IsLowest kept c
        → (63 - c < end)
          × (get_bit bs (63 - c) ≡ true)
          × ((j : ℕ) → 63 - c < j → j < end → get_bit bs j ≡ false)
    found c cs low = (
      ground (arith, low.set, kept_digit c cs),
      rw (bit_of_qword (63 - c) (omega arith), back) (ground (arith, low.set, kept_digit c cs)),
      λ j after js. bit_clear j js (low.clear_below (63 - j) (omega arith)),
    )
      where
        back : 63 - (63 - c) ≡ c
        back = omega arith

-- What `last_bit_before` promises of its result.
abbrev pub LastBit : List ℕ → ℕ → Option ℕ → Type 0
LastBit bs end none = (j : ℕ) → j < end → get_bit bs j ≡ false
LastBit bs end (some b) =
    (b < end) × (get_bit bs b ≡ true) × ((j : ℕ) → b < j → j < end → get_bit bs j ≡ false)

-- Before an end below 64, `last_bit_before` finds the last bit that is set, and finds none only if
-- no bit before the end is set.
pub last_bit_before-LastBit :
    (bs : List ℕ) (end : ℕ)
    → ((k : ℕ) → byte_at bs k < 256)
    → end < 64
    → LastBit bs end (last_bit_before bs end)
unfolding last_bit_before
last_bit_before-LastBit bs end bytes es = elim (Bool-cases (kept bs bytes end es == 0)) [
  | inl blank ↦ rw blank (none_before bs bytes end es ((==_iff (kept bs bytes end es) 0).0 blank))
  | inr marked ↦
      let lowest =
        count_trailing_zeros_lem 64 (kept bs bytes end es) (λ e. ground (arith, marked))
          (kept-lt bs bytes end es) in
      rw marked
        (found bs bytes end es (count_trailing_zeros 64 (kept bs bytes end es)) lowest.0 lowest.1)
]

copied :
    (fuel : ℕ) (src : List ℕ) (offset n pos k : ℕ)
    → n < pos + 8 * fuel
    → (length (copy_bits_from fuel src offset n pos) ≡ (n + 8 - pos) / 8)
      × (pos + 8 * k ≤ n
          → byte_at (copy_bits_from fuel src offset n pos) k
            ≡ extract_bits src (offset + (pos + 8 * k)) 8)
unfolding copy_bits_from
copied zero src offset n pos k h = (omega arith, λ p. absurd (omega arith))
copied (suc fuel) src offset n pos zero h =
    (ground (arith, copied fuel src offset n (pos + 8) 0), λ p. ground arith)
copied (suc fuel) src offset n pos (suc k) h = (
  ground (arith, copied fuel src offset n (pos + 8) k),
  λ p. ground (arith, copied fuel src offset n (pos + 8) k),
)

-- `copy_bits` writes `num_bits / 8 + 1` whole bytes, each of which holds the next eight bits of the
-- source. So the branch behind its loop never runs, the bits after the last one wanted are those of
-- the source and not 0, and for a multiple of 8 it writes one byte too many.
pub copy_bits_whole_bytes :
    (src : List ℕ) (offset n : ℕ)
    → (length (copy_bits src offset n) ≡ n / 8 + 1)
      × ((k : ℕ)
          → 8 * k ≤ n
          → byte_at (copy_bits src offset n) k ≡ extract_bits src (offset + 8 * k) 8)
unfolding copy_bits
copy_bits_whole_bytes src offset n = (
  omega (arith, (copied (n + 1) src offset n 0 0 (omega arith)).0),
  λ k h.
      (copied (n + 1) src offset n 0 k (omega arith)).1 (omega arith)
      ∙ ap (λ (p : ℕ). extract_bits src (offset + p) 8) (zero_add (8 * k)),
)
  where
    zero_add : (m : ℕ) → 0 + m ≡ m
    zero_add m = omega arith
