-- ===== src/Prefetch/Injective.antt =====
-- A key is determined by its symbols up to the END symbol.
use cuckoo_trie_vectorized.Base.{
  ℕ, zero, suc, ◌+◌, ◌-◌, ◌*◌, ◌/◌, ◌%◌, ◌^◌, ◌<◌, ◌≤◌, ◌≡◌, refl, ap, ◌∙◌, sym, arith, dec_lt, leb,
  ltb, false, if◌then◌else◌,
}
use cuckoo_trie_vectorized.Bits.{bit_and-low_mask}
use cuckoo_trie_vectorized.Symbols.{Memory, get_string_symbol}
use cuckoo_trie_vectorized.Prefetch.Defs.{symbol_count}

lt→not_leb : (a b : ℕ) → a < b → leb b a ≡ false
lt→not_leb a b h = ground arith

abbrev byte_or_zero : ℕ → Memory → ℕ → ℕ
byte_or_zero size bytes j = if ltb j size then bytes j else 0

pub get_string_symbol-le : (size : ℕ) (bytes : Memory) (i : ℕ) → get_string_symbol size bytes i ≤ 32
unfolding get_string_symbol
get_string_symbol-le size bytes i = ground (
  arith,
  bit_and-low_mask 5 (
      (bytes (i * 5 / 8) * 256 + byte_or_zero size bytes (i * 5 / 8 + 1))
      / 2 ^ (16 - 5 - i * 5 % 8)),
)

pub end-symbol :
    (size : ℕ) (bytes : Memory) → get_string_symbol size bytes (symbol_count size - 1) ≡ 0
unfolding get_string_symbol symbol_count
end-symbol size bytes = ground arith

pub count-pos : (size : ℕ) → 0 < symbol_count size
unfolding symbol_count
count-pos size = omega arith

-- Before the END symbol a symbol is not 0.
pub symbol-pos :
    (size : ℕ) (bytes : Memory) (i : ℕ)
    → suc i < symbol_count size
    → 0 < get_string_symbol size bytes i
unfolding get_string_symbol symbol_count
symbol-pos size bytes i below = ground arith

-- The byte `q * 5 + r` of a key, from the symbols that hold its bits.
abbrev byte_of : (ℕ → ℕ) → ℕ → ℕ → ℕ
byte_of s q zero = (s (q * 8) - 1) * 8 + (s (q * 8 + 1) - 1) / 4
byte_of s q (suc zero) =
    (s (q * 8 + 1) - 1) % 4 * 64 + (s (q * 8 + 2) - 1) * 2 + (s (q * 8 + 3) - 1) / 16
byte_of s q (suc (suc zero)) = (s (q * 8 + 3) - 1) % 16 * 16 + (s (q * 8 + 4) - 1) / 2
byte_of s q (suc (suc (suc zero))) =
    (s (q * 8 + 4) - 1) % 2 * 128 + (s (q * 8 + 5) - 1) * 4 + (s (q * 8 + 6) - 1) / 8
byte_of s q (suc (suc (suc (suc r)))) = (s (q * 8 + 6) - 1) % 8 * 32 + (s (q * 8 + 7) - 1)

byte_of-agree :
    (size : ℕ) (s t : ℕ → ℕ) (q r : ℕ)
    → r < 5
    → q * 5 + r < size
    → ((i : ℕ) → i < symbol_count size → s i ≡ t i)
    → byte_of s q r ≡ byte_of t q r
unfolding symbol_count
byte_of-agree size s t q zero fits in_key same =
    rw (same (q * 8) (omega (arith, in_key)), same (q * 8 + 1) (omega (arith, in_key))) refl
byte_of-agree size s t q (suc zero) fits in_key same =
    rw
      (
        same (q * 8 + 1) (omega (arith, in_key)),
        same (q * 8 + 2) (omega (arith, in_key)),
        same (q * 8 + 3) (omega (arith, in_key)),
      )
      refl
byte_of-agree size s t q (suc (suc zero)) fits in_key same =
    rw (same (q * 8 + 3) (omega (arith, in_key)), same (q * 8 + 4) (omega (arith, in_key))) refl
byte_of-agree size s t q (suc (suc (suc zero))) fits in_key same =
    rw
      (
        same (q * 8 + 4) (omega (arith, in_key)),
        same (q * 8 + 5) (omega (arith, in_key)),
        same (q * 8 + 6) (omega (arith, in_key)),
      )
      refl
byte_of-agree size s t q (suc (suc (suc (suc zero)))) fits in_key same =
    rw (same (q * 8 + 6) (omega (arith, in_key)), same (q * 8 + 7) (omega (arith, in_key))) refl
byte_of-agree size s t q (suc (suc (suc (suc (suc r))))) fits in_key same =
    absurd (omega (arith, fits))

module _ (size : ℕ) (bytes : Memory) (are_bytes : (i : ℕ) → bytes i < 256) where
  second-lt : (j : ℕ) → byte_or_zero size bytes j < 256
  second-lt j = ground (arith, are_bytes j)

  -- A symbol, by the byte of its first bit and the bits that are left behind it.
  symbol_at :
      (i first shift : ℕ)
      → i * 5 / 8 ≡ first
      → 16 - 5 - i * 5 % 8 ≡ shift
      → first < size
      → get_string_symbol size bytes i
        ≡ (bytes first * 256 + byte_or_zero size bytes (first + 1)) / 2 ^ shift % 32 + 1
  unfolding get_string_symbol
  symbol_at i first shift at behind in_key =
      rw (at, behind, lt→not_leb first size in_key, bit_and-low_mask 5) refl

  -- The byte behind a byte that is not the last one.
  before : (j next : ℕ) → next ≡ j + 1 → next < size → byte_or_zero size bytes (j + 1) ≡ bytes next
  before j next e more = rw (← e) (ground (arith, more))

  byte_of-symbols :
      (q r : ℕ)
      → r < 5
      → q * 5 + r < size
      → bytes (q * 5 + r) ≡ byte_of (get_string_symbol size bytes) q r
  byte_of-symbols q zero fits in_key = omega (
    arith,
    are_bytes (q * 5 + 0),
    second-lt (q * 5 + 0 + 1),
    symbol_at (q * 8) (q * 5 + 0) 11 (omega arith) (omega arith) in_key,
    symbol_at (q * 8 + 1) (q * 5 + 0) 6 (omega arith) (omega arith) in_key,
  )
  byte_of-symbols q (suc zero) fits in_key = omega (
    arith,
    are_bytes (q * 5 + 0),
    are_bytes (q * 5 + 1),
    second-lt (q * 5 + 1 + 1),
    before (q * 5 + 0) (q * 5 + 1) (omega arith) in_key,
    symbol_at (q * 8 + 1) (q * 5 + 0) 6 (omega arith) (omega arith) (omega (arith, in_key)),
    symbol_at (q * 8 + 2) (q * 5 + 1) 9 (omega arith) (omega arith) in_key,
    symbol_at (q * 8 + 3) (q * 5 + 1) 4 (omega arith) (omega arith) in_key,
  )
  byte_of-symbols q (suc (suc zero)) fits in_key = omega (
    arith,
    are_bytes (q * 5 + 1),
    are_bytes (q * 5 + 2),
    second-lt (q * 5 + 2 + 1),
    before (q * 5 + 1) (q * 5 + 2) (omega arith) in_key,
    symbol_at (q * 8 + 3) (q * 5 + 1) 4 (omega arith) (omega arith) (omega (arith, in_key)),
    symbol_at (q * 8 + 4) (q * 5 + 2) 7 (omega arith) (omega arith) in_key,
  )
  byte_of-symbols q (suc (suc (suc zero))) fits in_key = omega (
    arith,
    are_bytes (q * 5 + 2),
    are_bytes (q * 5 + 3),
    second-lt (q * 5 + 3 + 1),
    before (q * 5 + 2) (q * 5 + 3) (omega arith) in_key,
    symbol_at (q * 8 + 4) (q * 5 + 2) 7 (omega arith) (omega arith) (omega (arith, in_key)),
    symbol_at (q * 8 + 5) (q * 5 + 3) 10 (omega arith) (omega arith) in_key,
    symbol_at (q * 8 + 6) (q * 5 + 3) 5 (omega arith) (omega arith) in_key,
  )
  byte_of-symbols q (suc (suc (suc (suc zero)))) fits in_key = omega (
    arith,
    are_bytes (q * 5 + 3),
    are_bytes (q * 5 + 4),
    second-lt (q * 5 + 4 + 1),
    before (q * 5 + 3) (q * 5 + 4) (omega arith) in_key,
    symbol_at (q * 8 + 6) (q * 5 + 3) 5 (omega arith) (omega arith) (omega (arith, in_key)),
    symbol_at (q * 8 + 7) (q * 5 + 4) 8 (omega arith) (omega arith) in_key,
  )
  byte_of-symbols q (suc (suc (suc (suc (suc r))))) fits in_key = absurd (omega (arith, fits))

module _ (size1 size2 : ℕ) (bytes1 bytes2 : Memory)
    (same : (i : ℕ)
      → i < symbol_count size2
      → get_string_symbol size1 bytes1 i ≡ get_string_symbol size2 bytes2 i) where
  -- The END symbols stand at the same place.
  same_count : symbol_count size1 ≡ symbol_count size2
  same_count = elim (dec_lt (symbol_count size1) (symbol_count size2)) [
    | yes shorter ↦ absurd (
        omega (
          arith,
          count-pos size1,
          end-symbol size1 bytes1,
          same (symbol_count size1 - 1) (omega (arith, shorter)),
          symbol-pos size2 bytes2 (symbol_count size1 - 1)
              (omega (arith, shorter, count-pos size1)),
        ))
    | no not_shorter ↦ elim (dec_lt (symbol_count size2) (symbol_count size1)) [
      | yes longer ↦ absurd (
          omega (
            arith,
            count-pos size2,
            end-symbol size2 bytes2,
            same (symbol_count size2 - 1) (omega (arith, count-pos size2)),
            symbol-pos size1 bytes1 (symbol_count size2 - 1)
                (omega (arith, longer, count-pos size2)),
          ))
      | no not_longer ↦ omega (arith, not_shorter, not_longer)
    ]
  ]

  pub same_size : size1 ≡ size2
  unfolding symbol_count
  same_size = omega (arith, same_count)

  module _ (are_bytes1 : (i : ℕ) → bytes1 i < 256) (are_bytes2 : (i : ℕ) → bytes2 i < 256) where
    same_byte : (q r : ℕ) → r < 5 → q * 5 + r < size2 → bytes1 (q * 5 + r) ≡ bytes2 (q * 5 + r)
    same_byte q r fits in_key =
        byte_of-symbols size1 bytes1 are_bytes1 q r fits (omega (arith, in_key, same_size))
        ∙ byte_of-agree size2 (get_string_symbol size1 bytes1) (get_string_symbol size2 bytes2) q r
            fits in_key same
        ∙ sym (byte_of-symbols size2 bytes2 are_bytes2 q r fits in_key)

    pub same_bytes : (j : ℕ) → j < size2 → bytes1 j ≡ bytes2 j
    same_bytes j in_key =
        let place : j ≡ j / 5 * 5 + j % 5 = omega arith in
        ap bytes1 place
        ∙ same_byte (j / 5) (j % 5) (omega arith) (omega (arith, in_key))
        ∙ ap bytes2 (sym place)
