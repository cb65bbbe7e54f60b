-- ===== src/Symbols/Round.antt =====
-- One round of `key_to_symbols`: the eight symbols of up to five bytes.
use cuckoo_trie_vectorized.Base.{
  ℕ, zero, suc, refl, ◌+◌, ◌-◌, ◌*◌, ◌/◌, ◌%◌, ◌^◌, ◌≤◌, ◌<◌, bit_and, ◌≡◌, ap, ◌∙◌, arith, dec_lt,
  ◌<<<◌, u64, List, [], ◌∷◌,
}
use cuckoo_trie_vectorized.Bits.{bit_and-low_mask}
use cuckoo_trie_vectorized.Symbols.Defs.{
  Memory, load_qword, read_qword_zfill, pdep, bswap64, qword_bytes, ones, symbols_of_chunk,
}
use cuckoo_trie_vectorized.Symbols.Chunk.{
  byte_or_zero, zfilled, load_qword-mod, load_qword-shifted, pdep_symbol,
}

-- `n` digits of five bits, one to each byte, and the mask and the width that place them.
abbrev deposited : ℕ → ℕ → ℕ
deposited zero k = 0
deposited (suc n) k = k % 32 + 256 * deposited n (k / 32)

abbrev symbol_masks : ℕ → ℕ
symbol_masks zero = 0
symbol_masks (suc n) = symbol_masks n * 256 + 31

abbrev byte_width : ℕ → ℕ
byte_width zero = 0
byte_width (suc n) = suc (suc (suc (suc (suc (suc (suc (suc (byte_width n))))))))

pdep_lem : (n k : ℕ) → pdep (byte_width n) k (symbol_masks n) ≡ deposited n k
unfolding pdep
pdep_lem zero k = refl
pdep_lem (suc n) k =
    pdep_symbol (byte_width n) k (symbol_masks n)
    ∙ ap (λ (r : ℕ). k % 32 + 256 * r) (pdep_lem n (k / 32))

-- The bytes of a swapped word, the highest first.
module _ (d0 d1 d2 d3 d4 d5 d6 d7 : ℕ) (f0 : d0 < 256) (f1 : d1 < 256) (f2 : d2 < 256)
    (f3 : d3 < 256) (f4 : d4 < 256) (f5 : d5 < 256) (f6 : d6 < 256) (f7 : d7 < 256) where
  abbrev word : ℕ
  word = d0 + d1 <<< 8 + d2 <<< 16 + d3 <<< 24 + d4 <<< 32 + d5 <<< 40 + d6 <<< 48 + d7 <<< 56

  bswap64_lem :
      bswap64 word
      ≡ d7 + d6 <<< 8 + d5 <<< 16 + d4 <<< 24 + d3 <<< 32 + d2 <<< 40 + d1 <<< 48 + d0 <<< 56
  unfolding bswap64
  bswap64_lem = omega arith

  qword_bytes_lem : qword_bytes word ≡ d0 ∷ d1 ∷ d2 ∷ d3 ∷ d4 ∷ d5 ∷ d6 ∷ d7 ∷ []
  unfolding qword_bytes
  qword_bytes_lem = ground arith

-- The symbols of forty bits, the highest first.
abbrev pub symbols_of_bits : ℕ → List ℕ
symbols_of_bits k =
    (k / 32 / 32 / 32 / 32 / 32 / 32 / 32 % 32 + 1)
    ∷ (k / 32 / 32 / 32 / 32 / 32 / 32 % 32 + 1)
    ∷ (k / 32 / 32 / 32 / 32 / 32 % 32 + 1)
    ∷ (k / 32 / 32 / 32 / 32 % 32 + 1)
    ∷ (k / 32 / 32 / 32 % 32 + 1)
    ∷ (k / 32 / 32 % 32 + 1)
    ∷ (k / 32 % 32 + 1)
    ∷ (k % 32 + 1)
    ∷ []

word-deposited :
    (k : ℕ)
    → u64 (deposited 8 k + ones)
      ≡ word
          (k % 32 + 1)
          (k / 32 % 32 + 1)
          (k / 32 / 32 % 32 + 1)
          (k / 32 / 32 / 32 % 32 + 1)
          (k / 32 / 32 / 32 / 32 % 32 + 1)
          (k / 32 / 32 / 32 / 32 / 32 % 32 + 1)
          (k / 32 / 32 / 32 / 32 / 32 / 32 % 32 + 1)
          (k / 32 / 32 / 32 / 32 / 32 / 32 / 32 % 32 + 1)
          (omega arith)
          (omega arith)
          (omega arith)
          (omega arith)
          (omega arith)
          (omega arith)
          (omega arith)
          (omega arith)
word-deposited k = omega arith

deposited_symbols :
    (k : ℕ) → qword_bytes (bswap64 (u64 (pdep 64 k (ones * 31) + ones))) ≡ symbols_of_bits k
deposited_symbols k =
    rw
      (
        pdep_lem 8 k,
        word-deposited k,
        bswap64_lem (k % 32 + 1) (k / 32 % 32 + 1) (k / 32 / 32 % 32 + 1)
            (k / 32 / 32 / 32 % 32 + 1) (k / 32 / 32 / 32 / 32 % 32 + 1)
            (k / 32 / 32 / 32 / 32 / 32 % 32 + 1) (k / 32 / 32 / 32 / 32 / 32 / 32 % 32 + 1)
            (k / 32 / 32 / 32 / 32 / 32 / 32 / 32 % 32 + 1) (omega arith) (omega arith)
            (omega arith) (omega arith) (omega arith) (omega arith) (omega arith) (omega arith),
      )
      (qword_bytes_lem (k / 32 / 32 / 32 / 32 / 32 / 32 / 32 % 32 + 1)
        (k / 32 / 32 / 32 / 32 / 32 / 32 % 32 + 1) (k / 32 / 32 / 32 / 32 / 32 % 32 + 1)
        (k / 32 / 32 / 32 / 32 % 32 + 1) (k / 32 / 32 / 32 % 32 + 1) (k / 32 / 32 % 32 + 1)
        (k / 32 % 32 + 1) (k % 32 + 1) (omega arith) (omega arith) (omega arith) (omega arith)
        (omega arith) (omega arith) (omega arith) (omega arith))

module _ (memory : Memory) (are_bytes : (a : ℕ) → memory a < 256) (from size : ℕ)
    (some_left : 0 < size) where
  read_whole : 8 ≤ size → load_qword memory from ≡ zfilled memory are_bytes from size
  unfolding load_qword
  read_whole full = ground arith

  -- A read that ends where the key ends.
  read_before :
      (f : ℕ)
      → f + 8 ≡ from
      → size < 8
      → load_qword memory (from + size - 8) / 2 ^ (64 - 8 * size)
        ≡ zfilled memory are_bytes from size
  read_before f e part =
      ap (λ (a : ℕ). load_qword memory a / 2 ^ (64 - 8 * size)) (omega arith)
      ∙ load_qword-shifted memory are_bytes f size some_left part
      ∙ ap (λ (a : ℕ). zfilled memory are_bytes a size) e

  far_in_page : 8 < bit_and from 0xFFF → from - 8 + 8 ≡ from
  far_in_page far = omega (arith, bit_and-low_mask 12 from)

  -- Every branch reads the same bytes.
  pub read_qword_zfill_lem : read_qword_zfill memory from size ≡ zfilled memory are_bytes from size
  unfolding read_qword_zfill
  read_qword_zfill_lem = elim (dec_lt size 8) [
    | no full ↦ ground (arith, read_whole)
    | yes part ↦ elim (dec_lt 8 (bit_and from 0xFFF)) [
      | yes far ↦ ground (arith, read_before (from - 8) (far_in_page far) part)
      | no near ↦ ground (arith, load_qword-mod memory are_bytes from size some_left part)
    ]
  ]

module _ (memory : Memory) (are_bytes : (a : ℕ) → memory a < 256) (from size : ℕ)
    (some_left : 0 < size) where
  abbrev pub chunk : ℕ
  chunk =
      let byte = byte_or_zero memory from size in
      byte 0 <<< 32 + byte 1 <<< 24 + byte 2 <<< 16 + byte 3 <<< 8 + byte 4

  pub byte_or_zero-lt : (i : ℕ) → byte_or_zero memory from size i < 256
  byte_or_zero-lt i = ground (arith, are_bytes (from + i))

  chunk_lem : bswap64 (read_qword_zfill memory from size) / 2 ^ 24 ≡ chunk
  chunk_lem =
      rw
        (
          read_qword_zfill_lem memory are_bytes from size some_left,
          bswap64_lem (byte_or_zero memory from size 0) (byte_or_zero memory from size 1)
              (byte_or_zero memory from size 2) (byte_or_zero memory from size 3)
              (byte_or_zero memory from size 4) (byte_or_zero memory from size 5)
              (byte_or_zero memory from size 6) (byte_or_zero memory from size 7)
              (byte_or_zero-lt 0) (byte_or_zero-lt 1) (byte_or_zero-lt 2) (byte_or_zero-lt 3)
              (byte_or_zero-lt 4) (byte_or_zero-lt 5) (byte_or_zero-lt 6) (byte_or_zero-lt 7),
        )
        (omega (arith, byte_or_zero-lt 5, byte_or_zero-lt 6, byte_or_zero-lt 7))

  pub symbols_of_chunk_lem : symbols_of_chunk memory from size ≡ symbols_of_bits chunk
  unfolding symbols_of_chunk
  symbols_of_chunk_lem = rw chunk_lem (deposited_symbols chunk)
