-- ===== src/Symbols/Key.antt =====
-- `key_to_symbols` against `get_string_symbol`.
use cuckoo_trie_vectorized.Base.{
  ℕ, zero, suc, ◌+◌, ◌-◌, ◌*◌, ◌/◌, ◌%◌, ◌^◌, ◌≤◌, ◌<◌, ◌≡◌, ap, ◌∙◌, sym, arith, dec_lt, lt→ltb,
  get_or-append_left, ltb, if◌then◌else◌, List, ◌++◌, get_or,
}
use cuckoo_trie_vectorized.Bits.{bit_and-low_mask}
use cuckoo_trie_vectorized.Symbols.Defs.{
  Memory, get_string_symbol, key_to_symbols, key_to_symbols_from,
}
use cuckoo_trie_vectorized.Symbols.Round.{
  symbols_of_bits, chunk, symbols_of_chunk_lem, byte_or_zero-lt,
}

abbrev pub key_bytes : Memory → ℕ → Memory
key_bytes memory key i = memory (key + i)

module _ (memory : Memory) (are_bytes : (a : ℕ) → memory a < 256) where
  symbol_in_chunk :
      (from size idx : ℕ)
      → idx < 8
      → idx * 5 < size * 8
      → (some_left : 0 < size)
      → get_or (symbols_of_bits (chunk memory are_bytes from size some_left)) idx 0
        ≡ get_string_symbol size (key_bytes memory from) idx
  unfolding get_string_symbol
  symbol_in_chunk from size (zero) in_chunk in_key some_left = ground (
    arith,
    byte_or_zero-lt memory are_bytes from size some_left 0,
    byte_or_zero-lt memory are_bytes from size some_left 1,
    byte_or_zero-lt memory are_bytes from size some_left 2,
    byte_or_zero-lt memory are_bytes from size some_left 3,
    byte_or_zero-lt memory are_bytes from size some_left 4,
    bit_and-low_mask 5
        ((memory (from + 0) * 256 + (if ltb (0 + 1) size then memory (from + 1) else 0)) / 2 ^ 11),
  )
  symbol_in_chunk from size (suc zero) in_chunk in_key some_left = ground (
    arith,
    byte_or_zero-lt memory are_bytes from size some_left 0,
    byte_or_zero-lt memory are_bytes from size some_left 1,
    byte_or_zero-lt memory are_bytes from size some_left 2,
    byte_or_zero-lt memory are_bytes from size some_left 3,
    byte_or_zero-lt memory are_bytes from size some_left 4,
    bit_and-low_mask 5
        ((memory (from + 0) * 256 + (if ltb (0 + 1) size then memory (from + 1) else 0)) / 2 ^ 6),
  )
  symbol_in_chunk from size (suc (suc zero)) in_chunk in_key some_left = ground (
    arith,
    byte_or_zero-lt memory are_bytes from size some_left 1,
    byte_or_zero-lt memory are_bytes from size some_left 2,
    byte_or_zero-lt memory are_bytes from size some_left 3,
    byte_or_zero-lt memory are_bytes from size some_left 3,
    byte_or_zero-lt memory are_bytes from size some_left 4,
    bit_and-low_mask 5
        ((memory (from + 1) * 256 + (if ltb (1 + 1) size then memory (from + 2) else 0)) / 2 ^ 9),
  )
  symbol_in_chunk from size (suc (suc (suc zero))) in_chunk in_key some_left = ground (
    arith,
    byte_or_zero-lt memory are_bytes from size some_left 1,
    byte_or_zero-lt memory are_bytes from size some_left 2,
    byte_or_zero-lt memory are_bytes from size some_left 3,
    byte_or_zero-lt memory are_bytes from size some_left 3,
    byte_or_zero-lt memory are_bytes from size some_left 4,
    bit_and-low_mask 5
        ((memory (from + 1) * 256 + (if ltb (1 + 1) size then memory (from + 2) else 0)) / 2 ^ 4),
  )
  symbol_in_chunk from size (suc (suc (suc (suc zero)))) in_chunk in_key some_left = ground (
    arith,
    byte_or_zero-lt memory are_bytes from size some_left 2,
    byte_or_zero-lt memory are_bytes from size some_left 3,
    byte_or_zero-lt memory are_bytes from size some_left 4,
    byte_or_zero-lt memory are_bytes from size some_left 3,
    byte_or_zero-lt memory are_bytes from size some_left 4,
    bit_and-low_mask 5
        ((memory (from + 2) * 256 + (if ltb (2 + 1) size then memory (from + 3) else 0)) / 2 ^ 7),
  )
  symbol_in_chunk from size (suc (suc (suc (suc (suc zero))))) in_chunk in_key some_left = ground (
    arith,
    byte_or_zero-lt memory are_bytes from size some_left 3,
    byte_or_zero-lt memory are_bytes from size some_left 4,
    byte_or_zero-lt memory are_bytes from size some_left 4,
    byte_or_zero-lt memory are_bytes from size some_left 3,
    byte_or_zero-lt memory are_bytes from size some_left 4,
    bit_and-low_mask 5
        ((memory (from + 3) * 256 + (if ltb (3 + 1) size then memory (from + 4) else 0)) / 2 ^ 10),
  )
  symbol_in_chunk from size (suc (suc (suc (suc (suc (suc zero)))))) in_chunk in_key some_left =
      ground (
        arith,
        byte_or_zero-lt memory are_bytes from size some_left 3,
        byte_or_zero-lt memory are_bytes from size some_left 4,
        byte_or_zero-lt memory are_bytes from size some_left 4,
        byte_or_zero-lt memory are_bytes from size some_left 3,
        byte_or_zero-lt memory are_bytes from size some_left 4,
        bit_and-low_mask 5 (
            (memory (from + 3) * 256 + (if ltb (3 + 1) size then memory (from + 4) else 0))
            / 2 ^ 5),
      )
  symbol_in_chunk from size (suc (suc (suc (suc (suc (suc (suc zero))))))) in_chunk in_key
        some_left =
      ground (
        arith,
        are_bytes (from + 5),
        byte_or_zero-lt memory are_bytes from size some_left 4,
        byte_or_zero-lt memory are_bytes from size some_left 4,
        byte_or_zero-lt memory are_bytes from size some_left 4,
        byte_or_zero-lt memory are_bytes from size some_left 3,
        byte_or_zero-lt memory are_bytes from size some_left 4,
        bit_and-low_mask 5 (
            (memory (from + 4) * 256 + (if ltb (4 + 1) size then memory (from + 5) else 0))
            / 2 ^ 8),
      )
  symbol_in_chunk from size (suc (suc (suc (suc (suc (suc (suc (suc idx)))))))) in_chunk in_key
        some_left =
      absurd (omega arith)

  next_chunk :
      (from size idx : ℕ)
      → (idx + 8) * 5 < size * 8
      → get_string_symbol size (key_bytes memory from) (idx + 8)
        ≡ get_string_symbol (size - 5) (key_bytes memory (from + 5)) idx
  unfolding get_string_symbol
  next_chunk from size idx in_key = rw (byte, offset, first, second) (ground arith)
    where
      byte : (idx + 8) * 5 / 8 ≡ idx * 5 / 8 + 5
      byte = omega arith

      offset : (idx + 8) * 5 % 8 ≡ idx * 5 % 8
      offset = omega arith

      first : from + (idx * 5 / 8 + 5) ≡ from + 5 + idx * 5 / 8
      first = omega arith

      second : from + (idx * 5 / 8 + 5 + 1) ≡ from + 5 + (idx * 5 / 8 + 1)
      second = omega arith

  key_to_symbols_from_lem :
      (fuel from size idx : ℕ)
      → size ≤ fuel
      → idx * 5 < size * 8
      → get_or (key_to_symbols_from fuel memory from size) idx 0
        ≡ get_string_symbol size (key_bytes memory from) idx
  unfolding key_to_symbols_from
  key_to_symbols_from_lem zero from size idx enough in_key = absurd (omega arith)
  key_to_symbols_from_lem (suc fuel) from size idx enough in_key =
      rw (lt→ltb 0 size some_left, symbols_of_chunk_lem memory are_bytes from size some_left)
        (elim (dec_lt idx 8) [
          | yes here ↦
              get_or-append_left (symbols_of_bits bits) rest idx 0 here
              ∙ symbol_in_chunk from size idx here in_key some_left
          | no there ↦ later (idx - 8) (omega arith) (
              key_to_symbols_from_lem fuel (from + 5) (size - 5) (idx - 8) (omega arith)
                (omega arith))
        ])
    where
      some_left : 0 < size
      some_left = omega arith

      bits : ℕ
      bits = chunk memory are_bytes from size some_left

      rest : List ℕ
      rest = key_to_symbols_from fuel memory (from + 5) (size - 5)

      later :
          (j : ℕ)
          → j + 8 ≡ idx
          → get_or rest j 0 ≡ get_string_symbol (size - 5) (key_bytes memory (from + 5)) j
          → get_or (symbols_of_bits bits ++ rest) idx 0
            ≡ get_string_symbol size (key_bytes memory from) idx
      later j e by_rest =
          let eight_on : idx ≡ suc (suc (suc (suc (suc (suc (suc (suc j))))))) = omega arith in
          ap (λ (i : ℕ). get_or (symbols_of_bits bits ++ rest) i 0) eight_on
          ∙ by_rest
          ∙ sym (next_chunk from size j (omega arith))
          ∙ ap (λ (i : ℕ). get_string_symbol size (key_bytes memory from) i) e

  -- In a memory of bytes, at any address, each symbol that `key_to_symbols` writes and that holds a
  -- bit of the key is the one that `get_string_symbol` computes.
  pub key_to_symbols_lem :
      (key size idx : ℕ)
      → idx * 5 < size * 8
      → get_or (key_to_symbols memory key size) idx 0
        ≡ get_string_symbol size (key_bytes memory key) idx
  unfolding key_to_symbols
  key_to_symbols_lem key size idx in_key =
      key_to_symbols_from_lem size key size idx (omega arith) in_key
