-- ===== src/Symbols/Defs.antt =====
-- The symbols of a key and of a jump node, as main_vectorized.c computes them.
use cuckoo_trie_vectorized.Base.{
  ℕ, zero, suc, ◌+◌, ◌-◌, ◌*◌, ◌/◌, ◌%◌, ◌^◌, bit_and, List, [], ◌∷◌, ◌++◌, ◌==◌, ltb, leb,
  if◌then◌else◌, u8, u64, ◌<<<◌, ◌>>>◌,
}
use cuckoo_trie_vectorized.Config.{bits_per_symbol, symbol_end, symbol_mask, fanout}
use cuckoo_trie_vectorized.Entry.{Entry, Body, entry_jump_size, size_byte, with_size_byte}
use cuckoo_trie_vectorized.BitString.{put_bits, byte_at}

-- The byte at each address.
abbrev pub Memory : Type 0
Memory = ℕ → ℕ

-- `bytes` is the memory from the key's first byte on.
unfoldable pub get_string_symbol : ℕ → Memory → ℕ → ℕ
get_string_symbol size bytes symbol_idx =
    let symbol_pos = symbol_idx * bits_per_symbol in
    let first_byte_idx = symbol_pos / 8 in
    let offset = symbol_pos % 8 in
    if leb size first_byte_idx
    then symbol_end
    else (let second_byte =
          if ltb (first_byte_idx + 1) size then bytes (first_byte_idx + 1) else 0 in
        let word = bytes first_byte_idx * 256 + second_byte in
        bit_and (word >>> (16 - bits_per_symbol - offset)) symbol_mask + 1)

-- A QWORD read from memory, which is little-endian.
unfoldable pub load_qword : Memory → ℕ → ℕ
load_qword memory a =
    memory a
    + memory (a + 1) <<< 8
    + memory (a + 2) <<< 16
    + memory (a + 3) <<< 24
    + memory (a + 4) <<< 32
    + memory (a + 5) <<< 40
    + memory (a + 6) <<< 48
    + memory (a + 7) <<< 56

-- The bytes of a QWORD in the order of memory.
unfoldable pub qword_bytes : ℕ → List ℕ
qword_bytes q =
    u8 q
    ∷ u8 (q >>> 8)
    ∷ u8 (q >>> 16)
    ∷ u8 (q >>> 24)
    ∷ u8 (q >>> 32)
    ∷ u8 (q >>> 40)
    ∷ u8 (q >>> 48)
    ∷ u8 (q >>> 56)
    ∷ []

-- `__builtin_bswap64`
unfoldable pub bswap64 : ℕ → ℕ
bswap64 q =
    u8 (q >>> 56)
    + u8 (q >>> 48) <<< 8
    + u8 (q >>> 40) <<< 16
    + u8 (q >>> 32) <<< 24
    + u8 (q >>> 24) <<< 32
    + u8 (q >>> 16) <<< 40
    + u8 (q >>> 8) <<< 48
    + u8 q <<< 56

-- `__builtin_ia32_pdep_di`: the low digits of `x` go to the places that `mask` sets.
unfoldable pub pdep : ℕ → ℕ → ℕ → ℕ
pdep zero x mask = 0
pdep (suc width) x mask =
    let placed = x % 2 + 2 * pdep width (x / 2) (mask / 2) in
    let skipped = 2 * pdep width x (mask / 2) in if mask % 2 == 1 then placed else skipped

-- Up to eight bytes, the missing ones 0, without a read that leaves the page of `from`.
unfoldable pub read_qword_zfill : Memory → ℕ → ℕ → ℕ
unfolding load_qword
read_qword_zfill memory from size =
    if leb 8 size
    then load_qword memory from
    else (if ltb 8 (bit_and from 0xFFF)
        then load_qword memory (from + size - 8) >>> (64 - 8 * size)
        else load_qword memory from % 2 ^ (8 * size))

abbrev pub ones : ℕ
ones = 0x0101_0101_0101_0101

-- One round of the loop: the eight symbols of the five bytes at `key_ptr`.
unfoldable pub symbols_of_chunk : Memory → ℕ → ℕ → List ℕ
unfolding read_qword_zfill bswap64 pdep qword_bytes
symbols_of_chunk memory key_ptr bytes_left =
    let key_qword =
      bswap64 (read_qword_zfill memory key_ptr bytes_left) >>> (64 - 8 * bits_per_symbol) in
    qword_bytes (bswap64 (u64 (pdep 64 key_qword (ones * (fanout - 1)) + ones)))

-- The symbols that the loop writes from `next_sym_ptr` on, while `bytes_left > 0`.
unfoldable pub key_to_symbols_from : ℕ → Memory → ℕ → ℕ → List ℕ
key_to_symbols_from zero memory key_ptr bytes_left = []
key_to_symbols_from (suc fuel) memory key_ptr bytes_left =
    let rest =
      key_to_symbols_from fuel memory (key_ptr + bits_per_symbol) (bytes_left - bits_per_symbol) in
    if ltb 0 bytes_left then symbols_of_chunk memory key_ptr bytes_left ++ rest else []

-- A round takes five bytes, so as many rounds as bytes are enough.
unfoldable pub key_to_symbols : Memory → ℕ → ℕ → List ℕ
unfolding key_to_symbols_from
key_to_symbols memory key size = key_to_symbols_from size memory key size

-- `jump_bits[0]` and the seven bytes after it.
unfoldable pub jump_qword : Entry → ℕ
jump_qword e =
    e.body.byte0
    + e.body.byte1 <<< 8
    + e.body.byte2 <<< 16
    + e.body.byte3 <<< 24
    + e.body.byte4 <<< 32
    + e.body.byte5 <<< 40
    + u8 e.link.primary_bucket <<< 48
    + u8 (e.link.primary_bucket >>> 8) <<< 56

unfoldable pub get_jump_symbol : Entry → ℕ → ℕ
unfolding jump_qword bswap64
get_jump_symbol entry symbol_idx =
    let jump_bits = bswap64 (jump_qword entry) in
    bit_and (jump_bits >>> (64 - bits_per_symbol - bits_per_symbol * symbol_idx)) symbol_mask + 1

-- The array `jump_bits` of a jump node.
abbrev pub jump_bits : Entry → List ℕ
jump_bits e = e.body.byte0 ∷ e.body.byte1 ∷ e.body.byte2 ∷ e.body.byte3 ∷ e.body.byte4 ∷ []

unfoldable pub with_jump_bits : Entry → List ℕ → Entry
with_jump_bits e bits =
    let body : Body = record {
      byte0 = byte_at bits 0;
      byte1 = byte_at bits 1;
      byte2 = byte_at bits 2;
      byte3 = byte_at bits 3;
      byte4 = byte_at bits 4;
      byte5 = e.body.byte5;
    } in
    record e { body = body }

unfoldable pub extend_jump_node : Entry → ℕ → Entry
unfolding with_jump_bits put_bits entry_jump_size
extend_jump_node jump_node symbol =
    let offset = entry_jump_size jump_node * bits_per_symbol in
    let bits = put_bits (jump_bits jump_node) offset bits_per_symbol (symbol - 1) in
    let extended = with_jump_bits jump_node bits in
    with_size_byte extended (u8 (size_byte jump_node + 1))
