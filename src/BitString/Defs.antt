-- ===== src/BitString/Defs.antt =====
-- The functions of util.c on bit strings, over the bytes as a list.
use cuckoo_trie_vectorized.Base.{
  ℕ, zero, suc, ◌+◌, ◌-◌, ◌*◌, ◌/◌, ◌%◌, ◌^◌, bit_and, bit_or, Bool, not, List, [], ◌∷◌, ◌==◌, ltb,
  leb, if◌then◌else◌, Option, none, some, get_or, set, u8, u32, ◌<<<◌, ◌>>>◌,
}

abbrev pub byte_at : List ℕ → ℕ → ℕ
byte_at bs i = get_or bs i 0

-- Four bytes of memory, read as a DWORD and swapped: the first byte is the highest.
unfoldable pub big_endian_dword : List ℕ → ℕ → ℕ
big_endian_dword bs i =
    byte_at bs i <<< 24 + byte_at bs (i + 1) <<< 16 + byte_at bs (i + 2) <<< 8 + byte_at bs (i + 3)

unfoldable pub store_big_endian_dword : List ℕ → ℕ → ℕ → List ℕ
store_big_endian_dword bs i w =
    set (set (set (set bs i (u8 (w >>> 24))) (i + 1) (u8 (w >>> 16))) (i + 2) (u8 (w >>> 8)))
      (i + 3) (u8 w)

-- The DWORD that ends at the byte of the last bit, or the first DWORD.
abbrev pub dword_start_byte : ℕ → ℕ → ℕ
dword_start_byte start_bit num_bits = (start_bit + num_bits - 1) / 8 - 3

abbrev pub dword_offset : ℕ → ℕ → ℕ
dword_offset start_bit num_bits =
    32 + dword_start_byte start_bit num_bits * 8 - start_bit - num_bits

unfoldable pub extract_bits : List ℕ → ℕ → ℕ → ℕ
unfolding big_endian_dword
extract_bits bitstring start_bit num_bits =
    let containing_dword = big_endian_dword bitstring (dword_start_byte start_bit num_bits) in
    containing_dword >>> dword_offset start_bit num_bits % 2 ^ num_bits

unfoldable pub put_bits : List ℕ → ℕ → ℕ → ℕ → List ℕ
unfolding big_endian_dword store_big_endian_dword
put_bits bitstring start_bit num_bits bits =
    let start = dword_start_byte start_bit num_bits in
    let offset = dword_offset start_bit num_bits in
    let mask = u32 ((2 ^ num_bits - 1) <<< offset) in
    let cleared = bit_and (big_endian_dword bitstring start) (2 ^ 32 - 1 - mask) in
    store_big_endian_dword bitstring start (bit_or cleared (u32 (bits <<< offset)))

-- `copy_bits`, as the bytes that it writes from `dest` on. The loop runs while `pos <= num_bits`;
-- each round writes eight bits of the source, so the bytes after the last one wanted, which the
-- branch behind the loop means to treat, are already written when the loop ends.
unfoldable pub copy_bits_from : ℕ → List ℕ → ℕ → ℕ → ℕ → List ℕ
copy_bits_from zero src src_offset num_bits pos = []
copy_bits_from (suc fuel) src src_offset num_bits pos =
    let rest = copy_bits_from fuel src src_offset num_bits (pos + 8) in
    if leb pos num_bits
    then extract_bits src (src_offset + pos) 8 ∷ rest
    else (if ltb pos num_bits
        then u8 (extract_bits src (src_offset + pos) (num_bits - pos) <<< (8 - (num_bits - pos)))
          ∷ []
        else [])

unfoldable pub copy_bits : List ℕ → ℕ → ℕ → List ℕ
copy_bits src src_offset num_bits = copy_bits_from (num_bits + 1) src src_offset num_bits 0

unfoldable pub get_bit : List ℕ → ℕ → Bool
get_bit bitstring bit = not (bit_and (u8 (byte_at bitstring (bit / 8) <<< (bit % 8))) 0x80 == 0)

unfoldable pub set_bit : List ℕ → ℕ → ℕ → List ℕ
set_bit bitstring bit value =
    let mask = 0x80 >>> (bit % 8) in
    let cleared = bit_and (byte_at bitstring (bit / 8)) (2 ^ 8 - 1 - mask) in
    set bitstring (bit / 8) (u8 (bit_or cleared (mask * value)))

-- `__builtin_ctzll`: the lowest digit that is set, of a word that is not 0.
unfoldable pub count_trailing_zeros : ℕ → ℕ → ℕ
count_trailing_zeros zero w = 0
count_trailing_zeros (suc width) w =
    let rest = suc (count_trailing_zeros width (w / 2)) in if w % 2 == 1 then 0 else rest

unfoldable pub big_endian_qword : List ℕ → ℕ
unfolding big_endian_dword
big_endian_qword bs = big_endian_dword bs 0 <<< 32 + big_endian_dword bs 4

-- `none` is the -1 of the source.
unfoldable pub last_bit_before : List ℕ → ℕ → Option ℕ
last_bit_before bitstring end =
    let mask = (2 ^ 64 - 1) >>> end in
    let value = bit_and (big_endian_qword bitstring) (2 ^ 64 - 1 - mask) in
    if value == 0 then none else some (63 - count_trailing_zeros 64 value)
