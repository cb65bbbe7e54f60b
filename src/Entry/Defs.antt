-- ===== src/Entry/Defs.antt =====
-- The data of cuckoo_trie_internal.h and its accessors.
use cuckoo_trie_vectorized.Base.{
  ℕ, ◌+◌, ◌-◌, ◌*◌, ◌/◌, ◌%◌, ◌^◌, bit_and, bit_or, Bool, ◌==◌, if◌then◌else◌, u8, u32, u64, ◌<<<◌,
  ◌>>>◌,
}
use cuckoo_trie_vectorized.Config.{
  tag_bits, type_mask, flag_secondary_bucket, flag_dirty, parent_color_shift, child_color_shift,
}

-- `ct_entry_locator`
pub record Locator : Type 0 where
  pub primary_bucket : ℕ
  pub tag : ℕ
  pub color : ℕ

-- The union between the header and the locator: `child_bitmap` and `max_child` of a bitmap node,
-- `jump_bits` and `child_color_and_jump_size` of a jump node, or the 48 bits of a leaf's pointer.
pub record Body : Type 0 where
  pub byte0 : ℕ
  pub byte1 : ℕ
  pub byte2 : ℕ
  pub byte3 : ℕ
  pub byte4 : ℕ
  pub byte5 : ℕ

-- `ct_entry`; `link` is `max_leaf` of a bitmap or jump node and `next_leaf` of a leaf.
pub record Entry : Type 0 where
  pub parent_color_and_flags : ℕ
  pub color_and_tag : ℕ
  pub last_symbol : ℕ
  pub body : Body
  pub link : Locator

-- The entry as one little-endian number of 120 bits.
unfoldable pub entry_bits : Entry → ℕ
entry_bits e =
    e.parent_color_and_flags
    + e.color_and_tag <<< 8
    + e.last_symbol <<< 16
    + e.body.byte0 <<< 24
    + e.body.byte1 <<< 32
    + e.body.byte2 <<< 40
    + e.body.byte3 <<< 48
    + e.body.byte4 <<< 56
    + e.body.byte5 <<< 64
    + e.link.primary_bucket <<< 72
    + e.link.tag <<< 104
    + e.link.color <<< 112

unfoldable pub entry_of_bits : ℕ → Entry
entry_of_bits w =
    let body : Body = record {
      byte0 = u8 (w >>> 24);
      byte1 = u8 (w >>> 32);
      byte2 = u8 (w >>> 40);
      byte3 = u8 (w >>> 48);
      byte4 = u8 (w >>> 56);
      byte5 = u8 (w >>> 64);
    } in
    let link : Locator = record {
      primary_bucket = u32 (w >>> 72);
      tag = u8 (w >>> 104);
      color = u8 (w >>> 112);
    } in
    record {
      parent_color_and_flags = u8 w;
      color_and_tag = u8 (w >>> 8);
      last_symbol = u8 (w >>> 16);
      body = body;
      link = link;
    }

-- The first QWORD of an entry, and the entry with that QWORD overwritten.
unfoldable pub header_qword : Entry → ℕ
unfolding entry_bits
header_qword e = entry_bits e % 2 ^ 64

unfoldable pub with_header_qword : Entry → ℕ → Entry
unfolding entry_bits entry_of_bits
with_header_qword e q = entry_of_bits (entry_bits e / 2 ^ 64 * 2 ^ 64 + q)

-- `~x` at 8, 64 and 128 bits
abbrev pub not8 : ℕ → ℕ
not8 x = 2 ^ 8 - 1 - x

abbrev pub not64 : ℕ → ℕ
not64 x = 2 ^ 64 - 1 - x

abbrev pub not128 : ℕ → ℕ
not128 x = 2 ^ 128 - 1 - x

unfoldable pub entry_is_secondary : Entry → Bool
entry_is_secondary e =
    bit_and e.parent_color_and_flags flag_secondary_bucket == flag_secondary_bucket

unfoldable pub entry_dirty : Entry → Bool
entry_dirty e = bit_and e.parent_color_and_flags flag_dirty == flag_dirty

unfoldable pub entry_set_dirty : Entry → Entry
entry_set_dirty e = with_header_qword e (bit_or (header_qword e) flag_dirty)

unfoldable pub entry_set_clean : Entry → Entry
entry_set_clean e = with_header_qword e (bit_and (header_qword e) (not64 flag_dirty))

unfoldable pub entry_add_flags : Entry → ℕ → Entry
entry_add_flags e flags = with_header_qword e (bit_or (header_qword e) flags)

unfoldable pub entry_set_color_and_tag : Entry → ℕ → Entry
entry_set_color_and_tag e new_value =
    let cleared = bit_and (header_qword e) (not64 (0xff <<< 8)) in
    with_header_qword e (bit_or cleared (u64 (new_value <<< 8)))

unfoldable pub entry_type : Entry → ℕ
entry_type e = bit_and e.parent_color_and_flags type_mask

unfoldable pub entry_set_child_bit : Entry → ℕ → Entry
entry_set_child_bit e child =
    let child_byte = 3 + child / 8 in
    let child_pos = child_byte * 8 + (7 - child % 8) in
    entry_of_bits (bit_or (entry_bits e) (1 <<< child_pos))

unfoldable pub put_bits_uint128 : ℕ → ℕ → ℕ → ℕ → ℕ
put_bits_uint128 x offset size bits =
    let mask = (2 ^ size - 1) <<< offset in bit_or (bit_and x (not128 mask)) (bits <<< offset)

unfoldable pub get_bits_uint128 : ℕ → ℕ → ℕ → ℕ
get_bits_uint128 x offset size = bit_and (x >>> offset) (2 ^ size - 1)

unfoldable pub entry_set_next_leaf : Entry → Locator → Entry
entry_set_next_leaf e next_leaf =
    let next_leaf_value =
      bit_or (bit_or next_leaf.primary_bucket (next_leaf.color <<< 40)) (next_leaf.tag <<< 32) in
    entry_of_bits (put_bits_uint128 (entry_bits e) 72 48 next_leaf_value)

unfoldable pub entry_color : Entry → ℕ
entry_color e = e.color_and_tag >>> tag_bits

unfoldable pub entry_tag : Entry → ℕ
entry_tag e = bit_and e.color_and_tag (2 ^ tag_bits - 1)

unfoldable pub entry_parent_color : Entry → ℕ
entry_parent_color e = e.parent_color_and_flags >>> parent_color_shift

unfoldable pub entry_set_parent_color : Entry → ℕ → Entry
entry_set_parent_color e color =
    let flags = bit_and e.parent_color_and_flags (2 ^ parent_color_shift - 1) in
    record e { parent_color_and_flags = u8 (bit_or flags (color <<< parent_color_shift)) }

-- `child_color_and_jump_size` of a jump node, which is `max_child` of a bitmap node
abbrev pub size_byte : Entry → ℕ
size_byte e = e.body.byte5

abbrev pub with_size_byte : Entry → ℕ → Entry
with_size_byte e b = record e { body = record (e.body) { byte5 = b } }

unfoldable pub entry_jump_size : Entry → ℕ
entry_jump_size e = bit_and (size_byte e) (2 ^ child_color_shift - 1)

unfoldable pub entry_child_color : Entry → ℕ
entry_child_color e = size_byte e >>> child_color_shift

unfoldable pub entry_set_jump_size : Entry → ℕ → Entry
entry_set_jump_size e jump_size =
    with_size_byte e (bit_or (bit_and (size_byte e) (not8 (2 ^ child_color_shift - 1))) jump_size)

unfoldable pub entry_set_child_color : Entry → ℕ → Entry
entry_set_child_color e child_color =
    let size = bit_and (size_byte e) (2 ^ child_color_shift - 1) in
    with_size_byte e (u8 (bit_or size (child_color <<< child_color_shift)))

unfoldable pub entry_set_type : Entry → ℕ → Entry
entry_set_type e type = record e {
  parent_color_and_flags = bit_or (bit_and e.parent_color_and_flags (not8 type_mask)) type;
}

-- A pointer is 64 bits, of which the 17 highest agree.
unfoldable pub entry_kv : Entry → ℕ
entry_kv e =
    let result = get_bits_uint128 (entry_bits e) 24 48 in
    if bit_and result 0x8000_0000_0000 == 0 then result else bit_or result 0xffff_0000_0000_0000

unfoldable pub entry_set_kv : Entry → ℕ → Entry
entry_set_kv e kv =
    let low_dword = u32 kv in
    let high_word = bit_and (kv >>> 32) 0xffff in
    let body : Body = record {
      byte0 = u8 low_dword;
      byte1 = u8 (low_dword >>> 8);
      byte2 = u8 (low_dword >>> 16);
      byte3 = u8 (low_dword >>> 24);
      byte4 = u8 high_word;
      byte5 = u8 (high_word >>> 8);
    } in
    record e { body = body }
