-- ===== src/Entry/Nibbles.antt =====
-- The fields that share a byte of an entry: each is set and read on its own.
use cuckoo_trie_vectorized.Base.{
  ℕ, ◌+◌, ◌*◌, ◌/◌, ◌%◌, ◌^◌, ◌<◌, bit_and, bit_or, ◌≡◌, refl, arith, true, false, ◌<<<◌,
}
use cuckoo_trie_vectorized.Bits.{
  bit_and-low_mask, bit_or_fields, bit_or_split, zero-bit_or, bit_or-zero,
}
use cuckoo_trie_vectorized.Bits.Bytes.{
  or_dirty, and_not_dirty, and_dirty, and_secondary, and_not_type, and_not_jump_size,
}
use cuckoo_trie_vectorized.Entry.Defs.{
  Entry, entry_set_dirty, entry_set_clean, entry_dirty, entry_set_color_and_tag, entry_color,
  entry_tag, entry_parent_color, entry_set_parent_color, entry_type, entry_is_secondary,
  entry_jump_size, entry_child_color, entry_set_jump_size, entry_set_child_color, entry_set_type,
  size_byte,
}
use cuckoo_trie_vectorized.Entry.Bytes.{IsEntry}
use cuckoo_trie_vectorized.Entry.Fields.{
  entry_set_dirty_lem, entry_set_clean_lem, entry_set_color_and_tag_lem,
}

-- The bits of the first byte that the dirty flag does not touch.
pub record SameNode (a b : Entry) : Type 0 where
  pub same_parent : entry_parent_color a ≡ entry_parent_color b
  pub same_type : entry_type a ≡ entry_type b
  pub same_bucket : entry_is_secondary a ≡ entry_is_secondary b
  pub same_color_and_tag : a.color_and_tag ≡ b.color_and_tag
  pub same_symbol : a.last_symbol ≡ b.last_symbol
  pub same_body : a.body ≡ b.body
  pub same_link : a.link ≡ b.link

module _ (e : Entry) (h : IsEntry e) where
  abbrev flags : ℕ
  flags = e.parent_color_and_flags

  same_node :
      (b : ℕ)
      → b < 256
      → b / 16 ≡ flags / 16
      → b % 8 ≡ flags % 8
      → SameNode (record e { parent_color_and_flags = b }) e
  unfolding entry_parent_color entry_type entry_is_secondary
  same_node b fits high low = record {
    same_parent = high;
    same_type = ground (arith, bit_and-low_mask 2 b, bit_and-low_mask 2 flags);
    same_bucket = ground (arith, and_secondary b, and_secondary flags, h.flags_fit);
    same_color_and_tag = refl;
    same_symbol = refl;
    same_body = refl;
    same_link = refl;
  }

  -- Marking an entry dirty or clean sets that flag and touches nothing else.
  pub dirty_flag :
      (entry_dirty (entry_set_dirty e) ≡ true)
      × (entry_dirty (entry_set_clean e) ≡ false)
      × SameNode (entry_set_dirty e) e
      × SameNode (entry_set_clean e) e
  unfolding entry_dirty
  dirty_flag =
      rw (entry_set_dirty_lem e h, entry_set_clean_lem e h)
        (
          ground (arith, or_dirty flags, and_dirty (bit_or flags 8), h.flags_fit),
          ground (arith, and_not_dirty flags, and_dirty (bit_and flags 0xf7), h.flags_fit),
          same_node (bit_or flags 8) (omega (arith, marked)) (omega (arith, marked))
              (omega (arith, marked)),
          same_node (bit_and flags 0xf7) (omega (arith, unmarked)) (omega (arith, unmarked))
              (omega (arith, unmarked)),
        )
    where
      marked : bit_or flags 8 ≡ flags / 16 * 16 + 8 + flags % 8
      marked = or_dirty flags h.flags_fit

      unmarked : bit_and flags 0xf7 ≡ flags / 16 * 16 + flags % 8
      unmarked = and_not_dirty flags h.flags_fit

  -- The colour and the tag are written together as `(color << TAG_BITS) | tag` and read apart, and
  -- the rest of the entry stays.
  pub color_and_tag :
      (color tag : ℕ)
      → color < 16
      → tag < 16
      → let e' = entry_set_color_and_tag e (bit_or (color <<< 4) tag) in
        (entry_color e' ≡ color)
        × (entry_tag e' ≡ tag)
        × (record e' { color_and_tag = e.color_and_tag } ≡ e)
  unfolding entry_color entry_tag
  color_and_tag color tag c t =
      rw
        (
          bit_or_fields 4 color tag t,
          entry_set_color_and_tag_lem e h (color * 16 + tag) (omega arith),
        )
        (omega arith, ground (arith, bit_and-low_mask 4 (color * 16 + tag)), refl)

  -- `entry_set_parent_color` sets the high half of the first byte: the type and the two flags in
  -- the low half stay, and so does the rest of the entry.
  pub parent_color :
      (color : ℕ)
      → color < 16
      → let e' = entry_set_parent_color e color in
        (entry_parent_color e' ≡ color)
        × (entry_type e' ≡ entry_type e)
        × (entry_is_secondary e' ≡ entry_is_secondary e)
        × (entry_dirty e' ≡ entry_dirty e)
        × (record e' { parent_color_and_flags = flags } ≡ e)
  unfolding entry_set_parent_color entry_parent_color entry_type entry_is_secondary entry_dirty
  parent_color color c = rw joined (
    omega arith,
    ground (arith, bit_and-low_mask 2 flags, bit_and-low_mask 2 (color * 16 + flags % 16)),
    ground (arith, and_secondary flags, and_secondary (color * 16 + flags % 16), h.flags_fit),
    ground (arith, and_dirty flags, and_dirty (color * 16 + flags % 16), h.flags_fit),
    refl,
  )
    where
      joined : bit_or (bit_and flags 15) (color * 2 ^ 4) % 2 ^ 8 ≡ color * 16 + flags % 16
      joined = ground (
        arith,
        bit_and-low_mask 4 flags,
        bit_or_split 4 0 (flags % 16) color 0,
        zero-bit_or color,
        bit_or-zero (flags % 16),
      )

  -- The two halves of a jump node's byte do not disturb one another.
  pub jump_size_and_child_color :
      (n color : ℕ)
      → n < 16
      → color < 16
      → (entry_jump_size (entry_set_jump_size e n) ≡ n)
        × (entry_child_color (entry_set_jump_size e n) ≡ entry_child_color e)
        × (entry_child_color (entry_set_child_color e color) ≡ color)
        × (entry_jump_size (entry_set_child_color e color) ≡ entry_jump_size e)
  unfolding entry_jump_size entry_child_color entry_set_jump_size entry_set_child_color
  jump_size_and_child_color n color small c = (
    ground (arith, resized, bit_and-low_mask 4 (size_byte e / 16 * 16 + n)),
    ground (arith, resized),
    ground (arith, recolored),
    ground (
      arith,
      recolored,
      bit_and-low_mask 4 (size_byte e),
      bit_and-low_mask 4 (color * 16 + size_byte e % 16),
    ),
  )
    where
      resized : bit_or (bit_and (size_byte e) 0xf0) n ≡ size_byte e / 16 * 16 + n
      resized = ground (
        arith,
        and_not_jump_size (size_byte e),
        h.body_fits.fits5,
        bit_or_fields 4 (size_byte e / 16) n,
      )

      recolored :
          bit_or (bit_and (size_byte e) 15) (color * 2 ^ 4) % 2 ^ 8 ≡ color * 16 + size_byte e % 16
      recolored = ground (
        arith,
        bit_and-low_mask 4 (size_byte e),
        bit_or_split 4 0 (size_byte e % 16) color 0,
        zero-bit_or color,
        bit_or-zero (size_byte e % 16),
      )

  -- `entry_set_type` sets the two lowest bits of the first byte and keeps both flags and the colour
  -- of the parent.
  pub set_type :
      (type : ℕ)
      → type < 4
      → let e' = entry_set_type e type in
        (entry_type e' ≡ type)
        × (entry_is_secondary e' ≡ entry_is_secondary e)
        × (entry_dirty e' ≡ entry_dirty e)
        × (entry_parent_color e' ≡ entry_parent_color e)
  unfolding entry_set_type entry_type entry_is_secondary entry_dirty entry_parent_color
  set_type type t = rw joined (
    ground (arith, bit_and-low_mask 2 (flags / 4 * 4 + type)),
    ground (arith, and_secondary flags, and_secondary (flags / 4 * 4 + type), h.flags_fit),
    ground (arith, and_dirty flags, and_dirty (flags / 4 * 4 + type), h.flags_fit),
    omega arith,
  )
    where
      joined : bit_or (bit_and flags 0xfc) type ≡ flags / 4 * 4 + type
      joined = ground (arith, and_not_type flags, h.flags_fit, bit_or_fields 2 (flags / 4) type)
