-- ===== src/Search/Headers.antt =====
-- The masks and values of a search, as the fields of a header that they compare.
use cuckoo_trie_vectorized.Base.{
  ℕ, ◌+◌, ◌*◌, ◌/◌, ◌%◌, ◌^◌, ◌<◌, bit_and, ◌≡◌, arith, Bool, true, false, ◌&&◌, ◌==◌,
  if◌then◌else◌, u8,
}
use cuckoo_trie_vectorized.Base.Table.{same}
use cuckoo_trie_vectorized.Bits.{
  bit_and-shifted, bit_and-low_mask, bit_and_cut, bit_or_above, bit_or_fields,
}
use cuckoo_trie_vectorized.Bits.Bytes.{and_secondary}
use cuckoo_trie_vectorized.Entry.{
  Entry, header_qword, entry_color, entry_tag, entry_is_secondary, entry_type, entry_parent_color,
}
use cuckoo_trie_vectorized.Entry.Bytes.{IsEntry}
use cuckoo_trie_vectorized.Search.Defs.{color_header_values, parent_header_values}

-- A cell in use, or one that nothing looks for: an unused cell has the colour of no entry, also as
-- the colour of its parent.
abbrev pub IsCell : Entry → Type 0
IsCell e =
    IsEntry e × (entry_type e ≡ 0 → (e.parent_color_and_flags ≡ 0x90) × (e.color_and_tag ≡ 0x90))

-- The entry that a search by colour is for, and that by its parent.
abbrev pub has_color : Entry → Bool → ℕ → ℕ → Bool
has_color e is_secondary tag color =
    (entry_color e == color) && (entry_tag e == tag) && same (entry_is_secondary e) is_secondary

abbrev pub has_parent : Entry → Bool → ℕ → ℕ → ℕ → Bool
has_parent e is_secondary tag last_symbol parent_color =
    (entry_parent_color e == parent_color)
    && (e.last_symbol == last_symbol)
    && (entry_tag e == tag)
    && same (entry_is_secondary e) is_secondary

-- The value of the flag in a header.
abbrev pub flag_value : Bool → ℕ
flag_value is_secondary = if is_secondary then 4 else 0

pub color_header_values_lem :
    (is_secondary : Bool) (tag color : ℕ)
    → tag < 16
    → color < 16
    → color_header_values is_secondary tag color
      ≡ (color * 16 + tag) * 256 + flag_value is_secondary
unfolding color_header_values
color_header_values_lem true tag color t c =
    ground (arith, bit_or_above 12 color (tag * 256), bit_or_fields 8 (color * 16 + tag) 4)
color_header_values_lem false tag color t c = ground (arith, bit_or_above 12 color (tag * 256))

pub parent_header_values_lem :
    (is_secondary : Bool) (tag last_symbol parent_color : ℕ)
    → tag < 16
    → last_symbol < 256
    → parent_color < 16
    → parent_header_values is_secondary tag last_symbol parent_color
      ≡ last_symbol * 2 ^ 16 + tag * 256 + parent_color * 16 + flag_value is_secondary
unfolding parent_header_values
parent_header_values_lem true tag last_symbol parent_color t l c = ground (
  arith,
  bit_or_above 16 last_symbol (tag * 256),
  bit_or_fields 8 (last_symbol * 256 + tag) (parent_color * 16),
  bit_or_fields 4 (last_symbol * 4096 + tag * 16 + parent_color) 4,
)
parent_header_values_lem false tag last_symbol parent_color t l c = ground (
  arith,
  bit_or_above 16 last_symbol (tag * 256),
  bit_or_fields 8 (last_symbol * 256 + tag) (parent_color * 16),
)

module _ (e : Entry) (h : IsEntry e) where
  pub header_fields :
      (header_qword e % 2 ^ 8 ≡ e.parent_color_and_flags)
      × (header_qword e / 2 ^ 8 % 2 ^ 8 ≡ e.color_and_tag)
      × (header_qword e / 2 ^ 16 % 2 ^ 8 ≡ e.last_symbol)
  unfolding header_qword
  header_fields = omega arith

  pub color_masked :
      bit_and (header_qword e) 0xFF04 ≡ e.color_and_tag * 256 + e.parent_color_and_flags / 4 % 2 * 4
  color_masked = omega (
    arith,
    header_fields,
    bit_and_cut 8 (header_qword e) 0xFF 4 (omega arith),
    bit_and-low_mask 8 (header_qword e / 2 ^ 8),
    and_secondary (header_qword e % 2 ^ 8) (omega arith),
  )

  pub tag_masked : bit_and (header_qword e) 0xF00 ≡ e.color_and_tag % 16 * 256
  tag_masked = omega (
    arith,
    header_fields,
    bit_and-shifted 8 (header_qword e) 15,
    bit_and-low_mask 4 (header_qword e / 2 ^ 8),
  )

  pub type_masked : bit_and (u8 (header_qword e)) 3 ≡ e.parent_color_and_flags % 4
  type_masked = omega (arith, header_fields, bit_and-low_mask 2 (header_qword e % 2 ^ 8))

  pub parent_masked :
      bit_and (header_qword e) 0xFF0FF4
      ≡ e.last_symbol * 2 ^ 16
        + e.color_and_tag % 16 * 256
        + e.parent_color_and_flags / 16 * 16
        + e.parent_color_and_flags / 4 % 2 * 4
  parent_masked =
      let w = header_qword e in
      omega (
        arith,
        header_fields,
        bit_and_cut 16 w 0xFF 0xFF4 (omega arith),
        bit_and-low_mask 8 (w / 2 ^ 16),
        bit_and_cut 8 (w % 2 ^ 16) 0xF 0xF4 (omega arith),
        bit_and-low_mask 4 (w % 2 ^ 16 / 2 ^ 8),
        bit_and_cut 4 (w % 2 ^ 16 % 2 ^ 8) 0xF 4 (omega arith),
        bit_and-low_mask 4 (w % 2 ^ 16 % 2 ^ 8 / 2 ^ 4),
        and_secondary (w % 2 ^ 16 % 2 ^ 8 % 2 ^ 4) (omega arith),
      )
