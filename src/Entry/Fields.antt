-- ===== src/Entry/Fields.antt =====
-- Setting one field of an entry leaves the others alone, also where the code writes a whole QWORD
-- or a 128-bit value to set it.
use cuckoo_trie_vectorized.Base.{
  ℕ, ◌+◌, ◌-◌, ◌*◌, ◌/◌, ◌%◌, ◌^◌, ◌≤◌, ◌<◌, bit_and, bit_or, ◌≡◌, arith, ◌⊎◌,
}
use cuckoo_trie_vectorized.Bits.{
  bit_or_split, bit_or-zero, bit_or-lt, bit_and_split, bit_and-low_mask, bit_and-shifted,
  bit_or_fields, zero-bit_or, zero-bit_and,
}
use cuckoo_trie_vectorized.Bits.Bytes.{and_not_dirty}
use cuckoo_trie_vectorized.Entry.Defs.{
  Entry, Locator, header_qword, with_header_qword, entry_set_dirty, entry_set_clean,
  entry_add_flags, entry_set_color_and_tag, entry_set_next_leaf, entry_bits, entry_of_bits,
  put_bits_uint128, entry_kv, entry_set_kv, get_bits_uint128,
}
use cuckoo_trie_vectorized.Entry.Bytes.{IsEntry, IsLocator}

module _ (e : Entry) (h : IsEntry e) where
  abbrev above_low_byte : ℕ
  above_low_byte = header_qword e / 256

  -- A change of the lowest byte of the header.
  set_low_byte :
      (b : ℕ)
      → b < 256
      → with_header_qword e (above_low_byte * 256 + b) ≡ record e { parent_color_and_flags = b }
  unfolding with_header_qword header_qword
  set_low_byte b fits = ground arith

  low_byte : header_qword e ≡ above_low_byte * 256 + e.parent_color_and_flags
  unfolding header_qword
  low_byte = ground arith

  above_fits : above_low_byte < 2 ^ 56
  unfolding header_qword
  above_fits = omega arith

  -- `|=` on the QWORD with a value of one byte.
  pub entry_add_flags_lem :
      (flags : ℕ)
      → flags < 256
      → entry_add_flags e flags
        ≡ record e { parent_color_and_flags = bit_or e.parent_color_and_flags flags }
  unfolding entry_add_flags
  entry_add_flags_lem flags fits =
      rw (low_or flags fits)
        (set_low_byte _ (bit_or-lt 8 e.parent_color_and_flags flags h.flags_fit fits))
    where
      low_or :
          (flags : ℕ)
          → flags < 256
          → bit_or (header_qword e) flags
            ≡ above_low_byte * 256 + bit_or e.parent_color_and_flags flags
      low_or flags fits = ground (
        arith,
        low_byte,
        bit_or_split 8 above_low_byte e.parent_color_and_flags 0 flags,
        bit_or-zero above_low_byte,
      )

  pub entry_set_dirty_lem :
      entry_set_dirty e ≡ record e { parent_color_and_flags = bit_or e.parent_color_and_flags 8 }
  unfolding entry_set_dirty entry_add_flags
  entry_set_dirty_lem = entry_add_flags_lem 8 (omega arith)

  low_and :
      bit_and (header_qword e) (2 ^ 64 - 1 - 8)
      ≡ above_low_byte * 256 + bit_and e.parent_color_and_flags 0xf7
  low_and = ground (
    arith,
    low_byte,
    above_fits,
    bit_and_split 8 above_low_byte e.parent_color_and_flags (2 ^ 56 - 1) 0xf7,
    bit_and-low_mask 56 above_low_byte,
  )

  pub entry_set_clean_lem :
      entry_set_clean e
      ≡ record e { parent_color_and_flags = bit_and e.parent_color_and_flags 0xf7 }
  unfolding entry_set_clean
  entry_set_clean_lem =
      rw low_and
        (set_low_byte _ (omega (arith, and_not_dirty e.parent_color_and_flags h.flags_fit)))

  cleared :
      bit_and (header_qword e) (2 ^ 64 - 1 - 0xff * 2 ^ 8)
      ≡ above_low_byte / 256 * 2 ^ 16 + e.parent_color_and_flags
  cleared = ground (
    arith,
    low_byte,
    above_fits,
    bit_and_split 16 (above_low_byte / 256) (above_low_byte % 256 * 256 + e.parent_color_and_flags)
        (2 ^ 48 - 1) 255,
    bit_and-low_mask 48 (above_low_byte / 256),
    bit_and-low_mask 8 (above_low_byte % 256 * 256 + e.parent_color_and_flags),
    h.flags_fit,
  )

  pub entry_set_color_and_tag_lem :
      (v : ℕ) → v < 256 → entry_set_color_and_tag e v ≡ record e { color_and_tag = v }
  unfolding entry_set_color_and_tag
  entry_set_color_and_tag_lem v fits = rw (cleared, joined) stored
    where
      joined :
          bit_or (above_low_byte / 256 * 2 ^ 16 + e.parent_color_and_flags) ((v * 2 ^ 8) % 2 ^ 64)
          ≡ above_low_byte / 256 * 2 ^ 16 + v * 256 + e.parent_color_and_flags
      joined = ground (
        arith,
        h.flags_fit,
        bit_or_split 16 (above_low_byte / 256) e.parent_color_and_flags 0 (v * 256),
        bit_or_split 8 0 e.parent_color_and_flags v 0,
        zero-bit_or v,
        bit_or-zero (above_low_byte / 256),
        bit_or-zero e.parent_color_and_flags,
      )

      stored :
          with_header_qword e (above_low_byte / 256 * 2 ^ 16 + v * 256 + e.parent_color_and_flags)
          ≡ record e { color_and_tag = v }
      stored = unfold with_header_qword header_qword in ground arith

  abbrev low_bits : ℕ
  low_bits = entry_bits e % 2 ^ 72

  all_but_link : bit_and (entry_bits e) (2 ^ 128 - 1 - (2 ^ 48 - 1) * 2 ^ 72) ≡ low_bits
  all_but_link = ground (
    arith,
    bits_fit,
    bit_and_split 72 (entry_bits e / 2 ^ 72) low_bits ((2 ^ 8 - 1) * 2 ^ 48) (2 ^ 72 - 1),
    bit_and-shifted 48 (entry_bits e / 2 ^ 72) (2 ^ 8 - 1),
    zero-bit_and (2 ^ 8 - 1),
    bit_and-low_mask 72 low_bits,
  )
    where
      bits_fit : entry_bits e < 2 ^ 120
      bits_fit = unfold entry_bits in omega arith

  -- The 128-bit update of `entry_set_next_leaf`, given a locator that fits its 63 bits, replaces the
  -- link of the entry and changes no other part of it.
  pub entry_set_next_leaf_lem :
      (l : Locator) → IsLocator l → entry_set_next_leaf e l ≡ record e { link = l }
  unfolding entry_set_next_leaf put_bits_uint128
  entry_set_next_leaf_lem l fits = rw (locator_value, all_but_link, joined) stored
    where
      locator_value :
          bit_or (bit_or l.primary_bucket (l.color * 2 ^ 40)) (l.tag * 2 ^ 32)
          ≡ l.primary_bucket + l.tag * 2 ^ 32 + l.color * 2 ^ 40
      locator_value = ground (
        arith,
        bit_or_split 32 0 l.primary_bucket (l.color * 256) 0,
        zero-bit_or (l.color * 256),
        bit_or-zero l.primary_bucket,
        bit_or_split 32 (l.color * 256) l.primary_bucket l.tag 0,
        bit_or_fields 8 l.color l.tag,
      )

      joined :
          bit_or low_bits ((l.primary_bucket + l.tag * 2 ^ 32 + l.color * 2 ^ 40) * 2 ^ 72)
          ≡ (l.primary_bucket + l.tag * 2 ^ 32 + l.color * 2 ^ 40) * 2 ^ 72 + low_bits
      joined = ground (
        arith,
        bit_or_split 72 0 low_bits (l.primary_bucket + l.tag * 2 ^ 32 + l.color * 2 ^ 40) 0,
        zero-bit_or (l.primary_bucket + l.tag * 2 ^ 32 + l.color * 2 ^ 40),
        bit_or-zero low_bits,
      )

      stored :
          entry_of_bits ((l.primary_bucket + l.tag * 2 ^ 32 + l.color * 2 ^ 40) * 2 ^ 72 + low_bits)
          ≡ record e { link = l }
      stored = unfold entry_of_bits entry_bits in ground arith

-- The two halves of the address space that a 48-bit pointer can name.
abbrev pub IsCanonical : ℕ → Type 0
IsCanonical p = (p < 2 ^ 47) ⊎ ((2 ^ 64 - 2 ^ 47 ≤ p) × (p < 2 ^ 64))

stored_pointer :
    (e : Entry) (p : ℕ)
    → IsEntry e
    → get_bits_uint128 (entry_bits (entry_set_kv e p)) 24 48 ≡ p % 2 ^ 48
unfolding get_bits_uint128 entry_set_kv entry_bits
stored_pointer e p h = rw (bit_and-low_mask 48) (omega (arith, bit_and-low_mask 16 (p / 2 ^ 32)))

sign_bit : (r : ℕ) → r < 2 ^ 48 → bit_and r 0x8000_0000_0000 ≡ r / 2 ^ 47 * 2 ^ 47
sign_bit r fits = ground (arith, bit_and-shifted 47 r 1, bit_and-low_mask 1 (r / 2 ^ 47))

sign_extension : (r : ℕ) → r < 2 ^ 48 → bit_or r 0xffff_0000_0000_0000 ≡ r + 0xffff_0000_0000_0000
sign_extension r fits =
    ground (arith, bit_or_split 48 0 r 0xffff 0, zero-bit_or 0xffff, bit_or-zero r)

-- A pointer to a key survives its packing into six bytes, and nothing else in the entry moves.
pub entry_kv-entry_set_kv :
    (e : Entry) (p : ℕ)
    → IsEntry e
    → IsCanonical p
    → (entry_kv (entry_set_kv e p) ≡ p) × (record (entry_set_kv e p) { body = e.body } ≡ e)
unfolding entry_kv
entry_kv-entry_set_kv e p h canonical = (
  ground (arith, stored_pointer e p, sign_bit (p % 2 ^ 48), sign_extension (p % 2 ^ 48), canonical),
  unfold entry_set_kv in ground arith,
)
