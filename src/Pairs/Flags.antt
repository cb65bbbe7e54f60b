-- ===== src/Pairs/Flags.antt =====
-- The value that an update writes where the entry was moved: it is new but for the secondary flag.
use cuckoo_trie_vectorized.Base.{
  ℕ, zero, suc, ◌+◌, ◌*◌, ◌/◌, ◌%◌, ◌^◌, ◌<◌, ◌≡◌, ◌≢◌, refl, arith, bit_and, bit_or, true, ◌==◌,
  List, get_or, inl, inr, ◌↔◌, ap, ◌∙◌, sym, Bool-cases,
}
use cuckoo_trie_vectorized.Bits.{bit_or-zero, bit_and-low_mask}
use cuckoo_trie_vectorized.Bits.Bytes.{and_secondary, and_not_secondary, or_secondary}
use cuckoo_trie_vectorized.Entry.{
  Entry, entry_color, entry_tag, entry_type, entry_is_secondary, header_qword, entry_bits,
  entry_of_bits,
}
use cuckoo_trie_vectorized.Entry.Bytes.{IsEntry, entry_of_bits-entry_bits}
use cuckoo_trie_vectorized.Trie.{zero_entry}
use cuckoo_trie_vectorized.Search.Headers.{IsCell}
use cuckoo_trie_vectorized.Pairs.Returns.{IsBucket}
use cuckoo_trie_vectorized.Pairs.Defs.{adjusted, entries_equal}

-- All of the entry but the secondary flag.
pub record IsButForFlag (e new_value : Entry) : Type 0 where
  pub color_and_tag_eq : e.color_and_tag ≡ new_value.color_and_tag
  pub last_symbol_eq : e.last_symbol ≡ new_value.last_symbol
  pub body_eq : e.body ≡ new_value.body
  pub link_eq : e.link ≡ new_value.link
  pub type_eq : e.parent_color_and_flags % 4 ≡ new_value.parent_color_and_flags % 4
  pub rest_eq : e.parent_color_and_flags / 8 ≡ new_value.parent_color_and_flags / 8

pub same_color_and_tag :
    (e f : Entry)
    → e.color_and_tag ≡ f.color_and_tag
    → (entry_color e ≡ entry_color f) × (entry_tag e ≡ entry_tag f)
unfolding entry_color entry_tag
same_color_and_tag e f q = (ground (arith, q), ground (arith, q))

adjusted_flags :
    (f g : ℕ)
    → f < 256
    → g < 256
    → bit_or (bit_and f 0xFB) (bit_and g 4) ≡ f / 8 * 8 + g / 4 % 2 * 4 + f % 4
adjusted_flags f g hf hg = elim (Bool-cases (g / 4 % 2 == 0)) [
  | inl clear ↦
      ground
        (arith, clear, and_not_secondary f hf, and_secondary g hg, bit_or-zero (bit_and f 0xFB))
  | inr raised ↦ ground (
    arith,
    raised,
    and_not_secondary f hf,
    and_secondary g hg,
    or_secondary (f / 8 * 8 + f % 4) (omega (arith, hf)),
  )
]

pub adjusted-IsButForFlag :
    (new_value current : Entry)
    → IsEntry new_value
    → IsEntry current
    → IsButForFlag (adjusted new_value current) new_value
unfolding adjusted
adjusted-IsButForFlag new_value current h g =
    let flags =
      adjusted_flags new_value.parent_color_and_flags current.parent_color_and_flags h.flags_fit
        g.flags_fit in
    record {
      color_and_tag_eq = refl;
      last_symbol_eq = refl;
      body_eq = refl;
      link_eq = refl;
      type_eq = omega (arith, flags);
      rest_eq = omega (arith, flags);
    }

pub adjusted-flag :
    (new_value current : Entry)
    → IsEntry new_value
    → IsEntry current
    → entry_is_secondary (adjusted new_value current) ≡ entry_is_secondary current
unfolding adjusted entry_is_secondary
adjusted-flag new_value current h g = ground (
  arith,
  adjusted_flags new_value.parent_color_and_flags current.parent_color_and_flags h.flags_fit
      g.flags_fit,
  and_secondary (adjusted new_value current).parent_color_and_flags (
      omega (
        arith,
        h.flags_fit,
        adjusted_flags new_value.parent_color_and_flags current.parent_color_and_flags h.flags_fit
            g.flags_fit,
      )),
  and_secondary current.parent_color_and_flags g.flags_fit,
)

pub adjusted-IsCell :
    (new_value current : Entry)
    → IsEntry new_value
    → IsEntry current
    → entry_type new_value ≢ 0
    → IsCell (adjusted new_value current)
unfolding adjusted entry_type
adjusted-IsCell new_value current h g used =
    let flags =
      adjusted_flags new_value.parent_color_and_flags current.parent_color_and_flags h.flags_fit
        g.flags_fit in
    (
      record {
        flags_fit = omega (arith, flags, h.flags_fit);
        color_and_tag_fits = h.color_and_tag_fits;
        last_symbol_fits = h.last_symbol_fits;
        body_fits = h.body_fits;
        link_fits = h.link_fits;
      },
      λ unused. absurd (
          used (
            ground (
              arith,
              unused,
              flags,
              bit_and-low_mask 2 (adjusted new_value current).parent_color_and_flags,
              bit_and-low_mask 2 new_value.parent_color_and_flags,
            ))),
    )

pub IsBucket-IsEntry :
    (cells : List Entry) (i : ℕ) → IsBucket cells → IsEntry (get_or cells i zero_entry)
IsBucket-IsEntry cells zero h = rw (h.cells_eq) h.cell0.0
IsBucket-IsEntry cells (suc zero) h = rw (h.cells_eq) h.cell1.0
IsBucket-IsEntry cells (suc (suc zero)) h = rw (h.cells_eq) h.cell2.0
IsBucket-IsEntry cells (suc (suc (suc zero))) h = rw (h.cells_eq) h.cell3.0
IsBucket-IsEntry cells (suc (suc (suc (suc i)))) h = rw (h.cells_eq) (omega arith)

pub IsBucket-IsCell :
    (cells : List Entry) (i : ℕ) → i < 4 → IsBucket cells → IsCell (get_or cells i zero_entry)
IsBucket-IsCell cells zero below h = rw (h.cells_eq) h.cell0
IsBucket-IsCell cells (suc zero) below h = rw (h.cells_eq) h.cell1
IsBucket-IsCell cells (suc (suc zero)) below h = rw (h.cells_eq) h.cell2
IsBucket-IsCell cells (suc (suc (suc zero))) below h = rw (h.cells_eq) h.cell3
IsBucket-IsCell cells (suc (suc (suc (suc i)))) below h = absurd (omega (arith, below))

module _ (a b : Entry) (ha : IsEntry a) (hb : IsEntry b) where
  bits_of_halves :
      header_qword a ≡ header_qword b
      → entry_bits a / 2 ^ 56 ≡ entry_bits b / 2 ^ 56
      → entry_bits a ≡ entry_bits b
  unfolding header_qword
  bits_of_halves low high = omega (arith, low, high)

  -- The two QWORDs that entries_equal compares hold the whole entry.
  pub entries_equal_iff : (entries_equal a b ≡ true) ↔ (a ≡ b)
  unfolding entries_equal
  entries_equal_iff = (
    λ h.
        sym (entry_of_bits-entry_bits a ha)
        ∙ ap entry_of_bits (bits_of_halves (ground (arith, h)) (ground (arith, h)))
        ∙ entry_of_bits-entry_bits b hb,
    λ q. ground (arith, q),
  )
