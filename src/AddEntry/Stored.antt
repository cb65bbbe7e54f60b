-- ===== src/AddEntry/Stored.antt =====
-- The entry that `add_entry` writes, and that its colour is new in the pair.
use cuckoo_trie_vectorized.Base.{
  ℕ, zero, suc, ◌+◌, ◌*◌, ◌/◌, ◌%◌, ◌<◌, ◌≤◌, ◌≡◌, ◌≢◌, refl, arith, bit_and, bit_or, Bool, true,
  false, ◌==◌, List, [], ◌∷◌, some, length, get_or, get_or-append_left, subst,
}
use cuckoo_trie_vectorized.Bits.{bit_and-low_mask, bit_or-zero, bit_or_fields}
use cuckoo_trie_vectorized.Bits.Bytes.{or_secondary, and_secondary}
use cuckoo_trie_vectorized.Config.{max_valid_color}
use cuckoo_trie_vectorized.Entry.{Entry, entry_type, entry_tag, entry_color, entry_is_secondary}
use cuckoo_trie_vectorized.Entry.Bytes.{IsEntry}
use cuckoo_trie_vectorized.Entry.Fields.{entry_add_flags_lem, entry_set_color_and_tag_lem}
use cuckoo_trie_vectorized.Trie.{zero_entry}
use cuckoo_trie_vectorized.Hash.{hash_to_tag}
use cuckoo_trie_vectorized.Search.Headers.{flag_value}
use cuckoo_trie_vectorized.Colors.{unused_color_in_pair_vectorized}
use cuckoo_trie_vectorized.Colors.Marks.{taken}
use cuckoo_trie_vectorized.Colors.Unused.{unused_colors_agree}
use cuckoo_trie_vectorized.AddEntry.Defs.{stored_entry}

-- An entry with its tag, its colour and the flag of its bucket, and else as it was handed over.
pub record IsStored (prefix_hash : ℕ) (entry : Entry) (is_secondary : Bool) (color : ℕ) (e : Entry)
    : Type 0 where
  pub fits : IsEntry e
  pub color_eq : entry_color e ≡ color
  pub tag_eq : entry_tag e ≡ hash_to_tag prefix_hash
  pub flag_eq : entry_is_secondary e ≡ is_secondary
  pub type_eq : entry_type e ≡ entry_type entry
  pub last_symbol_eq : e.last_symbol ≡ entry.last_symbol
  pub body_eq : e.body ≡ entry.body
  pub link_eq : e.link ≡ entry.link

or_flag : (f : ℕ) (s : Bool) → f < 256 → f / 4 % 2 ≡ 0 → bit_or f (flag_value s) ≡ f + flag_value s
or_flag f true fits clear = ground (arith, clear, or_secondary f fits)
or_flag f false fits clear = omega (arith, bit_or-zero f)

flag_value-lt : (s : Bool) → flag_value s < 5
flag_value-lt true = omega arith
flag_value-lt false = omega arith

-- The flag is read back, and the bits below it stay.
flag_back :
    (f : ℕ) (s : Bool)
    → f < 256
    → f / 4 % 2 ≡ 0
    → (f + flag_value s < 256)
      × ((bit_and (f + flag_value s) 4 == 4) ≡ s)
      × (bit_and (f + flag_value s) 3 ≡ bit_and f 3)
flag_back f true fits clear = (
  omega (arith, clear, fits),
  ground (arith, clear, and_secondary (f + 4)),
  ground (arith, clear, bit_and-low_mask 2 (f + 4), bit_and-low_mask 2 f),
)
flag_back f false fits clear = (
  omega (arith, fits),
  ground (arith, clear, and_secondary (f + 0)),
  ground (arith, bit_and-low_mask 2 (f + 0), bit_and-low_mask 2 f),
)

module _ (prefix_hash : ℕ) (entry : Entry) (h : IsEntry entry)
    (primary_flag : entry_is_secondary entry ≡ false) (is_secondary : Bool) (color : ℕ)
    (color_fits : color < 16) where
  abbrev flags : ℕ
  flags = bit_or entry.parent_color_and_flags (flag_value is_secondary)

  tag_fits : hash_to_tag prefix_hash < 16
  unfolding hash_to_tag
  tag_fits = ground (arith, bit_and-low_mask 4 prefix_hash)

  clear : entry.parent_color_and_flags / 4 % 2 ≡ 0
  unfolding entry_is_secondary
  clear = ground (arith, primary_flag, and_secondary entry.parent_color_and_flags h.flags_fit)

  flags_lem : flags ≡ entry.parent_color_and_flags + flag_value is_secondary
  flags_lem = or_flag entry.parent_color_and_flags is_secondary h.flags_fit clear

  back :
      (flags < 256)
      × ((bit_and flags 4 == 4) ≡ is_secondary)
      × (bit_and flags 3 ≡ bit_and entry.parent_color_and_flags 3)
  back = rw (flags_lem) (flag_back entry.parent_color_and_flags is_secondary h.flags_fit clear)

  with_flag : IsEntry (record entry { parent_color_and_flags = flags })
  with_flag = record {
    flags_fit = back.0;
    color_and_tag_fits = h.color_and_tag_fits;
    last_symbol_fits = h.last_symbol_fits;
    body_fits = h.body_fits;
    link_fits = h.link_fits;
  }

  stored_entry_lem : stored_entry prefix_hash entry (flag_value is_secondary) color ≡ record entry {
    parent_color_and_flags = flags;
    color_and_tag = color * 16 + hash_to_tag prefix_hash;
  }
  unfolding stored_entry
  stored_entry_lem =
      rw
        (
          entry_add_flags_lem entry h (flag_value is_secondary)
              (omega (arith, flag_value-lt is_secondary)),
          bit_or_fields 4 color (hash_to_tag prefix_hash) tag_fits,
          entry_set_color_and_tag_lem (record entry { parent_color_and_flags = flags }) with_flag
              (color * 16 + hash_to_tag prefix_hash) (omega (arith, color_fits, tag_fits)),
        )
        refl

  pub stored_entry-IsStored :
      IsStored prefix_hash entry is_secondary color
        (stored_entry prefix_hash entry (flag_value is_secondary) color)
  unfolding entry_color entry_tag entry_is_secondary entry_type
  stored_entry-IsStored = rw (stored_entry_lem) (record {
    fits = record {
      flags_fit = back.0;
      color_and_tag_fits = omega (arith, color_fits, tag_fits);
      last_symbol_fits = h.last_symbol_fits;
      body_fits = h.body_fits;
      link_fits = h.link_fits;
    };
    color_eq = omega (arith, tag_fits);
    tag_eq = ground (arith, tag_fits, bit_and-low_mask 4 (color * 16 + hash_to_tag prefix_hash));
    flag_eq = back.1;
    type_eq = back.2;
    last_symbol_eq = refl;
    body_eq = refl;
    link_eq = refl;
  })

-- A list of four.
four_of :
    (cells : List Entry)
    → length cells ≡ 4
    → (e0 : Entry) × (e1 : Entry) × (e2 : Entry) × (e3 : Entry) × (e0 ∷ e1 ∷ e2 ∷ e3 ∷ [] ≡ cells)
four_of [] h = absurd (omega (arith, h))
four_of (a ∷ []) h = absurd (omega (arith, h))
four_of (a ∷ b ∷ []) h = absurd (omega (arith, h))
four_of (a ∷ b ∷ c ∷ []) h = absurd (omega (arith, h))
four_of (a ∷ b ∷ c ∷ d ∷ []) h = (a, b, c, d, refl)
four_of (a ∷ b ∷ c ∷ d ∷ e ∷ rest) h = absurd (omega (arith, h))

untaken_color :
    (c : ℕ) (cells : List Entry) (i : ℕ)
    → taken c cells ≡ 0
    → i < length cells
    → entry_color (get_or cells i zero_entry) ≢ c
untaken_color c [] i h below = absurd (omega (arith, below))
untaken_color c (e ∷ rest) zero h below = λ q. absurd (ground (arith, h, q))
untaken_color c (e ∷ rest) (suc i) h below =
    untaken_color c rest i (omega (arith, h)) (omega (arith, below))

-- A colour for the pair that no cell of it has.
abbrev pub IsNew : List Entry → List Entry → ℕ → Type 0
IsNew cells1 cells2 c =
    (unused_color_in_pair_vectorized cells1 cells2 ≡ some c)
    × (c ≤ max_valid_color)
    × ((i : ℕ) → i < 4 → entry_color (get_or cells1 i zero_entry) ≢ c)
    × ((i : ℕ) → i < 4 → entry_color (get_or cells2 i zero_entry) ≢ c)

abbrev AreStored : List Entry → Type 0
AreStored cells = (i : ℕ) → IsEntry (get_or cells i zero_entry)

pub new_color :
    (cells1 cells2 : List Entry)
    → length cells1 ≡ 4
    → length cells2 ≡ 4
    → AreStored cells1
    → AreStored cells2
    → (c : ℕ) × IsNew cells1 cells2 c
new_color cells1 cells2 four1 four2 =
    let (e0, e1, e2, e3, q1) = four_of cells1 four1 in
    let (f0, f1, f2, f3, q2) = four_of cells2 four2 in
    subst
      (λ (cells : List Entry). AreStored cells → AreStored cells2 → (c : ℕ) × IsNew cells cells2 c)
      q1
      (subst
        (λ (cells : List Entry).
          AreStored (e0 ∷ e1 ∷ e2 ∷ e3 ∷ [])
          → AreStored cells
          → (c : ℕ) × IsNew (e0 ∷ e1 ∷ e2 ∷ e3 ∷ []) cells c)
        q2
        (λ v w.
          let agree =
            unused_colors_agree e0 e1 e2 e3 f0 f1 f2 f3 (v 0) (v 1) (v 2) (v 3) (w 0) (w 1) (w 2)
              (w 3) in
          (
            agree.0,
            (
              agree.2,
              agree.4.valid,
              λ i below.
                  subst (λ (e : Entry). entry_color e ≢ agree.0)
                    (get_or-append_left (e0 ∷ e1 ∷ e2 ∷ e3 ∷ []) (f0 ∷ f1 ∷ f2 ∷ f3 ∷ []) i
                      zero_entry below)
                    (untaken_color agree.0 (e0 ∷ e1 ∷ e2 ∷ e3 ∷ f0 ∷ f1 ∷ f2 ∷ f3 ∷ []) i
                      agree.4.unused (omega (arith, below))),
              λ i below.
                  untaken_color agree.0 (e0 ∷ e1 ∷ e2 ∷ e3 ∷ f0 ∷ f1 ∷ f2 ∷ f3 ∷ [])
                    (suc (suc (suc (suc i)))) agree.4.unused (omega (arith, below)),
            ),
          )))
