-- ===== src/Iterators/Left.antt =====
-- The bitmap from which a path can be left for a smaller key.
use cuckoo_trie_vectorized.Base.{
  ℕ, zero, suc, ◌<◌, ◌≤◌, ◌≡◌, ◌⊎◌, refl, sym, subst, arith, true, false, ◌==◌, ==_iff, if_rule,
  List, Option, none, some, inl, inr, ℕ_discrete,
}
use cuckoo_trie_vectorized.Config.{type_bitmap}
use cuckoo_trie_vectorized.Entry.{Entry, entry_type}
use cuckoo_trie_vectorized.Entry.Bytes.{IsEntry}
use cuckoo_trie_vectorized.BitString.{get_bit, byte_at}
use cuckoo_trie_vectorized.BitString.Ranges.{LastBit, last_bit_before-LastBit}
use cuckoo_trie_vectorized.Fingers.{PathEntry, child_bitmap}
use cuckoo_trie_vectorized.Iterators.Predecessors.{
  path_slot, bitmap_child_before, ascend_left, find_left_descend,
}

-- A path of stored entries.
pub record IsPath (path : List PathEntry) : Type 0 where
  pub stored : (i : ℕ) → IsEntry (path_slot path i).entry.value
  pub symbols : (i : ℕ) → (path_slot path i).entry.value.last_symbol ≤ 32

abbrev pub node : List PathEntry → ℕ → Entry
node path i = (path_slot path i).entry.value

abbrev pub IsBitmapAt : List PathEntry → ℕ → Type 0
IsBitmapAt path i = entry_type (node path i) ≡ type_bitmap

-- No child of the node before the symbol.
abbrev pub HasNoneBefore : List PathEntry → ℕ → ℕ → Type 0
HasNoneBefore path i symbol = (s : ℕ) → s < symbol → get_bit (child_bitmap (node path i)) s ≡ false

-- The last child of the node before the symbol.
abbrev pub IsLastBefore : List PathEntry → ℕ → ℕ → ℕ → Type 0
IsLastBefore path i symbol s =
    (s < symbol)
    × (get_bit (child_bitmap (node path i)) s ≡ true)
    × ((j : ℕ) → s < j → j < symbol → get_bit (child_bitmap (node path i)) j ≡ false)

-- The symbol of the path below a node.
abbrev pub symbol_below : List PathEntry → ℕ → ℕ
symbol_below path i = (node path (suc i)).last_symbol

module _ (path : List PathEntry) where
  -- The lowest bitmap above position `n` with a child left of the path.
  abbrev IsLeftAbove : ℕ → Option (ℕ × ℕ) → Type 0
  IsLeftAbove n none =
      (i : ℕ) → i < n → IsBitmapAt path i → HasNoneBefore path i (symbol_below path i)
  IsLeftAbove n (some (i, s)) =
      (i < n)
      × IsBitmapAt path i
      × IsLastBefore path i (symbol_below path i) s
      × ((k : ℕ) → i < k → k < n → IsBitmapAt path k → HasNoneBefore path k (symbol_below path k))

  -- What `find_left_descend` must return: the same from position `n` on, where the path goes on by
  -- a given symbol.
  abbrev pub IsLeft : ℕ → ℕ → Option (ℕ × ℕ) → Type 0
  IsLeft n symbol none =
      HasNoneBefore path n symbol
      × ((i : ℕ) → i < n → IsBitmapAt path i → HasNoneBefore path i (symbol_below path i))
  IsLeft n symbol (some (i, s)) =
      ((i ≡ n) × IsLastBefore path n symbol s)
      ⊎ (HasNoneBefore path n symbol
          × (i < n)
          × IsBitmapAt path i
          × IsLastBefore path i (symbol_below path i) s
          × ((k : ℕ)
              → i < k
              → k < n
              → IsBitmapAt path k
              → HasNoneBefore path k (symbol_below path k)))

  module _ (h : IsPath path) where
    bytes : {e : Entry} → IsEntry e → (k : ℕ) → byte_at (child_bitmap e) k < 256
    bytes stored zero = stored.body_fits.fits0
    bytes stored (suc zero) = stored.body_fits.fits1
    bytes stored (suc (suc zero)) = stored.body_fits.fits2
    bytes stored (suc (suc (suc zero))) = stored.body_fits.fits3
    bytes stored (suc (suc (suc (suc zero)))) = stored.body_fits.fits4
    bytes stored (suc (suc (suc (suc (suc k))))) = omega arith

    child_before :
        (i symbol : ℕ)
        → symbol < 64
        → LastBit (child_bitmap (node path i)) symbol (bitmap_child_before (node path i) symbol)
    unfolding bitmap_child_before
    child_before i symbol fits =
        last_bit_before-LastBit (child_bitmap (node path i)) symbol (bytes (h.stored i)) fits

    -- One node higher, past one that has nothing to the left.
    pass :
        (n : ℕ) (r : Option (ℕ × ℕ))
        → (IsBitmapAt path n → HasNoneBefore path n (symbol_below path n))
        → IsLeftAbove n r
        → IsLeftAbove (suc n) r
    pass n none nothing above = λ i below. elim (ℕ_discrete i n) [
      | yes same ↦
          subst (λ (x : ℕ). IsBitmapAt path x → HasNoneBefore path x (symbol_below path x))
            (sym same) nothing
      | no other ↦ above i (omega (arith, below, other))
    ]
    pass n (some (i, s)) nothing (below, bitmap, last, between) = (
      omega (arith, below),
      bitmap,
      last,
      λ k after below'. elim (ℕ_discrete k n) [
        | yes same ↦
            subst (λ (x : ℕ). IsBitmapAt path x → HasNoneBefore path x (symbol_below path x))
              (sym same) nothing
        | no other ↦ between k after (omega (arith, below', other))
      ],
    )

    here_or_above :
        (n : ℕ) (r : Option ℕ) (rest : Option (ℕ × ℕ))
        → IsBitmapAt path n
        → LastBit (child_bitmap (node path n)) (symbol_below path n) r
        → IsLeftAbove n rest
        → IsLeftAbove (suc n) (elim r [ none ↦ rest | some s ↦ some (n, s) ])
    here_or_above n none rest bitmap last above = pass n rest (λ b. last) above
    here_or_above n (some s) rest bitmap last above =
        (omega arith, bitmap, last, λ k after below. absurd (omega (arith, after, below)))

    ascend-IsLeftAbove : (n : ℕ) → IsLeftAbove n (ascend_left path n)
    unfolding ascend_left
    ascend-IsLeftAbove zero = λ i below. absurd (omega (arith, below))
    ascend-IsLeftAbove (suc n) =
        if_rule (λ (r : Option (ℕ × ℕ)). IsLeftAbove (suc n) r)
          (entry_type (node path n) == type_bitmap)
          (elim (bitmap_child_before (node path n) (symbol_below path n)) [
            | none ↦ ascend_left path n
            | some s ↦ some (n, s)
          ])
          (ascend_left path n)
          (λ e.
            here_or_above n (bitmap_child_before (node path n) (symbol_below path n))
              (ascend_left path n) ((==_iff (entry_type (node path n)) type_bitmap).0 e)
              (child_before n (symbol_below path n) (omega (arith, h.symbols (suc n))))
              (ascend-IsLeftAbove n))
          (λ e.
            pass n (ascend_left path n) (λ bitmap. absurd (ground (arith, e, bitmap)))
              (ascend-IsLeftAbove n))

    higher :
        (n symbol : ℕ) (r : Option (ℕ × ℕ))
        → HasNoneBefore path n symbol
        → IsLeftAbove n r
        → IsLeft n symbol r
    higher n symbol none nothing above = (nothing, above)
    higher n symbol (some (i, s)) nothing (below, bitmap, last, between) =
        inr (nothing, below, bitmap, last, between)

    first_or_above :
        (n symbol : ℕ) (r : Option ℕ)
        → LastBit (child_bitmap (node path n)) symbol r
        → IsLeft n symbol (elim r [ some s ↦ some (n, s) | none ↦ ascend_left path n ])
    first_or_above n symbol none last =
        higher n symbol (ascend_left path n) last (ascend-IsLeftAbove n)
    first_or_above n symbol (some s) last = inl (refl, last)

-- On a path of stored entries, find_left_descend always returns: the last child before the given
-- symbol of the node at the given position; if it has none, the lowest bitmap above it with a child
-- left of the path, and the last such child; and NULL exactly if neither this node nor any bitmap
-- above it has a child left of the path.
pub find_left_descend-IsLeft :
    (path : List PathEntry) (path_pos symbol : ℕ)
    → IsPath path
    → symbol ≤ 33
    → IsLeft path path_pos symbol (find_left_descend path path_pos symbol)
unfolding find_left_descend
find_left_descend-IsLeft path path_pos symbol h fits =
    first_or_above path h path_pos symbol (bitmap_child_before (node path path_pos) symbol)
      (child_before path h path_pos symbol (omega (arith, fits)))
