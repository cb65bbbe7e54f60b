-- ===== src/Hash/Injective.antt =====
-- The hash of a prefix determines the prefix one symbol shorter: no two children share a hash, and
-- no two parents share a child's.
use cuckoo_trie_vectorized.Base.{
  ℕ, ◌+◌, ◌*◌, ◌/◌, ◌%◌, ◌≤◌, ◌<◌, bit_xor, ◌≡◌, arith, sym, ap, ◌∙◌, dec_lt,
}
use mathlib.Core.Path.{ap₂}
use cuckoo_trie_vectorized.Bits.{bit_xor_twice, bit_xor_comm}
use cuckoo_trie_vectorized.Trie.{Trie}
use cuckoo_trie_vectorized.Hash.Defs.{accumulate_hash}
use cuckoo_trie_vectorized.Hash.Geometry.{IsGeometry}
use cuckoo_trie_vectorized.Hash.Bounds.{column-lt, accumulate_hash_lem}

product_le : (a c w : ℕ) → c < a → c * w + w ≤ a * w
product_le a c w h = grind arith

row_le : (a b c d w : ℕ) → d < w → a * w + b ≡ c * w + d → a ≤ c
row_le a b c d w h e = elim (dec_lt c a) [
  | yes p ↦ absurd (omega (arith, product_le a c w p))
  | no p ↦ omega arith
]

row_and_column_unique : (a b c d w : ℕ) → b < w → d < w → a * w + b ≡ c * w + d → (a ≡ c) × (b ≡ d)
row_and_column_unique a b c d w p q e = (same, omega (arith, ap (λ (r : ℕ). r * w) same))
  where
    same : a ≡ c
    same = omega (arith, row_le a b c d w q e, row_le c d a b w p (sym e))

-- In a table with blocks of hashes, two hashes of children that agree come from the same parent if
-- the symbols agree, and by the same symbol if the parents agree: a hash and a symbol determine the
-- hash of the parent, which is why entries need not store it.
pub accumulate_hash_injective :
    (t : Trie) (x y a b : ℕ)
    → IsGeometry t
    → x < t.num_pairs
    → y < t.num_pairs
    → a ≤ 32
    → b ≤ 32
    → accumulate_hash t x a ≡ accumulate_hash t y b
    → (a ≡ b → x ≡ y) × (x ≡ y → a ≡ b)
accumulate_hash_injective t x y a b g xs ys sa sb e = (
  λ same. sym (bit_xor_twice x a) ∙ ap₂ bit_xor mixed same ∙ bit_xor_twice y b,
  λ same.
      sym (bit_xor_twice a x)
      ∙ ap₂ bit_xor (bit_xor_comm a x ∙ mixed ∙ bit_xor_comm y b) same
      ∙ bit_xor_twice b y,
)
  where
    parts : (bit_xor x a % 32 ≡ bit_xor y b % 32) × (bit_xor x a / 32 ≡ bit_xor y b / 32)
    parts =
        row_and_column_unique (bit_xor x a % 32) (bit_xor x a / 32) (bit_xor y b % 32)
          (bit_xor y b / 32) t.num_shuffle_blocks (column-lt t g x a xs sa)
          (column-lt t g y b ys sb)
          (sym (accumulate_hash_lem t g x a xs sa) ∙ e ∙ accumulate_hash_lem t g y b ys sb)

    mixed : bit_xor x a ≡ bit_xor y b
    mixed = omega (arith, parts)
