-- ===== src/Bits/Bytes.antt =====
-- The masks of the entry header on one byte, as arithmetic; each is checked at all 256 bytes.
use cuckoo_trie_vectorized.Base.{
  ℕ, zero, suc, ◌+◌, ◌-◌, ◌*◌, ◌/◌, ◌%◌, ◌<◌, bit_and, bit_or, bit_xor, ◌≡◌, refl, arith, Bool,
  true, ◌&&◌, ◌==◌,
}

holds_below : ℕ → (ℕ → ℕ) → (ℕ → ℕ) → Bool
holds_below zero f g = true
holds_below (suc n) f g = (f n == g n) && holds_below n f g

holds_below_sound : (n : ℕ) (f g : ℕ → ℕ) (x : ℕ) → holds_below n f g ≡ true → x < n → f x ≡ g x
unfolding holds_below
holds_below_sound zero f g x h lt = absurd (omega arith)
holds_below_sound (suc n) f g x h lt = ground (arith, holds_below_sound n f g x)

module _ (f g : ℕ → ℕ) (table : holds_below 256 f g ≡ true) (x : ℕ) (fits : x < 256) where
  by_table : f x ≡ g x
  by_table = holds_below_sound 256 f g x table fits

pub or_dirty : (x : ℕ) → x < 256 → bit_or x 8 ≡ x / 16 * 16 + 8 + x % 8
unfolding holds_below
or_dirty = by_table (λ x. bit_or x 8) (λ x. x / 16 * 16 + 8 + x % 8) refl

pub and_not_dirty : (x : ℕ) → x < 256 → bit_and x 0xf7 ≡ x / 16 * 16 + x % 8
unfolding holds_below
and_not_dirty = by_table (λ x. bit_and x 0xf7) (λ x. x / 16 * 16 + x % 8) refl

pub and_dirty : (x : ℕ) → x < 256 → bit_and x 8 ≡ x / 8 % 2 * 8
unfolding holds_below
and_dirty = by_table (λ x. bit_and x 8) (λ x. x / 8 % 2 * 8) refl

pub and_secondary : (x : ℕ) → x < 256 → bit_and x 4 ≡ x / 4 % 2 * 4
unfolding holds_below
and_secondary = by_table (λ x. bit_and x 4) (λ x. x / 4 % 2 * 4) refl

pub or_secondary : (x : ℕ) → x < 256 → bit_or x 4 ≡ x / 8 * 8 + 4 + x % 4
unfolding holds_below
or_secondary = by_table (λ x. bit_or x 4) (λ x. x / 8 * 8 + 4 + x % 4) refl

pub and_not_secondary : (x : ℕ) → x < 256 → bit_and x 0xfb ≡ x / 8 * 8 + x % 4
unfolding holds_below
and_not_secondary = by_table (λ x. bit_and x 0xfb) (λ x. x / 8 * 8 + x % 4) refl

pub xor_secondary : (x : ℕ) → x < 256 → bit_xor x 4 ≡ x / 8 * 8 + (1 - x / 4 % 2) * 4 + x % 4
unfolding holds_below
xor_secondary = by_table (λ x. bit_xor x 4) (λ x. x / 8 * 8 + (1 - x / 4 % 2) * 4 + x % 4) refl

pub and_not_type : (x : ℕ) → x < 256 → bit_and x 0xfc ≡ x / 4 * 4
unfolding holds_below
and_not_type = by_table (λ x. bit_and x 0xfc) (λ x. x / 4 * 4) refl

pub and_not_jump_size : (x : ℕ) → x < 256 → bit_and x 0xf0 ≡ x / 16 * 16
unfolding holds_below
and_not_jump_size = by_table (λ x. bit_and x 0xf0) (λ x. x / 16 * 16) refl
