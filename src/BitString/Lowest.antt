-- ===== src/BitString/Lowest.antt =====
-- `__builtin_ctzll` finds the lowest digit that is set.
use cuckoo_trie_vectorized.Base.{
  ℕ, zero, suc, ◌/◌, ◌%◌, ◌^◌, ◌<◌, ◌≡◌, ◌≢◌, arith, ◌==◌, false, Bool-cases, inl, inr,
}
use native.Mathlib.Nat.{pow-suc}
use cuckoo_trie_vectorized.Bits.{bit}
use cuckoo_trie_vectorized.BitString.Defs.{count_trailing_zeros}

pub record IsLowest (w c : ℕ) : Type 0 where
  pub set : bit w c ≡ 1
  pub clear_below : (d : ℕ) → d < c → bit w d ≡ 0

pub count_trailing_zeros_lem :
    (width w : ℕ)
    → w ≢ 0
    → w < 2 ^ width
    → (count_trailing_zeros width w < width) × IsLowest w (count_trailing_zeros width w)
unfolding count_trailing_zeros
count_trailing_zeros_lem zero w ne below = absurd (ne (omega arith))
count_trailing_zeros_lem (suc width) w ne below = elim (Bool-cases (w % 2 == 1)) [
  | inl odd ↦
      rw odd (omega arith, record { set = ground arith; clear_below = λ d h. absurd (omega arith) })
  | inr even ↦
      let ih =
        count_trailing_zeros_lem width (w / 2) (λ z. ne (ground arith))
          (omega (arith, pow-suc 2 width)) in
      rw even (
        omega (arith, ih.0),
        record { set = ih.1.set; clear_below = below_it even ih.1.clear_below },
      )
]
  where
    below_it :
        {c : ℕ}
        → (w % 2 == 1) ≡ false
        → ((d : ℕ) → d < c → bit (w / 2) d ≡ 0)
        → (d : ℕ) → d < suc c
        → bit w d ≡ 0
    below_it even rest zero h = ground arith
    below_it even rest (suc d) h = rest d (omega arith)
