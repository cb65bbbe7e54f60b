-- ===== src/Colors/Marks.antt =====
-- Which colours a list of cells uses, as digits of a word.
use Prim.Native.Nat.{max}
use native.Mathlib.Nat.{pow-suc}
use cuckoo_trie_vectorized.Base.{
  ℕ, zero, suc, ◌+◌, ◌-◌, ◌/◌, ◌^◌, ◌≤◌, ◌<◌, ◌≡◌, refl, ap, ◌∙◌, arith, List, [], ◌∷◌, ◌==◌, ltb,
  if◌then◌else◌, length, ℕ_discrete,
}
use cuckoo_trie_vectorized.Bits.{bit}
use cuckoo_trie_vectorized.Entry.{Entry, entry_color}

-- 1 if the cell has the colour.
abbrev pub mark : ℕ → Entry → ℕ
mark c e = if entry_color e == c then 1 else 0

abbrev pub taken : ℕ → List Entry → ℕ
taken c [] = 0
taken c (e ∷ cells) = max (mark c e) (taken c cells)

pub bit-zero : (c : ℕ) → bit 0 c ≡ 0
bit-zero zero = refl
bit-zero (suc c) = bit-zero c

-- The digit of a power of two.
pub bit-pow : (k c : ℕ) → bit (2 ^ k) c ≡ (if k == c then 1 else 0)
bit-pow zero zero = refl
bit-pow zero (suc c) = ground (arith, bit-zero c)
bit-pow (suc k) zero = ground (arith, pow-suc 2 k)
bit-pow (suc k) (suc c) =
    let half : 2 ^ suc k / 2 ≡ 2 ^ k = omega (arith, pow-suc 2 k) in
    rw half (ground (arith, bit-pow k c))

-- The digits of `~x`.
pub bit-not : (width x c : ℕ) → x < 2 ^ width → c < width → bit (2 ^ width - 1 - x) c ≡ 1 - bit x c
bit-not zero x c fits below = absurd (omega arith)
bit-not (suc width) x zero fits below = omega (arith, pow-suc 2 width)
bit-not (suc width) x (suc c) fits below =
    ap (λ (w : ℕ). bit w c) (omega (arith, pow-suc 2 width, fits))
    ∙ bit-not width (x / 2) c (omega (arith, pow-suc 2 width)) (omega arith)

sum_below : ℕ → (ℕ → ℕ) → ℕ
sum_below zero f = 0
sum_below (suc n) f = f n + sum_below n f

sum_below-mark : (n k : ℕ) → sum_below n (λ c. if k == c then 1 else 0) ≡ (if ltb k n then 1 else 0)
unfolding sum_below
sum_below-mark zero k = ground arith
sum_below-mark (suc n) k = ground (arith, sum_below-mark n k)

sum_below-max :
    (n : ℕ) (f g : ℕ → ℕ) → sum_below n (λ c. max (f c) (g c)) ≤ sum_below n f + sum_below n g
unfolding sum_below
sum_below-max zero f g = omega arith
sum_below-max (suc n) f g = omega (arith, sum_below-max n f g)

sum_below-zero : (n : ℕ) → sum_below n (λ c. 0) ≡ 0
unfolding sum_below
sum_below-zero zero = refl
sum_below-zero (suc n) = omega (arith, sum_below-zero n)

-- So many cells use no more colours than there are cells.
sum_below-taken : (n : ℕ) (cells : List Entry) → sum_below n (λ c. taken c cells) ≤ length cells
sum_below-taken n [] = omega (arith, sum_below-zero n)
sum_below-taken n (e ∷ cells) = ground (
  arith,
  sum_below-max n (λ c. mark c e) (λ c. taken c cells),
  sum_below-mark n (entry_color e),
  sum_below-taken n cells,
)

free_below : (n : ℕ) (f : ℕ → ℕ) → sum_below n f < n → (c : ℕ) × (c < n) × (f c ≡ 0)
unfolding sum_below
free_below zero f few = absurd (omega arith)
free_below (suc n) f few = elim (ℕ_discrete (f n) 0) [
  | yes free ↦ (n, omega arith, free)
  | no used ↦ let (c, below, free) = free_below n f (omega (arith, used)) in (c, omega arith, free)
]

-- With more colours than cells, one is free.
pub some_color_free :
    (n : ℕ) (cells : List Entry) → length cells < n → (c : ℕ) × (c < n) × (taken c cells ≡ 0)
some_color_free n cells few =
    free_below n (λ c. taken c cells) (omega (arith, sum_below-taken n cells))
