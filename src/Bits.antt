-- ===== src/Bits.antt =====
-- Laws of `&`, `|` and `^` at every width: one equation for the lowest digit, the split of both
-- operands at any bit, the digits of a result, and bounds.
mod Step
pub mod Bytes
pub use Step.{Digitwise, bit_and_step, bit_or_step, bit_xor_step}
use Prim.Native.Nat.{min, max, differ, bit_and-bitwise, bit_or-bitwise}
use native.Mathlib.Nat.{pow-suc, one-le-pow, div-div-eq-div-mul}
use cuckoo_trie_vectorized.Base.{
  ℕ, zero, suc, ◌+◌, ◌-◌, ◌*◌, ◌/◌, ◌%◌, ◌^◌, ◌≤◌, ◌<◌, bit_and, bit_or, bit_xor, ◌≡◌, refl, ap,
  ◌∙◌, arith, low_mask,
}

pub shift_once : (n k : ℕ) → n * 2 ^ suc k ≡ n * 2 ^ k + n * 2 ^ k
shift_once n k = omega (arith, ap (λ (power : ℕ). n * power) (pow-suc 2 k))

-- The digit of `a` at place `c`.
abbrev pub bit : ℕ → ℕ → ℕ
bit a zero = a % 2
bit a (suc c) = bit (a / 2) c

-- An operation that works digit by digit.
module _ (op digit : ℕ → ℕ → ℕ) (step : Digitwise op digit) (zeros : op 0 0 ≡ 0)
    (small : (a b : ℕ) → a < 2 → b < 2 → digit a b < 2) where
  digitwise_split :
      (k a b c d : ℕ)
      → b < 2 ^ k
      → d < 2 ^ k
      → op (a * 2 ^ k + b) (c * 2 ^ k + d) ≡ op a c * 2 ^ k + op b d
  digitwise_split zero a zero c zero p q = ground (arith, zeros)
  digitwise_split zero a zero c (suc d) p q = absurd (omega arith)
  digitwise_split zero a (suc b) c d p q = absurd (omega arith)
  digitwise_split (suc k) a b c d p q = ground (
    arith,
    step (a * 2 ^ suc k + b) (c * 2 ^ suc k + d),
    step b d,
    shift_once a k,
    shift_once c k,
    shift_once (op a c) k,
    digitwise_split k a (b / 2) c (d / 2) (omega (arith, pow-suc 2 k)) (omega (arith, pow-suc 2 k)),
  )

  halves : (a b : ℕ) → op a b / 2 ≡ op (a / 2) (b / 2)
  halves a b = omega (arith, step a b, small (a % 2) (b % 2) (omega arith) (omega arith))

  digitwise_bit : (c a b : ℕ) → bit (op a b) c ≡ digit (bit a c) (bit b c)
  digitwise_bit zero a b =
      omega (arith, step a b, small (a % 2) (b % 2) (omega arith) (omega arith))
  digitwise_bit (suc c) a b = rw (halves a b) (digitwise_bit c (a / 2) (b / 2))

  digitwise_right_zero : ((a : ℕ) → a < 2 → digit a 0 ≡ a) → (n a : ℕ) → a ≤ n → op a 0 ≡ a
  digitwise_right_zero keeps n zero h = zeros
  digitwise_right_zero keeps zero (suc a) h = absurd (omega arith)
  digitwise_right_zero keeps (suc n) (suc a) h = omega (
    arith,
    step (suc a) 0,
    keeps (suc a % 2) (omega arith),
    digitwise_right_zero keeps n (suc a / 2) (omega arith),
  )

  digitwise_lt : (k a b : ℕ) → a < 2 ^ k → b < 2 ^ k → op a b < 2 ^ k
  digitwise_lt zero zero zero p q = rw zeros (omega arith)
  digitwise_lt zero zero (suc b) p q = absurd (omega arith)
  digitwise_lt zero (suc a) b p q = absurd (omega arith)
  digitwise_lt (suc k) a b p q = omega (
    arith,
    step a b,
    pow-suc 2 k,
    small (a % 2) (b % 2) (omega arith) (omega arith),
    digitwise_lt k (a / 2) (b / 2) (omega (arith, pow-suc 2 k)) (omega (arith, pow-suc 2 k)),
  )

min-small : (a b : ℕ) → a < 2 → b < 2 → min a b < 2
min-small a b p q = omega arith

max-small : (a b : ℕ) → a < 2 → b < 2 → max a b < 2
max-small a b p q = omega arith

differ-small : (a b : ℕ) → a < 2 → b < 2 → differ a b < 2
differ-small zero b p q = q
differ-small (suc zero) zero p q = omega arith
differ-small (suc zero) (suc b) p q = omega arith
differ-small (suc (suc a)) b p q = absurd (omega arith)

differ_twice : (a b : ℕ) → a < 2 → b < 2 → differ (differ a b) b ≡ a
differ_twice zero zero p q = refl
differ_twice zero (suc zero) p q = refl
differ_twice zero (suc (suc b)) p q = absurd (omega arith)
differ_twice (suc zero) zero p q = refl
differ_twice (suc zero) (suc zero) p q = refl
differ_twice (suc zero) (suc (suc b)) p q = absurd (omega arith)
differ_twice (suc (suc a)) b p q = absurd (omega arith)

pub bit_and_split :
    (k a b c d : ℕ)
    → b < 2 ^ k
    → d < 2 ^ k
    → bit_and (a * 2 ^ k + b) (c * 2 ^ k + d) ≡ bit_and a c * 2 ^ k + bit_and b d
bit_and_split = digitwise_split bit_and min bit_and_step refl min-small

pub bit_or_split :
    (k a b c d : ℕ)
    → b < 2 ^ k
    → d < 2 ^ k
    → bit_or (a * 2 ^ k + b) (c * 2 ^ k + d) ≡ bit_or a c * 2 ^ k + bit_or b d
bit_or_split = digitwise_split bit_or max bit_or_step refl max-small

pub bit_xor_split :
    (k a b c d : ℕ)
    → b < 2 ^ k
    → d < 2 ^ k
    → bit_xor (a * 2 ^ k + b) (c * 2 ^ k + d) ≡ bit_xor a c * 2 ^ k + bit_xor b d
bit_xor_split = digitwise_split bit_xor differ bit_xor_step refl differ-small

pub zero-bit_or : (b : ℕ) → bit_or 0 b ≡ b
zero-bit_or b = bit_or-bitwise 0 b

pub bit-bit_or : (c a b : ℕ) → bit (bit_or a b) c ≡ max (bit a c) (bit b c)
bit-bit_or = digitwise_bit bit_or max bit_or_step refl max-small

pub bit_or-lt : (k a b : ℕ) → a < 2 ^ k → b < 2 ^ k → bit_or a b < 2 ^ k
bit_or-lt = digitwise_lt bit_or max bit_or_step refl max-small

pub bit_xor-lt : (k a b : ℕ) → a < 2 ^ k → b < 2 ^ k → bit_xor a b < 2 ^ k
bit_xor-lt = digitwise_lt bit_xor differ bit_xor_step refl differ-small

bit_xor_twice_below : (n a b : ℕ) → a ≤ n → b ≤ n → bit_xor (bit_xor a b) b ≡ a
bit_xor_twice_below zero zero zero p q = refl
bit_xor_twice_below zero zero (suc b) p q = absurd (omega arith)
bit_xor_twice_below zero (suc a) b p q = absurd (omega arith)
bit_xor_twice_below (suc n) a b p q = ground (
  arith,
  bit_xor_step (bit_xor a b) b,
  halves bit_xor differ bit_xor_step refl differ-small a b,
  digitwise_bit bit_xor differ bit_xor_step refl differ-small 0 a b,
  differ_twice (a % 2) (b % 2),
  bit_xor_twice_below n (a / 2) (b / 2),
)

pub bit_xor_twice : (a b : ℕ) → bit_xor (bit_xor a b) b ≡ a
bit_xor_twice a b = bit_xor_twice_below (a + b) a b (omega arith) (omega arith)

pub bit_xor-zero : (a : ℕ) → bit_xor a 0 ≡ a
bit_xor-zero a =
    digitwise_right_zero bit_xor differ bit_xor_step refl differ-small keeps a a (omega arith)
  where
    keeps : (a : ℕ) → a < 2 → differ a 0 ≡ a
    keeps zero h = refl
    keeps (suc a) h = refl

pub bit_or-zero : (a : ℕ) → bit_or a 0 ≡ a
bit_or-zero a =
    digitwise_right_zero bit_or max bit_or_step refl max-small (λ a h. omega arith) a a
      (omega arith)

pub zero-bit_and : (b : ℕ) → bit_and 0 b ≡ 0
zero-bit_and b = bit_and-bitwise 0 b

bit_and-zero_below : (n a : ℕ) → a ≤ n → bit_and a 0 ≡ 0
bit_and-zero_below n zero h = zero-bit_and 0
bit_and-zero_below zero (suc a) h = absurd (omega arith)
bit_and-zero_below (suc n) (suc a) h =
    omega (arith, bit_and_step (suc a) 0, bit_and-zero_below n (suc a / 2) (omega arith))

pub bit_and-zero : (a : ℕ) → bit_and a 0 ≡ 0
bit_and-zero a = bit_and-zero_below a a (omega arith)

-- A mask of ones leaves a number that fits it alone, and keeps the low digits of any other.
ones_keep : (width low : ℕ) → low < 2 ^ width → bit_and low (low_mask width) ≡ low
ones_keep zero low fits = rw bit_and-zero (omega arith)
ones_keep (suc width) low fits = ground (
  arith,
  one-le-pow width 2,
  pow-suc 2 width,
  ones_keep width (low / 2),
  bit_and_step low (low_mask (suc width)),
)

pub bit_and-low_mask : (width x : ℕ) → bit_and x (low_mask width) ≡ x % 2 ^ width
bit_and-low_mask width x = ground (
  arith,
  ones_keep width (x % 2 ^ width),
  bit_and-zero (x / 2 ^ width),
  bit_and_split width (x / 2 ^ width) (x % 2 ^ width) 0 (low_mask width),
  one-le-pow width 2,
)

-- A mask above `k` zeros works on the digits above.
pub bit_and-shifted : (k a m : ℕ) → bit_and a (m * 2 ^ k) ≡ bit_and (a / 2 ^ k) m * 2 ^ k
bit_and-shifted k a m =
    ground
      (arith, one-le-pow k 2, bit_and_split k (a / 2 ^ k) (a % 2 ^ k) m 0, bit_and-zero (a % 2 ^ k))

-- `|` of a field and one below it is a sum.
pub bit_or_fields :
    (width high low : ℕ) → low < 2 ^ width → bit_or (high * 2 ^ width) low ≡ high * 2 ^ width + low
bit_or_fields width high low fits =
    ground (arith, bit_or_split width high 0 0 low, bit_or-zero high, zero-bit_or low)

differ_comm : (a b : ℕ) → differ a b ≡ differ b a
differ_comm zero zero = refl
differ_comm zero (suc b) = refl
differ_comm (suc a) zero = refl
differ_comm (suc a) (suc b) = differ_comm a b

bit_xor_comm_below : (n a b : ℕ) → a ≤ n → b ≤ n → bit_xor a b ≡ bit_xor b a
bit_xor_comm_below zero zero zero p q = refl
bit_xor_comm_below zero zero (suc b) p q = absurd (omega arith)
bit_xor_comm_below zero (suc a) b p q = absurd (omega arith)
bit_xor_comm_below (suc n) a b p q = omega (
  arith,
  bit_xor_step a b,
  bit_xor_step b a,
  differ_comm (a % 2) (b % 2),
  bit_xor_comm_below n (a / 2) (b / 2) (omega arith) (omega arith),
)

pub bit_xor_comm : (a b : ℕ) → bit_xor a b ≡ bit_xor b a
bit_xor_comm a b = bit_xor_comm_below (a + b) a b (omega arith) (omega arith)

pub bit_above : (k c a : ℕ) → bit a (k + c) ≡ bit (a / 2 ^ k) c
bit_above zero c a = ground arith
bit_above (suc k) c a = rw next (rw (← halved) (bit_above k c (a / 2)))
  where
    next : suc k + c ≡ suc (k + c)
    next = omega arith

    doubled : 2 * 2 ^ k ≡ 2 ^ suc k
    doubled = omega (arith, pow-suc 2 k)

    halved : a / 2 / 2 ^ k ≡ a / 2 ^ suc k
    halved = div-div-eq-div-mul a 2 (2 ^ k) ∙ ap (λ (p : ℕ). a / p) doubled

pub bit_below : (k c q r : ℕ) → c < k → bit (q * 2 ^ k + r) c ≡ bit r c
bit_below zero c q r h = absurd (omega arith)
bit_below (suc k) zero q r h = omega (arith, shift_once q k)
bit_below (suc k) (suc c) q r h =
    ap (λ (x : ℕ). bit x c) (omega (arith, shift_once q k)) ∙ bit_below k c q (r / 2) (omega arith)

pub bit-lt : (c a : ℕ) → bit a c < 2
bit-lt zero a = omega arith
bit-lt (suc c) a = bit-lt c (a / 2)

pub bit-bit_and : (c a b : ℕ) → bit (bit_and a b) c ≡ min (bit a c) (bit b c)
bit-bit_and = digitwise_bit bit_and min bit_and_step refl min-small

pub bit_and-lt : (k a b : ℕ) → a < 2 ^ k → b < 2 ^ k → bit_and a b < 2 ^ k
bit_and-lt = digitwise_lt bit_and min bit_and_step refl min-small

-- `|` with the higher field on the right.
pub bit_or_above :
    (width high low : ℕ) → low < 2 ^ width → bit_or low (high * 2 ^ width) ≡ high * 2 ^ width + low
bit_or_above width high low fits =
    ground (
      arith,
      one-le-pow width 2,
      bit_or_split width 0 low high 0,
      bit_or-zero low,
      zero-bit_or high,
    )

-- A mask cut at bit `k`.
pub bit_and_cut :
    (k x m n : ℕ)
    → n < 2 ^ k
    → bit_and x (m * 2 ^ k + n) ≡ bit_and (x / 2 ^ k) m * 2 ^ k + bit_and (x % 2 ^ k) n
bit_and_cut k x m n fits =
    ground (arith, one-le-pow k 2, bit_and_split k (x / 2 ^ k) (x % 2 ^ k) m n)
