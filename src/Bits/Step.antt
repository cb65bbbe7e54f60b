-- ===== src/Bits/Step.antt =====
-- The native operations stand for a recursion on binary digits that is given fuel. Any fuel that
-- covers the first operand gives the same digits, so one equation describes the lowest digit.
use Prim.Native.Nat.{min, max, differ, digits, bit_and-bitwise, bit_or-bitwise, bit_xor-bitwise}
use cuckoo_trie_vectorized.Base.{
  ℕ, zero, suc, ◌+◌, ◌*◌, ◌/◌, ◌%◌, ◌<◌, bit_and, bit_or, bit_xor, ◌≡◌, refl, arith,
}

-- `op` makes each digit of its result from the two digits at that place.
abbrev pub Digitwise : (ℕ → ℕ → ℕ) → (ℕ → ℕ → ℕ) → Type 0
Digitwise op digit = (x y : ℕ) → op x y ≡ digit (x % 2) (y % 2) + 2 * op (x / 2) (y / 2)

module _ (rest : ℕ → ℕ) (digit : ℕ → ℕ → ℕ) where
  -- Without a digit left the fuel is not touched.
  at_zero : (x b : ℕ) → digits rest digit x 0 b ≡ rest b
  at_zero zero b = refl
  at_zero (suc x) b = refl

  -- Two amounts of fuel that both cover `a` agree.
  agree : (m n a b : ℕ) → a < suc n → a < suc m → digits rest digit m a b ≡ digits rest digit n a b
  agree m n zero b in_n in_m = ground (arith, at_zero n b, at_zero m b)
  agree zero n (suc a) b in_n in_m = absurd (omega arith)
  agree (suc m) zero (suc a) b in_n in_m = absurd (omega arith)
  agree (suc m) (suc n) (suc a) b in_n in_m =
      omega (arith, agree m n (suc a / 2) (b / 2) (omega arith) (omega arith))

  lowest_digit :
      (a b : ℕ)
      → digits rest digit (suc a) (suc a) b
        ≡ digit (suc a % 2) (b % 2) + 2 * digits rest digit (suc a / 2) (suc a / 2) (b / 2)
  lowest_digit a b =
      omega (arith, agree a (suc a / 2) (suc a / 2) (b / 2) (omega arith) (omega arith))

pub bit_and_step : Digitwise bit_and min
bit_and_step zero y = simp bit_and-bitwise (omega arith)
bit_and_step (suc x) y = simp bit_and-bitwise (lowest_digit (λ _. 0) min x y)

pub bit_or_step : Digitwise bit_or max
bit_or_step zero y = simp bit_or-bitwise (omega arith)
bit_or_step (suc x) y = simp bit_or-bitwise (lowest_digit (λ z. z) max x y)

pub bit_xor_step : Digitwise bit_xor differ
bit_xor_step zero y = simp bit_xor-bitwise (omega arith)
bit_xor_step (suc x) y = simp bit_xor-bitwise (lowest_digit (λ z. z) differ x y)
