-- ===== src/Bits/Step.antt =====
-- The three operations by their lowest digit, from the digit recursion that they stand for.
use Prim.Native.Nat.{digits, bitwise, differ, bit_and-bitwise, bit_or-bitwise, bit_xor-bitwise}
use nodepp.Prelude.{
  ℕ, zero, suc, ◌+◌, ◌*◌, ◌/◌, ◌%◌, ◌≤◌, ◌<◌, min, max, bit_and, bit_or, bit_xor, ◌≡◌, refl, arith,
}

-- More fuel than the first number does not change a digit recursion.
module _ (base : ℕ → ℕ) (digit : ℕ → ℕ → ℕ) where
  digits_enough : (n m x y : ℕ) → x ≤ n → x ≤ m → digits base digit n x y ≡ digits base digit m x y
  digits_enough zero zero x y h g = refl
  digits_enough zero (suc m) zero y h g = refl
  digits_enough (suc n) zero zero y h g = refl
  digits_enough (suc n) (suc m) zero y h g = refl
  digits_enough zero (suc m) (suc x) y h g = absurd (omega arith)
  digits_enough (suc n) zero (suc x) y h g = absurd (omega arith)
  digits_enough (suc n) (suc m) (suc x) y h g =
      rw (digits_enough n m (suc x / 2) (y / 2) (omega arith) (omega arith))

  bitwise_step :
      (x y : ℕ)
      → bitwise base digit (suc x) y
        ≡ bitwise base digit (suc x / 2) (y / 2) * 2 + digit (suc x % 2) (y % 2)
  bitwise_step x y =
      rw (digits_enough x (suc x / 2) (suc x / 2) (y / 2) (omega arith) (omega arith))

-- The lowest digit of `x` against that of `y`, and the rest of each.
pub bit_and_step : (x y : ℕ) → bit_and x y ≡ bit_and (x / 2) (y / 2) * 2 + min (x % 2) (y % 2)
bit_and_step zero y = simp bit_and-bitwise (omega arith)
bit_and_step (suc x) y = simp bit_and-bitwise (bitwise_step (λ _. 0) min x y)

pub bit_or_step : (x y : ℕ) → bit_or x y ≡ bit_or (x / 2) (y / 2) * 2 + max (x % 2) (y % 2)
bit_or_step zero y = simp bit_or-bitwise (omega arith)
bit_or_step (suc x) y = simp bit_or-bitwise (bitwise_step (λ d. d) max x y)

differ_bits : (x y : ℕ) → x < 2 → y < 2 → differ x y ≡ (x + y) % 2
differ_bits zero y p q = omega arith
differ_bits (suc zero) zero p q = refl
differ_bits (suc zero) (suc zero) p q = refl
differ_bits (suc zero) (suc (suc y)) p q = absurd (omega arith)
differ_bits (suc (suc x)) y p q = absurd (omega arith)

xor_digits : (a b : ℕ) → bit_xor a b ≡ bit_xor (a / 2) (b / 2) * 2 + differ (a % 2) (b % 2)
xor_digits zero b = simp bit_xor-bitwise (omega arith)
xor_digits (suc a) b = simp bit_xor-bitwise (bitwise_step (λ d. d) differ a b)

pub bit_xor_step : (a b : ℕ) → bit_xor a b ≡ bit_xor (a / 2) (b / 2) * 2 + (a + b) % 2
bit_xor_step a b =
    omega (arith, xor_digits a b, differ_bits (a % 2) (b % 2) (omega arith) (omega arith))
