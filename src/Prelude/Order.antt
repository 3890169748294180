-- ===== src/Prelude/Order.antt =====
-- Strong induction over the native numbers.
use native.Mathlib.Omega.{arith}
use Prim.Native.Nat.{ℕ, zero, suc, ◌<◌}

-- A property of `n` may be assumed of every smaller number while it is proved of `n`.
module _ {ℓ} (P : ℕ → Type ℓ) (step : (n : ℕ) → ((m : ℕ) → m < n → P m) → P n) where
  below : (b n : ℕ) → n < b → P n
  below zero n h = absurd (omega arith)
  below (suc b) n h = step n (λ m lt. below b m (omega arith))

  pub strong_induction : (n : ℕ) → P n
  strong_induction n = below (suc n) n (omega arith)
