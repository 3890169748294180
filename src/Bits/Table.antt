-- ===== src/Bits/Table.antt =====
-- Facts about bytes, checked value by value.
use nodepp.Prelude.{ℕ, zero, suc, ◌<◌, ◌≡◌, Bool, true, ◌&&◌, arith}

-- Does `p` hold of every number below the bound?
unfoldable pub all_below : ℕ → (ℕ → Bool) → Bool
all_below zero p = true
all_below (suc n) p = p n && all_below n p

pub all_below-apply : (n : ℕ) (p : ℕ → Bool) (x : ℕ) → all_below n p ≡ true → x < n → p x ≡ true
unfolding all_below
all_below-apply zero p x h lt = absurd (omega arith)
all_below-apply (suc n) p x h lt = ground (arith, all_below-apply n p x)
