-- ===== src/Regex/Weight.antt =====
-- The fuel that a match needs: on a value of `n - 2` bytes an item needs `n` for a round at each
-- offset, and the fuel of what it holds.
use nodepp.Prelude.{ℕ, suc, ◌+◌}
use nodepp.Regex.{Regex, node, Items, nil, cons}

unfoldable mutual
  pub weight : ℕ → Regex → ℕ
  weight n (node flag byte next rep) = suc (suc (n + weight_items n next))

  pub weight_items : ℕ → Items → ℕ
  weight_items n nil = 1
  weight_items n (cons x xs) = suc (weight n x + weight_items n xs)
