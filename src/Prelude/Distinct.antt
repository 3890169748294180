-- ===== src/Prelude/Distinct.antt =====
-- Lists of numbers in which no number stands twice.
use nodepp.Prelude.{ℕ, ◌<◌, ◌≢◌, All, List, [], ◌∷◌, ◌++◌, arith}

-- No number stands in the list twice.
abbrev pub Distinct : List ℕ → Type 0
Distinct [] = Unit
Distinct (a ∷ as_) = All (λ b. a ≢ b) as_ × Distinct as_

-- A predicate of every element, with one more at the end, and of weaker consequences.
pub All-last : (P : ℕ → Type 0) (xs : List ℕ) (a : ℕ) → All P xs → P a → All P (xs ++ a ∷ [])
All-last P [] a h p = (p, tt)
All-last P (x ∷ xs) a h p = (h.0, All-last P xs a (h.1) p)

pub All-mono : (P Q : ℕ → Type 0) → ((a : ℕ) → P a → Q a) → (xs : List ℕ) → All P xs → All Q xs
All-mono P Q f [] h = tt
All-mono P Q f (x ∷ xs) h = (f x (h.0), All-mono P Q f xs (h.1))

pub Distinct-last :
    (xs : List ℕ) (a : ℕ) → All (λ b. b < a) xs → Distinct xs → Distinct (xs ++ a ∷ [])
Distinct-last [] a h d = (tt, tt)
Distinct-last (x ∷ xs) a h d =
    (All-last (λ b. x ≢ b) xs a (d.0) (lt_ne x a (h.0)), Distinct-last xs a (h.1) (d.1))
  where
    lt_ne : (x a : ℕ) → x < a → x ≢ a
    lt_ne x a l = omega arith
