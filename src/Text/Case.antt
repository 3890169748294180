-- ===== src/Text/Case.antt =====
-- The changes of case.
use nodepp.Prelude.{
  ℕ, ◌≡◌, refl, ap₂, inl, inr, Bool, true, false, not, ◌&&◌, [], ◌∷◌, length, if◌then◌else◌,
  Bool-cases, arith,
}
use nodepp.Text.{Text, capital_loop, to_capital_case, to_lower_case, to_upper_case}
use nodepp.Text.Char.{is_alpha, to_lower, to_upper}

lower-upper : (c : ℕ) → to_lower (to_upper c) ≡ to_lower c
unfolding to_lower to_upper
lower-upper c = ground arith

upper-lower : (c : ℕ) → to_upper (to_lower c) ≡ to_upper c
unfolding to_lower to_upper
upper-lower c = ground arith

lower_twice : (c : ℕ) → to_lower (to_lower c) ≡ to_lower c
unfolding to_lower
lower_twice c = ground arith

upper_twice : (c : ℕ) → to_upper (to_upper c) ≡ to_upper c
unfolding to_upper
upper_twice c = ground arith

-- A letter stays a letter.
alpha-cases : (c : ℕ) → (is_alpha (to_upper c) ≡ is_alpha c) × (is_alpha (to_lower c) ≡ is_alpha c)
unfolding is_alpha to_lower to_upper
alpha-cases c = ground arith

-- The lower case of the upper case of a string is its lower case, the upper case of its lower case
-- is its upper case, and the upper case is as long as the string.
pub to_lower_case-to_upper_case :
    (xs : Text)
    → (to_lower_case (to_upper_case xs) ≡ to_lower_case xs)
      × (to_upper_case (to_lower_case xs) ≡ to_upper_case xs)
      × (length (to_upper_case xs) ≡ length xs)
unfolding to_lower_case to_upper_case
to_lower_case-to_upper_case [] = (refl, refl, refl)
to_lower_case-to_upper_case (x ∷ xs) =
    ground (arith, lower-upper x, upper-lower x, to_lower_case-to_upper_case xs)

capital_loop-lower : (b : Bool) (xs : Text) → to_lower_case (capital_loop b xs) ≡ to_lower_case xs
unfolding capital_loop to_lower_case
capital_loop-lower b [] = refl
capital_loop-lower b (x ∷ xs) = elim (Bool-cases (is_alpha x && b)) [
  | inl e ↦ rw e (ground (arith, lower-upper x, capital_loop-lower false xs))
  | inr e ↦
      rw e (
        ground (arith, lower_twice x, capital_loop-lower (if not (is_alpha x) then true else b) xs))
]

capital_loop_twice : (b : Bool) (xs : Text) → capital_loop b (capital_loop b xs) ≡ capital_loop b xs
unfolding capital_loop
capital_loop_twice b [] = refl
capital_loop_twice b (x ∷ xs) = elim (Bool-cases (is_alpha x && b)) [
  | inl e ↦ rw (e, (alpha-cases x).0, e) (ap₂ ◌∷◌ (upper_twice x) (capital_loop_twice false xs))
  | inr e ↦
      rw (e, (alpha-cases x).1, e)
        (ap₂ ◌∷◌ (lower_twice x) (capital_loop_twice (if not (is_alpha x) then true else b) xs))
]

-- to_capital_case changes the case of letters only, and applying it twice is applying it once.
pub to_capital_case_twice :
    (xs : Text)
    → (to_lower_case (to_capital_case xs) ≡ to_lower_case xs)
      × (to_capital_case (to_capital_case xs) ≡ to_capital_case xs)
unfolding to_capital_case
to_capital_case_twice xs = (capital_loop-lower true xs, capital_loop_twice true xs)
