-- ===== src/Text/Tests.antt =====
-- Runs of the operations of strings.
use nodepp.Prelude.{◌-◌, ◌≡◌, ◌↔◌, [], ◌∷◌, length, ltb, ◌==◌, if◌then◌else◌, arith}
use nodepp.Prelude.Int.{ℤ, pos, negsuc}
use nodepp.Text.{Text}
use nodepp.Text.Compare.{Memcmp}

-- `aB-9`
abbrev sample : Text
sample = 97 ∷ 66 ∷ 45 ∷ 57 ∷ []

abbrev letters : Text
letters = 97 ∷ 66 ∷ []

-- A `memcmp` that gives the difference of the first two bytes that differ.
difference : Text → Text → ℤ
difference [] ys = pos 0
difference (x ∷ xs) [] = pos 0
difference (x ∷ xs) (y ∷ ys) =
    let rest = difference xs ys in
    if x == y then rest else if ltb x y then negsuc (y - x - 1) else pos (x - y)

difference_iff : (xs ys : Text) → length xs ≡ length ys → (difference xs ys ≡ pos 0) ↔ (xs ≡ ys)
unfolding difference
difference_iff [] [] e = ground arith
difference_iff [] (y ∷ ys) e = absurd (omega arith)
difference_iff (x ∷ xs) [] e = absurd (omega arith)
difference_iff (x ∷ xs) (y ∷ ys) e = ground (arith, difference_iff xs ys (omega arith))

abbrev memory : Memcmp
memory = record { sign_of = difference; zero_iff = difference_iff }
