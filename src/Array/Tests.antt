-- ===== src/Array/Tests.antt =====
-- Runs of the operations of arrays.
use mathlib.Core.List.{Perm}
use nodepp.Prelude.{
  ℕ, ◌≤◌, min, length, ◌≡◌, refl, Bool, not, List, [], ◌∷◌, ltb, ◌==◌, ==_iff, arith,
}
use nodepp.Array.{some_of, none_of, every}
use nodepp.Array.Find.{find, find_loop, Occurs, find-Occurs, some_of-none_of}
use nodepp.Array.Sort.{sort, Ordered, IsStrict, sort-perm, sort-Ordered}

abbrev sample : List ℕ
sample = 5 ∷ 3 ∷ 8 ∷ 3 ∷ []

abbrev small : ℕ → Bool
small x = ltb x 5

abbrev same : ℕ → ℕ → Bool
same a b = a == b

find-Occurs_example : Occurs sample (3 ∷ []) 3 4 × (min 2 (length sample) ≤ 3)
unfolding find find_loop
find-Occurs_example =
    find-Occurs same (λ a b e. (==_iff a b).0 e) sample (3 ∷ []) 2 (omega arith) refl

some_of-none_of_example :
    (none_of small sample ≡ not (some_of small sample))
    × (every small sample ≡ none_of (λ x. not (small x)) sample)
some_of-none_of_example = some_of-none_of small sample

sort-perm_example : Perm (sort ltb sample) sample
sort-perm_example = sort-perm ltb sample

ltb-IsStrict : IsStrict ltb
ltb-IsStrict = record { asym = λ x y h. ground arith; cotrans = λ x y z h p. ground arith }

sort-Ordered_example : Ordered ltb (sort ltb sample)
sort-Ordered_example = sort-Ordered ltb ltb-IsStrict sample
