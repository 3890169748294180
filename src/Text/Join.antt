-- ===== src/Text/Join.antt =====
-- `array_t::join` of strings (include/nodepp/array.h), and `string::split` and `string::split_view`
-- (include/nodepp/iterator.h).
use nodepp.Prelude.{ℕ, zero, suc, none, some, List, [], ◌∷◌, ◌++◌, length, drop}
use nodepp.Prelude.Int.{pos}
use nodepp.Text.{Text, slice, slice_from, find}

-- The strings with `c` between them.
abbrev pub join : Text → List Text → Text
join c [] = []
join c (p ∷ []) = p
join c (p ∷ q ∷ ps) = p ++ (c ++ join c (q ∷ ps))

-- `split( _str, size )`: each round takes at least one byte off, if `size` is not 0.
unfoldable pub split_size : ℕ → Text → ℕ → List Text
split_size zero xs size = []
split_size (suc rounds) [] size = []
split_size (suc rounds) (x ∷ xs) size =
    slice (x ∷ xs) (pos 0) (pos size) ∷ split_size rounds (drop size (x ∷ xs)) size

unfoldable pub split_loop : ℕ → Text → Text → ℕ → List Text
split_loop zero xs pattern offset = slice_from xs (pos offset) ∷ []
split_loop (suc rounds) xs pattern offset = elim (find xs pattern offset) [
  | none ↦ slice_from xs (pos offset) ∷ []
  | some (first, last) ↦ slice xs (pos offset) (pos first) ∷ split_loop rounds xs pattern last
]

-- `split( _str, pattern )`. A match is not empty and ends behind the one before, so that the size is
-- enough rounds.
unfoldable pub split : Text → Text → List Text
unfolding split_loop
split xs pattern = split_loop (length xs) xs pattern 0
