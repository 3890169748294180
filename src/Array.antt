-- ===== src/Array.antt =====
-- include/nodepp/array.h: `array_t`. An array is the list of its elements; a handle shares its
-- buffer with its copies, but every operation here that changes the size puts a new buffer in
-- place, so it is a function to the new list. Sizes are below 2 ^ 63.
pub mod Edit
pub mod Slice
pub mod Remove
pub mod Find
pub mod Sort
pub mod Tests
use nodepp.Prelude.{
  ℕ, zero, suc, ◌+◌, ◌-◌, min, Bool, true, false, not, ◌&&◌, ◌||◌, Option, none, some, List, [],
  ◌∷◌, ◌++◌, reverse, length, take, drop, replicate, get_or, ltb, leb, ◌==◌, if◌then◌else◌,
}
use nodepp.Prelude.Int.{ℤ, pos, negsuc}
use nodepp.Range.{Range, slice_range, splice_range}

module _ {ℓ} {A : Type ℓ} where
  abbrev pub is_empty : List A → Bool
  is_empty [] = true
  is_empty (x ∷ xs) = false

  abbrev pub size : List A → ℕ
  size = length

  abbrev pub last : List A → ℕ
  last xs = if is_empty xs then 0 else length xs - 1

  abbrev pub get_slice_range : List A → ℤ → ℤ → Option Range
  get_slice_range xs = slice_range (length xs)

  abbrev pub get_splice_range : List A → ℤ → ℕ → Option Range
  get_splice_range xs = splice_range (length xs)

  -- `type::copy` of the elements from `first` on, `count` of them.
  abbrev pub piece : List A → Range → List A
  piece xs r = take r.count (drop r.first xs)

  pub insert : List A → ℕ → A → List A
  insert xs index value =
      let i = min index (length xs) in
      if is_empty xs then value ∷ [] else take i xs ++ value ∷ drop i xs

  pub insert_fill : List A → ℕ → ℕ → A → List A
  insert_fill xs index n value =
      let i = min index (length xs) in
      if is_empty xs then replicate n value else take i xs ++ (replicate n value ++ drop i xs)

  unfoldable pub insert_array : List A → ℕ → List A → List A
  insert_array xs index values =
      let i = min index (length xs) in
      if is_empty xs then values else take i xs ++ (values ++ drop i xs)

  unfoldable pub erase : List A → ℕ → List A
  erase xs index = elim (get_slice_range xs (pos index) (pos (length xs))) [
    | none ↦ xs
    | some r ↦ take r.first xs ++ drop (r.first + 1) xs
  ]

  unfoldable pub erase_range : List A → ℕ → ℕ → List A
  erase_range xs start stop = elim (get_slice_range xs (pos start) (pos stop)) [
    | none ↦ xs
    | some r ↦ take r.first xs ++ drop (r.last + 1) xs
  ]

  unfoldable pub unshift : List A → A → List A
  unfolding insert
  unshift xs value = insert xs 0 value

  unfoldable pub push : List A → A → List A
  unfolding insert
  push xs value = insert xs (length xs) value

  unfoldable pub shift : List A → List A
  unfolding erase slice_range
  shift xs = erase xs 0

  unfoldable pub pop : List A → List A
  unfolding erase slice_range
  pop xs = erase xs (last xs)

  unfoldable pub slice : List A → ℤ → ℤ → List A
  slice xs start stop = elim (get_slice_range xs start stop) [ none ↦ [] | some r ↦ piece xs r ]

  unfoldable pub slice_from : List A → ℤ → List A
  unfolding slice
  slice_from xs start = slice xs start (pos (length xs))

  -- What is cut out, and what is left.
  unfoldable pub splice : List A → ℤ → ℕ → List A × List A
  unfolding erase_range
  splice xs start stop = elim (get_splice_range xs start stop) [
    | none ↦ ([], xs)
    | some r ↦ (piece xs r, erase_range xs r.first (r.first + r.count))
  ]

  unfoldable pub splice_with : List A → ℤ → ℕ → List A → List A × List A
  unfolding erase_range insert_array
  splice_with xs start stop values = elim (get_splice_range xs start stop) [
    | none ↦ ([], xs)
    | some r ↦
        (piece xs r, insert_array (erase_range xs r.first (r.first + r.count)) r.first values)
  ]

  -- `operator+` and `operator+=`.
  pub append : List A → List A → List A
  append xs ys = if is_empty xs then ys else if is_empty ys then xs else xs ++ ys

  -- `n` falls from the size to 0, and each element that `f` holds of is erased at its index.
  pub remove_loop : (A → Bool) → A → ℕ → List A → List A
  unfolding erase slice_range
  remove_loop f d zero xs = xs
  remove_loop f d (suc n) xs = remove_loop f d n (if f (get_or xs n d) then erase xs n else xs)

  -- `d` stands for what `operator[]` gives out of range; no index of the loop is.
  pub remove : (A → Bool) → A → List A → List A
  unfolding remove_loop
  remove f d xs = remove_loop f d (length xs) xs

  pub index_of_loop : (A → Bool) → ℕ → List A → ℤ
  index_of_loop f out [] = negsuc 0
  index_of_loop f out (x ∷ xs) =
      let rest = index_of_loop f (out + 1) xs in if f x then pos out else rest

  pub index_of : (A → Bool) → List A → ℤ
  unfolding index_of_loop
  index_of f xs = index_of_loop f 0 xs

  pub some_of : (A → Bool) → List A → Bool
  some_of f [] = false
  some_of f (x ∷ xs) = let rest = some_of f xs in if f x then true else rest

  pub none_of : (A → Bool) → List A → Bool
  none_of f [] = true
  none_of f (x ∷ xs) = let rest = none_of f xs in if f x then false else rest

  pub every : (A → Bool) → List A → Bool
  every f [] = true
  every f (x ∷ xs) = let rest = every f xs in if not (f x) then false else rest

  pub replace : (A → Bool) → A → List A → List A
  replace f target [] = []
  replace f target (x ∷ xs) = (if f x then target else x) ∷ replace f target xs

  -- `copy_reverse` writes from the last element on.
  copy_reverse : List A → List A → List A
  copy_reverse written [] = written
  copy_reverse written (x ∷ xs) = copy_reverse (x ∷ written) xs

  pub reverse_copy : List A → List A
  unfolding copy_reverse
  reverse_copy xs = copy_reverse [] xs
