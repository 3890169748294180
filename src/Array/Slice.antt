-- ===== src/Array/Slice.antt =====
-- slice and its bounds.
use native.Mathlib.Decide.{dec_lt}
use nodepp.Prelude.{
  ℕ, suc, ◌-◌, ◌≤◌, ◌<◌, min, ◌≡◌, sym, List, [], length, take, drop, ltb, if◌then◌else◌, take-min,
  drop_past, length-drop, take_past, ◌⊎◌, inl, inr, arith,
}
use nodepp.Prelude.Int.{pos, negsuc}
use nodepp.Range.Bounds.{
  slice_range-some, slice_range-none, slice_range-negsuc, slice_range_negsuc_stop,
}
use nodepp.Array.{slice}

module _ {ℓ} {A : Type ℓ} where
  -- slice with two bounds that are not negative, in any order and in or out of range, gives the
  -- elements from the first bound up to the second.
  pub slice_lem : (xs : List A) (i j : ℕ) → slice xs (pos i) (pos j) ≡ take (j - i) (drop i xs)
  unfolding slice
  slice_lem xs i j = elim (dec_lt i (min j (length xs))) [
    | yes lt ↦
        let e : min j (length xs) - i ≡ min (j - i) (length (drop i xs)) =
          omega (arith, length-drop i xs) in
        rw (slice_range-some (length xs) i j lt, slice) (rw e (take-min (j - i) (drop i xs)))
    | no ge ↦
        rw (slice_range-none (length xs) i j (omega arith), slice)
          (sym (empty (j - i) (omega arith)))
  ]
    where
      empty : (n : ℕ) → (n ≡ 0) ⊎ (length xs ≤ i) → take n (drop i xs) ≡ []
      empty n (inl e) = rw e
      empty n (inr h) = rw (drop_past i xs h) (take_past n [] (omega arith))

  -- slice with a negative start, no further back than the size, and a positive stop gives the
  -- elements from the start, counted from the end of the array, up to the stop.
  pub slice_negative_start :
      (xs : List A) (k j : ℕ)
      → k < length xs
      → 0 < j
      → slice xs (negsuc k) (pos j) ≡ take (j - (length xs - suc k)) (drop (length xs - suc k) xs)
  unfolding slice
  slice_negative_start xs k j h p =
      rw (slice_range-negsuc (length xs) k j h p, slice) (slice_lem xs (length xs - suc k) j)

  -- slice with a start that is not negative and a negative stop gives the elements up to the stop,
  -- counted from the end of the array; a stop that is the start of the array or lies before it
  -- counts as the end of the array.
  pub slice_negative_stop :
      (xs : List A) (i k : ℕ)
      → slice xs (pos i) (negsuc k)
        ≡ take ((if ltb (suc k) (length xs) then length xs - suc k else length xs) - i) (drop i xs)
  unfolding slice
  slice_negative_stop xs i k =
      rw (slice_range_negsuc_stop (length xs) i k, slice)
        (slice_lem xs i (if ltb (suc k) (length xs) then length xs - suc k else length xs))
