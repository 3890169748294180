-- ===== src/Array/Edit.antt =====
-- insert, erase, splice and remove against list operations.
use native.Mathlib.Decide.{dec_lt}
use nodepp.Prelude.{
  ℕ, zero, suc, ◌+◌, ◌-◌, ◌≤◌, ◌<◌, ◌^◌, min, ◌≡◌, refl, sym, ◌∙◌, List, [], ◌∷◌, ◌++◌, length,
  take, drop, append-nil, take-min, take-append-drop, drop-drop, take_prefix, drop_prefix, drop-min,
  take_past, drop_past, length-take, length-drop, arith,
}
use nodepp.Prelude.Int.{pos}
use nodepp.Range.Bounds.{slice_range-some, slice_range-none, splice_range-some, splice_range-none}
use nodepp.Array.{insert, insert_array, erase, erase_range, splice, splice_with}

module _ {ℓ} {A : Type ℓ} where
  -- On every index: the value goes in front of the element at it, or at the end.
  pub insert_lem : (xs : List A) (i : ℕ) (v : A) → insert xs i v ≡ take i xs ++ v ∷ drop i xs
  unfolding insert
  insert_lem [] i v =
      rw (take_past {A = A} i [] (omega arith), drop_past {A = A} i [] (omega arith))
  insert_lem (x ∷ xs) i v = rw (take-min i (x ∷ xs), drop-min i (x ∷ xs))

  pub insert_array_lem :
      (xs : List A) (i : ℕ) (vs : List A) → insert_array xs i vs ≡ take i xs ++ (vs ++ drop i xs)
  unfolding insert_array
  insert_array_lem [] i vs =
      rw (take_past {A = A} i [] (omega arith), drop_past {A = A} i [] (omega arith))
        (sym (append-nil vs))
  insert_array_lem (x ∷ xs) i vs = rw (take-min i (x ∷ xs), drop-min i (x ∷ xs))

  pub erase_lem : (xs : List A) (i : ℕ) → erase xs i ≡ take i xs ++ drop (i + 1) xs
  unfolding erase
  erase_lem xs i = elim (dec_lt i (length xs)) [
    | yes h ↦ rw (slice_range-some (length xs) i (length xs) (omega arith), erase)
    | no h ↦
        rw (slice_range-none (length xs) i (length xs) (omega arith), erase)
          (rw (take_past i xs (omega arith), drop_past (i + 1) xs (omega arith))
            (sym (append-nil xs)))
  ]

  -- An element that is inserted at an index up to the size of the array is erased again by erasing
  -- at that index.
  pub erase-insert : (xs : List A) (i : ℕ) (v : A) → i ≤ length xs → erase (insert xs i v) i ≡ xs
  erase-insert xs i v h =
      let front : length (take i xs) ≡ i = omega (arith, length-take i xs) in
      let behind = drop_prefix (take i xs) (v ∷ drop i xs) front in
      erase_lem (insert xs i v) i
      ∙ rw
          (
            insert_lem xs i v,
            take_prefix (take i xs) (v ∷ drop i xs) front,
            ← drop-drop 1 i (take i xs ++ v ∷ drop i xs),
            behind,
          )
          (take-append-drop i xs)

  nothing : (xs : List A) (i j : ℕ) → i ≤ j → min j (length xs) ≤ i → xs ≡ take i xs ++ drop j xs
  nothing xs i j h p = elim (dec_lt i (length xs)) [
    | yes lt ↦ let e : j ≡ i = omega arith in rw e (sym (take-append-drop i xs))
    | no ge ↦ rw (take_past i xs (omega arith), drop_past j xs (omega arith)) (sym (append-nil xs))
  ]

  pub erase_range_lem :
      (xs : List A) (i j : ℕ) → i ≤ j → erase_range xs i j ≡ take i xs ++ drop j xs
  unfolding erase_range
  erase_range_lem xs i j h = elim (dec_lt i (min j (length xs))) [
    | yes lt ↦
        let stop : min j (length xs) - 1 + 1 ≡ min j (length xs) = omega arith in
        rw (slice_range-some (length xs) i j lt, erase_range) (rw (stop, drop-min j xs))
    | no ge ↦
        rw (slice_range-none (length xs) i j (omega arith), erase_range)
          (nothing xs i j h (omega arith))
  ]

  pair : {p q r s : List A} → p ≡ q → r ≡ s → ◌≡◌ {A = List A × List A} (p, r) (q, s)
  pair e f = λ i. (e i, f i)

  cut :
      (xs : List A) (i n : ℕ)
      → i < min (i + n) (length xs)
      → take (min (i + n) (length xs) - i) (drop i xs) ≡ take n (drop i xs)
  cut xs i n lt =
      let e : min (i + n) (length xs) - i ≡ min n (length (drop i xs)) =
        omega (arith, length-drop i xs) in
      rw e (take-min n (drop i xs))

  left :
      (xs : List A) (i n : ℕ)
      → i < min (i + n) (length xs)
      → erase_range xs i (i + (min (i + n) (length xs) - i)) ≡ take i xs ++ drop (i + n) xs
  left xs i n lt =
      let e : i + (min (i + n) (length xs) - i) ≡ min (i + n) (length xs) = omega arith in
      rw e (erase_range_lem xs i (min (i + n) (length xs)) (omega arith) ∙ rw (drop-min (i + n) xs))

  none_cut : (xs : List A) (i n : ℕ) → min (i + n) (length xs) ≤ i → take n (drop i xs) ≡ []
  none_cut xs i zero h = refl
  none_cut xs i (suc n) h = rw (drop_past i xs (omega arith))

  -- splice from any index, in or out of range, with a count that does not wrap in 64 bits, returns
  -- the elements from the index on, as many as the count says or as there are, and leaves the
  -- others.
  pub splice_lem :
      (xs : List A) (i n : ℕ)
      → i + n ≤ 2 ^ 64
      → splice xs (pos i) n ≡ (take n (drop i xs), take i xs ++ drop (i + n) xs)
  unfolding splice
  splice_lem xs i n h = elim (dec_lt i (min (i + n) (length xs))) [
    | yes lt ↦
        rw (splice_range-some (length xs) i n h (omega arith) (omega arith), splice)
          (pair (cut xs i n lt) (left xs i n lt))
    | no ge ↦
        rw (splice_range-none (length xs) i n h (omega arith), splice)
          (pair (sym (none_cut xs i n (omega arith)))
            (nothing xs i (i + n) (omega arith) (omega arith)))
  ]

  -- splice at an index of the array, with a count above 0 that does not wrap in 64 bits, returns
  -- the elements from the index on, as many as the count says or as there are, and leaves the
  -- given values in their place.
  pub splice_with_lem :
      (xs : List A) (i n : ℕ) (values : List A)
      → i + n ≤ 2 ^ 64
      → i < length xs
      → 0 < n
      → splice_with xs (pos i) n values
        ≡ (take n (drop i xs), take i xs ++ (values ++ drop (i + n) xs))
  unfolding splice_with
  splice_with_lem xs i n values h p q =
      let lt : i < min (i + n) (length xs) = omega arith in
      let front : length (take i xs) ≡ i = omega (arith, length-take i xs) in
      rw (splice_range-some (length xs) i n h p q, splice_with)
        (pair (cut xs i n lt) (
          rw (
            left xs i n lt,
            insert_array_lem (take i xs ++ drop (i + n) xs) i values,
            take_prefix (take i xs) (drop (i + n) xs) front,
            drop_prefix (take i xs) (drop (i + n) xs) front,
          )))
