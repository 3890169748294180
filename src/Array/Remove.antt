-- ===== src/Array/Remove.antt =====
-- `array_t::remove` against a filter.
use native.Mathlib.Numerals.{add-one}
use nodepp.Prelude.{
  ℕ, zero, suc, ◌+◌, ◌≤◌, ◌<◌, ◌≡◌, refl, ap, ◌∙◌, inl, inr, Bool, List, [], ◌∷◌, ◌++◌, length,
  take, drop, get_or, append_assoc, append-nil, if◌then◌else◌, Bool-cases, length-take,
  length-append, take_past, drop_past, take_prefix, drop_prefix, arith,
}
use nodepp.Array.{remove, remove_loop}
use nodepp.Array.Edit.{erase_lem}

module _ {ℓ} {A : Type ℓ} (f : A → Bool) (d : A) where
  -- The elements that `f` does not hold of, in order.
  pub kept : List A → List A
  kept [] = []
  kept (x ∷ xs) = if f x then kept xs else x ∷ kept xs

  kept-append : (xs ys : List A) → kept (xs ++ ys) ≡ kept xs ++ kept ys
  unfolding kept
  kept-append [] ys = refl
  kept-append (x ∷ xs) ys = elim (Bool-cases (f x)) [
    | inl e ↦ rw e (kept-append xs ys)
    | inr e ↦ rw e (ap (◌∷◌ x) (kept-append xs ys))
  ]

  drop-suc : (n : ℕ) (xs : List A) → n < length xs → drop n xs ≡ get_or xs n d ∷ drop (suc n) xs
  drop-suc n [] h = absurd (omega arith)
  drop-suc zero (x ∷ xs) h = refl
  drop-suc (suc n) (x ∷ xs) h = drop-suc n xs (omega arith)

  take-suc :
      (n : ℕ) (xs : List A) → n < length xs → take (suc n) xs ≡ take n xs ++ get_or xs n d ∷ []
  take-suc n [] h = absurd (omega arith)
  take-suc zero (x ∷ xs) h = refl
  take-suc (suc n) (x ∷ xs) h = ap (◌∷◌ x) (take-suc n xs (omega arith))

  remove_loop-kept :
      (n : ℕ) (xs : List A) → n ≤ length xs → remove_loop f d n xs ≡ kept (take n xs) ++ drop n xs
  unfolding remove_loop kept
  remove_loop-kept zero xs h = refl
  remove_loop-kept (suc n) xs h =
      let front : length (take n xs) ≡ n = omega (arith, length-take n xs) in
      let x = get_or xs n d in
      let before = kept-append (take n xs) (x ∷ []) in
      elim (Bool-cases (f x)) [
        | inl e ↦
            let back = drop (n + 1) xs in
            rw (e, erase_lem xs n)
              (remove_loop-kept n (take n xs ++ back)
                  (omega (arith, length-append (take n xs) back))
                ∙ rw
                    (
                      take_prefix (take n xs) back front,
                      drop_prefix (take n xs) back front,
                      take-suc n xs h,
                      before,
                    )
                    (rw (e, append-nil (kept (take n xs)), add-one n) refl))
        | inr e ↦ rw e (
            remove_loop-kept n xs (omega arith)
            ∙ rw (take-suc n xs h, before, drop-suc n xs h)
                (rw (e, append_assoc (kept (take n xs)) (x ∷ []) (drop (suc n) xs))))
      ]

  -- remove leaves, in their order, the elements that the function does not hold of, whatever the
  -- reading out of range would give.
  pub remove-kept : (xs : List A) → remove f d xs ≡ kept xs
  unfolding remove
  remove-kept xs =
      remove_loop-kept (length xs) xs (omega arith)
      ∙ rw (take_past (length xs) xs (omega arith), drop_past (length xs) xs (omega arith))
          (append-nil (kept xs))
