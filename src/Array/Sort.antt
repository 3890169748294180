-- ===== src/Array/Sort.antt =====
-- `array_t::sort` (and `string_t::sort`): insertion into a queue from its back.
use mathlib.Core.List.{Perm, perm_middle, reverse_perm, reverse_aux}
use mathlib.Core.List.Perm
use nodepp.Prelude.{
  ◌≡◌, inl, inr, Bool, true, false, List, [], ◌∷◌, ◌++◌, reverse, if◌then◌else◌, Bool-cases, All,
  append-nil, subst,
}

module _ {A : Type 0} (func : A → A → Bool) where
  -- The queue is held with its last element first: `n` walks back while `func( x, n->data )`, and
  -- `x` goes behind the element where it stops.
  place : A → List A → List A
  place x [] = x ∷ []
  place x (y ∷ ys) = let behind = y ∷ place x ys in if func x y then behind else x ∷ y ∷ ys

  sort_loop : List A → List A → List A
  unfolding place
  sort_loop queue [] = queue
  sort_loop queue (x ∷ xs) = sort_loop (place x queue) xs

  pub sort : List A → List A
  unfolding sort_loop
  sort xs = reverse (sort_loop [] xs)

  place-perm : (x : A) (ys : List A) → Perm (place x ys) (x ∷ ys)
  unfolding place
  place-perm x [] = Perm.refl _
  place-perm x (y ∷ ys) = elim (Bool-cases (func x y)) [
    | inl e ↦ rw e (Perm.trans (Perm.cons y (place-perm x ys)) (Perm.swap x y ys))
    | inr e ↦ rw e (Perm.refl _)
  ]

  sort_loop-perm : (queue xs : List A) → Perm (sort_loop queue xs) (xs ++ queue)
  unfolding sort_loop
  sort_loop-perm queue [] = Perm.refl _
  sort_loop-perm queue (x ∷ xs) =
      Perm.trans (sort_loop-perm (place x queue) xs)
        (Perm.trans (Perm.append (Perm.refl xs) (place-perm x queue)) (perm_middle xs queue))

  -- With any comparison, the sorted array is a permutation of the array.
  pub sort-perm : (xs : List A) → Perm (sort xs) xs
  unfolding sort
  sort-perm xs =
      Perm.trans (reverse_perm (sort_loop [] xs))
        (subst (λ ys. Perm (sort_loop [] xs) ys) (append-nil xs) (sort_loop-perm [] xs))

-- No element comes before one that stands in front of it.
abbrev pub Ordered : {A : Type 0} → (A → A → Bool) → List A → Type 0
Ordered func [] = Unit
Ordered func (x ∷ xs) = All (λ y. func y x ≡ false) xs × Ordered func xs

-- `func` is a strict weak order: the comparisons that make sense for a sort.
pub record IsStrict {A : Type 0} (func : A → A → Bool) : Type 0 where
  pub asym : (x y : A) → func x y ≡ true → func y x ≡ false
  pub cotrans : (x y z : A) → func x y ≡ false → func y z ≡ false → func x z ≡ false

module _ {A : Type 0} (func : A → A → Bool) (o : IsStrict func) where
  abbrev Falling : List A → Type 0
  Falling [] = Unit
  Falling (x ∷ xs) = All (λ y. func x y ≡ false) xs × Falling xs

  All-cotrans :
      (x y : A) (ys : List A)
      → func x y ≡ false
      → All (λ z. func y z ≡ false) ys
      → All (λ z. func x z ≡ false) ys
  All-cotrans x y [] e h = tt
  All-cotrans x y (z ∷ zs) e (h, t) = (o.cotrans x y z e h, All-cotrans x y zs e t)

  All-place : (P : A → Type 0) (x : A) (ys : List A) → P x → All P ys → All P (place func x ys)
  unfolding place
  All-place P x [] p h = (p, tt)
  All-place P x (y ∷ ys) p (h, t) = elim (Bool-cases (func x y)) [
    | inl e ↦ rw e (h, All-place P x ys p t)
    | inr e ↦ rw e (p, (h, t))
  ]

  place-Falling : (x : A) (ys : List A) → Falling ys → Falling (place func x ys)
  unfolding place
  place-Falling x [] h = (tt, tt)
  place-Falling x (y ∷ ys) (h, t) = elim (Bool-cases (func x y)) [
    | inl e ↦ rw e (All-place (λ z. func y z ≡ false) x ys (o.asym x y e) h, place-Falling x ys t)
    | inr e ↦ rw e ((e, All-cotrans x y ys e h), (h, t))
  ]

  sort_loop-Falling : (queue xs : List A) → Falling queue → Falling (sort_loop func queue xs)
  unfolding sort_loop
  sort_loop-Falling queue [] h = h
  sort_loop-Falling queue (x ∷ xs) h =
      sort_loop-Falling (place func x queue) xs (place-Falling x queue h)

  -- Turned round, in front of a tail that nothing of it comes after.
  reverse-Ordered :
      (ys tail : List A)
      → Falling ys
      → Ordered func tail
      → All (λ y. All (λ z. func z y ≡ false) tail) ys
      → Ordered func (reverse_aux ys tail)
  reverse-Ordered [] tail h t a = t
  reverse-Ordered (y ∷ ys) tail (h, f) t (a, b) =
      reverse-Ordered ys (y ∷ tail) f (a, t) (both ys h b)
    where
      both :
          (ws : List A)
          → All (λ z. func y z ≡ false) ws
          → All (λ w. All (λ z. func z w ≡ false) tail) ws
          → All (λ w. All (λ z. func z w ≡ false) (y ∷ tail)) ws
      both [] p q = tt
      both (w ∷ ws) (p, ps) (q, qs) = ((p, q), both ws ps qs)

  -- With a comparison that is asymmetric and whose negation is transitive, no element of the
  -- sorted array compares before one that stands in front of it.
  pub sort-Ordered : (xs : List A) → Ordered func (sort func xs)
  unfolding sort
  sort-Ordered xs =
      reverse-Ordered (sort_loop func [] xs) [] (sort_loop-Falling [] xs tt) tt
        (none_behind (sort_loop func [] xs))
    where
      none_behind : (ws : List A) → All (λ w. All (λ z. func z w ≡ false) []) ws
      none_behind [] = tt
      none_behind (w ∷ ws) = (tt, none_behind ws)
