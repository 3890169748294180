-- ===== src/Prelude/Lists.antt =====
-- Lists measured and indexed by native numbers, under the library's names.
use Prim.Native.Nat.{ℕ, zero, suc, ◌+◌, ◌-◌, ◌<◌, ◌≤◌, min}
use native.Mathlib.Nat.{zero-min, min-zero, suc-min-suc, zero-add, suc-add}
use mathlib.Core.Path.{◌≡◌, refl, ap, sym, ◌∙◌}
use mathlib.Core.Logic.{◌≢◌}
use mathlib.Core.List.{List, [], ◌∷◌, ◌++◌, map}
use mathlib.Core.Option.{Option, none, some}
use native.Mathlib.Omega.{arith}

module _ {ℓ} {A : Type ℓ} where
  abbrev pub length : List A → ℕ
  length [] = 0
  length (x ∷ xs) = suc (length xs)

  abbrev pub get_elem? : List A → ℕ → Option A
  get_elem? [] i = none
  get_elem? (x ∷ xs) zero = some x
  get_elem? (x ∷ xs) (suc i) = get_elem? xs i

  -- A write out of bounds changes nothing.
  abbrev pub set : List A → ℕ → A → List A
  set [] i v = []
  set (x ∷ xs) zero v = v ∷ xs
  set (x ∷ xs) (suc i) v = x ∷ set xs i v

  pub length-append : (xs ys : List A) → length (xs ++ ys) ≡ length xs + length ys
  length-append [] ys = omega arith
  length-append (x ∷ xs) ys = omega (arith, length-append xs ys)

module _ {ℓ} {A : Type ℓ} where
  pub length-set : (xs : List A) (i : ℕ) (v : A) → length (set xs i v) ≡ length xs
  length-set [] i v = refl
  length-set (x ∷ xs) zero v = refl
  length-set (x ∷ xs) (suc i) v = ap suc (length-set xs i v)

  pub get_elem?-set_self :
      (xs : List A) (i : ℕ) (v : A) → i < length xs → get_elem? (set xs i v) i ≡ some v
  get_elem?-set_self [] i v h = elim h [ ]
  get_elem?-set_self (x ∷ xs) zero v h = refl
  get_elem?-set_self (x ∷ xs) (suc i) v h = get_elem?-set_self xs i v (omega arith)

  pub get_elem?-set_ne :
      (xs : List A) {i j : ℕ} (v : A) → i ≢ j → get_elem? (set xs i v) j ≡ get_elem? xs j
  get_elem?-set_ne [] v h = refl
  get_elem?-set_ne (x ∷ xs) {i = zero} {j = zero} v h = absurd (h refl)
  get_elem?-set_ne (x ∷ xs) {i = zero} {j = suc j} v h = refl
  get_elem?-set_ne (x ∷ xs) {i = suc i} {j = zero} v h = refl
  get_elem?-set_ne (x ∷ xs) {i = suc i} {j = suc j} v h = get_elem?-set_ne xs v (λ e. h (ap suc e))

module _ {ℓ} {A : Type ℓ} where
  abbrev pub get_or : List A → ℕ → A → A
  get_or [] i d = d
  get_or (x ∷ xs) zero d = x
  get_or (x ∷ xs) (suc i) d = get_or xs i d

  abbrev pub take : ℕ → List A → List A
  take zero xs = []
  take (suc n) [] = []
  take (suc n) (x ∷ xs) = x ∷ take n xs

  abbrev pub drop : ℕ → List A → List A
  drop zero xs = xs
  drop (suc n) [] = []
  drop (suc n) (x ∷ xs) = drop n xs

  abbrev pub replicate : ℕ → A → List A
  replicate zero a = []
  replicate (suc n) a = a ∷ replicate n a

  pub take-append-drop : (n : ℕ) (xs : List A) → take n xs ++ drop n xs ≡ xs
  take-append-drop zero xs = refl
  take-append-drop (suc n) [] = refl
  take-append-drop (suc n) (x ∷ xs) = rw (take-append-drop n xs)

  pub length-take : (n : ℕ) (xs : List A) → length (take n xs) ≡ min n (length xs)
  length-take zero xs = omega arith
  length-take (suc n) [] = omega arith
  length-take (suc n) (x ∷ xs) = omega (arith, length-take n xs)

  pub length-drop : (n : ℕ) (xs : List A) → length (drop n xs) ≡ length xs - n
  length-drop zero xs = omega arith
  length-drop (suc n) [] = omega arith
  length-drop (suc n) (x ∷ xs) = omega (arith, length-drop n xs)

  pub length-replicate : (n : ℕ) (a : A) → length (replicate n a) ≡ n
  length-replicate zero a = refl
  length-replicate (suc n) a = ap suc (length-replicate n a)

  pub length-map {κ} : {B : Type κ} (xs : List A) (f : A → B) → length (map f xs) ≡ length xs
  length-map [] f = refl
  length-map (x ∷ xs) f = ap suc (length-map xs f)

-- A predicate of every element, by recursion, so that it computes at a list that is known.
abbrev pub All {ℓ κ} : {A : Type ℓ} → (A → Type κ) → List A → Type κ
All P [] = Unit
All P (x ∷ xs) = P x × All P xs

module _ {ℓ} {A : Type ℓ} where
  pub take_past : (n : ℕ) (xs : List A) → length xs ≤ n → take n xs ≡ xs
  take_past zero [] h = refl
  take_past zero (x ∷ xs) h = absurd (omega arith)
  take_past (suc n) [] h = refl
  take_past (suc n) (x ∷ xs) h = rw (take_past n xs (omega arith))

  pub drop_past : (n : ℕ) (xs : List A) → length xs ≤ n → drop n xs ≡ []
  drop_past zero [] h = refl
  drop_past zero (x ∷ xs) h = absurd (omega arith)
  drop_past (suc n) [] h = refl
  drop_past (suc n) (x ∷ xs) h = drop_past n xs (omega arith)

  -- A cut further on than the end is a cut at the end.
  pub take-min : (n : ℕ) (xs : List A) → take (min n (length xs)) xs ≡ take n xs
  take-min zero xs = rw (zero-min (length xs))
  take-min (suc n) [] = rw (min-zero (suc n))
  take-min (suc n) (x ∷ xs) = rw (suc-min-suc n (length xs)) (ap (◌∷◌ x) (take-min n xs))

  pub drop-min : (n : ℕ) (xs : List A) → drop (min n (length xs)) xs ≡ drop n xs
  drop-min zero xs = rw (zero-min (length xs))
  drop-min (suc n) [] = rw (min-zero (suc n))
  drop-min (suc n) (x ∷ xs) = rw (suc-min-suc n (length xs)) (drop-min n xs)

  pub take-take : (m n : ℕ) (xs : List A) → take m (take n xs) ≡ take (min m n) xs
  take-take zero n xs = rw (zero-min n)
  take-take (suc m) zero xs = rw (min-zero (suc m))
  take-take (suc m) (suc n) [] = rw (suc-min-suc m n)
  take-take (suc m) (suc n) (x ∷ xs) = rw (suc-min-suc m n) (ap (◌∷◌ x) (take-take m n xs))

  pub drop-drop : (m n : ℕ) (xs : List A) → drop m (drop n xs) ≡ drop (n + m) xs
  drop-drop m zero xs = rw (zero-add m)
  drop-drop m (suc n) [] =
      drop_past m [] (omega arith) ∙ sym (drop_past (suc n + m) [] (omega arith))
  drop-drop m (suc n) (x ∷ xs) = rw (suc-add n m) (drop-drop m n xs)

  pub take-append_length : (xs ys : List A) → take (length xs) (xs ++ ys) ≡ xs
  take-append_length [] ys = refl
  take-append_length (x ∷ xs) ys = rw (take-append_length xs ys)

  pub drop-append_length : (xs ys : List A) → drop (length xs) (xs ++ ys) ≡ ys
  drop-append_length [] ys = refl
  drop-append_length (x ∷ xs) ys = drop-append_length xs ys

  pub take_prefix : {n : ℕ} (xs ys : List A) → length xs ≡ n → take n (xs ++ ys) ≡ xs
  take_prefix xs ys e = rw (← e) (take-append_length xs ys)

  pub drop_prefix : {n : ℕ} (xs ys : List A) → length xs ≡ n → drop n (xs ++ ys) ≡ ys
  drop_prefix xs ys e = rw (← e) (drop-append_length xs ys)
