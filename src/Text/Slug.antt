-- ===== src/Text/Slug.antt =====
-- `to_slugify`, and the bytes it keeps.
use nodepp.Prelude.{
  ℕ, suc, ◌+◌, ◌≤◌, ◌≡◌, ◌≢◌, refl, ap, ◌∙◌, true, [], ◌∷◌, ◌++◌, length, All, if◌then◌else◌,
  length-take, length-append, take_past, arith,
}
use nodepp.Text.{Text, slug_bytes, slug_size, to_slugify, to_lower_case}
use nodepp.Text.Char.{is_alnum, to_lower}

-- How many letters and digits a string has.
pub alnum_count : Text → ℕ
alnum_count [] = 0
alnum_count (x ∷ xs) = (if is_alnum x then 1 else 0) + alnum_count xs

slug_size-count : (z : ℕ) (xs : Text) → slug_size z xs ≡ z + alnum_count xs
unfolding slug_size alnum_count
slug_size-count z [] = omega arith
slug_size-count z (x ∷ xs) = ground (arith, slug_size-count z xs, slug_size-count (z + 1) xs)

length-slug_bytes : (xs : Text) → length (slug_bytes xs) ≡ length xs
unfolding slug_bytes
length-slug_bytes [] = refl
length-slug_bytes (x ∷ xs) = ap suc (length-slug_bytes xs)

alnum_count-le : (xs : Text) → alnum_count xs ≤ length xs
unfolding alnum_count
alnum_count-le [] = omega arith
alnum_count-le (x ∷ xs) = ground (arith, alnum_count-le xs)

-- The slug of a nonempty string has one byte more than the string has letters and digits.
pub length-to_slugify : (xs : Text) → xs ≢ [] → length (to_slugify xs) ≡ alnum_count xs + 1
unfolding to_slugify
length-to_slugify [] ne = absurd (ne refl)
length-to_slugify (x ∷ xs) ne = omega (
  arith,
  length-take (slug_size 1 (x ∷ xs)) (slug_bytes (x ∷ xs) ++ 0 ∷ []),
  length-append (slug_bytes (x ∷ xs)) (0 ∷ []),
  length-slug_bytes (x ∷ xs),
  slug_size-count 1 (x ∷ xs),
  alnum_count-le (x ∷ xs),
)

slug_bytes_alnum :
    (xs : Text)
    → All (λ c. is_alnum c ≡ true) xs
    → (slug_bytes xs ≡ to_lower_case xs) × (alnum_count xs ≡ length xs)
unfolding slug_bytes alnum_count to_lower_case
slug_bytes_alnum [] h = (refl, refl)
slug_bytes_alnum (x ∷ xs) (h, t) =
    rw h (let (e, n) = slug_bytes_alnum xs t in (ap (◌∷◌ (to_lower x)) e, omega arith))

-- The slug of a nonempty string of letters and digits is its lower case followed by a NUL.
pub to_slugify_alnum :
    (xs : Text)
    → xs ≢ []
    → All (λ c. is_alnum c ≡ true) xs
    → to_slugify xs ≡ to_lower_case xs ++ 0 ∷ []
unfolding to_slugify
to_slugify_alnum [] ne h = absurd (ne refl)
to_slugify_alnum (x ∷ xs) ne h =
    let (e, n) = slug_bytes_alnum (x ∷ xs) h in
    take_past (slug_size 1 (x ∷ xs)) (slug_bytes (x ∷ xs) ++ 0 ∷ []) (
      omega (
        arith,
        length-append (slug_bytes (x ∷ xs)) (0 ∷ []),
        length-slug_bytes (x ∷ xs),
        slug_size-count 1 (x ∷ xs),
      ))
    ∙ ap (λ (z : Text). z ++ 0 ∷ []) e
