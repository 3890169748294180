-- ===== src/Text/Affix.antt =====
-- `starts_with` and `ends_with`, and the bytes of the pattern they compare.
use nodepp.Prelude.{
  ℕ, ◌+◌, ◌-◌, ◌≤◌, ◌≡◌, ◌↔◌, sym, Bool, true, false, [], ◌∷◌, ◌++◌, Option, none, some, length,
  take, drop, ltb, ◌==◌, if◌then◌else◌, length-append, take_prefix, arith,
}
use nodepp.Text.{Text, same, starts_with, ends_with}

pub same_iff : (xs ys : Text) → (same xs ys ≡ true) ↔ (xs ≡ ys)
unfolding same
same_iff [] [] = ground arith
same_iff [] (y ∷ ys) = ground arith
same_iff (x ∷ xs) [] = ground arith
same_iff (x ∷ xs) (y ∷ ys) = ground (arith, same_iff xs ys)

-- The two tests in front of the comparison, for a pattern of `m + 1` bytes.
guarded :
    (m l : ℕ) (b : Bool)
    → ◌↔◌
        (◌≡◌ {A = Option Bool}
          (if ltb l (m + 1) then some false else if m + 1 == 0 then none else some b)
          (some true))
        ((m + 1 ≤ l) × (b ≡ true))
guarded m l b = ground arith

and_iff : {P Q R S : Type 0} → P ↔ (Q × R) → R ↔ S → P ↔ (Q × S)
and_iff f g = ((λ p. ((f.0 p).0, g.0 (f.0 p).1)), λ qs. f.1 (qs.0, g.1 qs.1))

length_pattern : (front : Text) (c : ℕ) → length (front ++ c ∷ []) ≡ length front + 1
length_pattern front c = omega (arith, length-append front (c ∷ []))

compared : (front : Text) (c : ℕ) → take (length front + 1 - 1) (front ++ c ∷ []) ≡ front
compared front c = take_prefix front (c ∷ []) (omega arith)

-- The bytes that are compared, where the pattern would stand in `place`.
same_front :
    (front place : Text) (c : ℕ)
    → (same (take (length front + 1 - 1) (front ++ c ∷ [])) (take (length front + 1 - 1) place)
        ≡ true)
      ↔ (take (length front) place ≡ front)
same_front front place c =
    let e : length front + 1 - 1 ≡ length front = omega arith in
    rw (compared front c, e)
      (
        (λ h. sym ((same_iff front (take (length front) place)).0 h)),
        λ h. (same_iff front (take (length front) place)).1 (sym h),
      )

-- starts_with holds of a pattern with a last byte c exactly if the string is at least as long as
-- the pattern and begins with the pattern less c.
pub starts_with_iff :
    (xs front : Text) (c : ℕ)
    → (starts_with xs (front ++ c ∷ []) ≡ some true)
      ↔ ((length front + 1 ≤ length xs) × (take (length front) xs ≡ front))
unfolding starts_with
starts_with_iff xs front c =
    rw (length_pattern front c, starts_with)
      (and_iff (guarded (length front) (length xs) _) (same_front front xs c))

-- ends_with holds of a pattern with a last byte c exactly if the string is at least as long as the
-- pattern and has the pattern less c where the pattern would stand at its end.
pub ends_with_iff :
    (xs front : Text) (c : ℕ)
    → (ends_with xs (front ++ c ∷ []) ≡ some true) ↔ (
        (length front + 1 ≤ length xs)
        × (take (length front) (drop (length xs - (length front + 1)) xs) ≡ front))
unfolding ends_with
ends_with_iff xs front c =
    rw (length_pattern front c, ends_with)
      (and_iff (guarded (length front) (length xs) _)
        (same_front front (drop (length xs - (length front + 1)) xs) c))
