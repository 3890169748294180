-- ===== src/Text/Compare.antt =====
-- `string_t::compare` and the operators on it. The C library's `memcmp` fixes only the sign of its
-- result, so it is a parameter with what its description says.
use nodepp.Prelude.{
  ℕ, suc, ◌≡◌, ◌↔◌, ap, Bool, true, false, not, length, ltb, if◌then◌else◌, ◌==◌, arith,
}
use nodepp.Prelude.Int.{ℤ, pos, negsuc, ltb_ℤ}
use nodepp.Text.{Text}

-- `memcmp` on two blocks of the same length: zero on equal blocks only.
pub record Memcmp : Type 0 where
  pub sign_of : Text → Text → ℤ
  pub zero_iff : (xs ys : Text) → length xs ≡ length ys → (sign_of xs ys ≡ pos 0) ↔ (xs ≡ ys)

abbrev is_zero : ℤ → Bool
is_zero (pos n) = n == 0
is_zero (negsuc n) = false

module _ (m : Memcmp) where
  pub compare : Text → Text → ℤ
  compare xs ys =
      if ltb (length xs) (length ys)
      then negsuc 0
      else if ltb (length ys) (length xs)
      then pos 1
      else m.sign_of xs ys

  -- `compare( oth ) == 0`
  pub equal : Text → Text → Bool
  unfolding compare
  equal xs ys = is_zero (compare xs ys)

  abbrev is_minus_one : ℤ → Bool
  is_minus_one (pos n) = false
  is_minus_one (negsuc n) = n == 0

  -- `compare( oth ) == -1`
  pub less : Text → Text → Bool
  unfolding compare
  less xs ys = is_minus_one (compare xs ys)

  -- `compare( oth ) <= 0`
  pub less_equal : Text → Text → Bool
  unfolding compare
  less_equal xs ys = not (ltb_ℤ (pos 0) (compare xs ys))

  -- With a memcmp that gives zero on equal blocks only, == holds of two strings exactly if they
  -- are equal.
  pub equal_iff : (xs ys : Text) → (equal xs ys ≡ true) ↔ (xs ≡ ys)
  unfolding equal
  equal_iff xs ys = (there, back)
    where
      sizes : equal xs ys ≡ true → length xs ≡ length ys
      sizes h = ground arith

      there : equal xs ys ≡ true → xs ≡ ys
      there h = let e = sizes h in (m.zero_iff xs ys e).0 (ground arith)

      back : xs ≡ ys → equal xs ys ≡ true
      back e = let l = ap length e in let z = (m.zero_iff xs ys l).1 e in ground arith

  -- For two strings of the same length on which memcmp gives a value below -1, <= holds and
  -- neither < nor == does.
  pub less_missed :
      (xs ys : Text) (n : ℕ)
      → length xs ≡ length ys
      → m.sign_of xs ys ≡ negsuc (suc n)
      → (less_equal xs ys ≡ true) × (less xs ys ≡ false) × (equal xs ys ≡ false)
  unfolding less_equal less equal
  less_missed xs ys n e h = ground arith
