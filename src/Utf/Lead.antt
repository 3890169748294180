-- ===== src/Utf/Lead.antt =====
-- The bytes that `encode` writes, as `decode` reads them: every value of the free bits of a lead
-- byte and of a continuation byte is tried.
use nodepp.Bits.Table.{all_below, all_below-apply}
use nodepp.Prelude.{
  ℕ, ◌%◌, ◌^◌, ◌<◌, bit_and, bit_or, ◌≡◌, refl, true, false, not, ◌&&◌, ltb, ◌==◌, ==_iff, arith,
}

-- What the ladder of `decode` asks of a byte, and the free bits of it.
pub record Lead2 (b x : ℕ) : Type 0 where
  pub high : ltb b 0x80 ≡ false
  pub mark : (bit_and b 0xe0 == 0xc0) ≡ true
  pub free : bit_and b 0x1f ≡ x

pub record Lead3 (b x : ℕ) : Type 0 where
  pub high : ltb b 0x80 ≡ false
  pub not_two : (bit_and b 0xe0 == 0xc0) ≡ false
  pub mark : (bit_and b 0xf0 == 0xe0) ≡ true
  pub free : bit_and b 0x0f ≡ x

pub record Lead4 (b x : ℕ) : Type 0 where
  pub high : ltb b 0x80 ≡ false
  pub not_two : (bit_and b 0xe0 == 0xc0) ≡ false
  pub not_three : (bit_and b 0xf0 == 0xe0) ≡ false
  pub mark : (bit_and b 0xf8 == 0xf0) ≡ true
  pub free : bit_and b 0x07 ≡ x

module _ (x : ℕ) where
  pub lead2 : x < 32 → Lead2 (bit_or x 0xc0 % 2 ^ 8) x
  unfolding all_below
  lead2 h = ground (
    arith,
    all_below-apply 32
        (λ x.
          let b = bit_or x 0xc0 % 2 ^ 8 in
          not (ltb b 0x80) && (bit_and b 0xe0 == 0xc0) && (bit_and b 0x1f == x))
        x refl h,
  )

  pub lead3 : x < 16 → Lead3 (bit_or x 0xe0 % 2 ^ 8) x
  unfolding all_below
  lead3 h = ground (
    arith,
    all_below-apply 16
        (λ x.
          let b = bit_or x 0xe0 % 2 ^ 8 in
          not (ltb b 0x80)
          && not (bit_and b 0xe0 == 0xc0)
          && (bit_and b 0xf0 == 0xe0)
          && (bit_and b 0x0f == x))
        x refl h,
  )

  pub lead4 : x < 8 → Lead4 (bit_or x 0xf0 % 2 ^ 8) x
  unfolding all_below
  lead4 h = ground (
    arith,
    all_below-apply 8
        (λ x.
          let b = bit_or x 0xf0 % 2 ^ 8 in
          not (ltb b 0x80)
          && not (bit_and b 0xe0 == 0xc0)
          && not (bit_and b 0xf0 == 0xe0)
          && (bit_and b 0xf8 == 0xf0)
          && (bit_and b 0x07 == x))
        x refl h,
  )

  pub continuation : x < 64 → bit_and (bit_or x 0x80 % 2 ^ 8) 0x3f ≡ x
  unfolding all_below
  continuation h =
      (==_iff _ x).0 (all_below-apply 64 (λ x. bit_and (bit_or x 0x80 % 2 ^ 8) 0x3f == x) x refl h)
