-- ===== src/Utf/Tests.antt =====
-- Runs of the converters on texts of one to four bytes a character, and on malformed ones.
use nodepp.Prelude.{ℕ, ◌≤◌, ◌≡◌, refl, ◌>>=◌, All, List, [], ◌∷◌, none, some, inl, inr, arith}
use nodepp.Utf.{
  decode, encode, units, utf8_to_utf32, utf32_to_utf8, utf8_to_utf16, utf16_to_utf8, utf16_to_utf32,
  utf32_to_utf16, utf8_to_utf32_loop, utf32_to_utf8_loop, utf32_to_utf16_loop,
}
use nodepp.Utf.Points.{IsScalar}
use nodepp.Utf.Compose.{utf8_to_utf16-eq-utf32, utf16_to_utf8-eq-utf32}
use nodepp.Utf.RoundTrip.{utf8_to_utf32-utf32_to_utf8, utf16_to_utf32-utf32_to_utf16}

-- `aé€😀`
abbrev sample : List ℕ
sample = 0x61 ∷ 0xe9 ∷ 0x20ac ∷ 0x1f600 ∷ []

abbrev sample_utf8 : List ℕ
sample_utf8 = 0x61 ∷ 0xc3 ∷ 0xa9 ∷ 0xe2 ∷ 0x82 ∷ 0xac ∷ 0xf0 ∷ 0x9f ∷ 0x98 ∷ 0x80 ∷ []

abbrev sample_utf16 : List ℕ
sample_utf16 = 0x61 ∷ 0xe9 ∷ 0x20ac ∷ 0xd83d ∷ 0xde00 ∷ []

written : utf32_to_utf8 sample ≡ some sample_utf8
unfolding utf32_to_utf8 utf32_to_utf8_loop encode
written = refl

written_utf16 : utf32_to_utf16 sample ≡ some sample_utf16
unfolding utf32_to_utf16 utf32_to_utf16_loop units
written_utf16 = refl

-- A lead byte with nothing behind it. The followers themselves are not checked.
malformed : utf8_to_utf32 (0xc3 ∷ []) ≡ none
unfolding utf8_to_utf32 utf8_to_utf32_loop decode
malformed = refl

sample-Small : All (λ c. c ≤ 0x10ffff) sample
sample-Small = (omega arith, (omega arith, (omega arith, (omega arith, tt))))

sample-IsScalar : All IsScalar sample
sample-IsScalar =
    (inl (omega arith), (inl (omega arith), (inl (omega arith), (inr (omega arith), tt))))

utf8_to_utf32-utf32_to_utf8_example :
    (bytes : List ℕ) × (utf32_to_utf8 sample ≡ some bytes) × (utf8_to_utf32 bytes ≡ some sample)
utf8_to_utf32-utf32_to_utf8_example =
    utf8_to_utf32-utf32_to_utf8 sample (λ e. absurd (cc)) sample-Small

utf16_to_utf32-utf32_to_utf16_example :
    (us : List ℕ) × (utf32_to_utf16 sample ≡ some us) × (utf16_to_utf32 us ≡ some sample)
utf16_to_utf32-utf32_to_utf16_example =
    utf16_to_utf32-utf32_to_utf16 sample (λ e. absurd (cc)) sample-IsScalar

utf8_to_utf16-eq-utf32_example :
    utf8_to_utf16 sample_utf8 ≡ (utf8_to_utf32 sample_utf8 >>= utf32_to_utf16)
utf8_to_utf16-eq-utf32_example = utf8_to_utf16-eq-utf32 sample_utf8

utf16_to_utf8-eq-utf32_example :
    utf16_to_utf8 sample_utf16 ≡ (utf16_to_utf32 sample_utf16 >>= utf32_to_utf8)
utf16_to_utf8-eq-utf32_example = utf16_to_utf8-eq-utf32 sample_utf16
