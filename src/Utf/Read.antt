-- ===== src/Utf/Read.antt =====
-- A whole text read by one decoder: what the `while` loops of the converters share.
use nodepp.Prelude.{
  ℕ, zero, suc, ◌≤◌, ◌≡◌, refl, ap, ◌∙◌, List, [], ◌∷◌, ◌++◌, Option, none, some, inl, inr,
  append-nil, append_assoc, length, ◌>>=◌, Option-cases, arith,
}
use nodepp.Utf.{
  data_of, decode, decode_unit, encode, units, utf8_to_utf32_loop, utf8_to_utf16_loop,
  utf16_to_utf32_loop, utf16_to_utf8_loop, utf32_to_utf8_loop, utf32_to_utf16_loop,
}

abbrev pub Decoder : Type 0
Decoder = ℕ → List ℕ → Option (ℕ × List ℕ)

unfoldable pub read_all : Decoder → ℕ → List ℕ → Option (List ℕ)
read_all step f [] = some []
read_all step zero (b ∷ rest) = none
read_all step (suc f) (b ∷ rest) = do
  (c, unread) ← step b rest
  cs ← read_all step f unread
  some (c ∷ cs)

-- Two ways to go on with a text of which one code point `c` has been read.
module _ {c : ℕ} where
  go_on :
      (r : Option (List ℕ)) (g h : List ℕ → Option (List ℕ))
      → ((cs : List ℕ) → g cs ≡ h (c ∷ cs))
      → (r >>= g) ≡ ((r >>= λ cs. some (c ∷ cs)) >>= h)
  go_on none g h e = refl
  go_on (some cs) g h e = e cs

-- The loops that collect code points append what is read.
pub utf8_to_utf32_loop-read_all :
    (f : ℕ) (out bytes : List ℕ)
    → utf8_to_utf32_loop f out bytes ≡ (read_all decode f bytes >>= λ cs. data_of (out ++ cs))
unfolding utf8_to_utf32_loop read_all
utf8_to_utf32_loop-read_all f out [] = rw append-nil
utf8_to_utf32_loop-read_all zero out (b ∷ rest) = refl
utf8_to_utf32_loop-read_all (suc f) out (b ∷ rest) = elim (Option-cases (decode b rest)) [
  | inl e ↦ rw e
  | inr ((c, unread), e) ↦ rw e (
      utf8_to_utf32_loop-read_all f (out ++ c ∷ []) unread
      ∙ go_on (read_all decode f unread) _ _ λ cs. ap data_of (append_assoc out (c ∷ []) cs))
]

pub utf16_to_utf32_loop-read_all :
    (f : ℕ) (out us : List ℕ)
    → utf16_to_utf32_loop f out us ≡ (read_all decode_unit f us >>= λ cs. data_of (out ++ cs))
unfolding utf16_to_utf32_loop read_all
utf16_to_utf32_loop-read_all f out [] = rw append-nil
utf16_to_utf32_loop-read_all zero out (u ∷ rest) = refl
utf16_to_utf32_loop-read_all (suc f) out (u ∷ rest) = elim (Option-cases (decode_unit u rest)) [
  | inl e ↦ rw e
  | inr ((c, unread), e) ↦ rw e (
      utf16_to_utf32_loop-read_all f (out ++ c ∷ []) unread
      ∙ go_on (read_all decode_unit f unread) _ _ λ cs. ap data_of (append_assoc out (c ∷ []) cs))
]

-- The loops that write at once what they read do as reading first and writing afterwards.
pub utf8_to_utf16_loop-read_all :
    (f : ℕ) (out bytes : List ℕ)
    → utf8_to_utf16_loop f out bytes ≡ (read_all decode f bytes >>= utf32_to_utf16_loop out)
unfolding utf8_to_utf16_loop utf32_to_utf16_loop read_all
utf8_to_utf16_loop-read_all f out [] = refl
utf8_to_utf16_loop-read_all zero out (b ∷ rest) = refl
utf8_to_utf16_loop-read_all (suc f) out (b ∷ rest) = elim (Option-cases (decode b rest)) [
  | inl e ↦ rw e
  | inr ((c, unread), e) ↦ elim (Option-cases (units c)) [
    | inl n ↦ rw e (ground (arith, n))
    | inr (us, n) ↦ rw e (
        rw n (
          utf8_to_utf16_loop-read_all f (out ++ us) unread
          ∙ go_on (read_all decode f unread) _ _ λ cs. rw n))
  ]
]

pub utf16_to_utf8_loop-read_all :
    (f : ℕ) (out us : List ℕ)
    → utf16_to_utf8_loop f out us ≡ (read_all decode_unit f us >>= utf32_to_utf8_loop out)
unfolding utf16_to_utf8_loop utf32_to_utf8_loop read_all
utf16_to_utf8_loop-read_all f out [] = refl
utf16_to_utf8_loop-read_all zero out (u ∷ rest) = refl
utf16_to_utf8_loop-read_all (suc f) out (u ∷ rest) = elim (Option-cases (decode_unit u rest)) [
  | inl e ↦ rw e
  | inr ((c, unread), e) ↦ elim (Option-cases (encode c)) [
    | inl n ↦ rw e (ground (arith, n))
    | inr (bs, n) ↦ rw e (
        rw n (
          utf16_to_utf8_loop-read_all f (out ++ bs) unread
          ∙ go_on (read_all decode_unit f unread) _ _ λ cs. rw n))
  ]
]

-- What is left behind one code point is no longer than what stood behind its first element.
abbrev pub Consumes : Decoder → Type 0
Consumes step =
    (b : ℕ) (rest : List ℕ) (c : ℕ) (unread : List ℕ)
    → step b rest ≡ some (c, unread)
    → length unread ≤ length rest

pub decode-Consumes : Consumes decode
unfolding decode
decode-Consumes b [] got unread h = ground arith
decode-Consumes b (c ∷ []) got unread h = ground arith
decode-Consumes b (c ∷ d ∷ []) got unread h = ground arith
decode-Consumes b (c ∷ d ∷ e ∷ rest) got unread h = ground arith

pub decode_unit-Consumes : Consumes decode_unit
unfolding decode_unit
decode_unit-Consumes u [] got unread h = ground arith
decode_unit-Consumes u (low ∷ rest) got unread h = ground arith

module _ (step : Decoder) (consumes : Consumes step) where
  -- As much fuel as there are elements is enough: more gives the same.
  pub read_all-fuel :
      (f g : ℕ) (bs : List ℕ)
      → length bs ≤ f
      → length bs ≤ g
      → read_all step f bs ≡ read_all step g bs
  unfolding read_all
  read_all-fuel f g [] p q = refl
  read_all-fuel zero g (b ∷ rest) p q = absurd (omega arith)
  read_all-fuel (suc f) zero (b ∷ rest) p q = absurd (omega arith)
  read_all-fuel (suc f) (suc g) (b ∷ rest) p q = elim (Option-cases (step b rest)) [
    | inl e ↦ rw e
    | inr ((c, unread), e) ↦ rw e (
        ap (λ (r : Option (List ℕ)). r >>= λ cs. some (c ∷ cs))
          (read_all-fuel f g unread (omega (arith, consumes b rest c unread e))
            (omega (arith, consumes b rest c unread e))))
  ]

module _ (step : Decoder) where
  -- Fuel that gave a result gives it again when there is more of it.
  pub read_all-more :
      (f g : ℕ) (bs : List ℕ) {cs : List ℕ}
      → f ≤ g
      → read_all step f bs ≡ some cs
      → read_all step g bs ≡ some cs
  unfolding read_all
  read_all-more f g [] le h = h
  read_all-more zero g (b ∷ rest) le h = absurd (cc)
  read_all-more (suc f) zero (b ∷ rest) le h = absurd (omega arith)
  read_all-more (suc f) (suc g) (b ∷ rest) le h = elim (Option-cases (step b rest)) [
    | inl e ↦ cc (rw e at h)
    | inr ((c, unread), e) ↦ elim (Option-cases (read_all step f unread)) [
      | inl n ↦ cc (rw n at (rw e at h))
      | inr (more, n) ↦ rw e (rw (read_all-more f g unread (omega arith) n) (rw n at (rw e at h)))
    ]
  ]
