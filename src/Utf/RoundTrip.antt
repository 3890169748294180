-- ===== src/Utf/RoundTrip.antt =====
-- Code points out to UTF-8 or UTF-16 and back.
use nodepp.Prelude.{
  ℕ, suc, ◌≤◌, ◌≡◌, ◌≢◌, refl, ap, ◌∙◌, List, [], ◌∷◌, ◌++◌, Option, some, length, append-nil,
  append_assoc, length-append, All, arith,
}
use nodepp.Utf.{
  data_of, decode, decode_unit, utf8_to_utf32, utf16_to_utf32, utf32_to_utf8, utf32_to_utf16,
  utf32_to_utf8_loop, utf32_to_utf16_loop,
}
use nodepp.Utf.Read.{
  Decoder, read_all, read_all-more, utf8_to_utf32_loop-read_all, utf16_to_utf32_loop-read_all,
}
use nodepp.Utf.Points.{encode-Decodes, IsScalar, units-Pairs}

-- A piece that a decoder reads as `c`, in front of a text that it reads as `cs`.
module _ (step : Decoder) {c : ℕ} where
  read_all-cons :
      (f lead : ℕ) (more rest : List ℕ) {cs : List ℕ}
      → step lead (more ++ rest) ≡ some (c, rest)
      → read_all step f rest ≡ some cs
      → read_all step (suc f) (lead ∷ more ++ rest) ≡ some (c ∷ cs)
  unfolding read_all
  read_all-cons f lead more rest e h = rw e (rw h)

-- What a writing loop makes of `cs`: it appends a text that the decoder reads back.
record Written (step : Decoder) (loop : List ℕ → List ℕ → Option (List ℕ)) (cs : List ℕ)
    : Type 0 where
  text : List ℕ
  writes : (out : List ℕ) → loop out cs ≡ data_of (out ++ text)
  reads : read_all step (length cs) text ≡ some cs
  long : length cs ≤ length text

utf8-Written : (cs : List ℕ) → All (λ c. c ≤ 0x10ffff) cs → Written decode utf32_to_utf8_loop cs
unfolding utf32_to_utf8_loop read_all
utf8-Written [] h = record {
  text = [];
  writes = λ out. rw append-nil;
  reads = refl;
  long = omega arith;
}
utf8-Written (c ∷ cs) (h, t) =
    let (bs, e, d) = encode-Decodes c h in
    let w = utf8-Written cs t in
    record {
      text = bs ++ w.text;
      writes = λ out. rw e (w.writes (out ++ bs) ∙ ap data_of (append_assoc out bs w.text));
      reads =
          rw d.splits
            (read_all-cons decode (length cs) d.lead d.more w.text (d.reads w.text) w.reads);
      long = rw d.splits (omega (arith, length-append d.more w.text, w.long));
    }

utf16-Written : (cs : List ℕ) → All IsScalar cs → Written decode_unit utf32_to_utf16_loop cs
unfolding utf32_to_utf16_loop read_all
utf16-Written [] h = record {
  text = [];
  writes = λ out. rw append-nil;
  reads = refl;
  long = omega arith;
}
utf16-Written (c ∷ cs) (h, t) =
    let (us, e, d) = units-Pairs c h in
    let w = utf16-Written cs t in
    record {
      text = us ++ w.text;
      writes = λ out. rw e (w.writes (out ++ us) ∙ ap data_of (append_assoc out us w.text));
      reads =
          rw d.splits
            (read_all-cons decode_unit (length cs) d.lead d.more w.text (d.reads w.text) w.reads);
      long = rw d.splits (omega (arith, length-append d.more w.text, w.long));
    }

data_of-nonempty : (text : List ℕ) {n : ℕ} → suc n ≤ length text → data_of text ≡ some text
data_of-nonempty [] h = absurd (omega arith)
data_of-nonempty (x ∷ xs) h = refl

-- A nonempty sequence of code points up to U+10FFFF, surrogates included, is written as UTF-8
-- bytes, and these bytes are read back as the same code points.
pub utf8_to_utf32-utf32_to_utf8 :
    (cs : List ℕ)
    → cs ≢ []
    → All (λ c. c ≤ 0x10ffff) cs
    → (bytes : List ℕ) × (utf32_to_utf8 cs ≡ some bytes) × (utf8_to_utf32 bytes ≡ some cs)
unfolding utf32_to_utf8 utf8_to_utf32
utf8_to_utf32-utf32_to_utf8 [] ne h = absurd (ne refl)
utf8_to_utf32-utf32_to_utf8 (c ∷ cs) ne h =
    let w = utf8-Written (c ∷ cs) h in
    (
      w.text,
      w.writes [] ∙ data_of-nonempty w.text w.long,
      utf8_to_utf32_loop-read_all (length w.text) [] w.text
          ∙ rw (read_all-more decode (suc (length cs)) (length w.text) w.text w.long w.reads),
    )

-- A nonempty sequence of Unicode scalar values is written as UTF-16 units, and these units are
-- read back as the same code points.
pub utf16_to_utf32-utf32_to_utf16 :
    (cs : List ℕ)
    → cs ≢ []
    → All IsScalar cs
    → (us : List ℕ) × (utf32_to_utf16 cs ≡ some us) × (utf16_to_utf32 us ≡ some cs)
unfolding utf32_to_utf16 utf16_to_utf32
utf16_to_utf32-utf32_to_utf16 [] ne h = absurd (ne refl)
utf16_to_utf32-utf32_to_utf16 (c ∷ cs) ne h =
    let w = utf16-Written (c ∷ cs) h in
    (
      w.text,
      w.writes [] ∙ data_of-nonempty w.text w.long,
      utf16_to_utf32_loop-read_all (length w.text) [] w.text
          ∙ rw (read_all-more decode_unit (suc (length cs)) (length w.text) w.text w.long w.reads),
    )
