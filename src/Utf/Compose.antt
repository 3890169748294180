-- ===== src/Utf/Compose.antt =====
-- The direct converters between UTF-8 and UTF-16 against the way through code points.
use nodepp.Prelude.{
  ℕ, ◌+◌, ◌≡◌, refl, sym, ◌∙◌, List, [], ◌∷◌, Option, none, some, length, ◌>>=◌, arith,
}
use nodepp.Utf.{
  data_of, decode, decode_unit, utf8_to_utf32, utf8_to_utf16, utf16_to_utf32, utf16_to_utf8,
  utf32_to_utf8, utf32_to_utf16, utf32_to_utf8_loop, utf32_to_utf16_loop, utf8_to_utf16_loop,
  utf8_to_utf32_loop,
}
use nodepp.Utf.Read.{
  read_all, read_all-fuel, decode-Consumes, utf8_to_utf32_loop-read_all,
  utf8_to_utf16_loop-read_all, utf16_to_utf32_loop-read_all, utf16_to_utf8_loop-read_all,
}

-- A null pointer in between changes nothing: nothing read means nothing written.
through :
    (r : Option (List ℕ)) (write : List ℕ → Option (List ℕ))
    → write [] ≡ none
    → (r >>= write) ≡ ((r >>= data_of) >>= write)
through none write e = refl
through (some []) write e = e
through (some (c ∷ cs)) write e = refl

-- On every list of bytes, well formed or not, utf8_to_utf16 gives what utf8_to_utf32 followed by
-- utf32_to_utf16 gives, null included.
pub utf8_to_utf16-eq-utf32 :
    (bytes : List ℕ) → utf8_to_utf16 bytes ≡ (utf8_to_utf32 bytes >>= utf32_to_utf16)
unfolding utf8_to_utf16 utf8_to_utf32 utf32_to_utf16
utf8_to_utf16-eq-utf32 bytes =
    rw
      (
        utf8_to_utf16_loop-read_all (length bytes) [] bytes,
        utf8_to_utf32_loop-read_all (length bytes) [] bytes,
      )
      (through (read_all decode (length bytes) bytes) (utf32_to_utf16_loop []) refl)

-- On every list of units, well formed or not, utf16_to_utf8 gives what utf16_to_utf32 followed by
-- utf32_to_utf8 gives, null included.
pub utf16_to_utf8-eq-utf32 :
    (us : List ℕ) → utf16_to_utf8 us ≡ (utf16_to_utf32 us >>= utf32_to_utf8)
unfolding utf16_to_utf8 utf16_to_utf32 utf32_to_utf8
utf16_to_utf8-eq-utf32 us =
    rw
      (
        utf16_to_utf8_loop-read_all (length us) [] us,
        utf16_to_utf32_loop-read_all (length us) [] us,
      )
      (through (read_all decode_unit (length us) us) (utf32_to_utf8_loop []) refl)

-- The loops of utf8_to_utf16 and utf8_to_utf32 give, with any fuel from the number of the bytes
-- on, the results of the two functions.
pub utf8_to_utf16_loop-fuel :
    (more : ℕ) (bytes : List ℕ)
    → (utf8_to_utf16_loop (length bytes + more) [] bytes ≡ utf8_to_utf16 bytes)
      × (utf8_to_utf32_loop (length bytes + more) [] bytes ≡ utf8_to_utf32 bytes)
unfolding utf8_to_utf16 utf8_to_utf32
utf8_to_utf16_loop-fuel more bytes =
    let n = length bytes in
    let same : read_all decode (n + more) bytes ≡ read_all decode n bytes =
      read_all-fuel decode decode-Consumes (n + more) n bytes (omega arith) (omega arith) in
    (
      utf8_to_utf16_loop-read_all (n + more) [] bytes
          ∙ rw same (sym (utf8_to_utf16_loop-read_all n [] bytes)),
      utf8_to_utf32_loop-read_all (n + more) [] bytes
          ∙ rw same (sym (utf8_to_utf32_loop-read_all n [] bytes)),
    )
