-- ===== src/Utf.antt =====
-- include/nodepp/utf.h: the six converters. A `ptr_t` result is `none` for a null pointer, which
-- stands for malformed input and, by `queue_t::data`, for an empty output. Units are unsigned, as
-- in the source; `%` writes out what a cast to a narrower type drops.
pub mod Lead
mod Read
pub mod Points
pub mod Compose
pub mod RoundTrip
pub mod Tests
use nodepp.Prelude.{
  ℕ, zero, suc, ◌+◌, ◌-◌, ◌*◌, ◌/◌, ◌%◌, ◌^◌, bit_and, bit_or, List, [], ◌∷◌, ◌++◌, Option, none,
  some, ltb, leb, ◌==◌, ◌||◌, ◌&&◌, if◌then◌else◌, length, ◌>>=◌,
}

-- `queue_t::data`: an empty queue gives a null pointer.
abbrev pub data_of : List ℕ → Option (List ℕ)
data_of [] = none
data_of (x ∷ xs) = some (x ∷ xs)

-- What the elements of a `ptr_t` are: none, if it is null.
abbrev pub elements : Option (List ℕ) → List ℕ
elements none = []
elements (some xs) = xs

-- The bytes behind a lead byte of two, three or four: too few is an error.
two : ℕ → List ℕ → Option (ℕ × List ℕ)
two b [] = none
two b (c ∷ rest) = some (bit_or (bit_and b 0x1f * 2 ^ 6) (bit_and c 0x3f), rest)

three : ℕ → List ℕ → Option (ℕ × List ℕ)
three b (c ∷ d ∷ rest) =
    some (bit_or (bit_or (bit_and b 0x0f * 2 ^ 12) (bit_and c 0x3f * 2 ^ 6)) (bit_and d 0x3f), rest)
three b _ = none

four : ℕ → List ℕ → Option (ℕ × List ℕ)
four b (c ∷ d ∷ e ∷ rest) = some (
  bit_or
      (bit_or (bit_or (bit_and b 0x07 * 2 ^ 18) (bit_and c 0x3f * 2 ^ 12)) (bit_and d 0x3f * 2 ^ 6))
      (bit_and e 0x3f),
  rest,
)
four b _ = none

-- The `if` ladder on the lead byte, and what it leaves unread.
pub decode : ℕ → List ℕ → Option (ℕ × List ℕ)
unfolding two three four
decode b rest =
    if ltb b 0x80
    then some (b, rest)
    else if bit_and b 0xe0 == 0xc0
    then two b rest
    else if bit_and b 0xf0 == 0xe0
    then three b rest
    else if bit_and b 0xf8 == 0xf0
    then four b rest
    else none

abbrev u8 : ℕ → ℕ
u8 x = x % 2 ^ 8

abbrev u16 : ℕ → ℕ
u16 x = x % 2 ^ 16

-- The bytes of a code point of each length: a lead byte, and continuation bytes.
abbrev more_byte : ℕ → ℕ
more_byte x = u8 (bit_or (bit_and x 0x3f) 0x80)

abbrev two_bytes : ℕ → List ℕ
two_bytes c = u8 (bit_or (c / 2 ^ 6) 0xc0) ∷ more_byte c ∷ []

abbrev three_bytes : ℕ → List ℕ
three_bytes c = u8 (bit_or (c / 2 ^ 12) 0xe0) ∷ more_byte (c / 2 ^ 6) ∷ more_byte c ∷ []

abbrev four_bytes : ℕ → List ℕ
four_bytes c =
    u8 (bit_or (c / 2 ^ 18) 0xf0)
    ∷ more_byte (c / 2 ^ 12)
    ∷ more_byte (c / 2 ^ 6)
    ∷ more_byte c
    ∷ []

-- What is pushed for one code point.
pub encode : ℕ → Option (List ℕ)
encode c =
    if leb c 0x7f
    then some (u8 c ∷ [])
    else if leb c 0x7ff
    then some (two_bytes c)
    else if leb c 0xffff
    then some (three_bytes c)
    else if leb c 0x10ffff
    then some (four_bytes c)
    else none

-- The two halves of a surrogate pair.
abbrev high_unit : ℕ → ℕ
high_unit c = u16 ((c - 0x10000) / 2 ^ 10 + 0xd800)

abbrev low_half : ℕ → ℕ
low_half c = u16 (bit_and (c - 0x10000) 0x3ff + 0xdc00)

-- The units that are pushed for one code point.
pub units : ℕ → Option (List ℕ)
units c =
    if leb c 0xffff
    then some (u16 c ∷ [])
    else if leb c 0x10ffff
    then some (high_unit c ∷ low_half c ∷ [])
    else none

-- The low unit of a pair.
low_unit : ℕ → List ℕ → Option (ℕ × List ℕ)
low_unit unit [] = none
low_unit unit (low ∷ rest) =
    if ltb low 0xdc00 || ltb 0xdfff low
    then none
    else some ((unit - 0xd800) * 2 ^ 10 + (low - 0xdc00) + 0x10000, rest)

-- The `if` ladder on one unit.
pub decode_unit : ℕ → List ℕ → Option (ℕ × List ℕ)
unfolding low_unit
decode_unit unit rest =
    if ltb unit 0xd800 || ltb 0xdfff unit
    then some (unit, rest)
    else if leb 0xd800 unit && leb unit 0xdbff
    then low_unit unit rest
    else none

-- Each pass of a `while` loop reads at least one element, so their number is enough fuel.
pub utf8_to_utf32_loop : ℕ → List ℕ → List ℕ → Option (List ℕ)
utf8_to_utf32_loop f out [] = data_of out
utf8_to_utf32_loop zero out (b ∷ rest) = none
utf8_to_utf32_loop (suc f) out (b ∷ rest) = do
  (c, unread) ← decode b rest
  utf8_to_utf32_loop f (out ++ c ∷ []) unread

pub utf8_to_utf32 : List ℕ → Option (List ℕ)
unfolding utf8_to_utf32_loop
utf8_to_utf32 bytes = utf8_to_utf32_loop (length bytes) [] bytes

pub utf32_to_utf8_loop : List ℕ → List ℕ → Option (List ℕ)
utf32_to_utf8_loop out [] = data_of out
utf32_to_utf8_loop out (c ∷ cs) = do bytes ← encode c; utf32_to_utf8_loop (out ++ bytes) cs

pub utf32_to_utf8 : List ℕ → Option (List ℕ)
unfolding utf32_to_utf8_loop
utf32_to_utf8 points = utf32_to_utf8_loop [] points

pub utf8_to_utf16_loop : ℕ → List ℕ → List ℕ → Option (List ℕ)
utf8_to_utf16_loop f out [] = data_of out
utf8_to_utf16_loop zero out (b ∷ rest) = none
utf8_to_utf16_loop (suc f) out (b ∷ rest) = do
  (c, unread) ← decode b rest
  us ← units c
  utf8_to_utf16_loop f (out ++ us) unread

pub utf8_to_utf16 : List ℕ → Option (List ℕ)
unfolding utf8_to_utf16_loop
utf8_to_utf16 bytes = utf8_to_utf16_loop (length bytes) [] bytes

pub utf16_to_utf8_loop : ℕ → List ℕ → List ℕ → Option (List ℕ)
utf16_to_utf8_loop f out [] = data_of out
utf16_to_utf8_loop zero out (u ∷ rest) = none
utf16_to_utf8_loop (suc f) out (u ∷ rest) = do
  (c, unread) ← decode_unit u rest
  bytes ← encode c
  utf16_to_utf8_loop f (out ++ bytes) unread

pub utf16_to_utf8 : List ℕ → Option (List ℕ)
unfolding utf16_to_utf8_loop
utf16_to_utf8 us = utf16_to_utf8_loop (length us) [] us

pub utf16_to_utf32_loop : ℕ → List ℕ → List ℕ → Option (List ℕ)
utf16_to_utf32_loop f out [] = data_of out
utf16_to_utf32_loop zero out (u ∷ rest) = none
utf16_to_utf32_loop (suc f) out (u ∷ rest) = do
  (c, unread) ← decode_unit u rest
  utf16_to_utf32_loop f (out ++ c ∷ []) unread

pub utf16_to_utf32 : List ℕ → Option (List ℕ)
unfolding utf16_to_utf32_loop
utf16_to_utf32 us = utf16_to_utf32_loop (length us) [] us

pub utf32_to_utf16_loop : List ℕ → List ℕ → Option (List ℕ)
utf32_to_utf16_loop out [] = data_of out
utf32_to_utf16_loop out (c ∷ cs) = do us ← units c; utf32_to_utf16_loop (out ++ us) cs

pub utf32_to_utf16 : List ℕ → Option (List ℕ)
unfolding utf32_to_utf16_loop
utf32_to_utf16 points = utf32_to_utf16_loop [] points
