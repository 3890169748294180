-- ===== src/Text.antt =====
-- include/nodepp/string.h: the character tests and `string_t`. A string is the list of its bytes,
-- without the NUL that its buffer ends in; the null string and one of size 0 act alike. The bytes of
-- a `char` are taken as the unsigned values to which the tests convert them.
pub mod Char
pub mod Case
pub mod Slug
pub mod Affix
pub mod Compare
pub mod Join
pub mod Tests
use nodepp.Prelude.{
  ℕ, zero, suc, ◌+◌, ◌-◌, ◌≤◌, Bool, true, false, not, ◌&&◌, ◌||◌, Option, none, some, List, [],
  ◌∷◌, ◌++◌, map, length, take, drop, ltb, leb, ◌==◌, if◌then◌else◌, bit_xor,
}
use nodepp.Prelude.Int.{ℤ}
use nodepp.Range.{Range}
use nodepp.Array
use Char

abbrev pub Text : Type 0
Text = List ℕ

abbrev pub get_slice_range : Text → ℤ → ℤ → Option Range
get_slice_range = Array.get_slice_range

abbrev pub get_splice_range : Text → ℤ → ℕ → Option Range
get_splice_range = Array.get_splice_range

-- The members that are those of `array_t` over bytes, with `memcpy` for `type::copy`.
abbrev pub insert : Text → ℕ → ℕ → Text
insert = Array.insert

abbrev pub insert_fill : Text → ℕ → ℕ → ℕ → Text
insert_fill = Array.insert_fill

abbrev pub insert_text : Text → ℕ → Text → Text
insert_text = Array.insert_array

abbrev pub erase : Text → ℕ → Text
erase = Array.erase

abbrev pub erase_range : Text → ℕ → ℕ → Text
erase_range = Array.erase_range

abbrev pub slice : Text → ℤ → ℤ → Text
slice = Array.slice

abbrev pub slice_from : Text → ℤ → Text
slice_from = Array.slice_from

abbrev pub splice : Text → ℤ → ℕ → Text × Text
splice = Array.splice

abbrev pub splice_with : Text → ℤ → ℕ → Text → Text × Text
splice_with = Array.splice_with

abbrev pub append : Text → Text → Text
append = Array.append

-- `find( data, offset )`, and `find( char, offset )`.
abbrev pub find : Text → Text → ℕ → Option (ℕ × ℕ)
find = Array.Find.find ◌==◌

abbrev pub find_char : Text → ℕ → ℕ → Option (ℕ × ℕ)
find_char xs c offset = find xs (c ∷ []) offset

-- The loop of `to_capital_case`: `b` says that the next letter begins a word.
pub capital_loop : Bool → Text → Text
unfolding Char.is_alpha Char.to_upper Char.to_lower
capital_loop b [] = []
capital_loop b (x ∷ xs) =
    (if Char.is_alpha x && b then Char.to_upper x else Char.to_lower x)
    ∷ capital_loop
        (if Char.is_alpha x && b then false else if not (Char.is_alpha x) then true else b) xs

pub to_capital_case : Text → Text
unfolding capital_loop
to_capital_case xs = capital_loop true xs

pub to_lower_case : Text → Text
unfolding Char.to_lower
to_lower_case xs = map Char.to_lower xs

pub to_upper_case : Text → Text
unfolding Char.to_upper
to_upper_case xs = map Char.to_upper xs

-- What the loop of `to_slugify` writes: a byte that is skipped stays the NUL of a new buffer.
pub slug_bytes : Text → Text
unfolding Char.is_alnum Char.to_lower
slug_bytes [] = []
slug_bytes (x ∷ xs) = (if not (Char.is_alnum x) then 0 else Char.to_lower x) ∷ slug_bytes xs

-- Its counter `z`, which begins at 1.
pub slug_size : ℕ → Text → ℕ
unfolding Char.is_alnum
slug_size z [] = z
slug_size z (x ∷ xs) = slug_size (if not (Char.is_alnum x) then z else z + 1) xs

-- `string_t( &out, z )`: the first `z` bytes of the buffer, its last NUL among them.
pub to_slugify : Text → Text
unfolding slug_bytes slug_size
to_slugify [] = []
to_slugify (x ∷ xs) = take (slug_size 1 (x ∷ xs)) (slug_bytes (x ∷ xs) ++ 0 ∷ [])

-- Byte by byte, as far as the first string goes; `B` is at least as long.
pub xor_text : Text → Text → Text
xor_text (a ∷ xs) (b ∷ ys) = bit_xor a b ∷ xor_text xs ys
xor_text _ _ = []

unfoldable pub same : Text → Text → Bool
same [] [] = true
same (x ∷ xs) (y ∷ ys) = x == y && same xs ys
same _ _ = false

-- `memcmp( pattern, data, n ) == 0`, where both hold `n` bytes.
abbrev same_bytes : ℕ → Text → Text → Bool
same_bytes n xs ys = same (take n xs) (take n ys)

-- `none` where the count `pattern.size()-1` wraps, on an empty pattern: the code then compares
-- 2 ^ 64 - 1 bytes from a null pointer.
pub starts_with : Text → Text → Option Bool
unfolding same
starts_with bytes pattern =
    if ltb (length bytes) (length pattern)
    then some false
    else if length pattern == 0
    then none
    else some (same_bytes (length pattern - 1) pattern bytes)

pub ends_with : Text → Text → Option Bool
unfolding same
ends_with bytes pattern =
    if ltb (length bytes) (length pattern)
    then some false
    else if length pattern == 0
    then none
    else some (same_bytes (length pattern - 1) pattern (drop (length bytes - length pattern) bytes))
