-- ===== src/Encoder/Base64.antt =====
-- encoder::base64: bytes against digits of six bits.
pub mod RoundTrip
use Prim.Native.Nat.{◌≤◌}
use native.Mathlib.Nat.{mod-eq_of_lt, mod-lt, div-one}
use nodepp.Bits.{bit_and_mask}
use nodepp.Bits.Table.{all_below, all_below-apply}
use nodepp.Prelude.{
  ℕ, zero, suc, ◌+◌, ◌-◌, ◌*◌, ◌/◌, ◌%◌, ◌^◌, ◌<◌, bit_and, ◌≡◌, refl, ap, ap₂, sym, ◌∙◌, Bool,
  true, false, not, ◌&&◌, ◌||◌, List, [], ◌∷◌, ◌++◌, All, Option, none, some, length, get_or, ltb,
  leb, ◌==◌, ==_iff, if◌then◌else◌, replicate, arith,
}

-- NODEPP_BASE64, by the code of its character.
unfoldable pub digit : ℕ → ℕ
digit v =
    if ltb v 26
    then v + 65
    else if ltb v 52
    then v + 71
    else if ltb v 62
    then v - 4
    else if v == 62
    then 43
    else 47

-- The table `T`: the digit that a character is, `none` where `T` keeps -1.
unfoldable pub place : ℕ → Option ℕ
place c =
    if leb 65 c && leb c 90
    then some (c - 65)
    else if leb 97 c && leb c 122
    then some (c - 71)
    else if leb 48 c && leb c 57
    then some (c + 4)
    else if c == 43
    then some 62
    else if c == 47
    then some 63
    else none

-- `while( pos2 >= 0 )` writes a digit for each six bits that wait: `bits` is `pos2 + 6`.
pub atob_digits : ℕ → ℕ → ℕ → List ℕ
unfolding digit
atob_digits zero pos bits = []
atob_digits (suc fuel) pos bits =
    let rest = atob_digits fuel pos (bits - 6) in
    if ltb bits 6 then [] else digit (bit_and (pos / 2 ^ (bits - 6)) 0x3F) ∷ rest

-- `if( pos2>-6 )`: the last digit, of the bits that are left and zeros.
pub atob_end : ℕ → ℕ → List ℕ
unfolding digit
atob_end pos bits =
    if bits == 0 then [] else digit (bit_and (pos * 2 ^ 8 % 2 ^ 32 / 2 ^ (bits + 2)) 0x3F) ∷ []

-- The loop over the input: two rounds of the inner loop at most, since at most 4 bits wait at the
-- start of a round and 12 after the byte. `pos` is the 32-bit pattern of `pos1`.
pub atob_loop : ℕ → ℕ → List ℕ → List ℕ
unfolding atob_digits atob_end
atob_loop pos bits [] = atob_end pos bits
atob_loop pos bits (c ∷ cs) =
    let next = (pos * 2 ^ 8 + c) % 2 ^ 32 in
    atob_digits 3 next (bits + 8) ++ atob_loop next ((bits + 8) % 6) cs

-- `while( out.size()%4 ){ out.push('='); }`
pub pad : List ℕ → List ℕ
pad out = out ++ replicate ((4 - length out % 4) % 4) 61

pub atob : List ℕ → List ℕ
unfolding atob_loop pad
atob bytes = pad (atob_loop 0 0 bytes)

-- The loop of `btoa`, with `bits` for `pos2 + 8`; a character outside the alphabet ends it.
pub btoa_loop : ℕ → ℕ → List ℕ → List ℕ
unfolding place
btoa_loop pos bits [] = []
btoa_loop pos bits (c ∷ cs) = elim (place c) [
  | none ↦ []
  | some v ↦
      let next = (pos * 2 ^ 6 + v) % 2 ^ 32 in
      let rest = btoa_loop next ((bits + 6) % 8) cs in
      if ltb (bits + 6) 8 then rest else bit_and (next / 2 ^ (bits + 6 - 8)) 0xFF ∷ rest
]

pub btoa : List ℕ → List ℕ
unfolding btoa_loop
btoa text = btoa_loop 0 0 text
