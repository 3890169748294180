-- ===== src/Encoder/Hex.antt =====
-- encoder::hex: an integer of `w` bits as hexadecimal text, and bytes as pairs of digits; and
-- encoder::base16, which is the same on strings.
use native.Mathlib.Nat.{mod-eq_of_lt, pow-suc, one-le-pow}
use nodepp.Bits.{bit_or_fields, bit_and_mask}
use nodepp.Bits.Table.{all_below, all_below-apply}
use nodepp.Prelude.{
  ℕ, zero, suc, ◌+◌, ◌-◌, ◌*◌, ◌/◌, ◌%◌, ◌^◌, ◌<◌, bit_and, bit_or, ◌≡◌, refl, ap, ap₂, sym, ◌∙◌,
  inl, inr, Bool, true, false, ◌&&◌, All, List, [], ◌∷◌, ◌++◌, Option, none, some, length, ltb, leb,
  ◌==◌, ==_iff, if◌then◌else◌, Bool-cases, arith,
}

-- NODEPP_BASE8, by the code of its character.
unfoldable pub digit : ℕ → ℕ
digit v = if ltb v 10 then v + 48 else v + 87

-- What `btoa` takes a character for; `none` where it gives up.
unfoldable pub value : ℕ → Option ℕ
value c =
    if leb 48 c && leb c 57
    then some (c - 48)
    else if leb 97 c && leb c 102
    then some (c - 87)
    else if leb 65 c && leb c 70
    then some (c - 55)
    else none

-- `do{ out.unshift( … ); tmp >>= 4; } while( tmp != 0 )`, at most one round for each digit of a word.
unfoldable pub atob_loop : ℕ → ℕ → List ℕ → List ℕ
unfolding digit
atob_loop zero n out = out
atob_loop (suc fuel) n out =
    let more = digit (bit_and n 0x0F) ∷ out in
    let rest = atob_loop fuel (n / 2 ^ 4) more in if n / 2 ^ 4 == 0 then more else rest

unfoldable pub atob : ℕ → ℕ → List ℕ
unfolding atob_loop
atob w n = let out = atob_loop w n [] in if length out % 2 == 0 then out else 48 ∷ out

unfoldable pub btoa_loop : ℕ → ℕ → List ℕ → ℕ
unfolding value
btoa_loop w out [] = out
btoa_loop w out (c ∷ cs) = elim (value c) [
  | none ↦ 0
  | some v ↦ btoa_loop w (bit_or (out * 2 ^ 4 % 2 ^ w) v) cs
]

unfoldable pub btoa : ℕ → List ℕ → ℕ
unfolding btoa_loop
btoa w text = btoa_loop w 0 text

-- The text of bytes.
unfoldable pub atob_bytes : List ℕ → List ℕ
unfolding atob
atob_bytes [] = []
atob_bytes (x ∷ xs) = atob 8 x ++ atob_bytes xs

-- Two characters at a time, one at the end of a text of odd length.
unfoldable pub btoa_bytes : List ℕ → List ℕ
unfolding btoa
btoa_bytes [] = []
btoa_bytes (c ∷ []) = btoa 8 (c ∷ []) ∷ []
btoa_bytes (c ∷ d ∷ cs) = btoa 8 (c ∷ d ∷ []) ∷ btoa_bytes cs

reads_back : ℕ → Bool
unfolding digit value
reads_back v = elim (value (digit v)) [ none ↦ false | some w ↦ w == v ]

value-digit : (v : ℕ) → v < 16 → value (digit v) ≡ some v
unfolding reads_back all_below digit value
value-digit v h = found (value (digit v)) (all_below-apply 16 reads_back v refl h)
  where
    found : (o : Option ℕ) → elim o [ none ↦ false | some w ↦ w == v ] ≡ true → o ≡ some v
    found none e = ground arith
    found (some w) e = ap some ((==_iff w v).0 e)

read_digit :
    (w out v : ℕ) (cs : List ℕ)
    → v < 16
    → out * 16 + v < 2 ^ w
    → btoa_loop w out (digit v ∷ cs) ≡ btoa_loop w (out * 16 + v) cs
unfolding btoa_loop
read_digit w out v cs h fits =
    let same : out * 2 ^ 4 % 2 ^ w ≡ out * 2 ^ 4 = mod-eq_of_lt (omega arith) in
    let joined : bit_or (out * 2 ^ 4 % 2 ^ w) v ≡ out * 16 + v =
      ap (λ o. bit_or o v) same ∙ bit_or_fields 4 out v (omega arith) in
    rw (value-digit v h, btoa_loop) (ap (λ o. btoa_loop w o cs) joined)

-- The digits of `n` are read in front of `out`.
btoa_loop-atob_loop :
    (w fuel n : ℕ) (out : List ℕ)
    → n < 2 ^ w
    → n < 2 ^ fuel
    → btoa_loop w 0 (atob_loop fuel n out) ≡ btoa_loop w n out
unfolding atob_loop
btoa_loop-atob_loop w zero n out h enough = ap (λ k. btoa_loop w k out) (omega arith)
btoa_loop-atob_loop w (suc fuel) n out h enough =
    let low : bit_and n 0x0F ≡ n % 16 = bit_and_mask 4 n in
    let whole : n / 2 ^ 4 * 16 + n % 16 ≡ n = omega arith in
    elim (Bool-cases (n / 2 ^ 4 == 0)) [
      | inl e ↦
          let small : n % 16 ≡ n = omega (arith, (==_iff (n / 2 ^ 4) 0).0 e) in
          rw (e, low)
            (read_digit w 0 (n % 16) out (omega arith) (omega (arith, small, h))
              ∙ ap (λ o. btoa_loop w o out) (omega (arith, small)))
      | inr e ↦
          let left : n / 2 ^ 4 < 2 ^ fuel = omega (arith, pow-suc 2 fuel) in
          rw (e, low)
            (btoa_loop-atob_loop w fuel (n / 2 ^ 4) (digit (n % 16) ∷ out) (omega arith) left
              ∙ read_digit w (n / 2 ^ 4) (n % 16) out (omega arith) (omega arith)
              ∙ ap (λ o. btoa_loop w o out) whole)
    ]

-- Integers.
pub hex_btoa-atob : (w n : ℕ) → n < 2 ^ w → btoa w (atob w n) ≡ n
unfolding btoa atob
hex_btoa-atob w n h =
    let out = atob_loop w n [] in
    let read : btoa_loop w 0 out ≡ n = btoa_loop-atob_loop w w n [] h h in
    elim (Bool-cases (length out % 2 == 0)) [
      | inl e ↦ rw e read
      | inr e ↦ rw e (read_digit w 0 0 out (omega arith) (omega (arith, one-le-pow w 2)) ∙ read)
    ]

two_digits : ℕ → Bool
unfolding atob
two_digits v = length (atob 8 v) == 2

byte-pair : (v : ℕ) → v < 256 → (c : ℕ) × (d : ℕ) × (atob 8 v ≡ c ∷ d ∷ [])
unfolding two_digits all_below atob atob_loop
byte-pair v h =
    pair (atob 8 v) ((==_iff (length (atob 8 v)) 2).0 (all_below-apply 256 two_digits v refl h))
  where
    pair : (cs : List ℕ) → length cs ≡ 2 → (c : ℕ) × (d : ℕ) × (cs ≡ c ∷ d ∷ [])
    pair [] e = absurd (omega (arith, e))
    pair (c ∷ []) e = absurd (omega (arith, e))
    pair (c ∷ d ∷ []) e = (c, d, refl)
    pair (c ∷ d ∷ b ∷ cs) e = absurd (omega (arith, e))

-- Any list of bytes comes back from its hexadecimal text.
pub btoa_bytes-atob_bytes :
    (bytes : List ℕ) → All (λ x. x < 256) bytes → btoa_bytes (atob_bytes bytes) ≡ bytes
unfolding btoa_bytes atob_bytes
btoa_bytes-atob_bytes [] h = refl
btoa_bytes-atob_bytes (x ∷ xs) (p, h) =
    let (c, d, e) = byte-pair x p in
    let first : btoa 8 (c ∷ d ∷ []) ≡ x = ap (btoa 8) (sym e) ∙ hex_btoa-atob 8 x (omega arith) in
    rw e (ap₂ ◌∷◌ first (btoa_bytes-atob_bytes xs h))

-- encoder::base16, on a string that is read as bytes and on bytes that are written as a string.
abbrev pub base16_atob : List ℕ → List ℕ
base16_atob = atob_bytes

abbrev pub base16_btoa : List ℕ → List ℕ
base16_btoa = btoa_bytes
