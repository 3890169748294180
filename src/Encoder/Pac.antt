-- ===== src/Encoder/Pac.antt =====
-- encoder::pac: a checksum of an address, signed with a mask, in the 16 bits above the address.
-- `pre` is the address of the process's shutdown flag, which both functions use as a key.
use native.Mathlib.Nat.{mod-eq_of_lt}
use nodepp.Bits.{bit_or_fields, bit_or_comm, bit_and_mask, bit_xor_cancel, bit_xor-mod}
use nodepp.Encoder.Endian.{flip_word}
use nodepp.Prelude.{
  ℕ, ◌+◌, ◌-◌, ◌*◌, ◌/◌, ◌%◌, ◌^◌, ◌<◌, bit_and, bit_or, bit_xor, ◌≡◌, ◌≢◌, refl, ap, ◌∙◌, true,
  inl, inr, ◌==◌, ==_iff, if◌then◌else◌, Bool-cases, arith,
}

-- `( word ^ key ) & ovf`, where `ovf` is `(uchar_64)-1 >> 16`.
keyed : ℕ → ℕ → ℕ
keyed word key = bit_and (bit_xor word key) ((2 ^ 64 - 1) / 2 ^ 16)

-- `pre ^ endian::flip(pre)`
spread : ℕ → ℕ
spread word = bit_xor word (flip_word 8 word)

-- `( col^(col>>16)^(col>>32)^(col>>48) ) & 0xffff`
checksum : ℕ → ℕ
checksum col =
    bit_and (bit_xor (bit_xor (bit_xor col (col / 2 ^ 16)) (col / 2 ^ 32)) (col / 2 ^ 48)) 0xffff

pub atob : ℕ → ℕ → ℕ → ℕ
unfolding keyed checksum spread
atob pre address mask =
    let raw = keyed address (spread pre) in
    let col = keyed address (spread mask) in bit_or raw (checksum col * 2 ^ 48 % 2 ^ 64)

pub btoa : ℕ → ℕ → ℕ → ℕ
unfolding keyed checksum spread
btoa pre address mask =
    let raw = keyed address (spread pre) in
    let col = keyed raw (spread mask) in
    let out = bit_and (address / 2 ^ 48) 0xffff in if out == checksum col then raw else 0

keyed-low : (word key : ℕ) → keyed word key ≡ bit_xor (word % 2 ^ 48) (key % 2 ^ 48)
unfolding keyed
keyed-low word key = bit_and_mask 48 (bit_xor word key) ∙ bit_xor-mod 48 word key

keyed-lt : (word key : ℕ) → keyed word key < 2 ^ 48
unfolding keyed
keyed-lt word key = rw (bit_and_mask 48 (bit_xor word key)) (omega arith)

-- The address comes back from what is keyed, whatever stands above its 48 bits.
keyed_twice : (word key high : ℕ) → keyed (high * 2 ^ 48 + keyed word key) key ≡ word % 2 ^ 48
keyed_twice word key high =
    let low : (high * 2 ^ 48 + keyed word key) % 2 ^ 48 ≡ keyed word key =
      omega (arith, keyed-lt word key) in
    keyed-low (high * 2 ^ 48 + keyed word key) key
    ∙ ap (λ w. bit_xor w (key % 2 ^ 48)) (low ∙ keyed-low word key)
    ∙ bit_xor_cancel (word % 2 ^ 48) (key % 2 ^ 48)

checksum-lt : (col : ℕ) → checksum col < 2 ^ 16
unfolding checksum
checksum-lt col =
    rw
      (bit_and_mask 16
        (bit_xor (bit_xor (bit_xor col (col / 2 ^ 16)) (col / 2 ^ 32)) (col / 2 ^ 48)))
      (omega arith)

joined :
    (raw sum : ℕ)
    → raw < 2 ^ 48
    → sum < 2 ^ 16
    → bit_or raw (sum * 2 ^ 48 % 2 ^ 64) ≡ sum * 2 ^ 48 + raw
joined raw sum low high =
    let fits : sum * 2 ^ 48 % 2 ^ 64 ≡ sum * 2 ^ 48 = mod-eq_of_lt (omega arith) in
    ap (bit_or raw) fits ∙ bit_or_comm raw (sum * 2 ^ 48) ∙ bit_or_fields 48 sum raw low

-- The two fields of a signed address.
atob-fields :
    (pre address mask : ℕ)
    → atob pre address mask
      ≡ checksum (keyed address (spread mask)) * 2 ^ 48 + keyed address (spread pre)
unfolding atob
atob-fields pre address mask =
    joined (keyed address (spread pre)) (checksum (keyed address (spread mask)))
      (keyed-lt address (spread pre)) (checksum-lt (keyed address (spread mask)))

btoa-accepts :
    (pre address mask raw : ℕ)
    → keyed address (spread pre) ≡ raw
    → bit_and (address / 2 ^ 48) 0xffff ≡ checksum (keyed raw (spread mask))
    → btoa pre address mask ≡ raw
unfolding btoa
btoa-accepts pre address mask raw e same =
    let test : (bit_and (address / 2 ^ 48) 0xffff == checksum (keyed raw (spread mask))) ≡ true =
      (==_iff (bit_and (address / 2 ^ 48) 0xffff) (checksum (keyed raw (spread mask)))).1 same in
    rw (e, test) refl

-- An address of 48 bits that is signed with a mask comes back when it is checked with the same
-- mask.
pub pac_btoa-atob :
    (pre address mask : ℕ) → address < 2 ^ 48 → btoa pre (atob pre address mask) mask ≡ address
pac_btoa-atob pre address mask h =
    let sum = checksum (keyed address (spread mask)) in
    let raw = keyed address (spread pre) in
    let low : sum < 2 ^ 16 = checksum-lt (keyed address (spread mask)) in
    let out : bit_and ((sum * 2 ^ 48 + raw) / 2 ^ 48) 0xffff ≡ sum =
      bit_and_mask 16 ((sum * 2 ^ 48 + raw) / 2 ^ 48)
      ∙ omega (arith, keyed-lt address (spread pre), low) in
    ap (λ signed. btoa pre signed mask) (atob-fields pre address mask)
    ∙ btoa-accepts pre (sum * 2 ^ 48 + raw) mask address
        (keyed_twice address (spread pre) sum ∙ mod-eq_of_lt h) out

-- A word of 64 bits from which checking with a mask gives an address other than 0 is the word that
-- signing this address with the mask gives.
pub pac_atob-btoa :
    (pre word mask : ℕ)
    → word < 2 ^ 64
    → btoa pre word mask ≢ 0
    → atob pre (btoa pre word mask) mask ≡ word
unfolding btoa keyed
pac_atob-btoa pre word mask h accepted =
    let raw = keyed word (spread pre) in
    let col = keyed raw (spread mask) in
    elim (Bool-cases (bit_and (word / 2 ^ 48) 0xffff == checksum col)) [
      | inl e ↦
          let out : word / 2 ^ 48 ≡ checksum col = omega (
            arith,
            bit_and_mask 16 (word / 2 ^ 48),
            (==_iff (bit_and (word / 2 ^ 48) 0xffff) (checksum col)).0 e,
          ) in
          let back : keyed raw (spread pre) ≡ word % 2 ^ 48 =
            ap (λ r. keyed r (spread pre)) (omega arith) ∙ keyed_twice word (spread pre) 0 in
          ap (λ address. atob pre address mask) (rw (e, btoa) refl)
          ∙ atob-fields pre raw mask
          ∙ omega (arith, out, back)
      | inr e ↦ absurd (accepted (rw (e, btoa) refl))
    ]

-- A signed address fits 64 bits.
pub atob-lt : (pre address mask : ℕ) → atob pre address mask < 2 ^ 64
atob-lt pre address mask = omega (
  arith,
  atob-fields pre address mask,
  keyed-lt address (spread pre),
  checksum-lt (keyed address (spread mask)),
)
