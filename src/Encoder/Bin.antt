-- ===== src/Encoder/Bin.antt =====
-- encoder::bin: a word of `w` bits and its bits, the highest first.
use native.Mathlib.Nat.{mod-eq_of_lt, pow-suc, div-one, div-div-eq-div-mul, mul_comm, div-eq_of_lt}
use nodepp.Bits.{bit_or_fields, bit_and_mask}
use nodepp.Prelude.{
  ℕ, zero, suc, ◌+◌, ◌*◌, ◌/◌, ◌%◌, ◌^◌, ◌<◌, ◌≡◌, ap, sym, ◌∙◌, bit_and, bit_or, List, [], ◌∷◌,
  arith,
}

-- `out[x]= tmp & 0x01; tmp >>= 1` for `x` from the last index down: what is written so far stands
-- behind the bit that is written next.
atob_loop : ℕ → ℕ → List ℕ → List ℕ
atob_loop zero n written = written
atob_loop (suc k) n written = atob_loop k (n / 2 ^ 1) (bit_and n 0x01 ∷ written)

pub atob : ℕ → ℕ → List ℕ
unfolding atob_loop
atob w n = atob_loop w n []

btoa_loop : ℕ → ℕ → List ℕ → ℕ
btoa_loop w out [] = out
btoa_loop w out (x ∷ xs) = btoa_loop w (bit_or (out * 2 ^ 1 % 2 ^ w) (bit_and x 0x01)) xs

-- An empty array gives 0, as the loop does.
pub btoa : ℕ → List ℕ → ℕ
unfolding btoa_loop
btoa w bits = btoa_loop w 0 bits

low_bit : (n : ℕ) → bit_and n 0x01 ≡ n % 2
low_bit n = bit_and_mask 1 n

push_bit :
    (w out x : ℕ)
    → out * 2 + x % 2 < 2 ^ w
    → bit_or (out * 2 ^ 1 % 2 ^ w) (bit_and x 0x01) ≡ out * 2 + x % 2
push_bit w out x h =
    let fits : out * 2 ^ 1 < 2 ^ w = omega arith in
    rw (low_bit x, mod-eq_of_lt fits) (bit_or_fields 1 out (x % 2) (omega arith))

-- The bits of `n` are read back in front of `written`: `out` takes the value of what came before.
btoa_loop-atob_loop :
    (w k n : ℕ) (written : List ℕ)
    → n < 2 ^ w
    → btoa_loop w (n / 2 ^ k) (atob_loop k n written) ≡ btoa_loop w n written
unfolding btoa_loop atob_loop
btoa_loop-atob_loop w zero n written h = ap (λ o. btoa_loop w o written) (div-one n)
btoa_loop-atob_loop w (suc k) n written h =
    let e : n / 2 ^ suc k ≡ n / 2 / 2 ^ k =
      rw (pow-suc 2 k)
        (ap (λ m. n / m) (mul_comm (2 ^ k) 2) ∙ sym (div-div-eq-div-mul n 2 (2 ^ k))) in
    let bit : bit_or (n / 2 * 2 ^ 1 % 2 ^ w) (bit_and (bit_and n 0x01) 0x01) ≡ n =
      push_bit w (n / 2) (bit_and n 0x01) (omega (arith, low_bit n)) ∙ omega (arith, low_bit n) in
    ap (λ o. btoa_loop w o (atob_loop k (n / 2) (bit_and n 0x01 ∷ written))) e
    ∙ btoa_loop-atob_loop w k (n / 2) (bit_and n 0x01 ∷ written) (omega arith)
    ∙ ap (λ o. btoa_loop w o written) bit

-- A word of `w` bits is read back from its bits.
pub bin_btoa-atob : (w n : ℕ) → n < 2 ^ w → btoa w (atob w n) ≡ n
unfolding btoa atob
bin_btoa-atob w n h =
    let e : n / 2 ^ w ≡ 0 = div-eq_of_lt h in
    ap (λ out. btoa_loop w out (atob_loop w n [])) (sym e) ∙ btoa_loop-atob_loop w w n [] h
