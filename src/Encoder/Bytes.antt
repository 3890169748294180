-- ===== src/Encoder/Bytes.antt =====
-- encoder::bytes: an integer of `w` bytes and its bytes, the highest first.
use native.Mathlib.Nat.{
  div-div-eq-div-mul, mod-eq_of_lt, div-one, div-le_self, div-eq_of_lt, div-add-mod, mod-lt,
  one-le-pow,
}
use native.Mathlib.Numerals.{towards_suc}
use nodepp.Bits.{bit_or_fields}
use nodepp.Prelude.{
  ℕ, zero, suc, ◌+◌, ◌*◌, ◌/◌, ◌%◌, ◌^◌, ◌≤◌, ◌<◌, ◌≡◌, refl, ap, ap₂, sym, ◌∙◌, bit_or, List, [],
  ◌∷◌, length, All, arith,
}

-- The loop of `atob`, by the bytes that are left: byte `y` is the word shifted by `8*(size-y-1)`.
atob_loop : ℕ → ℕ → List ℕ
atob_loop zero n = []
atob_loop (suc k) n = n / 2 ^ (8 * k) % 2 ^ 8 ∷ atob_loop k n

pub atob : ℕ → ℕ → List ℕ
unfolding atob_loop
atob w n = atob_loop w n

btoa_loop : ℕ → ℕ → List ℕ → ℕ
btoa_loop w out [] = out
btoa_loop w out (b ∷ bs) = btoa_loop w (bit_or (out * 2 ^ 8 % 2 ^ (8 * w)) b) bs

pub btoa : ℕ → List ℕ → ℕ
unfolding btoa_loop
btoa w bs = btoa_loop w 0 bs

pow_byte : (k : ℕ) → 2 ^ (8 * suc k) ≡ 2 ^ (8 * k) * 256
pow_byte k = let e : 8 * suc k ≡ 8 * k + 8 = omega arith in rw e (simp towards_suc (omega arith))

high : (n k : ℕ) → n / 2 ^ (8 * suc k) ≡ n / 2 ^ (8 * k) / 256
high n k = rw pow_byte (sym (div-div-eq-div-mul n (2 ^ (8 * k)) 256))

push_byte : (m out b : ℕ) → out * 256 + b < m → b < 256 → bit_or (out * 2 ^ 8 % m) b ≡ out * 256 + b
push_byte m out b h lt = rw (mod-eq_of_lt fits) (bit_or_fields 8 out b lt)
  where
    fits : out * 2 ^ 8 < m
    fits = omega arith

btoa_loop-atob_loop :
    (w k n : ℕ) → n < 2 ^ (8 * w) → btoa_loop w (n / 2 ^ (8 * k)) (atob_loop k n) ≡ n
unfolding btoa_loop atob_loop
btoa_loop-atob_loop w zero n h = div-one n
btoa_loop-atob_loop w (suc k) n h =
    let q = n / 2 ^ (8 * k) in
    let fits : q / 256 * 256 + q % 2 ^ 8 < 2 ^ (8 * w) =
      omega (arith, div-le_self n (2 ^ (8 * k))) in
    let joined : q / 256 * 256 + q % 2 ^ 8 ≡ q = omega arith in
    ap (λ out. btoa_loop w out (atob_loop (suc k) n)) (high n k)
    ∙ ap (λ out. btoa_loop w out (atob_loop k n))
        (push_byte (2 ^ (8 * w)) (q / 256) (q % 2 ^ 8) fits (omega arith) ∙ joined)
    ∙ btoa_loop-atob_loop w k n h

-- An unsigned integer of a number of bytes comes back from its bytes.
pub bytes_btoa-atob : (w n : ℕ) → n < 2 ^ (8 * w) → btoa w (atob w n) ≡ n
unfolding btoa atob
bytes_btoa-atob w n h =
    let e : n / 2 ^ (8 * w) ≡ 0 = div-eq_of_lt h in
    ap (λ out. btoa_loop w out (atob_loop w n)) (sym e) ∙ btoa_loop-atob_loop w w n h

-- The number that bytes stand for behind the digits of `out`.
value : ℕ → List ℕ → ℕ
value out [] = out
value out (b ∷ bs) = value (out * 256 + b) bs

abbrev pub AreBytes : List ℕ → Type 0
AreBytes = All (λ b. b < 256)

le-value : (out : ℕ) (bs : List ℕ) → out ≤ value out bs
unfolding value
le-value out [] = omega arith
le-value out (b ∷ bs) = omega (arith, le-value (out * 256 + b) bs)

value-high : (out : ℕ) (bs : List ℕ) → AreBytes bs → value out bs / 2 ^ (8 * length bs) ≡ out
unfolding value
value-high out [] h = div-one out
value-high out (b ∷ bs) (h, t) =
    rw (high (value (out * 256 + b) bs) (length bs), value-high (out * 256 + b) bs t) (omega arith)

btoa_loop-value :
    (w out : ℕ) (bs : List ℕ)
    → AreBytes bs
    → value out bs < 2 ^ (8 * w)
    → btoa_loop w out bs ≡ value out bs
unfolding btoa_loop value
btoa_loop-value w out [] h lt = refl
btoa_loop-value w out (b ∷ bs) (h, t) lt =
    rw (push_byte (2 ^ (8 * w)) out b (omega (arith, le-value (out * 256 + b) bs)) h)
      (btoa_loop-value w (out * 256 + b) bs t lt)

atob_loop-value : (out : ℕ) (bs : List ℕ) → AreBytes bs → atob_loop (length bs) (value out bs) ≡ bs
unfolding atob_loop value
atob_loop-value out [] h = refl
atob_loop-value out (b ∷ bs) (h, t) =
    rw (value-high (out * 256 + b) bs t)
      (ap₂ ◌∷◌ (omega arith) (atob_loop-value (out * 256 + b) bs t))

value-lt : (bs : List ℕ) → AreBytes bs → value 0 bs < 2 ^ (8 * length bs)
value-lt bs h =
    let m = 2 ^ (8 * length bs) in
    let v = value 0 bs in
    let e = value-high 0 bs h in
    let pos = one-le-pow (8 * length bs) 2 in
    omega (
      arith,
      div-add-mod v m ∙ refl,
      ap (λ (t : ℕ). m * t) e,
      mod-lt v {m = m} (omega (arith, pos)),
    )

-- A list of bytes comes back from the integer of as many bytes that it is read as.
pub bytes_atob-btoa : (bs : List ℕ) → AreBytes bs → atob (length bs) (btoa (length bs) bs) ≡ bs
unfolding atob btoa
bytes_atob-btoa bs h =
    rw (btoa_loop-value (length bs) 0 bs h (value-lt bs h)) (atob_loop-value 0 bs h)
