-- ===== src/Bits.antt =====
-- `&`, `|` and `^` of unsigned words at variables, as arithmetic: the laws that the encoders and
-- the UTF converters need.
mod Step
pub mod Table
use Prim.Native.Nat.{bit_xor-bitwise}
use native.Mathlib.Nat.{pow-suc, one-le-pow, div-add-mod, div-div-eq-div-mul, mul_comm, mod-one}
use nodepp.Prelude.{
  ℕ, zero, suc, ◌+◌, ◌-◌, ◌*◌, ◌/◌, ◌%◌, ◌^◌, ◌<◌, min, bit_and, bit_or, bit_xor, ◌≡◌, refl, ap,
  sym, ◌∙◌, arith,
}
use nodepp.Prelude.Order.{strong_induction}
use Step.{bit_and_step, bit_or_step, bit_xor_step}

-- Induction from the half of a number to the number.
half_induction : (P : ℕ → Type 0) → P 0 → ((n : ℕ) → P (suc n / 2) → P (suc n)) → (n : ℕ) → P n
half_induction P base step = strong_induction P from_below
  where
    from_below : (n : ℕ) → ((m : ℕ) → m < n → P m) → P n
    from_below zero ih = base
    from_below (suc n) ih = step n (ih (suc n / 2) (omega arith))

pub bit_or-zero : (x : ℕ) → bit_or x 0 ≡ x
bit_or-zero =
    half_induction (λ x. bit_or x 0 ≡ x) refl (λ n ih. omega (arith, bit_or_step (suc n) 0, ih))

bit_or_zero_left : (x : ℕ) → bit_or 0 x ≡ x
bit_or_zero_left =
    half_induction (λ x. bit_or 0 x ≡ x) refl (λ n ih. omega (arith, bit_or_step 0 (suc n), ih))

pub bit_and-zero : (x : ℕ) → bit_and x 0 ≡ 0
bit_and-zero =
    half_induction (λ x. bit_and x 0 ≡ 0) refl (λ n ih. omega (arith, bit_and_step (suc n) 0, ih))

bit_xor_self : (x : ℕ) → bit_xor x x ≡ 0
bit_xor_self =
    half_induction (λ x. bit_xor x x ≡ 0) refl
      (λ n ih. omega (arith, bit_xor_step (suc n) (suc n), ih))

pub bit_or_comm : (a b : ℕ) → bit_or a b ≡ bit_or b a
bit_or_comm = strong_induction (λ a. (b : ℕ) → bit_or a b ≡ bit_or b a) step
  where
    step :
        (n : ℕ)
        → ((m : ℕ) → m < n → (b : ℕ) → bit_or m b ≡ bit_or b m)
        → (b : ℕ) → bit_or n b ≡ bit_or b n
    step zero ih b = bit_or_zero_left b ∙ sym (bit_or-zero b)
    step (suc n) ih b =
        omega (
          arith,
          bit_or_step (suc n) b,
          bit_or_step b (suc n),
          ih (suc n / 2) (omega arith) (b / 2),
        )

shift_suc : (q k : ℕ) → q * 2 ^ suc k ≡ q * 2 ^ k * 2
shift_suc q k = omega (arith, ap (λ (t : ℕ). q * t) (pow-suc 2 k))

-- A word shifted left by `w` and a word of `w` bits share no bit: `|` adds them.
pub bit_or_fields : (w high low : ℕ) → low < 2 ^ w → bit_or (high * 2 ^ w) low ≡ high * 2 ^ w + low
bit_or_fields zero high low small = ground (arith, bit_or-zero high)
bit_or_fields (suc w) high low small =
    let lower = bit_or_fields w high (low / 2) in
    ground (arith, lower, shift_suc high w, bit_or_step (high * 2 ^ suc w) low, pow-suc 2 w)

pub bit_and_fields : (w high low : ℕ) → low < 2 ^ w → bit_and (high * 2 ^ w + low) (2 ^ w - 1) ≡ low
bit_and_fields zero high low small = ground (arith, bit_and-zero (high * 2 ^ 0 + low))
bit_and_fields (suc w) high low small =
    let lower = bit_and_fields w high (low / 2) in
    let lowest = bit_and_step (high * 2 ^ suc w + low) (2 ^ suc w - 1) in
    ground (arith, lower, lowest, one-le-pow w 2, shift_suc high w, pow-suc 2 w)

-- A mask of `w` ones keeps the remainder by `2 ^ w`.
pub bit_and_mask : (w word : ℕ) → bit_and word (2 ^ w - 1) ≡ word % 2 ^ w
bit_and_mask w word =
    let fields = bit_and_fields w (word / 2 ^ w) (word % 2 ^ w) in
    ground (arith, fields, one-le-pow w 2)

xor_halves :
    (a b : ℕ) → (bit_xor a b / 2 ≡ bit_xor (a / 2) (b / 2)) × (bit_xor a b % 2 ≡ (a + b) % 2)
xor_halves a b = omega (arith, bit_xor_step a b)

-- Applying a word by `^` twice gives the first word back.
pub bit_xor_cancel : (a b : ℕ) → bit_xor (bit_xor a b) b ≡ a
bit_xor_cancel = strong_induction (λ a. (b : ℕ) → bit_xor (bit_xor a b) b ≡ a) step
  where
    step :
        (n : ℕ)
        → ((m : ℕ) → m < n → (b : ℕ) → bit_xor (bit_xor m b) b ≡ m)
        → (b : ℕ) → bit_xor (bit_xor n b) b ≡ n
    step zero ih b = rw (bit_xor-bitwise 0 b) (bit_xor_self b)
    step (suc n) ih b =
        let c = bit_xor (suc n) b in
        let e = bit_xor_step c b in
        let halves = xor_halves (suc n) b in
        let i = ih (suc n / 2) (omega arith) (b / 2) in e ∙ rw (halves.0, i) (omega arith)

mod_twice : (m x : ℕ) → x % (m * 2) ≡ x / 2 % m * 2 + x % 2
mod_twice m x =
    ground
      (arith, div-add-mod x (m * 2), div-add-mod (x / 2) m, div-div-eq-div-mul x 2 m, mul_comm m 2)

half_mod : (k x : ℕ) → x % 2 ^ suc k ≡ x / 2 % 2 ^ k * 2 + x % 2
half_mod k x = rw (pow-suc 2 k) (mod_twice (2 ^ k) x)

-- `^` works bit by bit, so it commutes with keeping the low `k` bits.
pub bit_xor-mod : (k a b : ℕ) → bit_xor a b % 2 ^ k ≡ bit_xor (a % 2 ^ k) (b % 2 ^ k)
bit_xor-mod zero a b = ground (arith, mod-one a, mod-one b, mod-one (bit_xor a b))
bit_xor-mod (suc k) a b =
    let low : (x : ℕ) → (x % 2 ^ suc k / 2 ≡ x / 2 % 2 ^ k) × (x % 2 ^ suc k % 2 ≡ x % 2) =
      λ x. omega (arith, half_mod k x) in
    half_mod k (bit_xor a b)
    ∙ rw ((xor_halves a b).0, (xor_halves a b).1, bit_xor-mod k (a / 2) (b / 2))
        (sym (
          bit_xor_step (a % 2 ^ suc k) (b % 2 ^ suc k)
          ∙ rw ((low a).0, (low b).0) (omega (arith, low a, low b))))
