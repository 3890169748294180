-- ===== src/Encoder/Base64/RoundTrip.antt =====
-- encoder::base64: `atob` followed by `btoa`.
use nodepp.Bits.{bit_and_mask}
use nodepp.Bits.Table.{all_below, all_below-apply}
use nodepp.Encoder.Base64.{
  digit, place, atob, btoa, atob_loop, atob_digits, atob_end, pad, btoa_loop,
}
use nodepp.Prelude.{
  ℕ, zero, suc, ◌+◌, ◌-◌, ◌*◌, ◌/◌, ◌%◌, ◌^◌, ◌<◌, bit_and, ◌≡◌, refl, ap, ap₂, ◌∙◌, Bool, true,
  false, List, [], ◌∷◌, ◌++◌, All, Option, none, some, ltb, ◌==◌, ==_iff, if◌then◌else◌, length,
  replicate, length-append, length-replicate, arith,
}

reads_back : ℕ → Bool
unfolding digit place
reads_back v = elim (place (digit v)) [ none ↦ false | some w ↦ w == v ]

-- The table gives back the place of a digit.
place-digit : (v : ℕ) → v < 64 → place (digit v) ≡ some v
unfolding reads_back all_below digit place
place-digit v h =
    let test : reads_back v ≡ true = all_below-apply 64 reads_back v refl h in
    found (place (digit v)) test
  where
    found : (o : Option ℕ) → elim o [ none ↦ false | some w ↦ w == v ] ≡ true → o ≡ some v
    found none e = ground arith
    found (some w) e = ap some ((==_iff w v).0 e)

next : ℕ → ℕ → ℕ
next pos c = (pos * 2 ^ 8 + c) % 2 ^ 32

step : ℕ → ℕ → ℕ
step pos v = (pos * 2 ^ 6 + v) % 2 ^ 32

mask6 : (x v : ℕ) → x % 64 ≡ v → bit_and x 0x3F ≡ v
mask6 x v e = bit_and_mask 6 x ∙ e

mask8 : (x v : ℕ) → x % 256 ≡ v → bit_and x 0xFF ≡ v
mask8 x v e = bit_and_mask 8 x ∙ e

read_digit :
    (q bits v : ℕ) (cs : List ℕ)
    → v < 64
    → btoa_loop q bits (digit v ∷ cs) ≡ (
        if ltb (bits + 6) 8
        then btoa_loop (step q v) ((bits + 6) % 8) cs
        else bit_and (step q v / 2 ^ (bits + 6 - 8)) 0xFF
          ∷ btoa_loop (step q v) ((bits + 6) % 8) cs)
unfolding btoa_loop step
read_digit q bits v cs h = rw (place-digit v h, btoa_loop) refl

module _ (p : ℕ) where
  write_first :
      (a : ℕ) (cs : List ℕ)
      → a < 256
      → atob_loop p 0 (a ∷ cs) ≡ digit (a / 4) ∷ atob_loop (next p a) 2 cs
  unfolding atob_loop atob_digits next
  write_first a cs h =
      ap (λ v. digit v ∷ atob_loop (next p a) 2 cs) (mask6 (next p a / 2 ^ 2) (a / 4) (omega arith))

  write_second :
      (b : ℕ) (cs : List ℕ)
      → b < 256
      → atob_loop p 2 (b ∷ cs) ≡ digit (p % 4 * 16 + b / 16) ∷ atob_loop (next p b) 4 cs
  unfolding atob_loop atob_digits next
  write_second b cs h =
      ap (λ v. digit v ∷ atob_loop (next p b) 4 cs)
        (mask6 (next p b / 2 ^ 4) (p % 4 * 16 + b / 16) (omega arith))

  write_third :
      (c : ℕ) (cs : List ℕ)
      → c < 256
      → atob_loop p 4 (c ∷ cs)
        ≡ digit (p % 16 * 4 + c / 64) ∷ digit (c % 64) ∷ atob_loop (next p c) 0 cs
  unfolding atob_loop atob_digits next
  write_third c cs h =
      ap₂ (λ v w. digit v ∷ digit w ∷ atob_loop (next p c) 0 cs)
        (mask6 (next p c / 2 ^ 6) (p % 16 * 4 + c / 64) (omega arith))
        (mask6 (next p c / 2 ^ 0) (c % 64) (omega arith))

  end_second : atob_loop p 2 [] ≡ digit (p % 4 * 16) ∷ []
  unfolding atob_loop atob_end
  end_second =
      ap (λ v. digit v ∷ []) (mask6 (p * 2 ^ 8 % 2 ^ 32 / 2 ^ 4) (p % 4 * 16) (omega arith))

  end_third : atob_loop p 4 [] ≡ digit (p % 16 * 4) ∷ []
  unfolding atob_loop atob_end
  end_third = ap (λ v. digit v ∷ []) (mask6 (p * 2 ^ 8 % 2 ^ 32 / 2 ^ 6) (p % 16 * 4) (omega arith))

  read_first :
      (v w : ℕ) (cs : List ℕ)
      → v < 64
      → w < 64
      → btoa_loop p 0 (digit v ∷ digit w ∷ cs)
        ≡ (v * 4 + w / 16) ∷ btoa_loop (step (step p v) w) 4 cs
  unfolding step
  read_first v w cs hv hw =
      read_digit p 0 v (digit w ∷ cs) hv
      ∙ read_digit (step p v) 6 w cs hw
      ∙ ap (λ x. x ∷ btoa_loop (step (step p v) w) 4 cs)
          (mask8 (step (step p v) w / 2 ^ 4) (v * 4 + w / 16) (omega arith))

  read_second :
      (v : ℕ) (cs : List ℕ)
      → v < 64
      → btoa_loop p 4 (digit v ∷ cs) ≡ (p % 16 * 16 + v / 4) ∷ btoa_loop (step p v) 2 cs
  unfolding step
  read_second v cs hv =
      read_digit p 4 v cs hv
      ∙ ap (λ x. x ∷ btoa_loop (step p v) 2 cs)
          (mask8 (step p v / 2 ^ 2) (p % 16 * 16 + v / 4) (omega arith))

  read_third :
      (v : ℕ) (cs : List ℕ)
      → v < 64
      → btoa_loop p 2 (digit v ∷ cs) ≡ (p % 4 * 64 + v) ∷ btoa_loop (step p v) 0 cs
  unfolding step
  read_third v cs hv =
      read_digit p 2 v cs hv
      ∙ ap (λ x. x ∷ btoa_loop (step p v) 0 cs)
          (mask8 (step p v / 2 ^ 0) (p % 4 * 64 + v) (omega arith))

first_byte : (p a b : ℕ) → a < 256 → b < 256 → a / 4 * 4 + (next p a % 4 * 16 + b / 16) / 16 ≡ a
unfolding next
first_byte p a b ha hb = omega arith

second_byte :
    (p q a b c : ℕ)
    → b < 256
    → c < 256
    → step q (next p a % 4 * 16 + b / 16) % 16 * 16 + (next (next p a) b % 16 * 4 + c / 64) / 4 ≡ b
unfolding next step
second_byte p q a b c hb hc = omega arith

third_byte : (p q b c : ℕ) → c < 256 → step q (next p b % 16 * 4 + c / 64) % 4 * 64 + c % 64 ≡ c
unfolding next step
third_byte p q b c hc = omega arith

-- The suffix of `=` ends the loop, and so does the end of the text.
btoa_loop-pad : (q bits n : ℕ) → btoa_loop q bits (replicate n 61) ≡ []
unfolding btoa_loop place
btoa_loop-pad q bits zero = refl
btoa_loop-pad q bits (suc n) = refl

-- A group of three bytes at a time, from any state of the two accumulators.
module _ (n : ℕ) where
  read_one :
      (p q a : ℕ) → a < 256 → btoa_loop q 0 (atob_loop p 0 (a ∷ []) ++ replicate n 61) ≡ a ∷ []
  read_one p q a ha =
      let p1 = next p a in
      let q2 = step (step q (a / 4)) (p1 % 4 * 16) in
      ap (λ out. btoa_loop q 0 (out ++ replicate n 61))
        (write_first p a [] ha ∙ ap (◌∷◌ (digit (a / 4))) (end_second p1))
      ∙ read_first q (a / 4) (p1 % 4 * 16) (replicate n 61) (omega arith) (omega arith)
      ∙ ap₂ ◌∷◌ (omega (arith, first_byte p a 0 ha (omega arith))) (btoa_loop-pad q2 4 n)

  read_two :
      (p q a b : ℕ)
      → a < 256
      → b < 256
      → btoa_loop q 0 (atob_loop p 0 (a ∷ b ∷ []) ++ replicate n 61) ≡ a ∷ b ∷ []
  unfolding next step
  read_two p q a b ha hb =
      let p1 = next p a in
      let p2 = next p1 b in
      let v = p1 % 4 * 16 + b / 16 in
      let w = p2 % 16 * 4 in
      let q2 = step (step q (a / 4)) v in
      let second : q2 % 16 * 16 + w / 4 ≡ b =
        omega (arith, second_byte p (step q (a / 4)) a b 0 hb) in
      ap (λ out. btoa_loop q 0 (out ++ replicate n 61))
        (write_first p a (b ∷ []) ha
          ∙ ap (◌∷◌ (digit (a / 4))) (write_second p1 b [] hb ∙ ap (◌∷◌ (digit v)) (end_third p2)))
      ∙ read_first q (a / 4) v (digit w ∷ replicate n 61) (omega arith) (omega arith)
      ∙ ap₂ ◌∷◌ (first_byte p a b ha hb) (
          read_second q2 w (replicate n 61) (omega arith)
          ∙ ap₂ ◌∷◌ second (btoa_loop-pad (step q2 w) 2 n))

  read_three :
      (p q a b c : ℕ) (xs : List ℕ)
      → a < 256
      → b < 256
      → c < 256
      → (ih : (p q : ℕ) → btoa_loop q 0 (atob_loop p 0 xs ++ replicate n 61) ≡ xs)
      → btoa_loop q 0 (atob_loop p 0 (a ∷ b ∷ c ∷ xs) ++ replicate n 61) ≡ a ∷ b ∷ c ∷ xs
  read_three p q a b c xs ha hb hc ih =
      let p1 = next p a in
      let p2 = next p1 b in
      let p3 = next p2 c in
      let v = p1 % 4 * 16 + b / 16 in
      let w = p2 % 16 * 4 + c / 64 in
      let q2 = step (step q (a / 4)) v in
      let q3 = step q2 w in
      let tail = atob_loop p3 0 xs ++ replicate n 61 in
      ap (λ out. btoa_loop q 0 (out ++ replicate n 61))
        (write_first p a (b ∷ c ∷ xs) ha
          ∙ ap (◌∷◌ (digit (a / 4)))
              (write_second p1 b (c ∷ xs) hb ∙ ap (◌∷◌ (digit v)) (write_third p2 c xs hc)))
      ∙ read_first q (a / 4) v (digit w ∷ digit (c % 64) ∷ tail) (omega arith) (omega arith)
      ∙ ap₂ ◌∷◌ (first_byte p a b ha hb) (
          read_second q2 w (digit (c % 64) ∷ tail) (omega arith)
          ∙ ap₂ ◌∷◌ (second_byte p (step q (a / 4)) a b c hb hc) (
              read_third q3 (c % 64) tail (omega arith)
              ∙ ap₂ ◌∷◌ (third_byte p1 q2 b c hc) (ih p3 (step q3 (c % 64)))))

  btoa_loop-atob_loop :
      (xs : List ℕ)
      → All (λ x. x < 256) xs
      → (p q : ℕ) → btoa_loop q 0 (atob_loop p 0 xs ++ replicate n 61) ≡ xs
  unfolding atob_loop atob_end
  btoa_loop-atob_loop [] bytes p q = btoa_loop-pad q 0 n
  btoa_loop-atob_loop (a ∷ []) (ha, _) p q = read_one p q a ha
  btoa_loop-atob_loop (a ∷ b ∷ []) (ha, (hb, _)) p q = read_two p q a b ha hb
  btoa_loop-atob_loop (a ∷ b ∷ c ∷ xs) (ha, (hb, (hc, rest))) p q =
      read_three p q a b c xs ha hb hc (btoa_loop-atob_loop xs rest)

-- Any list of bytes, of any length, comes back when its base64 text is decoded.
pub base64_btoa-atob : (bytes : List ℕ) → All (λ x. x < 256) bytes → btoa (atob bytes) ≡ bytes
unfolding btoa atob pad
base64_btoa-atob bytes h =
    let out = atob_loop 0 0 bytes in btoa_loop-atob_loop ((4 - length out % 4) % 4) bytes h 0 0

-- Its length is a multiple of four.
pub length-base64_atob : (bytes : List ℕ) → length (atob bytes) % 4 ≡ 0
unfolding atob pad
length-base64_atob bytes =
    let out = atob_loop 0 0 bytes in
    let n = (4 - length out % 4) % 4 in
    omega (arith, length-append out (replicate n 61), length-replicate {A = ℕ} n 61)
