-- ===== src/Utf/Points.antt =====
-- One code point through `encode` and `decode`, and through `units` and `decode_unit`.
use nodepp.Bits.{bit_or_fields, bit_and_mask}
use nodepp.Prelude.{
  ℕ, ◌-◌, ◌*◌, ◌/◌, ◌%◌, ◌^◌, ◌≤◌, ◌<◌, bit_and, bit_or, ◌≡◌, refl, ◌⊎◌, inl, inr, ◌∙◌, List, [],
  ◌∷◌, ◌++◌, some, leb, arith, Bool-cases, leb→le,
}
use nodepp.Utf.Lead.{lead2, lead3, lead4, continuation}
use nodepp.Utf.{
  decode, encode, units, decode_unit, u8, u16, two_bytes, three_bytes, four_bytes, high_unit,
  low_half,
}

-- The bytes `bs` of a code point `c` are followed by anything: `decode` reads `c` and stops there.
pub record Decodes (bs : List ℕ) (c : ℕ) : Type 0 where
  pub lead : ℕ
  pub more : List ℕ
  pub splits : bs ≡ lead ∷ more
  pub reads : (rest : List ℕ) → decode lead (more ++ rest) ≡ some (c, rest)

mask6 : (c : ℕ) → bit_and c 0x3f ≡ c % 64
mask6 c = bit_and_mask 6 c

decode_two :
    (c : ℕ) (rest : List ℕ)
    → c < 0x800
    → decode (bit_or (c / 2 ^ 6) 0xc0 % 2 ^ 8) ((bit_or (bit_and c 0x3f) 0x80 % 2 ^ 8) ∷ rest)
      ≡ some (c, rest)
unfolding decode
decode_two c rest h =
    let l = lead2 (c / 2 ^ 6) (omega arith) in
    let k = continuation (c % 64) (omega arith) in
    rw (mask6 c, l.high, l.mark, l.free, k, bit_or_fields 6 (c / 2 ^ 6) (c % 64) (omega arith))
      (ground arith)

decode_three :
    (c : ℕ) (rest : List ℕ)
    → c < 0x10000
    → decode (bit_or (c / 2 ^ 12) 0xe0 % 2 ^ 8) (
        (bit_or (bit_and (c / 2 ^ 6) 0x3f) 0x80 % 2 ^ 8)
        ∷ (bit_or (bit_and c 0x3f) 0x80 % 2 ^ 8)
        ∷ rest)
      ≡ some (c, rest)
unfolding decode
decode_three c rest h =
    let l = lead3 (c / 2 ^ 12) (omega arith) in
    let k = continuation (c / 2 ^ 6 % 64) (omega arith) in
    let m = continuation (c % 64) (omega arith) in
    let high : bit_or (c / 2 ^ 12 * 2 ^ 12) (c / 2 ^ 6 % 64 * 2 ^ 6) ≡ c / 64 * 64 =
      bit_or_fields 12 (c / 2 ^ 12) (c / 2 ^ 6 % 64 * 2 ^ 6) (omega arith) ∙ omega arith in
    rw
      (
        mask6 (c / 2 ^ 6),
        mask6 c,
        l.high,
        l.not_two,
        l.mark,
        l.free,
        k,
        m,
        high,
        bit_or_fields 6 (c / 64) (c % 64) (omega arith),
      )
      (ground arith)

decode_four :
    (c : ℕ) (rest : List ℕ)
    → c < 0x110000
    → decode (bit_or (c / 2 ^ 18) 0xf0 % 2 ^ 8) (
        (bit_or (bit_and (c / 2 ^ 12) 0x3f) 0x80 % 2 ^ 8)
        ∷ (bit_or (bit_and (c / 2 ^ 6) 0x3f) 0x80 % 2 ^ 8)
        ∷ (bit_or (bit_and c 0x3f) 0x80 % 2 ^ 8)
        ∷ rest)
      ≡ some (c, rest)
unfolding decode
decode_four c rest h =
    let l = lead4 (c / 2 ^ 18) (omega arith) in
    let k = continuation (c / 2 ^ 12 % 64) (omega arith) in
    let m = continuation (c / 2 ^ 6 % 64) (omega arith) in
    let n = continuation (c % 64) (omega arith) in
    let top : bit_or (c / 2 ^ 18 * 2 ^ 18) (c / 2 ^ 12 % 64 * 2 ^ 12) ≡ c / 2 ^ 12 * 2 ^ 12 =
      bit_or_fields 18 (c / 2 ^ 18) (c / 2 ^ 12 % 64 * 2 ^ 12) (omega arith) ∙ omega arith in
    let high : bit_or (c / 2 ^ 12 * 2 ^ 12) (c / 2 ^ 6 % 64 * 2 ^ 6) ≡ c / 64 * 64 =
      bit_or_fields 12 (c / 2 ^ 12) (c / 2 ^ 6 % 64 * 2 ^ 6) (omega arith) ∙ omega arith in
    rw
      (
        mask6 (c / 2 ^ 12),
        mask6 (c / 2 ^ 6),
        mask6 c,
        l.high,
        l.not_two,
        l.not_three,
        l.mark,
        l.free,
        k,
        m,
        n,
        top,
        high,
        bit_or_fields 6 (c / 64) (c % 64) (omega arith),
      )
      (ground arith)

one_byte-Decodes : (c : ℕ) → c ≤ 0x7f → Decodes (u8 c ∷ []) c
unfolding decode
one_byte-Decodes c h = record {
  lead = u8 c;
  more = [];
  splits = refl;
  reads = λ rest. ground arith;
}

two_bytes-Decodes : (c : ℕ) → c < 0x800 → Decodes (two_bytes c) c
two_bytes-Decodes c h = record {
  lead = _;
  more = _;
  splits = refl;
  reads = λ rest. decode_two c rest h;
}

three_bytes-Decodes : (c : ℕ) → c < 0x10000 → Decodes (three_bytes c) c
three_bytes-Decodes c h = record {
  lead = _;
  more = _;
  splits = refl;
  reads = λ rest. decode_three c rest h;
}

four_bytes-Decodes : (c : ℕ) → c < 0x110000 → Decodes (four_bytes c) c
four_bytes-Decodes c h = record {
  lead = _;
  more = _;
  splits = refl;
  reads = λ rest. decode_four c rest h;
}

-- Every code point up to U+10FFFF has bytes, and they are read back.
pub encode-Decodes : (c : ℕ) → c ≤ 0x10ffff → (bs : List ℕ) × (encode c ≡ some bs) × Decodes bs c
unfolding encode
encode-Decodes c h = elim (Bool-cases (leb c 0x7f)) [
  | inl a ↦ (u8 c ∷ [], rw a, one_byte-Decodes c (leb→le c _ a))
  | inr a ↦ elim (Bool-cases (leb c 0x7ff)) [
    | inl b ↦ (two_bytes c, rw (a, b), two_bytes-Decodes c (omega (arith, leb→le c 0x7ff b)))
    | inr b ↦ elim (Bool-cases (leb c 0xffff)) [
      | inl d ↦
          (three_bytes c, rw (a, b, d), three_bytes-Decodes c (omega (arith, leb→le c 0xffff d)))
      | inr d ↦ (four_bytes c, ground arith, four_bytes-Decodes c (omega arith))
    ]
  ]
]

-- So with UTF-16: the units `us` of `c` are read back whatever follows them.
pub record Pairs (us : List ℕ) (c : ℕ) : Type 0 where
  pub lead : ℕ
  pub more : List ℕ
  pub splits : us ≡ lead ∷ more
  pub reads : (rest : List ℕ) → decode_unit lead (more ++ rest) ≡ some (c, rest)

-- A Unicode scalar value: no surrogate, and at most U+10FFFF.
abbrev pub IsScalar : ℕ → Type 0
IsScalar c = (c < 0xd800) ⊎ ((0xdfff < c) × (c ≤ 0x10ffff))

mask10 : (c : ℕ) → bit_and c 0x3ff ≡ c % 1024
mask10 c = bit_and_mask 10 c

pub units-Pairs : (c : ℕ) → IsScalar c → (us : List ℕ) × (units c ≡ some us) × Pairs us c
unfolding units decode_unit
units-Pairs c h = elim (Bool-cases (leb c 0xffff)) [
  | inl a ↦ (
    u16 c ∷ [],
    rw a,
    record { lead = u16 c; more = []; splits = refl; reads = λ rest. ground arith },
  )
  | inr a ↦ (
    high_unit c ∷ low_half c ∷ [],
    ground arith,
    record {
      lead = high_unit c;
      more = low_half c ∷ [];
      splits = refl;
      reads = λ rest. ground (arith, mask10 (c - 0x10000));
    },
  )
]
