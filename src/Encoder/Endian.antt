-- ===== src/Encoder/Endian.antt =====
-- encoder::endian over the bytes of a number in memory.
use mathlib.Core.List.{reverse_aux-eq, reverse-append, reverse-reverse}
use nodepp.Encoder.Bytes
use nodepp.Prelude.{
  ℕ, zero, suc, ◌+◌, ◌/◌, ◌≡◌, refl, ap, ap₂, sym, ◌∙◌, Bool, true, false, List, [], ◌∷◌, ◌++◌,
  length, get_or, set, reverse, if◌then◌else◌, take, drop, take-append-drop, length-take,
  length-drop, length-append, append_assoc, arith,
}

-- `type::swap( mem[idx], mem[pre] )`
swap : ℕ → ℕ → List ℕ → List ℕ
swap idx pre mem = set (set mem idx (get_or mem pre 0)) pre (get_or mem idx 0)

-- `while( idx>0 ){ idx--; swap( mem[idx], mem[pre] ); pre++; }`
flip_loop : ℕ → ℕ → List ℕ → List ℕ
unfolding swap
flip_loop zero pre mem = mem
flip_loop (suc idx) pre mem = flip_loop idx (pre + 1) (swap idx pre mem)

pub flip : List ℕ → List ℕ
unfolding flip_loop
flip mem = flip_loop (length mem / 2) (length mem / 2) mem

-- `big` says that the machine keeps the highest byte first.
pub to_big_endian : Bool → List ℕ → List ℕ
unfolding flip
to_big_endian big mem = if big then mem else flip mem

pub to_little_endian : Bool → List ℕ → List ℕ
unfolding flip
to_little_endian big mem = if big then flip mem else mem

-- `as ++ a ∷ middle ++ b ∷ bs` with `a` and `b` exchanged.
set_at : (xs ys : List ℕ) (x v : ℕ) → set (xs ++ x ∷ ys) (length xs) v ≡ xs ++ v ∷ ys
set_at [] ys x v = refl
set_at (z ∷ zs) ys x v = ap (◌∷◌ z) (set_at zs ys x v)

get_at : (xs ys : List ℕ) (x : ℕ) → get_or (xs ++ x ∷ ys) (length xs) 0 ≡ x
get_at [] ys x = refl
get_at (z ∷ zs) ys x = get_at zs ys x

swap_at :
    (xs ys zs : List ℕ) (a b : ℕ)
    → swap (length xs) (length (xs ++ a ∷ ys)) (xs ++ a ∷ (ys ++ b ∷ zs)) ≡ xs ++ b ∷ (ys ++ a ∷ zs)
unfolding swap
swap_at [] ys zs a b = ap₂ ◌∷◌ (get_at ys zs b) (set_at ys zs b a)
swap_at (x ∷ xs) ys zs a b = ap (◌∷◌ x) (swap_at xs ys zs a b)

length-reverse : (xs : List ℕ) → length (reverse xs) ≡ length xs
length-reverse [] = refl
length-reverse (x ∷ xs) =
    ap length (reverse_aux-eq xs (x ∷ []))
    ∙ length-append (reverse xs) (x ∷ [])
    ∙ omega (arith, length-reverse xs)

-- The loop exchanges what is in front of `middle` with what is behind it.
flip_loop-reverse :
    (front middle back : List ℕ) (pre : ℕ)
    → length front ≡ length back
    → pre ≡ length front + length middle
    → flip_loop (length front) pre (reverse front ++ (middle ++ back))
      ≡ reverse back ++ (middle ++ front)
unfolding flip_loop
flip_loop-reverse [] middle [] pre same at = refl
flip_loop-reverse [] middle (b ∷ back) pre same at = absurd (omega (arith, same))
flip_loop-reverse (a ∷ front) middle [] pre same at = absurd (omega (arith, same))
flip_loop-reverse (a ∷ front) middle (b ∷ back) pre same at =
    let shown : (xs : List ℕ) (x : ℕ) (ys : List ℕ)
        → reverse (x ∷ xs) ++ ys ≡ reverse xs ++ x ∷ ys =
      λ xs x ys.
        ap (λ t. t ++ ys) (reverse_aux-eq xs (x ∷ [])) ∙ append_assoc (reverse xs) (x ∷ []) ys in
    let at_idx : length (reverse front) ≡ length front = length-reverse front in
    let at_pre : length (reverse front ++ a ∷ middle) ≡ pre =
      length-append (reverse front) (a ∷ middle) ∙ omega (arith, at_idx, at) in
    let e : swap (length front) pre (reverse (a ∷ front) ++ (middle ++ b ∷ back))
        ≡ reverse front ++ b ∷ (middle ++ a ∷ back) =
      ap (swap (length front) pre) (shown front a (middle ++ b ∷ back))
      ∙ ap₂ (λ i j. swap i j (reverse front ++ a ∷ (middle ++ b ∷ back))) (sym at_idx) (sym at_pre)
      ∙ swap_at (reverse front) middle back a b in
    let regroup : b ∷ (middle ++ a ∷ back) ≡ (b ∷ (middle ++ a ∷ [])) ++ back =
      ap (◌∷◌ b) (sym (append_assoc middle (a ∷ []) back)) in
    let wider : pre + 1 ≡ length front + length (b ∷ (middle ++ a ∷ [])) =
      omega (arith, at, length-append middle (a ∷ [])) in
    ap (flip_loop (length front) (pre + 1)) (e ∙ ap (λ t. reverse front ++ t) regroup)
    ∙ flip_loop-reverse front (b ∷ (middle ++ a ∷ [])) back (pre + 1) (omega (arith, same)) wider
    ∙ ap (λ t. reverse back ++ b ∷ t) (append_assoc middle (a ∷ []) front)
    ∙ sym (shown back b (middle ++ a ∷ front))

flip_halves :
    (front back : List ℕ)
    → length front ≡ length back
    → flip (front ++ back) ≡ reverse (front ++ back)
unfolding flip
flip_halves front back same =
    let half : length (front ++ back) / 2 ≡ length front =
      omega (arith, length-append front back, same) in
    let turned : length (reverse front) ≡ length front = length-reverse front in
    rw (half) (
      ap₂ (λ i f. flip_loop i i (f ++ back)) (sym turned) (sym (reverse-reverse front))
      ∙ flip_loop-reverse (reverse front) [] back (length (reverse front)) (turned ∙ same)
          (omega arith)
      ∙ sym (reverse-append front back))

-- On a number with an even count of bytes, `flip` reverses the bytes.
pub flip-reverse : (mem : List ℕ) (half : ℕ) → length mem ≡ half + half → flip mem ≡ reverse mem
flip-reverse mem half even =
    let split : take half mem ++ drop half mem ≡ mem = take-append-drop half mem in
    let same : length (take half mem) ≡ length (drop half mem) =
      omega (arith, length-take half mem, length-drop half mem, even) in
    ap flip (sym split) ∙ flip_halves (take half mem) (drop half mem) same ∙ ap reverse split

-- On a number with an even count of bytes and a machine of either byte order, to_big_endian and
-- to_little_endian each undo themselves, and one gives the bytes of the other reversed.
pub to_big_endian_twice :
    (big : Bool) (mem : List ℕ) (half : ℕ)
    → length mem ≡ half + half
    → (to_big_endian big (to_big_endian big mem) ≡ mem)
      × (to_little_endian big (to_little_endian big mem) ≡ mem)
      × (to_little_endian big mem ≡ reverse (to_big_endian big mem))
unfolding to_big_endian to_little_endian
to_big_endian_twice big mem half even =
    let e : flip mem ≡ reverse mem = flip-reverse mem half even in
    let twice : flip (flip mem) ≡ mem =
      ap flip e
      ∙ flip-reverse (reverse mem) half (length-reverse mem ∙ even)
      ∙ reverse-reverse mem in
    elim big
      as (λ b.
        (to_big_endian b (to_big_endian b mem) ≡ mem)
        × (to_little_endian b (to_little_endian b mem) ≡ mem)
        × (to_little_endian b mem ≡ reverse (to_big_endian b mem))) [
          | true ↦ (refl, twice, e)
          | false ↦ (twice, refl, sym (ap reverse e ∙ reverse-reverse mem))
        ]

-- `flip` at a number of `w` bytes: the number whose bytes are the number's, in the other order.
unfoldable pub flip_word : ℕ → ℕ → ℕ
flip_word w n = Bytes.btoa w (flip (Bytes.atob w n))
