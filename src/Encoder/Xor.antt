-- ===== src/Encoder/Xor.antt =====
-- encoder::XOR: a string against a key that is repeated.
use nodepp.Bits.{bit_xor_cancel}
use nodepp.Prelude.{ℕ, ◌+◌, ◌%◌, bit_xor, ◌≡◌, ◌≢◌, refl, ap₂, List, [], ◌∷◌, get_or, length}

-- The loop of both functions: `x^ key[pos]`, then `pos` goes round the key.
xor_loop : List ℕ → ℕ → List ℕ → List ℕ
xor_loop key position [] = []
xor_loop key position (x ∷ xs) =
    bit_xor x (get_or key position 0) ∷ xor_loop key ((position + 1) % length key) xs

pub atob : List ℕ → List ℕ → List ℕ
unfolding xor_loop
atob bytes key = xor_loop key 0 bytes

pub btoa : List ℕ → List ℕ → List ℕ
unfolding xor_loop
btoa bytes key = xor_loop key 0 bytes

xor_loop_twice :
    (key : List ℕ) (position : ℕ) (xs : List ℕ)
    → xor_loop key position (xor_loop key position xs) ≡ xs
unfolding xor_loop
xor_loop_twice key position [] = refl
xor_loop_twice key position (x ∷ xs) =
    ap₂ ◌∷◌ (bit_xor_cancel x (get_or key position 0))
      (xor_loop_twice key ((position + 1) % length key) xs)

-- With a key that is not empty, each of the two XOR functions undoes the other.
pub xor_btoa-atob :
    (bytes key : List ℕ)
    → key ≢ []
    → (btoa (atob bytes key) key ≡ bytes) × (atob (btoa bytes key) key ≡ bytes)
unfolding atob btoa
xor_btoa-atob bytes key ne = (xor_loop_twice key 0 bytes, xor_loop_twice key 0 bytes)
