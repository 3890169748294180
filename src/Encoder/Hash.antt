-- ===== src/Encoder/Hash.antt =====
-- encoder::hash: the multiplication hash of a string, in a table.
use native.Mathlib.Nat.{mod-lt}
use nodepp.Prelude.{
  ℕ, ◌+◌, ◌-◌, ◌*◌, ◌%◌, ◌^◌, ◌<◌, ◌≡◌, refl, ap, ◌∙◌, List, [], ◌∷◌, ltb, if◌then◌else◌, arith,
}

-- A `char` that is added to a `ulong` has its sign extended.
abbrev extend : ℕ → ℕ
extend c = if ltb c 128 then c else c + 2 ^ 64 - 2 ^ 8

-- `hash = ((hash << 5) + hash) + x`, in 64 bits.
hash_loop : ℕ → List ℕ → ℕ
hash_loop hash [] = hash
hash_loop hash (x ∷ xs) = hash_loop ((hash * 2 ^ 5 + hash + extend x) % 2 ^ 64) xs

unfoldable pub get : List ℕ → ℕ → ℕ
unfolding hash_loop
get key table_size = hash_loop 0x1505 key % table_size

-- `get( int key, int tableSize )` at a key that is not negative.
pub get_int : ℕ → ℕ → ℕ
get_int key table_size = key % table_size

-- `NODEPP_HASH_TABLE_SIZE` is (uchar_16) -1.
pub get_default : List ℕ → ℕ
unfolding get
get_default key = get key 65535

-- The polynomial in 33 that the loop computes, with no limit on its size.
unfoldable pub polynomial : ℕ → List ℕ → ℕ
polynomial hash [] = hash
polynomial hash (x ∷ xs) = polynomial (hash * 33 + extend x) xs

polynomial-mod :
    (h g : ℕ) (xs : List ℕ)
    → h % 2 ^ 64 ≡ g % 2 ^ 64
    → polynomial h xs % 2 ^ 64 ≡ polynomial g xs % 2 ^ 64
unfolding polynomial
polynomial-mod h g [] e = e
polynomial-mod h g (x ∷ xs) e =
    polynomial-mod (h * 33 + extend x) (g * 33 + extend x) xs (omega arith)

hash_loop-polynomial : (h : ℕ) (xs : List ℕ) → hash_loop h xs % 2 ^ 64 ≡ polynomial h xs % 2 ^ 64
unfolding hash_loop polynomial
hash_loop-polynomial h [] = refl
hash_loop-polynomial h (x ∷ xs) =
    let next = (h * 2 ^ 5 + h + extend x) % 2 ^ 64 in
    hash_loop-polynomial next xs ∙ polynomial-mod next (h * 33 + extend x) xs (omega arith)

hash_loop-lt : (h : ℕ) (xs : List ℕ) → h < 2 ^ 64 → hash_loop h xs < 2 ^ 64
unfolding hash_loop
hash_loop-lt h [] lt = lt
hash_loop-lt h (x ∷ xs) lt = hash_loop-lt ((h * 2 ^ 5 + h + extend x) % 2 ^ 64) xs (omega arith)

-- With a table that has a place, the hash of a string is the polynomial in 33 over its sign-
-- extended characters, reduced to 64 bits and then to the table, and lies in the table.
pub get-polynomial :
    (key : List ℕ) (table_size : ℕ)
    → 0 < table_size
    → (get key table_size ≡ polynomial 0x1505 key % 2 ^ 64 % table_size)
      × (get key table_size < table_size)
unfolding get
get-polynomial key table_size h =
    let e : hash_loop 0x1505 key ≡ polynomial 0x1505 key % 2 ^ 64 =
      omega (arith, hash_loop-polynomial 0x1505 key, hash_loop-lt 0x1505 key (omega arith)) in
    (ap (λ v. v % table_size) e, mod-lt _ h)
