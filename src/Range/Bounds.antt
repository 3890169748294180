-- ===== src/Range/Bounds.antt =====
-- What the ranges hold.
use nodepp.Prelude.{
  ℕ, suc, ◌+◌, ◌-◌, ◌^◌, ◌≤◌, ◌<◌, min, ◌≡◌, ◌⊎◌, none, some, ltb, if◌then◌else◌, ◌&&◌, arith,
}
use nodepp.Prelude.Int.{ℤ, pos, negsuc}
use nodepp.Range.{Range, slice_range, splice_range}

-- Every range lies inside the container and is not empty.
pub record Fits (size : ℕ) (r : Range) : Type 0 where
  pub ordered : r.first ≤ r.last
  pub inside : r.last < size
  pub counted : r.count ≡ r.last - r.first + 1

-- A range that get_slice_range gives, for any two signed bounds, lies within the size, has its
-- first index no later than its last, and has the length that these two give.
pub slice_range-Fits :
    (size : ℕ) (x y : ℤ) {r : Range} → slice_range size x y ≡ some r → Fits size r
unfolding slice_range
slice_range-Fits size x y h = ground arith

-- A range that get_splice_range gives, for any signed start and any count, lies within the size,
-- has its first index no later than its last, and has the length that these two give.
pub splice_range-Fits :
    (size : ℕ) (x : ℤ) (y : ℕ) {r : Range} → splice_range size x y ≡ some r → Fits size r
unfolding splice_range
splice_range-Fits size x y h = ground arith

-- Natural bounds: the range runs from `i` up to `j` or the end.
pub slice_range-pos :
    (size i j : ℕ)
    → slice_range size (pos i) (pos j) ≡ (
        if ltb i (min j size)
        then some (record { first = i; last = min j size - 1; count = min j size - i })
        else none)
unfolding slice_range
slice_range-pos size i j = ground arith

-- A negative start counts from the end, where the stop is not 0.
pub slice_range-negsuc :
    (size k j : ℕ)
    → k < size
    → 0 < j
    → slice_range size (negsuc k) (pos j) ≡ slice_range size (pos (size - suc k)) (pos j)
unfolding slice_range
slice_range-negsuc size k j h p = ground arith

-- A negative stop counts from the end; one that is before the start of the container stands for
-- its end.
pub slice_range_negsuc_stop :
    (size i k : ℕ)
    → slice_range size (pos i) (negsuc k)
      ≡ slice_range size (pos i) (pos (if ltb (suc k) size then size - suc k else size))
unfolding slice_range
slice_range_negsuc_stop size i k = ground arith

-- A count that does not wrap: the range runs over `n` elements or up to the end.
pub splice_range-pos :
    (size i n : ℕ)
    → i + n ≤ 2 ^ 64
    → splice_range size (pos i) n ≡ (
        if ltb i size && ltb 0 n
        then some (record { first = i; last = min (i + n) size - 1; count = min (i + n) size - i })
        else none)
unfolding splice_range
splice_range-pos size i n h = ground arith

pub slice_range-some :
    (size i j : ℕ)
    → i < min j size
    → slice_range size (pos i) (pos j)
      ≡ some (record { first = i; last = min j size - 1; count = min j size - i })
slice_range-some size i j h = ground (arith, slice_range-pos size i j)

pub slice_range-none : (size i j : ℕ) → min j size ≤ i → slice_range size (pos i) (pos j) ≡ none
slice_range-none size i j h = ground (arith, slice_range-pos size i j)

pub splice_range-some :
    (size i n : ℕ)
    → i + n ≤ 2 ^ 64
    → i < size
    → 0 < n
    → splice_range size (pos i) n
      ≡ some (record { first = i; last = min (i + n) size - 1; count = min (i + n) size - i })
splice_range-some size i n h p q = ground (arith, splice_range-pos size i n)

pub splice_range-none :
    (size i n : ℕ) → i + n ≤ 2 ^ 64 → (size ≤ i) ⊎ (n ≡ 0) → splice_range size (pos i) n ≡ none
splice_range-none size i n h p = ground (arith, splice_range-pos size i n)
