-- ===== src/Range.antt =====
-- The index arithmetic that array_t, string_t and queue_t repeat (get_slice_range and
-- get_splice_range of include/nodepp/array.h): a range is its first index, its last index and its
-- length, or null. A `long` is an integer; sizes are below 2 ^ 63, so that a negative `long` cast to
-- `ulong` exceeds every index.
pub mod Bounds
use nodepp.Prelude.{
  ℕ, suc, ◌+◌, ◌-◌, ◌%◌, ◌^◌, min, Bool, true, false, ◌||◌, Option, none, some, ltb, leb, ◌==◌,
  if◌then◌else◌,
}
use nodepp.Prelude.Int.{ℤ, pos, negsuc, ◌+ℤ◌, ltb_ℤ, pos_part, sub_ℕ}

-- The indices `first` and `last`, and how many they are.
pub record Range : Type 0 where
  pub first : ℕ
  pub last : ℕ
  pub count : ℕ

-- `(ulong)x > last` for a signed `x`.
abbrev pub past : ℕ → ℤ → Bool
past last (pos x) = ltb last x
past last (negsuc x) = true

abbrev same : ℤ → ℤ → Bool
same (pos a) (pos b) = a == b
same (negsuc a) (negsuc b) = a == b
same _ _ = false

-- `if( y>0 ){ --y; }`
abbrev before : ℤ → ℤ
before (pos y) = pos (y - 1)
before (negsuc y) = negsuc y

-- `if( x<0 ){ x = base + x; }`
abbrev from_end : ℕ → ℤ → ℤ
from_end base (pos x) = pos x
from_end base (negsuc x) = sub_ℕ base (suc x)

-- The end of the range: an index that is out of range, on either side, becomes the last one.
abbrev clamp_end : ℕ → ℤ → ℕ
clamp_end last y = if past last y then last else pos_part y

abbrev make : ℕ → ℕ → ℕ → Range
make last x y =
    let a = min y last in let b = min x a in record { first = b; last = a; count = a - b + 1 }

unfoldable pub slice_range : ℕ → ℤ → ℤ → Option Range
slice_range size x y =
    let last = size - 1 in
    let start = from_end size x in
    let stop = clamp_end last (from_end last (before y)) in
    if (size == 0) || same x y
    then none
    else if past last start
    then none
    else if ltb stop (pos_part start)
    then none
    else some (make last (pos_part start) stop)

-- `y` is a `ulong` count: `y += x - 1` wraps.
unfoldable pub splice_range : ℕ → ℤ → ℕ → Option Range
splice_range size x y =
    let last = size - 1 in
    let start = from_end last x in
    let sum = (y + pos_part start + 2 ^ 64 - 1) % 2 ^ 64 in
    let stop = if ltb last sum then last else sum in
    if (size == 0) || (y == 0)
    then none
    else if past last start
    then none
    else if ltb stop (pos_part start)
    then none
    else some (make last (pos_part start) stop)
