-- ===== src/Regex/View.antt =====
-- include/nodepp/string.h: a `string_t` that `slice_view` makes shares the buffer of another one, so
-- the byte after its last one is not NUL but the next byte of that buffer.
use nodepp.Prelude.{
  ℕ, suc, ◌+◌, ◌-◌, ◌%◌, none, some, [], ◌∷◌, ◌++◌, length, take, drop, get_or, leb, if◌then◌else◌,
}
use nodepp.Prelude.Int.{ℤ}
use nodepp.Range.{slice_range}
use nodepp.Text.{Text}

pub record View : Type 0 where
  pub bytes : Text
  pub after : ℕ

-- A string with a buffer of its own.
abbrev pub whole : Text → View
whole xs = record { bytes = xs; after = 0 }

abbrev pub size : View → ℕ
size v = length v.bytes

-- `last()`
abbrev pub last : View → ℕ
last v = length v.bytes - 1

-- `operator[]`: the index is taken modulo the size of the buffer, which holds one byte more. Not for
-- the null string, of which the source reads address 0.
unfoldable pub at : View → ℕ → ℕ
at v i =
    if leb i (length v.bytes)
    then get_or (v.bytes ++ v.after ∷ []) i 0
    else get_or (v.bytes ++ v.after ∷ []) (i % suc (length v.bytes)) 0

-- `slice_view( start, stop )`
unfoldable pub slice_view : View → ℤ → ℤ → View
unfolding at
slice_view v start stop = elim (slice_range (length v.bytes) start stop) [
  | none ↦ whole []
  | some r ↦ record {
    bytes = take r.count (drop r.first v.bytes);
    after = at v (r.first + r.count);
  }
]
