-- ===== src/Regex/Search.antt =====
-- include/nodepp/regex.h: `search` and `search_all`.
pub mod Found
pub mod Plain
use nodepp.Prelude.{
  ℕ, zero, suc, ◌+◌, ◌-◌, ◌*◌, Bool, true, false, Option, none, some, List, [], ◌∷◌, ◌++◌, ltb,
  if◌then◌else◌,
}
use nodepp.Prelude.Int.{ℤ, pos, negsuc}
use nodepp.Regex.{Regex, node, Items, nil, cons}
use nodepp.Regex.Compile.{Pattern}
use nodepp.Regex.Weight.{weight}
use nodepp.Regex.View.{View, size}
use nodepp.Regex.Match.{Memory, match_item}

-- A range of a value: where a match begins and where it ends.
abbrev pub Span : Type 0
Span = ℕ × ℕ

-- `c = _search( value, off, obj->queue )`
unfoldable pub try_at : Pattern → View → ℕ → Memory → Option (ℤ × Memory)
unfolding weight match_item
try_at p value off memory =
    match_item (weight (size value + 2) p.queue) p.icase value off p.queue memory

-- A step that may be out of fuel, and keeps the memory.
abbrev pub Search : Type 0 → Type 0
Search A = Memory → Option (A × Memory)

-- After a try at `off`: the next offset, or the range of the match.
unfoldable pub search_next :
    Option (ℤ × Memory) → ℕ → Search (Option Span) → Option (Option Span × Memory)
search_next none off later = none
search_next (some (pos zero, memory)) off later = later memory
search_next (some (pos (suc n), memory)) off later = some (some (off, off + suc n), memory)
search_next (some (negsuc n, memory)) off later = later memory

-- `rounds` is the number of the offsets that are left.
unfoldable pub search_loop : ℕ → Pattern → View → ℕ → Search (Option Span)
search_loop zero p value off = λ memory. some (none, memory)
search_loop (suc rounds) p value off = λ memory.
    search_next (try_at p value off memory) off (λ m. search_loop rounds p value (off + 1) m)

unfoldable pub search : Pattern → View → ℕ → Search (Option Span)
unfolding search_loop search_next try_at
search p value off = search_loop (size value - off) p value off

-- After a search: the matches so far, or a search from the end of this match on.
unfoldable pub search_all_next :
    Option (Option Span × Memory)
    → List Span
    → (Span → Search (List Span))
    → Option (List Span × Memory)
search_all_next none out later = none
search_all_next (some (none, memory)) out later = some (out, memory)
search_all_next (some (some span, memory)) out later = later span memory

-- Each match ends behind the one before, so that the size of the value is enough rounds.
unfoldable pub search_all_loop : ℕ → Pattern → View → ℕ → List Span → Search (List Span)
search_all_loop zero p value off out = λ memory. none
search_all_loop (suc rounds) p value off out = λ memory.
    search_all_next (search p value off memory) out
      λ span. search_all_loop rounds p value span.1 (out ++ span ∷ [])

unfoldable pub search_all : Pattern → View → Search (List Span)
unfolding search_all_loop search_all_next search
search_all p value = search_all_loop (suc (size value)) p value 0 []
