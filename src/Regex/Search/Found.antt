-- ===== src/Regex/Search/Found.antt =====
-- include/nodepp/regex.h: where `search` and `search_all` find their matches.
use nodepp.Prelude.{
  ℕ, zero, suc, ◌+◌, ◌-◌, ◌^◌, ◌≤◌, ◌<◌, ◌≡◌, refl, ◌∙◌, sym, subst, Option, none, some, List, [],
  ◌∷◌, ◌++◌, append-nil, append_assoc, arith,
}
use nodepp.Prelude.Int.{pos, negsuc}
use nodepp.Regex.View.{View, size}
use nodepp.Regex.Match.{Memory, Run}
use nodepp.Regex.Match.Total.{Ends, match_item-Ends}
use nodepp.Regex.Compile.{Pattern}
use nodepp.Regex.Search.{
  Search, Span, search_next, search_all_next, try_at, search_loop, search, search_all_loop,
  search_all,
}

-- A match from `off` on: it begins inside the value, is not empty, and ends at most one byte behind.
abbrev pub Inside : ℕ → ℕ → Span → Type 0
Inside n off (x, y) = (off ≤ x) × (x < n) × (x < y) × (y ≤ n + 1)

-- The search has ended, with a match from `off` on or with none.
abbrev pub Finds : ℕ → ℕ → Option (Option Span × Memory) → Type 0
Finds n off none = ⊥
Finds n off (some (none, memory)) = Unit
Finds n off (some (some span, memory)) = Inside n off span

try_at-Ends :
    (p : Pattern) (v : View) (off : ℕ) (memory : Memory)
    → size v + 1 < 2 ^ 31
    → off ≤ size v
    → Ends v off (try_at p v off memory)
unfolding try_at
try_at-Ends p v off memory b h = match_item-Ends _ p.icase v off p.queue memory b h (omega arith)

Finds-later : (n off : ℕ) (r : Option (Option Span × Memory)) → Finds n (off + 1) r → Finds n off r
Finds-later n off none h = h
Finds-later n off (some (none, memory)) h = h
Finds-later n off (some (some (x, y), memory)) h = ground arith

search_next-Finds :
    (v : View) (off : ℕ) (r : Run) (later : Search (Option Span))
    → Ends v off r
    → ((m : Memory) → Finds (size v) off (later m))
    → off < size v
    → Finds (size v) off (search_next r off later)
unfolding search_next
search_next-Finds v off none later e next h = e
search_next-Finds v off (some (pos zero, m)) later e next h = next m
search_next-Finds v off (some (pos (suc n), m)) later e next h = omega arith
search_next-Finds v off (some (negsuc n, m)) later e next h = next m

search_loop-Finds :
    (rounds : ℕ) (p : Pattern) (v : View) (off : ℕ) (memory : Memory)
    → size v + 1 < 2 ^ 31
    → rounds ≡ size v - off
    → Finds (size v) off (search_loop rounds p v off memory)
unfolding search_loop
search_loop-Finds zero p v off memory b h = tt
search_loop-Finds (suc rounds) p v off memory b h =
    search_next-Finds v off (try_at p v off memory) _ (try_at-Ends p v off memory b (omega arith))
      (λ m. Finds-later (size v) off _ (search_loop-Finds rounds p v (off + 1) m b (omega arith)))
      (omega arith)

-- search from an offset on ends, with any expression and any value of fewer than 2 ^ 31 - 1 bytes,
-- with none or with a range that begins at the offset or later and inside the value, is not empty,
-- and ends at most one byte behind the end of the value.
pub search-Finds :
    (p : Pattern) (v : View) (off : ℕ) (memory : Memory)
    → size v + 1 < 2 ^ 31
    → Finds (size v) off (search p v off memory)
unfolding search
search-Finds p v off memory b = search_loop-Finds _ p v off memory b refl

-- Matches in order: each from the end of the one before on.
abbrev pub Ascend : ℕ → ℕ → List Span → Type 0
Ascend n off [] = Unit
Ascend n off ((x, y) ∷ spans) = Inside n off (x, y) × Ascend n y spans

-- The loop has ended, and has put matches in order behind `out`.
abbrev Adds : ℕ → ℕ → List Span → Option (List Span × Memory) → Type 0
Adds n off out none = ⊥
Adds n off out (some (all, memory)) =
    (spans : List Span) × (all ≡ out ++ spans) × Ascend n off spans

Adds-cons :
    (n off x y : ℕ) (out : List Span) (r : Option (List Span × Memory))
    → Inside n off (x, y)
    → Adds n y (out ++ (x, y) ∷ []) r
    → Adds n off out r
Adds-cons n off x y out none h a = a
Adds-cons n off x y out (some (all, memory)) h (spans, e, s) =
    ((x, y) ∷ spans, e ∙ append_assoc out ((x, y) ∷ []) spans, (h, s))

search_all_next-Adds :
    (n off : ℕ) (out : List Span) (r : Option (Option Span × Memory))
    (later : Span → Search (List Span))
    → Finds n off r
    → ((span : Span) (m : Memory) → Inside n off span → Adds n off out (later span m))
    → Adds n off out (search_all_next r out later)
unfolding search_all_next
search_all_next-Adds n off out none later f next = f
search_all_next-Adds n off out (some (none, m)) later f next = ([], sym (append-nil out), tt)
search_all_next-Adds n off out (some (some span, m)) later f next = next span m f

search_all_loop-Adds :
    (rounds : ℕ) (p : Pattern) (v : View) (off : ℕ) (out : List Span) (memory : Memory)
    → size v + 1 < 2 ^ 31
    → 1 ≤ rounds
    → size v + 1 ≤ rounds + off
    → Adds (size v) off out (search_all_loop rounds p v off out memory)
unfolding search_all_loop
search_all_loop-Adds zero p v off out memory b h k = absurd (omega arith)
search_all_loop-Adds (suc rounds) p v off out memory b h k =
    search_all_next-Adds (size v) off out (search p v off memory) _ (search-Finds p v off memory b)
      λ span m i.
        Adds-cons (size v) off span.0 span.1 out _ i (
          search_all_loop-Adds rounds p v span.1 (out ++ span ∷ []) m b (omega arith) (omega arith))

-- What `search_all` returns: matches in order, whatever the memory is.
abbrev pub FindsAll : ℕ → Option (List Span × Memory) → Type 0
FindsAll n none = ⊥
FindsAll n (some (spans, memory)) = Ascend n 0 spans

Adds-FindsAll : (n : ℕ) (r : Option (List Span × Memory)) → Adds n 0 [] r → FindsAll n r
Adds-FindsAll n none a = a
Adds-FindsAll n (some (all, memory)) (spans, e, s) = subst (Ascend n 0) (sym e) s

-- search_all ends, with any expression and any value of fewer than 2 ^ 31 - 1 bytes, and its
-- ranges are in order: each begins at the end of the one before or later and inside the value, is
-- not empty, and ends at most one byte behind the end of the value.
pub search_all-FindsAll :
    (p : Pattern) (v : View) (memory : Memory)
    → size v + 1 < 2 ^ 31
    → FindsAll (size v) (search_all p v memory)
unfolding search_all
search_all-FindsAll p v memory b =
    Adds-FindsAll (size v) _
      (search_all_loop-Adds (suc (size v)) p v 0 [] memory b (omega arith) (omega arith))
