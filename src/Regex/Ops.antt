-- ===== src/Regex/Ops.antt =====
-- include/nodepp/regex.h: what `regex_t` does with the matches it finds, and the functions of the
-- namespace `regex` for one use of an expression.
pub mod Split
pub mod Replace
pub mod Tests
use nodepp.Prelude.{
  ℕ, zero, suc, ◌+◌, ◌-◌, Bool, true, false, Option, none, some, List, [], ◌∷◌, ◌++◌, reverse, map,
  length,
}
use nodepp.Prelude.Int.{ℤ, pos, negsuc}
use nodepp.Text.{Text, slice, slice_from, splice, splice_with}
use nodepp.Regex.View.{View, whole, slice_view}
use nodepp.Regex.Match.{Memory}
use nodepp.Regex.Compile.{Pattern}
use nodepp.Regex.Search.{Search, Span, search, search_all}

-- What follows a search, as a function of the memory.
infixl 5 ◌>>=◌
abbrev pub ◌>>=◌ : {A B : Type 0} → Search A → (A → Search B) → Search B
◌>>=◌ m f memory = elim (m memory) [ none ↦ none | some (a, memory') ↦ f a memory' ]

abbrev pub give : {A : Type 0} → A → Search A
give a memory = some (a, memory)

-- `clear_memory` and `get_memory`.
unfoldable pub clear_memory : Search (Unit {0})
clear_memory memory = some (tt, [])

unfoldable pub get_memory : Search (List Text)
get_memory memory = some (memory, memory)

-- `search_all`, and then the matches of the groups.
unfoldable pub get_memory_after : Pattern → View → Search (List Text)
unfolding search_all get_memory
get_memory_after p v = do spans ← search_all p v; get_memory

-- The loop of `split`: `n` is where the next piece begins.
unfoldable pub pieces : Text → ℕ → List Span → List Text
pieces xs n [] = slice_from xs (pos n) ∷ []
pieces xs n ((x, y) ∷ spans) = slice xs (pos n) (pos x) ∷ pieces xs y spans

unfoldable pub split_pieces : Text → List Span → List Text
unfolding pieces
split_pieces xs [] = xs ∷ []
split_pieces xs (span ∷ spans) = pieces xs 0 (span ∷ spans)

unfoldable pub split : Pattern → Text → Search (List Text)
unfolding split_pieces search_all
split p xs = do spans ← search_all p (whole xs); give (split_pieces xs spans)

-- The same pieces, as views of the buffer of `xs`.
unfoldable pub view_pieces : View → ℕ → List Span → List View
unfolding slice_view
view_pieces v n [] = slice_view v (pos n) (pos (length v.bytes)) ∷ []
view_pieces v n ((x, y) ∷ spans) = slice_view v (pos n) (pos x) ∷ view_pieces v y spans

unfoldable pub split_views : View → List Span → List View
unfolding view_pieces
split_views v [] = v ∷ []
split_views v (span ∷ spans) = view_pieces v 0 (span ∷ spans)

unfoldable pub split_view : Pattern → View → Search (List View)
unfolding split_views search_all
split_view p v = do spans ← search_all p v; give (split_views v spans)

abbrev pub piece : Text → Span → Text
piece xs (x, y) = slice xs (pos x) (pos y)

unfoldable pub match_all : Pattern → Text → Search (List Text)
unfolding search_all
match_all p xs = do spans ← search_all p (whole xs); give (map (piece xs) spans)

-- The matches are put in from the last to the first, so that the earlier ones stay in place.
unfoldable pub replace_spans : Text → Text → List Span → Text
replace_spans rep xs [] = xs
replace_spans rep xs ((x, y) ∷ spans) =
    replace_spans rep (splice_with xs (pos x) (y - x) rep).1 spans

unfoldable pub replace_all : Pattern → Text → Text → Search Text
unfolding replace_spans search_all
replace_all p xs rep = do
  spans ← search_all p (whole xs)
  give (replace_spans rep xs (reverse spans))

unfoldable pub remove_spans : Text → List Span → Text
remove_spans xs [] = xs
remove_spans xs ((x, y) ∷ spans) = remove_spans (splice xs (pos x) (y - x)).1 spans

unfoldable pub remove_all : Pattern → Text → Search Text
unfolding remove_spans search_all
remove_all p xs = do spans ← search_all p (whole xs); give (remove_spans xs (reverse spans))

-- The range that a search gives has x < y, so the tests `idx[0]==idx[1]` are never met.
unfoldable pub replace_found : Text → Text → Option Span → Text
replace_found xs rep none = xs
replace_found xs rep (some (x, y)) = (splice_with xs (pos x) (y - x) rep).1

unfoldable pub replace : Pattern → Text → Text → ℕ → Search Text
unfolding replace_found search
replace p xs rep off = do found ← search p (whole xs) off; give (replace_found xs rep found)

unfoldable pub remove_found : Text → Option Span → Text
remove_found xs none = xs
remove_found xs (some (x, y)) = (splice xs (pos x) (y - x)).1

unfoldable pub remove : Pattern → Text → ℕ → Search Text
unfolding remove_found search
remove p xs off = do found ← search p (whole xs) off; give (remove_found xs found)

unfoldable pub match_found : Text → Option Span → Text
match_found xs none = []
match_found xs (some (x, y)) = slice xs (pos x) (pos y)

unfoldable pub match : Pattern → Text → ℕ → Search Text
unfolding match_found search
match p xs off = do found ← search p (whole xs) off; give (match_found xs found)

abbrev is_some : Option Span → Bool
is_some none = false
is_some (some span) = true

unfoldable pub test : Pattern → Text → ℕ → Search Bool
unfolding search
test p xs off = do found ← search p (whole xs) off; give (is_some found)
