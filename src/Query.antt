-- ===== src/Query.antt =====
-- include/nodepp/query.h: the query of a URL as a map of strings.
pub mod Rows
pub mod Tests
use nodepp.Prelude.{ℕ, Bool, true, false, List, [], ◌∷◌, ◌++◌, ◌==◌, if◌then◌else◌}
use nodepp.Prelude.Ascii.{text}
use nodepp.Text.{Text, same}
use nodepp.Text.Join.{join}
use nodepp.Regex.Compile.{Outcome, done, refused, fault, stuck, ◌>>=◌}
use nodepp.Regex.Once
use nodepp.Regex.Format
use nodepp.HashMap.{Map, Pair, empty_map, assign, data_of}
use nodepp.HashMap.Keys.{text_key}

-- The loop over the memory of the expression, two groups for each match.
unfoldable pub read_rows : List Text → Map Text Text → Map Text Text
unfolding assign
read_rows [] out = out
read_rows (y ∷ []) out = out
read_rows (y ∷ z ∷ mem) out = read_rows mem (assign text_key same [] y z out)

-- The map that the matches of an expression make.
unfoldable pub read_all : Outcome (List Text) → Outcome (Map Text Text)
unfolding read_rows
read_all found = found >>= λ mem. done (read_rows mem empty_map)

unfoldable pub parse : Text → Outcome (Map Text Text)
unfolding read_all Once.get_memory
parse [] = done empty_map
parse (c ∷ input) =
    let found = Once.get_memory (c ∷ input) (text "[?&]([^= ]+)=([^?&]+)") false in
    if c == b'?' then read_all found else done empty_map

-- `x.first + "=" + x.second`
abbrev pub row : Pair Text Text → Text
row x = x.first ++ text "=" ++ x.second

abbrev pub rows : List (Pair Text Text) → List Text
rows [] = []
rows (x ∷ xs) = row x ∷ rows xs

unfoldable pub format_rows : (Text → ℕ) → List (Pair Text Text) → Outcome Text
unfolding Format.format
format_rows sscanf [] = done []
format_rows sscanf (x ∷ xs) =
    Format.format sscanf (text "?${0}") (join (text "&") (rows (x ∷ xs)) ∷ [])

unfoldable pub format : (Text → ℕ) → Map Text Text → Outcome Text
unfolding format_rows
format sscanf m = format_rows sscanf (data_of m)
