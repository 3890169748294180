-- ===== src/Cookie.antt =====
-- include/nodepp/cookie.h: the cookies of a header as a map of strings.
pub mod Tests
use nodepp.Prelude.{false, List, [], ◌∷◌}
use nodepp.Prelude.Ascii.{text}
use nodepp.Text.{Text}
use nodepp.Text.Join.{join}
use nodepp.Regex.Compile.{Outcome, done}
use nodepp.Regex.Once
use nodepp.HashMap.{Map, empty_map, data_of}
use nodepp.Query.{read_all, rows}

unfoldable pub parse : Text → Outcome (Map Text Text)
unfolding read_all Once.get_memory
parse [] = done empty_map
parse (c ∷ input) = read_all (Once.get_memory (c ∷ input) (text "([^= ;]+)=([^;]+)") false)

unfoldable pub format : Map Text Text → Text
format m = join (text "; ") (rows (data_of m))
