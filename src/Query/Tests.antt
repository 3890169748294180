-- ===== src/Query/Tests.antt =====
-- Runs of the functions on queries.
use nodepp.Prelude.{ℕ, ◌≡◌, refl, [], ◌∷◌, ◌-◌}
use nodepp.Prelude.Ascii.{text}
use nodepp.Array
use nodepp.Text.{Text, same}
use nodepp.Regex.Compile.{done, ◌>>=◌}
use nodepp.HashMap.{
  Map, Pair, empty_map, data_of, append, index, scan, item_as, set_second, get_address,
  get_address_loop,
}
use nodepp.HashMap.Keys.{text_key}
use nodepp.HashMap.Scan.{pairs}
use nodepp.Query.{parse, read_rows, format_rows, format}
use nodepp.Query.Rows.{put_rows, read_rows-put_rows, written, format-written}
use nodepp.HashMap.Values.{empty-IsValid}

abbrev pub pair_of : Text → Text → Pair Text Text
pair_of x y = record { first = x; second = y }

-- A number of one digit.
abbrev digit : Text → ℕ
digit [] = 0
digit (c ∷ cs) = c - 48

parse_run :
    (parse (text "?a=1&b=22&a=3") >>= λ m. done (data_of m))
    ≡ done (pair_of (text "a") (text "3") ∷ pair_of (text "b") (text "22") ∷ [])
unfolding parse read_rows text_key append index scan item_as set_second get_address get_address_loop
    Array.slice same
parse_run = refl

parse_unwritten : parse (text "a=1") ≡ done empty_map
unfolding parse
parse_unwritten = refl

format_run :
    format_rows digit (pair_of (text "a") (text "1") ∷ pair_of (text "b") (text "22") ∷ [])
    ≡ done (text "?a=1&b=22")
unfolding format_rows Array.slice Array.slice_from
format_run = refl

abbrev one : Map Text Text
one = read_rows (text "a" ∷ text "1" ∷ []) empty_map

read_rows-put_rows_example :
    pairs (read_rows (text "a" ∷ text "1" ∷ text "a" ∷ text "2" ∷ text "b" ∷ []) empty_map).queue
    ≡ put_rows (text "a" ∷ text "1" ∷ text "a" ∷ text "2" ∷ text "b" ∷ []) []
read_rows-put_rows_example =
    read_rows-put_rows (text "a" ∷ text "1" ∷ text "a" ∷ text "2" ∷ text "b" ∷ []) empty_map
      (empty-IsValid text_key)

format-written_example : format digit one ≡ done (written (data_of one))
format-written_example = format-written digit refl one
