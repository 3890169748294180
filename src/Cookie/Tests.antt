-- ===== src/Cookie/Tests.antt =====
-- Runs of the functions on cookies.
use nodepp.Prelude.{◌≡◌, refl, [], ◌∷◌}
use nodepp.Prelude.Ascii.{text}
use nodepp.Array
use nodepp.Regex.Compile.{done, ◌>>=◌}
use nodepp.HashMap.{
  data_of, append, index, scan, item_as, set_second, get_address, get_address_loop,
}
use nodepp.Text.{same}
use nodepp.HashMap.Keys.{text_key}
use nodepp.Query.Tests.{pair_of}
use nodepp.Cookie.{parse}

parse_run :
    (parse (text "a=1; b=22") >>= λ m. done (data_of m))
    ≡ done (pair_of (text "a") (text "1") ∷ pair_of (text "b") (text "22") ∷ [])
unfolding parse text_key append index scan item_as set_second get_address get_address_loop
    Array.slice same
parse_run = refl

-- The groups of tries that failed stay in the memory of the expression.
parse_failed_tries :
    (parse (text "xy") >>= λ m. done (data_of m)) ≡ done (pair_of (text "xy") (text "y") ∷ [])
unfolding parse text_key append index scan item_as set_second get_address get_address_loop
    Array.slice same
parse_failed_tries = refl
