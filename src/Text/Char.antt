-- ===== src/Text/Char.antt =====
-- include/nodepp/string.h, namespace `string`: the tests on one unsigned byte and the change of
-- case.
use nodepp.Prelude.{ℕ, ◌+◌, ◌-◌, Bool, not, ◌&&◌, ◌||◌, ltb, leb, ◌==◌, if◌then◌else◌}

unfoldable pub is_hex : ℕ → Bool
is_hex c = (leb b'0' c && leb c b'9') || (leb b'A' c && leb c b'F') || (leb b'a' c && leb c b'f')

unfoldable pub is_space : ℕ → Bool
is_space c = c == b' ' || c == b'\t' || c == b'\n' || c == b'\r' || c == 12 || c == 11

unfoldable pub is_alpha : ℕ → Bool
is_alpha c = (leb b'A' c && leb c b'Z') || (leb b'a' c && leb c b'z')

unfoldable pub is_graph : ℕ → Bool
is_graph c = leb 33 c && leb c 126 && not (c == b' ')

unfoldable pub is_lower : ℕ → Bool
is_lower c = leb b'a' c && leb c b'z'

unfoldable pub is_upper : ℕ → Bool
is_upper c = leb b'A' c && leb c b'Z'

unfoldable pub is_digit : ℕ → Bool
is_digit c = leb b'0' c && leb c b'9'

unfoldable pub is_print : ℕ → Bool
is_print c = leb 64 c && leb c 127

unfoldable pub is_contr : ℕ → Bool
is_contr c = ltb c 64 || c == 127

unfoldable pub is_null : ℕ → Bool
is_null c = c == 0

unfoldable pub is_ascii : ℕ → Bool
is_ascii c = leb c 127

unfoldable pub to_upper : ℕ → ℕ
unfolding is_lower
to_upper c = if is_lower c then c - b'a' + b'A' else c

unfoldable pub to_lower : ℕ → ℕ
unfolding is_upper
to_lower c = if is_upper c then c - b'A' + b'a' else c

unfoldable pub is_alnum : ℕ → Bool
unfolding is_alpha is_digit
is_alnum c = is_alpha c || is_digit c

unfoldable pub is_punct : ℕ → Bool
unfolding is_print is_space is_alnum
is_punct c = is_print c && not (is_space c) && not (is_alnum c)
