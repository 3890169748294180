-- ===== src/Prelude/Ascii.antt =====
-- The bytes of a text in ASCII, such as a literal of the program.
use Prim.Native.Char.{code}
use Prim.Native.String.{String}
use mathlib.Core.List.{List, [], ◌∷◌}
use Prim.Native.Nat.{ℕ}

abbrev pub text : String → List ℕ
text String.[] = []
text (String.◌∷◌ c s) = code c ∷ text s
