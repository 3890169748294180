-- ===== src/Url/Escapes.antt =====
-- include/nodepp/url.h: `normalize` and `unnormalize`, which take escapes off and put them in.
use nodepp.Prelude.{ℕ, zero, suc, true, false, [], ◌∷◌, ◌++◌, length}
use nodepp.Prelude.Int.{pos}
use nodepp.Prelude.Ascii.{text}
use nodepp.Encoder.Hex.{atob, btoa_bytes}
use nodepp.Text.{Text, slice}
use nodepp.Regex.Compile.{Outcome, done, stuck, ◌>>=◌, Pattern}
use nodepp.Regex.Once
use nodepp.Url.{test, match, reg_of}

unfoldable pub escaped : Outcome Pattern
unfolding reg_of
escaped = reg_of "%[a-z0-9]{2}" true

unfoldable pub special : Outcome Pattern
unfolding reg_of
special = reg_of "[^a-z0-9%]" true

-- `while( reg.test( res ) ){ … }`, with fuel: what is found is used as an expression in its turn.
unfoldable pub normalize : ℕ → Text → Outcome Text
unfolding test match escaped btoa_bytes Once.replace_all
normalize zero res = stuck
normalize (suc f) res = do
  found ← test escaped res
  elim found [
    | false ↦ done res
    | true ↦ do
      m ← match escaped res
      next ← Once.replace_all res m (btoa_bytes (slice m (pos 1) (pos (length m)))) false
      normalize f next
  ]

abbrev pub first_byte : Text → ℕ
first_byte [] = 0
first_byte (c ∷ cs) = c

unfoldable pub unnormalize : ℕ → Text → Outcome Text
unfolding test match special atob Once.replace_all
unnormalize zero res = stuck
unnormalize (suc f) res = do
  found ← test special res
  elim found [
    | false ↦ done res
    | true ↦ do
      m ← match special res
      next ← Once.replace_all res m (text "%" ++ atob 8 (first_byte m)) false
      unnormalize f next
  ]
