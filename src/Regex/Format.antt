-- ===== src/Regex/Format.antt =====
-- include/nodepp/regex.h: `regex::format`, which puts arguments into a text at the marks ${0}, ${1}, ….
use nodepp.Prelude.{ℕ, none, some, false, List, [], ◌∷◌, get_elem?}
use nodepp.Prelude.Int.{pos}
use nodepp.Prelude.Ascii.{text}
use nodepp.Text.{Text, slice, slice_from}
use nodepp.Text.Join.{join}
use nodepp.Regex.Compile.{Outcome, done, ◌>>=◌}
use nodepp.Regex.Search.{Span}
use nodepp.Regex.Ops
use nodepp.Regex.Once
use nodepp.Regex.Once.{use_of, compiled}

-- `string::to_uint`, with the number that sscanf reads.
abbrev pub to_uint : (Text → ℕ) → Text → ℕ
to_uint sscanf [] = 0
to_uint sscanf (c ∷ cs) = sscanf (c ∷ cs)

module _ (sscanf : Text → ℕ) (args : List Text) (val : Text) where
  unfoldable pub format_loop : ℕ → List Span → Outcome (List Text)
  unfolding use_of compiled Ops.match
  format_loop idx [] = done (slice_from val (pos idx) ∷ [])
  format_loop idx ((x, y) ∷ spans) = do
    found ← use_of (compiled (text "\\d+") false) λ p. Ops.match p (slice val (pos x) (pos y)) 0
    elim (get_elem? args (to_uint sscanf found)) [
      | none ↦ format_loop idx spans
      | some arg ↦ do out ← format_loop y spans; done (slice val (pos idx) (pos x) ∷ arg ∷ out)
    ]

  unfoldable pub format_spans : Outcome Text
  unfolding format_loop Once.search_all
  format_spans = do
    spans ← Once.search_all val (text "\\$\\{\\d+\\}") false
    out ← format_loop 0 spans
    done (join [] out)

unfoldable pub format : (Text → ℕ) → Text → List Text → Outcome Text
unfolding format_spans
format sscanf val [] = done val
format sscanf val (arg ∷ args) = format_spans sscanf (arg ∷ args) val
