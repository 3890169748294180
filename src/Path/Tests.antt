-- ===== src/Path/Tests.antt =====
-- Runs of the functions on paths.
use nodepp.Prelude.{◌≡◌, refl, [], ◌∷◌, ◌++◌, replicate}
use nodepp.Prelude.Ascii.{text}
use nodepp.Array
use nodepp.Regex.Compile.{done}
use nodepp.Path.Sections.{up, is_up, normalize_sections, relative_sections}
use nodepp.Path.Sections.Normal.{IsName, normalize_sections-cancel}
use nodepp.Path.Sections.Relative.{normalize_sections-relative}
use nodepp.Path.{normalize, extname, basename, mimetype, relative}

normalize_run : normalize (text "/usr//lib/../bin") ≡ done (text "/usr/bin")
unfolding normalize Array.slice Array.slice_from
normalize_run = refl

extname_run : extname (text "a/b.js") ≡ done (text "js")
unfolding extname Array.slice
extname_run = refl

-- The anchor `$` holds one byte too early.
extname_early : extname (text "a/b.js?") ≡ done (text "js")
unfolding extname Array.slice
extname_early = refl

basename_run : basename (text "a/b.js") ≡ done (text "b.js")
unfolding basename Array.slice
basename_run = refl

mimetype_run : mimetype (text "a/b.js") ≡ done (text "text/javascript")
unfolding mimetype Array.slice
mimetype_run = refl

relative_run : relative (text "a/b/c") (text "a/d") ≡ done (text "../../d")
unfolding relative Array.slice Array.slice_from
relative_run = refl

a-IsName : IsName (text "a")
unfolding is_up
a-IsName = refl

b-IsName : IsName (text "b")
unfolding is_up
b-IsName = refl

normalize_sections-cancel_example :
    normalize_sections (replicate 1 up ++ text "a" ∷ ((text "b" ∷ []) ++ text "a" ∷ up ∷ up ∷ []))
    ≡ normalize_sections (replicate 1 up ++ text "a" ∷ ((text "b" ∷ []) ++ up ∷ []))
normalize_sections-cancel_example =
    normalize_sections-cancel 1 (text "a") (text "b" ∷ []) (text "a") (up ∷ []) a-IsName
      (b-IsName, tt) a-IsName

normalize_sections-relative_example :
    normalize_sections (
      (text "a" ∷ text "b" ∷ [])
      ++ relative_sections (text "a" ∷ text "b" ∷ []) (text "a" ∷ text "a" ∷ []))
    ≡ text "a" ∷ text "a" ∷ []
normalize_sections-relative_example =
    normalize_sections-relative (text "a" ∷ text "b" ∷ []) (text "a" ∷ text "a" ∷ [])
      (a-IsName, (b-IsName, tt)) (a-IsName, (a-IsName, tt))
