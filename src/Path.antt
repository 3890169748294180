-- ===== src/Path.antt =====
-- include/nodepp/path.h: the functions on paths. What they do with the sections of a path stands in
-- Path.Sections.
pub mod Mime
pub mod Sections
pub mod Tests
use nodepp.Prelude.{ℕ, Bool, true, false, Option, none, some, List, [], ◌∷◌, ◌++◌, if◌then◌else◌}
use nodepp.Prelude.Int.{pos}
use nodepp.Prelude.Ascii.{text}
use nodepp.Array
use nodepp.Text.{Text, slice}
use nodepp.Text.Join.{join}
use nodepp.Regex.Compile.{Outcome, done, refused, fault, stuck, ◌>>=◌, Pattern}
use nodepp.Regex.Ops
use nodepp.Regex.Once
use nodepp.Regex.Once.{use_of, compiled}
use Mime.{mime_of}
use Sections.{normalize_sections, relative_sections}

pub record FilePath : Type 0 where
  pub type : Text
  pub path : Text
  pub root : Text
  pub base : Text
  pub name : Text
  pub dir : Text
  pub ext : Text

-- NODEPP_PATH_SEP, and the expressions as far as they are used. The memory of such an expression is
-- not read, so each use begins with an empty one.
abbrev pub separator : Text
separator = text "/"

abbrev pub root_here : Text
root_here = text "./"

unfoldable pub separators : Outcome Pattern
unfolding compiled
separators = compiled (text "/+|\\\\+") false

unfoldable pub leading : Outcome Pattern
unfolding compiled
leading = compiled (text "^/") false

unfoldable pub names : Outcome Pattern
unfolding compiled
names = compiled (text "[^/]+") false

unfoldable pub extension : Outcome Pattern
unfolding compiled
extension = compiled (text "\\.\\w+$") false

-- `reg0.split( path )`
unfoldable pub sections_of : Text → Outcome (List Text)
unfolding use_of separators Ops.split
sections_of path = use_of separators λ p. Ops.split p path

unfoldable pub normalize : Text → Outcome Text
unfolding sections_of normalize_sections
normalize path = do sec ← sections_of path; done (join separator (normalize_sections sec))

unfoldable pub is_absolute : Text → Outcome Bool
unfolding use_of leading Ops.test
is_absolute path = use_of leading λ p. Ops.test p path 0

unfoldable pub extname : Text → Outcome Text
unfolding use_of extension Ops.test Ops.match
extname path = do
  found ← use_of extension λ p. Ops.test p path 0
  m ← use_of extension λ p. Ops.match p path 0
  done (if found then slice m (pos 1) (pos (Array.size m)) else [])

-- The type of an extension.
unfoldable pub mime_type : Text → Text
unfolding mime_of
mime_type [] = []
mime_type (c ∷ ext) = elim (mime_of (c ∷ ext)) [
  | none ↦ text "aplication/" ++ c ∷ ext
  | some type ↦ type
]

unfoldable pub mimetype : Text → Outcome Text
unfolding extname mime_type
mimetype path = do ext ← extname path; done (mime_type ext)

unfoldable pub mimetype_of : FilePath → Text
unfolding mime_type
mimetype_of path = mime_type path.ext

unfoldable pub dirname : Text → Outcome Text
unfolding sections_of Array.pop
dirname path = do vec ← sections_of path; done (join separator (Array.pop vec))

-- `vec[ vec.last() ]`
abbrev pub last_of : List Text → Text
last_of [] = []
last_of (x ∷ []) = x
last_of (x ∷ y ∷ xs) = last_of (y ∷ xs)

unfoldable pub basename : Text → Outcome Text
unfolding use_of names Ops.match_all
basename path = do vec ← use_of names λ p. Ops.match_all p path; done (last_of vec)

-- Without `del`, an expression.
unfoldable pub basename_without : Text → Text → Outcome Text
unfolding use_of names Ops.match_all Once.replace
basename_without path del = do
  vec ← use_of names λ p. Ops.match_all p path
  elim vec [ [] ↦ done [] | x ∷ xs ↦ Once.replace (last_of (x ∷ xs)) del [] false ]

-- The part behind the root and the directory.
unfoldable pub format_base : FilePath → Text
format_base obj = elim (obj.base) [
  | [] ↦ (elim (obj.name) [ [] ↦ [] | c ∷ name ↦ (c ∷ name) ++ text "." ]) ++ obj.ext
  | c ∷ base ↦ c ∷ base
]

unfoldable pub format : FilePath → Text
unfolding format_base
format obj = elim (obj.path) [
  | [] ↦ (elim (obj.root) [ [] ↦ root_here | c ∷ root ↦ c ∷ root ]) ++ (obj.dir ++ format_base obj)
  | c ∷ path ↦ c ∷ path
]

unfoldable pub parse : Text → Outcome FilePath
unfolding is_absolute extname dirname basename mimetype basename_without
parse path = do
  absolute ← is_absolute path
  ext ← extname path
  dir ← dirname path
  base ← basename path
  type ← mimetype path
  name ← basename_without path (text "\\." ++ ext)
  done (record {
    type = type;
    path = path;
    root = if absolute then separator else root_here;
    base = base;
    name = name;
    dir = dir;
    ext = ext;
  })

unfoldable pub relative : Text → Text → Outcome Text
unfolding normalize sections_of relative_sections
relative path_a path_b = do
  a ← normalize path_a
  b ← normalize path_b
  sec_a ← sections_of a
  sec_b ← sections_of b
  done (join separator (relative_sections sec_a sec_b))

-- The sections of the normal form.
unfoldable pub split : Text → Outcome (List Text)
unfolding normalize sections_of
split path = do normal ← normalize path; sections_of normal

unfoldable pub push : Text → Text → Outcome Text
unfolding split Array.push normalize
push path dir = do sec ← split path; normalize (join separator (Array.push sec dir))

unfoldable pub unshift : Text → Text → Outcome Text
unfolding split Array.unshift normalize
unshift path dir = do sec ← split path; normalize (join separator (Array.unshift sec dir))

unfoldable pub pop : Text → Outcome Text
unfolding split Array.pop
pop path = do sec ← split path; done (join separator (Array.pop sec))

unfoldable pub shift : Text → Outcome Text
unfolding split Array.shift
shift path = do sec ← split path; done (join separator (Array.shift sec))

-- `join( args... )`
unfoldable pub join_all : List Text → Outcome Text
unfolding normalize
join_all args = normalize (join separator args)
