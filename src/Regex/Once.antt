-- ===== src/Regex/Once.antt =====
-- include/nodepp/regex.h: the functions of the namespace `regex`, which compile an expression for one
-- use.
use nodepp.Prelude.{suc, ◌+◌, ◌*◌, Bool, Option, none, some, List, [], ◌∷◌, length}
use nodepp.Text.{Text}
use nodepp.Text.Join
use nodepp.Text.Join.{join}
use nodepp.Regex.View.{whole}
use nodepp.Regex.Compile.{Outcome, done, refused, fault, stuck, Pattern, make}
use nodepp.Regex.Search.{Search, Span}
use nodepp.Regex.Ops

-- A use of an expression that has been compiled, with a memory of its own.
unfoldable pub use_of : {A : Type 0} → Outcome Pattern → (Pattern → Search A) → Outcome A
use_of (done p) f = elim (f p []) [ none ↦ stuck | some (a, memory) ↦ done a ]
use_of refused f = refused
use_of fault f = fault
use_of stuck f = stuck

-- With fuel for eight calls for each byte of the pattern.
unfoldable pub compiled : Text → Bool → Outcome Pattern
unfolding make
compiled reg icase = make (8 * length reg + 16) reg icase

unfoldable pub remove : Text → Text → Bool → Outcome Text
unfolding use_of compiled Ops.remove
remove xs reg flg = use_of (compiled reg flg) λ p. Ops.remove p xs 0

unfoldable pub replace_all : Text → Text → Text → Bool → Outcome Text
unfolding use_of compiled Ops.replace_all
replace_all xs reg rep flg = use_of (compiled reg flg) λ p. Ops.replace_all p xs rep

unfoldable pub remove_all : Text → Text → Bool → Outcome Text
unfolding use_of compiled Ops.remove_all
remove_all xs reg flg = use_of (compiled reg flg) λ p. Ops.remove_all p xs

unfoldable pub search_all : Text → Text → Bool → Outcome (List Span)
unfolding use_of compiled nodepp.Regex.Search.search_all
search_all xs reg flg = use_of (compiled reg flg) λ p. nodepp.Regex.Search.search_all p (whole xs)

unfoldable pub replace : Text → Text → Text → Bool → Outcome Text
unfolding use_of compiled Ops.replace
replace xs reg rep flg = use_of (compiled reg flg) λ p. Ops.replace p xs rep 0

unfoldable pub get_memory : Text → Text → Bool → Outcome (List Text)
unfolding use_of compiled Ops.get_memory_after
get_memory xs reg flg =
    use_of (compiled reg flg) λ p memory. Ops.get_memory_after p (whole xs) memory

unfoldable pub match_all : Text → Text → Bool → Outcome (List Text)
unfolding use_of compiled Ops.match_all
match_all xs reg flg = use_of (compiled reg flg) λ p. Ops.match_all p xs

unfoldable pub search : Text → Text → Bool → Outcome (Option Span)
unfolding use_of compiled nodepp.Regex.Search.search
search xs reg flg = use_of (compiled reg flg) λ p. nodepp.Regex.Search.search p (whole xs) 0

unfoldable pub match : Text → Text → Bool → Outcome Text
unfolding use_of compiled Ops.match
match xs reg flg = use_of (compiled reg flg) λ p. Ops.match p xs 0

unfoldable pub test : Text → Text → Bool → Outcome Bool
unfolding use_of compiled Ops.test
test xs reg flg = use_of (compiled reg flg) λ p. Ops.test p xs 0

-- An empty expression splits the text into its bytes.
unfoldable pub split : Text → Text → Bool → Outcome (List Text)
unfolding use_of compiled Ops.split Join.split_size
split xs [] flg = done (Join.split_size (suc (length xs)) xs 1)
split xs (c ∷ reg) flg = use_of (compiled (c ∷ reg) flg) λ p. Ops.split p xs
