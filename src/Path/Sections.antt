-- ===== src/Path/Sections.antt =====
-- include/nodepp/path.h: `normalize` and `relative` on the sections of paths.
pub mod Normal
pub mod Relative
use nodepp.Prelude.{
  ℕ, suc, Bool, true, false, not, ◌&&◌, List, [], ◌∷◌, ◌++◌, reverse, length, replicate,
  if◌then◌else◌,
}
use nodepp.Prelude.Ascii.{text}
use nodepp.Text.{Text, same}

abbrev pub up : Text
up = text ".."

unfoldable pub is_up : Text → Bool
unfolding same
is_up x = same x up

-- The first loop: how many sections at the front are "..", which it pushes, and the others.
unfoldable pub leading_ups : List Text → ℕ × List Text
unfolding is_up
leading_ups [] = (0, [])
leading_ups (x ∷ xs) =
    let (n, rest) = leading_ups xs in if is_up x then (suc n, rest) else (0, x ∷ xs)

abbrev pub is_nil : List Text → Bool
is_nil [] = true
is_nil (x ∷ xs) = false

abbrev pub tail : List Text → List Text
tail [] = []
tail (x ∷ xs) = xs

-- The second loop. `nsec` is held with its last section first.
unfoldable pub resolve : List Text → List Text → List Text
unfolding is_up
resolve nsec [] = nsec
resolve nsec (x ∷ sec) = resolve (if is_up x && not (is_nil nsec) then tail nsec else x ∷ nsec) sec

unfoldable pub normalize_sections : List Text → List Text
unfolding leading_ups resolve
normalize_sections sec = let (n, rest) = leading_ups sec in reverse (resolve (replicate n up) rest)

-- The sections behind those that both paths begin with.
unfoldable pub behind_common : List Text → List Text → List Text × List Text
unfolding same
behind_common [] ys = ([], ys)
behind_common (x ∷ xs) [] = (x ∷ xs, [])
behind_common (x ∷ xs) (y ∷ ys) =
    let rest = behind_common xs ys in if same x y then rest else (x ∷ xs, y ∷ ys)

unfoldable pub relative_sections : List Text → List Text → List Text
unfolding behind_common
relative_sections sec_a sec_b =
    let (a, b) = behind_common sec_a sec_b in replicate (length a) up ++ b
