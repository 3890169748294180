-- ===== src/Path/Sections/Relative.antt =====
-- include/nodepp/path.h: `relative`, and `normalize` of what it gives.
use mathlib.Core.List.{reverse-cons, reverse-append, reverse-reverse}
use nodepp.Prelude.{
  ◌≡◌, refl, ap, ap₂, ◌∙◌, sym, Bool, true, false, All, List, [], ◌∷◌, ◌++◌, reverse, append-nil,
  length, length-append, subst, replicate, if◌then◌else◌, arith,
}
use nodepp.Text.{Text, same}
use nodepp.Path.Sections.{up, resolve, normalize_sections, behind_common, relative_sections}
use nodepp.Path.Sections.Normal.{
  IsName, same-eq, resolve-names, resolve-up, resolve_all, resolve_name, normalize_sections-fixed,
  normalize_sections-name,
}

-- Two paths, by what they have in common and what follows there.
abbrev Common : List Text → List Text → List Text × List Text → Type 0
Common xs ys (a, b) = (front : List Text) × (xs ≡ front ++ a) × (ys ≡ front ++ b)

behind_common-Common : (xs ys : List Text) → Common xs ys (behind_common xs ys)
unfolding behind_common
behind_common-Common [] ys = ([], refl, refl)
behind_common-Common (x ∷ xs) [] = ([], refl, refl)
behind_common-Common (x ∷ xs) (y ∷ ys) =
    let (front, p, q) = behind_common-Common xs ys in
    chosen (same x y) refl (behind_common xs ys) (front, p, q)
  where
    chosen :
        (t : Bool)
        → same x y ≡ t
        → (rest : List Text × List Text) → Common xs ys rest
        → Common (x ∷ xs) (y ∷ ys) (if t then rest else (x ∷ xs, y ∷ ys))
    chosen true e rest (front, p, q) =
        (x ∷ front, ap (λ t. x ∷ t) p, ap₂ (λ a b. a ∷ b) (sym (same-eq x y e)) q)
    chosen false e rest c = ([], refl, refl)

module _ (P : Text → Type 0) where
  All-front : (xs ys : List Text) → All P (xs ++ ys) → All P xs
  All-front [] ys h = tt
  All-front (x ∷ xs) ys h = (h.0, All-front xs ys h.1)

  All-back : (xs ys : List Text) → All P (xs ++ ys) → All P ys
  All-back [] ys h = h
  All-back (x ∷ xs) ys h = All-back xs ys h.1

length-reverse : (xs : List Text) → length (reverse xs) ≡ length xs
length-reverse [] = refl
length-reverse (x ∷ xs) =
    ap length (reverse-cons x xs)
    ∙ omega (arith, length-append (reverse xs) (x ∷ []), length-reverse xs)

-- As many ".." as there are sections take these off.
resolve-ups :
    (ms st sec : List Text) → resolve (ms ++ st) (replicate (length ms) up ++ sec) ≡ resolve st sec
resolve-ups [] st sec = refl
resolve-ups (m ∷ ms) st sec =
    resolve-up m (ms ++ st) (replicate (length ms) up ++ sec) ∙ resolve-ups ms st sec

none_behind : (xs ys : List Text) → xs ++ ys ≡ [] → ys ≡ []
none_behind [] ys e = e
none_behind (x ∷ xs) ys e = cc

-- Without ".." at the front.
normalize_from_empty :
    (xs rest : List Text)
    → All IsName xs
    → (xs ≡ [] → All IsName rest)
    → normalize_sections (xs ++ rest) ≡ reverse (resolve [] (xs ++ rest))
normalize_from_empty [] rest h k =
    normalize_sections-fixed 0 rest (k refl)
    ∙ sym (reverse-reverse rest)
    ∙ ap reverse (sym (resolve_all [] rest (k refl) ∙ append-nil (reverse rest)))
normalize_from_empty (x ∷ xs) rest h k =
    normalize_sections-name 0 x (xs ++ rest) h.0
    ∙ ap reverse (sym (resolve_name [] x (xs ++ rest) h.0))

-- For two lists of sections that are names, not "..", the sections that normalize gives for the
-- first list followed by the sections that relative gives from the first to the second are the
-- second.
pub normalize_sections-relative :
    (xs ys : List Text)
    → All IsName xs
    → All IsName ys
    → normalize_sections (xs ++ relative_sections xs ys) ≡ ys
unfolding relative_sections
normalize_sections-relative xs ys h k =
    let (a, b) = behind_common xs ys in
    let (front, p, q) = behind_common-Common xs ys in
    let names_a : All IsName (front ++ a) = subst (All IsName) p h in
    let names_b : All IsName (front ++ b) = subst (All IsName) q k in
    let last_b = All-back IsName front b names_b in
    normalize_from_empty xs (replicate (length a) up ++ b) h (λ e.
      subst (λ t. All IsName (replicate (length t) up ++ b)) (sym (none_behind front a (sym p ∙ e)))
        last_b)
    ∙ ap reverse (
        ap (λ t. resolve [] (t ++ (replicate (length a) up ++ b))) p
        ∙ resolve-names [] (front ++ a) (replicate (length a) up ++ b) names_a
        ∙ ap₂ (λ t n. resolve t (replicate n up ++ b))
            (append-nil (reverse (front ++ a)) ∙ reverse-append front a) (sym (length-reverse a))
        ∙ resolve-ups (reverse a) (reverse front) b
        ∙ resolve_all (reverse front) b last_b)
    ∙ reverse-append (reverse b) (reverse front)
    ∙ ap₂ (λ s t. s ++ t) (reverse-reverse front) (reverse-reverse b)
    ∙ sym q
