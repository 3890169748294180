-- ===== src/Path/Sections/Normal.antt =====
-- include/nodepp/path.h: the sections of a path in its normal form.
use mathlib.Core.List.{reverse-cons, reverse-append, reverse-reverse}
use nodepp.Prelude.{
  ℕ, zero, suc, ◌≡◌, refl, ap, ap₂, ◌∙◌, sym, ◌⊎◌, inl, inr, true, false, not, ◌&&◌, All, List, [],
  ◌∷◌, ◌++◌, reverse, append-nil, append_assoc, length, replicate, ==_iff, if◌then◌else◌,
  Bool-cases, ◌==◌,
}
use nodepp.Text.{Text, same}
use nodepp.Path.Sections.{up, is_up, leading_ups, resolve, normalize_sections, is_nil, tail}

-- A section that is not "..".
abbrev pub IsName : Text → Type 0
IsName x = is_up x ≡ false

pub same-eq : (xs ys : Text) → same xs ys ≡ true → xs ≡ ys
unfolding same
same-eq [] [] h = refl
same-eq [] (y ∷ ys) h = cc
same-eq (x ∷ xs) [] h = cc
same-eq (x ∷ xs) (y ∷ ys) h = elim (Bool-cases (x == y)) [
  | inl e ↦ ap₂ (λ a as'. a ∷ as') ((==_iff x y).0 e) (same-eq xs ys (rw e at h))
  | inr e ↦ let no : false ≡ true = rw e at h in cc
]

up_of : (x : Text) → is_up x ≡ true → x ≡ up
unfolding is_up
up_of x h = same-eq x up h

abbrev Ups : List Text → Type 0
Ups [] = Unit
Ups (x ∷ xs) = (x ≡ up) × Ups xs

-- The sections so far, the last one first: names, and behind them "..".
abbrev Form : List Text → Type 0
Form [] = Unit
Form (x ∷ xs) = (IsName x × Form xs) ⊎ ((x ≡ up) × Ups xs)

Ups-Form : (xs : List Text) → Ups xs → Form xs
Ups-Form [] h = tt
Ups-Form (x ∷ xs) h = inr h

replicate-Ups : (n : ℕ) → Ups (replicate n up)
replicate-Ups zero = tt
replicate-Ups (suc n) = (refl, replicate-Ups n)

resolve-Form : (nsec sec : List Text) → Form nsec → Form (resolve nsec sec)
unfolding resolve
resolve-Form nsec [] h = h
resolve-Form [] (x ∷ sec) h = elim (Bool-cases (is_up x)) [
  | inl e ↦ rw e (resolve-Form (x ∷ []) sec (inr (up_of x e, tt)))
  | inr e ↦ rw e (resolve-Form (x ∷ []) sec (inl (e, tt)))
]
resolve-Form (y ∷ nsec) (x ∷ sec) h = elim (Bool-cases (is_up x)) [
  | inl e ↦ rw e (resolve-Form nsec sec (rest y nsec h))
  | inr e ↦ rw e (resolve-Form (x ∷ y ∷ nsec) sec (inl (e, h)))
]
  where
    rest : (y : Text) (nsec : List Text) → Form (y ∷ nsec) → Form nsec
    rest y nsec (inl (n, f)) = f
    rest y nsec (inr (e, u)) = Ups-Form nsec u

replicate-snoc : (n : ℕ) → replicate n up ++ up ∷ [] ≡ replicate (suc n) up
replicate-snoc zero = refl
replicate-snoc (suc n) = ap (λ t. up ∷ t) (replicate-snoc n)

reverse-Ups : (xs : List Text) → Ups xs → reverse xs ≡ replicate (length xs) up
reverse-Ups [] h = refl
reverse-Ups (x ∷ xs) h =
    reverse-cons x xs
    ∙ ap₂ (λ a b. a ++ b ∷ []) (reverse-Ups xs h.1) h.0
    ∙ replicate-snoc (length xs)

All-snoc : (P : Text → Type 0) (xs : List Text) (x : Text) → All P xs → P x → All P (xs ++ x ∷ [])
All-snoc P [] x h p = (p, tt)
All-snoc P (y ∷ xs) x h p = (h.0, All-snoc P xs x h.1 p)

-- The parts of a normal form: its "..", and its names.
abbrev pub Shape : List Text → Type 0
Shape xs = (n : ℕ) × (names : List Text) × (xs ≡ replicate n up ++ names) × All IsName names

Form-Shape : (st : List Text) → Form st → Shape (reverse st)
Form-Shape [] h = (0, [], refl, tt)
Form-Shape (x ∷ st) (inl (p, f)) =
    let (n, names, e, a) = Form-Shape st f in
    (
      n,
      names ++ x ∷ [],
      reverse-cons x st ∙ ap (λ t. t ++ x ∷ []) e ∙ append_assoc (replicate n up) names (x ∷ []),
      All-snoc IsName names x a p,
    )
Form-Shape (x ∷ st) (inr u) = (
  length (x ∷ st),
  [],
  reverse-Ups (x ∷ st) u ∙ sym (append-nil (replicate (length (x ∷ st)) up)),
  tt,
)

-- The sections that normalize gives are some ".." followed by names that are not "..".
pub normalize_sections-Shape : (sec : List Text) → Shape (normalize_sections sec)
unfolding normalize_sections
normalize_sections-Shape sec =
    let (n, rest) = leading_ups sec in
    Form-Shape (resolve (replicate n up) rest)
      (resolve-Form (replicate n up) rest (Ups-Form (replicate n up) (replicate-Ups n)))

leading_ups-names : (names : List Text) → All IsName names → leading_ups names ≡ (0, names)
unfolding leading_ups
leading_ups-names [] h = refl
leading_ups-names (x ∷ names) h = rw (h.0)

leading_ups-Shape :
    (n : ℕ) (names : List Text)
    → All IsName names
    → leading_ups (replicate n up ++ names) ≡ (n, names)
unfolding leading_ups is_up same
leading_ups-Shape zero names h = leading_ups-names names h
leading_ups-Shape (suc n) names h = rw (leading_ups-Shape n names h)

pub resolve_name :
    (nsec : List Text) (x : Text) (sec : List Text)
    → IsName x
    → resolve nsec (x ∷ sec) ≡ resolve (x ∷ nsec) sec
unfolding resolve
resolve_name nsec x sec h =
    ap (λ b. resolve (if b && not (is_nil nsec) then tail nsec else x ∷ nsec) sec) h

pub resolve-up :
    (y : Text) (nsec sec : List Text) → resolve (y ∷ nsec) (up ∷ sec) ≡ resolve nsec sec
unfolding resolve is_up same
resolve-up y nsec sec = refl

pub resolve-names :
    (nsec names rest : List Text)
    → All IsName names
    → resolve nsec (names ++ rest) ≡ resolve (reverse names ++ nsec) rest
unfolding resolve
resolve-names nsec [] rest h = refl
resolve-names nsec (x ∷ names) rest h =
    resolve_name nsec x (names ++ rest) h.0
    ∙ resolve-names (x ∷ nsec) names rest h.1
    ∙ ap (λ t. resolve t rest)
        (sym
          (ap (λ t. t ++ nsec) (reverse-cons x names) ∙ append_assoc (reverse names) (x ∷ []) nsec))

reverse-replicate : (n : ℕ) → reverse (replicate n up) ≡ replicate n up
reverse-replicate n =
    reverse-Ups (replicate n up) (replicate-Ups n) ∙ ap (λ k. replicate k up) (length_up n)
  where
    length_up : (n : ℕ) → length (replicate n up) ≡ n
    length_up zero = refl
    length_up (suc n) = ap suc (length_up n)

pub normalize_sections-fixed :
    (n : ℕ) (names : List Text)
    → All IsName names
    → normalize_sections (replicate n up ++ names) ≡ replicate n up ++ names
unfolding normalize_sections
normalize_sections-fixed n names h =
    ap (λ (p : ℕ × List Text). reverse (resolve (replicate p.0 up) p.1))
      (leading_ups-Shape n names h)
    ∙ ap (λ t. reverse (resolve (replicate n up) t)) (sym (append-nil names))
    ∙ ap reverse
        (resolve-names (replicate n up) names [] h ∙ ending (reverse names ++ replicate n up))
    ∙ reverse-append (reverse names) (replicate n up)
    ∙ ap₂ (λ a b. a ++ b) (reverse-replicate n) (reverse-reverse names)
  where
    ending : (st : List Text) → resolve st [] ≡ st
    ending st = refl

-- normalize leaves the sections of its own result as they are.
pub normalize_sections-idempotent :
    (sec : List Text) → normalize_sections (normalize_sections sec) ≡ normalize_sections sec
normalize_sections-idempotent sec =
    let (n, names, e, a) = normalize_sections-Shape sec in
    ap normalize_sections e ∙ normalize_sections-fixed n names a ∙ sym e

leading_ups-name :
    (n : ℕ) (y : Text) (rest : List Text)
    → IsName y
    → leading_ups (replicate n up ++ y ∷ rest) ≡ (n, y ∷ rest)
unfolding leading_ups is_up same
leading_ups-name zero y rest h = rw h
leading_ups-name (suc n) y rest h = rw (leading_ups-name n y rest h)

pub normalize_sections-name :
    (n : ℕ) (y : Text) (rest : List Text)
    → IsName y
    → normalize_sections (replicate n up ++ y ∷ rest) ≡ reverse (resolve (y ∷ replicate n up) rest)
unfolding normalize_sections
normalize_sections-name n y rest h =
    ap (λ (p : ℕ × List Text). reverse (resolve (replicate p.0 up) p.1))
      (leading_ups-name n y rest h)
    ∙ ap reverse (resolve_name (replicate n up) y rest h)

-- Behind any number of ".." at the front and at least one name, normalize drops a name together
-- with the ".." that follows it, whatever comes after.
pub normalize_sections-cancel :
    (n : ℕ) (y : Text) (names : List Text) (x : Text) (sec : List Text)
    → IsName y
    → All IsName names
    → IsName x
    → normalize_sections (replicate n up ++ y ∷ (names ++ x ∷ up ∷ sec))
      ≡ normalize_sections (replicate n up ++ y ∷ (names ++ sec))
normalize_sections-cancel n y names x sec g h k =
    let st : List Text = reverse names ++ y ∷ replicate n up in
    normalize_sections-name n y (names ++ x ∷ up ∷ sec) g
    ∙ ap reverse (
        resolve-names (y ∷ replicate n up) names (x ∷ up ∷ sec) h
        ∙ resolve_name st x (up ∷ sec) k
        ∙ resolve-up x st sec
        ∙ sym (resolve-names (y ∷ replicate n up) names sec h))
    ∙ sym (normalize_sections-name n y (names ++ sec) g)

reverse_onto :
    (n : ℕ) (names : List Text)
    → reverse (reverse names ++ replicate n up) ≡ replicate n up ++ names
reverse_onto n names =
    reverse-append (reverse names) (replicate n up)
    ∙ ap₂ (λ a b. a ++ b) (reverse-replicate n) (reverse-reverse names)

pub resolve_all :
    (nsec names : List Text) → All IsName names → resolve nsec names ≡ reverse names ++ nsec
unfolding resolve
resolve_all nsec names h =
    ap (resolve nsec) (sym (append-nil names)) ∙ resolve-names nsec names [] h

-- Of a path with n + 1 times ".." at the front, then a name, two times "..", and names, normalize
-- keeps n of the ".." at the front, and the names: three of the steps up are lost with one step
-- down.
pub normalize_sections-loses_up :
    (n : ℕ) (x : Text) (names : List Text)
    → IsName x
    → All IsName names
    → normalize_sections (replicate (suc n) up ++ x ∷ up ∷ up ∷ names) ≡ replicate n up ++ names
normalize_sections-loses_up n x names h k =
    normalize_sections-name (suc n) x (up ∷ up ∷ names) h
    ∙ ap reverse (
        resolve-up x (replicate (suc n) up) (up ∷ names)
        ∙ resolve-up up (replicate n up) names
        ∙ resolve_all (replicate n up) names k)
    ∙ reverse_onto n names
