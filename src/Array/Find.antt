-- ===== src/Array/Find.antt =====
-- `array_t::find`, and `index_of`, `some`, `none` and `every` beside it. The elements are compared
-- by an equality of the element type, `eq`.
use nodepp.Prelude.{
  ℕ, zero, suc, ◌+◌, ◌-◌, ◌^◌, ◌≤◌, ◌<◌, min, ◌≡◌, refl, ap, sym, ◌∙◌, inl, inr, Bool, true, false,
  not, ◌||◌, List, [], ◌∷◌, ◌++◌, Option, none, some, length, take, drop, get_elem?, append_assoc,
  ◌==◌, if◌then◌else◌, Bool-cases, Option-cases, if-case, length-append, length-take, take_past,
  take-append-drop, ==_iff, arith,
}
use native.Mathlib.Nat.{zero-min}
use native.Mathlib.Numerals.{add-one}
use mathlib.Core.Option.{some-injective}
use nodepp.Prelude.Int.{ℤ, pos, negsuc}
use nodepp.Array.{is_empty, index_of, index_of_loop, some_of, none_of, every}

-- The variables of the loop: `idx[0]`, `idx[1]` and `x`. `pos` is `idx[1]` until the loop breaks.
pub record Search : Type 0 where
  pub first : ℕ
  pub last : ℕ
  pub matched : ℕ

-- The element matches the next one of the pattern.
abbrev matching : Search → Search
matching s = record s { last = s.last + 1; matched = s.matched + 1 }

-- It does not: the search goes on behind it.
abbrev restart : Search → Search
restart s = record { first = s.last + 1; last = s.last + 1; matched = 0 }

module _ {ℓ} {A : Type ℓ} (eq : A → A → Bool) where
  -- `*addr == data[x]`
  abbrev fits : A → Option A → Bool
  fits c none = false
  fits c (some d) = eq c d

  unfoldable pub find_loop : List A → List A → Search → Search
  find_loop pattern [] s = s
  find_loop pattern (c ∷ cs) s =
      let next =
        find_loop pattern cs
          (if fits c (get_elem? pattern s.matched) then matching s else restart s) in
      if length pattern == s.matched then s else next

  -- The range of the first match that the loop sees, from an offset on. The source counts in an
  -- `int`: this is for arrays of fewer than 2 ^ 31 elements, where it does not overflow.
  unfoldable pub find : List A → List A → ℕ → Option (ℕ × ℕ)
  unfolding find_loop
  find xs pattern offset =
      let start = min offset (length xs) in
      let s =
        find_loop pattern (drop start xs) (record { first = start; last = start; matched = 0 }) in
      if is_empty pattern || is_empty xs
      then none
      else if s.last - s.first == length pattern
      then some (s.first, s.last)
      else none

take-suc {ℓ} :
    {A : Type ℓ} (n : ℕ) (xs : List A) {x : A}
    → get_elem? xs n ≡ some x
    → take (suc n) xs ≡ take n xs ++ x ∷ []
take-suc n [] e = absurd (cc)
take-suc {A} zero (y ∷ ys) {x} e = ap (λ (z : A). z ∷ []) (some-injective y x e)
take-suc (suc n) (y ∷ ys) e = ap (◌∷◌ y) (take-suc n ys e)

-- The pattern stands in `xs` from `s.first` to `s.last`.
pub record Occurs {A : Type 0} (xs pattern : List A) (first last : ℕ) : Type 0 where
  pub before : List A
  pub behind : List A
  pub splits : xs ≡ before ++ (pattern ++ behind)
  pub starts : length before ≡ first
  pub stops : last ≡ first + length pattern

module _ {A : Type 0} (eq : A → A → Bool) (eq_sound : (a b : A) → eq a b ≡ true → a ≡ b) where
  fits-take :
      (pattern : List A) (n : ℕ) (c : A)
      → fits eq c (get_elem? pattern n) ≡ true
      → take (n + 1) pattern ≡ take n pattern ++ c ∷ []
  fits-take pattern n c h = elim (Option-cases (get_elem? pattern n)) [
    | inl e ↦ cc (rw (e, fits) at h)
    | inr (d, e) ↦
        rw (add-one n, take-suc n pattern e)
          (ap (λ (z : A). take n pattern ++ z ∷ []) (sym (eq_sound c d (rw (e, fits) at h))))
  ]

  find_loop-Occurs :
      (xs pattern before rest : List A) (s : Search)
      → s.last ≡ s.first + s.matched
      → s.matched ≤ length pattern
      → length before ≡ s.first
      → xs ≡ before ++ (take s.matched pattern ++ rest)
      → let r = find_loop eq pattern rest s in
        r.last - r.first ≡ length pattern → Occurs xs pattern r.first r.last
  unfolding find_loop
  find_loop-Occurs xs pattern before [] s l m f e = λ full. record {
    before = before;
    behind = [];
    splits = e ∙ rw (take_past s.matched pattern (omega arith));
    starts = f;
    stops = omega arith;
  }
  find_loop-Occurs xs pattern before (c ∷ cs) s l m f e =
      elim (Bool-cases (length pattern == s.matched)) [
        | inl done ↦ rw done λ full. record {
          before = before;
          behind = c ∷ cs;
          splits =
              e
              ∙ rw (
                  take_past s.matched pattern
                    (omega (arith, (==_iff (length pattern) s.matched).0 done)));
          starts = f;
          stops = omega arith;
        }
        | inr more ↦ rw more (elim (Bool-cases (fits eq c (get_elem? pattern s.matched))) [
          | inl hit ↦ rw hit (
              find_loop-Occurs xs pattern before cs (matching s) (omega arith) (ground arith) f (
                e
                ∙ rw (
                  fits-take pattern s.matched c hit,
                  append_assoc (take s.matched pattern) (c ∷ []) cs,
                )))
          | inr miss ↦ rw miss (
              find_loop-Occurs xs pattern (before ++ (take s.matched pattern ++ c ∷ [])) cs
                (restart s) (omega arith) (omega arith)
                (omega (
                  arith,
                  length-append before (take s.matched pattern ++ c ∷ []),
                  length-append (take s.matched pattern) (c ∷ []),
                  length-take s.matched pattern,
                ))
                (e
                  ∙ rw (
                    append_assoc before (take s.matched pattern ++ c ∷ []) cs,
                    append_assoc (take s.matched pattern) (c ∷ []) cs,
                  )))
        ])
      ]

  -- The loop never goes back.
  find_loop-from :
      (pattern rest : List A) (s : Search)
      → s.first ≤ s.last
      → s.first ≤ (find_loop eq pattern rest s).first
  unfolding find_loop
  find_loop-from pattern [] s h = omega arith
  find_loop-from pattern (c ∷ cs) s h =
      if-case (λ (r : Search). s.first ≤ r.first) (length pattern == s.matched) (λ e. omega arith)
        (λ e.
          if-case (λ (t : Search). s.first ≤ (find_loop eq pattern cs t).first)
            (fits eq c (get_elem? pattern s.matched))
            (λ w. find_loop-from pattern cs (matching s) (omega arith))
            (λ w. let on = find_loop-from pattern cs (restart s) (omega arith) in omega arith))

  found :
      (xs pattern : List A) (r : Search) {first last : ℕ}
      → ◌≡◌ {A = Option (ℕ × ℕ)}
          (if is_empty pattern || is_empty xs
            then none
            else if r.last - r.first == length pattern
            then some (r.first, r.last)
            else none)
          (some (first, last))
      → (r.first ≡ first) × (r.last ≡ last) × (r.last - r.first ≡ length pattern)
  found xs pattern r h = ground arith

  -- With an equality test that holds of equal elements only, and an array of fewer than 2 ^ 31
  -- elements, a range that find gives is one where the pattern stands in the array, and begins at
  -- the offset, or the end of the array if that is less, or behind it.
  pub find-Occurs :
      (xs pattern : List A) (offset : ℕ) {first last : ℕ}
      → length xs < 2 ^ 31
      → find eq xs pattern offset ≡ some (first, last)
      → Occurs xs pattern first last × (min offset (length xs) ≤ first)
  unfolding find
  find-Occurs xs pattern offset {first} {last} b h =
      let start = min offset (length xs) in
      let s : Search = record { first = start; last = start; matched = 0 } in
      let r = find_loop eq pattern (drop start xs) s in
      let (f, l, full) = found xs pattern r h in
      rw (← f, ← l)
        (
          find_loop-Occurs xs pattern (take start xs) (drop start xs) s (omega arith) (omega arith)
              (omega (arith, length-take start xs)) (sym (take-append-drop start xs)) full,
          find_loop-from pattern (drop start xs) s (omega arith),
        )

  -- With such an equality test, and an a that it holds of and that differs from b, the pattern a b
  -- stands in the array a a b at index 1, and find gives null: it does not go back into a match
  -- that failed.
  pub find_missed :
      (a b : A)
      → eq a a ≡ true
      → eq a b ≡ false
      → Occurs (a ∷ a ∷ b ∷ []) (a ∷ b ∷ []) 1 3 × (find eq (a ∷ a ∷ b ∷ []) (a ∷ b ∷ []) 0 ≡ none)
  unfolding find find_loop
  find_missed a b h p = (
    record { before = a ∷ []; behind = []; splits = refl; starts = refl; stops = refl },
    elim (Bool-cases (eq b a)) [ inl e ↦ rw (h, p, e) | inr e ↦ rw (h, p, e) ],
  )

-- `find` of one element gives the place that `index_of` gives.
module _ {A : Type 0} (eq : A → A → Bool) (c : A) where
  abbrev fresh : ℕ → Search
  fresh k = record { first = k; last = k; matched = 0 }

  abbrev Single : Search → ℤ → Type 0
  Single r (pos i) = (r.first ≡ i) × (r.last ≡ i + 1)
  Single r (negsuc _) = r.last ≡ r.first

  stopped :
      (k : ℕ) (xs : List A) → find_loop eq (c ∷ []) xs (matching (fresh k)) ≡ matching (fresh k)
  unfolding find_loop
  stopped k [] = refl
  stopped k (x ∷ xs) = refl

  find_loop-Single :
      (k : ℕ) (xs : List A)
      → Single (find_loop eq (c ∷ []) xs (fresh k)) (index_of_loop (λ x. eq x c) k xs)
  unfolding find_loop index_of_loop
  find_loop-Single k [] = refl
  find_loop-Single k (x ∷ xs) = elim (Bool-cases (eq x c)) [
    | inl hit ↦ rw hit (rw (stopped k xs) (refl, refl))
    | inr miss ↦ rw miss (find_loop-Single (k + 1) xs)
  ]

  pub as_range : ℤ → Option (ℕ × ℕ)
  as_range (pos i) = some (i, i + 1)
  as_range (negsuc _) = none

  Single-range :
      (r : Search) (z : ℤ)
      → Single r z
      → (if r.last - r.first == 1 then some (r.first, r.last) else none) ≡ as_range z
  unfolding as_range
  Single-range r (pos i) h = ground arith
  Single-range r (negsuc i) h = ground arith

  -- The search for a pattern of one element from the start of an array gives the range of the
  -- index that index_of gives, and null where index_of gives -1.
  pub find-index_of : (xs : List A) → find eq xs (c ∷ []) 0 ≡ as_range (index_of (λ x. eq x c) xs)
  unfolding find index_of as_range
  find-index_of [] = refl
  find-index_of (x ∷ xs) =
      rw (zero-min (suc (length xs)), find)
        (Single-range (find_loop eq (c ∷ []) (x ∷ xs) (fresh 0)) _ (find_loop-Single 0 (x ∷ xs)))

-- `none` is the negation of `some`, and `every` is `none` of the negated test.
pub some_of-none_of {ℓ} :
    {A : Type ℓ} (f : A → Bool) (xs : List A)
    → (none_of f xs ≡ not (some_of f xs)) × (every f xs ≡ none_of (λ x. not (f x)) xs)
unfolding some_of none_of every
some_of-none_of f [] = (refl, refl)
some_of-none_of f (x ∷ xs) = ground (arith, some_of-none_of f xs)
