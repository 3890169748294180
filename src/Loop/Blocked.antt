-- ===== src/Loop/Blocked.antt =====
-- The queue of the tasks that wait: the order of their times, and the tasks `blocked_queue_next` moves.
use mathlib.Core.List.{reverse_aux-eq}
use nodepp.Prelude.{
  ℕ, suc, ◌+◌, ◌-◌, ◌%◌, ◌^◌, ◌≤◌, ◌<◌, min, ◌≡◌, refl, ap, sym, ◌∙◌, subst, inl, inr, Bool, true,
  false, All, List, [], ◌∷◌, ◌++◌, map, reverse, append_assoc, Option, none, some, take, drop, ltb,
  leb, if◌then◌else◌, Bool-cases, Option-cases, arith,
}
use nodepp.Loop.{Timed, Loop, last_until, get_nearest_timeout, block, blocked_queue_next}

-- Each entry is to wake no later than those behind it.
abbrev pub Rising : List Timed → Type 0
Rising [] = Unit
Rising (x ∷ xs) = All (λ y. x.0 ≤ y.0) xs × Rising xs

-- An entry put behind the last one that is not after it.
placed : ℕ → ℕ → List Timed → List Timed
placed time task xs = let i = get_nearest_timeout time xs in take i xs ++ (time, task) ∷ drop i xs

-- `placed`, by what was found.
abbrev put : Option ℕ → Timed → List Timed → List Timed
put o entry xs = let i : ℕ = elim o [ none ↦ 0 | some k ↦ suc k ] in take i xs ++ entry ∷ drop i xs

abbrev found_in : Option ℕ → ℕ → Timed → Option ℕ
found_in o time x = elim o [ some i ↦ some (suc i) | none ↦ if leb x.0 time then some 0 else none ]

last_here :
    (time : ℕ) (x : Timed) (xs : List Timed) (b : Bool)
    → last_until time xs ≡ none
    → leb x.0 time ≡ b
    → last_until time (x ∷ xs) ≡ (if b then some 0 else none)
last_here time x xs b e h =
    ap (λ o. found_in o time x) e ∙ ap (λ (t : Bool). if t then some 0 else none) h

placed_later :
    (time task : ℕ) (x : Timed) (xs : List Timed) (i : ℕ)
    → last_until time xs ≡ some i
    → placed time task (x ∷ xs) ≡ x ∷ placed time task xs
unfolding placed
placed_later time task x xs i e =
    ap (λ o. put (found_in o time x) (time, task) (x ∷ xs)) e
    ∙ ap (λ o. x ∷ put o (time, task) xs) (sym e)

placed_here :
    (time task : ℕ) (x : Timed) (xs : List Timed) (b : Bool)
    → last_until time xs ≡ none
    → leb x.0 time ≡ b
    → placed time task (x ∷ xs) ≡ put (if b then some 0 else none) (time, task) (x ∷ xs)
unfolding placed
placed_here time task x xs b e h = ap (λ o. put o (time, task) (x ∷ xs)) (last_here time x xs b e h)

-- Where an entry that is not after `time` is found, the entries in front of it are not after it.
found-le :
    (time t : ℕ) (xs : List Timed) (i : ℕ)
    → last_until time xs ≡ some i
    → All (λ y. t ≤ y.0) xs
    → t ≤ time
found-le time t [] i e h = absurd (cc)
found-le time t (x ∷ xs) i e (p, h) = elim (Option-cases (last_until time xs)) [
  | inr (j, f) ↦ found-le time t xs j f h
  | inl f ↦ elim (Bool-cases (leb x.0 time)) [
    | inl b ↦ ground arith
    | inr b ↦
        let no : ◌≡◌ {A = Option ℕ} none (some i) = sym (last_here time x xs false f b) ∙ e in
        absurd (cc)
  ]
]

-- Where none is found, all entries are after it.
none-le : (time : ℕ) (xs : List Timed) → last_until time xs ≡ none → All (λ y. time ≤ y.0) xs
none-le time [] e = tt
none-le time (x ∷ xs) e = elim (Option-cases (last_until time xs)) [
  | inr (j, f) ↦
      let no : ◌≡◌ {A = Option ℕ} none (some (suc j)) = sym e ∙ ap (λ o. found_in o time x) f in
      absurd (cc)
  | inl f ↦ elim (Bool-cases (leb x.0 time)) [
    | inl b ↦
        let no : ◌≡◌ {A = Option ℕ} none (some 0) = sym e ∙ last_here time x xs true f b in
        absurd (cc)
    | inr b ↦ (ground arith, none-le time xs f)
  ]
]

All-placed :
    (P : Timed → Type 0) (time task : ℕ) (xs : List Timed)
    → P (time, task)
    → All P xs
    → All P (placed time task xs)
unfolding placed
All-placed P time task [] p h = (p, tt)
All-placed P time task (x ∷ xs) p (q, h) = elim (Option-cases (last_until time xs)) [
  | inr (j, f) ↦
      subst (All P) (sym (placed_later time task x xs j f)) (q, All-placed P time task xs p h)
  | inl f ↦ elim (Bool-cases (leb x.0 time)) [
    | inl b ↦ subst (All P) (sym (placed_here time task x xs true f b)) (q, (p, h))
    | inr b ↦ subst (All P) (sym (placed_here time task x xs false f b)) (p, (q, h))
  ]
]

placed-Rising : (time task : ℕ) (xs : List Timed) → Rising xs → Rising (placed time task xs)
unfolding placed
placed-Rising time task [] r = (tt, tt)
placed-Rising time task (x ∷ xs) (h, r) = elim (Option-cases (last_until time xs)) [
  | inr (j, f) ↦ subst Rising (sym (placed_later time task x xs j f)) (
    All-placed (λ y. x.0 ≤ y.0) time task xs (found-le time x.0 xs j f h) h,
    placed-Rising time task xs r,
  )
  | inl f ↦ elim (Bool-cases (leb x.0 time)) [
    | inl b ↦
        subst Rising (sym (placed_here time task x xs true f b))
          ((ground arith, h), (none-le time xs f, r))
    | inr b ↦
        subst Rising (sym (placed_here time task x xs false f b))
          ((ground arith, none-le time xs f), (h, r))
  ]
]

-- A task that asks for a delay is put into the queue of the waiting tasks so that the queue stays
-- in the order of the times.
pub block-Rising :
    (d stamp task : ℕ) (blocked : List Timed) → Rising blocked → Rising (block d stamp task blocked)
unfolding block placed
block-Rising d stamp task blocked r =
    placed-Rising (min ((d + stamp) % 2 ^ 64) (2 ^ 32 - 1)) task blocked r

-- What is moved, and what is left.
pub record Moved (stamp : ℕ) (blocked : List Timed) (normal : List ℕ) (after : Loop) : Type 0 where
  pub due : List Timed
  pub splits : blocked ≡ due ++ after.blocked
  pub past : All (λ y. y.0 < stamp) due
  pub left : All (λ y. stamp ≤ y.0) after.blocked
  pub woken : after.normal ≡ reverse (map (λ y. y.1) due) ++ normal

-- Of a queue of waiting tasks in the order of their times, blocked_queue_next moves those whose
-- time is before the stamp, and no others, to the front of the running tasks, the latest first,
-- and leaves those at the stamp or after it.
pub blocked_queue_next-Moved :
    (stamp : ℕ) (blocked : List Timed) (normal : List ℕ)
    → Rising blocked
    → Moved stamp blocked normal (blocked_queue_next stamp blocked normal)
unfolding blocked_queue_next
blocked_queue_next-Moved stamp [] normal r = record {
  due = [];
  splits = refl;
  past = tt;
  left = tt;
  woken = refl;
}
blocked_queue_next-Moved stamp (x ∷ xs) normal (h, r) = elim (Bool-cases (ltb stamp x.0)) [
  | inl e ↦ rw e (stays (ground arith))
  | inr e ↦ elim (Bool-cases (ltb x.0 stamp)) [
    | inl f ↦
        let m = blocked_queue_next-Moved stamp xs (x.1 ∷ normal) r in
        let front = map (λ (y : Timed). y.1) m.due in
        rw (e, f)
          (record {
            due = x ∷ m.due;
            splits = ap (◌∷◌ x) m.splits;
            past = (ground arith, m.past);
            left = m.left;
            woken =
                m.woken
                ∙ sym (
                    ap (λ t. t ++ normal) (reverse_aux-eq front (x.1 ∷ []))
                    ∙ append_assoc (reverse front) (x.1 ∷ []) normal);
          })
    | inr f ↦ rw (e, f) (stays (ground arith))
  ]
]
  where
    later : (ys : List Timed) → stamp ≤ x.0 → All (λ y. x.0 ≤ y.0) ys → All (λ y. stamp ≤ y.0) ys
    later [] p h = tt
    later (y ∷ ys) p (q, h) = (omega (arith, p, q), later ys p h)

    stays : stamp ≤ x.0 → Moved stamp (x ∷ xs) normal (record { normal = normal; blocked = x ∷ xs })
    stays p = record { due = []; splits = refl; past = tt; left = (p, later xs p h); woken = refl }
