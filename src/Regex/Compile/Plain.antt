-- ===== src/Regex/Compile/Plain.antt =====
-- include/nodepp/regex.h: `compile` of a text without special bytes.
use nodepp.Prelude.{
  ℕ, zero, suc, ◌+◌, ◌-◌, ◌*◌, ◌≤◌, ◌<◌, ◌≡◌, ◌≢◌, refl, ap, ◌∙◌, sym, subst, true, false, none,
  All, List, [], ◌∷◌, ◌++◌, length, drop, min, get_or, take_past, ltb, leb, ◌==◌, if◌then◌else◌,
  Bool-cases, if-eq, drop_past, inl, inr, arith,
}
use nodepp.Prelude.Int.{pos}
use nodepp.Range.Bounds.{slice_range-some}
use nodepp.Text.{Text}
use nodepp.Regex.{Regex, node, Items, nil, cons, push_item}
use nodepp.Regex.View.{View, whole, at, slice_view}
use nodepp.Regex.Compile.{
  Outcome, done, refused, fault, stuck, literal, is_repeat, compile_item, add_repeat,
  get_next_regex, next_regex_loop, compile_pattern, continue_pattern, compile_loop, compile,
}

-- A byte that stands for itself.
abbrev pub Plain : ℕ → Type 0
Plain c =
    (c ≢ b'[')
    × (c ≢ b']')
    × (c ≢ b'(')
    × (c ≢ b')')
    × (c ≢ b'{')
    × (c ≢ b'}')
    × (c ≢ b'+')
    × (c ≢ b'?')
    × (c ≢ b'*')
    × (c ≢ b'|')
    × (c ≢ b'$')
    × (c ≢ b'^')
    × (c ≢ b'.')
    × (c ≢ b'\\')

abbrev pub head_or : Text → ℕ → ℕ
head_or [] d = d
head_or (x ∷ xs) d = x

get_or-drop :
    (xs : Text) (i : ℕ) → i ≤ length xs → get_or (xs ++ 0 ∷ []) i 0 ≡ head_or (drop i xs) 0
get_or-drop [] zero h = refl
get_or-drop [] (suc i) h = absurd (omega arith)
get_or-drop (x ∷ xs) zero h = refl
get_or-drop (x ∷ xs) (suc i) h = get_or-drop xs i (omega arith)

-- A string with a buffer of its own ends in NUL.
pub at-whole : (xs : Text) (i : ℕ) → i ≤ length xs → at (whole xs) i ≡ head_or (drop i xs) 0
unfolding at
at-whole xs i h = let e : leb i (length xs) ≡ true = ground arith in rw e (get_or-drop xs i h)

module _ (P : ℕ → Type 0) (null : P 0) where
  head-All : (ps : Text) (i : ℕ) → All P ps → P (head_or (drop i ps) 0)
  head-All [] zero h = null
  head-All [] (suc i) h = null
  head-All (p ∷ ps) zero h = h.0
  head-All (p ∷ ps) (suc i) h = head-All ps i h.1

  -- What holds of every byte of a string and of NUL holds of each byte that is read.
  at-All : (ps : Text) (i : ℕ) → All P ps → i ≤ length ps → P (at (whole ps) i)
  at-All ps i h k = subst P (sym (at-whole ps i k)) (head-All ps i h)

at-Plain : (ps : Text) (i : ℕ) → All Plain ps → i ≤ length ps → Plain (at (whole ps) i)
at-Plain = at-All Plain (ground arith)

-- A byte at which `get_next_regex` does nothing but go on.
abbrev pub Quiet : ℕ → Type 0
Quiet c = (c ≢ b'[') × (c ≢ b'(') × (c ≢ b'{') × (c ≢ b'|') × (c ≢ b'\\')

Plain-Quiet : (ps : Text) → All Plain ps → All Quiet ps
Plain-Quiet [] h = tt
Plain-Quiet (p ∷ ps) h = let q : Quiet p = ground arith in (q, Plain-Quiet ps h.1)

next_regex_loop-Quiet :
    (rounds : ℕ) (ps : Text) (off : ℕ) (out : List ℕ)
    → All Quiet ps
    → off ≤ length ps
    → length ps - off < rounds
    → next_regex_loop rounds (whole ps) off out ≡ out ++ length ps ∷ []
unfolding next_regex_loop
next_regex_loop-Quiet zero ps off out h k r = absurd (omega arith)
next_regex_loop-Quiet (suc rounds) ps off out h k r = elim (Bool-cases (ltb off (length ps))) [
  | inl more ↦
      let quiet = at-All Quiet (ground arith) ps off h k in
      let ih = next_regex_loop-Quiet rounds ps (off + 1) out h (ground arith) (ground arith) in
      ground (arith, ih)
  | inr end ↦ rw end
]

item-Plain :
    (ps : Text) (off : ℕ)
    → All Plain ps
    → off ≤ length ps
    → compile_item (whole ps) off ≡ done (literal (at (whole ps) off), off)
unfolding compile_item
item-Plain ps off h k = let plain = at-Plain ps off h k in ground arith

repeat-Plain :
    (ps : Text) (off : ℕ) (item : Regex)
    → All Plain ps
    → off + 1 ≤ length ps
    → add_repeat (whole ps) (item, off) ≡ (item, off)
unfolding add_repeat is_repeat
repeat-Plain ps off item h k = let plain = at-Plain ps (off + 1) h k in ground arith

not_group :
    (ps : Text) (off : ℕ) → All Plain ps → off ≤ length ps → (at (whole ps) off == b'(') ≡ false
not_group ps off h k = let plain = at-Plain ps off h k in ground arith

-- The items of a text, behind those of `out`.
abbrev pub push_all : Items → Text → Items
push_all out [] = out
push_all out (c ∷ cs) = push_all (push_item out (literal c)) cs

drop_step :
    (ps : Text) (off : ℕ)
    → off < length ps
    → drop off ps ≡ head_or (drop off ps) 0 ∷ drop (off + 1) ps
drop_step [] off h = elim h [ ]
drop_step (p ∷ ps) zero h = refl
drop_step (p ∷ ps) (suc off) h =
    drop_step ps off (omega arith) ∙ ap (λ k. head_or (drop off ps) 0 ∷ drop k (p ∷ ps)) (bump off)
  where
    bump : (n : ℕ) → suc (n + 1) ≡ suc n + 1
    bump n = omega arith

pattern_step :
    (f : ℕ) (c : ℕ) (cs : Text) (off : ℕ) (out : Items)
    → All Plain (c ∷ cs)
    → off < length (c ∷ cs)
    → compile_pattern (suc f) (whole (c ∷ cs)) off out
      ≡ continue_pattern f (whole (c ∷ cs)) (literal (at (whole (c ∷ cs)) off), off) out
unfolding compile_pattern
pattern_step f c cs off out h k = rw (
  not_group (c ∷ cs) off h (omega arith),
  item-Plain (c ∷ cs) off h (omega arith),
  repeat-Plain (c ∷ cs) off (literal (at (whole (c ∷ cs)) off)) h (omega arith),
)

continue_step :
    (f : ℕ) (c : ℕ) (cs : Text) (off : ℕ) (out : Items)
    → continue_pattern (suc f) (whole (c ∷ cs)) (literal (at (whole (c ∷ cs)) off), off) out ≡ (
        if ltb (off + 1) (length (c ∷ cs))
        then compile_pattern f
            (whole (c ∷ cs))
            (off + 1)
            (push_item out (literal (at (whole (c ∷ cs)) off)))
        else done (node 0x09 0x00 (push_item out (literal (at (whole (c ∷ cs)) off))) none))
unfolding continue_pattern
continue_step f c cs off out = refl

compile_pattern-Plain :
    (f : ℕ) (c : ℕ) (cs : Text) (off : ℕ) (out : Items)
    → All Plain (c ∷ cs)
    → off < length (c ∷ cs)
    → 2 * (length (c ∷ cs) - off) ≤ f
    → compile_pattern f (whole (c ∷ cs)) off out
      ≡ done (node 0x09 0x00 (push_all out (drop off (c ∷ cs))) none)
compile_pattern-Plain zero c cs off out h k l = absurd (omega arith)
compile_pattern-Plain (suc zero) c cs off out h k l = absurd (omega arith)
compile_pattern-Plain (suc (suc f)) c cs off out h k l =
    pattern_step (suc f) c cs off out h k
    ∙ continue_step f c cs off out
    ∙ if-eq (ltb (off + 1) (length (c ∷ cs)))
        (λ more.
          compile_pattern-Plain f c cs (off + 1) (push_item out item) h (ground arith)
            (ground arith)
          ∙ ap (λ t. done (node 0x09 0x00 t none)) (sym pushed))
        (λ end.
          ap (λ t. done (node 0x09 0x00 t none))
            (sym (
              pushed
              ∙ ap (push_all (push_item out item)) (drop_past (off + 1) (c ∷ cs) (ground arith)))))
  where
    item : Regex
    item = literal (at (whole (c ∷ cs)) off)

    pushed :
        push_all out (drop off (c ∷ cs)) ≡ push_all (push_item out item) (drop (off + 1) (c ∷ cs))
    pushed =
        ap (push_all out) (drop_step (c ∷ cs) off k)
        ∙ ap (λ b. push_all (push_item out (literal b)) (drop (off + 1) (c ∷ cs)))
            (sym (at-whole (c ∷ cs) off (omega arith)))

-- The expression of a plain text: one alternative, of its bytes.
abbrev pub plain_regex : Text → Regex
plain_regex ps = node 0x09 0x00 (cons (node 0x09 0x00 (push_all nil ps) none) nil) none

pub view_all :
    (c : ℕ) (cs : Text)
    → slice_view (whole (c ∷ cs)) (pos 0) (pos (length (c ∷ cs))) ≡ whole (c ∷ cs)
unfolding slice_view
view_all c cs =
    let e : min (length (c ∷ cs)) (length (c ∷ cs)) - 0 ≡ length (c ∷ cs) = omega arith in
    rw (slice_range-some (length (c ∷ cs)) 0 (length (c ∷ cs)) (omega arith), slice_view)
      (rw e (pair (take_past (length (c ∷ cs)) (c ∷ cs) (omega arith)) (at_end (c ∷ cs))))
  where
    pair :
        {xs ys : Text} {a b : ℕ}
        → xs ≡ ys
        → a ≡ b
        → record { bytes = xs; after = a } ≡ (let v : View = record { bytes = ys; after = b } in v)
    pair p q = cc

    at_end : (xs : Text) → at (whole xs) (0 + length xs) ≡ 0
    at_end xs =
        at-whole xs (0 + length xs) (omega arith)
        ∙ ap (λ t. head_or t 0) (drop_past (0 + length xs) xs (omega arith))

pub ends-Quiet : (ps : Text) → All Quiet ps → get_next_regex (whole ps) 0 ≡ length ps ∷ []
unfolding get_next_regex
ends-Quiet ps h = next_regex_loop-Quiet (suc (2 * length ps)) ps 0 [] h (omega arith) (omega arith)

pub compile_step :
    (f : ℕ) (c : ℕ) (cs : Text)
    → compile (suc f) (whole (c ∷ cs))
      ≡ compile_loop f (whole (c ∷ cs)) 0 (get_next_regex (whole (c ∷ cs)) 0) nil
unfolding compile
compile_step f c cs = refl

loop_one :
    (f : ℕ) (p : View) (y : ℕ) {r : Regex}
    → compile_pattern (suc f) (slice_view p (pos 0) (pos y)) 0 nil ≡ done r
    → compile_loop (suc (suc f)) p 0 (y ∷ []) nil ≡ done (node 0x09 0x00 (cons r nil) none)
unfolding compile_loop push_item
loop_one f p y e =
    ap
      (λ (o : Outcome Regex). elim o [
        | done tmp ↦ compile_loop (suc f) p (y + 1) [] (push_item nil tmp)
        | refused ↦ compile_loop (suc f) p 0 (y ∷ []) nil
        | fault ↦ fault
        | stuck ↦ stuck
      ])
      e

-- compile
pub compile-Plain :
    (f : ℕ) (c : ℕ) (cs : Text)
    → All Plain (c ∷ cs)
    → 2 * length (c ∷ cs) + 3 ≤ f
    → compile f (whole (c ∷ cs)) ≡ done (plain_regex (c ∷ cs))
compile-Plain zero c cs h k = absurd (omega arith)
compile-Plain (suc zero) c cs h k = absurd (omega arith)
compile-Plain (suc (suc zero)) c cs h k = absurd (omega arith)
compile-Plain (suc (suc (suc f))) c cs h k =
    compile_step (suc (suc f)) c cs
    ∙ ap (λ ends. compile_loop (suc (suc f)) (whole (c ∷ cs)) 0 ends nil)
        (ends-Quiet (c ∷ cs) (Plain-Quiet (c ∷ cs) h))
    ∙ loop_one f (whole (c ∷ cs)) (length (c ∷ cs)) (
        ap (λ v. compile_pattern (suc f) v 0 nil) (view_all c cs)
        ∙ compile_pattern-Plain (suc f) c cs 0 nil h (omega arith) (omega arith))
