-- ===== src/Regex/Match/Plain.antt =====
-- include/nodepp/regex.h: an expression without special bytes, against a text.

use nodepp.Prelude.{
  ℕ, zero, suc, ◌+◌, ◌-◌, ◌≤◌, ◌<◌, ◌≡◌, ◌≢◌, refl, ap, ap₂, ◌∙◌, sym, Bool, true, false, ◌&&◌,
  none, some, All, [], ◌∷◌, length, drop, drop-drop, ltb, ◌==◌, if◌then◌else◌, if-eq, Bool-cases,
  inl, inr, arith,
}
use nodepp.Prelude.Int.{ℤ, pos, negsuc}
use nodepp.Text.{Text}
use nodepp.Regex.{Regex, node, Items, nil, cons, push_item}
use nodepp.Regex.View.{View, whole, at}
use nodepp.Regex.Compile.{literal}
use nodepp.Regex.Compile.Plain.{head_or, at-whole, push_all, plain_regex}
use nodepp.Regex.Match.{
  Memory, leaf, comparator, leaf_or, decide, sequence_next, match_item, match_sequence,
}

-- `ps` stands at the front.
abbrev pub is_prefix : Text → Text → Bool
is_prefix [] xs = true
is_prefix (p ∷ ps) [] = false
is_prefix (p ∷ ps) (x ∷ xs) = p == x && is_prefix ps xs

abbrev pub literals : Text → Items
literals [] = nil
literals (p ∷ ps) = cons (literal p) (literals ps)

append_items : Items → Items → Items
append_items nil ys = ys
append_items (cons x xs) ys = cons x (append_items xs ys)

append_items-push :
    (xs : Items) (x : Regex) (ys : Items)
    → append_items (push_item xs x) ys ≡ append_items xs (cons x ys)
unfolding append_items push_item
append_items-push nil x ys = refl
append_items-push (cons z xs) x ys = ap (cons z) (append_items-push xs x ys)

append_items-nil : (xs : Items) → append_items xs nil ≡ xs
unfolding append_items
append_items-nil nil = refl
append_items-nil (cons z xs) = ap (cons z) (append_items-nil xs)

push_all-append : (out : Items) (ps : Text) → push_all out ps ≡ append_items out (literals ps)
push_all-append out [] = sym (append_items-nil out)
push_all-append out (p ∷ ps) =
    push_all-append (push_item out (literal p)) ps ∙ append_items-push out (literal p) (literals ps)

pub push_all-literals : (ps : Text) → push_all nil ps ≡ literals ps
unfolding append_items
push_all-literals ps = push_all-append nil ps

-- One byte against one byte.
literal_match :
    (f : ℕ) (v : View) (off p : ℕ) (memory : Memory)
    → match_item (suc f) false v off (literal p) memory
      ≡ some (if p == at v off then pos 1 else negsuc 0, memory)
unfolding match_item leaf leaf_or comparator
literal_match f v off p memory = elim (Bool-cases (p == at v off)) [ inl e ↦ rw e | inr e ↦ rw e ]

-- The result of a sequence of literals that begins at `start` and has come to `off`.
abbrev run_of : ℕ → ℕ → Text → Text → ℤ
run_of start off ps rest = if is_prefix ps rest then pos (off + length ps - start) else pos 0

sequence_step :
    (f : ℕ) (xs : Text) (start : ℕ) (p : ℕ) (items : Items) (off rep : ℕ) (out : ℤ)
    (memory : Memory)
    → off ≤ length xs
    → match_sequence
        (suc (suc f))
        false
        (whole xs)
        start
        (cons (literal p) items)
        off
        rep
        out
        memory
      ≡ (if p == at (whole xs) off
          then match_sequence
              (suc f)
              false
              (whole xs)
              start
              items
              (off + 1)
              0
              (pos (off + 1 - start))
              memory
          else some (pos 0, memory))
unfolding match_sequence decide sequence_next
sequence_step f xs start p items off rep out memory h =
    let within : ltb (length xs) off ≡ false = ground arith in
    elim (Bool-cases (p == at (whole xs) off)) [
      | inl e ↦ rw (within, literal_match f (whole xs) off p memory, e)
      | inr e ↦ rw (within, literal_match f (whole xs) off p memory, e)
    ]

-- A byte that is not NUL stands before the end.
at_before :
    (xs : Text) (off p : ℕ)
    → p ≢ 0
    → off ≤ length xs
    → (p == head_or (drop off xs) 0) ≡ true
    → off < length xs
at_before [] zero p h k e = ground arith
at_before [] (suc off) p h k e = absurd (omega arith)
at_before (x ∷ xs) zero p h k e = omega arith
at_before (x ∷ xs) (suc off) p h k e = omega (arith, at_before xs off p h (omega arith) e)

run_hit :
    (start off p : ℕ) (ps rest : Text)
    → p ≢ 0
    → (p == head_or rest 0) ≡ true
    → run_of start (off + 1) ps (drop 1 rest) ≡ run_of start off (p ∷ ps) rest
run_hit start off p ps [] h e = ground arith
run_hit start off p ps (x ∷ rest) h e =
    let further : off + 1 + length ps ≡ off + suc (length ps) = omega arith in rw (e, further)

run_miss :
    (start off p : ℕ) (ps rest : Text)
    → (p == head_or rest 0) ≡ false
    → pos 0 ≡ run_of start off (p ∷ ps) rest
run_miss start off p ps [] e = refl
run_miss start off p ps (x ∷ rest) e = rw e

sequence_end :
    (f : ℕ) (v : View) (start off rep : ℕ) (out : ℤ) (memory : Memory)
    → match_sequence (suc f) false v start nil off rep out memory ≡ some (out, memory)
unfolding match_sequence
sequence_end f v start off rep out memory = refl

literals_run :
    (f : ℕ) (ps xs : Text) (start off rep : ℕ) (memory : Memory)
    → All (λ c. c ≢ 0) ps
    → off ≤ length xs
    → length ps + 2 ≤ f
    → match_sequence f false (whole xs) start (literals ps) off rep (pos (off - start)) memory
      ≡ some (run_of start off ps (drop off xs), memory)
literals_run zero ps xs start off rep memory h k l = absurd (omega arith)
literals_run (suc zero) ps xs start off rep memory h k l = absurd (omega arith)
literals_run (suc (suc f)) [] xs start off rep memory h k l =
    sequence_end (suc f) (whole xs) start off rep (pos (off - start)) memory
    ∙ ap (λ n. some (pos (n - start), memory)) (add_none off)
  where
    add_none : (n : ℕ) → n ≡ n + 0
    add_none n = omega arith
literals_run (suc (suc f)) (p ∷ ps) xs start off rep memory h k l =
    sequence_step f xs start p (literals ps) off rep (pos (off - start)) memory k
    ∙ if-eq (p == at (whole xs) off)
        (λ e.
          let head : (p == head_or (drop off xs) 0) ≡ true =
            ap (λ c. p == c) (sym (at-whole xs off k)) ∙ e in
          literals_run (suc f) ps xs start (off + 1) 0 memory h.1
            (inside off (at_before xs off p h.0 k head)) (omega arith)
          ∙ ap (λ r. some (run_of start (off + 1) ps r, memory)) (sym (drop-drop 1 off xs))
          ∙ ap (λ z. some (z, memory)) (run_hit start off p ps (drop off xs) h.0 head))
        (λ e.
          ap (λ z. some (z, memory))
            (run_miss start off p ps (drop off xs)
              (ap (λ c. p == c) (sym (at-whole xs off k)) ∙ e)))
  where
    inside : (off : ℕ) → off < length xs → off + 1 ≤ length xs
    inside off h = omega arith

-- The node of an alternative or of the whole expression runs the sequence of its items.
node_step :
    (f : ℕ) (v : View) (off : ℕ) (items : Items) (memory : Memory)
    → match_item (suc f) false v off (node 0x09 0x00 items none) memory
      ≡ match_sequence f false v off items off 0 (pos 0) memory
unfolding match_item leaf leaf_or
node_step f v off items memory = refl

-- The sequence of the whole expression, with its one alternative.
only_step :
    (f : ℕ) (xs : Text) (off : ℕ) (items : Items) (n : ℕ) (memory : Memory)
    → off ≤ length xs
    → match_item (suc f) false (whole xs) off (node 0x09 0x00 items none) memory
      ≡ some (pos n, memory)
    → match_sequence
        (suc (suc f))
        false
        (whole xs)
        off
        (cons (node 0x09 0x00 items none) nil)
        off
        0
        (pos 0)
        memory
      ≡ some (pos n, memory)
unfolding match_sequence decide sequence_next
only_step f xs off items zero memory h e =
    let within : ltb (length xs) off ≡ false = ground arith in
    let none_yet : off + 0 - off ≡ 0 = omega arith in rw (within, e, none_yet)
only_step f xs off items (suc n) memory h e =
    let within : ltb (length xs) off ≡ false = ground arith in
    let found : off + suc n - off ≡ suc n = omega arith in rw (within, e, found)

run_of_same :
    (off : ℕ) (ps rest : Text)
    → run_of off off ps rest ≡ pos (if is_prefix ps rest then length ps else 0)
run_of_same off ps rest = elim (Bool-cases (is_prefix ps rest)) [
  | inl e ↦
      let whole_length : off + length ps - off ≡ length ps = omega arith in rw (e, whole_length)
  | inr e ↦ rw e
]

-- At an offset, the expression of a plain text matches that text and nothing else.
pub plain_match :
    (f : ℕ) (ps xs : Text) (off : ℕ) (memory : Memory)
    → All (λ c. c ≢ 0) ps
    → off ≤ length xs
    → length ps + 6 ≤ f
    → match_item f false (whole xs) off (plain_regex ps) memory
      ≡ some (pos (if is_prefix ps (drop off xs) then length ps else 0), memory)
plain_match zero ps xs off memory h k l = absurd (omega arith)
plain_match (suc zero) ps xs off memory h k l = absurd (omega arith)
plain_match (suc (suc zero)) ps xs off memory h k l = absurd (omega arith)
plain_match (suc (suc (suc f))) ps xs off memory h k l =
    node_step (suc (suc f)) (whole xs) off (cons (node 0x09 0x00 (push_all nil ps) none) nil) memory
    ∙ only_step f xs off (push_all nil ps) (if is_prefix ps (drop off xs) then length ps else 0)
        memory k
        (node_step f (whole xs) off (push_all nil ps) memory
          ∙ ap₂ (λ items out. match_sequence f false (whole xs) off items off 0 (pos out) memory)
              (push_all-literals ps) (nothing off)
          ∙ literals_run f ps xs off off 0 memory h k (omega arith)
          ∙ ap (λ z. some (z, memory)) (run_of_same off ps (drop off xs)))
  where
    nothing : (n : ℕ) → 0 ≡ n - n
    nothing n = omega arith

-- With fuel of 3 or more, a sequence that has come to the end of the value at a `.` followed by
-- one last item matches the byte behind the end, whatever the last item is.
pub match_sequence-any_past_end :
    (f : ℕ) (icase : Bool) (xs : Text) (start : ℕ) (x : Regex) (rep : ℕ) (out : ℤ) (memory : Memory)
    → 3 ≤ f
    → match_sequence f icase
        (whole xs)
        start
        (cons (node 0x0c 0x00 nil none) (cons x nil))
        (length xs)
        rep
        out
        memory
      ≡ some (pos (length xs + 1 - start), memory)
unfolding match_sequence match_item leaf leaf_or decide sequence_next
match_sequence-any_past_end zero icase xs start x rep out memory h = absurd (omega arith)
match_sequence-any_past_end (suc zero) icase xs start x rep out memory h = absurd (omega arith)
match_sequence-any_past_end (suc (suc zero)) icase xs start x rep out memory h =
    absurd (omega arith)
match_sequence-any_past_end (suc (suc (suc f))) icase xs start x rep out memory h =
    let within : ltb (length xs) (length xs) ≡ false = ground arith in
    let behind : ltb (length xs) (length xs + 1) ≡ true = ground arith in rw (within, behind)
