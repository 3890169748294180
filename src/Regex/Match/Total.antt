-- ===== src/Regex/Match/Total.antt =====
-- include/nodepp/regex.h: `_search` ends, and how far it reaches.
use nodepp.Prelude.{
  ℕ, zero, suc, ◌+◌, ◌-◌, ◌^◌, ◌≤◌, ◌<◌, ◌≡◌, refl, Bool, true, false, ◌&&◌, Option, none, some,
  ltb, ◌==◌, if◌then◌else◌, arith,
}
use nodepp.Prelude.Int.{ℤ, pos, negsuc, pos_part}
use nodepp.Regex.{Regex, node, Items, nil, cons}
use nodepp.Regex.View.{View, size}
use nodepp.Regex.Weight.{weight, weight_items}
use nodepp.Regex.Match.{
  Memory, Run, continue_with, hit, leaf, Next, return_with, again, onward, decide, past_end,
  leaf_or, sequence_next, match_item, match_group, match_sequence, group_next,
}

-- The run has ended, and what it has matched from `offset` on reaches at most one byte too far.
abbrev pub Ends : View → ℕ → Run → Type 0
Ends v offset none = ⊥
Ends v offset (some (z, memory)) = offset + pos_part z ≤ size v + 1

decide-again : (x : Regex) (z : ℤ) (rep out : ℕ) → decide x z rep out ≡ again → 1 ≤ pos_part z
unfolding decide
decide-again (node flag byte next none) (pos zero) rep out h = cc
decide-again (node flag byte next none) (pos (suc z)) rep out h = omega arith
decide-again (node flag byte next none) (negsuc z) rep out h = cc
decide-again (node flag byte next (some r)) (pos zero) rep out h = cc
decide-again (node flag byte next (some r)) (pos (suc z)) rep out h = omega arith
decide-again (node flag byte next (some r)) (negsuc z) rep out h = ground arith

decide-return :
    (x : Regex) (z : ℤ) (rep out : ℕ) (r : ℤ)
    → decide x z rep out ≡ return_with r
    → pos_part r ≤ out
unfolding decide
decide-return (node flag byte next none) (pos zero) rep out r h = cc
decide-return (node flag byte next none) (pos (suc z)) rep out r h = ground arith
decide-return (node flag byte next none) (negsuc z) rep out r h = ground arith
decide-return (node flag byte next (some p)) (pos zero) rep out r h = cc
decide-return (node flag byte next (some p)) (pos (suc z)) rep out r h = ground arith
decide-return (node flag byte next (some p)) (negsuc z) rep out r h = ground arith

-- A result of at most one byte, if there is one.
data Small : Option ℤ → Type 0 where
  nothing : Small none
  one : (z : ℤ) → pos_part z ≤ 1 → Small (some z)

hit-Small : (b : Bool) → Small (hit b)
hit-Small true = one (pos 1) (omega arith)
hit-Small false = one (negsuc 0) (omega arith)

choose-Small : (b : Bool) (x y : Option ℤ) → Small x → Small y → Small (if b then x else y)
choose-Small true x y p q = p
choose-Small false x y p q = q

anchor-Small : (b : Bool) → Small (if b then some (pos 0) else some (negsuc 0))
anchor-Small true = one (pos 0) (omega arith)
anchor-Small false = one (negsuc 0) (omega arith)

Small-le : {o : Option ℤ} {z : ℤ} → Small o → o ≡ some z → pos_part z ≤ 1
Small-le nothing e = cc
Small-le (one z h) e = ground arith

leaf-Small :
    (icase : Bool) (v : View) (offset flag byte : ℕ) (next : Items)
    → Small (leaf icase v offset flag byte next)
unfolding leaf
leaf-Small icase v offset flag byte next =
    search (anchor-Small, hit-Small, nothing, one (pos 1) (omega arith), choose-Small) depth 40

continue-Ends :
    (v : View) (a b : ℕ) (r : Run) (next : ℤ → Memory → Run)
    → Ends v a r
    → ((z : ℤ) (memory : Memory) → a + pos_part z ≤ size v + 1 → Ends v b (next z memory))
    → Ends v b (continue_with r next)
continue-Ends v a b none next h k = absurd h
continue-Ends v a b (some (z, memory)) next h k = k z memory h

group_next-Ends :
    (v : View) (offset : ℕ) (next : Memory → Run) (z : ℤ) (memory : Memory)
    → offset + pos_part z ≤ size v + 1
    → ((m : Memory) → Ends v offset (next m))
    → Ends v offset (group_next next v offset z memory)
unfolding group_next
group_next-Ends v offset next (pos zero) memory h k = k memory
group_next-Ends v offset next (pos (suc z)) memory h k = h
group_next-Ends v offset next (negsuc z) memory h k = k memory

choose-Ends :
    (v : View) (a : ℕ) (b : Bool) (x y : Run)
    → (b ≡ true → Ends v a x)
    → (b ≡ false → Ends v a y)
    → Ends v a (if b then x else y)
choose-Ends v a true x y p q = p refl
choose-Ends v a false x y p q = q refl

leaf_or-Ends :
    (v : View) (offset : ℕ) (o : Option ℤ) (next : Memory → Run) (memory : Memory)
    → offset ≤ size v
    → Small o
    → ((m : Memory) → Ends v offset (next m))
    → Ends v offset (leaf_or o next memory)
unfolding leaf_or
leaf_or-Ends v offset none next memory h s k = k memory
leaf_or-Ends v offset (some z) next memory h s k = omega (arith, Small-le s refl)

sequence_next-Ends :
    (v : View) (start : ℕ) (d : Next) (same next : Memory → Run) (memory : Memory)
    → ((r : ℤ) → d ≡ return_with r → start + pos_part r ≤ size v + 1)
    → (d ≡ again → (m : Memory) → Ends v start (same m))
    → ((m : Memory) → Ends v start (next m))
    → Ends v start (sequence_next d same next memory)
unfolding sequence_next
sequence_next-Ends v start (return_with r) same next memory p q k = p r refl
sequence_next-Ends v start again same next memory p q k = q refl memory
sequence_next-Ends v start onward same next memory p q k = k memory

past_end-small : (xs : Items) (out : ℤ) → pos_part (past_end xs out) ≤ pos_part out
past_end-small nil out = omega arith
past_end-small (cons x xs) out = omega arith

-- With enough fuel every match ends, at most one byte behind the end of the value.
mutual
  unfolding match_item weight

  item-Ends :
      (f : ℕ) (icase : Bool) (v : View) (offset : ℕ) (x : Regex) (memory : Memory)
      → offset ≤ size v
      → weight (size v + 2) x ≤ f
      → Ends v offset (match_item f icase v offset x memory)
  item-Ends zero icase v offset (node flag byte next rep) memory h w = absurd (omega arith)
  item-Ends (suc f) icase v offset (node flag byte next rep) memory h w =
      leaf_or-Ends v offset (leaf icase v offset flag byte next) _ memory h
        (leaf-Small icase v offset flag byte next)
        (λ m.
          choose-Ends v offset (flag == 0x09 && byte == 0xff) _ _
            (λ _. group-Ends f icase v offset next m h (omega arith))
            (λ _.
              sequence-Ends f icase v offset next offset 0 (pos 0) m (omega arith) (omega arith)
                (omega arith) (omega arith)))

  group-Ends :
      (f : ℕ) (icase : Bool) (v : View) (offset : ℕ) (xs : Items) (memory : Memory)
      → offset ≤ size v
      → weight_items (size v + 2) xs ≤ f
      → Ends v offset (match_group f icase v offset xs memory)
  group-Ends zero icase v offset nil memory h w = absurd (omega arith)
  group-Ends zero icase v offset (cons x xs) memory h w = absurd (omega arith)
  group-Ends (suc f) icase v offset nil memory h w = omega arith
  group-Ends (suc f) icase v offset (cons x xs) memory h w =
      continue-Ends v offset offset (match_item f icase v offset x memory) _
        (item-Ends f icase v offset x memory h (omega arith))
        (λ z memory' k.
          group_next-Ends v offset (λ m. match_group f icase v offset xs m) z memory' k
            (λ m. group-Ends f icase v offset xs m h (omega arith)))

  sequence-Ends :
      (f : ℕ) (icase : Bool) (v : View) (start : ℕ) (xs : Items) (offset rep : ℕ) (out : ℤ)
      (memory : Memory)
      → start ≤ offset
      → offset ≤ size v + 1
      → start + pos_part out ≤ size v + 1
      → weight_items (size v + 2) xs + (size v + 2 - offset) ≤ f
      → Ends v start (match_sequence f icase v start xs offset rep out memory)
  sequence-Ends zero icase v start nil offset rep out memory h k o w = absurd (omega arith)
  sequence-Ends zero icase v start (cons x xs) offset rep out memory h k o w = absurd (omega arith)
  sequence-Ends (suc f) icase v start nil offset rep out memory h k o w = o
  sequence-Ends (suc f) icase v start (cons x xs) offset rep out memory h k o w =
      choose-Ends v start (ltb (size v) offset) _ _ (λ _. omega (arith, past_end-small xs out))
        (λ within.
          let inside : offset ≤ size v = ground arith in
          continue-Ends v offset start (match_item f icase v offset x memory) _
            (item-Ends f icase v offset x memory inside (omega arith))
            (λ z memory' reach.
              sequence_next-Ends v start (decide x z (rep + 1) (offset + pos_part z - start)) _ _
                memory'
                (λ r e.
                  omega (arith, decide-return x z (rep + 1) (offset + pos_part z - start) r e))
                (λ e m.
                  let grows = decide-again x z (rep + 1) (offset + pos_part z - start) e in
                  sequence-Ends f icase v start (cons x xs) (offset + pos_part z) (rep + 1)
                    (pos (offset + pos_part z - start)) m (omega arith) reach (omega arith)
                    (omega arith))
                (λ m.
                  sequence-Ends f icase v start xs (offset + pos_part z) 0
                    (pos (offset + pos_part z - start)) m (omega arith) reach (omega arith)
                    (omega arith))))

-- In a value of fewer than 2 ^ 31 - 1 bytes, at an offset up to its size, and with fuel of at
-- least the weight of the item, the match of any item, compiled or not, ends, and what it matches
-- ends at most one byte behind the end of the value.
pub match_item-Ends :
    (f : ℕ) (icase : Bool) (v : View) (offset : ℕ) (x : Regex) (memory : Memory)
    → size v + 1 < 2 ^ 31
    → offset ≤ size v
    → weight (size v + 2) x ≤ f
    → Ends v offset (match_item f icase v offset x memory)
match_item-Ends f icase v offset x memory b = item-Ends f icase v offset x memory
