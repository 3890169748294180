-- ===== src/Regex/Match.antt =====
-- include/nodepp/regex.h: `_search`, the match of an item at one offset.
pub mod Total
pub mod Plain
use nodepp.Prelude.{
  ℕ, zero, suc, ◌+◌, ◌-◌, ◌≤◌, Bool, true, false, not, ◌&&◌, ◌||◌, Option, none, some, List, [],
  ◌∷◌, ◌++◌, ltb, leb, ◌==◌, if◌then◌else◌,
}
use nodepp.Prelude.Int.{ℤ, pos, negsuc, pos_part}
use nodepp.Text.{Text, slice}
use nodepp.Text.Char.{is_alnum, is_digit, is_space, is_print, to_lower}
use nodepp.Regex.{
  Rep, Regex, node, Items, nil, cons, flag_of, byte_of, rep_of, some_item, none_item,
}
use nodepp.Regex.View.{View, size, last, at}

-- `obj->memory`: what the groups have matched, the oldest first.
abbrev pub Memory : Type 0
Memory = List Text

-- A run that keeps the memory; `none` where the fuel is out.
abbrev pub Run : Type 0
Run = Option (ℤ × Memory)

-- `continue_with r next` is `next` at what `r` returns.
abbrev pub continue_with : Run → (ℤ → Memory → Run) → Run
continue_with none next = none
continue_with (some (z, memory)) next = next z memory

pub comparator : Bool → ℕ → ℕ → Bool
unfolding to_lower
comparator icase a b = if icase then to_lower a == to_lower b else a == b

-- `if( … ){ return 1; }`, and -1 at the end.
abbrev pub hit : Bool → Option ℤ
hit true = some (pos 1)
hit false = some (negsuc 0)

-- The branches that look at one byte or at none; `none` for a group and for a sequence.
pub leaf : Bool → View → ℕ → ℕ → ℕ → Items → Option ℤ
unfolding comparator is_alnum is_digit is_space is_print some_item none_item at
leaf icase value offset flag byte next =
    let c = at value offset in
    let edge = offset == 0 || leb (last value) offset in
    let listed : Regex → Bool = λ x. comparator icase (byte_of x) c in
    if flag == 0x02 && byte == 0x00
    then (if offset == 0 then some (pos 0) else some (negsuc 0))
    else if flag == 0x01 && byte == 0x00
    then (if leb (last value) offset then some (pos 0) else some (negsuc 0))
    else if flag == 0x0c && byte == 0x00
    then some (pos 1)
    else if flag == 0x03 && byte == 0x00
    then hit (not edge)
    else if flag == 0x03 && byte == 0xff
    then hit edge
    else if flag == 0x04 && byte == 0x00
    then hit (not (is_alnum c))
    else if flag == 0x04 && byte == 0xff
    then hit (is_alnum c)
    else if flag == 0x05 && byte == 0x00
    then hit (not (is_digit c))
    else if flag == 0x05 && byte == 0xff
    then hit (is_digit c)
    else if flag == 0x06 && byte == 0x00
    then hit (not (is_space c))
    else if flag == 0x06 && byte == 0xff
    then hit (is_space c)
    else if flag == 0x07 && byte == 0x00
    then hit (not (is_print c))
    else if flag == 0x07 && byte == 0xff
    then hit (is_print c)
    else if flag == 0x08 && byte == 0xff
    then hit (none_item listed next)
    else if flag == 0x08 && byte == 0x00
    then hit (some_item listed next)
    else if flag == 0x00
    then hit (comparator icase byte c)
    else none

-- What the loop over a sequence does after an item.
pub data Next : Type 0 where
  return_with : ℤ → Next
  again onward : Next

-- `z` is the result of the item, `rep` the number of its rounds with this one, and `out` what the
-- sequence has matched with it.
pub decide : Regex → ℤ → ℕ → ℕ → Next
decide (node flag byte next none) (pos zero) rep out = onward
decide (node flag byte next none) (pos (suc z)) rep out =
    if flag == 0x09 && byte == 0x00 then return_with (pos out) else onward
decide (node flag byte next none) (negsuc z) rep out = return_with (pos 0)
decide (node flag byte next (some r)) (pos zero) rep out = onward
decide (node flag byte next (some r)) (pos (suc z)) rep out =
    if flag == 0x09 && byte == 0x00
    then return_with (pos out)
    else elim (r.most) [ none ↦ again | some most ↦ if leb most rep then onward else again ]
decide (node flag byte next (some r)) (negsuc z) rep out = elim (r.most) [
  | none ↦ if ltb r.least rep then onward else return_with (pos 0)
  | some most ↦ if ltb r.least rep && leb rep most then onward else return_with (pos 0)
]

-- The branch at an offset past the end: only the last item of the sequence is passed over.
abbrev pub past_end : Items → ℤ → ℤ
past_end nil out = out
past_end (cons x xs) out = negsuc 0

-- After an alternative: the next one, or the match, which is remembered.
pub group_next : (Memory → Run) → View → ℕ → ℤ → Memory → Run
group_next next value offset (pos zero) memory = next memory
group_next next value offset (pos (suc z)) memory =
    some (pos (suc z), memory ++ slice value.bytes (pos offset) (pos (offset + suc z)) ∷ [])
group_next next value offset (negsuc z) memory = next memory

-- The result of a branch that looks at one byte, or else what a group or a sequence returns.
pub leaf_or : Option ℤ → (Memory → Run) → Memory → Run
leaf_or none next memory = next memory
leaf_or (some z) next memory = some (z, memory)

-- After an item of a sequence: the end of the loop, the same item once more, or the next item.
pub sequence_next : Next → (Memory → Run) → (Memory → Run) → Memory → Run
sequence_next (return_with r) same next memory = some (r, memory)
sequence_next again same next memory = same memory
sequence_next onward same next memory = next memory

-- `_search`, the loop over the alternatives of a group, and the loop over a sequence. The source keeps
-- lengths and rounds in an `int`: this is for values of fewer than 2 ^ 31 - 1 bytes, where none wraps. `start` is
-- `tmp`, the offset at which the sequence began, and `out` its result so far.
unfoldable mutual
  unfolding leaf decide group_next leaf_or sequence_next

  pub match_item : ℕ → Bool → View → ℕ → Regex → Memory → Run
  match_item zero icase value offset x = λ memory. none
  match_item (suc f) icase value offset (node flag byte next rep) =
      leaf_or (leaf icase value offset flag byte next) λ memory.
        let group = match_group f icase value offset next memory in
        let sequence = match_sequence f icase value offset next offset 0 (pos 0) memory in
        if flag == 0x09 && byte == 0xff then group else sequence

  pub match_group : ℕ → Bool → View → ℕ → Items → Memory → Run
  match_group zero icase value offset xs = λ memory. none
  match_group (suc f) icase value offset nil = λ memory. some (negsuc 0, memory)
  match_group (suc f) icase value offset (cons x xs) = λ memory.
      continue_with (match_item f icase value offset x memory)
        λ z. group_next (λ m. match_group f icase value offset xs m) value offset z

  pub match_sequence : ℕ → Bool → View → ℕ → Items → ℕ → ℕ → ℤ → Memory → Run
  match_sequence zero icase value start xs offset rep out = λ memory. none
  match_sequence (suc f) icase value start nil offset rep out = λ memory. some (out, memory)
  match_sequence (suc f) icase value start (cons x xs) offset rep out = λ memory.
      let item = continue_with (match_item f icase value offset x memory) λ z.
        let offset' = offset + pos_part z in
        let out' = pos (offset' - start) in
        sequence_next (decide x z (rep + 1) (offset' - start))
          (λ m. match_sequence f icase value start (cons x xs) offset' (rep + 1) out' m)
          (λ m. match_sequence f icase value start xs offset' 0 out' m) in
      if ltb (size value) offset then some (past_end xs out, memory) else item
