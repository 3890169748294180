-- ===== src/Regex/Ops/Replace.antt =====
-- include/nodepp/regex.h: `replace_all`, which works from the last match to the first.
use mathlib.Core.List.{reverse-cons}
use nodepp.Prelude.{
  ℕ, zero, suc, ◌+◌, ◌-◌, ◌^◌, ◌≤◌, ◌<◌, ◌≡◌, refl, ap, ap₂, ◌∙◌, sym, Option, none, some, List, [],
  ◌∷◌, ◌++◌, reverse, length, take, drop, append_assoc, take-append-drop, take_past, length-take,
  length-append, drop_prefix, arith, min,
}
use nodepp.Prelude.Int.{pos}
use nodepp.Array.Edit.{splice_with_lem}
use nodepp.Array.Slice.{slice_lem}
use nodepp.Text.{Text, slice, splice_with}
use nodepp.Text.Join.{join}
use nodepp.Regex.View.{whole}
use nodepp.Regex.Match.{Memory}
use nodepp.Regex.Compile.{Pattern}
use nodepp.Regex.Search.{Span, search_all}
use nodepp.Regex.Search.Found.{Ascend, FindsAll, search_all-FindsAll}
use nodepp.Regex.Ops.{pieces, split_pieces, split, replace_spans, replace_all}
use nodepp.Regex.Ops.Split.{slice_from_lem, split_pieces-eq}

replace_spans-append :
    (rep xs : Text) (ss ts : List Span)
    → replace_spans rep xs (ss ++ ts) ≡ replace_spans rep (replace_spans rep xs ss) ts
unfolding replace_spans
replace_spans-append rep xs [] ts = refl
replace_spans-append rep xs ((x, y) ∷ ss) ts =
    replace_spans-append rep (splice_with xs (pos x) (y - x) rep).1 ss ts

-- `pieces` has a first piece.
join-pieces :
    (rep xs : Text) (n : ℕ) (p : Text) (spans : List Span)
    → join rep (p ∷ pieces xs n spans) ≡ p ++ (rep ++ join rep (pieces xs n spans))
unfolding pieces
join-pieces rep xs n p [] = refl
join-pieces rep xs n p ((x, y) ∷ spans) = refl

take-append_le : (n : ℕ) (xs ys : Text) → n ≤ length xs → take n (xs ++ ys) ≡ take n xs
take-append_le zero xs ys h = refl
take-append_le (suc n) [] ys h = absurd (omega arith)
take-append_le (suc n) (x ∷ xs) ys h = ap (λ t. x ∷ t) (take-append_le n xs ys (omega arith))

take-add : (m n : ℕ) (xs : Text) → take m xs ++ take n (drop m xs) ≡ take (m + n) xs
take-add zero n xs = ap (λ k. take k xs) (zero_left n)
  where
    zero_left : (n : ℕ) → n ≡ 0 + n
    zero_left n = omega arith
take-add (suc m) n [] = take_past n [] (omega arith) ∙ sym (take_past (suc m + n) [] (omega arith))
take-add (suc m) n (x ∷ xs) =
    ap (λ t. x ∷ t) (take-add m n xs) ∙ ap (λ k. take k (x ∷ xs)) (suc_left m n)
  where
    suc_left : (m n : ℕ) → suc (m + n) ≡ suc m + n
    suc_left m n = omega arith

add_back : (n x : ℕ) → n ≤ x → n + (x - n) ≡ x
add_back n x h = omega arith

take_between :
    (off x : ℕ) (xs : Text) → off ≤ x → take off xs ++ take (x - off) (drop off xs) ≡ take x xs
take_between off x xs h = take-add off (x - off) xs ∙ ap (λ k. take k xs) (add_back off x h)

-- What stands behind the first `y` bytes, also where a match ends behind the end of the value.
drop_rest :
    (rep xs : Text) (y : ℕ) (spans : List Span)
    → Ascend (length xs) y spans
    → drop y (take y xs ++ join rep (pieces xs y spans)) ≡ join rep (pieces xs y spans)
unfolding pieces
drop_rest rep xs y [] h =
    ap (λ t. drop y (take y xs ++ t)) (slice_from_lem xs y)
    ∙ ap (drop y) (take-append-drop y xs)
    ∙ sym (slice_from_lem xs y)
drop_rest rep xs y ((x', y') ∷ spans) h =
    drop_prefix (take y xs) (join rep (pieces xs y ((x', y') ∷ spans)))
      (omega (arith, length-take y xs))

splice_step :
    (rep xs : Text) (x y : ℕ) (spans : List Span)
    → x < y
    → x < length xs
    → y ≤ length xs + 1
    → length xs + 1 ≤ 2 ^ 64
    → Ascend (length xs) y spans
    → (splice_with (take y xs ++ join rep (pieces xs y spans)) (pos x) (y - x) rep).1
      ≡ take x xs ++ (rep ++ join rep (pieces xs y spans))
splice_step rep xs x y spans h k l b s =
    let zs : Text = take y xs ++ join rep (pieces xs y spans) in
    let front : length (take y xs) ≡ min y (length xs) = length-take y xs in
    let inside : x < length zs =
      omega (arith, length-append (take y xs) (join rep (pieces xs y spans))) in
    ap (λ (t : Text × Text). t.1)
      (splice_with_lem zs x (y - x) rep (omega arith) inside (omega arith))
    ∙ ap₂ (λ a c. a ++ (rep ++ c))
        (take-append_le x (take y xs) _ (omega arith)
          ∙ sym (take-append_le x (take y xs) (drop y xs) (omega arith))
          ∙ ap (take x) (take-append-drop y xs))
        (ap (λ j. drop j zs) (add_back x y (omega arith)) ∙ drop_rest rep xs y spans s)

replace_spans-reverse :
    (rep xs : Text) (off : ℕ) (spans : List Span)
    → length xs + 1 ≤ 2 ^ 64
    → Ascend (length xs) off spans
    → replace_spans rep xs (reverse spans) ≡ take off xs ++ join rep (pieces xs off spans)
unfolding replace_spans pieces
replace_spans-reverse rep xs off [] b h =
    sym (take-append-drop off xs) ∙ ap (λ t. take off xs ++ t) (sym (slice_from_lem xs off))
replace_spans-reverse rep xs off ((x, y) ∷ spans) b h =
    ap (replace_spans rep xs) (reverse-cons (x, y) spans)
    ∙ replace_spans-append rep xs (reverse spans) ((x, y) ∷ [])
    ∙ ap (λ t. (splice_with t (pos x) (y - x) rep).1) (replace_spans-reverse rep xs y spans b h.1)
    ∙ splice_step rep xs x y spans (omega arith) (omega arith) (omega arith) b h.1
    ∙ ap (λ t. t ++ (rep ++ join rep (pieces xs y spans)))
        (sym (take_between off x xs (omega arith)))
    ∙ append_assoc (take off xs) (take (x - off) (drop off xs)) _
    ∙ ap (λ t. take off xs ++ (t ++ (rep ++ join rep (pieces xs y spans))))
        (sym (slice_lem xs off x))
    ∙ ap (λ t. take off xs ++ t) (sym (join-pieces rep xs y (slice xs (pos off) (pos x)) spans))

-- Both runs have ended, and the text is the pieces with `rep` between them.
abbrev pub Joins : Text → Option (Text × Memory) → Option (List Text × Memory) → Type 0
Joins rep none ps = ⊥
Joins rep (some (t, m)) none = ⊥
Joins rep (some (t, m)) (some (ps, n)) = t ≡ join rep ps

-- With any expression and a text of fewer than 2 ^ 31 - 1 bytes, replace_all and split end, and
-- the text of replace_all, which splices from the last match to the first, is the pieces of split
-- joined by the replacement.
pub replace_all-join-split :
    (p : Pattern) (xs rep : Text) (memory : Memory)
    → length xs + 1 < 2 ^ 31
    → Joins rep (replace_all p xs rep memory) (split p xs memory)
unfolding split replace_all
replace_all-join-split p xs rep memory b =
    joined (search_all p (whole xs) memory) (search_all-FindsAll p (whole xs) memory b)
  where
    joined :
        (r : Option (List Span × Memory))
        → FindsAll (length xs) r
        → Joins rep
            (elim r [
              | none ↦ none
              | some (spans, m) ↦ some (replace_spans rep xs (reverse spans), m)
            ])
            (elim r [ none ↦ none | some (spans, m) ↦ some (split_pieces xs spans, m) ])
    joined none h = h
    joined (some (spans, m)) h =
        replace_spans-reverse rep xs 0 spans (omega arith) h
        ∙ ap (join rep) (sym (split_pieces-eq xs spans))
