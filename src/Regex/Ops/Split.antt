-- ===== src/Regex/Ops/Split.antt =====
-- include/nodepp/regex.h: the pieces of `split` and the matches of `match_all`.
use nodepp.Prelude.{
  ℕ, ◌+◌, ◌-◌, ◌^◌, ◌≤◌, ◌<◌, ◌≡◌, refl, ap, ap₂, ◌∙◌, sym, Option, none, some, List, [], ◌∷◌, ◌++◌,
  map, length, take, drop, take-append-drop, drop-drop, take_past, length-drop, arith,
}
use nodepp.Prelude.Int.{pos}
use nodepp.Array.{slice_from}
use nodepp.Array.Slice.{slice_lem}
use nodepp.Text.{Text}
use nodepp.Regex.View.{whole}
use nodepp.Regex.Match.{Memory}
use nodepp.Regex.Compile.{Pattern}
use nodepp.Regex.Search.{Span, search_all}
use nodepp.Regex.Search.Found.{Ascend, FindsAll, search_all-FindsAll}
use nodepp.Regex.Ops.{pieces, split_pieces, split, piece, match_all}

-- The pieces with the matches between them.
abbrev pub weave : List Text → List Text → Text
weave [] ms = []
weave (p ∷ ps) [] = p
weave (p ∷ ps) (m ∷ ms) = p ++ (m ++ weave ps ms)

pub slice_from_lem : (xs : Text) (n : ℕ) → slice_from xs (pos n) ≡ drop n xs
unfolding slice_from
slice_from_lem xs n =
    slice_lem xs n (length xs) ∙ take_past _ (drop n xs) (omega (arith, length-drop n xs))

add_back : (n x : ℕ) → n ≤ x → n + (x - n) ≡ x
add_back n x h = omega arith

pub cut_at : (xs : Text) (n x : ℕ) → n ≤ x → take (x - n) (drop n xs) ++ drop x xs ≡ drop n xs
cut_at xs n x h =
    let e : drop (x - n) (drop n xs) ≡ drop x xs =
      drop-drop (x - n) n xs ∙ ap (λ k. drop k xs) (add_back n x h) in
    ap (λ b. take (x - n) (drop n xs) ++ b) (sym e) ∙ take-append-drop (x - n) (drop n xs)

pieces-weave :
    (xs : Text) (off : ℕ) (spans : List Span)
    → Ascend (length xs) off spans
    → weave (pieces xs off spans) (map (piece xs) spans) ≡ drop off xs
unfolding pieces
pieces-weave xs off [] h = slice_from_lem xs off
pieces-weave xs off ((x, y) ∷ spans) h =
    ap₂ (λ a b. a ++ (b ++ weave (pieces xs y spans) (map (piece xs) spans))) (slice_lem xs off x)
      (slice_lem xs x y)
    ∙ ap (λ b. take (x - off) (drop off xs) ++ (take (y - x) (drop x xs) ++ b))
        (pieces-weave xs y spans h.1)
    ∙ ap (λ b. take (x - off) (drop off xs) ++ b) (cut_at xs x y (omega arith))
    ∙ cut_at xs off x (omega arith)

-- Without a match the source gives the value itself.
pub split_pieces-eq : (xs : Text) (spans : List Span) → split_pieces xs spans ≡ pieces xs 0 spans
unfolding split_pieces pieces
split_pieces-eq xs [] = ap (λ t. t ∷ []) (sym (slice_from_lem xs 0))
split_pieces-eq xs (span ∷ spans) = refl

-- Both runs have ended, and the pieces with the matches between them are `xs`.
abbrev pub Rebuilds : Text → Option (List Text × Memory) → Option (List Text × Memory) → Type 0
Rebuilds xs none ms = ⊥
Rebuilds xs (some (ps, m)) none = ⊥
Rebuilds xs (some (ps, m)) (some (ms, n)) = weave ps ms ≡ xs

-- With any expression and a text of fewer than 2 ^ 31 - 1 bytes, split and match_all end, and the
-- pieces of split with the matches of match_all between them, in turn, are the text.
pub split-weave-match_all :
    (p : Pattern) (xs : Text) (memory : Memory)
    → length xs + 1 < 2 ^ 31
    → Rebuilds xs (split p xs memory) (match_all p xs memory)
unfolding split match_all
split-weave-match_all p xs memory b =
    rebuilt (search_all p (whole xs) memory) (search_all-FindsAll p (whole xs) memory b)
  where
    rebuilt :
        (r : Option (List Span × Memory))
        → FindsAll (length xs) r
        → Rebuilds xs
            (elim r [ none ↦ none | some (spans, m) ↦ some (split_pieces xs spans, m) ])
            (elim r [ none ↦ none | some (spans, m) ↦ some (map (piece xs) spans, m) ])
    rebuilt none h = h
    rebuilt (some (spans, m)) h =
        ap (λ ps. weave ps (map (piece xs) spans)) (split_pieces-eq xs spans)
        ∙ pieces-weave xs 0 spans h
