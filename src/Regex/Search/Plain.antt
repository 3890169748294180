-- ===== src/Regex/Search/Plain.antt =====
-- include/nodepp/regex.h: `search` for a text without special bytes.
use nodepp.Prelude.{
  ℕ, zero, suc, ◌+◌, ◌-◌, ◌*◌, ◌≤◌, ◌<◌, ◌≡◌, ◌≢◌, refl, ap, ◌∙◌, sym, subst, false, Option, none,
  some, All, [], ◌∷◌, length, drop, drop_past, if◌then◌else◌, Bool-cases, inl, inr, arith,
}
use nodepp.Prelude.Int.{pos}
use nodepp.Text.{Text}
use nodepp.Regex.{Regex}
use nodepp.Regex.View.{whole}
use nodepp.Regex.Weight.{weight, weight_items}
use nodepp.Regex.Compile.{Pattern, Outcome, done, refused, fault, stuck, compile}
use nodepp.Regex.Compile.Plain.{Plain, plain_regex, compile-Plain}
use nodepp.Regex.Match.{Memory}
use nodepp.Regex.Match.Plain.{is_prefix, literals, push_all-literals, plain_match}
use nodepp.Regex.Search.{Search, Span, search_next, try_at, search_loop, search}

-- The first place at which `ps` stands in a text.
abbrev pub occurs : Text → Text → Option ℕ
occurs ps [] = none
occurs ps (x ∷ xs) =
    if is_prefix ps (x ∷ xs)
    then some 0
    else elim (occurs ps xs) [ none ↦ none | some i ↦ some (suc i) ]

-- The range of that place, counted from `off` on.
abbrev pub span_of : Text → ℕ → Option ℕ → Option Span
span_of ps off none = none
span_of ps off (some i) = some (off + i, off + i + length ps)

abbrev pub plain_pattern : Text → Pattern
plain_pattern ps = record { queue = plain_regex ps; icase = false }

literals-weight : (n : ℕ) (ps : Text) → length ps + 1 ≤ weight_items n (literals ps)
unfolding weight_items
literals-weight n [] = omega arith
literals-weight n (p ∷ ps) = omega (arith, literals-weight n ps)

plain-weight : (n : ℕ) (ps : Text) → length ps + 6 ≤ weight (n + 2) (plain_regex ps)
unfolding weight_items
plain-weight n ps = rw (push_all-literals ps) (omega (arith, literals-weight (n + 2) ps))

try_at-plain :
    (ps xs : Text) (off : ℕ) (memory : Memory)
    → All (λ c. c ≢ 0) ps
    → off ≤ length xs
    → try_at (plain_pattern ps) (whole xs) off memory
      ≡ some (pos (if is_prefix ps (drop off xs) then length ps else 0), memory)
unfolding try_at
try_at-plain ps xs off memory h k = plain_match _ ps xs off memory h k (plain-weight (length xs) ps)

drop_cons :
    (xs : Text) (off n : ℕ)
    → suc n ≡ length xs - off
    → (x : ℕ) × (drop off xs ≡ x ∷ drop (off + 1) xs)
drop_cons [] off n h = absurd (omega arith)
drop_cons (x ∷ xs) zero n h = (x, refl)
drop_cons (x ∷ xs) (suc off) n h =
    let (y, e) = drop_cons xs off n (omega arith) in
    (y, e ∙ ap (λ k. y ∷ drop k (x ∷ xs)) (bump off))
  where
    bump : (n : ℕ) → suc (n + 1) ≡ suc n + 1
    bump n = omega arith

next_found :
    (n off : ℕ) (later : Search (Option Span)) (memory : Memory)
    → 0 < n
    → search_next (some (pos n, memory)) off later ≡ some (some (off + 0, off + 0 + n), memory)
unfolding search_next
next_found zero off later memory h = absurd (omega arith)
next_found (suc n) off later memory h =
    let same : off ≡ off + 0 = omega arith in ap (λ k. some (some (k, k + suc n), memory)) same

span_of-suc :
    (ps : Text) (off : ℕ) (o : Option ℕ)
    → span_of ps (off + 1) o ≡ span_of ps off (elim o [ none ↦ none | some i ↦ some (suc i) ])
span_of-suc ps off none = refl
span_of-suc ps off (some i) = let further : off + 1 + i ≡ off + suc i = omega arith in rw further

-- One round of the loop, on what is left from `off` on.
next_plain :
    (ps rest : Text) (x : ℕ) (tail : Text) (off : ℕ) (later : Search (Option Span))
    (memory : Memory)
    → 0 < length ps
    → rest ≡ x ∷ tail
    → later memory ≡ some (span_of ps (off + 1) (occurs ps tail), memory)
    → search_next (some (pos (if is_prefix ps rest then length ps else 0), memory)) off later
      ≡ some (span_of ps off (occurs ps rest), memory)
unfolding search_next
next_plain ps rest x tail off later memory l e ih =
    rw e (elim (Bool-cases (is_prefix ps (x ∷ tail))) [
      | inl found ↦ rw found (next_found (length ps) off later memory l)
      | inr missed ↦
          rw missed (ih ∙ ap (λ o. some (o, memory)) (span_of-suc ps off (occurs ps tail)))
    ])

search_loop-plain :
    (rounds : ℕ) (ps xs : Text) (off : ℕ) (memory : Memory)
    → All (λ c. c ≢ 0) ps
    → 0 < length ps
    → rounds ≡ length xs - off
    → search_loop rounds (plain_pattern ps) (whole xs) off memory
      ≡ some (span_of ps off (occurs ps (drop off xs)), memory)
unfolding search_loop
search_loop-plain zero ps xs off memory h l e =
    ap (λ t. some (span_of ps off (occurs ps t), memory)) (sym (drop_past off xs (omega arith)))
search_loop-plain (suc n) ps xs off memory h l e =
    let (x, cons_form) = drop_cons xs off n e in
    ap (λ r. search_next r off (λ m. search_loop n (plain_pattern ps) (whole xs) (off + 1) m))
      (try_at-plain ps xs off memory h (omega arith))
    ∙ next_plain ps (drop off xs) x (drop (off + 1) xs) off _ memory l cons_form
        (search_loop-plain n ps xs (off + 1) memory h l (omega arith))

-- search
pub search-plain :
    (ps xs : Text) (off : ℕ) (memory : Memory)
    → All (λ c. c ≢ 0) ps
    → 0 < length ps
    → search (plain_pattern ps) (whole xs) off memory
      ≡ some (span_of ps off (occurs ps (drop off xs)), memory)
unfolding search
search-plain ps xs off memory h l = search_loop-plain (length xs - off) ps xs off memory h l refl

-- The compilation has ended, and a search from `off` on gives the first place of `ps`.
abbrev pub FindsText : Text → Text → ℕ → Memory → Outcome Regex → Type 0
FindsText ps xs off memory (done r) =
    search (record { queue = r; icase = false }) (whole xs) off memory
    ≡ some (span_of ps off (occurs ps (drop off xs)), memory)
FindsText ps xs off memory refused = ⊥
FindsText ps xs off memory fault = ⊥
FindsText ps xs off memory stuck = ⊥

-- With fuel for two calls for each byte and three more, a pattern that is not empty and has no NUL
-- and no byte that is special in an expression compiles, and search with it from an offset on
-- gives the range of the first place at or after the offset at which the pattern stands in the
-- text, and none if there is none.
pub compile-FindsText :
    (f : ℕ) (c : ℕ) (cs xs : Text) (off : ℕ) (memory : Memory)
    → All Plain (c ∷ cs)
    → All (λ b. b ≢ 0) (c ∷ cs)
    → 2 * length (c ∷ cs) + 3 ≤ f
    → FindsText (c ∷ cs) xs off memory (compile f (whole (c ∷ cs)))
compile-FindsText f c cs xs off memory h n k =
    subst (FindsText (c ∷ cs) xs off memory) (sym (compile-Plain f c cs h k))
      (search-plain (c ∷ cs) xs off memory n (omega arith))
