-- ===== src/Queue/Seg.antt =====
-- What it means for a part of the memory to be a chain of nodes, and what a store leaves of it.
use nodepp.Prelude.{
  ℕ, ◌≡◌, ◌≢◌, refl, ap, sym, ◌∙◌, subst, ◌⊎◌, inl, inr, true, List, [], ◌∷◌, ◌++◌, ◌==◌, ==_iff,
  Bool-cases,
}
use nodepp.Queue.{Node, write}

-- A node's address and the value in it.
abbrev pub Cell : Type 0 → Type 0
Cell A = ℕ × A

module _ {A : Type 0} where
  -- The first address of a chain, and the last one.
  abbrev pub head_or : ℕ → List (Cell A) → ℕ
  head_or d [] = d
  head_or d ((a, _) ∷ cs) = a

  abbrev pub last_or : ℕ → List (Cell A) → ℕ
  last_or d [] = d
  last_or d ((a, _) ∷ cs) = last_or a cs

  abbrev pub Among : ℕ → List (Cell A) → Type 0
  Among a [] = ⊥
  Among a ((b, _) ∷ cs) = (a ≡ b) ⊎ Among a cs

  -- All addresses of a chain differ from each other.
  abbrev pub Distinct : List (Cell A) → Type 0
  Distinct [] = Unit
  Distinct ((a, _) ∷ cs) = ¬ Among a cs × Distinct cs

  -- The cells are nodes of the queue, each linked to the one before it, `p` for the first of them,
  -- and to the one behind it, `t` for the last of them.
  abbrev pub Seg : (ℕ → Node A) → ℕ → List (Cell A) → ℕ → Type 0
  Seg nodes p [] t = Unit
  Seg nodes p ((a, v) ∷ cs) t =
      (nodes a ≡ record { sign = true; next = head_or t cs; prev = p; value = v })
      × Seg nodes a cs t

  pub Seg-append :
      (nodes : ℕ → Node A) (p : ℕ) (xs ys : List (Cell A)) (t : ℕ)
      → Seg nodes p xs (head_or t ys)
      → Seg nodes (last_or p xs) ys t
      → Seg nodes p (xs ++ ys) t
  Seg-append nodes p [] ys t front back = back
  Seg-append nodes p ((a, v) ∷ []) ys t (e, front) back = (e, back)
  Seg-append nodes p ((a, v) ∷ c ∷ xs) ys t (e, front) back =
      (e, Seg-append nodes a (c ∷ xs) ys t front back)

  pub Seg-split :
      (nodes : ℕ → Node A) (p : ℕ) (xs ys : List (Cell A)) (t : ℕ)
      → Seg nodes p (xs ++ ys) t
      → Seg nodes p xs (head_or t ys) × Seg nodes (last_or p xs) ys t
  Seg-split nodes p [] ys t all = (tt, all)
  Seg-split nodes p ((a, v) ∷ []) ys t (e, all) = ((e, tt), all)
  Seg-split nodes p ((a, v) ∷ c ∷ xs) ys t (e, all) =
      let (front, back) = Seg-split nodes a (c ∷ xs) ys t all in ((e, front), back)

  -- Two memories that hold the same nodes at the addresses of a chain.
  pub Seg-agree :
      (nodes other : ℕ → Node A) (p : ℕ) (cs : List (Cell A)) (t : ℕ)
      → ((a : ℕ) → Among a cs → other a ≡ nodes a)
      → Seg nodes p cs t
      → Seg other p cs t
  Seg-agree nodes other p [] t same seg = tt
  Seg-agree nodes other p ((a, v) ∷ cs) t same (e, seg) =
      (same a (inl refl) ∙ e, Seg-agree nodes other a cs t (λ b i. same b (inr i)) seg)

  last-Among : (c : Cell A) (cs : List (Cell A)) (d : ℕ) → Among (last_or d (c ∷ cs)) (c ∷ cs)
  last-Among (a, v) [] d = inl refl
  last-Among (a, v) (c ∷ cs) d = inr (last-Among c cs a)

  -- The last node of a chain is given another node behind it.
  pub Seg-retarget :
      (nodes other : ℕ → Node A) (p : ℕ) (cs : List (Cell A)) (t u : ℕ)
      → Distinct cs
      → ((a : ℕ) → Among a cs → a ≢ last_or p cs → other a ≡ nodes a)
      → (cs ≢ [] → other (last_or p cs) ≡ record (nodes (last_or p cs)) { next = u })
      → Seg nodes p cs t
      → Seg other p cs u
  Seg-retarget nodes other p [] t u distinct same at seg = tt
  Seg-retarget nodes other p ((a, v) ∷ []) t u distinct same at (e, seg) =
      (at (λ h. absurd (cc)) ∙ ap (λ (n : Node A). record n { next = u }) e, tt)
  Seg-retarget nodes other p ((a, v) ∷ c ∷ cs) t u (apart, distinct) same at (e, seg) =
      let ne : a ≢ last_or a (c ∷ cs) =
        λ h. apart (subst (λ b. Among b (c ∷ cs)) (sym h) (last-Among c cs a)) in
      (
        same a (inl refl) ne ∙ e,
        Seg-retarget nodes other a (c ∷ cs) t u distinct (λ b i. same b (inr i))
            (λ h. at (λ h. absurd (cc))) seg,
      )

  -- A store elsewhere, and a store at the address.
  pub write_other :
      (nodes : ℕ → Node A) (a : ℕ) (node : Node A) (b : ℕ) → b ≢ a → write nodes a node b ≡ nodes b
  write_other nodes a node b ne = elim (Bool-cases (b == a)) [
    | inl e ↦ absurd (ne ((==_iff b a).0 e))
    | inr e ↦ rw e refl
  ]

  pub write_at : (nodes : ℕ → Node A) (a : ℕ) (node : Node A) → write nodes a node a ≡ node
  write_at nodes a node = rw ((==_iff a a).1 refl) refl

  -- What stands in front of a point of a chain and what stands behind it.
  pub Among-append : (a : ℕ) (xs ys : List (Cell A)) → Among a (xs ++ ys) → Among a xs ⊎ Among a ys
  Among-append a [] ys i = inr i
  Among-append a (c ∷ xs) ys (inl e) = inl (inl e)
  Among-append a (c ∷ xs) ys (inr i) = elim (Among-append a xs ys i) [
    | inl j ↦ inl (inr j)
    | inr j ↦ inr j
  ]

  pub Among-front : (a : ℕ) (xs ys : List (Cell A)) → Among a xs → Among a (xs ++ ys)
  Among-front a [] ys i = absurd i
  Among-front a (c ∷ xs) ys (inl e) = inl e
  Among-front a (c ∷ xs) ys (inr i) = inr (Among-front a xs ys i)

  pub Among-back : (a : ℕ) (xs ys : List (Cell A)) → Among a ys → Among a (xs ++ ys)
  Among-back a [] ys i = i
  Among-back a (c ∷ xs) ys i = inr (Among-back a xs ys i)

  pub Distinct-split :
      (xs ys : List (Cell A))
      → Distinct (xs ++ ys)
      → Distinct xs × Distinct ys × ((a : ℕ) → Among a xs → ¬ Among a ys)
  Distinct-split [] ys d = (tt, d, λ a i. absurd i)
  Distinct-split ((b, v) ∷ xs) ys (apart, d) =
      let (front, back, cross) = Distinct-split xs ys d in
      (
        ((λ i. apart (Among-front b xs ys i)), front),
        back,
        λ a i. elim i [
          | inl e ↦ λ j. apart (Among-back b xs ys (subst (λ c. Among c ys) e j))
          | inr j ↦ cross a j
        ],
      )

  pub Distinct-join :
      (xs ys : List (Cell A))
      → Distinct xs
      → Distinct ys
      → ((a : ℕ) → Among a xs → ¬ Among a ys)
      → Distinct (xs ++ ys)
  Distinct-join [] ys front back cross = back
  Distinct-join ((b, v) ∷ xs) ys (apart, front) back cross = (
    (λ i. elim (Among-append b xs ys i) [ inl j ↦ apart j | inr j ↦ cross b (inl refl) j ]),
    Distinct-join xs ys front back (λ a i. cross a (inr i)),
  )
