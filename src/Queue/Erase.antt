-- ===== src/Queue/Erase.antt =====
-- `queue_t::erase( NODE* )`: the links it writes, the current node and the values it leaves.
pub mod Kept
use nodepp.Prelude.{
  ℕ, zero, suc, ◌+◌, ◌-◌, ◌≤◌, ◌<◌, ◌≡◌, ◌≢◌, refl, ap, ap₂, sym, ◌∙◌, subst, ◌⊎◌, inl, inr, Bool,
  true, false, not, ◌||◌, List, [], ◌∷◌, ◌++◌, map, ◌==◌, ==_iff, if◌then◌else◌, Bool-cases, length,
  length-append, append-nil, arith,
}
use nodepp.Queue.{
  Node, Queue, write, set_next, set_prev, link_next, link_prev, is_valid, is_empty, first, last,
  next, unlink, erase, shift, pop,
}
use nodepp.Queue.Seg.{
  Cell, head_or, last_or, Among, Distinct, Seg, Seg-append, Seg-split, Seg-agree, Seg-retarget,
  write_other, write_at, Among-append, Among-front, Among-back, Distinct-split, Distinct-join,
}
use nodepp.Queue.Chain.{
  Chain, last_or-append, last_or-Among, length_middle, node_at, not_empty, not_empty_middle,
  middle-valid,
}
use nodepp.Queue.Insert.{before-ne, last-cell}

-- The stores of `unlink`, at each address.
module _ {A : Type 0} (nodes : ℕ → Node A) (n b t : ℕ) (gone : Node A) where
  ahead : ℕ → Node A
  ahead = link_next nodes b t

  pub stored : ℕ → Node A
  unfolding ahead
  stored = write (link_prev ahead t b) n gone

  ahead_other : (a : ℕ) → a ≢ b → ahead a ≡ nodes a
  unfolding ahead
  ahead_other a ab = elim (Bool-cases (b == 0)) [
    | inl e ↦ rw e refl
    | inr e ↦ rw e (write_other nodes b (record (nodes b) { next = t }) a ab)
  ]

  ahead_at : b ≢ 0 → ahead b ≡ record (nodes b) { next = t }
  unfolding ahead
  ahead_at b0 =
      let test : (b == 0) ≡ false = ground arith in
      rw test (write_at nodes b (record (nodes b) { next = t }))

  behind_other : (a : ℕ) → a ≢ t → link_prev ahead t b a ≡ ahead a
  behind_other a at = elim (Bool-cases (t == 0)) [
    | inl e ↦ rw e refl
    | inr e ↦ rw e (write_other ahead t (record (ahead t) { prev = b }) a at)
  ]

  stored_other : (a : ℕ) → a ≢ n → a ≢ b → a ≢ t → stored a ≡ nodes a
  unfolding stored
  stored_other a an ab at =
      write_other (link_prev ahead t b) n gone a an ∙ behind_other a at ∙ ahead_other a ab

  stored_before : b ≢ 0 → b ≢ n → b ≢ t → stored b ≡ record (nodes b) { next = t }
  unfolding stored
  stored_before b0 bn bt =
      write_other (link_prev ahead t b) n gone b bn ∙ behind_other b bt ∙ ahead_at b0

  stored_behind : t ≢ 0 → t ≢ n → t ≢ b → stored t ≡ record (nodes t) { prev = b }
  unfolding stored
  stored_behind t0 tn tb =
      let test : (t == 0) ≡ false = ground arith in
      write_other (link_prev ahead t b) n gone t tn
      ∙ rw test (write_at ahead t (record (ahead t) { prev = b }))
      ∙ ap (λ (k : Node A). record k { prev = b }) (ahead_other t tb)

module _ {A : Type 0} where
  head-ne : (ys : List (Cell A)) (a : ℕ) → 0 < a → ¬ Among a ys → head_or 0 ys ≢ a
  head-ne [] a positive apart e = omega (arith, e, positive)
  head-ne ((k, u) ∷ ys) a positive apart e = apart (inl (sym e))

  -- The chain in memory after the stores of `unlink`.
  pub linked_around :
      (q : Queue A) (xs ys : List (Cell A)) (n : ℕ) (w : A) (gone : Node A)
      → Chain q (xs ++ (n, w) ∷ ys)
      → Seg (stored q.nodes n (q.nodes n).prev (q.nodes n).next gone) 0 (xs ++ ys) 0
  linked_around q xs ys n w gone chain =
      let b = (q.nodes n).prev in
      let t = (q.nodes n).next in
      let st = stored q.nodes n b t gone in
      let e = node_at q.nodes xs ys n w chain.linked in
      let be : b ≡ last_or 0 xs = ap Node.prev e in
      let te : t ≡ head_or 0 ys = ap Node.next e in
      let (front, (apart, back), cross) = Distinct-split xs ((n, w) ∷ ys) chain.distinct in
      let (seg, rest) = Seg-split q.nodes 0 xs ((n, w) ∷ ys) 0 chain.linked in
      let un = (chain.used n (Among-back n xs ((n, w) ∷ ys) (inl refl))).0 in
      let of_front : (a : ℕ) → Among a xs → 0 < a =
        λ a i. (chain.used a (Among-front a xs ((n, w) ∷ ys) i)).0 in
      let of_back : (a : ℕ) → Among a ys → 0 < a =
        λ a i. (chain.used a (Among-back a xs ((n, w) ∷ ys) (inr i))).0 in
      let nx : ¬ Among n xs = λ i. cross n i (inl refl) in
      let bn : b ≢ n = λ h. before-ne xs n un nx (sym be ∙ h) in
      let keeps_front : (a : ℕ) → Among a xs → a ≢ last_or 0 xs → st a ≡ q.nodes a = λ a i ne.
        stored_other q.nodes n b t gone a (λ h. nx (subst (λ k. Among k xs) h i)) (λ h. ne (h ∙ be))
          (λ h. head-ne ys a (of_front a i) (λ j. cross a i (inr j)) (sym te ∙ sym h)) in
      let relinks : xs ≢ []
          → st (last_or 0 xs) ≡ record (q.nodes (last_or 0 xs)) { next = head_or 0 ys } =
        λ ne.
          let l = last_or-Among 0 xs ne in
          let bx : Among b xs = subst (λ k. Among k xs) (sym be) l in
          subst (λ k. st k ≡ record (q.nodes k) { next = head_or 0 ys }) be
            (stored_before q.nodes n b t gone (λ h. omega (arith, of_front b bx, h)) bn
                (λ h. head-ne ys b (of_front b bx) (λ j. cross b bx (inr j)) (sym te ∙ sym h))
              ∙ ap (λ (k : ℕ). record (q.nodes b) { next = k }) te) in
      let keeps_back : (a : ℕ) → Among a ys → a ≢ head_or 0 ys → st a ≡ q.nodes a = λ a i ne.
        stored_other q.nodes n b t gone a (λ h. apart (subst (λ k. Among k ys) h i))
          (λ h. before-ne xs a (of_back a i) (λ j. cross a j (inr i)) (sym be ∙ sym h))
          (λ h. ne (h ∙ te)) in
      Seg-append st 0 xs ys 0
        (Seg-retarget q.nodes st 0 xs n (head_or 0 ys) front keeps_front relinks seg)
        (after ys back of_back apart cross te keeps_back rest.1)
    where
      st : ℕ → Node A
      st = stored q.nodes n (q.nodes n).prev (q.nodes n).next gone

      after :
          (zs : List (Cell A))
          → Distinct zs
          → ((a : ℕ) → Among a zs → 0 < a)
          → ¬ Among n zs
          → ((a : ℕ) → Among a xs → ¬ Among a ((n, w) ∷ zs))
          → (q.nodes n).next ≡ head_or 0 zs
          → ((a : ℕ) → Among a zs → a ≢ head_or 0 zs → st a ≡ q.nodes a)
          → Seg q.nodes n zs 0
          → Seg st (last_or 0 xs) zs 0
      after [] distinct positive apart cross te keeps seg = tt
      after ((k, u) ∷ zs) (kz, distinct) positive apart cross te keeps (e, seg) =
          let be : (q.nodes n).prev ≡ last_or 0 xs =
            ap Node.prev (node_at q.nodes xs ys n w chain.linked) in
          let kb : k ≢ (q.nodes n).prev = λ h.
            before-ne xs k (positive k (inl refl)) (λ j. cross k j (inr (inl refl)))
              (sym be ∙ sym h) in
          let relinked : st k ≡ record (q.nodes k) { prev = (q.nodes n).prev } =
            subst (λ j. st j ≡ record (q.nodes j) { prev = (q.nodes n).prev }) te
              (stored_behind q.nodes n (q.nodes n).prev (q.nodes n).next gone
                (λ h. omega (arith, te, h, positive k (inl refl))) (λ h. apart (inl (sym h ∙ te)))
                (λ h. kb (sym te ∙ h))) in
          (
            relinked
                ∙ ap (λ (j : Node A). record j { prev = (q.nodes n).prev }) e
                ∙ ap (λ (p : ℕ). record { sign = true; next = head_or 0 zs; prev = p; value = u })
                    be,
            Seg-agree q.nodes st k zs 0
                (λ a i. keeps a (inr i) (λ h. kz (subst (λ j. Among j zs) h i))) seg,
          )
