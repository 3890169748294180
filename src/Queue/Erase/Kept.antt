-- ===== src/Queue/Erase/Kept.antt =====
-- `queue_t::erase` and the invariant of the queue.
use nodepp.Prelude.{
  ℕ, ◌<◌, ◌≡◌, ◌≢◌, refl, ap, sym, ◌∙◌, subst, ◌⊎◌, inl, inr, Bool, true, false, List, [], ◌∷◌,
  ◌++◌, ◌==◌, ==_iff, if◌then◌else◌, Bool-cases, append-nil, arith,
}
use nodepp.Queue.{Node, Queue, is_valid, is_empty, last, unlink, erase, shift, pop}
use nodepp.Queue.Seg.{
  Cell, head_or, last_or, Among, Among-append, Among-front, Among-back, Distinct-split,
  Distinct-join,
}
use nodepp.Queue.Chain.{
  Chain, last_or-append, last_or-Among, length_middle, node_at, not_empty_middle, middle-valid,
}
use nodepp.Queue.Erase.{ahead, stored, linked_around}

module _ {A : Type 0} where
  starts_without :
      (xs ys : List (Cell A)) (n b t fst : ℕ) (w : A)
      → fst ≡ head_or 0 (xs ++ (n, w) ∷ ys)
      → b ≡ last_or 0 xs
      → t ≡ head_or 0 ys
      → ((a : ℕ) → Among a xs → 0 < a)
      → (if b == 0 then t else fst) ≡ head_or 0 (xs ++ ys)
  starts_without [] ys n b t fst w e be te positive = rw ((==_iff b 0).1 be) te
  starts_without (x ∷ xs) ys n b t fst w e be te positive =
      let u = positive (last_or 0 (x ∷ xs)) (last_or-Among 0 (x ∷ xs) (λ h. absurd (cc))) in
      let test : (b == 0) ≡ false = ground (arith, be, u) in rw test e

  ends_without :
      (xs ys : List (Cell A)) (n b t lst : ℕ) (w : A)
      → lst ≡ last_or 0 (xs ++ (n, w) ∷ ys)
      → b ≡ last_or 0 xs
      → t ≡ head_or 0 ys
      → ((a : ℕ) → Among a ys → 0 < a)
      → (if t == 0 then b else lst) ≡ last_or 0 (xs ++ ys)
  ends_without xs [] n b t lst w e be te positive =
      rw ((==_iff t 0).1 te) (be ∙ ap (last_or 0) (sym (append-nil xs)))
  ends_without xs ((k, u) ∷ ys) n b t lst w e be te positive =
      let test : (t == 0) ≡ false = ground (arith, te, positive k (inl refl)) in
      rw test (e ∙ last_or-append 0 xs (n, w) ((k, u) ∷ ys) ∙ sym (last_or-append 0 xs (k, u) ys))

  -- The queue without the node, with `act` at a node that is left, or at none.
  without :
      (q : Queue A) (xs ys : List (Cell A)) (n a : ℕ) (w : A)
      → Chain q (xs ++ (n, w) ∷ ys)
      → (a ≡ 0) ⊎ Among a (xs ++ ys)
      → Chain
          (record (unlink q n) {
            fst = if (q.nodes n).prev == 0 then (q.nodes n).next else q.fst;
            act = a;
            lst = if (q.nodes n).next == 0 then (q.nodes n).prev else q.lst;
            fresh = q.fresh;
          })
          (xs ++ ys)
  unfolding stored ahead
  without q xs ys n a w chain active =
      let cs = (n, w) ∷ ys in
      let e = node_at q.nodes xs ys n w chain.linked in
      let (front, (apart, back), cross) = Distinct-split xs cs chain.distinct in
      record {
        starts =
            starts_without xs ys n (q.nodes n).prev (q.nodes n).next q.fst w chain.starts
              (ap Node.prev e) (ap Node.next e) (λ a i. (chain.used a (Among-front a xs cs i)).0);
        ends =
            ends_without xs ys n (q.nodes n).prev (q.nodes n).next q.lst w chain.ends
              (ap Node.prev e) (ap Node.next e)
              (λ a i. (chain.used a (Among-back a xs cs (inr i))).0);
        counted = omega (arith, chain.counted, length_middle xs ys (n, w));
        linked =
            linked_around q xs ys n w (record (q.nodes n) { sign = false; next = 0; prev = 0 })
              chain;
        distinct = Distinct-join xs ys front back (λ a i j. cross a i (inr j));
        used = λ a i. elim (Among-append a xs ys i) [
          | inl j ↦ chain.used a (Among-front a xs cs j)
          | inr j ↦ chain.used a (Among-back a xs cs (inr j))
        ];
        unused = chain.unused;
        active = active;
      }

  -- A node that is not the one that goes.
  stays :
      (a n : ℕ) (xs ys : List (Cell A)) (w : A)
      → a ≢ n
      → Among a (xs ++ (n, w) ∷ ys)
      → Among a (xs ++ ys)
  stays a n xs ys w ne i = elim (Among-append a xs ((n, w) ∷ ys) i) [
    | inl j ↦ Among-front a xs ys j
    | inr j ↦ elim j [ inl e ↦ absurd (ne e) | inr k ↦ Among-back a xs ys k ]
  ]

  head-Among : (xs : List (Cell A)) → (head_or 0 xs ≡ 0) ⊎ Among (head_or 0 xs) xs
  head-Among [] = inl refl
  head-Among ((k, u) ∷ xs) = inr (inl refl)

  -- Where `next` puts `act` when it stands at the node that goes.
  moved :
      (q : Queue A) (xs ys : List (Cell A)) (n fst : ℕ) (w : A)
      → Chain q (xs ++ (n, w) ∷ ys)
      → fst ≡ head_or 0 (xs ++ ys)
      → let a = if (q.nodes n).next == 0 then fst else (q.nodes n).next in
        (a ≡ 0) ⊎ Among a (xs ++ ys)
  moved q xs [] n fst w chain fe =
      let te : ((q.nodes n).next == 0) ≡ true =
        (==_iff (q.nodes n).next 0).1 (ap Node.next (node_at q.nodes xs [] n w chain.linked)) in
      rw (te, fe) (head-Among (xs ++ []))
  moved q xs ((k, u) ∷ ys) n fst w chain fe =
      let e = ap Node.next (node_at q.nodes xs ((k, u) ∷ ys) n w chain.linked) in
      let positive = (chain.used k (Among-back k xs ((n, w) ∷ (k, u) ∷ ys) (inr (inl refl)))).0 in
      let te : ((q.nodes n).next == 0) ≡ false = ground (arith, e, positive) in
      rw (te, e) (inr (Among-back k xs ((k, u) ∷ ys) (inl refl)))

  pub unlink-Chain :
      (q : Queue A) (xs ys : List (Cell A)) (n : ℕ) (w : A)
      → Chain q (xs ++ (n, w) ∷ ys)
      → Chain (unlink q n) (xs ++ ys)
  unlink-Chain q xs ys n w chain =
      let cs = (n, w) ∷ ys in
      let positive = (chain.used n (Among-back n xs cs (inl refl))).0 in
      let kept = λ (a : ℕ) (h : (a ≡ 0) ⊎ Among a (xs ++ ys)). without q xs ys n a w chain h in
      elim (Bool-cases (n == q.act)) [
        | inl e ↦
            let at : q.act ≡ n = sym ((==_iff n q.act).0 e) in
            let set : (q.act == 0) ≡ false = ground (arith, at, positive) in
            let start =
              starts_without xs ys n (q.nodes n).prev (q.nodes n).next q.fst w chain.starts
                (ap Node.prev (node_at q.nodes xs ys n w chain.linked))
                (ap Node.next (node_at q.nodes xs ys n w chain.linked))
                (λ a i. (chain.used a (Among-front a xs cs i)).0) in
            rw (e, not_empty_middle q xs ys (n, w) chain, set, at)
              (kept _ (moved q xs ys n _ w chain start))
        | inr e ↦
            let ne : q.act ≢ n = λ h. ground arith in
            rw e (
              kept q.act
                (elim chain.active [ inl z ↦ inl z | inr i ↦ inr (stays q.act n xs ys w ne i) ]))
      ]

  -- The tests of `erase`, by the branch that they choose.
  choose :
      (x y u : Queue A) (e z s : Bool)
      → e ≡ false
      → z ≡ false
      → s ≡ true
      → (if e then x else if z then y else if s then u else x) ≡ u
  choose x y u e z s he hz hs = rw (he, hz, hs) refl

  -- Of a queue whose nodes form a chain, erasing a node of the chain gives the chain without this
  -- node; the size, both ends and the links describe it, and act is null or a node that is left.
  pub erase-Chain :
      (q : Queue A) (xs ys : List (Cell A)) (n : ℕ) (w : A)
      → Chain q (xs ++ (n, w) ∷ ys)
      → Chain (erase q n) (xs ++ ys)
  unfolding erase
  erase-Chain q xs ys n w chain =
      let positive = (chain.used n (Among-back n xs ((n, w) ∷ ys) (inl refl))).0 in
      let picked =
        choose q (unlink q (last q)) (unlink q n) (is_empty q) (n == 0) (is_valid q n)
          (not_empty_middle q xs ys (n, w) chain) (ground arith)
          (middle-valid q xs ys n w positive chain) in
      subst (λ k. Chain k (xs ++ ys)) (sym picked) (unlink-Chain q xs ys n w chain)

  -- Of a queue whose nodes form a chain that is not empty, pop gives the chain without its last
  -- node.
  pub pop-Chain :
      (q : Queue A) (xs : List (Cell A)) (n : ℕ) (w : A)
      → Chain q (xs ++ (n, w) ∷ [])
      → Chain (pop q) xs
  unfolding pop erase
  pop-Chain q xs n w chain =
      let positive = (chain.used n (Among-back n xs ((n, w) ∷ []) (inl refl))).0 in
      let at : q.lst ≡ n = chain.ends ∙ last_or-append 0 xs (n, w) [] in
      let test : (q.lst == 0) ≡ false = ground (arith, at, positive) in
      let at_last : last q ≡ n = rw test at in
      let left =
        subst (λ k. Chain (unlink q n) k) (append-nil xs) (unlink-Chain q xs [] n w chain) in
      let picked =
        taken q (unlink q (last q)) (is_empty q) (not_empty_middle q xs [] (n, w) chain) in
      subst (λ k. Chain k xs) (sym picked) (subst (λ k. Chain (unlink q k) xs) (sym at_last) left)
    where
      taken : (x y : Queue A) (e : Bool) → e ≡ false → (if e then x else y) ≡ y
      taken x y e he = rw he refl

  pub shift-Chain :
      (q : Queue A) (n : ℕ) (w : A) (cs : List (Cell A))
      → Chain q ((n, w) ∷ cs)
      → Chain (shift q) cs
  unfolding shift
  shift-Chain q n w cs chain =
      subst (λ k. Chain (erase q k) cs) (sym chain.starts) (erase-Chain q [] cs n w chain)

  -- Erasing anything else than a node of the queue changes nothing.
  pub erase_invalid : (q : Queue A) (n : ℕ) → n ≢ 0 → is_valid q n ≡ false → erase q n ≡ q
  unfolding erase
  erase_invalid q n ne invalid =
      let some_node : (n == 0) ≡ false = ground arith in
      elim (Bool-cases (is_empty q)) [ inl e ↦ rw e refl | inr e ↦ rw (invalid, e, some_node) refl ]
