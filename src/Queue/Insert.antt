-- ===== src/Queue/Insert.antt =====
-- `queue_t::insert( NODE*, const V& )`: the links it writes and the values it leaves.
pub mod Last
use nodepp.Prelude.{
  ℕ, zero, suc, ◌+◌, ◌≤◌, ◌<◌, ◌≡◌, ◌≢◌, refl, ap, ap₂, sym, ◌∙◌, subst, ◌⊎◌, inl, inr, Bool, true,
  false, not, ◌||◌, List, [], ◌∷◌, ◌++◌, map, ◌==◌, ==_iff, if◌then◌else◌, Bool-cases, length,
  length-append, append-nil, arith,
}
use nodepp.Queue.{
  Node, Queue, write, set_next, set_prev, link_next, is_valid, is_empty, first, last, insert,
  insert_first, insert_before, insert_last, push, unshift,
}
use nodepp.Queue.Seg.{
  Cell, head_or, last_or, Among, Distinct, Seg, Seg-append, Seg-split, Seg-agree, Seg-retarget,
  write_other, write_at, Among-append, Among-front, Among-back, Distinct-split, Distinct-join,
}
use nodepp.Queue.Chain.{
  Chain, last_or-append, last_or-Among, length_middle, node_at, not_empty, not_empty_middle,
  middle-valid,
}

-- The stores of `insert_before`, at each address.
module _ {A : Type 0} (nodes : ℕ → Node A) (n m b : ℕ) (v : A) where
  made : ℕ → Node A
  made = write nodes m (record { sign = true; next = 0; prev = b; value = v })

  stored : ℕ → Node A
  unfolding made
  stored = set_prev (set_next (link_next made b m) m n) n m

  made_other : (a : ℕ) → a ≢ m → made a ≡ nodes a
  unfolding made
  made_other a am = write_other nodes m (record { sign = true; next = 0; prev = b; value = v }) a am

  linked_other : (a : ℕ) → a ≢ b → link_next made b m a ≡ made a
  linked_other a ab = elim (Bool-cases (b == 0)) [
    | inl e ↦ rw e refl
    | inr e ↦ rw e (write_other made b (record (made b) { next = m }) a ab)
  ]

  stored_linked : (a : ℕ) → a ≢ m → a ≢ n → stored a ≡ link_next made b m a
  unfolding stored
  stored_linked a am an =
      write_other (set_next (link_next made b m) m n) n
        (record (set_next (link_next made b m) m n n) { prev = m }) a an
      ∙ write_other (link_next made b m) m (record (link_next made b m m) { next = n }) a am

  stored_other : (a : ℕ) → a ≢ m → a ≢ n → a ≢ b → stored a ≡ nodes a
  stored_other a am an ab = stored_linked a am an ∙ linked_other a ab ∙ made_other a am

  stored_before : b ≢ 0 → b ≢ m → b ≢ n → stored b ≡ record (nodes b) { next = m }
  stored_before b0 bm bn =
      let test : (b == 0) ≡ false = ground arith in
      stored_linked b bm bn
      ∙ rw test (write_at made b (record (made b) { next = m }))
      ∙ ap (λ (k : Node A). record k { next = m }) (made_other b bm)

  stored_made : m ≢ n → m ≢ b → stored m ≡ record { sign = true; next = n; prev = b; value = v }
  unfolding stored made
  stored_made mn mb =
      write_other (set_next (link_next made b m) m n) n
        (record (set_next (link_next made b m) m n n) { prev = m }) m mn
      ∙ write_at (link_next made b m) m (record (link_next made b m m) { next = n })
      ∙ ap (λ (k : Node A). record k { next = n })
          (linked_other m mb
            ∙ write_at nodes m (record { sign = true; next = 0; prev = b; value = v }))

  stored_behind : n ≢ m → n ≢ b → stored n ≡ record (nodes n) { prev = m }
  unfolding stored
  stored_behind nm nb =
      write_at (set_next (link_next made b m) m n) n
        (record (set_next (link_next made b m) m n n) { prev = m })
      ∙ ap (λ (k : Node A). record k { prev = m })
          (write_other (link_next made b m) m (record (link_next made b m m) { next = n }) n nm
            ∙ linked_other n nb
            ∙ made_other n nm)

module _ {A : Type 0} where
  pub before-ne : (xs : List (Cell A)) (a : ℕ) → 0 < a → ¬ Among a xs → last_or 0 xs ≢ a
  before-ne [] a positive apart e = absurd (omega (arith, e))
  before-ne (c ∷ xs) a positive apart e =
      apart (subst (λ k. Among k (c ∷ xs)) e (last_or-Among 0 (c ∷ xs) (λ h. absurd (cc))))

  -- The chain with one cell more, in any place: what `used` and `distinct` say of it.
  pub used_middle :
      (q : Queue A) (xs ys : List (Cell A)) (v : A)
      → Chain q (xs ++ ys)
      → (a : ℕ) → Among a (xs ++ (q.fresh, v) ∷ ys)
      → (0 < a) × (a < q.fresh + 1)
  used_middle q xs ys v chain a i = elim (Among-append a xs ((q.fresh, v) ∷ ys) i) [
    | inl j ↦ let u = chain.used a (Among-front a xs ys j) in omega (arith, u)
    | inr j ↦ elim j [
      | inl e ↦ omega (arith, e, chain.unused)
      | inr k ↦ let u = chain.used a (Among-back a xs ys k) in omega (arith, u)
    ]
  ]

  pub fresh_apart : (q : Queue A) (cs : List (Cell A)) → Chain q cs → ¬ Among q.fresh cs
  fresh_apart q cs chain i = omega (arith, chain.used q.fresh i)

  pub Distinct-middle :
      (q : Queue A) (xs ys : List (Cell A)) (v : A)
      → Chain q (xs ++ ys)
      → Distinct (xs ++ (q.fresh, v) ∷ ys)
  Distinct-middle q xs ys v chain =
      let (front, back, cross) = Distinct-split xs ys chain.distinct in
      let apart = fresh_apart q (xs ++ ys) chain in
      Distinct-join xs ((q.fresh, v) ∷ ys) front ((λ i. apart (Among-back q.fresh xs ys i)), back)
        (λ a i j. elim j [
          | inl e ↦ apart (Among-front q.fresh xs ys (subst (λ k. Among k xs) e i))
          | inr k ↦ cross a i k
        ])

  pub active_middle :
      (a : ℕ) (xs ys : List (Cell A)) (c : Cell A)
      → (a ≡ 0) ⊎ Among a (xs ++ ys)
      → (a ≡ 0) ⊎ Among a (xs ++ c ∷ ys)
  active_middle a xs ys c (inl e) = inl e
  active_middle a xs ys c (inr i) = elim (Among-append a xs ys i) [
    | inl j ↦ inr (Among-front a xs (c ∷ ys) j)
    | inr j ↦ inr (Among-back a xs (c ∷ ys) (inr j))
  ]

  -- The chain in memory after the stores of `insert_before`.
  linked_before :
      (q : Queue A) (xs ys : List (Cell A)) (n : ℕ) (w v : A)
      → Chain q (xs ++ (n, w) ∷ ys)
      → Seg (stored q.nodes n q.fresh (q.nodes n).prev v) 0 (xs ++ (q.fresh, v) ∷ (n, w) ∷ ys) 0
  linked_before q xs ys n w v chain =
      let m = q.fresh in
      let b = (q.nodes n).prev in
      let st = stored q.nodes n m b v in
      let e = node_at q.nodes xs ys n w chain.linked in
      let be : b ≡ last_or 0 xs = ap Node.prev e in
      let (front, (apart, back), cross) = Distinct-split xs ((n, w) ∷ ys) chain.distinct in
      let (seg, rest) = Seg-split q.nodes 0 xs ((n, w) ∷ ys) 0 chain.linked in
      let used = chain.used in
      let un = used n (Among-back n xs ((n, w) ∷ ys) (inl refl)) in
      let nx : ¬ Among n xs = λ i. cross n i (inl refl) in
      let mx : ¬ Among m xs =
        λ i. fresh_apart q (xs ++ (n, w) ∷ ys) chain (Among-front m xs ((n, w) ∷ ys) i) in
      let bm : b ≢ m = λ h. before-ne xs m chain.unused mx (sym be ∙ h) in
      let bn : b ≢ n = λ h. before-ne xs n un.0 nx (sym be ∙ h) in
      let nm : n ≢ m = λ h. omega (arith, un, h) in
      let of_front : (a : ℕ) → Among a xs → a < m =
        λ a i. (used a (Among-front a xs ((n, w) ∷ ys) i)).1 in
      let of_back : (a : ℕ) → Among a ys → a < m =
        λ a i. (used a (Among-back a xs ((n, w) ∷ ys) (inr i))).1 in
      Seg-append st 0 xs ((m, v) ∷ (n, w) ∷ ys) 0
        (Seg-retarget q.nodes st 0 xs n m front
          (λ a i ne.
            stored_other q.nodes n m b v a (λ h. omega (arith, of_front a i, h))
              (λ h. nx (subst (λ k. Among k xs) h i)) (λ h. ne (h ∙ be)))
          (λ ne.
            subst (λ k. st k ≡ record (q.nodes k) { next = m }) be
              (stored_before q.nodes n m b v
                (λ h. omega (
                  arith,
                  be,
                  h,
                  used (last_or 0 xs)
                      (Among-front (last_or 0 xs) xs ((n, w) ∷ ys) (last_or-Among 0 xs ne)),
                ))
                bm bn))
          seg)
        (
          stored_made q.nodes n m b v (λ h. nm (sym h)) (λ h. bm (sym h))
              ∙ ap (λ (p : ℕ). record { sign = true; next = n; prev = p; value = v }) be,
          (
            stored_behind q.nodes n m b v nm (λ h. bn (sym h))
                ∙ ap (λ (k : Node A). record k { prev = m }) e,
            Seg-agree q.nodes st n ys 0
                (λ a i.
                  stored_other q.nodes n m b v a (λ h. omega (arith, of_back a i, h))
                    (λ h. apart (subst (λ k. Among k ys) h i))
                    (λ h.
                      before-ne xs a (used a (Among-back a xs ((n, w) ∷ ys) (inr i))).0
                        (λ j. cross a j (inr i)) (sym be ∙ sym h)))
                rest.1,
          ),
        )

  head_or-middle :
      (xs ys : List (Cell A)) (b fst m : ℕ) (c : Cell A) (v : A)
      → fst ≡ head_or 0 (xs ++ c ∷ ys)
      → b ≡ last_or 0 xs
      → ((a : ℕ) → Among a xs → 0 < a)
      → (if b == 0 then m else fst) ≡ head_or 0 (xs ++ (m, v) ∷ c ∷ ys)
  head_or-middle [] ys b fst m c v e be positive = rw ((==_iff b 0).1 be) refl
  head_or-middle (x ∷ xs) ys b fst m c v e be positive =
      let u = positive (last_or 0 (x ∷ xs)) (last_or-Among 0 (x ∷ xs) (λ h. absurd (cc))) in
      let test : (b == 0) ≡ false = ground (arith, be, u) in rw test e

  ends-middle :
      (xs ys : List (Cell A)) (after lst m n : ℕ) (w v : A)
      → after ≡ head_or 0 ys
      → lst ≡ last_or 0 (xs ++ (n, w) ∷ ys)
      → ((a : ℕ) → Among a ys → 0 < a)
      → (if after == 0 then n else lst) ≡ last_or 0 (xs ++ (m, v) ∷ (n, w) ∷ ys)
  ends-middle xs [] after lst m n w v ae e positive =
      rw ((==_iff after 0).1 ae) (sym (last_or-append 0 xs (m, v) ((n, w) ∷ [])))
  ends-middle xs ((k, u) ∷ ys) after lst m n w v ae e positive =
      let test : (after == 0) ≡ false = ground (arith, ae, positive k (inl refl)) in
      rw test (
        e
        ∙ last_or-append 0 xs (n, w) ((k, u) ∷ ys)
        ∙ sym (last_or-append 0 xs (m, v) ((n, w) ∷ (k, u) ∷ ys)))

  -- Of a queue whose nodes form a chain, inserting a value at a node of the chain gives a chain
  -- with a new node for the value directly in front of that node, and all fields and links
  -- describe it.
  pub insert_before-Chain :
      (q : Queue A) (xs ys : List (Cell A)) (n : ℕ) (w v : A)
      → Chain q (xs ++ (n, w) ∷ ys)
      → Chain (insert q n v) (xs ++ (q.fresh, v) ∷ (n, w) ∷ ys)
  unfolding insert stored made
  insert_before-Chain q xs ys n w v chain =
      let cs = (n, w) ∷ ys in
      let m = q.fresh in
      let e = node_at q.nodes xs ys n w chain.linked in
      let un = chain.used n (Among-back n xs cs (inl refl)) in
      let valid = middle-valid q xs ys n w un.0 chain in
      let ne = not_empty_middle q xs ys (n, w) chain in
      let done : Chain (record (insert_before q n v) { size = q.size + 1; fresh = q.fresh + 1 })
          (xs ++ (m, v) ∷ cs) =
        record {
          starts =
              head_or-middle xs ys (q.nodes n).prev q.fst m (n, w) v chain.starts (ap Node.prev e)
                (λ a i. (chain.used a (Among-front a xs cs i)).0);
          ends =
              ends-middle xs ys (q.nodes n).next q.lst m n w v (ap Node.next e) chain.ends
                (λ a i. (chain.used a (Among-back a xs cs (inr i))).0);
          counted = omega (arith, chain.counted, length_middle xs cs (m, v));
          linked = linked_before q xs ys n w v chain;
          distinct = Distinct-middle q xs cs v chain;
          used = used_middle q xs cs v chain;
          unused = omega arith;
          active = active_middle q.act xs cs (m, v) chain.active;
        } in
      rw (valid, ne) done

  pub last-cell :
      (q : Queue A) (c : Cell A) (cs : List (Cell A))
      → Chain q (c ∷ cs)
      → last q ≡ last_or 0 (c ∷ cs)
  last-cell q c cs chain =
      let u = chain.used (last_or 0 (c ∷ cs)) (last_or-Among 0 (c ∷ cs) (λ h. absurd (cc))) in
      let test : (q.lst == 0) ≡ false = ground (arith, chain.ends, u) in rw test chain.ends

  -- A node with none before it is the first one.
  behind-positive :
      (nodes : ℕ → Node A) (p : ℕ) (c : Cell A) (cs : List (Cell A)) (d t : ℕ)
      → 0 < p
      → ((a : ℕ) → Among a (c ∷ cs) → 0 < a)
      → Seg nodes p (c ∷ cs) t
      → 0 < (nodes (last_or d (c ∷ cs))).prev
  behind-positive nodes p (a, v) [] d t hp positive (e, _) = omega (arith, ap Node.prev e, hp)
  behind-positive nodes p (a, v) (c ∷ cs) d t hp positive (e, seg) =
      behind-positive nodes a c cs a t (positive a (inl refl)) (λ b i. positive b (inr i)) seg

  pub starts_last :
      (nodes : ℕ → Node A) (c : Cell A) (cs : List (Cell A)) (t fst : ℕ)
      → ((a : ℕ) → Among a (c ∷ cs) → 0 < a)
      → Seg nodes 0 (c ∷ cs) t
      → fst ≡ head_or 0 (c ∷ cs)
      → (if (nodes (last_or 0 (c ∷ cs))).prev == 0 then last_or 0 (c ∷ cs) else fst)
        ≡ head_or 0 (c ∷ cs)
  starts_last nodes (a, v) [] t fst positive (e, _) fe =
      rw ((==_iff (nodes a).prev 0).1 (ap Node.prev e)) refl
  starts_last nodes (a, v) (c ∷ cs) t fst positive (e, seg) fe =
      let u =
        behind-positive nodes a c cs a t (positive a (inl refl)) (λ b i. positive b (inr i)) seg in
      let test : ((nodes (last_or a (c ∷ cs))).prev == 0) ≡ false = ground (arith, u) in rw test fe
