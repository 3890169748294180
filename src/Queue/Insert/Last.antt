-- ===== src/Queue/Insert/Last.antt =====
-- `queue_t::insert` at an address that is no node of the queue.
use nodepp.Prelude.{
  ℕ, ◌+◌, ◌≡◌, ◌≢◌, refl, ap, sym, ◌∙◌, subst, true, false, List, [], ◌∷◌, ◌++◌, ◌==◌,
  if◌then◌else◌, length-append, append-nil, arith,
}
use nodepp.Queue.{
  Node, Queue, write, set_next, is_valid, is_empty, first, last, insert, insert_first, insert_last,
  push, unshift,
}
use nodepp.Queue.Seg.{Cell, last_or, Among, Seg, Seg-append, Seg-retarget, write_other, write_at}
use nodepp.Queue.Chain.{Chain, last_or-append, last_or-Among, not_empty}
use nodepp.Queue.Insert.{
  used_middle, Distinct-middle, active_middle, fresh_apart, last-cell, starts_last,
  insert_before-Chain,
}

module _ {A : Type 0} where
  linked_last :
      (q : Queue A) (c : Cell A) (cs : List (Cell A)) (v : A)
      → Chain q (c ∷ cs)
      → (n : ℕ) → n ≡ last_or 0 (c ∷ cs)
      → Seg
          (set_next
            (write q.nodes q.fresh (record { sign = true; next = 0; prev = n; value = v }))
            n
            q.fresh)
          0
          ((c ∷ cs) ++ (q.fresh, v) ∷ [])
          0
  linked_last q c cs v chain n e =
      let m = q.fresh in
      let cells = c ∷ cs in
      let node : Node _ = record { sign = true; next = 0; prev = n; value = v } in
      let one = write q.nodes m node in
      let two = record (one n) { next = m } in
      let apart = fresh_apart q cells chain in
      let am : (a : ℕ) → Among a cells → a ≢ m = λ a i h. apart (subst (λ k. Among k cells) h i) in
      let nm : n ≢ m =
        am n (subst (λ k. Among k cells) (sym e) (last_or-Among 0 cells (λ h. absurd (cc)))) in
      let keeps : (a : ℕ) → Among a cells → a ≢ last_or 0 cells → write one n two a ≡ q.nodes a =
        λ a i ne.
          write_other one n two a (λ h. ne (h ∙ e)) ∙ write_other q.nodes m node a (am a i) in
      let relinks : write one n two (last_or 0 cells)
          ≡ record (q.nodes (last_or 0 cells)) { next = m } =
        subst (λ k. write one n two k ≡ record (q.nodes k) { next = m }) e
          (write_at one n two
            ∙ ap (λ (k : Node A). record k { next = m }) (write_other q.nodes m node n nm)) in
      let made : write one n two m
          ≡ record { sign = true; next = 0; prev = last_or 0 cells; value = v } =
        write_other one n two m (λ h. nm (sym h))
        ∙ write_at q.nodes m node
        ∙ ap (λ (p : ℕ). record { sign = true; next = 0; prev = p; value = v }) e in
      Seg-append (write one n two) 0 cells ((m, v) ∷ []) 0
        (Seg-retarget q.nodes (write one n two) 0 cells 0 m chain.distinct keeps (λ _. relinks)
          chain.linked)
        (made, tt)

  -- With no cell in front, the cells of a queue are those behind.
  at_end : (q : Queue A) (cs : List (Cell A)) → Chain q cs → Chain q (cs ++ [])
  at_end q cs chain = subst (λ k. Chain q k) (sym (append-nil cs)) chain

  -- Of a queue whose nodes form a chain, empty or not, inserting a value at an address that is not
  -- valid for the queue gives the chain with a new node for the value at the end.
  pub insert_last-Chain :
      (q : Queue A) (cells : List (Cell A)) (n : ℕ) (v : A)
      → Chain q cells
      → is_valid q n ≡ false
      → Chain (insert q n v) (cells ++ (q.fresh, v) ∷ [])
  unfolding insert
  insert_last-Chain q [] n v chain invalid =
      let done : Chain (record (insert_first q v) { size = q.size + 1; fresh = q.fresh + 1 })
          ((q.fresh, v) ∷ []) =
        record {
          starts = refl;
          ends = refl;
          counted = omega (arith, chain.counted);
          linked = (
            write_at q.nodes q.fresh (record { sign = true; next = 0; prev = 0; value = v }),
            tt,
          );
          distinct = ((λ i. i), tt);
          used = used_middle q [] [] v chain;
          unused = omega arith;
          active = active_middle q.act [] [] (q.fresh, v) chain.active;
        } in
      let test : is_empty q ≡ true = ground (arith, chain.counted) in rw test done
  insert_last-Chain q (c ∷ cs) n v chain invalid =
      let cells = c ∷ cs in
      let m = q.fresh in
      let e = last-cell q c cs chain in
      let whole = at_end q cells chain in
      let done : Chain (record (insert_last q v) { size = q.size + 1; fresh = q.fresh + 1 })
          (cells ++ (m, v) ∷ []) =
        record {
          starts =
              subst (λ k. (if (q.nodes k).prev == 0 then k else q.fst) ≡ c.0) (sym e)
                (starts_last q.nodes c cs 0 q.fst (λ a i. (chain.used a i).0) chain.linked
                  chain.starts);
          ends = sym (last_or-append 0 cells (m, v) []);
          counted = omega (arith, chain.counted, length-append cells ((m, v) ∷ []));
          linked = linked_last q c cs v chain (last q) e;
          distinct = Distinct-middle q cells [] v whole;
          used = used_middle q cells [] v whole;
          unused = omega arith;
          active = active_middle q.act cells [] (m, v) whole.active;
        } in
      rw (invalid, not_empty q c cs chain) done

  -- `push` appends and `unshift` puts the value in front.
  pub push-Chain :
      (q : Queue A) (cells : List (Cell A)) (v : A)
      → Chain q cells
      → Chain (push q v) (cells ++ (q.fresh, v) ∷ [])
  unfolding push
  push-Chain q cells v chain = insert_last-Chain q cells 0 v chain (ground arith)

  pub unshift-Chain :
      (q : Queue A) (cells : List (Cell A)) (v : A)
      → Chain q cells
      → Chain (unshift q v) ((q.fresh, v) ∷ cells)
  unfolding unshift
  unshift-Chain q [] v chain =
      insert_last-Chain q [] (first q) v chain (ground (arith, chain.counted))
  unshift-Chain q ((n, w) ∷ cs) v chain =
      subst (λ k. Chain (insert q k v) ((q.fresh, v) ∷ (n, w) ∷ cs)) (sym chain.starts)
        (insert_before-Chain q [] cs n w v chain)
