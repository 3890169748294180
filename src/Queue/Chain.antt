-- ===== src/Queue/Chain.antt =====
-- The invariant of a queue: its nodes form one chain, and the fields of the queue describe it.
use nodepp.Prelude.{
  ℕ, suc, ◌<◌, ◌≡◌, ◌≢◌, refl, ap, ◌⊎◌, inl, inr, true, false, List, [], ◌∷◌, ◌++◌, length,
  length-append, arith,
}
use nodepp.Queue.{Node, Queue, is_valid, is_empty, empty_queue}
use nodepp.Queue.Seg.{Cell, head_or, last_or, Among, Distinct, Seg, Seg-split}

-- The cells of a queue from the first to the last; `fresh` is above every address in use.
pub record Chain {A : Type 0} (q : Queue A) (cells : List (Cell A)) : Type 0 where
  pub starts : q.fst ≡ head_or 0 cells
  pub ends : q.lst ≡ last_or 0 cells
  pub counted : q.size ≡ length cells
  pub linked : Seg q.nodes 0 cells 0
  pub distinct : Distinct cells
  pub used : (a : ℕ) → Among a cells → (0 < a) × (a < q.fresh)
  pub unused : 0 < q.fresh
  pub active : (q.act ≡ 0) ⊎ Among q.act cells

module _ {A : Type 0} where
  pub empty-Chain : (nodes : ℕ → Node A) → Chain (empty_queue nodes) []
  unfolding empty_queue
  empty-Chain nodes = record {
    starts = refl;
    ends = refl;
    counted = refl;
    linked = tt;
    distinct = tt;
    used = λ a i. absurd i;
    unused = omega arith;
    active = inl refl;
  }

  pub last_or-append :
      (d : ℕ) (xs : List (Cell A)) (c : Cell A) (ys : List (Cell A))
      → last_or d (xs ++ c ∷ ys) ≡ last_or d (c ∷ ys)
  last_or-append d [] (a, v) ys = refl
  last_or-append d ((b, w) ∷ xs) (a, v) ys = last_or-append b xs (a, v) ys

  pub last_or-Among : (d : ℕ) (cs : List (Cell A)) → cs ≢ [] → Among (last_or d cs) cs
  last_or-Among d [] ne = absurd (ne refl)
  last_or-Among d ((a, v) ∷ []) ne = inl refl
  last_or-Among d ((a, v) ∷ c ∷ cs) ne = inr (last_or-Among a (c ∷ cs) (λ e. absurd (cc)))

  pub length_middle :
      (xs ys : List (Cell A)) (c : Cell A) → length (xs ++ c ∷ ys) ≡ suc (length (xs ++ ys))
  length_middle xs ys c = omega (arith, length-append xs (c ∷ ys), length-append xs ys)

  -- The node of a cell in the chain.
  pub node_at :
      (nodes : ℕ → Node A) (xs ys : List (Cell A)) (n : ℕ) (w : A)
      → Seg nodes 0 (xs ++ (n, w) ∷ ys) 0
      → nodes n ≡ record { sign = true; next = head_or 0 ys; prev = last_or 0 xs; value = w }
  node_at nodes xs ys n w seg = (Seg-split nodes 0 xs ((n, w) ∷ ys) 0 seg).1.0

  pub not_empty :
      (q : Queue A) (c : Cell A) (cs : List (Cell A)) → Chain q (c ∷ cs) → is_empty q ≡ false
  not_empty q c cs chain = ground (arith, chain.counted)

  pub not_empty_middle :
      (q : Queue A) (xs ys : List (Cell A)) (c : Cell A)
      → Chain q (xs ++ c ∷ ys)
      → is_empty q ≡ false
  not_empty_middle q xs ys c chain = ground (arith, chain.counted, length_middle xs ys c)

  -- A node of the chain is valid.
  pub middle-valid :
      (q : Queue A) (xs ys : List (Cell A)) (n : ℕ) (w : A)
      → 0 < n
      → Chain q (xs ++ (n, w) ∷ ys)
      → is_valid q n ≡ true
  middle-valid q xs ys n w positive chain =
      let signed : (q.nodes n).sign ≡ true =
        ap Node.sign (node_at q.nodes xs ys n w chain.linked) in
      let ne = not_empty_middle q xs ys (n, w) chain in ground (arith, signed, ne)
