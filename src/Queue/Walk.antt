-- ===== src/Queue/Walk.antt =====
-- The operations of `queue_t` that follow the links from the first node.
use native.Mathlib.Nat.{mod-eq_of_lt}
use nodepp.Array
use nodepp.Prelude.{
  ℕ, zero, suc, ◌%◌, ◌≤◌, ◌<◌, ◌≡◌, refl, ap, ap₂, sym, ◌∙◌, subst, inl, inr, Bool, false, List, [],
  ◌∷◌, ◌++◌, map, ◌==◌, ==_iff, if◌then◌else◌, length, length-append, arith,
}
use nodepp.Prelude.Int.{ℤ, negsuc}
use nodepp.Queue.{Node, Queue, is_empty, first, pop}
use nodepp.Queue.Seg.{Cell, head_or, Among, Seg}
use nodepp.Queue.Chain.{Chain, not_empty_middle}
use nodepp.Queue.Erase.Kept.{pop-Chain}

module _ {A : Type 0} where
  -- `while( n!=nullptr ){ … n->data …; n = n->next; }`, with fuel for the nodes.
  pub walk : ℕ → (ℕ → Node A) → ℕ → List A
  walk zero nodes n = []
  walk (suc fuel) nodes n =
      let rest = walk fuel nodes (nodes n).next in if n == 0 then [] else (nodes n).value ∷ rest

  -- The values that a walk from the first node meets: with fuel for the nodes, all of them.
  pub values : Queue A → List A
  unfolding walk
  values q = walk q.size q.nodes (first q)

  pub data_of : Queue A → List A
  unfolding values
  data_of q = if is_empty q then [] else values q

  pub index_of : (A → Bool) → Queue A → ℤ
  unfolding values
  index_of f q = if is_empty q then negsuc 0 else Array.index_of f (values q)

  -- Unlike those of arrays, `none` and `every` fail on an empty queue.
  pub some_of : (A → Bool) → Queue A → Bool
  unfolding values
  some_of f q = if is_empty q then false else Array.some_of f (values q)

  pub none_of : (A → Bool) → Queue A → Bool
  unfolding values
  none_of f q = if is_empty q then false else Array.none_of f (values q)

  pub every : (A → Bool) → Queue A → Bool
  unfolding values
  every f q = if is_empty q then false else Array.every f (values q)

  -- `while( n != nullptr && y--!=0 ){ n=n->next; }`
  get_loop : ℕ → (ℕ → Node A) → ℕ → ℕ
  get_loop zero nodes n = n
  get_loop (suc y) nodes n =
      let later = get_loop y nodes (nodes n).next in if n == 0 then n else later

  pub get : Queue A → ℕ → ℕ
  unfolding get_loop
  get q x = if is_empty q then 0 else get_loop (x % q.size) q.nodes (first q)

  -- `while( !empty() ){ pop(); }`
  pub clear_loop : ℕ → Queue A → Queue A
  unfolding pop
  clear_loop zero q = q
  clear_loop (suc fuel) q = let rest = clear_loop fuel (pop q) in if is_empty q then q else rest

  pub clear : Queue A → Queue A
  unfolding clear_loop
  clear q = clear_loop q.size q

  walk-values :
      (nodes : ℕ → Node A) (p : ℕ) (cells : List (Cell A)) (fuel : ℕ)
      → length cells ≤ fuel
      → ((a : ℕ) → Among a cells → 0 < a)
      → Seg nodes p cells 0
      → walk fuel nodes (head_or 0 cells) ≡ map (λ c. c.1) cells
  unfolding walk
  walk-values nodes p [] zero enough positive seg = refl
  walk-values nodes p [] (suc fuel) enough positive seg = refl
  walk-values nodes p (c ∷ cs) zero enough positive seg = absurd (omega arith)
  walk-values nodes p ((a, v) ∷ cs) (suc fuel) enough positive (e, seg) =
      let test : (a == 0) ≡ false = ground (arith, positive a (inl refl)) in
      rw test (
        ap₂ ◌∷◌ (ap Node.value e) (
          ap (walk fuel nodes) (ap Node.next e)
          ∙ walk-values nodes a cs fuel (omega arith) (λ b i. positive b (inr i)) seg))

  -- Of a queue whose nodes form a chain, data returns the values of the nodes in the order of the
  -- chain.
  pub data_of-values :
      (q : Queue A) (cells : List (Cell A)) → Chain q cells → data_of q ≡ map (λ c. c.1) cells
  unfolding data_of values
  data_of-values q [] chain = rw ((==_iff q.size 0).1 chain.counted) refl
  data_of-values q (c ∷ cs) chain =
      let test : is_empty q ≡ false = ground (arith, chain.counted) in
      rw test (
        ap (walk q.size q.nodes) chain.starts
        ∙ walk-values q.nodes 0 (c ∷ cs) q.size (omega (arith, chain.counted))
            (λ a i. (chain.used a i).0) chain.linked)

  get_loop-at :
      (nodes : ℕ → Node A) (p : ℕ) (xs : List (Cell A)) (c : Cell A) (ys : List (Cell A))
      → ((a : ℕ) → Among a (xs ++ c ∷ ys) → 0 < a)
      → Seg nodes p (xs ++ c ∷ ys) 0
      → get_loop (length xs) nodes (head_or 0 (xs ++ c ∷ ys)) ≡ c.0
  unfolding get_loop
  get_loop-at nodes p [] (a, v) ys positive seg = refl
  get_loop-at nodes p ((b, w) ∷ xs) c ys positive (e, seg) =
      let test : (b == 0) ≡ false = ground (arith, positive b (inl refl)) in
      rw test (
        ap (get_loop (length xs) nodes) (ap Node.next e)
        ∙ get_loop-at nodes b xs c ys (λ a i. positive a (inr i)) seg)

  pub get_at :
      (q : Queue A) (xs : List (Cell A)) (n : ℕ) (w : A) (ys : List (Cell A))
      → Chain q (xs ++ (n, w) ∷ ys)
      → get q (length xs) ≡ n
  unfolding get
  get_at q xs n w ys chain =
      let inside : length xs % q.size ≡ length xs =
        mod-eq_of_lt (omega (arith, chain.counted, length-append xs ((n, w) ∷ ys))) in
      rw (not_empty_middle q xs ys (n, w) chain, inside, chain.starts)
        (get_loop-at q.nodes 0 xs (n, w) ys (λ a i. (chain.used a i).0) chain.linked)

  -- The last cell of a chain of `n + 1` cells.
  unsnoc :
      (c : Cell A) (cs : List (Cell A))
      → (xs : List (Cell A)) × (d : Cell A) × (c ∷ cs ≡ xs ++ d ∷ [])
  unsnoc c [] = ([], c, refl)
  unsnoc c (d ∷ cs) = let (xs, e, h) = unsnoc d cs in (c ∷ xs, e, ap (◌∷◌ c) h)

  clear_loop-Chain :
      (fuel : ℕ) (q : Queue A) (cells : List (Cell A))
      → length cells ≡ fuel
      → Chain q cells
      → Chain (clear_loop fuel q) []
  unfolding clear_loop
  clear_loop-Chain zero q [] e chain = chain
  clear_loop-Chain zero q (c ∷ cs) e chain = absurd (omega arith)
  clear_loop-Chain (suc fuel) q [] e chain = absurd (omega arith)
  clear_loop-Chain (suc fuel) q (c ∷ cs) e chain =
      let (xs, (n, w), h) = unsnoc c cs in
      let test : is_empty q ≡ false = ground (arith, chain.counted) in
      let popped = pop-Chain q xs n w (subst (λ k. Chain q k) h chain) in
      let fewer : length xs ≡ fuel =
        omega (arith, e, ap length h, length-append xs ((n, w) ∷ [])) in
      subst (λ k. Chain k []) (sym (taken q (clear_loop fuel (pop q)) (is_empty q) test))
        (clear_loop-Chain fuel (pop q) xs fewer popped)
    where
      taken : (x y : Queue A) (e : Bool) → e ≡ false → (if e then x else y) ≡ y
      taken x y e he = rw he refl

  -- Of a queue whose nodes form a chain, clear, which pops while the queue is not empty, ends with
  -- no node.
  pub clear-Chain : (q : Queue A) (cells : List (Cell A)) → Chain q cells → Chain (clear q) []
  unfolding clear
  clear-Chain q cells chain = clear_loop-Chain q.size q cells (sym chain.counted) chain
