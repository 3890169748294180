-- ===== src/Queue/Holds.antt =====
-- The list that a queue stands for, its nodes forgotten: what a client of the queue relies on.
use nodepp.Prelude.{ℕ, ◌≡◌, refl, ap, sym, ◌∙◌, List, [], ◌∷◌, ◌++◌, map, length, length-map}
use nodepp.Queue.{Node, Queue, push, unshift, empty_queue}
use nodepp.Queue.Seg.{Cell}
use nodepp.Queue.Chain.{Chain, empty-Chain}
use nodepp.Queue.Insert.Last.{push-Chain, unshift-Chain}
use nodepp.Queue.Walk.{data_of, data_of-values, clear, clear-Chain}

pub record Holds {A : Type 0} (q : Queue A) (vs : List A) : Type 0 where
  pub cells : List (Cell A)
  pub chain : Chain q cells
  pub shows : map (λ c. c.1) cells ≡ vs

module _ {A : Type 0} where
  map-append :
      (xs ys : List (Cell A)) → map (λ c. c.1) (xs ++ ys) ≡ map (λ c. c.1) xs ++ map (λ c. c.1) ys
  map-append [] ys = refl
  map-append (x ∷ xs) ys = ap (◌∷◌ x.1) (map-append xs ys)

  pub empty-Holds : (nodes : ℕ → Node A) → Holds (empty_queue nodes) []
  empty-Holds nodes = record { cells = []; chain = empty-Chain nodes; shows = refl }

  pub push-Holds :
      (q : Queue A) (vs : List A) (v : A) → Holds q vs → Holds (push q v) (vs ++ v ∷ [])
  push-Holds q vs v h = record {
    cells = h.cells ++ (q.fresh, v) ∷ [];
    chain = push-Chain q h.cells v h.chain;
    shows = map-append h.cells ((q.fresh, v) ∷ []) ∙ ap (λ us. us ++ v ∷ []) h.shows;
  }

  pub unshift-Holds :
      (q : Queue A) (vs : List A) (v : A) → Holds q vs → Holds (unshift q v) (v ∷ vs)
  unshift-Holds q vs v h = record {
    cells = (q.fresh, v) ∷ h.cells;
    chain = unshift-Chain q h.cells v h.chain;
    shows = ap (◌∷◌ v) h.shows;
  }

  pub data_of-Holds : (q : Queue A) (vs : List A) → Holds q vs → data_of q ≡ vs
  data_of-Holds q vs h = data_of-values q h.cells h.chain ∙ h.shows

  pub size-Holds : (q : Queue A) (vs : List A) → Holds q vs → q.size ≡ length vs
  size-Holds q vs h =
      let n = length-map h.cells (λ (c : Cell A). c.1) in
      h.chain.counted ∙ sym n ∙ ap length h.shows

  pub clear-Holds : (q : Queue A) (vs : List A) → Holds q vs → Holds (clear q) []
  clear-Holds q vs h = record { cells = []; chain = clear-Chain q h.cells h.chain; shows = refl }
