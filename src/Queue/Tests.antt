-- ===== src/Queue/Tests.antt =====
-- Runs of the operations of queues on a queue of two nodes.
use nodepp.Prelude.{ℕ, ◌≡◌, refl, false, List, [], ◌∷◌, map}
use nodepp.Queue.{Node, Queue, is_valid, empty_queue, insert, push, erase}
use nodepp.Queue.Seg.{Cell}
use nodepp.Queue.Chain.{Chain, empty-Chain}
use nodepp.Queue.Insert.{insert_before-Chain}
use nodepp.Queue.Insert.Last.{push-Chain}
use nodepp.Queue.Erase.Kept.{erase-Chain}
use nodepp.Queue.Walk.{data_of, data_of-values}

abbrev memory : ℕ → Node ℕ
memory a = record { sign = false; next = 0; prev = 0; value = 0 }

two : Queue ℕ
unfolding push empty_queue
two = push (push (empty_queue memory) 7) 8

abbrev two_cells : List (Cell ℕ)
two_cells = (1, 7) ∷ (2, 8) ∷ []

two-Chain : Chain two two_cells
unfolding two push insert empty_queue
two-Chain =
    push-Chain (push (empty_queue memory) 7) ((1, 7) ∷ []) 8
      (push-Chain (empty_queue memory) [] 7 (empty-Chain memory))

-- A node of another queue, or none at all.
two_invalid : is_valid two 5 ≡ false
unfolding two push insert empty_queue
two_invalid = refl

insert_before-Chain_example : Chain (insert two 2 9) ((1, 7) ∷ (3, 9) ∷ (2, 8) ∷ [])
unfolding two push insert empty_queue
insert_before-Chain_example = insert_before-Chain two ((1, 7) ∷ []) [] 2 8 9 two-Chain

erase-Chain_example : Chain (erase two 1) ((2, 8) ∷ [])
erase-Chain_example = erase-Chain two [] ((2, 8) ∷ []) 1 7 two-Chain

data_of-values_example : data_of two ≡ map (λ c. c.1) two_cells
data_of-values_example = data_of-values two two_cells two-Chain
