-- ===== src/Event.antt =====
-- include/nodepp/event.h: `event_t`, the listeners of an event and its emission. The queue of the
-- listeners is the list of their nodes' addresses and task flags (Queue has its memory); a callback
-- is what it does to the event while it runs and whether it returns -1.
pub mod Nodes
pub mod Running
pub mod Finish
pub mod Emit
pub mod Calls
pub mod Tests
use nodepp.Prelude.{
  ℕ, zero, suc, ◌+◌, bit_and, Bool, true, false, not, ◌&&◌, ◌||◌, List, [], ◌∷◌, ◌++◌, Option, none,
  some, ◌==◌, if◌then◌else◌,
}

-- A node of the queue and the flag of the task that stands for it.
pub record Listener : Type 0 where
  pub address : ℕ
  pub flag : ℕ

-- `tmp` is what is erased when the emission ends; the bits of `state` are the four Booleans.
pub record Event : Type 0 where
  pub que : List Listener
  pub tmp : List ℕ
  pub fresh : ℕ
  pub kill : Bool
  pub skip : Bool
  pub stop : Bool
  pub used : Bool

-- What a callback can do to the event that calls it.
pub data Action : Type 0 where
  add_one : Action
  off_one : ℕ → Action
  clear_all : Action
  stop_it : Action
  skip_it : Action
  resume_it : Action
  emit_it : Action

-- TASK_STATE::OPEN and TASK_STATE::CLOSED, and the bit that the emission tests.
abbrev pub task_open : ℕ
task_open = 0b001

abbrev pub task_closed : ℕ
task_closed = 0b100

abbrev pub ev_state_closed : ℕ
ev_state_closed = 0b1000

abbrev pub has : ℕ → ℕ → Bool
has flag bit = not (bit_and flag bit == 0)

abbrev pub find : ℕ → List Listener → Option Listener
find a [] = none
find a (l ∷ ls) = let rest = find a ls in if l.address == a then some l else rest

abbrev pub erase : ℕ → List Listener → List Listener
erase a [] = []
erase a (l ∷ ls) = let rest = erase a ls in if l.address == a then rest else l ∷ rest

-- `address->flag = TASK_STATE::CLOSED`
abbrev pub close : ℕ → List Listener → List Listener
close a [] = []
close a (l ∷ ls) = (if l.address == a then record l { flag = task_closed } else l) ∷ close a ls

abbrev pub next_of : ℕ → List Listener → ℕ
next_of a [] = 0
next_of a (l ∷ []) = 0
next_of a (l ∷ m ∷ ls) = let rest = next_of a (m ∷ ls) in if l.address == a then m.address else rest

abbrev pub first_of : List Listener → ℕ
first_of [] = 0
first_of (l ∷ ls) = l.address

-- `on`, `once` and `add` differ in what the callback returns.
pub add : Event → Event
add e = record e {
  que = e.que ++ record { address = e.fresh; flag = task_open } ∷ [];
  fresh = e.fresh + 1;
}

-- `clear( ptr_t<task_t> )`, for a task that is not null.
pub off : ℕ → Event → Event
off a e = elim (find a e.que) [
  | none ↦ e
  | some l ↦
      let closed = record e { que = close a e.que } in
      if has l.flag task_closed
      then e
      else if e.used
      then record closed { tmp = e.tmp ++ a ∷ [] }
      else record closed { que = erase a closed.que }
]

pub clear : Event → Event
clear e = if e.used then record e { kill = true } else record e { kill = false; que = [] }

abbrev pub is_empty : List Listener → Bool
is_empty [] = true
is_empty (l ∷ ls) = false

abbrev pub is_paused : Event → Bool
is_paused e = e.skip || e.stop

-- An emission inside of one finds the event in use and does nothing.
pub perform : Action → Event → Event
unfolding add off clear
perform add_one e = add e
perform (off_one a) e = off a e
perform clear_all e = clear e
perform stop_it e = record e { stop = true }
perform skip_it e = record e { skip = true }
perform resume_it e = record e { stop = false; skip = false }
perform emit_it e = e

pub perform_all : List Action → Event → Event
unfolding perform
perform_all [] e = e
perform_all (a ∷ rest) e = perform_all rest (perform a e)

-- How an emission ends: at the end of the queue, with the listeners that were called; at a node that
-- is not in the queue any more, which the source would read or erase all the same; or at the end of
-- the fuel.
pub data Result : Type 0 where
  done : Event → List ℕ → Result
  dangling : Result
  out_of_fuel : Event → List ℕ → Result

-- After a callback: at -1 its node is erased.
pub returned : Bool → ℕ → Event → Option Event
returned false x e = some e
returned true x e = elim (find x e.que) [
  | none ↦ none
  | some l ↦ some (record e { que = erase x e.que })
]

-- The loop from the listener `x` on: the listeners that were called are written to `called`. It may
-- go on for ever where each callback adds a listener, hence the fuel.
pub emit_loop : (ℕ → List Action × Bool) → ℕ → ℕ → Event → List ℕ → Result
unfolding perform_all returned
emit_loop react zero x e called = if x == 0 then done e called else out_of_fuel e called
emit_loop react (suc fuel) x e called =
    let y = next_of x e.que in
    let gone = emit_loop react fuel y (record e { que = erase x e.que }) called in
    let left : Result = elim (returned (react x).1 x (perform_all (react x).0 e)) [
      | none ↦ dangling
      | some after ↦ emit_loop react fuel y after (called ++ x ∷ [])
    ] in
    if x == 0 then done e called else elim (find x e.que) [
      | none ↦ dangling
      | some l ↦ if has l.flag ev_state_closed then gone else left
    ]

abbrev pub drop_last : List Listener → List Listener
drop_last [] = []
drop_last (l ∷ []) = []
drop_last (l ∷ m ∷ ls) = l ∷ drop_last (m ∷ ls)

-- `que.erase( que.as(item) )`: for an address that is no node any more, `as` gives null, at which
-- `erase` takes the last node.
abbrev pub erase_item : ℕ → List Listener → List Listener
erase_item a ls = elim (find a ls) [ none ↦ drop_last ls | some l ↦ erase a ls ]

abbrev pub erase_all : List ℕ → List Listener → List Listener
erase_all [] ls = ls
erase_all (a ∷ rest) ls = erase_all rest (erase_item a ls)

-- What follows the loop.
pub finish : Event → Event
unfolding clear
finish e =
    let done = record e { que = erase_all e.tmp e.que; tmp = []; used = false } in
    if done.kill then clear done else done

abbrev pub finished : Result → Result
finished (done e called) = done (finish e) called
finished dangling = dangling
finished (out_of_fuel e called) = out_of_fuel e called

pub emit : (ℕ → List Action × Bool) → ℕ → Event → Result
unfolding emit_loop finish
emit react fuel e =
    if is_paused e || e.used || is_empty e.que
    then done e []
    else finished (emit_loop react fuel (first_of e.que) (record e { used = true }) [])
