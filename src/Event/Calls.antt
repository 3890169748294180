-- ===== src/Event/Calls.antt =====
-- Which listeners an emission calls.
use nodepp.Prelude.{
  ℕ, zero, suc, ◌≡◌, ◌≢◌, refl, ap, ap₂, sym, ◌∙◌, inl, inr, Bool, true, false, All, List, [], ◌∷◌,
  ◌++◌, map, length, append_assoc, append-nil, Option, none, some, ◌==◌, if◌then◌else◌, Bool-cases,
  arith,
}
use nodepp.Event.{
  Event, Listener, Action, off_one, task_open, task_closed, ev_state_closed, has, find, erase,
  close, next_of, first_of, off, perform, perform_all, emit_loop, finish, emit, done, dangling,
  returned, finished,
}
use nodepp.Event.Finish.{item_found, item_missing}

-- An event with listeners at rest.
abbrev pub at_rest : List Listener → ℕ → Event
at_rest ls n = record {
  que = ls;
  tmp = [];
  fresh = n;
  kill = false;
  skip = false;
  stop = false;
  used = false;
}

abbrev pub open_at : ℕ → Listener
open_at a = record { address = a; flag = task_open }

-- The callback of the first listener takes the second one off.
abbrev pub takes_off : ℕ → ℕ → ℕ → List Action × Bool
takes_off a b x = if x == a then (off_one b ∷ [], false) else ([], false)

-- A round of the loop at a listener in the queue whose flag has no bit 8.
emit_round :
    (react : ℕ → List Action × Bool) (fuel x : ℕ) (e after : Event) (called : List ℕ) (l : Listener)
    → x ≢ 0
    → find x e.que ≡ some l
    → has l.flag ev_state_closed ≡ false
    → returned (react x).1 x (perform_all (react x).0 e) ≡ some after
    → emit_loop react (suc fuel) x e called
      ≡ emit_loop react fuel (next_of x e.que) after (called ++ x ∷ [])
unfolding emit_loop
emit_round react fuel x e after called l x0 h o back =
    let z : (x == 0) ≡ false = ground arith in
    rw (z, h)
      (rw o (
        ap
          (λ (r : Option Event). elim r [
            | none ↦ dangling
            | some later ↦ emit_loop react fuel (next_of x e.que) later (called ++ x ∷ [])
          ])
          back))

-- A node that returns -1 and is in the queue is erased.
returned-found :
    (x : ℕ) (e : Event) (l : Listener)
    → find x e.que ≡ some l
    → returned true x e ≡ some (record e { que = erase x e.que })
unfolding returned
returned-found x e l h =
    ap
      (λ (o : Option Listener). elim o [
        | none ↦ none
        | some l ↦ some (record e { que = erase x e.que })
      ])
      h

returned-stays : (x : ℕ) (e : Event) → returned false x e ≡ some e
unfolding returned
returned-stays x e = refl

-- Addresses that differ from each other and are not null.
abbrev pub Apart : List Listener → Type 0
Apart [] = Unit
Apart (l ∷ ls) = (l.address ≢ 0) × All (λ m. m.address ≢ l.address) ls × Apart ls

abbrev Without : ℕ → List Listener → Type 0
Without a = All (λ m. m.address ≢ a)

find_middle :
    (kept : List Listener) (l : Listener) (rest : List Listener)
    → Without l.address kept
    → find l.address (kept ++ l ∷ rest) ≡ some l
find_middle [] l rest w = let e : (l.address == l.address) ≡ true = ground arith in rw e refl
find_middle (k ∷ kept) l rest (d, w) =
    let e : (k.address == l.address) ≡ false = ground arith in rw e (find_middle kept l rest w)

next_middle :
    (kept : List Listener) (l : Listener) (rest : List Listener)
    → Without l.address kept
    → next_of l.address (kept ++ l ∷ rest) ≡ first_of rest
next_middle [] l [] w = refl
next_middle [] l (m ∷ rest) w = let e : (l.address == l.address) ≡ true = ground arith in rw e refl
next_middle (k ∷ []) l rest (d, w) =
    let e : (k.address == l.address) ≡ false = ground arith in rw e (next_middle [] l rest tt)
next_middle (k ∷ j ∷ kept) l rest (d, w) =
    let e : (k.address == l.address) ≡ false = ground arith in
    rw e (next_middle (j ∷ kept) l rest w)

erase-Without : (a : ℕ) (ls : List Listener) → Without a ls → erase a ls ≡ ls
erase-Without a [] w = refl
erase-Without a (l ∷ ls) (d, w) =
    let e : (l.address == a) ≡ false = ground arith in rw e (ap (◌∷◌ l) (erase-Without a ls w))

erase_middle :
    (kept : List Listener) (l : Listener) (rest : List Listener)
    → Without l.address kept
    → Without l.address rest
    → erase l.address (kept ++ l ∷ rest) ≡ kept ++ rest
erase_middle [] l rest w v =
    let e : (l.address == l.address) ≡ true = ground arith in rw e (erase-Without l.address rest v)
erase_middle (k ∷ kept) l rest (d, w) v =
    let e : (k.address == l.address) ≡ false = ground arith in
    rw e (ap (◌∷◌ k) (erase_middle kept l rest w v))

-- The listeners whose callback does not return -1.
pub staying : (ℕ → Bool) → List Listener → List Listener
staying gone [] = []
staying gone (l ∷ ls) = let rest = staying gone ls in if gone l.address then rest else l ∷ rest

Without-append :
    (a : ℕ) (ls : List Listener) (l : Listener)
    → Without a ls
    → l.address ≢ a
    → Without a (ls ++ l ∷ [])
Without-append a [] l w d = (d, tt)
Without-append a (k ∷ ls) l (e, w) d = (e, Without-append a ls l w d)

emit_done :
    (react : ℕ → List Action × Bool) (fuel : ℕ) (e : Event) (called : List ℕ)
    → emit_loop react fuel 0 e called ≡ done e called
unfolding emit_loop
emit_done react zero e called = refl
emit_done react (suc fuel) e called = refl

quiet_loop :
    (gone : ℕ → Bool) (kept rest : List Listener) (e : Event) (called : List ℕ)
    → Apart rest
    → All (λ m. (m.flag ≡ task_open) × Without m.address kept) rest
    → e.que ≡ kept ++ rest
    → emit_loop (λ x. ([], gone x)) (length rest) (first_of rest) e called
      ≡ done (record e { que = kept ++ staying gone rest }) (called ++ map Listener.address rest)
unfolding perform_all staying
quiet_loop gone kept [] e called apart h q =
    emit_done (λ x. ([], gone x)) 0 e called
    ∙ ap₂ (λ ls log. done (record e { que = ls }) log) q (sym (append-nil called))
quiet_loop gone kept (l ∷ rest) e called (l0, w, apart) ((o, v), h) q =
    let react : ℕ → List Action × Bool = λ x. ([], gone x) in
    let a = l.address in
    let opened : has l.flag ev_state_closed ≡ false = rw o refl in
    let log = append_assoc called (a ∷ []) (map Listener.address rest) in
    let erased : Event = record e { que = erase a e.que } in
    let next = ap (next_of a) q ∙ next_middle kept l rest v in
    let here = ap (find a) q ∙ find_middle kept l rest v in
    let round : (after : Event)
        → returned (gone a) a e ≡ some after
        → emit_loop react (suc (length rest)) a e called
          ≡ emit_loop react (length rest) (first_of rest) after (called ++ a ∷ []) =
      λ after back.
        emit_round react (length rest) a e after called l l0 here opened back
        ∙ ap (λ y. emit_loop react (length rest) y after (called ++ a ∷ [])) next in
    elim (Bool-cases (gone a)) [
      | inl b ↦ rw b (
          round erased (ap (λ t. returned t a e) b ∙ returned-found a e l here)
          ∙ quiet_loop gone kept rest erased (called ++ a ∷ []) apart h
              (ap (erase a) q ∙ erase_middle kept l rest v w)
          ∙ ap (λ us. done (record e { que = kept ++ staying gone rest }) us) log)
      | inr b ↦ rw b (
          round e (ap (λ t. returned t a e) b ∙ returned-stays a e)
          ∙ quiet_loop gone (kept ++ l ∷ []) rest e (called ++ a ∷ []) apart (apart_more rest h w)
              (q ∙ sym (append_assoc kept (l ∷ []) rest))
          ∙ ap₂ (λ ls us. done (record e { que = ls }) us)
              (append_assoc kept (l ∷ []) (staying gone rest)) log)
    ]
  where
    apart_more :
        (ms : List Listener)
        → All (λ m. (m.flag ≡ task_open) × Without m.address kept) ms
        → Without l.address ms
        → All (λ m. (m.flag ≡ task_open) × Without m.address (kept ++ l ∷ [])) ms
    apart_more [] h w = tt
    apart_more (m ∷ ms) ((o, v), h) (d, w) =
        ((o, Without-append m.address kept l v (λ e. d (sym e))), apart_more ms h w)

-- Of an event at rest whose listeners are open and have addresses that are not null and differ, an
-- emission to callbacks that do not touch the event ends, calls each listener once and in order,
-- and keeps those that do not return -1.
pub emit_quiet :
    (gone : ℕ → Bool) (ls : List Listener) (n : ℕ)
    → Apart ls
    → All (λ m. m.flag ≡ task_open) ls
    → emit (λ x. ([], gone x)) (length ls) (at_rest ls n)
      ≡ done (at_rest (staying gone ls) n) (map Listener.address ls)
unfolding emit finish staying
emit_quiet gone [] n apart h = refl
emit_quiet gone (l ∷ rest) n apart h = ap finished (
    quiet_loop gone [] (l ∷ rest) (record (at_rest (l ∷ rest) n) { used = true }) [] apart
      (alone (l ∷ rest) h) refl)
  where
    alone :
        (ms : List Listener)
        → All (λ m. m.flag ≡ task_open) ms
        → All (λ m. (m.flag ≡ task_open) × Without m.address []) ms
    alone [] h = tt
    alone (m ∷ ms) (o, h) = ((o, tt), alone ms h)

-- Of an event at rest with two open listeners at addresses that are not null and differ, of which
-- the first takes the second off while it runs, an emission calls both, and leaves the first.
pub emit_taken_off :
    (a b n : ℕ)
    → a ≢ 0
    → b ≢ 0
    → a ≢ b
    → emit (takes_off a b) 2 (at_rest (open_at a ∷ open_at b ∷ []) n)
      ≡ done (at_rest (open_at a ∷ []) n) (a ∷ b ∷ [])
unfolding emit perform_all perform off finish
emit_taken_off a b n a0 b0 ab =
    let aa : (a == a) ≡ true = ground arith in
    let bb : (b == b) ≡ true = ground arith in
    let ne : (a == b) ≡ false = ground arith in
    let en : (b == a) ≡ false = ground arith in
    let react = takes_off a b in
    let shut : Listener = record { address = b; flag = task_closed } in
    let begun : Event = record (at_rest (open_at a ∷ open_at b ∷ []) n) { used = true } in
    let later : Event = record begun { que = open_at a ∷ shut ∷ []; tmp = b ∷ [] } in
    let round : List Action × Bool → Event → ℕ → Option Event =
      λ r e x. returned r.1 x (perform_all r.0 e) in
    let at_a : find a begun.que ≡ some (open_at a) = rw aa refl in
    let at_b : find b later.que ≡ some shut = rw (ne, bb) refl in
    let to_b : next_of a begun.que ≡ b = rw aa refl in
    let to_end : next_of b later.que ≡ 0 = rw ne refl in
    let of_a : react a ≡ (off_one b ∷ [], false) = rw aa refl in
    let of_b : react b ≡ ([], false) = rw en refl in
    let found : find b begun.que ≡ some (open_at b) = rw (ne, bb) refl in
    let closed : close b begun.que ≡ open_at a ∷ shut ∷ [] = rw (ne, bb) refl in
    let taken : off b begun ≡ later =
      rw (found, off)
        (ap (λ (ls : List Listener). record begun { que = ls; tmp = b ∷ [] }) closed) in
    let first_round : round (react a) begun a ≡ some later =
      ap (λ r. round r begun a) of_a ∙ returned-stays a (off b begun) ∙ ap some taken in
    let second_round : round (react b) later b ≡ some later =
      ap (λ r. round r later b) of_b ∙ returned-stays b later in
    let shut_one : find b later.que ≡ some shut = rw (ne, bb) refl in
    let left : erase b later.que ≡ open_at a ∷ [] = rw (ne, bb) refl in
    let ends : finish later ≡ at_rest (open_at a ∷ []) n =
      ap (λ ls. at_rest ls n) (item_found b later.que shut shut_one ∙ left) in
    let looped : emit_loop react 2 a begun [] ≡ done later (a ∷ b ∷ []) =
      emit_round react 1 a begun later [] (open_at a) a0 at_a refl first_round
      ∙ ap (λ y. emit_loop react 1 y later (a ∷ [])) to_b
      ∙ emit_round react 0 b later later (a ∷ []) shut b0 at_b refl second_round
      ∙ ap (λ y. emit_loop react 0 y later (a ∷ b ∷ [])) to_end
      ∙ emit_done react 0 later (a ∷ b ∷ []) in
    ap finished looped ∙ ap (λ e. done e (a ∷ b ∷ [])) ends

-- The callback of the first listener takes itself off and returns -1.
abbrev pub ends_itself : ℕ → ℕ → List Action × Bool
ends_itself a x = if x == a then (off_one a ∷ [], true) else ([], false)

-- Of an event at rest with two open listeners at addresses that are not null and differ, of which
-- the first takes itself off and returns -1, an emission leaves no listener: the second is erased
-- too.
pub emit-ends_itself :
    (a b n : ℕ)
    → a ≢ 0
    → b ≢ 0
    → a ≢ b
    → emit (ends_itself a) 2 (at_rest (open_at a ∷ open_at b ∷ []) n)
      ≡ done (at_rest [] n) (a ∷ b ∷ [])
unfolding emit perform_all perform off finish
emit-ends_itself a b n a0 b0 ab =
    let aa : (a == a) ≡ true = ground arith in
    let bb : (b == b) ≡ true = ground arith in
    let en : (b == a) ≡ false = ground arith in
    let react = ends_itself a in
    let shut : Listener = record { address = a; flag = task_closed } in
    let begun : Event = record (at_rest (open_at a ∷ open_at b ∷ []) n) { used = true } in
    let marked : Event = record begun { que = shut ∷ open_at b ∷ []; tmp = a ∷ [] } in
    let later : Event = record marked { que = open_at b ∷ [] } in
    let round : List Action × Bool → Event → ℕ → Option Event =
      λ r e x. returned r.1 x (perform_all r.0 e) in
    let at_a : find a begun.que ≡ some (open_at a) = rw aa refl in
    let at_b : find b later.que ≡ some (open_at b) = rw bb refl in
    let to_b : next_of a begun.que ≡ b = rw aa refl in
    let of_a : react a ≡ (off_one a ∷ [], true) = rw aa refl in
    let of_b : react b ≡ ([], false) = rw en refl in
    let closed : close a begun.que ≡ shut ∷ open_at b ∷ [] = rw (aa, en) refl in
    let erased : erase a marked.que ≡ open_at b ∷ [] = rw (aa, en) refl in
    let taken : off a begun ≡ marked =
      rw (at_a, off)
        (ap (λ (ls : List Listener). record begun { que = ls; tmp = a ∷ [] }) closed) in
    let at_shut : find a marked.que ≡ some shut = rw aa refl in
    let first_round : round (react a) begun a ≡ some later =
      ap (λ r. round r begun a) of_a
      ∙ ap (returned true a) taken
      ∙ returned-found a marked shut at_shut
      ∙ ap (λ (ls : List Listener). some (record marked { que = ls })) erased in
    let second_round : round (react b) later b ≡ some later =
      ap (λ r. round r later b) of_b ∙ returned-stays b later in
    let none_left : find a later.que ≡ none = rw en refl in
    let ends : finish later ≡ at_rest [] n =
      ap (λ ls. at_rest ls n) (item_missing a later.que none_left) in
    let looped : emit_loop react 2 a begun [] ≡ done later (a ∷ b ∷ []) =
      emit_round react 1 a begun later [] (open_at a) a0 at_a refl first_round
      ∙ ap (λ y. emit_loop react 1 y later (a ∷ [])) to_b
      ∙ emit_round react 0 b later later (a ∷ []) (open_at b) b0 at_b refl second_round
      ∙ emit_done react 0 later (a ∷ b ∷ []) in
    ap finished looped ∙ ap (λ e. done e (a ∷ b ∷ [])) ends
