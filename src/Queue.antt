-- ===== src/Queue.antt =====
-- include/nodepp/queue.h: `queue_t`, a doubly linked list whose nodes carry the mark of their queue.
-- A node is an address, 0 is `nullptr`, and the queue's part of the memory is a function of addresses.
-- `new` takes the next address that was never used.
pub mod Walk
pub mod Holds
pub mod Seg
pub mod Chain
pub mod Insert
pub mod Erase
pub mod Tests
use nodepp.Prelude.{
  ℕ, zero, suc, ◌+◌, ◌-◌, ◌%◌, Bool, true, false, not, ◌&&◌, ◌||◌, List, [], ◌∷◌, ◌==◌,
  if◌then◌else◌,
}

-- `sign` says that the node's sign is the queue's address.
pub record Node (A : Type 0) : Type 0 where
  pub sign : Bool
  pub next : ℕ
  pub prev : ℕ
  pub value : A

pub record Queue (A : Type 0) : Type 0 where
  pub fst : ℕ
  pub act : ℕ
  pub lst : ℕ
  pub size : ℕ
  pub fresh : ℕ
  pub nodes : ℕ → Node A

module _ {A : Type 0} where
  -- A store to the node at an address.
  abbrev pub write : (ℕ → Node A) → ℕ → Node A → ℕ → Node A
  write nodes a node b = if b == a then node else nodes b

  abbrev pub set_next : (ℕ → Node A) → ℕ → ℕ → ℕ → Node A
  set_next nodes a target = write nodes a (record (nodes a) { next = target })

  abbrev pub set_prev : (ℕ → Node A) → ℕ → ℕ → ℕ → Node A
  set_prev nodes a target = write nodes a (record (nodes a) { prev = target })

  -- `if( a!= nullptr ){ a->next = target; }`
  abbrev pub link_next : (ℕ → Node A) → ℕ → ℕ → ℕ → Node A
  link_next nodes a target = if a == 0 then nodes else set_next nodes a target

  abbrev pub link_prev : (ℕ → Node A) → ℕ → ℕ → ℕ → Node A
  link_prev nodes a target = if a == 0 then nodes else set_prev nodes a target

  abbrev pub is_empty : Queue A → Bool
  is_empty q = q.size == 0

  abbrev pub first : Queue A → ℕ
  first q = q.fst

  abbrev pub last : Queue A → ℕ
  last q = if q.lst == 0 then first q else q.lst

  abbrev pub is_valid : Queue A → ℕ → Bool
  is_valid q a = not (is_empty q || a == 0) && (q.nodes a).sign

  -- The three branches of `insert( NODE*, const V& )`.
  abbrev pub insert_first : Queue A → A → Queue A
  insert_first q value = record q {
    fst = q.fresh;
    lst = q.fresh;
    nodes = write q.nodes q.fresh (record { sign = true; next = 0; prev = 0; value = value });
  }

  abbrev pub insert_before : Queue A → ℕ → A → Queue A
  insert_before q n value =
      let m = q.fresh in
      let before = (q.nodes n).prev in
      let made = write q.nodes m (record { sign = true; next = 0; prev = before; value = value }) in
      let linked = link_next made before m in
      record q {
        fst = if before == 0 then m else q.fst;
        lst = if (q.nodes n).next == 0 then n else q.lst;
        nodes = set_prev (set_next linked m n) n m;
      }

  abbrev pub insert_last : Queue A → A → Queue A
  insert_last q value =
      let m = q.fresh in
      let n = last q in
      let made = write q.nodes m (record { sign = true; next = 0; prev = n; value = value }) in
      record q {
        fst = if (q.nodes n).prev == 0 then n else q.fst;
        lst = m;
        nodes = set_next made n m;
      }

  pub insert : Queue A → ℕ → A → Queue A
  insert q n value =
      let done =
        if is_empty q
        then insert_first q value
        else if is_valid q n
        then insert_before q n value
        else insert_last q value in
      record done { size = q.size + 1; fresh = q.fresh + 1 }

  pub push : Queue A → A → Queue A
  unfolding insert
  push q value = insert q 0 value

  pub unshift : Queue A → A → Queue A
  unfolding insert
  unshift q value = insert q (first q) value

  -- `obj->act` one on, round the end.
  abbrev pub next : Queue A → Queue A
  next q = if is_empty q then q else record q {
    act =
        if q.act == 0
        then first q
        else if (q.nodes q.act).next == 0
        then first q
        else (q.nodes q.act).next;
  }

  -- The node is taken out of the chain, loses its sign and is deleted.
  abbrev pub unlink : Queue A → ℕ → Queue A
  unlink q n =
      let node = q.nodes n in
      let ends = record q {
        lst = if node.next == 0 then node.prev else q.lst;
        fst = if node.prev == 0 then node.next else q.fst;
      } in
      let moved = if n == q.act then next ends else ends in
      let linked = link_prev (link_next q.nodes node.prev node.next) node.next node.prev in
      record moved {
        size = q.size - 1;
        nodes = write linked n (record node { sign = false; next = 0; prev = 0 });
      }

  pub erase : Queue A → ℕ → Queue A
  erase q n =
      if is_empty q
      then q
      else if n == 0
      then unlink q (last q)
      else if is_valid q n
      then unlink q n
      else q

  pub shift : Queue A → Queue A
  unfolding erase
  shift q = erase q (first q)

  pub pop : Queue A → Queue A
  unfolding erase
  pop q = erase q 0

  -- A queue with no node.
  pub empty_queue : (ℕ → Node A) → Queue A
  empty_queue nodes = record { fst = 0; act = 0; lst = 0; size = 0; fresh = 1; nodes = nodes }
