-- ===== src/HashMap.antt =====
-- include/nodepp/map.h: `map_t`, a tree of key bits over a table of buckets. A queue is the list of
-- its cells, each an address and what stands there, as a chain of a queue describes it.
pub mod Assoc
pub mod Address
pub mod Buckets
pub mod Scan
pub mod Cases
pub mod Valid
pub mod Look
pub mod Append
pub mod Refines
pub mod Values
pub mod Keys
pub mod Tests
use nodepp.Prelude.{
  ℕ, zero, suc, ◌+◌, ◌-◌, ◌%◌, ◌/◌, Bool, true, false, not, List, [], ◌∷◌, ◌++◌, Option, none, some,
  ◌==◌, if◌then◌else◌, length, get_or, set, map,
}

-- `NODE`: nil is `nullptr`, and a value of 0 too.
pub data Trie : Type 0 where
  nil : Trie
  node : Trie → Trie → ℕ → Trie

-- What `get_address` returns, 0 for `nullptr`, with the tree and the table that it leaves.
pub record Found : Type 0 where
  pub address : ℕ
  pub trie : Trie
  pub table : List (List ℕ)

-- The end of the walk: a node with no bucket gets a new one, in search mode too.
abbrev pub own : List (List ℕ) → Trie → Trie → ℕ → Found
own table l r zero =
    let a = length table + 1 in record { address = a; trie = node l r a; table = table ++ [] ∷ [] }
own table l r (suc p) = record { address = suc p; trie = node l r (suc p); table = table }

-- One step of the walk: a child that is missing ends a search, and is made otherwise.
abbrev pub child : Bool → List (List ℕ) → Trie → (Trie → Trie → ℕ → Found) → Found
child true table nil walk = record { address = 0; trie = nil; table = table }
child false table nil walk = walk nil nil 0
child search table (node l r v) walk = walk l r v

abbrev pub put_left : Trie → ℕ → Found → Found
put_left r v found = record found { trie = node found.trie r v }

abbrev pub put_right : Trie → ℕ → Found → Found
put_right l v found = record found { trie = node l found.trie v }

-- The body of the loop: no bit is left, the lowest bit is 0, or it is 1.
abbrev pub turn :
    Bool → Bool → Bool → List (List ℕ) → Trie → Trie → ℕ → (Trie → Trie → ℕ → Found) → Found
turn true even search table l r v next = own table l r v
turn false true search table l r v next = put_left r v (child search table l next)
turn false false search table l r v next = put_right l v (child search table r next)

-- The loop over the bits of the key, the lowest first.
unfoldable pub get_address_loop : ℕ → Bool → ℕ → List (List ℕ) → Trie → Trie → ℕ → Found
get_address_loop zero search key table l r v = own table l r v
get_address_loop (suc n) search key table l r v =
    turn (key == 0) (key % 2 == 0) search table l r v (get_address_loop n search (key / 2) table)

-- A key has 64 bits.
unfoldable pub get_address : Bool → ℕ → List (List ℕ) → Trie → Found
unfolding get_address_loop
get_address search key table root = child search table root (get_address_loop 64 search key table)

-- The bucket at an address.
abbrev pub bucket : List (List ℕ) → ℕ → List ℕ
bucket table zero = []
bucket table (suc p) = get_or table p []

abbrev pub set_bucket : List (List ℕ) → ℕ → List ℕ → List (List ℕ)
set_bucket table zero que = table
set_bucket table (suc p) que = set table p que

pub record Pair (U V : Type 0) : Type 0 where
  pub first : U
  pub second : V

pub record Map (U V : Type 0) : Type 0 where
  pub root : Trie
  pub table : List (List ℕ)
  pub queue : List (ℕ × Pair U V)
  pub fresh : ℕ

abbrev pub empty_map : {U V : Type 0} → Map U V
empty_map = record { root = node nil nil 0; table = []; queue = []; fresh = 1 }

-- `que.erase( n )`: the cell of the bucket that the walk stopped at.
unfoldable pub erase_from : ℕ → List ℕ → List ℕ
erase_from a [] = []
erase_from a (b ∷ que) = if b == a then que else b ∷ erase_from a que

module _ {U V : Type 0} where
  -- `queue.as`
  unfoldable pub item_as : ℕ → List (ℕ × Pair U V) → Option (Pair U V)
  item_as a [] = none
  item_as a ((b, pair) ∷ queue) = if b == a then some pair else item_as a queue

  abbrev pub second_of : Option (Pair U V) → Option V
  second_of none = none
  second_of (some itm) = some itm.second

  abbrev pub value_at : ℕ → List (ℕ × Pair U V) → Option V
  value_at a queue = second_of (item_as a queue)

  unfoldable pub set_second : ℕ → V → List (ℕ × Pair U V) → List (ℕ × Pair U V)
  set_second a v [] = []
  set_second a v ((b, pair) ∷ queue) =
      if b == a then (b, record pair { second = v }) ∷ queue else (b, pair) ∷ set_second a v queue

  -- The cell that a walk stopped at gets a new value.
  abbrev pub update : Option ℕ → V → List (ℕ × Pair U V) → List (ℕ × Pair U V)
  update none v queue = queue
  update (some a) v queue = set_second a v queue

  -- `queue.erase` of a cell.
  unfoldable pub erase_cell : ℕ → List (ℕ × Pair U V) → List (ℕ × Pair U V)
  erase_cell a [] = []
  erase_cell a ((b, pair) ∷ queue) = if b == a then queue else (b, pair) ∷ erase_cell a queue

  -- What `get_address` leaves.
  abbrev pub visit : Map U V → Found → Map U V
  visit m found = record m { root = found.trie; table = found.table }

  -- `queue.erase( itm )`, then `que.erase( n )`.
  abbrev pub erase_found : Map U V → Found → Option ℕ → Map U V
  erase_found m found none = visit m found
  erase_found m found (some a) =
      let que = erase_from a (bucket found.table found.address) in
      record m {
        root = found.trie;
        table = set_bucket found.table found.address que;
        queue = erase_cell a m.queue;
      }

  abbrev pub size : Map U V → ℕ
  size m = length m.queue

  abbrev pub is_empty : Map U V → Bool
  is_empty m = size m == 0

  abbrev pub data_of : Map U V → List (Pair U V)
  data_of m = map (λ c. c.1) m.queue

  abbrev pub keys : Map U V → List U
  keys m = map (λ c. c.1.first) m.queue

  -- `erase()`: every bucket stays in the table, empty.
  unfoldable pub erase_all : Map U V → Map U V
  erase_all m = record m { table = map (λ que. []) m.table; queue = [] }

abbrev pub is_some : Option ℕ → Bool
is_some none = false
is_some (some a) = true

module _ {U V : Type 0} (equal : U → U → Bool) where
  -- The walk along a bucket: the first cell of the queue with the key.
  unfoldable pub scan : U → List (ℕ × Pair U V) → List ℕ → Option ℕ
  unfolding item_as
  scan id queue [] = none
  scan id queue (a ∷ que) = elim (item_as a queue) [
    | none ↦ none
    | some itm ↦ if equal itm.first id then some a else scan id queue que
  ]

-- The operations, for a type of keys with its `get_key` and its `==`.
module _ {U V : Type 0} (get_key : U → ℕ) (equal : U → U → Bool) where
  -- The bucket of a key, and the tree and the table after `get_address`.
  abbrev pub look : Bool → U → Map U V → Found
  look search id m = get_address search (get_key id) m.table m.root

  unfoldable pub append : Pair U V → Map U V → Map U V
  append pair m =
      let found = look false (pair.first) m in
      let que = bucket found.table found.address in
      let queue = update (scan equal (pair.first) m.queue que) (pair.second) m.queue in
      record {
        root = found.trie;
        table = set_bucket found.table found.address (que ++ m.fresh ∷ []);
        queue = queue ++ (m.fresh, pair) ∷ [];
        fresh = m.fresh + 1;
      }

  -- `map_t( const T (&args) [N] )`
  unfoldable pub from_pairs : List (Pair U V) → Map U V → Map U V
  unfolding append
  from_pairs [] m = m
  from_pairs (x ∷ args) m = from_pairs args (append x m)

  -- `operator[]`: the cell whose value the reference is of. `v` is `V()`.
  abbrev pub index_from : V → U → Map U V → Option ℕ → ℕ × Map U V
  index_from v id m none = (m.fresh, append (record { first = id; second = v }) m)
  index_from v id m (some a) = (a, m)

  unfoldable pub index : V → U → Map U V → ℕ × Map U V
  index v id m =
      let found = look false id m in
      let n = scan equal id m.queue (bucket found.table found.address) in
      index_from v id (visit m found) n

  -- `map[id] = x`
  unfoldable pub assign : V → U → V → Map U V → Map U V
  unfolding index set_second
  assign v id x m =
      let (a, after) = index v id m in record after { queue = set_second a x after.queue }

  -- `map[id]` read.
  unfoldable pub value : V → U → Map U V → Option V
  unfolding index
  value v id m = let (a, after) = index v id m in value_at a after.queue

  unfoldable pub has : U → Map U V → Bool × Map U V
  has id m =
      let found = look true id m in
      (is_some (scan equal id m.queue (bucket found.table found.address)), visit m found)

  unfoldable pub erase : U → Map U V → Map U V
  erase id m =
      let found = look true id m in
      erase_found m found (scan equal id m.queue (bucket found.table found.address))

  -- `erase( void* node )`
  unfoldable pub erase_node : ℕ → Map U V → Map U V
  unfolding item_as erase
  erase_node a m = elim (item_as a m.queue) [ none ↦ m | some itm ↦ erase (itm.first) m ]
