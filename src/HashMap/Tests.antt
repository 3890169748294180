-- ===== src/HashMap/Tests.antt =====
-- Runs of the functions on maps.
use nodepp.Prelude.{ℕ, ◌≡◌, refl, [], ◌∷◌, ◌==◌, ◌++◌, false, some, if◌then◌else◌, ==_iff}
use nodepp.HashMap.{
  Pair, Map, empty_map, append, assign, value, has, erase, erase_node, index, scan, get_address,
  get_address_loop, set_second, item_as, erase_cell, erase_from, from_pairs, keys,
}
use nodepp.HashMap.Assoc.{contains, assoc_set, assoc_erase}
use nodepp.HashMap.Keys.{integral_key, integral_key-IsKey}
use nodepp.HashMap.Valid.{IsValid}
use nodepp.HashMap.Append.{append-pairs}
use nodepp.HashMap.Refines.{
  has-contains, assign-assoc_set, assign-IsValid, erase-assoc_erase, erase-IsValid,
}
use nodepp.HashMap.Values.{value-assign, empty-IsValid}
use nodepp.HashMap.Scan.{pairs}

abbrev one : Map ℕ ℕ
one = assign integral_key ◌==◌ 0 5 50 empty_map

abbrev two : Map ℕ ℕ
two = assign integral_key ◌==◌ 0 1 60 one

two-IsValid : IsValid integral_key two
two-IsValid =
    assign-IsValid integral_key ◌==◌ integral_key-IsKey one
      (assign-IsValid integral_key ◌==◌ integral_key-IsKey empty_map (empty-IsValid integral_key) 0
        5 50)
      0 1 60

value_run : value integral_key ◌==◌ 0 5 two ≡ some 50
unfolding value index get_address get_address_loop scan item_as assign append set_second
    integral_key
value_run = refl

abbrev pair_of : ℕ → ℕ → Pair ℕ ℕ
pair_of id x = record { first = id; second = x }

-- The initializer list puts a key twice.
from_pairs_twice :
    pairs (from_pairs integral_key ◌==◌ (pair_of 1 2 ∷ pair_of 1 3 ∷ []) empty_map).queue
    ≡ pair_of 1 3 ∷ pair_of 1 3 ∷ []
unfolding from_pairs index get_address get_address_loop scan item_as assign append set_second
    integral_key
from_pairs_twice = refl

erase_run : keys (erase integral_key ◌==◌ 5 two) ≡ 1 ∷ []
unfolding erase has index get_address get_address_loop scan item_as assign append set_second
    integral_key erase_cell erase_from
erase_run = refl

has_run : (has integral_key ◌==◌ 5 (erase integral_key ◌==◌ 5 two)).0 ≡ false
unfolding erase has index get_address get_address_loop scan item_as assign append set_second
    integral_key erase_cell erase_from
has_run = refl

erase_node_run : keys (erase_node integral_key ◌==◌ 2 two) ≡ 5 ∷ []
unfolding erase_node erase has index get_address get_address_loop scan item_as assign append
    set_second integral_key erase_cell erase_from
erase_node_run = refl

has-contains_example : (has integral_key ◌==◌ 5 two).0 ≡ contains ◌==◌ 5 (pairs two.queue)
has-contains_example = has-contains integral_key ◌==◌ integral_key-IsKey two two-IsValid 5

append-pairs_example :
    pairs (append integral_key ◌==◌ (record { first = 5; second = 7 }) two).queue
    ≡ (if contains ◌==◌ 5 (pairs two.queue)
        then assoc_set ◌==◌ 5 7 (pairs two.queue)
        else pairs two.queue)
      ++ record { first = 5; second = 7 } ∷ []
append-pairs_example =
    append-pairs integral_key ◌==◌ integral_key-IsKey two two-IsValid
      (record { first = 5; second = 7 })

assign-assoc_set_example :
    pairs (assign integral_key ◌==◌ 0 5 70 two).queue ≡ assoc_set ◌==◌ 5 70 (pairs two.queue)
assign-assoc_set_example =
    assign-assoc_set integral_key ◌==◌ integral_key-IsKey two two-IsValid 0 5 70

assign-IsValid_example : IsValid integral_key (assign integral_key ◌==◌ 0 5 70 two)
assign-IsValid_example = assign-IsValid integral_key ◌==◌ integral_key-IsKey two two-IsValid 0 5 70

erase-assoc_erase_example :
    pairs (erase integral_key ◌==◌ 5 two).queue ≡ assoc_erase ◌==◌ 5 (pairs two.queue)
erase-assoc_erase_example = erase-assoc_erase integral_key ◌==◌ integral_key-IsKey two two-IsValid 5

erase-IsValid_example : IsValid integral_key (erase integral_key ◌==◌ 5 two)
erase-IsValid_example = erase-IsValid integral_key ◌==◌ integral_key-IsKey two two-IsValid 5

value-assign_example :
    value integral_key ◌==◌ 0 5 (assign integral_key ◌==◌ 0 1 70 two)
    ≡ (if 1 == 5 then some 70 else value integral_key ◌==◌ 0 5 two)
value-assign_example =
    value-assign ◌==◌ ==_iff integral_key integral_key-IsKey two two-IsValid 0 1 5 70
