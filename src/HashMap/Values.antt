-- ===== src/HashMap/Values.antt =====
-- include/nodepp/map.h: what is read through `operator[]`, the map of a list of pairs, and clear.
use nodepp.Prelude.{
  ℕ, suc, zero, ◌<◌, ◌≤◌, Bool, true, false, List, [], ◌∷◌, ◌++◌, Option, none, some, ◌≡◌, ◌≢◌, ◌↔◌,
  refl, sym, ap, ◌∙◌, subst, arith, All, if◌then◌else◌, if-case, if-true, if-false, map, length-map,
  get_or, arith,
}
use nodepp.HashMap.{
  Pair, Map, bucket, index, index_from, assign, value, value_at, item_as, second_of, from_pairs,
  erase_all, empty_map,
}
use nodepp.HashMap.Address.{locate, locate-new, ≡→==, ≢→==}
use nodepp.HashMap.Append.{append-IsValid, append-Absent}
use nodepp.HashMap.Assoc.{assoc_set, lookup}
use nodepp.HashMap.Look.{IsKey, look-IsValid, look-Case}
use nodepp.HashMap.Scan.{cells, pairs, addresses}
use nodepp.HashMap.Cases.{here, there, At, Case, At-lookup, Absent-lookup}
use nodepp.HashMap.Refines.{assign-assoc_set, assign-IsValid}
use nodepp.HashMap.Valid.{IsValid}

abbrev pub or_default : {V : Type 0} → V → Option V → V
or_default v none = v
or_default v (some x) = x

module _ {U V : Type 0} (get_key : U → ℕ) (equal : U → U → Bool) (key : IsKey get_key equal) where
  value_at-last :
      (q : List (ℕ × Pair U V)) (a : ℕ) (p : Pair U V)
      → All (λ b. b < a) (cells q)
      → value_at a (q ++ (a, p) ∷ []) ≡ some p.second
  unfolding item_as
  value_at-last [] a p h = ap second_of (if-true (some p) none (≡→== refl))
  value_at-last ((b, y) ∷ q) a p h =
      ap second_of (if-false (some y) (item_as a (q ++ (a, p) ∷ [])) (≢→== (less b a (h.0))))
      ∙ value_at-last q a p (h.1)
    where
      less : (b a : ℕ) → b < a → b ≢ a
      less b a l = omega arith

  lookup-At :
      (v : V) (id : U) (q : List (ℕ × Pair U V)) (a : ℕ)
      → At equal id q a
      → lookup equal id (pairs q) ≡ some (or_default v (lookup equal id (pairs q)))
  unfolding lookup
  lookup-At v id [] a x = elim x [ ]
  lookup-At v id ((b, p) ∷ q) a (here e) =
      subst (λ o. o ≡ some (or_default v o))
        (sym (if-true (some p.second) (lookup equal id (pairs q)) e)) refl
  lookup-At v id ((b, p) ∷ q) a (there e n h) =
      if-case (λ o. o ≡ some (or_default v o)) (equal p.first id) (λ w. refl)
        (λ w. lookup-At v id q a h)

  value_from :
      (v : V) (id : U) (m : Map U V)
      → IsValid get_key m
      → (o : Option ℕ) → Case equal id m.queue o
      → value_at ((index_from get_key equal v id m o).0) (index_from get_key equal v id m o).1.queue
        ≡ some (or_default v (lookup equal id (pairs m.queue)))
  value_from v id m valid none h =
      ap (value_at m.fresh)
        (append-Absent get_key equal key m valid (record { first = id; second = v }) h)
      ∙ value_at-last m.queue m.fresh (record { first = id; second = v }) valid.below
      ∙ ap (λ o. some (or_default v o)) (sym (Absent-lookup equal id m.queue h))
  value_from v id m valid (some a) h = At-lookup equal id h ∙ lookup-At v id m.queue a h

  pub value-lookup :
      (m : Map U V)
      → IsValid get_key m
      → (v : V) (id : U)
      → value get_key equal v id m ≡ some (or_default v (lookup equal id (pairs m.queue)))
  unfolding value index
  value-lookup m valid v id =
      value_from v id _ (look-IsValid get_key equal key m valid false id) _
        (look-Case get_key equal key m valid false id)

  pub from_pairs-IsValid :
      (args : List (Pair U V)) (m : Map U V)
      → IsValid get_key m
      → IsValid get_key (from_pairs get_key equal args m)
  unfolding from_pairs
  from_pairs-IsValid [] m valid = valid
  from_pairs-IsValid (x ∷ args) m valid =
      from_pairs-IsValid args _ (append-IsValid get_key equal key m valid x)

if_twice :
    {A : Type 0} (b c : Bool) (x y l : A)
    → b ≡ c
    → (if b then x else l) ≡ (if c then x else if b then y else l)
if_twice true true x y l e = refl
if_twice true false x y l e = absurd (ground arith)
if_twice false true x y l e = absurd (ground arith)
if_twice false false x y l e = refl

if_swap :
    {A : Type 0} (b c : Bool) (x y l : A)
    → ¬ ((b ≡ true) × (c ≡ true))
    → (if c then y else if b then x else l) ≡ (if b then x else if c then y else l)
if_swap true true x y l n = absurd (n (refl, refl))
if_swap true false x y l n = refl
if_swap false true x y l n = refl
if_swap false false x y l n = refl

module _ {U : Type 0} (equal : U → U → Bool)
    (decides : (a b : U) → (equal a b ≡ true) ↔ (a ≡ b)) where
  -- Two keys that differ are not both equal to a third.
  apart :
      (id other first : U)
      → equal first id ≡ false
      → ¬ ((equal id other ≡ true) × (equal first other ≡ true))
  apart id other first e w =
      let same =
        (decides first id).1 ((decides first other).0 (w.1) ∙ sym ((decides id other).0 (w.0))) in
      absurd (ground arith)

module _ {U V : Type 0} (equal : U → U → Bool)
    (decides : (a b : U) → (equal a b ≡ true) ↔ (a ≡ b)) where
  -- An association list gives back what was put last.
  lookup-assoc_set :
      (id other : U) (x : V) (ps : List (Pair U V))
      → lookup equal other (assoc_set equal id x ps)
        ≡ (if equal id other then some x else lookup equal other ps)
  unfolding lookup assoc_set
  lookup-assoc_set id other x [] = refl
  lookup-assoc_set id other x (p ∷ ps) =
      if-case
        (λ r.
          lookup equal other r ≡ (if equal id other then some x else lookup equal other (p ∷ ps)))
        (equal p.first id)
        (λ e.
          if_twice (equal p.first other) (equal id other) (some x) (some p.second)
            (lookup equal other ps) (ap (λ u. equal u other) ((decides p.first id).0 e)))
        (λ e.
          ap (λ l. if equal p.first other then some p.second else l)
            (lookup-assoc_set id other x ps)
          ∙ if_swap (equal id other) (equal p.first other) (some x) (some p.second)
              (lookup equal other ps) (apart equal decides id other p.first e))

  module _ (get_key : U → ℕ) (key : IsKey get_key equal) where
    -- Where == decides equality of keys, and equal keys have one number of 64 bits: in a valid
    -- map, after map[id] = x, map[other] is x if other equals id, and what it was before if not.
    pub value-assign :
        (m : Map U V)
        → IsValid get_key m
        → (v : V) (id other : U) (x : V)
        → value get_key equal v other (assign get_key equal v id x m)
          ≡ (if equal id other then some x else value get_key equal v other m)
    value-assign m valid v id other x =
        value-lookup get_key equal key (assign get_key equal v id x m)
          (assign-IsValid get_key equal key m valid v id x) v other
        ∙ ap (λ ps. some (or_default v (lookup equal other ps)))
            (assign-assoc_set get_key equal key m valid v id x)
        ∙ ap (λ o. some (or_default v o)) (lookup-assoc_set id other x (pairs m.queue))
        ∙ if-case
            (λ o.
              some (or_default v o)
              ≡ (if equal id other then some x else value get_key equal v other m))
            (equal id other) (λ e. sym (if-true (some x) _ e))
            (λ e. sym (if-false (some x) _ e ∙ value-lookup get_key equal key m valid v other))

module _ {U V : Type 0} (get_key : U → ℕ) where
  pub empty-IsValid : IsValid get_key (empty_map {U = U} {V = V})
  unfolding addresses
  empty-IsValid = record {
    indexes = record {
      bounded = λ k b. let z = locate-new 64 k in omega arith;
      single = λ k l b c n w. absurd (n (locate-new 64 k));
      lists = λ k b. ap (bucket []) (locate-new 64 k);
    };
    distinct = tt;
    below = tt;
  }

  pub erase_all-IsValid : (m : Map U V) → IsValid get_key m → IsValid get_key (erase_all m)
  unfolding erase_all addresses
  erase_all-IsValid m valid = record {
    indexes = record {
      bounded = λ k b.
          subst (λ n. locate 64 k m.root ≤ n) (sym (length-map m.table (λ (que : List ℕ). [])))
            (valid.indexes.bounded k b);
      single = valid.indexes.single;
      lists = λ k b. bucket-cleared m.table (locate 64 k m.root);
    };
    distinct = tt;
    below = tt;
  }
    where
      get_or-cleared :
          (t : List (List ℕ)) (p : ℕ) → get_or {A = List ℕ} (map (λ (que : List ℕ). []) t) p [] ≡ []
      get_or-cleared [] p = refl
      get_or-cleared (x ∷ t) zero = refl
      get_or-cleared (x ∷ t) (suc p) = get_or-cleared t p

      bucket-cleared : (t : List (List ℕ)) (a : ℕ) → bucket (map (λ (que : List ℕ). []) t) a ≡ []
      bucket-cleared t zero = refl
      bucket-cleared t (suc p) = get_or-cleared t p
