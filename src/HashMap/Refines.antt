-- ===== src/HashMap/Refines.antt =====
-- include/nodepp/map.h: the operations keep the invariant, and on the list of the pairs they do what
-- an association list does.
use nodepp.Prelude.{
  ℕ, ◌<◌, Bool, true, false, List, [], ◌∷◌, ◌++◌, Option, none, some, ◌≡◌, ◌≢◌, refl, sym, ap, ◌∙◌,
  subst, arith, All, length, suc, if-true, if-case, ◌==◌, if-false,
}
use nodepp.HashMap.{
  Found, Pair, Map, bucket, set_bucket, visit, has, index, index_from, assign, erase, erase_found,
  erase_cell, set_second, erase_from,
}
use nodepp.HashMap.Address.{locate, ≡→==, ≢→==}
use nodepp.HashMap.Append.{append-IsValid, append-Absent, map-last}
use nodepp.HashMap.Assoc.{contains, assoc_set, assoc_erase}
use nodepp.HashMap.Look.{IsKey, walk, look-IsValid, look-bucket, look-Case, Case-contains}
use nodepp.HashMap.Scan.{
  Distinct, cells, pairs, addresses, addresses-set_second, cells-set_second, erase_cell-All,
  erase_cell-Distinct,
}
use nodepp.HashMap.Cases.{here, there}
use nodepp.HashMap.Cases.{
  Case, At, At-set, Absent-set, At-erase, Absent-erase, At-erase_from, At-others,
}
use nodepp.HashMap.Valid.{IsValid, Indexes, Ending-address, set-Indexes}

module _ {U V : Type 0} (get_key : U → ℕ) (equal : U → U → Bool) (key : IsKey get_key equal) where
  -- Where equal keys have one number of 64 bits, has on a valid map is true exactly if the list of
  -- the pairs contains the key.
  pub has-contains :
      (m : Map U V)
      → IsValid get_key m
      → (id : U) → (has get_key equal id m).0 ≡ contains equal id (pairs m.queue)
  unfolding has
  has-contains m valid id =
      Case-contains equal id m.queue _ (look-Case get_key equal key m valid true id)

  pub has-IsValid :
      (m : Map U V) → IsValid get_key m → (id : U) → IsValid get_key ((has get_key equal id m).1)
  unfolding has
  has-IsValid m valid id = look-IsValid get_key equal key m valid true id

cons_nil : {x : ℕ} {xs : List ℕ} → x ∷ xs ≢ []
cons_nil {x = x} {xs = xs} e = suc_zero (ap length e)
  where
    suc_zero : suc (length xs) ≢ 0
    suc_zero w = omega arith

module _ {U V : Type 0} (get_key : U → ℕ) (equal : U → U → Bool) (key : IsKey get_key equal) where
  -- New values at the cells of a queue.
  set_second-IsValid :
      (a : ℕ) (x : V) (m : Map U V)
      → IsValid get_key m
      → IsValid get_key (record m { queue = set_second a x m.queue })
  set_second-IsValid a x m valid = record {
    indexes = record {
      bounded = valid.indexes.bounded;
      single = valid.indexes.single;
      lists = λ k b.
          valid.indexes.lists k b
          ∙ sym (addresses-set_second get_key equal key.agree k a x m.queue);
    };
    distinct = subst Distinct (sym (cells-set_second a x m.queue)) valid.distinct;
    below = subst (All (λ b. b < m.fresh)) (sym (cells-set_second a x m.queue)) valid.below;
  }

  index_from-IsValid :
      (v : V) (id : U) (m : Map U V)
      → IsValid get_key m
      → (o : Option ℕ) → IsValid get_key ((index_from get_key equal v id m o).1)
  index_from-IsValid v id m valid none =
      append-IsValid get_key equal key m valid (record { first = id; second = v })
  index_from-IsValid v id m valid (some a) = valid

  pub index-IsValid :
      (m : Map U V)
      → IsValid get_key m
      → (v : V) (id : U) → IsValid get_key ((index get_key equal v id m).1)
  unfolding index
  index-IsValid m valid v id =
      index_from-IsValid v id _ (look-IsValid get_key equal key m valid false id) _

  -- Where equal keys have one number of 64 bits, map[id] = x keeps a map valid: every number has
  -- an address of its own or none, and its bucket holds the addresses of its pairs in their order.
  pub assign-IsValid :
      (m : Map U V)
      → IsValid get_key m
      → (v : V) (id : U) (x : V) → IsValid get_key (assign get_key equal v id x m)
  unfolding assign
  assign-IsValid m valid v id x = set_second-IsValid _ x _ (index-IsValid m valid v id)

  set_second-last :
      (q : List (ℕ × Pair U V)) (a : ℕ) (p : Pair U V) (x : V)
      → All (λ b. b < a) (cells q)
      → set_second a x (q ++ (a, p) ∷ []) ≡ q ++ (a, record p { second = x }) ∷ []
  unfolding set_second
  set_second-last [] a p x h = if-true _ ((a, p) ∷ []) (≡→== refl)
  set_second-last ((b, y) ∷ q) a p x h =
      if-false _ ((b, y) ∷ set_second a x (q ++ (a, p) ∷ [])) (≢→== (less b a (h.0)))
      ∙ ap (◌∷◌ (b, y)) (set_second-last q a p x (h.1))
    where
      less : (b a : ℕ) → b < a → b ≢ a
      less b a l = omega arith

  assign_from :
      (v : V) (id : U) (x : V) (m : Map U V)
      → IsValid get_key m
      → (o : Option ℕ) → Case equal id m.queue o
      → pairs (
          set_second
            ((index_from get_key equal v id m o).0)
            x
            (index_from get_key equal v id m o).1.queue)
        ≡ assoc_set equal id x (pairs m.queue)
  assign_from v id x m valid none h =
      ap pairs (
        ap (set_second m.fresh x)
          (append-Absent get_key equal key m valid (record { first = id; second = v }) h)
        ∙ set_second-last m.queue m.fresh (record { first = id; second = v }) x valid.below)
      ∙ map-last (λ c. c.1) m.queue (m.fresh, record { first = id; second = x })
      ∙ sym (Absent-set equal id x m.queue h)
  assign_from v id x m valid (some a) h = At-set equal id x h

  -- Where equal keys have one number of 64 bits, map[id] = x on a valid map does to the list of
  -- the pairs what an association list does: the first pair with the key gets x, and if there is
  -- none the pair is put at the end.
  pub assign-assoc_set :
      (m : Map U V)
      → IsValid get_key m
      → (v : V) (id : U) (x : V)
      → pairs (assign get_key equal v id x m).queue ≡ assoc_set equal id x (pairs m.queue)
  unfolding assign index
  assign-assoc_set m valid v id x =
      assign_from v id x _ (look-IsValid get_key equal key m valid false id) _
        (look-Case get_key equal key m valid false id)

  erase_found-pairs :
      (id : U) (m : Map U V) (f : Found) (o : Option ℕ)
      → Case equal id m.queue o
      → pairs (erase_found m f o).queue ≡ assoc_erase equal id (pairs m.queue)
  erase_found-pairs id m f none h = sym (Absent-erase equal id m.queue h)
  erase_found-pairs id m f (some a) h = At-erase equal id h

  -- Where equal keys have one number of 64 bits, erase of a key on a valid map takes the first
  -- pair with the key off the list of the pairs, and nothing else.
  pub erase-assoc_erase :
      (m : Map U V)
      → IsValid get_key m
      → (id : U) → pairs (erase get_key equal id m).queue ≡ assoc_erase equal id (pairs m.queue)
  unfolding erase
  erase-assoc_erase m valid id =
      erase_found-pairs id m _ _ (look-Case get_key equal key m valid true id)

  -- A bucket of a key that is there is not empty, so it has an address.
  At-address :
      (id : U) (q : List (ℕ × Pair U V)) (a : ℕ)
      → At equal id q a
      → addresses get_key (get_key id) q ≢ []
  unfolding addresses
  At-address id [] a x = elim x [ ]
  At-address id ((b, p) ∷ q) a (here e) = λ w. cons_nil (
      sym (
        if-true (b ∷ addresses get_key (get_key id) q) (addresses get_key (get_key id) q)
          (≡→== (key.agree p.first id e)))
      ∙ w)
  At-address id ((b, p) ∷ q) a (there e n h) =
      if-case (λ r. r ≢ []) (get_key p.first == get_key id) (λ w. cons_nil)
        (λ w. At-address id q a h)

  erase_found-IsValid :
      (id : U) (m : Map U V) (f : Found)
      → IsValid get_key m
      → IsValid get_key (visit m f)
      → f.address ≡ locate 64 (get_key id) f.trie
      → bucket f.table f.address ≡ addresses get_key (get_key id) m.queue
      → (o : Option ℕ) → Case equal id m.queue o
      → IsValid get_key (erase_found m f o)
  erase_found-IsValid id m f valid base at held none h = base
  erase_found-IsValid id m f valid base at held (some a) h =
      let now = λ (k : ℕ). addresses get_key k (erase_cell a m.queue) in
      let que = ap (erase_from a) held ∙ At-erase_from equal id get_key key.agree h in
      let same =
        ap (λ b. set_bucket f.table b (now (get_key id))) (sym at)
        ∙ ap (set_bucket f.table f.address) (sym que) in
      record {
        indexes =
            subst (λ t. Indexes f.trie t now) same
              (set-Indexes f.trie f.table (λ k. addresses get_key k m.queue) now (get_key id)
                (key.bits id)
                (λ w. At-address id m.queue a h (sym held ∙ ap (bucket f.table) (at ∙ w)))
                (λ k n. At-others equal id get_key key.agree k n h) base.indexes);
        distinct = erase_cell-Distinct a m.queue valid.distinct;
        below = erase_cell-All (λ b. b < m.fresh) a m.queue valid.below;
      }

  -- Where equal keys have one number of 64 bits, erase of a key keeps a map valid, the new buckets
  -- that its walk makes included.
  pub erase-IsValid :
      (m : Map U V) → IsValid get_key m → (id : U) → IsValid get_key (erase get_key equal id m)
  unfolding erase
  erase-IsValid m valid id =
      let w = walk get_key equal key m valid true id in
      erase_found-IsValid id m _ valid (look-IsValid get_key equal key m valid true id)
        (Ending-address w.this) (look-bucket get_key equal key m valid true id) _
        (look-Case get_key equal key m valid true id)
