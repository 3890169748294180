-- ===== src/HashMap/Append.antt =====
-- include/nodepp/map.h: append keeps the invariant, and puts its pair at the end of the list.
use nodepp.Prelude.{
  ℕ, ◌+◌, ◌<◌, Bool, false, List, [], ◌∷◌, ◌++◌, Option, none, some, ◌≡◌, ◌≢◌, refl, sym, ap, ◌∙◌,
  subst, arith, All, if◌then◌else◌, map, if-true, if-false, append-nil,
}
use nodepp.HashMap.{Found, Pair, Map, bucket, set_bucket, scan, append, update}
use nodepp.HashMap.Address.{locate, ≡→==, ≢→==}
use nodepp.Prelude.Distinct.{All-last, All-mono, Distinct-last}
use nodepp.HashMap.Assoc.{contains, assoc_set}
use nodepp.HashMap.Look.{IsKey, found, walk, look-IsValid, look-bucket, look-scan, look-Case}
use nodepp.HashMap.Scan.{
  Distinct, cells, pairs, addresses, addresses-append, addresses-set_second, cells-set_second,
}
use nodepp.HashMap.Cases.{Case, Absent, Absent-position, Absent-contains, At-contains, At-set}
use nodepp.HashMap.Valid.{IsValid, Indexes, Ending-address, Ending-some, set-Indexes}

pub map-last :
    {A B : Type 0} (f : A → B) (q : List A) (c : A) → map f (q ++ c ∷ []) ≡ map f q ++ f c ∷ []
map-last f [] c = refl
map-last f (x ∷ q) c = ap (◌∷◌ (f x)) (map-last f q c)

update-pairs :
    {U V : Type 0} (equal : U → U → Bool) (id : U) (v : V) (q : List (ℕ × Pair U V)) (o : Option ℕ)
    → Case equal id q o
    → pairs (update o v q)
      ≡ (if contains equal id (pairs q) then assoc_set equal id v (pairs q) else pairs q)
update-pairs equal id v q none h =
    sym (if-false (assoc_set equal id v (pairs q)) (pairs q) (Absent-contains equal id q h))
update-pairs equal id v q (some a) h =
    At-set equal id v h ∙ sym (if-true _ (pairs q) (At-contains equal id h))

module _ {U V : Type 0} (get_key : U → ℕ) (equal : U → U → Bool) (key : IsKey get_key equal)
    (m : Map U V) (valid : IsValid get_key m) where
  -- A queue whose cells have new values, or one cell more.
  update-cells : (o : Option ℕ) (v : V) → cells (update o v m.queue) ≡ cells m.queue
  update-cells none v = refl
  update-cells (some a) v = cells-set_second a v m.queue

  update-addresses :
      (o : Option ℕ) (v : V) (k : ℕ)
      → addresses get_key k (update o v m.queue) ≡ addresses get_key k m.queue
  update-addresses none v k = refl
  update-addresses (some a) v k = addresses-set_second get_key equal key.agree k a v m.queue

  module _ (p : Pair U V) where
    appended : Option ℕ → List (ℕ × Pair U V)
    appended o = update o p.second m.queue ++ (m.fresh, p) ∷ []

    appended-cells : (o : Option ℕ) → cells (appended o) ≡ cells m.queue ++ m.fresh ∷ []
    unfolding appended
    appended-cells o =
        map-last (λ c. c.0) (update o p.second m.queue) (m.fresh, p)
        ∙ ap (λ xs. xs ++ m.fresh ∷ []) (update-cells o p.second)

    appended-addresses :
        (o : Option ℕ) (k : ℕ)
        → addresses get_key k (appended o)
          ≡ addresses get_key k m.queue ++ addresses get_key k ((m.fresh, p) ∷ [])
    unfolding appended
    appended-addresses o k =
        addresses-append get_key equal key.agree k (update o p.second m.queue) m.fresh p
        ∙ ap (λ xs. xs ++ addresses get_key k ((m.fresh, p) ∷ [])) (update-addresses o p.second k)

    one-own : addresses get_key (get_key p.first) ((m.fresh, p) ∷ []) ≡ m.fresh ∷ []
    unfolding addresses
    one-own = if-true (m.fresh ∷ []) [] (≡→== refl)

    one-other : (k : ℕ) → get_key p.first ≢ k → addresses get_key k ((m.fresh, p) ∷ []) ≡ []
    unfolding addresses
    one-other k n = if-false (m.fresh ∷ []) [] (≢→== n)

    append-Indexes :
        (f : Found) (o : Option ℕ)
        → f.address ≡ locate 64 (get_key p.first) f.trie
        → f.address ≢ 0
        → bucket f.table f.address ≡ addresses get_key (get_key p.first) m.queue
        → Indexes f.trie f.table (λ k. addresses get_key k m.queue)
        → Indexes f.trie
            (set_bucket f.table f.address (bucket f.table f.address ++ m.fresh ∷ []))
            (λ k. addresses get_key k (appended o))
    append-Indexes f o at n held i =
        let now = λ (k : ℕ). addresses get_key k (appended o) in
        let all =
          appended-addresses o (get_key p.first)
          ∙ ap (λ xs. addresses get_key (get_key p.first) m.queue ++ xs) one-own
          ∙ ap (λ xs. xs ++ m.fresh ∷ []) (sym held) in
        let same =
          ap (λ a. set_bucket f.table a (now (get_key p.first))) (sym at)
          ∙ ap (set_bucket f.table f.address) all in
        subst (λ t. Indexes f.trie t now) same
          (set-Indexes f.trie f.table (λ k. addresses get_key k m.queue) now (get_key p.first)
            (key.bits p.first) (λ w. n (at ∙ w))
            (λ k w.
              appended-addresses o k
              ∙ ap (λ xs. addresses get_key k m.queue ++ xs) (one-other k w)
              ∙ append-nil (addresses get_key k m.queue))
            i)

    pub append-IsValid : IsValid get_key (append get_key equal p m)
    unfolding append appended
    append-IsValid =
        let f = found get_key equal key m valid false p.first in
        let o = scan equal p.first m.queue (bucket f.table f.address) in
        let w = walk get_key equal key m valid false p.first in
        let base = look-IsValid get_key equal key m valid false p.first in
        let at = Ending-address w.this in
        record {
          indexes =
              append-Indexes f o at (λ x. Ending-some w.this (sym at ∙ x))
                (look-bucket get_key equal key m valid false p.first) base.indexes;
          distinct =
              subst Distinct (sym (appended-cells o))
                (Distinct-last (cells m.queue) m.fresh valid.below valid.distinct);
          below = subst (All (λ a. a < m.fresh + 1)) (sym (appended-cells o)) (
              All-last (λ a. a < m.fresh + 1) (cells m.queue) m.fresh
                (All-mono (λ a. a < m.fresh) (λ a. a < m.fresh + 1) (λ a l. omega arith)
                  (cells m.queue) valid.below)
                (omega arith));
        }

    -- Without the key the queue has one cell more.
    pub append-Absent :
        Absent equal p.first m.queue
        → (append get_key equal p m).queue ≡ m.queue ++ (m.fresh, p) ∷ []
    unfolding append
    append-Absent h =
        ap (λ o. update o p.second m.queue ++ (m.fresh, p) ∷ [])
          (look-scan get_key equal key m valid false p.first
            ∙ Absent-position equal p.first m.queue h)

    -- Where equal keys have one number of 64 bits, append of a pair to a valid map that has the
    -- key gives the first pair with the key the new value and also puts the pair at the end of the
    -- list, so that the key is there twice; without the key it only puts it at the end.
    pub append-pairs :
        pairs (append get_key equal p m).queue
        ≡ (if contains equal p.first (pairs m.queue)
            then assoc_set equal p.first p.second (pairs m.queue)
            else pairs m.queue)
          ++ p ∷ []
    unfolding append
    append-pairs =
        let f = found get_key equal key m valid false p.first in
        let o = scan equal p.first m.queue (bucket f.table f.address) in
        map-last (λ c. c.1) (update o p.second m.queue) (m.fresh, p)
        ∙ ap (λ xs. xs ++ p ∷ [])
            (update-pairs equal p.first p.second m.queue o
              (look-Case get_key equal key m valid false p.first))
