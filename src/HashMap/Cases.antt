-- ===== src/HashMap/Cases.antt =====
-- include/nodepp/map.h: what the operations do to the queue, where a key is in it and where it is not.
use nodepp.Prelude.{
  ℕ, ◌==◌, Bool, true, false, List, [], ◌∷◌, ◌++◌, Option, none, some, if◌then◌else◌, ◌≡◌, ◌≢◌,
  refl, sym, ap, ◌∙◌, All, if-true, if-false, if-case,
}
use nodepp.HashMap.{Pair, item_as, second_of, value_at, set_second, erase_cell, erase_from}
use nodepp.HashMap.Address.{==→≡, ==→≢, ≡→==, ≢→==}
use nodepp.HashMap.Assoc.{contains, assoc_set, assoc_erase, lookup}
use nodepp.HashMap.Scan.{Distinct, cells, pairs, addresses, position, Agrees}

module _ {A : Type 0} (P : A → Type 0) where
  hit : (a : ℕ) (x y : A) → P x → P (if a == a then x else y)
  hit a x y h = if-case P (a == a) (λ e. h) (λ e. absurd (==→≢ a a e refl))

  miss : {b a : ℕ} (x y : A) → b ≢ a → P y → P (if b == a then x else y)
  miss {b = b} {a = a} x y n h = if-case P (b == a) (λ e. absurd (n (==→≡ b a e))) (λ e. h)

under :
    {A : Type 0} (f : A → A) (t : Bool) {x y z w : A}
    → f x ≡ z
    → f y ≡ w
    → f (if t then x else y) ≡ (if t then z else w)
under f true p q = p
under f false p q = q

module _ {U V : Type 0} (equal : U → U → Bool) (id : U) where
  -- The first pair with the key stands at the address.
  pub data At : List (ℕ × Pair U V) → ℕ → Type 0 where
    here :
        {a : ℕ} {p : Pair U V} {q : List (ℕ × Pair U V)}
        → equal p.first id ≡ true
        → At ((a, p) ∷ q) a
    there :
        {a b : ℕ} {p : Pair U V} {q : List (ℕ × Pair U V)}
        → equal p.first id ≡ false
        → b ≢ a
        → At q a
        → At ((b, p) ∷ q) a

  abbrev pub Absent : List (ℕ × Pair U V) → Type 0
  Absent q = All (λ c. equal (c.1.first) id ≡ false) q

  abbrev pub Case : List (ℕ × Pair U V) → Option ℕ → Type 0
  Case q none = Absent q
  Case q (some a) = At q a

  At-All : (P : ℕ → Type 0) (q : List (ℕ × Pair U V)) (a : ℕ) → All P (cells q) → At q a → P a
  At-All P [] a h x = elim x [ ]
  At-All P ((b, p) ∷ q) a h (here e) = h.0
  At-All P ((b, p) ∷ q) a h (there e n w) = At-All P q a (h.1) w

  Case-cons :
      (b : ℕ) (p : Pair U V) (q : List (ℕ × Pair U V)) (o : Option ℕ)
      → All (λ a. b ≢ a) (cells q)
      → equal p.first id ≡ false
      → Case q o
      → Case ((b, p) ∷ q) o
  Case-cons b p q none d e h = (e, h)
  Case-cons b p q (some a) d e h = there e (At-All (λ c. b ≢ c) q a d h) h

  pub position-Case : (q : List (ℕ × Pair U V)) → Distinct (cells q) → Case q (position equal id q)
  unfolding position
  position-Case [] d = tt
  position-Case ((b, p) ∷ q) d =
      if-case (Case ((b, p) ∷ q)) (equal p.first id) (λ e. here e)
        (λ e. Case-cons b p q (position equal id q) (d.0) e (position-Case q (d.1)))

  module _ (v : V) where
    pub At-set :
        {q : List (ℕ × Pair U V)} {a : ℕ}
        → At q a
        → pairs (set_second a v q) ≡ assoc_set equal id v (pairs q)
    unfolding set_second assoc_set
    At-set {q = []} x = elim x [ ]
    At-set {q = (b, p) ∷ q} {a = a} (here e) =
        hit (λ r. pairs r ≡ assoc_set equal id v (p ∷ pairs q)) a _ _
          (sym (if-true _ (p ∷ assoc_set equal id v (pairs q)) e))
    At-set {q = (b, p) ∷ q} {a = a} (there e n w) =
        miss (λ r. pairs r ≡ assoc_set equal id v (p ∷ pairs q)) _ _ n
          (ap (◌∷◌ p) (At-set w) ∙ sym (if-false (record p { second = v } ∷ pairs q) _ e))

    pub Absent-set :
        (q : List (ℕ × Pair U V))
        → Absent q
        → assoc_set equal id v (pairs q) ≡ pairs q ++ record { first = id; second = v } ∷ []
    unfolding assoc_set
    Absent-set [] h = refl
    Absent-set ((b, p) ∷ q) h =
        if-false (record p { second = v } ∷ pairs q) _ (h.0) ∙ ap (◌∷◌ p) (Absent-set q (h.1))

  pub At-erase :
      {q : List (ℕ × Pair U V)} {a : ℕ}
      → At q a
      → pairs (erase_cell a q) ≡ assoc_erase equal id (pairs q)
  unfolding erase_cell assoc_erase
  At-erase {q = []} x = elim x [ ]
  At-erase {q = (b, p) ∷ q} {a = a} (here e) =
      hit (λ r. pairs r ≡ assoc_erase equal id (p ∷ pairs q)) a _ _ (sym (if-true (pairs q) _ e))
  At-erase {q = (b, p) ∷ q} {a = a} (there e n w) =
      miss (λ r. pairs r ≡ assoc_erase equal id (p ∷ pairs q)) _ _ n
        (ap (◌∷◌ p) (At-erase w) ∙ sym (if-false (pairs q) _ e))

  pub Absent-erase : (q : List (ℕ × Pair U V)) → Absent q → assoc_erase equal id (pairs q) ≡ pairs q
  unfolding assoc_erase
  Absent-erase [] h = refl
  Absent-erase ((b, p) ∷ q) h = if-false (pairs q) _ (h.0) ∙ ap (◌∷◌ p) (Absent-erase q (h.1))

  pub At-contains : {q : List (ℕ × Pair U V)} {a : ℕ} → At q a → contains equal id (pairs q) ≡ true
  unfolding contains
  At-contains {q = []} x = elim x [ ]
  At-contains {q = (b, p) ∷ q} (here e) = if-true true _ e
  At-contains {q = (b, p) ∷ q} (there e n w) = if-false true _ e ∙ At-contains w

  pub Absent-contains : (q : List (ℕ × Pair U V)) → Absent q → contains equal id (pairs q) ≡ false
  unfolding contains
  Absent-contains [] h = refl
  Absent-contains ((b, p) ∷ q) h = if-false true _ (h.0) ∙ Absent-contains q (h.1)

  pub Absent-position : (q : List (ℕ × Pair U V)) → Absent q → position equal id q ≡ none
  unfolding position
  Absent-position [] h = refl
  Absent-position ((b, p) ∷ q) h = if-false (some b) _ (h.0) ∙ Absent-position q (h.1)

  -- The value of the cell at an address is that of the first pair with the key.
  pub At-lookup :
      {q : List (ℕ × Pair U V)} {a : ℕ} → At q a → value_at a q ≡ lookup equal id (pairs q)
  unfolding item_as lookup
  At-lookup {q = []} x = elim x [ ]
  At-lookup {q = (b, p) ∷ q} {a = a} (here e) =
      hit (λ (o : Option (Pair U V)). second_of o ≡ lookup equal id (p ∷ pairs q)) a _ _
        (sym (if-true (some p.second) _ e))
  At-lookup {q = (b, p) ∷ q} {a = a} (there e n w) =
      miss (λ (o : Option (Pair U V)). second_of o ≡ lookup equal id (p ∷ pairs q)) _ _ n
        (At-lookup w ∙ sym (if-false (some p.second) _ e))

  pub Absent-lookup : (q : List (ℕ × Pair U V)) → Absent q → lookup equal id (pairs q) ≡ none
  unfolding lookup
  Absent-lookup [] h = refl
  Absent-lookup ((b, p) ∷ q) h = if-false (some p.second) _ (h.0) ∙ Absent-lookup q (h.1)

  module _ (get_key : U → ℕ) (agree : Agrees get_key equal) where
    pub At-erase_from :
        {q : List (ℕ × Pair U V)} {a : ℕ}
        → At q a
        → erase_from a (addresses get_key (get_key id) q)
          ≡ addresses get_key (get_key id) (erase_cell a q)
    unfolding addresses erase_from erase_cell
    At-erase_from {q = []} x = elim x [ ]
    At-erase_from {q = (b, p) ∷ q} {a = a} (here e) =
        (let rest = addresses get_key (get_key id) q in
          let one = if-true (a ∷ rest) rest (≡→== (agree p.first id e)) in
          hit
            (λ (r : List (ℕ × Pair U V)).
              erase_from a (addresses get_key (get_key id) ((a, p) ∷ q))
              ≡ addresses get_key (get_key id) r)
            a _ _ (ap (erase_from a) one ∙ hit (λ r. r ≡ rest) a _ _ refl))
    At-erase_from {q = (b, p) ∷ q} {a = a} (there e n w) =
        (let left = addresses get_key (get_key id) (erase_cell a q) in
          let rest = At-erase_from w in
          miss
            (λ (r : List (ℕ × Pair U V)).
              erase_from a (addresses get_key (get_key id) ((b, p) ∷ q))
              ≡ addresses get_key (get_key id) r)
            _ _ n
            (under (erase_from a) (get_key p.first == get_key id)
              (miss (λ r. r ≡ b ∷ left) _ _ n (ap (◌∷◌ b) rest)) rest))

    pub At-others :
        (k : ℕ)
        → get_key id ≢ k
        → {q : List (ℕ × Pair U V)} {a : ℕ} → At q a
        → addresses get_key k (erase_cell a q) ≡ addresses get_key k q
    unfolding addresses erase_cell
    At-others k h {q = []} x = elim x [ ]
    At-others k h {q = (b, p) ∷ q} {a = a} (here e) =
        hit (λ (r : List (ℕ × Pair U V)). addresses get_key k r ≡ addresses get_key k ((a, p) ∷ q))
          a _ _
          (sym (
            if-false (a ∷ addresses get_key k q) (addresses get_key k q)
              (≢→== (λ w. h (sym (agree p.first id e) ∙ w)))))
    At-others k h {q = (b, p) ∷ q} {a = a} (there e n w) =
        miss (λ (r : List (ℕ × Pair U V)). addresses get_key k r ≡ addresses get_key k ((b, p) ∷ q))
          _ _ n (ap (λ rest. if get_key p.first == k then b ∷ rest else rest) (At-others k h w))
