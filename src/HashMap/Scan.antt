-- ===== src/HashMap/Scan.antt =====
-- include/nodepp/map.h: the cells of the queue by their addresses, and the walk along a bucket.
use nodepp.Prelude.{
  ℕ, ◌==◌, Bool, true, false, List, [], ◌∷◌, ◌++◌, Option, none, some, if◌then◌else◌, map, ◌≡◌, ◌≢◌,
  refl, sym, ap, ◌∙◌, All, if-eq, if-case,
}
use nodepp.HashMap.{Pair, item_as, set_second, erase_cell, scan}
pub use nodepp.Prelude.Distinct.{Distinct}
use nodepp.HashMap.Address.{==→≡, ==→≢}

module _ {U V : Type 0} where
  abbrev pub cells : List (ℕ × Pair U V) → List ℕ
  cells q = map (λ c. c.0) q

  abbrev pub pairs : List (ℕ × Pair U V) → List (Pair U V)
  pairs q = map (λ c. c.1) q

  abbrev pub Shows : List (ℕ × Pair U V) → List (ℕ × Pair U V) → Type 0
  Shows q = All (λ c. item_as (c.0) q ≡ some (c.1))

  Shows-cons :
      (b : ℕ) (p : Pair U V) (q r : List (ℕ × Pair U V))
      → All (λ a. b ≢ a) (cells r)
      → Shows q r
      → Shows ((b, p) ∷ q) r
  unfolding item_as
  Shows-cons b p q [] n h = tt
  Shows-cons b p q ((a, x) ∷ r) n h =
      (if-eq (b == a) (λ e. absurd (n.0 (==→≡ b a e))) (λ e. h.0), Shows-cons b p q r (n.1) (h.1))

  pub Distinct-Shows : (q : List (ℕ × Pair U V)) → Distinct (cells q) → Shows q q
  unfolding item_as
  Distinct-Shows [] d = tt
  Distinct-Shows ((b, p) ∷ q) d = (
    if-eq (b == b) (λ e. refl) (λ e. absurd (==→≢ b b e refl)),
    Shows-cons b p q q (d.0) (Distinct-Shows q (d.1)),
  )

  pub cells-set_second :
      (a : ℕ) (v : V) (q : List (ℕ × Pair U V)) → cells (set_second a v q) ≡ cells q
  unfolding set_second
  cells-set_second a v [] = refl
  cells-set_second a v ((b, p) ∷ q) =
      if-case (λ r. cells r ≡ b ∷ cells q) (b == a) (λ e. refl)
        (λ e. ap (◌∷◌ b) (cells-set_second a v q))

  -- What holds of every address in a queue holds of those that are left.
  pub erase_cell-All :
      (P : ℕ → Type 0) (a : ℕ) (q : List (ℕ × Pair U V))
      → All P (cells q)
      → All P (cells (erase_cell a q))
  unfolding erase_cell
  erase_cell-All P a [] h = tt
  erase_cell-All P a ((b, p) ∷ q) h =
      if-case (λ r. All P (cells r)) (b == a) (λ e. h.1) (λ e. (h.0, erase_cell-All P a q (h.1)))

  pub erase_cell-Distinct :
      (a : ℕ) (q : List (ℕ × Pair U V)) → Distinct (cells q) → Distinct (cells (erase_cell a q))
  unfolding erase_cell
  erase_cell-Distinct a [] h = tt
  erase_cell-Distinct a ((b, p) ∷ q) h =
      if-case (λ r. Distinct (cells r)) (b == a) (λ e. h.1)
        (λ e. (erase_cell-All (λ c. b ≢ c) a q (h.0), erase_cell-Distinct a q (h.1)))

-- The addresses of the pairs whose key a number is.
unfoldable pub addresses : {U V : Type 0} → (U → ℕ) → ℕ → List (ℕ × Pair U V) → List ℕ
addresses get_key k [] = []
addresses get_key k ((a, p) ∷ q) =
    let rest = addresses get_key k q in if get_key p.first == k then a ∷ rest else rest

-- The address of the first pair with the key.
unfoldable pub position : {U V : Type 0} → (U → U → Bool) → U → List (ℕ × Pair U V) → Option ℕ
position equal id [] = none
position equal id ((a, p) ∷ q) = if equal p.first id then some a else position equal id q

if-push :
    (t : Bool) (b : ℕ) (xs ys : List ℕ)
    → (if t then b ∷ (xs ++ ys) else xs ++ ys) ≡ (if t then b ∷ xs else xs) ++ ys
if-push true b xs ys = refl
if-push false b xs ys = refl

-- Equal keys have one number.
abbrev pub Agrees : {U : Type 0} → (U → ℕ) → (U → U → Bool) → Type 0
Agrees {U = U} get_key equal = (a b : U) → equal a b ≡ true → get_key a ≡ get_key b

module _ {U V : Type 0} (get_key : U → ℕ) (equal : U → U → Bool)
    (agree : Agrees get_key equal) where
  scan-cons :
      (id : U) (q : List (ℕ × Pair U V)) (a : ℕ) (p : Pair U V) (que : List ℕ)
      → item_as a q ≡ some p
      → scan equal id q (a ∷ que) ≡ (if equal p.first id then some a else scan equal id q que)
  unfolding scan
  scan-cons id q a p que e =
      ap
        (λ o. elim o [
          | none ↦ none
          | some itm ↦ if equal itm.first id then some a else scan equal id q que
        ])
        e

  scan-nil : (id : U) (q : List (ℕ × Pair U V)) → scan equal id q [] ≡ none
  unfolding scan
  scan-nil id q = refl

  pub scan-addresses :
      (id : U) (q r : List (ℕ × Pair U V))
      → Shows q r
      → scan equal id q (addresses get_key (get_key id) r) ≡ position equal id r
  unfolding addresses position
  scan-addresses id q [] h = scan-nil id q
  scan-addresses id q ((a, p) ∷ r) h =
      let A = addresses get_key (get_key id) r in
      let rest = scan-addresses id q r (h.1) in
      if-case
        (λ que. scan equal id q que ≡ (if equal p.first id then some a else position equal id r))
        (get_key p.first == get_key id)
        (λ e. scan-cons id q a p A (h.0) ∙ ap (λ o. if equal p.first id then some a else o) rest)
        (λ e. sym (
          if-eq (equal p.first id) (λ w. absurd (==→≢ _ (get_key id) e (agree p.first id w)))
            (λ w. sym rest)))

  -- Addresses and positions after each change of the queue.
  pub addresses-append :
      (k : ℕ) (q : List (ℕ × Pair U V)) (a : ℕ) (p : Pair U V)
      → addresses get_key k (q ++ (a, p) ∷ [])
        ≡ addresses get_key k q ++ addresses get_key k ((a, p) ∷ [])
  unfolding addresses
  addresses-append k [] a p = refl
  addresses-append k ((b, x) ∷ q) a p =
      let t = get_key x.first == k in
      ap (λ rest. if t then b ∷ rest else rest) (addresses-append k q a p)
      ∙ if-push t b (addresses get_key k q) (addresses get_key k ((a, p) ∷ []))

  pub addresses-set_second :
      (k a : ℕ) (v : V) (q : List (ℕ × Pair U V))
      → addresses get_key k (set_second a v q) ≡ addresses get_key k q
  unfolding addresses set_second
  addresses-set_second k a v [] = refl
  addresses-set_second k a v ((b, p) ∷ q) =
      if-case
        (λ (r : List (ℕ × Pair U V)). addresses get_key k r ≡ addresses get_key k ((b, p) ∷ q))
        (b == a) (λ e. refl)
        (λ e.
          ap (λ rest. if get_key p.first == k then b ∷ rest else rest)
            (addresses-set_second k a v q))
