-- ===== src/Event/Nodes.antt =====
-- include/nodepp/event.h: the addresses of the listeners of an event.
use nodepp.Prelude.{
  ℕ, suc, ◌+◌, ◌<◌, ◌≡◌, ◌≢◌, refl, ap, sym, ◌∙◌, subst, true, false, All, List, [], ◌∷◌, ◌++◌, map,
  length, Option, none, some, ◌==◌, if◌then◌else◌, if-case, if-false, if-true, Bool-cases, arith,
  inl, inr,
}
use nodepp.Prelude.Distinct.{Distinct, All-last, All-mono, Distinct-last}
use nodepp.Event.{
  Event, Listener, find, erase, close, next_of, first_of, drop_last, erase_item, erase_all,
}

abbrev pub addresses : List Listener → List ℕ
addresses ls = map Listener.address ls

-- Nodes that are not null, differ from each other, and were made before the next one.
pub record Nodes (fresh : ℕ) (ls : List Listener) : Type 0 where
  pub distinct : Distinct (addresses ls)
  pub made : All (λ a. (0 < a) × (a < fresh)) (addresses ls)
  pub next : 0 < fresh

==→≡ : (a b : ℕ) → (a == b) ≡ true → a ≡ b
==→≡ a b h = ground arith

==→≢ : (a b : ℕ) → (a == b) ≡ false → a ≢ b
==→≢ a b h = ground arith

≢→== : (a b : ℕ) → a ≢ b → (a == b) ≡ false
≢→== a b h = ground arith

self_== : (a : ℕ) → (a == a) ≡ true
self_== a = ground arith

-- The operations on the queue, on its addresses.
abbrev pub erase_in : ℕ → List ℕ → List ℕ
erase_in a [] = []
erase_in a (b ∷ bs) = let rest = erase_in a bs in if b == a then rest else b ∷ rest

abbrev pub first_in : List ℕ → ℕ
first_in [] = 0
first_in (a ∷ bs) = a

pub first_of-addresses : (ls : List Listener) → first_of ls ≡ first_in (addresses ls)
first_of-addresses [] = refl
first_of-addresses (l ∷ ls) = refl

pub addresses-erase :
    (a : ℕ) (ls : List Listener) → addresses (erase a ls) ≡ erase_in a (addresses ls)
addresses-erase a [] = refl
addresses-erase a (l ∷ ls) =
    if-case (λ (r : List Listener). addresses r ≡ erase_in a (addresses (l ∷ ls))) (l.address == a)
      (λ e. addresses-erase a ls ∙ sym (if-true (erase_in a (addresses ls)) _ e))
      (λ e.
        ap (◌∷◌ l.address) (addresses-erase a ls) ∙ sym (if-false (erase_in a (addresses ls)) _ e))

pub addresses-close : (a : ℕ) (ls : List Listener) → addresses (close a ls) ≡ addresses ls
addresses-close a [] = refl
addresses-close a (l ∷ ls) =
    if-case (λ (k : Listener). k.address ∷ addresses (close a ls) ≡ addresses (l ∷ ls))
      (l.address == a) (λ e. ap (◌∷◌ l.address) (addresses-close a ls))
      (λ e. ap (◌∷◌ l.address) (addresses-close a ls))

pub addresses-append :
    (ls : List Listener) (l : Listener) → addresses (ls ++ l ∷ []) ≡ addresses ls ++ l.address ∷ []
addresses-append [] l = refl
addresses-append (k ∷ ls) l = ap (◌∷◌ k.address) (addresses-append ls l)

-- A node whose address is in the queue is found.
abbrev pub Found : ℕ → List Listener → Type 0
Found a ls = (l : Listener) × (find a ls ≡ some l)

found_cons :
    (a : ℕ) (l : Listener) (ls : List Listener) → (l.address ≢ a → Found a ls) → Found a (l ∷ ls)
found_cons a l ls h = elim (Bool-cases (l.address == a)) [
  | inl e ↦ (l, if-true (some l) _ e)
  | inr e ↦ let (k, w) = h (==→≢ l.address a e) in (k, if-false (some l) _ e ∙ w)
]

abbrev tail_in : List ℕ → List ℕ
tail_in [] = []
tail_in (a ∷ bs) = bs

nil_cons : {b : ℕ} {bs : List ℕ} → [] ≢ b ∷ bs
nil_cons {b = b} {bs = bs} e = let n = ap length e in absurd (zero_suc (length bs) n)
  where
    zero_suc : (n : ℕ) → 0 ≢ suc n
    zero_suc n w = omega arith

pub find_middle :
    (ls : List Listener) (ks : List ℕ) (a : ℕ) (rs : List ℕ)
    → addresses ls ≡ ks ++ a ∷ rs
    → Found a ls
find_middle [] [] a rs e = absurd (nil_cons e)
find_middle [] (k ∷ ks) a rs e = absurd (nil_cons e)
find_middle (l ∷ ls) [] a rs e = found_cons a l ls (λ n. absurd (n (ap first_in e)))
find_middle (l ∷ ls) (k ∷ ks) a rs e =
    found_cons a l ls (λ n. find_middle ls ks a rs (ap tail_in e))

next_in : ℕ → List ℕ → ℕ
next_in a [] = 0
next_in a (b ∷ []) = 0
next_in a (b ∷ c ∷ bs) = let rest = next_in a (c ∷ bs) in if b == a then c else rest

next_of-addresses : (a : ℕ) (ls : List Listener) → next_of a ls ≡ next_in a (addresses ls)
unfolding next_in
next_of-addresses a [] = refl
next_of-addresses a (l ∷ []) = refl
next_of-addresses a (l ∷ m ∷ ls) =
    ap (λ n. if l.address == a then m.address else n) (next_of-addresses a (m ∷ ls))

All-middle : (P : ℕ → Type 0) (ks : List ℕ) (a : ℕ) (rs : List ℕ) → All P (ks ++ a ∷ rs) → P a
All-middle P [] a rs h = h.0
All-middle P (k ∷ ks) a rs h = All-middle P ks a rs (h.1)

next_in-middle :
    (ks : List ℕ) (a : ℕ) (rs : List ℕ)
    → Distinct (ks ++ a ∷ rs)
    → next_in a (ks ++ a ∷ rs) ≡ first_in rs
unfolding next_in
next_in-middle [] a [] d = refl
next_in-middle [] a (r ∷ rs) d = if-true r _ (self_== a)
next_in-middle (k ∷ []) a rs d = if-false a _ (≢→== k a (d.0.0)) ∙ next_in-middle [] a rs (d.1)
next_in-middle (k ∷ j ∷ ks) a rs d =
    if-false j _ (≢→== k a (All-middle (λ b. k ≢ b) (j ∷ ks) a rs (d.0)))
    ∙ next_in-middle (j ∷ ks) a rs (d.1)

erase_in-missing : (a : ℕ) (bs : List ℕ) → All (λ b. a ≢ b) bs → erase_in a bs ≡ bs
erase_in-missing a [] h = refl
erase_in-missing a (b ∷ bs) h =
    if-false (erase_in a bs) _ (≢→== b a (λ e. h.0 (sym e)))
    ∙ ap (◌∷◌ b) (erase_in-missing a bs (h.1))

erase_in-middle :
    (ks : List ℕ) (a : ℕ) (rs : List ℕ)
    → Distinct (ks ++ a ∷ rs)
    → erase_in a (ks ++ a ∷ rs) ≡ ks ++ rs
erase_in-middle [] a rs d = if-true (erase_in a rs) _ (self_== a) ∙ erase_in-missing a rs (d.0)
erase_in-middle (k ∷ ks) a rs d =
    if-false (erase_in a (ks ++ a ∷ rs)) _ (≢→== k a (All-middle (λ b. k ≢ b) ks a rs (d.0)))
    ∙ ap (◌∷◌ k) (erase_in-middle ks a rs (d.1))

erase_in-All : (P : ℕ → Type 0) (a : ℕ) (bs : List ℕ) → All P bs → All P (erase_in a bs)
erase_in-All P a [] h = tt
erase_in-All P a (b ∷ bs) h =
    if-case (All P) (b == a) (λ e. erase_in-All P a bs (h.1))
      (λ e. (h.0, erase_in-All P a bs (h.1)))

erase_in-Distinct : (a : ℕ) (bs : List ℕ) → Distinct bs → Distinct (erase_in a bs)
erase_in-Distinct a [] d = tt
erase_in-Distinct a (b ∷ bs) d =
    if-case Distinct (b == a) (λ e. erase_in-Distinct a bs (d.1))
      (λ e. (erase_in-All (λ c. b ≢ c) a bs (d.0), erase_in-Distinct a bs (d.1)))

drop_last-All :
    (P : ℕ → Type 0) (ls : List Listener) → All P (addresses ls) → All P (addresses (drop_last ls))
drop_last-All P [] h = tt
drop_last-All P (l ∷ []) h = tt
drop_last-All P (l ∷ m ∷ ls) h = (h.0, drop_last-All P (m ∷ ls) (h.1))

drop_last-Distinct :
    (ls : List Listener) → Distinct (addresses ls) → Distinct (addresses (drop_last ls))
drop_last-Distinct [] d = tt
drop_last-Distinct (l ∷ []) d = tt
drop_last-Distinct (l ∷ m ∷ ls) d =
    (drop_last-All (λ b. l.address ≢ b) (m ∷ ls) (d.0), drop_last-Distinct (m ∷ ls) (d.1))

module _ {fresh : ℕ} where
  pub erase-Nodes : (a : ℕ) (ls : List Listener) → Nodes fresh ls → Nodes fresh (erase a ls)
  erase-Nodes a ls n = record {
    distinct =
        subst Distinct (sym (addresses-erase a ls)) (erase_in-Distinct a (addresses ls) n.distinct);
    made =
        subst (All (λ b. (0 < b) × (b < fresh))) (sym (addresses-erase a ls))
          (erase_in-All (λ b. (0 < b) × (b < fresh)) a (addresses ls) n.made);
    next = n.next;
  }

  pub close-Nodes : (a : ℕ) (ls : List Listener) → Nodes fresh ls → Nodes fresh (close a ls)
  close-Nodes a ls n = record {
    distinct = subst Distinct (sym (addresses-close a ls)) n.distinct;
    made = subst (All (λ b. (0 < b) × (b < fresh))) (sym (addresses-close a ls)) n.made;
    next = n.next;
  }

  pub add-Nodes :
      (flag : ℕ) (ls : List Listener)
      → Nodes fresh ls
      → Nodes (fresh + 1) (ls ++ record { address = fresh; flag = flag } ∷ [])
  add-Nodes flag ls n =
      let more = addresses-append ls (record { address = fresh; flag = flag }) in
      record {
        distinct = subst Distinct (sym more) (
            Distinct-last (addresses ls) fresh
              (All-mono (λ b. (0 < b) × (b < fresh)) (λ b. b < fresh) (λ b h. h.1) (addresses ls)
                n.made)
              n.distinct);
        made = subst (All (λ b. (0 < b) × (b < fresh + 1))) (sym more) (
            All-last (λ b. (0 < b) × (b < fresh + 1)) (addresses ls) fresh
              (All-mono (λ b. (0 < b) × (b < fresh)) (λ b. (0 < b) × (b < fresh + 1))
                (λ b h. (h.0, omega (arith, h.1))) (addresses ls) n.made)
              (n.next, omega arith));
        next = omega arith;
      }

  pub erase_item-Nodes :
      (a : ℕ) (ls : List Listener) → Nodes fresh ls → Nodes fresh (erase_item a ls)
  erase_item-Nodes a ls n = item (find a ls)
    where
      item :
          (o : Option Listener) → Nodes fresh (elim o [ none ↦ drop_last ls | some l ↦ erase a ls ])
      item none = record {
        distinct = drop_last-Distinct ls n.distinct;
        made = drop_last-All (λ b. (0 < b) × (b < fresh)) ls n.made;
        next = n.next;
      }
      item (some l) = erase-Nodes a ls n

  pub erase_all-Nodes :
      (bs : List ℕ) (ls : List Listener) → Nodes fresh ls → Nodes fresh (erase_all bs ls)
  erase_all-Nodes [] ls n = n
  erase_all-Nodes (b ∷ bs) ls n = erase_all-Nodes bs (erase_item b ls) (erase_item-Nodes b ls n)

-- The place of the loop: the addresses before its node, the node's, and those behind.
module _ (e : Event) (ks : List ℕ) (a : ℕ) (rs : List ℕ) (place : addresses e.que ≡ ks ++ a ∷ rs)
    (n : Nodes e.fresh e.que) where
  apart : Distinct (ks ++ a ∷ rs)
  apart = subst Distinct place n.distinct

  pub next_of-middle : next_of a e.que ≡ first_in rs
  next_of-middle = next_of-addresses a e.que ∙ ap (next_in a) place ∙ next_in-middle ks a rs apart

  pub erase-middle : addresses (erase a e.que) ≡ ks ++ rs
  erase-middle = addresses-erase a e.que ∙ ap (erase_in a) place ∙ erase_in-middle ks a rs apart

  pub not_null : a ≢ 0
  not_null =
      let pos =
        All-middle (λ b. (0 < b) × (b < e.fresh)) ks a rs
          (subst (All (λ b. (0 < b) × (b < e.fresh))) place n.made) in
      λ z. omega (arith, pos.0)
