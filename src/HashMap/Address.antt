-- ===== src/HashMap/Address.antt =====
-- include/nodepp/map.h: where get_address finds and puts the address of a key.
use nodepp.Prelude.{
  ℕ, zero, suc, ◌%◌, ◌/◌, ◌^◌, ◌<◌, Bool, true, false, List, [], ◌∷◌, ◌++◌, ◌==◌, length, ◌≡◌, refl,
  sym, ◌∙◌, ◌≢◌, arith, if-eq, subst, if◌then◌else◌,
}
use nodepp.HashMap.{
  Trie, nil, node, Found, own, child, put_left, put_right, turn, get_address_loop, get_address,
}

-- The address that stands at the bits of a key, 0 for none.
unfoldable pub locate : ℕ → ℕ → Trie → ℕ
locate n key nil = 0
locate zero key (node l r v) = v
locate (suc n) key (node l r v) =
    let left = locate n (key / 2) l in
    let right = locate n (key / 2) r in if key == 0 then v else if key % 2 == 0 then left else right

pub ==→≡ : (a b : ℕ) → (a == b) ≡ true → a ≡ b
==→≡ a b h = ground arith

pub ==→≢ : (a b : ℕ) → (a == b) ≡ false → a ≢ b
==→≢ a b h = ground arith

halves : (a b : ℕ) → a % 2 ≡ b % 2 → a / 2 ≡ b / 2 → a ≡ b
halves a b p q = omega arith

odd_halves : (a b : ℕ) → a % 2 ≢ 0 → b % 2 ≢ 0 → a / 2 ≡ b / 2 → a ≡ b
odd_halves a b p q w = omega arith

pub ≡→== : {a b : ℕ} → a ≡ b → (a == b) ≡ true
≡→== h = ground arith

pub ≢→== : {a b : ℕ} → a ≢ b → (a == b) ≡ false
≢→== h = ground arith

-- Two conditionals on one test are equal where their branches are.
if-cong :
    (b : Bool) {x y z w : ℕ}
    → (b ≡ true → x ≡ z)
    → (b ≡ false → y ≡ w)
    → (if b then x else y) ≡ (if b then z else w)
if-cong true p q = p refl
if-cong false p q = q refl

pub locate-new : (n key : ℕ) → locate n key (node nil nil 0) ≡ 0
unfolding locate
locate-new zero key = refl
locate-new (suc n) key =
    if-eq (key == 0) (λ p. refl) (λ p. if-eq (key % 2 == 0) (λ q. refl) (λ q. refl))

module _ (n : ℕ) (l r : Trie) (v key : ℕ) (z : key ≢ 0) where
  locate-left : key % 2 ≡ 0 → locate (suc n) key (node l r v) ≡ locate n (key / 2) l
  unfolding locate
  locate-left e =
      if-eq (key == 0) (λ p. absurd (z (==→≡ key 0 p)))
        (λ p. if-eq (key % 2 == 0) (λ q. refl) (λ q. absurd (==→≢ (key % 2) 0 q e)))

  locate-right : key % 2 ≢ 0 → locate (suc n) key (node l r v) ≡ locate n (key / 2) r
  unfolding locate
  locate-right e =
      if-eq (key == 0) (λ p. absurd (z (==→≡ key 0 p)))
        (λ p. if-eq (key % 2 == 0) (λ q. absurd (e (==→≡ (key % 2) 0 q))) (λ q. refl))

-- How the walk for a key ends: at an address that it had, or at that of a new bucket.
pub data Ending (search : Bool) (table : List (List ℕ)) (old : ℕ) (found : Found) (now : ℕ)
    : Type 0 where
  kept :
      found.table ≡ table
      → now ≡ old
      → found.address ≡ old
      → (search ≡ false → old ≢ 0)
      → Ending search table old found now
  made :
      found.table ≡ table ++ [] ∷ []
      → old ≡ 0
      → now ≡ suc (length table)
      → found.address ≡ suc (length table)
      → Ending search table old found now

pub record Walk (n : ℕ) (search : Bool) (key : ℕ) (table : List (List ℕ)) (t : Trie) (f : Found)
    : Type 0 where
  pub others : (k : ℕ) → k < 2 ^ n → k ≢ key → locate n k f.trie ≡ locate n k t
  pub this : Ending search table (locate n key t) f (locate n key f.trie)

-- Only the address and the table of what was found are read.
Ending-eq :
    {search : Bool} {table : List (List ℕ)} {old new now last : ℕ} {f g : Found}
    → f.address ≡ g.address
    → f.table ≡ g.table
    → old ≡ new
    → now ≡ last
    → Ending search table old f now
    → Ending search table new g last
Ending-eq p q r s (kept a b c d) =
    kept (sym q ∙ a) (sym s ∙ b ∙ r) (sym p ∙ c ∙ r) (λ x y. d x (r ∙ y))
Ending-eq p q r s (made a b c d) = made (sym q ∙ a) (sym r ∙ b) (sym s ∙ c) (sym p ∙ d)

module _ (search : Bool) (table : List (List ℕ)) where
  own-Walk : (n : ℕ) (l r : Trie) (v : ℕ) → Walk n search 0 table (node l r v) (own table l r v)
  unfolding locate
  own-Walk zero l r zero = record {
    others = λ k h e. absurd (e (omega arith));
    this = made refl refl (omega arith) (omega arith);
  }
  own-Walk zero l r (suc p) = record {
    others = λ k h e. absurd (e (omega arith));
    this = kept refl refl refl (λ s. ground arith);
  }
  own-Walk (suc n) l r zero = record {
    others = λ k h e. ground arith;
    this = made refl refl (omega arith) (omega arith);
  }
  own-Walk (suc n) l r (suc p) = record {
    others = λ k h e. refl;
    this = kept refl refl refl (λ s. ground arith);
  }

module _ {n key : ℕ} {table : List (List ℕ)} where
  child-Walk :
      (search : Bool) (walk : Trie → Trie → ℕ → Found)
      → ((l r : Trie) (v : ℕ) → Walk n search key table (node l r v) (walk l r v))
      → (t : Trie) → Walk n search key table t (child search table t walk)
  unfolding locate
  child-Walk true walk h nil = record {
    others = λ k b e. refl;
    this = kept refl refl refl (λ s. ground arith);
  }
  child-Walk false walk h nil = record {
    others = λ k b e. (h nil nil 0).others k b e ∙ locate-new n k;
    this = Ending-eq refl refl (locate-new n key) refl (h nil nil 0).this;
  }
  child-Walk true walk h (node l r v) = h l r v
  child-Walk false walk h (node l r v) = h l r v

module _ {n key : ℕ} {search : Bool} {table : List (List ℕ)} (l r : Trie) (v : ℕ) {f : Found}
    (z : key ≢ 0) where
  put_left-Walk :
      key % 2 ≡ 0
      → Walk n search (key / 2) table l f
      → Walk (suc n) search key table (node l r v) (put_left r v f)
  unfolding locate
  put_left-Walk e h = record {
    others = λ k b ne.
        if-cong (k == 0) (λ p. refl)
          (λ p.
            if-cong (k % 2 == 0)
              (λ q.
                h.others (k / 2) (omega arith)
                  (λ w. ne (halves k key (==→≡ (k % 2) 0 q ∙ sym e) w)))
              (λ q. refl));
    this =
        Ending-eq refl refl (sym (locate-left n l r v key z e))
          (sym (locate-left n f.trie r v key z e)) h.this;
  }

  put_right-Walk :
      key % 2 ≢ 0
      → Walk n search (key / 2) table r f
      → Walk (suc n) search key table (node l r v) (put_right l v f)
  unfolding locate
  put_right-Walk e h = record {
    others = λ k b ne.
        if-cong (k == 0) (λ p. refl)
          (λ p.
            if-cong (k % 2 == 0) (λ q. refl)
              (λ q.
                h.others (k / 2) (omega arith)
                  (λ w. ne (odd_halves k key (==→≢ (k % 2) 0 q) e w))));
    this =
        Ending-eq refl refl (sym (locate-right n l r v key z e))
          (sym (locate-right n l f.trie v key z e)) h.this;
  }

turn-Walk :
    (n key : ℕ) (search : Bool) (table : List (List ℕ)) (walk : Trie → Trie → ℕ → Found)
    → ((l r : Trie) (v : ℕ) → Walk n search (key / 2) table (node l r v) (walk l r v))
    → (l r : Trie) (v : ℕ) (z e : Bool) → (key == 0) ≡ z
    → (key % 2 == 0) ≡ e
    → Walk (suc n) search key table (node l r v) (turn z e search table l r v walk)
turn-Walk n key search table walk h l r v true e p q =
    subst (λ k. Walk (suc n) search k table (node l r v) (own table l r v)) (sym (==→≡ key 0 p))
      (own-Walk search table (suc n) l r v)
turn-Walk n key search table walk h l r v false true p q =
    put_left-Walk l r v (==→≢ key 0 p) (==→≡ (key % 2) 0 q) (child-Walk search walk h l)
turn-Walk n key search table walk h l r v false false p q =
    put_right-Walk l r v (==→≢ key 0 p) (==→≢ (key % 2) 0 q) (child-Walk search walk h r)

get_address_loop-Walk :
    (n key : ℕ) (search : Bool) (table : List (List ℕ)) (l r : Trie) (v : ℕ)
    → key < 2 ^ n
    → Walk n search key table (node l r v) (get_address_loop n search key table l r v)
unfolding get_address_loop
get_address_loop-Walk zero key search table l r v b =
    subst (λ k. Walk 0 search k table (node l r v) (own table l r v)) (omega arith)
      (own-Walk search table 0 l r v)
get_address_loop-Walk (suc n) key search table l r v b =
    turn-Walk n key search table (get_address_loop n search (key / 2) table)
      (λ l2 r2 v2. get_address_loop-Walk n (key / 2) search table l2 r2 v2 (omega arith)) l r v
      (key == 0) (key % 2 == 0) refl refl

pub get_address-Walk :
    (key : ℕ) (search : Bool) (table : List (List ℕ)) (root : Trie)
    → key < 2 ^ 64
    → Walk 64 search key table root (get_address search key table root)
unfolding get_address
get_address-Walk key search table root b =
    child-Walk search (get_address_loop 64 search key table)
      (λ l r v. get_address_loop-Walk 64 key search table l r v b) root
