-- ===== src/HashMap/Valid.antt =====
-- include/nodepp/map.h: the invariant of the tree, the table and the queue.
use nodepp.Prelude.{
  ℕ, suc, ◌+◌, ◌^◌, ◌≤◌, ◌<◌, Bool, false, List, [], ◌∷◌, ◌++◌, length, ◌≡◌, ◌≢◌, ◌⊎◌, inl, inr,
  refl, sym, ap, ◌∙◌, subst, arith, All, length-append,
}
use nodepp.HashMap.{Trie, Found, Map, bucket, set_bucket}
use nodepp.HashMap.Address.{locate, Ending, kept, made}
use nodepp.HashMap.Buckets.{bucket-push, bucket-new, bucket-set, bucket-set_ne, length-set_bucket}
use nodepp.HashMap.Scan.{Distinct, cells, addresses}

-- Every number of 64 bits has an address of its own or none, and there the addresses of its pairs in
-- their order.
pub record Indexes (root : Trie) (table : List (List ℕ)) (listed : ℕ → List ℕ) : Type 0 where
  pub bounded : (k : ℕ) → k < 2 ^ 64 → locate 64 k root ≤ length table
  pub single :
      (k l : ℕ)
      → k < 2 ^ 64
      → l < 2 ^ 64
      → locate 64 k root ≢ 0
      → locate 64 k root ≡ locate 64 l root
      → k ≡ l
  pub lists : (k : ℕ) → k < 2 ^ 64 → bucket table (locate 64 k root) ≡ listed k

pub record IsValid {U V : Type 0} (get_key : U → ℕ) (m : Map U V) : Type 0 where
  pub indexes : Indexes m.root m.table (λ k. addresses get_key k m.queue)
  pub distinct : Distinct (cells m.queue)
  pub below : All (λ a. a < m.fresh) (cells m.queue)

eq_cases : (k l : ℕ) → (k ≡ l) ⊎ (k ≢ l)
eq_cases k l = omega arith

-- A walk keeps the table, or gives one number an address behind all others.
module _ (root : Trie) (table : List (List ℕ)) (listed : ℕ → List ℕ) (key : ℕ) (lt : key < 2 ^ 64)
    (f : Found) (i : Indexes root table listed)
    (others : (k : ℕ) → k < 2 ^ 64 → k ≢ key → locate 64 k f.trie ≡ locate 64 k root) where
  kept-same :
      locate 64 key f.trie ≡ locate 64 key root
      → (k : ℕ) → k < 2 ^ 64
      → locate 64 k f.trie ≡ locate 64 k root
  kept-same e k b = elim (eq_cases k key) [
    | inl w ↦ subst (λ x. locate 64 x f.trie ≡ locate 64 x root) (sym w) e
    | inr w ↦ others k b w
  ]

  kept-Indexes :
      f.table ≡ table → locate 64 key f.trie ≡ locate 64 key root → Indexes f.trie f.table listed
  kept-Indexes t e =
      let same = kept-same e in
      record {
        bounded = λ k b.
            subst (λ n. n ≤ length f.table) (sym (same k b))
              (subst (λ u. locate 64 k root ≤ length u) (sym t) (i.bounded k b));
        single =
            λ k l b c n w. i.single k l b c (λ x. n (same k b ∙ x)) (sym (same k b) ∙ w ∙ same l c);
        lists = λ k b.
            ap (bucket f.table) (same k b) ∙ ap (λ u. bucket u (locate 64 k root)) t ∙ i.lists k b;
      }

  split :
      (P : ℕ → Type 0) → P key → ((k : ℕ) → k < 2 ^ 64 → k ≢ key → P k) → (k : ℕ) → k < 2 ^ 64 → P k
  split P p q k b = elim (eq_cases k key) [ inl w ↦ subst P (sym w) p | inr w ↦ q k b w ]

  module _ (t : f.table ≡ table ++ [] ∷ []) (z : locate 64 key root ≡ 0)
      (e : locate 64 key f.trie ≡ suc (length table)) where
    longer : length f.table ≡ suc (length table)
    longer = ap length t ∙ length-append table ([] ∷ []) ∙ suc_is
      where
        suc_is : length table + 1 ≡ suc (length table)
        suc_is = omega arith

    -- The new address is no other number's.
    apart : (k : ℕ) → k < 2 ^ 64 → k ≢ key → locate 64 k f.trie ≢ suc (length table)
    apart k b w x = let old = others k b w in let most = i.bounded k b in omega arith

    made_single :
        (k l : ℕ)
        → k < 2 ^ 64
        → l < 2 ^ 64
        → locate 64 k f.trie ≢ 0
        → locate 64 k f.trie ≡ locate 64 l f.trie
        → k ≡ l
    made_single k l b c n w = elim (eq_cases k key) [
      | inl x ↦ elim (eq_cases l key) [
        | inl y ↦ x ∙ sym y
        | inr y ↦ absurd (apart l c y (sym w ∙ ap (λ a. locate 64 a f.trie) x ∙ e))
      ]
      | inr x ↦ elim (eq_cases l key) [
        | inl y ↦ absurd (apart k b x (w ∙ ap (λ a. locate 64 a f.trie) y ∙ e))
        | inr y ↦
            i.single k l b c (λ v. n (others k b x ∙ v)) (sym (others k b x) ∙ w ∙ others l c y)
      ]
    ]

    made-Indexes : Indexes f.trie f.table listed
    made-Indexes = record {
      bounded =
          split (λ k. locate 64 k f.trie ≤ length f.table) (let n = longer in omega arith)
            (λ k b w.
              let n = longer in let old = others k b w in let most = i.bounded k b in omega arith);
      single = made_single;
      lists =
          split (λ k. bucket f.table (locate 64 k f.trie) ≡ listed k)
            (ap (λ u. bucket u (locate 64 key f.trie)) t
              ∙ ap (bucket (table ++ [] ∷ [])) e
              ∙ bucket-new table
              ∙ ap (bucket table) (sym z)
              ∙ i.lists key lt)
            (λ k b w.
              ap (λ u. bucket u (locate 64 k f.trie)) t
              ∙ ap (bucket (table ++ [] ∷ [])) (others k b w)
              ∙ bucket-push table (locate 64 k root) (i.bounded k b)
              ∙ i.lists k b);
    }

  pub walk-Indexes :
      {search : Bool}
      → Ending search table (locate 64 key root) f (locate 64 key f.trie)
      → Indexes f.trie f.table listed
  walk-Indexes (kept t e a n) = kept-Indexes t e
  walk-Indexes (made t z e a) = made-Indexes t z e

-- The address that a walk returns is that of the number in the tree that it leaves, and not
-- `nullptr` unless it searches.
pub Ending-address :
    {search : Bool} {table : List (List ℕ)} {old now : ℕ} {f : Found}
    → Ending search table old f now
    → f.address ≡ now
Ending-address (kept t e a n) = a ∙ sym e
Ending-address (made t z e a) = a ∙ sym e

pub Ending-some :
    {table : List (List ℕ)} {old now : ℕ} {f : Found} → Ending false table old f now → now ≢ 0
Ending-some (kept t e a n) = λ w. n refl (sym e ∙ w)
Ending-some (made t z e a) = λ w. omega arith

-- A new bucket for a number that has an address.
pub set-Indexes :
    (root : Trie) (table : List (List ℕ)) (old new : ℕ → List ℕ) (key : ℕ)
    → key < 2 ^ 64
    → locate 64 key root ≢ 0
    → ((k : ℕ) → key ≢ k → new k ≡ old k)
    → Indexes root table old
    → Indexes root (set_bucket table (locate 64 key root) (new key)) new
set-Indexes root table old new key lt n same i =
    let long = length-set_bucket table (locate 64 key root) (new key) in
    record {
      bounded = λ k b. let most = i.bounded k b in omega arith;
      single = i.single;
      lists = λ k b. elim (eq_cases k key) [
        | inl w ↦
            subst
              (λ x.
                bucket (set_bucket table (locate 64 key root) (new key)) (locate 64 x root) ≡ new x)
              (sym w) (bucket-set table (locate 64 key root) (new key) n (i.bounded key lt))
        | inr w ↦
            bucket-set_ne table (locate 64 key root) (locate 64 k root) (new key)
              (λ v. w (sym (i.single key k lt b n v)))
            ∙ i.lists k b
            ∙ sym (same k (λ v. w (sym v)))
      ];
    }
