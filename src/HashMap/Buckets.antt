-- ===== src/HashMap/Buckets.antt =====
-- include/nodepp/map.h: the table of buckets.
use nodepp.Prelude.{
  ℕ, zero, suc, ◌≤◌, ◌<◌, List, [], ◌∷◌, ◌++◌, length, get_or, set, ◌≡◌, ◌≢◌, refl, ap, arith,
  length-set,
}
use nodepp.HashMap.{bucket, set_bucket}

module _ (table : List (List ℕ)) where
  pub bucket-push : (a : ℕ) → a ≤ length table → bucket (table ++ [] ∷ []) a ≡ bucket table a
  bucket-push zero h = refl
  bucket-push (suc p) h = get_or-push table p (omega arith)
    where
      get_or-push :
          (t : List (List ℕ)) (q : ℕ) → q < length t → get_or (t ++ [] ∷ []) q [] ≡ get_or t q []
      get_or-push [] q b = absurd (omega arith)
      get_or-push (x ∷ t) zero b = refl
      get_or-push (x ∷ t) (suc q) b = get_or-push t q (omega arith)

  pub bucket-new : bucket (table ++ [] ∷ []) (suc (length table)) ≡ []
  bucket-new = get_or-new table
    where
      get_or-new : (t : List (List ℕ)) → get_or (t ++ [] ∷ []) (length t) [] ≡ []
      get_or-new [] = refl
      get_or-new (x ∷ t) = get_or-new t

  pub bucket-set :
      (a : ℕ) (que : List ℕ) → a ≢ 0 → a ≤ length table → bucket (set_bucket table a que) a ≡ que
  bucket-set zero que n h = absurd (n refl)
  bucket-set (suc p) que n h = get_or-set table p (omega arith)
    where
      get_or-set : (t : List (List ℕ)) (q : ℕ) → q < length t → get_or (set t q que) q [] ≡ que
      get_or-set [] q b = absurd (omega arith)
      get_or-set (x ∷ t) zero b = refl
      get_or-set (x ∷ t) (suc q) b = get_or-set t q (omega arith)

  pub bucket-set_ne :
      (a b : ℕ) (que : List ℕ) → a ≢ b → bucket (set_bucket table a que) b ≡ bucket table b
  bucket-set_ne zero b que n = refl
  bucket-set_ne (suc p) zero que n = refl
  bucket-set_ne (suc p) (suc r) que n = get_or-set_ne table p r (λ e. n (ap suc e))
    where
      get_or-set_ne :
          (t : List (List ℕ)) (q s : ℕ) → q ≢ s → get_or (set t q que) s [] ≡ get_or t s []
      get_or-set_ne [] q s b = refl
      get_or-set_ne (x ∷ t) zero zero b = absurd (b refl)
      get_or-set_ne (x ∷ t) zero (suc s) b = refl
      get_or-set_ne (x ∷ t) (suc q) zero b = refl
      get_or-set_ne (x ∷ t) (suc q) (suc s) b = get_or-set_ne t q s (λ e. b (ap suc e))

  pub length-set_bucket : (a : ℕ) (que : List ℕ) → length (set_bucket table a que) ≡ length table
  length-set_bucket zero que = refl
  length-set_bucket (suc p) que = length-set table p que
