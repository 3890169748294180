-- ===== src/HashMap/Look.antt =====
-- include/nodepp/map.h: what the walk for a key leaves, and where the walk along its bucket stops.
use nodepp.Prelude.{ℕ, ◌^◌, ◌<◌, Bool, List, Option, none, some, ◌≡◌, sym, ap, ◌∙◌, subst}
use nodepp.HashMap.{Found, Pair, Map, bucket, look, visit, scan, is_some}
use nodepp.HashMap.Address.{Walk, get_address-Walk}
use nodepp.HashMap.Assoc.{contains}
use nodepp.HashMap.Scan.{pairs, addresses, position, Agrees, Distinct-Shows, scan-addresses}
use nodepp.HashMap.Cases.{Case, position-Case, At-contains, Absent-contains}
use nodepp.HashMap.Valid.{IsValid, walk-Indexes, Ending-address}

-- What the operations need of the numbers of the keys.
pub record IsKey {U : Type 0} (get_key : U → ℕ) (equal : U → U → Bool) : Type 0 where
  pub bits : (u : U) → get_key u < 2 ^ 64
  pub agree : Agrees get_key equal

module _ {U V : Type 0} (get_key : U → ℕ) (equal : U → U → Bool) (key : IsKey get_key equal)
    (m : Map U V) (valid : IsValid get_key m) where
  module _ (search : Bool) (id : U) where
    abbrev pub found : Found
    found = look get_key equal search id m

    pub walk : Walk 64 search (get_key id) m.table m.root found
    walk = get_address-Walk (get_key id) search m.table m.root (key.bits id)

    pub look-IsValid : IsValid get_key (visit m found)
    look-IsValid = record {
      indexes =
          walk-Indexes m.root m.table (λ k. addresses get_key k m.queue) (get_key id) (key.bits id)
            found valid.indexes (walk.others) (walk.this);
      distinct = valid.distinct;
      below = valid.below;
    }

    pub look-bucket : bucket found.table found.address ≡ addresses get_key (get_key id) m.queue
    look-bucket =
        ap (bucket found.table) (Ending-address walk.this)
        ∙ look-IsValid.indexes.lists (get_key id) (key.bits id)

    pub look-scan :
        scan equal id m.queue (bucket found.table found.address) ≡ position equal id m.queue
    look-scan =
        ap (scan equal id m.queue) look-bucket
        ∙ scan-addresses get_key equal key.agree id m.queue m.queue
            (Distinct-Shows m.queue valid.distinct)

    pub look-Case : Case equal id m.queue (scan equal id m.queue (bucket found.table found.address))
    look-Case =
        subst (Case equal id m.queue) (sym look-scan)
          (position-Case equal id m.queue valid.distinct)

module _ {U V : Type 0} (equal : U → U → Bool) where
  pub Case-contains :
      (id : U) (q : List (ℕ × Pair U V)) (o : Option ℕ)
      → Case equal id q o
      → is_some o ≡ contains equal id (pairs q)
  Case-contains id q none h = sym (Absent-contains equal id q h)
  Case-contains id q (some a) h = sym (At-contains equal id h)
