-- ===== src/HashMap/Assoc.antt =====
-- What include/nodepp/map.h promises, on the list of the pairs alone: no tree and no table.
use nodepp.Prelude.{Bool, true, false, List, [], ◌∷◌, Option, none, some, if◌then◌else◌}
use nodepp.HashMap.{Pair}

module _ {U V : Type 0} (equal : U → U → Bool) where
  unfoldable pub contains : U → List (Pair U V) → Bool
  contains id [] = false
  contains id (p ∷ ps) = if equal p.first id then true else contains id ps

  unfoldable pub lookup : U → List (Pair U V) → Option V
  lookup id [] = none
  lookup id (p ∷ ps) = if equal p.first id then some p.second else lookup id ps

  -- The first pair with the key gets the value, and a new pair is put at the end if there is none.
  unfoldable pub assoc_set : U → V → List (Pair U V) → List (Pair U V)
  assoc_set id v [] = record { first = id; second = v } ∷ []
  assoc_set id v (p ∷ ps) =
      if equal p.first id then record p { second = v } ∷ ps else p ∷ assoc_set id v ps

  unfoldable pub assoc_erase : U → List (Pair U V) → List (Pair U V)
  assoc_erase id [] = []
  assoc_erase id (p ∷ ps) = if equal p.first id then ps else p ∷ assoc_erase id ps
