-- ===== src/Event/Emit.antt =====
-- What an emission leaves of the listeners, and that it meets no node that is gone.
use nodepp.Prelude.{ℕ, ◌≡◌, Bool, List, ◌++◌, Option, none, some, ◌+◌, ◌<◌, length}
use nodepp.Event.{Event, Action, emit_loop, Result, done, dangling, out_of_fuel}
use nodepp.Event.Nodes.{addresses, first_in}
use nodepp.Event.Running.{Running}

-- What a loop with `left` nodes in front of it comes to: an end with a property, or the end of the
-- fuel, which takes as many listeners, old or new.
abbrev pub Ends : (Event → Type 0) → ℕ → ℕ → ℕ → Result → Type 0
Ends P fuel fresh left (done e called) = P e
Ends P fuel fresh left dangling = ⊥
Ends P fuel fresh left (out_of_fuel e called) = fuel + fresh < left + e.fresh

-- What a callback leaves when its own node has been dealt with, with `rs` behind it.
Leaves : List ℕ → ℕ → Option Event → Type 0
Leaves rs fresh none = ⊥
Leaves rs fresh (some e) =
    Running e × ((ks : List ℕ) × (addresses e.que ≡ ks ++ rs)) × (e.fresh ≡ fresh)

-- A loop that goes on from a place in the queue.
abbrev Goes : (ℕ → List Action × Bool) → ℕ → Type 0
Goes react fuel =
    (ks rs : List ℕ) (e : Event) (called : List ℕ)
    → Running e
    → addresses e.que ≡ ks ++ rs
    → Ends Running fuel e.fresh (length rs) (emit_loop react fuel (first_in rs) e called)
