-- ===== src/Loop/Tests.antt =====
-- A queue of two tasks that wait.
use nodepp.Prelude.{◌≡◌, refl, List, [], ◌∷◌, arith}
use nodepp.Loop.{Timed, block, blocked_queue_next, get_delay}
use nodepp.Loop.Blocked.{Rising, Moved, blocked_queue_next-Moved}

abbrev waiting : List Timed
waiting = (10, 1) ∷ (30, 2) ∷ []

waiting-Rising : Rising waiting
waiting-Rising = ((omega arith, tt), (tt, tt))

-- A delay of 15 at 5 puts the task between the two.
between : block 15 5 3 waiting ≡ (10, 1) ∷ (20, 3) ∷ (30, 2) ∷ []
unfolding block
between = refl

-- With nothing to run, the loop may sleep until the first of them.
sleeps : get_delay 4 (record { normal = []; blocked = waiting }) ≡ 6
unfolding get_delay
sleeps = refl

blocked_queue_next-Moved_example :
    Moved 20 waiting (9 ∷ []) (blocked_queue_next 20 waiting (9 ∷ []))
blocked_queue_next-Moved_example = blocked_queue_next-Moved 20 waiting (9 ∷ []) waiting-Rising
