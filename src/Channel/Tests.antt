-- ===== src/Channel/Tests.antt =====
-- A channel with room for two values, to which three are written.
use nodepp.Prelude.{ℕ, ◌≡◌, false, List, [], ◌∷◌}
use nodepp.Queue.{Node, empty_queue}
use nodepp.Queue.Holds.{Holds, empty-Holds}
use nodepp.Channel.{Channel, read, write}
use nodepp.Channel.Limit.{Took, write-Took, read-Holds}

abbrev memory : ℕ → Node ℕ
memory a = record { sign = false; next = 0; prev = 0; value = 0 }

abbrev channel : Channel ℕ
channel = record { queue = empty_queue memory; limit = 2 }

abbrev three : List ℕ
three = 7 ∷ 8 ∷ 9 ∷ []

write-Took_example : Took channel [] three 0 2 (write channel three)
write-Took_example = write-Took channel [] three (empty-Holds memory)

read-Holds_example :
    ((read (write channel three).1).0 ≡ 7 ∷ 8 ∷ [])
    × Holds (read (write channel three).1).1.queue []
    × ((read (write channel three).1).1.limit ≡ (write channel three).1.limit)
read-Holds_example =
    read-Holds (write channel three).1 (7 ∷ 8 ∷ [])
      (write-Took channel [] three (empty-Holds memory)).holds
