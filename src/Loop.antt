-- ===== src/Loop.antt =====
-- include/nodepp/loop.h: `loop_t`, the full engine: the tasks that wait for a time, the order of their
-- queue, and the time that the loop may sleep. A task is the address of its node; `stamp` is what
-- process::now() gave.
pub mod Blocked
pub mod Tests
use nodepp.Prelude.{
  ℕ, zero, suc, ◌+◌, ◌-◌, ◌%◌, ◌^◌, min, Bool, true, false, List, [], ◌∷◌, ◌++◌, Option, none, some,
  take, drop, ltb, leb, if◌then◌else◌,
}

-- NODE_TASK: the time to wake at, and the task.
abbrev pub Timed : Type 0
Timed = ℕ × ℕ

pub record Loop : Type 0 where
  pub normal : List ℕ
  pub blocked : List Timed

-- The last entry of the queue whose time is not after `time`.
abbrev pub last_until : ℕ → List Timed → Option ℕ
last_until time [] = none
last_until time (x ∷ xs) = elim (last_until time xs) [
  | some i ↦ some (suc i)
  | none ↦ if leb x.0 time then some 0 else none
]

-- The node behind this entry, or the first one; the index past the end is null.
abbrev pub get_nearest_timeout : ℕ → List Timed → ℕ
get_nearest_timeout time blocked = elim (last_until time blocked) [ none ↦ 0 | some i ↦ suc i ]

-- A task that asked for a delay of `d`: the branch GOT3 of `normal_queue_next`.
pub block : ℕ → ℕ → ℕ → List Timed → List Timed
block d stamp task blocked =
    let wake_time = min ((d + stamp) % 2 ^ 64) (2 ^ 32 - 1) in
    let i = get_nearest_timeout wake_time blocked in
    take i blocked ++ (wake_time, task) ∷ drop i blocked

-- `blocked_queue_next`: the two queues after it.
pub blocked_queue_next : ℕ → List Timed → List ℕ → Loop
blocked_queue_next stamp [] normal = record { normal = normal; blocked = [] }
blocked_queue_next stamp (x ∷ xs) normal =
    let rest = blocked_queue_next stamp xs (x.1 ∷ normal) in
    if ltb stamp x.0
    then record { normal = normal; blocked = x ∷ xs }
    else if ltb x.0 stamp
    then rest
    else record { normal = normal; blocked = x ∷ xs }

-- For how long nothing is to be done.
pub get_delay : ℕ → Loop → ℕ
get_delay now loop = elim loop.normal [
  | n ∷ ns ↦ 0
  | [] ↦ elim loop.blocked [
    | [] ↦ 0
    | x ∷ xs ↦
        let out = x.0 - now in
        if ltb now x.0 then (if ltb (2 ^ 32 - 1) out then 2 ^ 32 - 1 else out) else 0
  ]
]
