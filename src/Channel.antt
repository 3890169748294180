-- ===== src/Channel.antt =====
-- include/nodepp/channel.h: `channel_t`, a queue with a limit. Each operation runs under the mutex,
-- so the operations of several threads are a sequence of these.
pub mod Limit
pub mod Tests
use nodepp.Prelude.{
  ℕ, zero, suc, ◌+◌, Bool, true, false, ◌&&◌, List, [], ◌∷◌, ltb, leb, if◌then◌else◌,
}
use nodepp.Queue
use nodepp.Queue.{Queue, push}
use nodepp.Queue.Walk.{data_of, clear}

pub record Channel (A : Type 0) : Type 0 where
  pub queue : Queue A
  pub limit : ℕ

module _ {A : Type 0} where
  abbrev pub is_empty : Channel A → Bool
  is_empty c = Queue.is_empty c.queue

  abbrev pub size : Channel A → ℕ
  size c = if is_empty c then 0 else c.queue.size

  -- `obj->limit>0 && obj->queue.size()>=obj->limit`
  abbrev pub is_full : Channel A → Bool
  is_full c = ltb 0 c.limit && leb c.limit (size c)

  -- What was read, and the channel after it.
  pub read : Channel A → List A × Channel A
  read c = if is_empty c then ([], c) else (data_of c.queue, record c { queue = clear c.queue })

  -- `iterator::some` calls its function on every value: one that finds no room is passed over.
  pub write_loop : ℕ → Channel A → List A → ℕ × Channel A
  write_loop x c [] = (x, c)
  write_loop x c (v ∷ vs) =
      write_loop (if is_full c then x else x + 1)
        (if is_full c then c else record c { queue = push c.queue v }) vs

  -- How many values were taken, and the channel after it.
  pub write : Channel A → List A → ℕ × Channel A
  unfolding write_loop
  write c vs = write_loop 0 c vs

  pub clear_all : Channel A → Channel A
  clear_all c = record c { queue = clear c.queue }
