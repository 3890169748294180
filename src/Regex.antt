-- ===== src/Regex.antt =====
-- include/nodepp/regex.h: the compiled form of an expression and the strings it is matched against.
-- The engine is the graph engine (NODEPP_REGEX_GRPH), which every platform with an operating system
-- uses.
pub mod View
pub mod Weight
pub mod Compile
pub mod Match
pub mod Search
pub mod Ops
pub mod Once
pub mod Format
use nodepp.Prelude.{ℕ, Bool, true, false, not, ◌||◌, List, [], ◌∷◌, Option, none, some}
use nodepp.Text.{Text}

-- `rep`: the least number of rounds and the greatest, which is `none` where the source has -1.
pub record Rep : Type 0 where
  pub least : ℕ
  pub most : Option ℕ

-- `REGEX`, with `next` as a list in the block.
mutual
  pub data Regex : Type 0 where
    node : ℕ → ℕ → Items → Option Rep → Regex

  pub data Items : Type 0 where
    nil : Items
    cons : Regex → Items → Items

abbrev pub flag_of : Regex → ℕ
flag_of (node flag byte next rep) = flag

abbrev pub byte_of : Regex → ℕ
byte_of (node flag byte next rep) = byte

abbrev pub next_of : Regex → Items
next_of (node flag byte next rep) = next

abbrev pub rep_of : Regex → Option Rep
rep_of (node flag byte next rep) = rep

-- `next.push( item )`
unfoldable pub push_item : Items → Regex → Items
push_item nil x = cons x nil
push_item (cons y ys) x = cons y (push_item ys x)

-- `next.some( f )`
pub some_item : (Regex → Bool) → Items → Bool
some_item p nil = false
some_item p (cons x xs) = p x || some_item p xs

-- `next.none( f )`, which is false of an empty queue.
pub none_item : (Regex → Bool) → Items → Bool
unfolding some_item
none_item p nil = false
none_item p (cons x xs) = not (p x || some_item p xs)
