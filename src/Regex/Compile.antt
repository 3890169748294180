-- ===== src/Regex/Compile.antt =====
-- include/nodepp/regex.h: `compile` and what it calls.
pub mod Plain
pub mod Refused
use nodepp.Prelude.{
  ℕ, zero, suc, ◌+◌, ◌-◌, ◌*◌, ◌%◌, min, max, Bool, true, false, not, ◌&&◌, ◌||◌, Option, none,
  some, List, [], ◌∷◌, ◌++◌, ltb, leb, ◌==◌, if◌then◌else◌,
}
use nodepp.Prelude.Int.{ℤ, pos}
use nodepp.Range.{slice_range}
use nodepp.Text.{Text}
use nodepp.Text.Char.{is_digit}
use nodepp.Regex.{Rep, Regex, node, Items, nil, cons, next_of, push_item}
use nodepp.Regex.View.{View, whole, size, at, slice_view}

-- An expression with its flag.
pub record Pattern : Type 0 where
  pub queue : Regex
  pub icase : Bool

-- `refused` is the result -1 of `compile_pattern`, `fault` a read of the null string, and `stuck`
-- a run that is out of fuel.
pub data Outcome (A : Type 0) : Type 0 where
  done : A → Outcome A
  refused : Outcome A
  fault : Outcome A
  stuck : Outcome A

infixl 5 ◌>>=◌
abbrev pub ◌>>=◌ : {A B : Type 0} → Outcome A → (A → Outcome B) → Outcome B
done a >>= f = f a
refused >>= f = refused
fault >>= f = fault
stuck >>= f = stuck

-- What one byte does to `k`, a `uchar`, in `get_next_key`.
key_depth : ℕ → ℕ → ℕ
key_depth c k =
    if c == b'['
    then (k + 1) % 256
    else if c == b']'
    then (k + 255) % 256
    else if c == b'('
    then (k + 2) % 256
    else if c == b')'
    then (k + 254) % 256
    else if c == b'{'
    then (k + 3) % 256
    else if c == b'}'
    then (k + 253) % 256
    else k

-- `rounds` is at least the number of bytes from `off` on.
pub next_key_loop : ℕ → View → ℕ → ℕ → ℕ
unfolding key_depth at
next_key_loop zero p off k = off
next_key_loop (suc rounds) p off k =
    let c = at p off in
    let off' = if c == b'\\' then off + 1 else off in
    let k' = key_depth c k in
    let rest = next_key_loop rounds p (off' + 1) k' in
    if ltb off (size p) && ltb k 0x7f then if k' == 0 then off' else rest else off

unfoldable pub get_next_key : View → ℕ → ℕ
unfolding next_key_loop
get_next_key p off = next_key_loop (suc (size p)) p off 0

pub next_regex_loop : ℕ → View → ℕ → List ℕ → List ℕ
unfolding get_next_key at
next_regex_loop zero p off out = out ++ size p ∷ []
next_regex_loop (suc rounds) p off out =
    let bar = at p off == b'|' in
    let out' = if bar then out ++ off ∷ [] else out in
    let off' = if bar then off + 1 else off in
    let c = at p off' in
    let inside = get_next_key p off' in
    let step = if c == b'\\' then off' + 2 else off' + 1 in
    let jump = (c == b'[' || c == b'{') || c == b'(' in
    let rest = next_regex_loop rounds p (if jump then inside else step) out' in
    if ltb off (size p) then rest else out ++ size p ∷ []

-- Where the alternatives end, which the source keeps as `int`: this is for patterns of fewer than
-- 2 ^ 31 bytes, where no offset wraps. A bracket at which `get_next_key` stops is passed in the next round, so
-- twice the size is enough rounds.
unfoldable pub get_next_regex : View → ℕ → List ℕ
unfolding next_regex_loop
get_next_regex p off = next_regex_loop (suc (2 * size p)) p off []

-- `string::to_int` of a text of digits, as far as an `int` reaches.
digits_value : ℕ → Text → ℕ
digits_value acc [] = acc
digits_value acc (c ∷ cs) = digits_value (acc * 10 + (c - b'0')) cs

-- The two texts `num`; `b` says to which of them a digit goes.
rep_digits : Bool → Text → Text → Text → Text × Text
unfolding is_digit
rep_digits b lo hi [] = (lo, hi)
rep_digits b lo hi (c ∷ cs) =
    let digit = is_digit c in
    rep_digits (if digit then b else not b) (if digit && not b then lo ++ c ∷ [] else lo)
      (if digit && b then hi ++ c ∷ [] else hi) cs

is_null : Text → Bool
is_null [] = true
is_null (c ∷ cs) = false

pub get_rep : View → ℕ → ℕ → Rep
unfolding rep_digits digits_value is_null slice_view
get_rep p start stop =
    let num = rep_digits false [] [] (slice_view p (pos (start + 1)) (pos stop)).bytes in
    let lo = digits_value 0 num.0 in
    record { least = lo; most = some (if is_null num.1 then lo else digits_value 0 num.1) }

-- The repetition at `off`, and where it ends.
pub get_next_repeat : View → ℕ → Option Rep × ℕ
unfolding get_rep get_next_key at
get_next_repeat p off =
    let c = at p off in
    let stop = get_next_key p off in
    if c == b'{'
    then (some (get_rep p off stop), stop)
    else if c == b'?'
    then (some (record { least = 0; most = some 1 }), off)
    else if c == b'*'
    then (some (record { least = 0; most = none }), off)
    else if c == b'+'
    then (some (record { least = 1; most = none }), off)
    else (none, off)

-- An item that stands for one byte.
abbrev pub literal : ℕ → Regex
literal c = node 0x00 c nil none

push_run : ℕ → ℕ → Items → Items
unfolding push_item
push_run zero c out = out
push_run (suc n) c out = push_run n (c + 1) (push_item out (literal c))

-- `for( uchar y=a; y<=b; ++y )` of two `char`, which are signed: none where one is 128 or more.
push_between : ℕ → ℕ → Items → Items
unfolding push_run
push_between a b out =
    if ltb a 128 && ltb b 128 then push_run (max a b - min a b + 1) (min a b) out else out

pub range_loop : ℕ → View → ℕ → Items → Items
unfolding push_between push_item at
range_loop zero p x out = out
range_loop (suc rounds) p x out =
    let escaped = at p x == b'\\' in
    let ranged = at p (x + 1) == b'-' && ltb (x + 2) (size p) in
    let out' =
      if escaped
      then if ltb (x + 1) (size p) then push_item out (literal (at p (x + 1))) else out
      else if ranged
      then push_between (at p x) (at p (x + 2)) out
      else push_item out (literal (at p x)) in
    let x' = if escaped then x + 2 else if ranged then x + 3 else x + 1 in
    let rest = range_loop rounds p x' out' in if ltb x (size p) then rest else out

-- The bytes of a set.
pub compile_range : View → Items
unfolding range_loop
compile_range p = range_loop (size p) p 0 nil

-- The class after a backslash.
pub escape : ℕ → Regex
escape c =
    if c == b'b'
    then node 0x03 0xff nil none
    else if c == b'B'
    then node 0x03 0x00 nil none
    else if c == b'w'
    then node 0x04 0xff nil none
    else if c == b'W'
    then node 0x04 0x00 nil none
    else if c == b'd'
    then node 0x05 0xff nil none
    else if c == b'D'
    then node 0x05 0x00 nil none
    else if c == b's'
    then node 0x06 0xff nil none
    else if c == b'S'
    then node 0x06 0x00 nil none
    else if c == b'n'
    then node 0x07 0xff nil none
    else if c == b'N'
    then node 0x07 0x00 nil none
    else literal c

pub is_stray : ℕ → Bool
is_stray c = ((c == b']' || c == b'{') || c == b'}') || c == b')'

-- An item that is no group, and the offset of its last byte.
unfoldable pub compile_item : View → ℕ → Outcome (Regex × ℕ)
unfolding is_stray escape compile_range get_next_key at slice_view
compile_item p off =
    let c = at p off in
    let stop = get_next_key p off in
    let negated = at p (off + 1) == b'^' in
    let beg = if negated then off + 2 else off + 1 in
    if is_stray c
    then refused
    else if c == b'['
    then if leb (size p) stop
      then refused
      else done (
        node 0x08 (if negated then 0xff else 0x00)
            (compile_range (slice_view p (pos beg) (pos stop))) none,
        stop,
      )
    else if c == b'$'
    then done (node 0x01 0x00 nil none, off)
    else if c == b'^'
    then done (node 0x02 0x00 nil none, off)
    else if c == b'.'
    then done (node 0x0c 0x00 nil none, off)
    else if c == b'\\'
    then done (escape (at p (off + 1)), off + 1)
    else done (literal c, off)

abbrev pub with_rep : Regex → Option Rep → Regex
with_rep (node flag byte next old) rep = node flag byte next rep

pub is_repeat : ℕ → Bool
is_repeat c = ((c == b'+' || c == b'?') || c == b'*') || c == b'{'

-- The repetition behind an item whose last byte is at `off`, and the offset of its own last byte.
unfoldable pub add_repeat : View → Regex × ℕ → Regex × ℕ
unfolding is_repeat get_next_repeat at
add_repeat p (item, off) =
    let (rep, stop) = get_next_repeat p (off + 1) in
    if is_repeat (at p (off + 1)) then (with_rep item rep, stop) else (item, off)

-- All three take fuel: a call inside a bracket is as deep as the brackets, and the loop of `compile`
-- goes round for ever on a pattern that is refused, since `continue` leaves `addr` as it is.
unfoldable mutual
  pub compile_pattern : ℕ → View → ℕ → Items → Outcome Regex
  compile_pattern zero p off out = stuck
  compile_pattern (suc f) p off out =
      let stop = get_next_key p off in
      let group : Outcome (Regex × ℕ) =
        if leb (size p) stop
        then refused
        else compile f (slice_view p (pos (off + 1)) (pos stop)) >>= λ r.
            done (node 0x09 0xff (next_of r) none, stop) in
      let item = if at p off == b'(' then group else compile_item p off in
      elim (size p) [
        | zero ↦ fault
        | suc n ↦ item >>= λ found. continue_pattern f p (add_repeat p found) out
      ]

  -- The rest of the round: `next.push( item )`, and `while( ++off < pattern.size() )`.
  pub continue_pattern : ℕ → View → Regex × ℕ → Items → Outcome Regex
  continue_pattern zero p found out = stuck
  continue_pattern (suc f) p (item, off) out =
      let rest = compile_pattern f p (off + 1) (push_item out item) in
      if ltb (off + 1) (size p) then rest else done (node 0x09 0x00 (push_item out item) none)

  pub compile_loop : ℕ → View → ℕ → List ℕ → Items → Outcome Regex
  compile_loop zero p x ends out = stuck
  compile_loop (suc f) p x [] out = done (node 0x09 0x00 out none)
  compile_loop (suc f) p x (y ∷ ends) out =
      elim (compile_pattern f (slice_view p (pos x) (pos y)) 0 nil) [
        | done tmp ↦ compile_loop f p (y + 1) ends (push_item out tmp)
        | refused ↦ compile_loop f p x (y ∷ ends) out
        | fault ↦ fault
        | stuck ↦ stuck
      ]

  pub compile : ℕ → View → Outcome Regex
  compile zero p = stuck
  compile (suc f) p = elim (size p) [
    | zero ↦ done (node 0x09 0x00 nil none)
    | suc n ↦ compile_loop f p 0 (get_next_regex p 0) nil
  ]

-- `regex_t( reg, icase )`, with the pattern as a string of its own.
unfoldable pub make : ℕ → Text → Bool → Outcome Pattern
unfolding slice_range compile compile_item add_repeat get_next_regex get_next_key push_item at
    slice_view
make f reg icase = compile f (whole reg) >>= λ r. done (record { queue = r; icase = icase })
