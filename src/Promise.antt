-- ===== src/Promise.antt =====
-- include/nodepp/promise.h: `promise_t`, its flags, its listeners and what settles it. A callback is a
-- number, the callbacks leave the promise alone, and what they are called with is written down.
pub mod Settled
pub mod Tests
use nodepp.Prelude.{
  ℕ, Bool, true, false, not, ◌&&◌, ◌||◌, List, [], ◌∷◌, ◌++◌, Option, none, some, map,
  if◌then◌else◌,
}

-- The bits of `PROMISE_STATE` that the code sets; `UNDEFINED` is none of them.
pub record Flags : Type 0 where
  pub pending : Bool
  pub finished : Bool
  pub closed : Bool
  pub resolved : Bool
  pub rejected : Bool
  pub rejecting : Bool
  pub resolving : Bool

abbrev pub undefined : Flags
undefined = record {
  pending = false;
  finished = false;
  closed = false;
  resolved = false;
  rejected = false;
  rejecting = false;
  resolving = false;
}

abbrev pub is_undefined : Flags → Bool
is_undefined s =
    not (
      s.pending || s.finished || s.closed || s.resolved || s.rejected || s.rejecting || s.resolving)

abbrev pub settled_flags : Bool → Flags
settled_flags res = record undefined {
  finished = true;
  closed = true;
  resolved = res;
  rejected = not res;
}

pub data Value (T V : Type 0) : Type 0 where
  of_res : T → Value T V
  of_rej : V → Value T V

-- A call of a listener of `res_clb`, `rej_clb` or `fin_clb`.
pub data Call (T V : Type 0) : Type 0 where
  res_call : ℕ → Value T V → Call T V
  rej_call : ℕ → Value T V → Call T V
  fin_call : ℕ → Call T V

-- What is done to a promise, in order.
pub data Action (T V : Type 0) : Type 0 where
  resolving : T → Action T V
  rejecting : V → Action T V
  listening_then : ℕ → Action T V
  listening_fail : ℕ → Action T V
  listening_finally : ℕ → Action T V
  turning_off : Action T V
  reading : Action T V

pub record Promise (T V : Type 0) : Type 0 where
  pub flags : Flags
  pub value : Option (Value T V)
  pub res_clb : List ℕ
  pub rej_clb : List ℕ
  pub fin_clb : List ℕ
  pub calls : List (Call T V)

module _ {T V : Type 0} where
  abbrev pub no_promise : Promise T V
  no_promise = record {
    flags = undefined;
    value = none;
    res_clb = [];
    rej_clb = [];
    fin_clb = [];
    calls = [];
  }

  -- `promise_t( const NODE_CLB& cb )`
  abbrev pub new : Promise T V
  new = record no_promise { flags = record undefined { pending = true } }

  -- Every listener was put there by `once`, so that an emission takes it off.
  abbrev pub emit_value : Value T V → Promise T V → Bool × Promise T V
  emit_value v p =
      if p.flags.resolved
      then (
        true,
        record p {
          res_clb = [];
          fin_clb = [];
          calls = p.calls ++ (map (λ c. res_call c v) p.res_clb ++ map fin_call p.fin_clb);
        },
      )
      else if p.flags.rejected
      then (
        true,
        record p {
          rej_clb = [];
          fin_clb = [];
          calls = p.calls ++ (map (λ c. rej_call c v) p.rej_clb ++ map fin_call p.fin_clb);
        },
      )
      else (false, p)

  abbrev pub emit_some : Option (Value T V) → Promise T V → Bool × Promise T V
  emit_some none p = (false, p)
  emit_some (some v) p = emit_value v p

  -- Whether `emit` returns 1, and what it leaves.
  unfoldable pub emit : Promise T V → Bool × Promise T V
  emit p = if is_undefined p.flags then (false, p) else emit_some p.value p

  unfoldable pub resolve : T → Promise T V → Promise T V
  unfolding emit
  resolve value p =
      if p.flags.closed
      then p
      else (emit (record p { flags = settled_flags true; value = some (of_res value) })).1

  unfoldable pub reject : V → Promise T V → Promise T V
  unfolding emit
  reject value p =
      if p.flags.closed
      then p
      else (emit (record p { flags = settled_flags false; value = some (of_rej value) })).1

  abbrev pub takes_listeners : Promise T V → Bool
  takes_listeners p = not (is_undefined p.flags) && not (p.flags.finished || p.flags.closed)

  unfoldable pub promise_then : ℕ → Promise T V → Promise T V
  promise_then cb p =
      if takes_listeners p
      then record p {
        flags = record (p.flags) { resolving = true };
        res_clb = p.res_clb ++ cb ∷ [];
      }
      else p

  unfoldable pub fail : ℕ → Promise T V → Promise T V
  fail cb p =
      if takes_listeners p
      then record p {
        flags = record (p.flags) { rejecting = true };
        rej_clb = p.rej_clb ++ cb ∷ [];
      }
      else p

  unfoldable pub finally : ℕ → Promise T V → Promise T V
  finally cb p = if takes_listeners p then record p { fin_clb = p.fin_clb ++ cb ∷ [] } else p

  unfoldable pub off : Promise T V → Promise T V
  off p = record p { flags = record (p.flags) { closed = true } }

  unfoldable pub get_value : Promise T V → Option (Value T V) × Promise T V
  unfolding emit
  get_value p = let (done, after) = emit p in (if done then after.value else none, after)

  unfoldable pub perform : Action T V → Promise T V → Promise T V
  unfolding resolve reject promise_then fail finally off get_value
  perform (resolving t) p = resolve t p
  perform (rejecting v) p = reject v p
  perform (listening_then c) p = promise_then c p
  perform (listening_fail c) p = fail c p
  perform (listening_finally c) p = finally c p
  perform turning_off p = off p
  perform reading p = (get_value p).1

  unfoldable pub perform_all : List (Action T V) → Promise T V → Promise T V
  unfolding perform
  perform_all [] p = p
  perform_all (a ∷ acts) p = perform_all acts (perform a p)
