-- ===== src/Promise/Settled.antt =====
-- include/nodepp/promise.h: a promise that has settled stays as it is, and settling it calls its
-- listeners.
use nodepp.Prelude.{
  ℕ, Bool, true, false, List, [], ◌∷◌, ◌++◌, none, some, map, if◌then◌else◌, ◌≡◌, refl, sym, ap,
  ◌∙◌, append-nil, append_assoc,
}
use nodepp.Promise.{
  undefined, Value, of_res, of_rej, Call, res_call, rej_call, fin_call, Promise, Action, resolving,
  rejecting, listening_then, listening_fail, listening_finally, turning_off, reading, perform,
  perform_all, new, resolve, reject, settled_flags, emit, promise_then, fail, finally, off,
  get_value,
}

module _ {T V : Type 0} where
  -- Resolved or rejected, with its value, and none of the listeners that would be called left.
  abbrev pub settled : Bool → Value T V → List ℕ → List (Call T V) → Promise T V
  settled true v left calls = record {
    flags = settled_flags true;
    value = some v;
    res_clb = [];
    rej_clb = left;
    fin_clb = [];
    calls = calls;
  }
  settled false v left calls = record {
    flags = settled_flags false;
    value = some v;
    res_clb = left;
    rej_clb = [];
    fin_clb = [];
    calls = calls;
  }

  emit-settled :
      (res : Bool) (v : Value T V) (left : List ℕ) (calls : List (Call T V))
      → emit (settled res v left calls) ≡ (true, settled res v left calls)
  unfolding emit
  emit-settled true v left calls = ap (λ cs. (true, settled true v left cs)) (append-nil calls)
  emit-settled false v left calls = ap (λ cs. (true, settled false v left cs)) (append-nil calls)

  pub get_value-settled :
      (res : Bool) (v : Value T V) (left : List ℕ) (calls : List (Call T V))
      → get_value (settled res v left calls) ≡ (some v, settled res v left calls)
  unfolding get_value
  get_value-settled true v left calls =
      ap (λ e. (if e.0 then e.1.value else none, e.1)) (emit-settled true v left calls)
  get_value-settled false v left calls =
      ap (λ e. (if e.0 then e.1.value else none, e.1)) (emit-settled false v left calls)

  perform-settled :
      (a : Action T V) (res : Bool) (v : Value T V) (left : List ℕ) (calls : List (Call T V))
      → perform a (settled res v left calls) ≡ settled res v left calls
  unfolding perform resolve reject promise_then fail finally off
  perform-settled (resolving t) true v left calls = refl
  perform-settled (resolving t) false v left calls = refl
  perform-settled (rejecting t) true v left calls = refl
  perform-settled (rejecting t) false v left calls = refl
  perform-settled (listening_then c) true v left calls = refl
  perform-settled (listening_then c) false v left calls = refl
  perform-settled (listening_fail c) true v left calls = refl
  perform-settled (listening_fail c) false v left calls = refl
  perform-settled (listening_finally c) true v left calls = refl
  perform-settled (listening_finally c) false v left calls = refl
  perform-settled turning_off true v left calls = refl
  perform-settled turning_off false v left calls = refl
  perform-settled reading res v left calls = ap (λ e. e.1) (get_value-settled res v left calls)

  -- Whatever is done to a promise that has settled and has called its listeners, a second resolve
  -- or reject included, it keeps its state, its value and its calls.
  pub perform_all-settled :
      (acts : List (Action T V)) (res : Bool) (v : Value T V) (left : List ℕ)
      (calls : List (Call T V))
      → perform_all acts (settled res v left calls) ≡ settled res v left calls
  unfolding perform_all
  perform_all-settled [] res v left calls = refl
  perform_all-settled (a ∷ acts) res v left calls =
      ap (perform_all acts) (perform-settled a res v left calls)
      ∙ perform_all-settled acts res v left calls

-- A listener, of one of the three kinds.
pub data Listener : Type 0 where
  on_then : ℕ → Listener
  on_fail : ℕ → Listener
  on_finally : ℕ → Listener

abbrev pub thens : List Listener → List ℕ
thens [] = []
thens (on_then c ∷ ls) = c ∷ thens ls
thens (on_fail c ∷ ls) = thens ls
thens (on_finally c ∷ ls) = thens ls

abbrev pub fails : List Listener → List ℕ
fails [] = []
fails (on_then c ∷ ls) = fails ls
fails (on_fail c ∷ ls) = c ∷ fails ls
fails (on_finally c ∷ ls) = fails ls

abbrev pub finals : List Listener → List ℕ
finals [] = []
finals (on_then c ∷ ls) = finals ls
finals (on_fail c ∷ ls) = finals ls
finals (on_finally c ∷ ls) = c ∷ finals ls

abbrev pub listening : {T V : Type 0} → Listener → Action T V
listening (on_then c) = listening_then c
listening (on_fail c) = listening_fail c
listening (on_finally c) = listening_finally c

module _ {T V : Type 0} where
  -- A promise that has not settled.
  abbrev waiting : Bool → Bool → List ℕ → List ℕ → List ℕ → Promise T V
  waiting a b rs js fs = record new {
    flags = record undefined { pending = true; rejecting = a; resolving = b };
    res_clb = rs;
    rej_clb = js;
    fin_clb = fs;
  }

  abbrev pub called : Bool → Value T V → List ℕ → List ℕ → List ℕ → Promise T V
  called true v rs js fs = settled true v js (map (λ c. res_call c v) rs ++ map fin_call fs)
  called false v rs js fs = settled false v rs (map (λ c. rej_call c v) js ++ map fin_call fs)

  abbrev pub outcome : Value T V → Bool
  outcome (of_res t) = true
  outcome (of_rej v) = false

  abbrev pub settling : Value T V → Action T V
  settling (of_res t) = resolving t
  settling (of_rej v) = rejecting v

  settle-waiting :
      (v : Value T V) (acts : List (Action T V)) (a b : Bool) (rs js fs : List ℕ)
      → perform_all (settling v ∷ acts) (waiting a b rs js fs) ≡ called (outcome v) v rs js fs
  unfolding perform_all perform resolve reject emit
  settle-waiting (of_res t) acts a b rs js fs = perform_all-settled acts true (of_res t) js _
  settle-waiting (of_rej t) acts a b rs js fs = perform_all-settled acts false (of_rej t) rs _

  listen-waiting :
      (ls : List Listener) (v : Value T V) (acts : List (Action T V)) (a b : Bool)
      (rs js fs : List ℕ)
      → perform_all (map listening ls ++ settling v ∷ acts) (waiting a b rs js fs)
        ≡ called (outcome v) v (rs ++ thens ls) (js ++ fails ls) (fs ++ finals ls)
  unfolding perform_all perform promise_then fail finally
  listen-waiting [] v acts a b rs js fs =
      settle-waiting v acts a b rs js fs
      ∙ ap (λ xs. called (outcome v) v xs js fs) (sym (append-nil rs))
      ∙ ap (λ xs. called (outcome v) v (rs ++ []) xs fs) (sym (append-nil js))
      ∙ ap (λ xs. called (outcome v) v (rs ++ []) (js ++ []) xs) (sym (append-nil fs))
  listen-waiting (on_then c ∷ ls) v acts a b rs js fs =
      listen-waiting ls v acts a true (rs ++ c ∷ []) js fs
      ∙ ap (λ xs. called (outcome v) v xs (js ++ fails ls) (fs ++ finals ls))
          (append_assoc rs (c ∷ []) (thens ls))
  listen-waiting (on_fail c ∷ ls) v acts a b rs js fs =
      listen-waiting ls v acts true b rs (js ++ c ∷ []) fs
      ∙ ap (λ xs. called (outcome v) v (rs ++ thens ls) xs (fs ++ finals ls))
          (append_assoc js (c ∷ []) (fails ls))
  listen-waiting (on_finally c ∷ ls) v acts a b rs js fs =
      listen-waiting ls v acts a b rs js (fs ++ c ∷ [])
      ∙ ap (λ xs. called (outcome v) v (rs ++ thens ls) (js ++ fails ls) xs)
          (append_assoc fs (c ∷ []) (finals ls))

  -- Where the callbacks leave the promise alone: of a new promise to which any listeners are added
  -- and which is then resolved or rejected, each listener of that kind and each finally listener
  -- is called once, in order and the former with the value, and whatever is done afterwards
  -- changes nothing.
  pub perform_all-called :
      (ls : List Listener) (v : Value T V) (acts : List (Action T V))
      → perform_all (map listening ls ++ settling v ∷ acts) new
        ≡ called (outcome v) v (thens ls) (fails ls) (finals ls)
  perform_all-called ls v acts = listen-waiting ls v acts false false [] [] []
