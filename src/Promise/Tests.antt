-- ===== src/Promise/Tests.antt =====
-- Runs of the functions on promises.
use nodepp.Prelude.{ℕ, true, some, ◌≡◌, refl, [], ◌∷◌, ◌++◌, map}
use nodepp.Promise.{
  of_res, of_rej, fin_call, new, resolve, reject, promise_then, off, get_value, perform_all,
  turning_off, resolving, rejecting, reading, listening_then,
}
use nodepp.Promise.Settled.{
  settled, on_then, on_fail, on_finally, listening, thens, fails, finals, called, outcome, settling,
  perform_all-settled, perform_all-called,
}

-- A promise that is turned off is never resolved, and stays pending.
off_run : resolve 5 (off (promise_then 1 (new {T = ℕ} {V = ℕ}))) ≡ off (promise_then 1 new)
unfolding resolve off promise_then
off_run = refl

get_value_run : (get_value (reject 7 (new {T = ℕ} {V = ℕ}))).0 ≡ some (of_rej 7)
unfolding get_value reject
get_value_run = refl

perform_all-settled_example :
    perform_all
      (turning_off ∷ rejecting 4 ∷ listening_then 2 ∷ reading ∷ [])
      (settled {T = ℕ} {V = ℕ} true (of_res 3) (8 ∷ []) (fin_call 1 ∷ []))
    ≡ settled true (of_res 3) (8 ∷ []) (fin_call 1 ∷ [])
perform_all-settled_example =
    perform_all-settled (turning_off ∷ rejecting 4 ∷ listening_then 2 ∷ reading ∷ []) true
      (of_res 3) (8 ∷ []) (fin_call 1 ∷ [])

perform_all-called_example :
    perform_all
      (map listening (on_then 1 ∷ on_fail 2 ∷ on_finally 3 ∷ [])
        ++ settling {T = ℕ} {V = ℕ} (of_rej 9) ∷ resolving 4 ∷ [])
      new
    ≡ called
        (outcome {T = ℕ} {V = ℕ} (of_rej 9))
        (of_rej 9)
        (thens (on_then 1 ∷ on_fail 2 ∷ on_finally 3 ∷ []))
        (fails (on_then 1 ∷ on_fail 2 ∷ on_finally 3 ∷ []))
        (finals (on_then 1 ∷ on_fail 2 ∷ on_finally 3 ∷ []))
perform_all-called_example =
    perform_all-called (on_then 1 ∷ on_fail 2 ∷ on_finally 3 ∷ []) (of_rej 9) (resolving 4 ∷ [])
