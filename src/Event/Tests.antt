-- ===== src/Event/Tests.antt =====
-- An emission to two listeners.
use nodepp.Prelude.{
  ℕ, ◌≡◌, refl, Bool, List, [], ◌∷◌, map, length, true, false, if◌then◌else◌, ◌==◌, arith,
}
use nodepp.Event.{Listener, Action, clear_all, off_one, add_one, emit, done}
use nodepp.Event.Nodes.{Nodes}
use nodepp.Event.Calls.{
  at_rest, open_at, takes_off, staying, emit_quiet, emit_taken_off, ends_itself, emit-ends_itself,
}

abbrev pair : List Listener
pair = open_at 1 ∷ open_at 2 ∷ []

-- Only the second listener returns -1.
abbrev second : ℕ → Bool
second x = x == 2

emit_taken_off_example :
    emit (takes_off 1 2) 2 (at_rest pair 3) ≡ done (at_rest (open_at 1 ∷ []) 3) (1 ∷ 2 ∷ [])
emit_taken_off_example =
    emit_taken_off 1 2 3 (λ e. omega (arith, e)) (λ e. omega (arith, e)) (λ e. omega (arith, e))

emit_quiet_example :
    emit (λ x. ([], second x)) (length pair) (at_rest pair 3)
    ≡ done (at_rest (staying second pair) 3) (map Listener.address pair)
emit_quiet_example =
    emit_quiet second pair 3
      ((λ e. omega (arith, e)), ((λ e. omega (arith, e)), tt), ((λ e. omega (arith, e)), tt, tt))
      (refl, (refl, tt))

-- The first callback clears the event, takes both listeners off and adds another.
abbrev busy : ℕ → List Action × Bool
busy x = if x == 1 then (clear_all ∷ off_one 2 ∷ off_one 1 ∷ add_one ∷ [], true) else ([], false)

emit-ends_itself_example :
    emit (ends_itself 1) 2 (at_rest pair 3) ≡ done (at_rest [] 3) (1 ∷ 2 ∷ [])
emit-ends_itself_example =
    emit-ends_itself 1 2 3 (λ e. omega (arith, e)) (λ e. omega (arith, e)) (λ e. omega (arith, e))
