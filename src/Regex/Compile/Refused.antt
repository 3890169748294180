-- ===== src/Regex/Compile/Refused.antt =====
-- include/nodepp/regex.h: `compile` of an alternative that `compile_pattern` refuses.
use nodepp.Prelude.{ℕ, zero, suc, ◌+◌, ◌≡◌, ◌⊎◌, refl, ap, ◌∙◌, All, List, [], ◌∷◌, length, arith}
use nodepp.Prelude.Int.{pos}
use nodepp.Text.{Text}
use nodepp.Regex.{Regex, nil, push_item}
use nodepp.Regex.View.{View, whole, at, slice_view}
use nodepp.Regex.Compile.{
  Outcome, done, refused, fault, stuck, is_stray, compile_item, compile_pattern, compile_loop,
  compile,
}
use nodepp.Regex.Compile.Plain.{Quiet, view_all, ends-Quiet, compile_step}

-- A bracket that closes nothing.
abbrev pub Closing : ℕ → Type 0
Closing c = (c ≡ b']') ⊎ (c ≡ b'}') ⊎ (c ≡ b')')

Closing-Quiet : (c : ℕ) → Closing c → Quiet c
Closing-Quiet c h = ground arith

refused_at :
    (f c : ℕ) (cs : Text) → Closing c → compile_pattern (suc f) (whole (c ∷ cs)) 0 nil ≡ refused
unfolding compile_pattern compile_item is_stray at
refused_at f c cs h = ground arith

same_round :
    (f : ℕ) (p : View) (y : ℕ) (ends : List ℕ)
    → compile_pattern f (slice_view p (pos 0) (pos y)) 0 nil ≡ refused
    → compile_loop (suc f) p 0 (y ∷ ends) nil ≡ compile_loop f p 0 (y ∷ ends) nil
unfolding compile_loop
same_round f p y ends e =
    ap
      (λ (o : Outcome Regex). elim o [
        | done tmp ↦ compile_loop f p (y + 1) ends (push_item nil tmp)
        | refused ↦ compile_loop f p 0 (y ∷ ends) nil
        | fault ↦ fault
        | stuck ↦ stuck
      ])
      e

-- While the alternative is refused, the loop has the same state in every round.
compile_loop-refused :
    (f : ℕ) (p : View) (y : ℕ) (ends : List ℕ)
    → ((g : ℕ) → compile_pattern (suc g) (slice_view p (pos 0) (pos y)) 0 nil ≡ refused)
    → compile_loop f p 0 (y ∷ ends) nil ≡ stuck
unfolding compile_loop
compile_loop-refused zero p y ends h = refl
compile_loop-refused (suc zero) p y ends h = refl
compile_loop-refused (suc (suc f)) p y ends h =
    same_round (suc f) p y ends (h f) ∙ compile_loop-refused (suc f) p y ends h

-- A pattern that begins with ], } or ), and holds no other bracket that opens, no bar and no
-- backslash, is never compiled, however much fuel there is.
pub compile-Closing :
    (f c : ℕ) (cs : Text) → Closing c → All Quiet cs → compile f (whole (c ∷ cs)) ≡ stuck
unfolding compile
compile-Closing zero c cs h q = refl
compile-Closing (suc f) c cs h q =
    compile_step f c cs
    ∙ ap (λ ends. compile_loop f (whole (c ∷ cs)) 0 ends nil)
        (ends-Quiet (c ∷ cs) (Closing-Quiet c h, q))
    ∙ compile_loop-refused f (whole (c ∷ cs)) (length (c ∷ cs)) []
        (λ g. ap (λ v. compile_pattern (suc g) v 0 nil) (view_all c cs) ∙ refused_at g c cs h)
