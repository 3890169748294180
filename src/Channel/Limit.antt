-- ===== src/Channel/Limit.antt =====
-- What a channel takes and gives, and its limit.
use nodepp.Prelude.{
  ℕ, zero, suc, ◌+◌, ◌-◌, ◌≤◌, ◌<◌, min, ◌≡◌, refl, ap, sym, ◌∙◌, subst, inl, inr, true, false,
  ◌&&◌, List, [], ◌∷◌, ◌++◌, length, take, append-nil, append_assoc, length-append, length-take,
  ==_iff, ltb, leb, ◌==◌, if◌then◌else◌, Bool-cases, arith,
}
use nodepp.Queue.{push}
use nodepp.Queue.Holds.{Holds, push-Holds, data_of-Holds, size-Holds, clear-Holds}
use nodepp.Channel.{Channel, is_empty, is_full, read, write, write_loop}

-- How many more values there is room for, of `n` that are offered to a channel with `held`.
abbrev pub room : ℕ → ℕ → ℕ → ℕ
room limit held n = if limit == 0 then n else min n (limit - held)

room-zero : (limit held : ℕ) → room limit held 0 ≡ 0
room-zero limit held = ground arith

-- A full channel stays full, and one that is not takes the next value.
room-full :
    (limit held n : ℕ)
    → (ltb 0 limit && leb limit held) ≡ true
    → (room limit held (suc n) ≡ 0) × (room limit held n ≡ 0)
room-full limit held n e = ground arith

room-open :
    (limit held n : ℕ)
    → (ltb 0 limit && leb limit held) ≡ false
    → room limit held (suc n) ≡ suc (room limit (held + 1) n)
room-open limit held n e = ground arith

room-le : (limit held n : ℕ) → 0 < limit → held ≤ limit → held + room limit held n ≤ limit
room-le limit held n positive fits = ground arith

module _ {A : Type 0} where
  pub record Took (c : Channel A) (held vs : List A) (x : ℕ) (taken : ℕ) (after : ℕ × Channel A)
      : Type 0 where
    pub count : after.0 ≡ x + taken
    pub limit : after.1.limit ≡ c.limit
    pub holds : Holds after.1.queue (held ++ take taken vs)

  full_iff :
      (c : Channel A) (held : List A)
      → Holds c.queue held
      → is_full c ≡ (ltb 0 c.limit && leb c.limit (length held))
  full_iff c held h = ground (arith, size-Holds c.queue held h)

  write_loop-Took :
      (c : Channel A) (held vs : List A) (x : ℕ)
      → Holds c.queue held
      → Took c held vs x (room c.limit (length held) (length vs)) (write_loop x c vs)
  unfolding write_loop
  write_loop-Took c held [] x h =
      let none_left : take (room c.limit (length held) 0) [] ≡ [] =
        nothing (room c.limit (length held) 0) in
      record {
        count = omega (arith, room-zero c.limit (length held));
        limit = refl;
        holds =
            subst (λ us. Holds c.queue us)
              (sym (append-nil held) ∙ ap (λ us. held ++ us) (sym none_left)) h;
      }
    where
      nothing : (n : ℕ) → take {A = A} n [] ≡ []
      nothing zero = refl
      nothing (suc n) = refl
  write_loop-Took c held (v ∷ vs) x h = elim (Bool-cases (is_full c)) [
    | inl e ↦
        let (here, later) =
          room-full c.limit (length held) (length vs) (sym (full_iff c held h) ∙ e) in
        let t = write_loop-Took c held vs x h in
        rw (e, here)
          (record {
            count = t.count ∙ ap (λ k. x + k) later;
            limit = t.limit;
            holds =
                subst (λ k. Holds (write_loop x c vs).1.queue (held ++ take k vs)) later t.holds;
          })
    | inr e ↦
        let more = room-open c.limit (length held) (length vs) (sym (full_iff c held h) ∙ e) in
        let one = length-append held (v ∷ []) in
        let next : Channel _ = record c { queue = push c.queue v } in
        let t = write_loop-Took next (held ++ v ∷ []) vs (x + 1) (push-Holds c.queue held v h) in
        let k = room c.limit (length (held ++ v ∷ [])) (length vs) in
        let fits : room c.limit (length held) (suc (length vs)) ≡ suc k =
          more ∙ ap (λ l. suc (room c.limit l (length vs))) (sym one) in
        rw (e, fits)
          (record {
            count = t.count ∙ omega arith;
            limit = t.limit;
            holds =
                subst (λ us. Holds (write_loop (x + 1) next vs).1.queue us)
                  (append_assoc held (v ∷ []) (take k vs)) t.holds;
          })
  ]

  -- Writing values to a channel whose queue holds a list takes, in their order, the first values
  -- that there is room for (all of them without a limit), appends them to the list, and returns
  -- their number.
  pub write-Took :
      (c : Channel A) (held vs : List A)
      → Holds c.queue held
      → Took c held vs 0 (room c.limit (length held) (length vs)) (write c vs)
  unfolding write
  write-Took c held vs h = write_loop-Took c held vs 0 h

  -- With a limit above 0 that the size of the queue does not exceed, the size does not exceed it
  -- after a write of any values.
  pub write-limit :
      (c : Channel A) (held vs : List A)
      → Holds c.queue held
      → 0 < c.limit
      → length held ≤ c.limit
      → (write c vs).1.queue.size ≤ c.limit
  write-limit c held vs h positive fits =
      let t = write-Took c held vs h in
      let k = room c.limit (length held) (length vs) in
      let n = size-Holds (write c vs).1.queue (held ++ take k vs) t.holds in
      omega (
        arith,
        n,
        length-append held (take k vs),
        length-take k vs,
        room-le c.limit (length held) (length vs) positive fits,
      )

  -- Reading a channel whose queue holds a list returns the list, leaves a queue that holds
  -- nothing, and keeps the limit.
  pub read-Holds :
      (c : Channel A) (held : List A)
      → Holds c.queue held
      → ((read c).0 ≡ held) × Holds (read c).1.queue [] × ((read c).1.limit ≡ c.limit)
  unfolding read
  read-Holds c held h = elim (Bool-cases (is_empty c)) [
    | inl e ↦
        let none_held : held ≡ [] =
          empty_of held (omega (arith, (==_iff c.queue.size 0).0 e, size-Holds c.queue held h)) in
        rw (e, none_held) (refl, subst (λ us. Holds c.queue us) none_held h, refl)
    | inr e ↦ rw e (data_of-Holds c.queue held h, clear-Holds c.queue held h, refl)
  ]
    where
      empty_of : (us : List A) → length us ≡ 0 → us ≡ []
      empty_of [] e = refl
      empty_of (u ∷ us) e = absurd (omega (arith, e))
