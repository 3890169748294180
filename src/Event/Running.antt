-- ===== src/Event/Running.antt =====
-- include/nodepp/event.h: what callbacks do to an event while it is emitted.
use nodepp.Prelude.{
  ℕ, ◌≡◌, ◌≢◌, refl, ap, sym, ◌∙◌, subst, ◌⊎◌, inl, inr, true, false, All, List, [], ◌∷◌, ◌++◌,
  Option-cases, ◌==◌, ◌+◌, length, length-append, append_assoc, append-nil, if-case, ==_iff,
  if◌then◌else◌, Bool-cases, arith,
}
use nodepp.Event.{
  Event, Listener, Action, add_one, off_one, clear_all, stop_it, skip_it, resume_it, emit_it,
  task_open, task_closed, has, find, erase, close, add, off, clear, perform, perform_all,
}
use nodepp.Event.Nodes.{
  Nodes, addresses, addresses-close, addresses-append, close-Nodes, add-Nodes, erase-Nodes,
}

abbrev pub Among : ℕ → List ℕ → Type 0
Among a [] = ⊥
Among a (b ∷ bs) = (a ≡ b) ⊎ Among a bs

-- Every listener is open, nothing is left over from an emission, and the nodes are not null and
-- differ.
pub record Settled (e : Event) : Type 0 where
  pub opened : All (λ l. l.flag ≡ task_open) e.que
  pub no_tmp : e.tmp ≡ []
  pub idle : e.used ≡ false
  pub nodes : Nodes e.fresh e.que

-- A listener is open, or waits for the end of the emission to be erased.
abbrev pub Waits : List ℕ → Listener → Type 0
Waits tmp l = (l.flag ≡ task_open) ⊎ Among l.address tmp

pub record Running (e : Event) : Type 0 where
  pub busy : e.used ≡ true
  pub waits : All (Waits e.tmp) e.que
  pub nodes : Nodes e.fresh e.que

Among-append : (a : ℕ) (xs ys : List ℕ) → Among a xs → Among a (xs ++ ys)
Among-append a [] ys i = absurd i
Among-append a (x ∷ xs) ys (inl e) = inl e
Among-append a (x ∷ xs) ys (inr i) = inr (Among-append a xs ys i)

Among-last : (a : ℕ) (xs : List ℕ) → Among a (xs ++ a ∷ [])
Among-last a [] = inl refl
Among-last a (x ∷ xs) = inr (Among-last a xs)

All-append :
    (P : Listener → Type 0) (ls : List Listener) (l : Listener)
    → All P ls
    → P l
    → All P (ls ++ l ∷ [])
All-append P [] l h p = (p, tt)
All-append P (k ∷ ls) l (q, h) p = (q, All-append P ls l h p)

close-Waits :
    (a : ℕ) (tmp : List ℕ) (ls : List Listener)
    → All (Waits tmp) ls
    → All (Waits (tmp ++ a ∷ [])) (close a ls)
close-Waits a tmp [] h = tt
close-Waits a tmp (l ∷ ls) (p, h) = (here, close-Waits a tmp ls h)
  where
    here : Waits (tmp ++ a ∷ []) (if l.address == a then record l { flag = task_closed } else l)
    here = elim (Bool-cases (l.address == a)) [
      | inl e ↦ rw e (
          inr (
            subst (λ k. Among k (tmp ++ a ∷ [])) (sym ((==_iff l.address a).0 e))
              (Among-last a tmp)))
      | inr e ↦
          rw e (elim p [ inl o ↦ inl o | inr i ↦ inr (Among-append l.address tmp (a ∷ []) i) ])
    ]

pub erase-All : (P : Listener → Type 0) (a : ℕ) (ls : List Listener) → All P ls → All P (erase a ls)
erase-All P a [] h = tt
erase-All P a (l ∷ ls) (p, h) = elim (Bool-cases (l.address == a)) [
  | inl e ↦ rw e (erase-All P a ls h)
  | inr e ↦ rw e (p, erase-All P a ls h)
]

-- The nodes of an event while it is emitted: none is freed, and those that are added are new.
pub record Grows (e e' : Event) : Type 0 where
  pub news : List ℕ
  pub added : addresses e'.que ≡ addresses e.que ++ news
  pub counted : e'.fresh ≡ e.fresh + length news
  pub runs : Running e'

Grows-same :
    (e e' : Event)
    → addresses e'.que ≡ addresses e.que
    → e'.fresh ≡ e.fresh
    → Running e'
    → Grows e e'
Grows-same e e' a f r = record {
  news = [];
  added = a ∙ sym (append-nil (addresses e.que));
  counted = omega arith;
  runs = r;
}

in_use : (e : Event) → Running e → e.used ≢ false
in_use e r u = let c = sym r.busy ∙ u in cc

off-Grows : (a : ℕ) (e : Event) → Running e → Grows e (off a e)
unfolding off
off-Grows a e r = elim (Option-cases (find a e.que)) [
  | inl h ↦ rw (h, off) (Grows-same e e refl refl r)
  | inr (l, h) ↦
      rw (h, off)
        (if-case (Grows e) (has l.flag task_closed) (λ c. Grows-same e e refl refl r)
          (λ c.
            if-case (Grows e) e.used
              (λ u. Grows-same e _ (addresses-close a e.que) refl (record {
                busy = r.busy;
                waits = close-Waits a e.tmp e.que r.waits;
                nodes = close-Nodes a e.que r.nodes;
              }))
              (λ u. absurd (in_use e r u))))
]

perform-Grows : (act : Action) (e : Event) → Running e → Grows e (perform act e)
unfolding perform add clear
perform-Grows add_one e r = record {
  news = e.fresh ∷ [];
  added = addresses-append e.que _;
  counted = omega arith;
  runs = record {
    busy = r.busy;
    waits = All-append (Waits e.tmp) e.que _ r.waits (inl refl);
    nodes = add-Nodes task_open e.que r.nodes;
  };
}
perform-Grows (off_one a) e r = off-Grows a e r
perform-Grows clear_all e r =
    if-case (Grows e) e.used
      (λ u. Grows-same e _ refl refl (record { busy = r.busy; waits = r.waits; nodes = r.nodes }))
      (λ u. absurd (in_use e r u))
perform-Grows stop_it e r =
    Grows-same e _ refl refl (record { busy = r.busy; waits = r.waits; nodes = r.nodes })
perform-Grows skip_it e r =
    Grows-same e _ refl refl (record { busy = r.busy; waits = r.waits; nodes = r.nodes })
perform-Grows resume_it e r =
    Grows-same e _ refl refl (record { busy = r.busy; waits = r.waits; nodes = r.nodes })
perform-Grows emit_it e r = Grows-same e e refl refl r

Grows-trans : (e e' e'' : Event) → Grows e e' → Grows e' e'' → Grows e e''
Grows-trans e e' e'' g h = record {
  news = g.news ++ h.news;
  added =
      h.added ∙ ap (λ as_. as_ ++ h.news) g.added ∙ append_assoc (addresses e.que) g.news h.news;
  counted =
      let n = length-append g.news h.news in let c = g.counted in let d = h.counted in omega arith;
  runs = h.runs;
}

pub perform_all-Grows : (acts : List Action) (e : Event) → Running e → Grows e (perform_all acts e)
unfolding perform_all
perform_all-Grows [] e r = Grows-same e e refl refl r
perform_all-Grows (act ∷ acts) e r =
    let g = perform-Grows act e r in
    Grows-trans e (perform act e) _ g (perform_all-Grows acts (perform act e) g.runs)

pub erased-Running : (x : ℕ) (e : Event) → Running e → Running (record e { que = erase x e.que })
erased-Running x e r = record {
  busy = r.busy;
  waits = erase-All (Waits e.tmp) x e.que r.waits;
  nodes = erase-Nodes x e.que r.nodes;
}
