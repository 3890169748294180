-- ===== src/Event/Finish.antt =====
-- include/nodepp/event.h: what an emission does behind its loop.
use nodepp.Prelude.{
  ℕ, ◌≡◌, refl, ap, sym, ◌∙◌, subst, inl, inr, true, false, All, List, [], ◌∷◌, Option, none, some,
  Option-cases, ◌==◌, Bool-cases, arith,
}
use nodepp.Event.{
  Event, Listener, task_open, find, erase, clear, drop_last, erase_item, erase_all, finish,
}
use nodepp.Event.Nodes.{erase_all-Nodes}
use nodepp.Event.Running.{Settled, Waits, Running}

erase-Waits :
    (a : ℕ) (tmp : List ℕ) (ls : List Listener)
    → All (Waits (a ∷ tmp)) ls
    → All (Waits tmp) (erase a ls)
erase-Waits a tmp [] h = tt
erase-Waits a tmp (l ∷ ls) (p, h) = elim (Bool-cases (l.address == a)) [
  | inl e ↦ rw e (erase-Waits a tmp ls h)
  | inr e ↦ rw e (
    (elim p [ inl o ↦ inl o | inr i ↦ elim i [ inl b ↦ absurd (differ e b) | inr j ↦ inr j ] ]),
    erase-Waits a tmp ls h,
  )
]
  where
    differ : (l.address == a) ≡ false → l.address ≡ a → ⊥
    differ e b = ground arith

drop_last-All : (P : Listener → Type 0) (ls : List Listener) → All P ls → All P (drop_last ls)
drop_last-All P [] h = tt
drop_last-All P (l ∷ []) h = tt
drop_last-All P (l ∷ m ∷ ls) (p, h) = (p, drop_last-All P (m ∷ ls) h)

-- Where no listener has the address, none waits for it.
missing-Waits :
    (a : ℕ) (tmp : List ℕ) (ls : List Listener)
    → find a ls ≡ none
    → All (Waits (a ∷ tmp)) ls
    → All (Waits tmp) ls
missing-Waits a tmp [] e h = tt
missing-Waits a tmp (l ∷ ls) e (p, h) = elim (Bool-cases (l.address == a)) [
  | inl t ↦ absurd (taken t)
  | inr f ↦ (
    (elim p [ inl o ↦ inl o | inr i ↦ elim i [ inl b ↦ absurd (differ f b) | inr j ↦ inr j ] ]),
    missing-Waits a tmp ls (sym (passed f) ∙ e) h,
  )
]
  where
    differ : (l.address == a) ≡ false → l.address ≡ a → ⊥
    differ f b = ground arith

    passed : (l.address == a) ≡ false → find a (l ∷ ls) ≡ find a ls
    passed f = rw f refl

    hit : (l.address == a) ≡ true → find a (l ∷ ls) ≡ some l
    hit t = rw t refl

    taken : (l.address == a) ≡ true → ⊥
    taken t = let no : none ≡ some l = sym e ∙ hit t in absurd (cc)

pub item_found :
    (a : ℕ) (ls : List Listener) (l : Listener) → find a ls ≡ some l → erase_item a ls ≡ erase a ls
item_found a ls l e =
    ap (λ (o : Option Listener). elim o [ none ↦ drop_last ls | some _ ↦ erase a ls ]) e

pub item_missing : (a : ℕ) (ls : List Listener) → find a ls ≡ none → erase_item a ls ≡ drop_last ls
item_missing a ls e =
    ap (λ (o : Option Listener). elim o [ none ↦ drop_last ls | some _ ↦ erase a ls ]) e

erase_item-Waits :
    (a : ℕ) (tmp : List ℕ) (ls : List Listener)
    → All (Waits (a ∷ tmp)) ls
    → All (Waits tmp) (erase_item a ls)
erase_item-Waits a tmp ls h = elim (Option-cases (find a ls)) [
  | inl e ↦
      subst (All (Waits tmp)) (sym (item_missing a ls e))
        (drop_last-All (Waits tmp) ls (missing-Waits a tmp ls e h))
  | inr (l, e) ↦ subst (All (Waits tmp)) (sym (item_found a ls l e)) (erase-Waits a tmp ls h)
]

erase_all-Open :
    (tmp : List ℕ) (ls : List Listener)
    → All (Waits tmp) ls
    → All (λ l. l.flag ≡ task_open) (erase_all tmp ls)
erase_all-Open [] ls h = all_open ls h
  where
    all_open : (ks : List Listener) → All (Waits []) ks → All (λ l. l.flag ≡ task_open) ks
    all_open [] h = tt
    all_open (k ∷ ks) (inl o, h) = (o, all_open ks h)
    all_open (k ∷ ks) (inr i, h) = absurd i
erase_all-Open (a ∷ tmp) ls h = erase_all-Open tmp (erase_item a ls) (erase_item-Waits a tmp ls h)

pub finish-Settled : (e : Event) → Running e → Settled (finish e)
unfolding finish clear
finish-Settled e r = elim (Bool-cases e.kill) [
  | inl k ↦ rw k (record {
    opened = tt;
    no_tmp = refl;
    idle = refl;
    nodes = record { distinct = tt; made = tt; next = r.nodes.next };
  })
  | inr k ↦ rw k (record {
    opened = erase_all-Open e.tmp e.que r.waits;
    no_tmp = refl;
    idle = refl;
    nodes = erase_all-Nodes e.tmp e.que r.nodes;
  })
]
