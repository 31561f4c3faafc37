-- ===== src/Queue/Runs.antt =====
-- Any sequence of calls on a `Queue` (dex/src/state.rs) against the same calls on a bounded list.
use openbook_dex.Prelude.{
  ℕ, Option, true, false, ◌≤◌, ◌<◌, ◌≡◌, refl, ap, subst, inl, inr, List, [], ◌∷◌, ◌++◌, none, some,
  ltb, leb, if◌then◌else◌, length, take, arith, length-set, lt→ltb,
}
use openbook_dex.Error.{DexResult, ok, err, panic, ◌>>=◌, ◌>>◌, check_assert, state}
use openbook_dex.Queue.{
  QueueHeader, Queue, Pushed, pushed, rejected, push_back, pop_front, revert_pushes,
}
use openbook_dex.Queue.Valid.{IsValid, Holds}
use openbook_dex.Queue.Refine.{push_back_refines, pop_front_refines, revert_pushes_refines}

pub data Call (T : Type 0) : Type 0 where
  push : T → Call T
  pop : Call T
  revert : ℕ → Call T

pub data Reply (T : Type 0) : Type 0 where
  accepted reverted empty : Reply T
  handed_back popped : T → Reply T

ltb_irrefl : (n : ℕ) → ltb n n ≡ false
ltb_irrefl n = ground arith

le→leb : (a b : ℕ) → a ≤ b → leb a b ≡ true
le→leb a b h = ground arith

lt→leb : (a b : ℕ) → b < a → leb a b ≡ false
lt→leb a b h = ground arith

module _ {T : Type 0} where
  -- The calls on a list with room for `cap` items.
  pub spec_step : ℕ → List T → Call T → DexResult (Reply T × List T)
  spec_step cap xs (push v) =
      if ltb (length xs) cap then ok (accepted, xs ++ v ∷ []) else ok (handed_back v, xs)
  spec_step cap [] pop = ok (empty, [])
  spec_step cap (x ∷ xs) pop = ok (popped x, xs)
  spec_step cap xs (revert n) =
      check_assert state 1030 (leb n (length xs)) >> ok (reverted, take n xs)

  -- The replies of a run, and the list at its end; an assertion error ends it.
  pub spec_run : ℕ → List T → List (Call T) → DexResult (List (Reply T) × List T)
  spec_run cap xs [] = ok ([], xs)
  spec_run cap xs (c ∷ cs) =
      spec_step cap xs c >>= λ r. spec_run cap r.1 cs >>= λ rest. ok (r.0 ∷ rest.0, rest.1)

module _ {H T : Type 0} ⦃h : QueueHeader H⦄ where
  pub reply_of_push : Queue H T → Pushed H T → Reply T × Queue H T
  reply_of_push q (pushed q') = (accepted, q')
  reply_of_push q (rejected v) = (handed_back v, q)

  pub reply_of_pop : Queue H T → Option (T × Queue H T) → Reply T × Queue H T
  reply_of_pop q none = (empty, q)
  reply_of_pop q (some (v, q')) = (popped v, q')

  pub step : Queue H T → Call T → DexResult (Reply T × Queue H T)
  unfolding reply_of_push reply_of_pop
  step q (push v) = push_back q v >>= λ r. ok (reply_of_push q r)
  step q pop = pop_front q >>= λ r. ok (reply_of_pop q r)
  step q (revert n) = revert_pushes q n >>= λ q'. ok (reverted, q')

  pub run : Queue H T → List (Call T) → DexResult (List (Reply T) × Queue H T)
  run q [] = ok ([], q)
  run q (c ∷ cs) = step q c >>= λ r. run r.1 cs >>= λ rest. ok (r.0 ∷ rest.0, rest.1)

  -- The same replies and a valid queue of `cap` slots that holds the specified list, or the same
  -- error; a panic agrees with nothing.
  abbrev pub Agrees : {R : Type 0} → ℕ → DexResult (R × List T) → DexResult (R × Queue H T) → Type 0
  Agrees cap (ok (r, xs)) (ok (s, q)) = (s ≡ r) × IsValid q × Holds q xs × (length q.buf ≡ cap)
  Agrees cap (err d) (err e) = e ≡ d
  Agrees cap _ _ = ⊥

  step-Agrees :
      (q : Queue H T) (xs : List T) (c : Call T)
      → IsValid q
      → Holds q xs
      → Agrees (length q.buf) (spec_step (length q.buf) xs c) (step q c)
  unfolding step spec_step
  step-Agrees q xs (push v) i a = elim (push_back_refines q xs v i a) [
    | inl (room, e, i', a') ↦
        rw (e, lt→ltb (length xs) (length q.buf) room) (refl, i', a', length-set q.buf _ v)
    | inr (all, e) ↦ rw (e, all, ltb_irrefl (length q.buf)) (refl, i, a, refl)
  ]
  step-Agrees q [] pop i a = elim (pop_front_refines q [] i a) [
    | inl w ↦ cc (w.2)
    | inr w ↦ rw (w.1) (refl, i, a, refl)
  ]
  step-Agrees q (x ∷ xs) pop i a = elim (pop_front_refines q (x ∷ xs) i a) [
    | inl w ↦
        let heads : w.0 ≡ x = cc (w.2) in
        let tails : w.1 ≡ xs = cc (w.2) in
        rw (w.3) (ap popped heads, w.5, subst (Holds _) tails w.6, refl)
    | inr w ↦ cc (w.0)
  ]
  step-Agrees q xs (revert n) i a = elim (revert_pushes_refines q xs n i a) [
    | inl (le, e, i', a') ↦ rw (e, le→leb n (length xs) le) (refl, i', a', refl)
    | inr (more, e) ↦ rw (e, lt→leb n (length xs) more) refl
  ]

  first_reply :
      (cap : ℕ) (r s : Reply T) (u : DexResult (List (Reply T) × List T))
      (v : DexResult (List (Reply T) × Queue H T))
      → s ≡ r
      → Agrees cap u v
      → Agrees cap (u >>= λ p. ok (r ∷ p.0, p.1)) (v >>= λ p. ok (s ∷ p.0, p.1))
  first_reply cap r s (ok u) (ok v) e g = (cc (e, g.0), g.1, g.2, g.3)
  first_reply cap r s (ok u) (err d) e g = elim g [ ]
  first_reply cap r s (ok u) panic e g = elim g [ ]
  first_reply cap r s (err d) (ok v) e g = elim g [ ]
  first_reply cap r s (err d) (err d') e g = g
  first_reply cap r s (err d) panic e g = elim g [ ]
  first_reply cap r s panic v e g = elim g [ ]

  after_step :
      (cap : ℕ) (cs : List (Call T)) (u : DexResult (Reply T × List T))
      (v : DexResult (Reply T × Queue H T))
      → Agrees cap u v
      → ((q : Queue H T) (xs : List T)
          → IsValid q
          → Holds q xs
          → Agrees (length q.buf) (spec_run (length q.buf) xs cs) (run q cs))
      → Agrees cap
          (u >>= λ r. spec_run cap r.1 cs >>= λ p. ok (r.0 ∷ p.0, p.1))
          (v >>= λ r. run r.1 cs >>= λ p. ok (r.0 ∷ p.0, p.1))
  after_step cap cs (ok (r, xs)) (ok (s, q)) (e, i, a, l) f =
      first_reply cap r s (spec_run cap xs cs) (run q cs) e
        (subst (λ n. Agrees n (spec_run n xs cs) (run q cs)) l (f q xs i a))
  after_step cap cs (ok u) (err d) g f = elim g [ ]
  after_step cap cs (ok u) panic g f = elim g [ ]
  after_step cap cs (err d) (ok v) g f = elim g [ ]
  after_step cap cs (err d) (err d') g f = g
  after_step cap cs (err d) panic g f = elim g [ ]
  after_step cap cs panic v g f = elim g [ ]

  -- On a valid queue no sequence of pushes, pops and reverts can be told from the same sequence on
  -- the list that it holds: the replies agree, an assertion error comes at the same call, nothing
  -- panics, and the queue is left valid and holding the list that the specification is left with.
  pub run_refines :
      (cs : List (Call T)) (q : Queue H T) (xs : List T)
      → IsValid q
      → Holds q xs
      → Agrees (length q.buf) (spec_run (length q.buf) xs cs) (run q cs)
  unfolding run spec_run
  run_refines [] q xs i a = (refl, i, a, refl)
  run_refines (c ∷ cs) q xs i a =
      after_step (length q.buf) cs (spec_step (length q.buf) xs c) (step q c)
        (step-Agrees q xs c i a) (run_refines cs)
