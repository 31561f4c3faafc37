-- ===== src/Consume/Refine.antt =====
-- A run of `process_consume_events` (dex/src/state.rs) as a relation on the list of events that the queue
-- holds and the accounts.
use openbook_dex.Prelude.{
  ℕ, zero, suc, ◌≡◌, refl, sym, ap, subst, ◌∙◌, inl, inr, List, [], ◌∷◌, Option, none, some, map,
  get_elem?, set, Option-cases,
}
use openbook_dex.Error.{ok, ◌>>=◌, unwrap}
use openbook_dex.Error.Post.{>>=-eq-ok, unwrap-eq-ok}
use openbook_dex.Queue.{Queue, EventQueueHeader, event_header, peek_front, pop_front}
use openbook_dex.Queue.Valid.{IsValid, Holds}
use openbook_dex.Queue.Refine.{after_pop, pop_front_refines}
use openbook_dex.Types.{Address}
use openbook_dex.Event.{Event, EventView, as_view}
use openbook_dex.OpenOrders.{OpenOrders}
use openbook_dex.Market.Versions.{AccountInfo, Market}
use openbook_dex.Market.Loads.{load_orders_mut}
use openbook_dex.Consume.{
  ConsumeState, binary_search, deliver, popped, consume_at, consume_front, consume_one,
  consume_events,
}
use openbook_dex.Consume.Deliver.{HoldsOrder, deliver-parts}
use openbook_dex.Consume.Search.{IsSorted, index_of, binary_search-eq-index_of}

abbrev pub Accounts : Type 0
Accounts = List (AccountInfo OpenOrders)

abbrev pub keys : Accounts → List ℕ
keys accounts = map (λ a. a.key) accounts

-- An account with other open orders in it.
abbrev pub with_orders : AccountInfo OpenOrders → OpenOrders → AccountInfo OpenOrders
with_orders account o = record account { contents = o }

pub keys-set :
    (accounts : Accounts) (i : ℕ) (account : AccountInfo OpenOrders) (o : OpenOrders)
    → get_elem? accounts i ≡ some account
    → keys (set accounts i (with_orders account o)) ≡ keys accounts
keys-set [] i account o e = refl
keys-set (a ∷ accounts) zero account o e = let same : a ≡ account = cc in rw same refl
keys-set (a ∷ accounts) (suc i) account o e = ap (◌∷◌ a.key) (keys-set accounts i account o e)

module _ (market : Market) (program_id : Address) where
  -- A run within a limit takes events from the front of the list and changes the accounts. It ends at
  -- the limit, at the end of the list, or at an event whose account is not among them.
  pub data Run : ℕ → List Event → Accounts → List Event → Accounts → Type 0 where
    limit_reached : {es : List Event} {a : Accounts} → Run 0 es a es a
    queue_empty : {n : ℕ} {a : Accounts} → Run n [] a [] a
    no_account :
        {n : ℕ} {e : Event} {es : List Event} {a : Accounts} (v : EventView)
        → as_view e ≡ ok v
        → index_of (keys a) e.owner ≡ none
        → Run (suc n) (e ∷ es) a (e ∷ es) a
    delivered :
        {n : ℕ} {e : Event} {es es' : List Event} {a a' : Accounts} (v : EventView) (i : ℕ)
        (account : AccountInfo OpenOrders) (o d : OpenOrders)
        → as_view e ≡ ok v
        → index_of (keys a) e.owner ≡ some i
        → get_elem? a i ≡ some account
        → load_orders_mut market account none program_id none none ≡ ok o
        → deliver e v o ≡ ok d
        → Run n es (set a i (with_orders account d)) es' a'
        → Run (suc n) (e ∷ es) a es' a'

  -- Each event that a run delivers went to an account that held the event's order, in its slot and on
  -- its side.
  pub AllHeld : {n : ℕ} {es es' : List Event} {a a' : Accounts} → Run n es a es' a' → Type 0
  AllHeld limit_reached = Unit
  AllHeld queue_empty = Unit
  AllHeld (no_account v view unknown) = Unit
  AllHeld (delivered {e = e} v i account o d view at there loads takes run) =
      HoldsOrder e v o × AllHeld run

  -- The queue of a state holds a list of events.
  pub record HoldsEvents (s : ConsumeState) (es : List Event) : Type 0 where
    pub valid : IsValid s.event_q
    pub holds : Holds s.event_q es

  consume_at-parts :
      (e : Event) (v : EventView) (a a' : Accounts) (i : ℕ)
      → consume_at market program_id e v a i ≡ ok a'
      → (account : AccountInfo OpenOrders) × (o : OpenOrders) × (d : OpenOrders) × (get_elem? a i
          ≡ some account)
        × (load_orders_mut market account none program_id none none ≡ ok o)
        × (deliver e v o ≡ ok d)
        × (a' ≡ set a i (with_orders account d))
  unfolding consume_at
  consume_at-parts e v a a' i r =
      let (account, f, r₁) = >>=-eq-ok (unwrap (get_elem? a i)) _ r in
      let (o, g, r₂) = >>=-eq-ok (load_orders_mut market account none program_id none none) _ r₁ in
      let (d, h, r₃) = >>=-eq-ok (deliver e v o) _ r₂ in (account, o, d, unwrap-eq-ok _ f, g, h, cc)

  -- The front of a queue that holds an event.
  pub front :
      (s : ConsumeState) (e : Event) (es : List Event)
      → HoldsEvents s (e ∷ es)
      → (peek_front s.event_q ≡ ok (some e))
        × ((q : Queue EventQueueHeader Event) × (pop_front s.event_q ≡ ok (some (e, q)))
            × IsValid q
            × Holds q es)
  front s e es h = elim (pop_front_refines s.event_q (e ∷ es) h.valid h.holds) [
    | inl (x, rest, eq, pop, peek, valid, holds) ↦
        let is_x : x ≡ e = cc in
        let is_rest : rest ≡ es = cc in
        rw (← is_x, ← is_rest) (peek, (after_pop s.event_q, pop, valid, holds))
    | inr (eq, _, _) ↦ absurd (cc)
  ]

  pub consume_one-empty :
      (s : ConsumeState) → HoldsEvents s [] → consume_one market program_id s ≡ ok none
  unfolding consume_one
  consume_one-empty s h = elim (pop_front_refines s.event_q [] h.valid h.holds) [
    | inl (x, rest, eq, _, _, _, _) ↦ absurd (cc)
    | inr (_, _, peek) ↦ rw peek refl
  ]

  -- What a round does with the event at the front.
  data Round (e : Event) (es : List Event) (s : ConsumeState) : Option ConsumeState → Type 0 where
    breaks :
        (v : EventView)
        → as_view e ≡ ok v
        → binary_search (keys s.open_orders_accounts) e.owner ≡ none
        → Round e es s none
    delivers :
        (v : EventView) (i : ℕ) (t : ConsumeState)
        → as_view e ≡ ok v
        → binary_search (keys s.open_orders_accounts) e.owner ≡ some i
        → consume_at market program_id e v s.open_orders_accounts i ≡ ok t.open_orders_accounts
        → HoldsEvents t es
        → Round e es s (some t)

  consume_front-Round :
      (e : Event) (es : List Event) (s : ConsumeState) (r : Option ConsumeState)
      → HoldsEvents s (e ∷ es)
      → consume_front market program_id e s ≡ ok r
      → Round e es s r
  unfolding consume_front
  consume_front-Round e es s r h c =
      let accounts = s.open_orders_accounts in
      let (v, view, c₁) = >>=-eq-ok (as_view e) _ c in
      elim (Option-cases (binary_search (keys accounts) e.owner)) [
        | inl missing ↦
            let c₂ : ok none ≡ ok r = rw missing at c₁ in
            let same : none ≡ r = cc in rw (← same) (breaks v view missing)
        | inr (i, found) ↦
            let (_, (q, pop, valid, holds)) = front s e es h in
            let c₂ : (consume_at market program_id e v accounts i >>= λ a'.
            pop_front s.event_q >>= λ p. popped a' p >>= λ t. ok (some t))
                ≡ ok r =
              rw found at c₁ in
            let (a', at_, c₃) = >>=-eq-ok (consume_at market program_id e v accounts i) _ c₂ in
            let t : ConsumeState = record { open_orders_accounts = a'; event_q = q } in
            let c₄ : ok (some t) ≡ ok r = rw pop at c₃ in
            let same : some t ≡ r = cc in
            rw (← same) (delivers v i t view found at_ (record { valid = valid; holds = holds }))
      ]

  consume_one-Round :
      (e : Event) (es : List Event) (s : ConsumeState) (r : Option ConsumeState)
      → HoldsEvents s (e ∷ es)
      → consume_one market program_id s ≡ ok r
      → Round e es s r
  unfolding consume_one
  consume_one-Round e es s r h c =
      let (peek, _) = front s e es h in
      let c₁ : consume_front market program_id e s ≡ ok r = rw peek at c in
      consume_front-Round e es s r h c₁

  -- The rest of a run after its first round, given the runs of the smaller limit.
  step :
      (n : ℕ) (e : Event) (es : List Event) (s t : ConsumeState) (r : Option ConsumeState)
      → HoldsEvents s (e ∷ es)
      → IsSorted (keys s.open_orders_accounts)
      → Round e es s r
      → elim r [ none ↦ ok s | some s' ↦ consume_events market program_id n s' ] ≡ ok t
      → ((s' : ConsumeState)
          → HoldsEvents s' es
          → IsSorted (keys s'.open_orders_accounts)
          → consume_events market program_id n s' ≡ ok t
          → (es' : List Event) × Run n es s'.open_orders_accounts es' t.open_orders_accounts
            × HoldsEvents t es')
      → (es' : List Event) × Run (suc n) (e ∷ es) s.open_orders_accounts es' t.open_orders_accounts
        × HoldsEvents t es'
  step n e es s t none h sorted (breaks v view missing) c ih =
      let same : s ≡ t = cc in
      let no = sym (binary_search-eq-index_of _ e.owner sorted) ∙ missing in
      rw (← same) (e ∷ es, no_account v view no, h)
  step n e es s t (some s') h sorted (delivers v i _ view found at_ h') c ih =
      let (account, o, d, f, g, k, eq) =
        consume_at-parts e v s.open_orders_accounts s'.open_orders_accounts i at_ in
      let is_at = sym (binary_search-eq-index_of _ e.owner sorted) ∙ found in
      let kept : keys s'.open_orders_accounts ≡ keys s.open_orders_accounts =
        ap keys eq ∙ keys-set s.open_orders_accounts i account d f in
      let (es', run, h'') = ih s' h' (subst IsSorted (sym kept) sorted) c in
      (
        es',
        delivered v i account o d view is_at f g k
            (subst (λ a. Run n es a es' t.open_orders_accounts) eq run),
        h'',
      )

  run-AllHeld :
      {n : ℕ} {es es' : List Event} {a a' : Accounts} (run : Run n es a es' a') → AllHeld run
  unfolding AllHeld
  run-AllHeld limit_reached = tt
  run-AllHeld queue_empty = tt
  run-AllHeld (no_account v view unknown) = tt
  run-AllHeld (delivered {e = e} v i account o d view at there loads takes run) =
      ((deliver-parts e v o d takes).0, run-AllHeld run)

  consume_events-run :
      (n : ℕ) (es : List Event) (s t : ConsumeState)
      → HoldsEvents s es
      → IsSorted (keys s.open_orders_accounts)
      → consume_events market program_id n s ≡ ok t
      → (es' : List Event) × Run n es s.open_orders_accounts es' t.open_orders_accounts
        × HoldsEvents t es'
  unfolding consume_events
  consume_events-run zero es s t h sorted c =
      let same : s ≡ t = cc in rw (← same) (es, limit_reached, h)
  consume_events-run (suc n) [] s t h sorted c =
      let c₁ : ok s ≡ ok t = rw (consume_one-empty s h) at c in
      let same : s ≡ t = cc in rw (← same) ([], queue_empty, h)
  consume_events-run (suc n) (e ∷ es) s t h sorted c =
      let (r, one, c₁) = >>=-eq-ok (consume_one market program_id s) _ c in
      step n e es s t r h sorted (consume_one-Round e es s r h one) c₁
        (λ s'. consume_events-run n es s' t)

  -- On accounts in strictly rising order of their keys and a valid queue, a run of the handler that
  -- succeeds is a run on the list of events that the queue holds: one event after the other is
  -- delivered to its account, which holds the event's order, in its slot and on its side, and leaves
  -- the front of the queue, until the limit, the end of the queue or an event whose account is not
  -- among them; the queue is still valid and holds the events that are left.
  pub consume_events_refines :
      (n : ℕ) (es : List Event) (s t : ConsumeState)
      → HoldsEvents s es
      → IsSorted (keys s.open_orders_accounts)
      → consume_events market program_id n s ≡ ok t
      → (es' : List Event) × (run : Run n es s.open_orders_accounts es' t.open_orders_accounts)
        × AllHeld run
        × HoldsEvents t es'
  consume_events_refines n es s t h sorted c =
      let (es', run, h') = consume_events-run n es s t h sorted c in (es', run, run-AllHeld run, h')
