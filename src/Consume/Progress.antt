-- ===== src/Consume/Progress.antt =====
-- Every run that the relation of a run allows is one that `process_consume_events` (dex/src/state.rs)
-- makes: the handler does not fail, and does not stop early.
use openbook_dex.Prelude.{
  ℕ, zero, suc, ◌≡◌, refl, sym, ap, subst, ◌∙◌, List, ◌∷◌, none, some, get_elem?, set,
}
use openbook_dex.Error.{ok}
use openbook_dex.Types.{Address}
use openbook_dex.Event.{Event, EventView, as_view}
use openbook_dex.OpenOrders.{OpenOrders}
use openbook_dex.Market.Versions.{AccountInfo, Market}
use openbook_dex.Market.Loads.{load_orders_mut}
use openbook_dex.Consume.{
  ConsumeState, deliver, consume_at, consume_front, consume_one, consume_events,
}
use openbook_dex.Consume.Search.{IsSorted, index_of, binary_search-eq-index_of}
use openbook_dex.Consume.Refine.{
  Accounts, keys, with_orders, Run, limit_reached, queue_empty, no_account, delivered, HoldsEvents,
  front, consume_one-empty, keys-set,
}

module _ (market : Market) (program_id : Address) where
  -- A run after a break changes nothing.
  stays :
      (n : ℕ) (s : ConsumeState)
      → consume_one market program_id s ≡ ok none
      → consume_events market program_id n s ≡ ok s
  unfolding consume_events
  stays zero s e = refl
  stays (suc n) s e = rw e refl

  -- A round that breaks.
  breaks :
      (s : ConsumeState) (e : Event) (es : List Event) (v : EventView)
      → HoldsEvents market program_id s (e ∷ es)
      → IsSorted (keys s.open_orders_accounts)
      → as_view e ≡ ok v
      → index_of (keys s.open_orders_accounts) e.owner ≡ none
      → consume_one market program_id s ≡ ok none
  unfolding consume_one consume_front
  breaks s e es v h sorted view unknown =
      let (peek, _) = front market program_id s e es h in
      let missing =
        binary_search-eq-index_of (keys s.open_orders_accounts) e.owner sorted ∙ unknown in
      rw (peek, view, missing) refl

  -- A round that delivers an event.
  delivers :
      (s : ConsumeState) (e : Event) (es : List Event) (v : EventView) (i : ℕ)
      (account : AccountInfo OpenOrders) (o d : OpenOrders)
      → HoldsEvents market program_id s (e ∷ es)
      → IsSorted (keys s.open_orders_accounts)
      → as_view e ≡ ok v
      → index_of (keys s.open_orders_accounts) e.owner ≡ some i
      → get_elem? s.open_orders_accounts i ≡ some account
      → load_orders_mut market account none program_id none none ≡ ok o
      → deliver e v o ≡ ok d
      → (t : ConsumeState) × (consume_one market program_id s ≡ ok (some t))
        × (t.open_orders_accounts ≡ set s.open_orders_accounts i (with_orders account d))
        × HoldsEvents market program_id t es
  unfolding consume_one consume_front consume_at
  delivers s e es v i account o d h sorted view is_at there loads takes =
      let (peek, (q, pop, valid, holds)) = front market program_id s e es h in
      let found = binary_search-eq-index_of (keys s.open_orders_accounts) e.owner sorted ∙ is_at in
      (
        record {
          open_orders_accounts = set s.open_orders_accounts i (with_orders account d);
          event_q = q;
        },
        rw (peek, view, found, there, loads, takes, pop) refl,
        refl,
        record { valid = valid; holds = holds },
      )

  makes :
      {n : ℕ} {es es' : List Event} {a a' : Accounts}
      → Run market program_id n es a es' a'
      → (s : ConsumeState) → s.open_orders_accounts ≡ a
      → HoldsEvents market program_id s es
      → IsSorted (keys a)
      → (t : ConsumeState) × (consume_events market program_id n s ≡ ok t)
        × (t.open_orders_accounts ≡ a')
        × HoldsEvents market program_id t es'
  unfolding consume_events
  makes limit_reached s eq h sorted = (s, refl, eq, h)
  makes (queue_empty {n = n}) s eq h sorted =
      (s, stays n s (consume_one-empty market program_id s h), eq, h)
  makes (no_account {e = e} {es = es} {a = a} v view unknown) s eq h sorted =
      let here = subst (λ a. IsSorted (keys a)) (sym eq) sorted in
      let missing : index_of (keys s.open_orders_accounts) e.owner ≡ none = rw eq unknown in
      (s, rw (breaks s e es v h here view missing) refl, eq, h)
  makes (delivered {e = e} {es = es} {a = a} v i account o d view is_at there loads takes run) s eq
        h sorted =
      let here = subst (λ a. IsSorted (keys a)) (sym eq) sorted in
      let found : index_of (keys s.open_orders_accounts) e.owner ≡ some i = rw eq is_at in
      let at_ : get_elem? s.open_orders_accounts i ≡ some account = rw eq there in
      let (s', one, eq', h') = delivers s e es v i account o d h here view found at_ loads takes in
      let kept = keys-set a i account d there in
      let (t, c, eq'', h'') =
        makes run s' (eq' ∙ ap (λ a. set a i (with_orders account d)) eq) h'
          (subst IsSorted (sym kept) sorted) in
      (t, rw one c, eq'', h'')

  -- On accounts in strictly rising order of their keys and a valid queue, the handler makes every run
  -- that there is from them: it succeeds, and leaves the accounts and the events of that run.
  pub consume_events-Run :
      (n : ℕ) (s : ConsumeState) (es es' : List Event) (a' : Accounts)
      → Run market program_id n es s.open_orders_accounts es' a'
      → HoldsEvents market program_id s es
      → IsSorted (keys s.open_orders_accounts)
      → (t : ConsumeState) × (consume_events market program_id n s ≡ ok t)
        × (t.open_orders_accounts ≡ a')
        × HoldsEvents market program_id t es'
  consume_events-Run n s es es' a' run h sorted = makes run s refl h sorted
