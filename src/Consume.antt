-- ===== src/Consume.antt =====
-- `process_consume_events` of dex/src/state.rs: the events at the front of the queue are delivered to
-- the open orders accounts that the caller passes, until the limit, the end of the queue or an event
-- whose account is not among them. `Search` is the lookup of the account, `Deliver` is about one event,
-- `Refine` and `Progress` about the whole run. The events that the handler logs are left out, and so
-- are its `debug_assert_eq!`s, which a release build does not have.
pub mod Search
pub mod Deliver
pub mod Refine
pub mod Progress
mod Tests
use openbook_dex.Prelude.{
  ℕ, zero, suc, ◌+◌, ◌/◌, ◌-◌, Bool, true, false, not, List, [], ◌∷◌, Option, none, some, ltb, leb,
  ◌==◌, if◌then◌else◌, length, get_elem?, set, map, add64, sub64,
}
use openbook_dex.Error.{
  DexResult, ok, ◌>>=◌, ◌>>◌, unwrap, ok_or, check_assert, state, consume_events_queue_failure,
}
use openbook_dex.Fees.{referrer_rebate}
use openbook_dex.Queue.{Queue, EventQueueHeader, event_header, peek_front, pop_front}
use openbook_dex.Types.{Side, bid, ask, side_eq, Address}
use openbook_dex.Event.{Event, EventView, Fill, Out, fill, out, view_side, as_view}
use openbook_dex.OpenOrders.{OpenOrders, slot_side, remove_order}
use openbook_dex.Market.Versions.{AccountInfo, Market}
use openbook_dex.Market.Loads.{load_orders_mut}

-- `slice::binary_search_by_key` of the standard library, over the keys: `right - left` is at least
-- halved by each round, so one round for each key and one more are enough.
unfoldable pub search_between : ℕ → List ℕ → ℕ → ℕ → ℕ → Option ℕ
search_between zero keys target left right = none
search_between (suc fuel) keys target left right =
    let mid = left + (right - left) / 2 in
    let narrowed : Option ℕ = elim (get_elem? keys mid) [
      | none ↦ none
      | some key ↦ elim (ltb key target) [
        | true ↦ search_between fuel keys target (suc mid) right
        | false ↦ elim (ltb target key) [
          | true ↦ search_between fuel keys target left mid
          | false ↦ some mid
        ]
      ]
    ] in
    if ltb left right then narrowed else none

unfoldable pub binary_search : List ℕ → ℕ → Option ℕ
unfolding search_between
binary_search keys target = search_between (suc (length keys)) keys target 0 (length keys)

-- What a fill moves between the balances of the account.
unfoldable pub apply_fill : Fill → OpenOrders → OpenOrders
apply_fill v o =
    if v.maker
    then (elim v.side [
      | bid ↦ record o {
        native_pc_total = sub64 o.native_pc_total v.native_qty_paid;
        native_coin_total = add64 o.native_coin_total v.native_qty_received;
        native_coin_free = add64 o.native_coin_free v.native_qty_received;
        native_pc_free = add64 o.native_pc_free v.native_fee_or_rebate;
      }
      | ask ↦ record o {
        native_coin_total = sub64 o.native_coin_total v.native_qty_paid;
        native_pc_total = add64 o.native_pc_total v.native_qty_received;
        native_pc_free = add64 o.native_pc_free v.native_qty_received;
      }
    ])
    else record o {
      referrer_rebates_accrued =
          add64 o.referrer_rebates_accrued (referrer_rebate v.native_fee_or_rebate);
    }

-- What an order that leaves the book releases, with the check that follows.
unfoldable pub release : Out → OpenOrders → DexResult OpenOrders
release v o = elim v.side [
  | bid ↦
      let pc_free =
        if v.release_funds
        then add64 o.native_pc_free v.native_qty_unlocked
        else o.native_pc_free in
      check_assert state 3296 (leb pc_free o.native_pc_total)
      >> ok (record o { native_pc_free = pc_free })
  | ask ↦
      let coin_free =
        if v.release_funds
        then add64 o.native_coin_free v.native_qty_unlocked
        else o.native_coin_free in
      check_assert state 3304 (leb coin_free o.native_coin_total)
      >> ok (record o { native_coin_free = coin_free })
]

unfoldable pub apply_out : Out → OpenOrders → DexResult OpenOrders
unfolding release
apply_out v o = release v o >>= λ p.
    (if v.native_qty_still_locked == 0 then remove_order p v.owner_slot else ok p)

unfoldable pub apply_view : EventView → OpenOrders → DexResult OpenOrders
unfolding apply_fill apply_out
apply_view (fill v) o = ok (apply_fill v o)
apply_view (out v) o = apply_out v o

-- `open_orders.slot_side(slot) == Some(side)`.
abbrev pub is_side : Option Side → Side → Bool
is_side none side = false
is_side (some s) side = side_eq s side

-- The account must hold the order of the event in its slot.
unfoldable pub deliver : Event → EventView → OpenOrders → DexResult OpenOrders
unfolding apply_view
deliver e view o =
    check_assert state 3196 (ltb e.owner_slot 128)
    >> (check_assert state 3197 (is_side (slot_side o e.owner_slot) (view_side view))
        >> (unwrap (get_elem? o.orders e.owner_slot) >>= λ held.
            check_assert state 3198 (held == e.order_id) >> apply_view view o))

-- The accounts and the queue.
pub record ConsumeState : Type 0 where
  pub open_orders_accounts : List (AccountInfo OpenOrders)
  pub event_q : Queue EventQueueHeader Event

-- `event_q.pop_front().map_err(..)?`.
abbrev pub popped :
    List (AccountInfo OpenOrders)
    → Option (Event × Queue EventQueueHeader Event)
    → DexResult ConsumeState
popped accounts r = ok_or r consume_events_queue_failure >>= λ p.
    ok (record { open_orders_accounts = accounts; event_q = p.1 })

module _ (market : Market) (program_id : Address) where
  -- The account at an index, loaded, changed and put back.
  unfoldable pub consume_at :
      Event
      → EventView
      → List (AccountInfo OpenOrders)
      → ℕ
      → DexResult (List (AccountInfo OpenOrders))
  unfolding deliver
  consume_at e view accounts i = unwrap (get_elem? accounts i) >>= λ account.
      load_orders_mut market account none program_id none none >>= λ o.
      deliver e view o >>= λ o'. ok (set accounts i (record account { contents = o' }))

  -- A round of the loop; `none` is a `break`.
  unfoldable pub consume_front : Event → ConsumeState → DexResult (Option ConsumeState)
  unfolding binary_search consume_at
  consume_front e s =
      let accounts = s.open_orders_accounts in
      as_view e >>= λ view. elim (binary_search (map (λ a. a.key) accounts) e.owner) [
        | none ↦ ok none
        | some i ↦ consume_at e view accounts i >>= λ accounts'.
            pop_front s.event_q >>= λ r. popped accounts' r >>= λ t. ok (some t)
      ]

  unfoldable pub consume_one : ConsumeState → DexResult (Option ConsumeState)
  unfolding consume_front
  consume_one s =
      peek_front s.event_q >>= λ r. elim r [ none ↦ ok none | some e ↦ consume_front e s ]

  unfoldable pub consume_events : ℕ → ConsumeState → DexResult ConsumeState
  unfolding consume_one
  consume_events zero s = ok s
  consume_events (suc limit) s =
      consume_one s >>= λ r. elim r [ none ↦ ok s | some t ↦ consume_events limit t ]
