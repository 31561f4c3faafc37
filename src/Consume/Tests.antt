-- ===== src/Consume/Tests.antt =====
-- `process_consume_events` of dex/src/state.rs on a queue with two events: a fill of a bid of the
-- account 7, which is passed in, and one of an account that is not.
use openbook_dex.Prelude.{
  zero, suc, ◌+◌, ◌-◌, ◌≡◌, refl, true, false, List, [], ◌∷◌, none, arith, u128_mod, add64, sub64,
}
use openbook_dex.Error.{ok, err, panic}
use openbook_dex.Fees.{base, tier_from_u8}
use openbook_dex.Queue.{event_header, peek_front, pop_front}
use openbook_dex.Queue.Valid.{Items}
use openbook_dex.Types.{bid}
use openbook_dex.Event.{Event, EventView, Fill, fill, as_view, view_side}
use openbook_dex.OpenOrders.{OpenOrders, slot_side, check_flags}
use openbook_dex.Market.Versions.{AccountInfo, v1}
use openbook_dex.Market.Loads.{load_orders_mut}
use openbook_dex.Matching.Sample.{market}
use openbook_dex.Consume.{ConsumeState, deliver, consume_events}
use openbook_dex.Consume.Search.{IsSorted, index_of}
use openbook_dex.Consume.Deliver.{IsSolvent, Covers, HoldsOrder, IsApplied, deliver_lem}
use openbook_dex.Consume.Refine.{
  keys, Run, delivered, no_account, AllHeld, HoldsEvents, consume_events_refines,
}
use openbook_dex.Consume.Progress.{consume_events-Run}

abbrev holder : OpenOrders
holder = record {
  account_flags = 5;
  market = 1;
  owner = 2;
  native_coin_free = 0;
  native_coin_total = 0;
  native_pc_free = 5;
  native_pc_total = 100;
  free_slot_bits = u128_mod - 2;
  is_bid_bits = 1;
  orders = 11 ∷ 0 ∷ [];
  client_order_ids = 0 ∷ 0 ∷ [];
  referrer_rebates_accrued = 0;
}

abbrev account : AccountInfo OpenOrders
account = record {
  key = 7;
  owner = 20;
  is_signer = false;
  lamports = 1;
  data_len = 3228;
  contents = holder;
}

-- The buyer of the order 11 gets 3 native coins for 40 and a rebate of 1.
abbrev maker : Fill
maker = record {
  side = bid;
  maker = true;
  native_qty_paid = 40;
  native_qty_received = 3;
  native_fee_or_rebate = 1;
  order_id = 11;
  owner = 7;
  owner_slot = 0;
  fee_tier = base;
  client_order_id = none;
}

abbrev maker_fill : EventView
maker_fill = fill maker

abbrev event : Event
event = record {
  event_flags = 0x4 + 0x1 + 0x8;
  owner_slot = 0;
  fee_tier = 0;
  native_qty_released = 3;
  native_qty_paid = 40;
  native_fee_or_rebate = 1;
  order_id = 11;
  owner = 7;
  client_order_id = 0;
}

abbrev stranger : Event
stranger = record event { owner = 8 }

abbrev events : List Event
events = event ∷ stranger ∷ []

abbrev start : ConsumeState
start = record {
  open_orders_accounts = account ∷ [];
  event_q = record {
    header = record { account_flags = 17; head = 1; count = 2; seq_num = 2 };
    buf = stranger ∷ event ∷ [];
  };
}

abbrev left : List Event
left = stranger ∷ []

abbrev done : ConsumeState
done = elim (consume_events (v1 market) 20 3 start) [ ok s ↦ s | err e ↦ start | panic ↦ start ]

makes_done : consume_events (v1 market) 20 3 start ≡ ok done
unfolding consume_events view_side peek_front pop_front as_view tier_from_u8 load_orders_mut
    check_flags slot_side add64 sub64
makes_done = refl

start-Items : Items start.event_q.buf 1 events
start-Items zero p = refl
start-Items (suc zero) p = refl
start-Items (suc (suc i)) p = absurd (omega arith)

start-HoldsEvents : HoldsEvents (v1 market) 20 start events
start-HoldsEvents = record {
  valid = record { head_in = omega arith; count_in = omega arith; small = omega arith };
  holds = record { counted = refl; items = start-Items };
}

one_key-IsSorted : IsSorted (keys (account ∷ []))
one_key-IsSorted i zero x y h p q = absurd (omega arith)
one_key-IsSorted i (suc j) x y h p q = cc

abbrev filled : OpenOrders
filled = elim (deliver event maker_fill holder) [ ok o ↦ o | err e ↦ holder | panic ↦ holder ]

delivers_fill : deliver event maker_fill holder ≡ ok filled
unfolding deliver view_side slot_side add64 sub64
delivers_fill = refl

holder-IsSolvent : IsSolvent holder
holder-IsSolvent = omega arith

holder-Covers : Covers maker_fill holder
holder-Covers = omega arith

one_delivered :
    Run (v1 market) 20 3 events start.open_orders_accounts left done.open_orders_accounts
unfolding index_of as_view tier_from_u8 load_orders_mut check_flags deliver view_side slot_side
    add64 sub64 consume_events peek_front pop_front
one_delivered =
    delivered maker_fill 0 account holder filled refl refl refl refl refl
      (no_account (fill (record maker { owner = 8 })) refl refl)

consume_events_refines_example :
    (es' : List Event) × (run : Run
      (v1 market)
      20
      3
      events
      (account ∷ [])
      es'
      done.open_orders_accounts)
    × AllHeld (v1 market) 20 run
    × HoldsEvents (v1 market) 20 done es'
consume_events_refines_example =
    consume_events_refines (v1 market) 20 3 events start done start-HoldsEvents one_key-IsSorted
      makes_done

consume_events-Run_example :
    (t : ConsumeState) × (consume_events (v1 market) 20 3 start ≡ ok t)
    × (t.open_orders_accounts ≡ done.open_orders_accounts)
    × HoldsEvents (v1 market) 20 t left
consume_events-Run_example =
    consume_events-Run (v1 market) 20 3 start events left done.open_orders_accounts one_delivered
      start-HoldsEvents one_key-IsSorted

deliver_lem_example : HoldsOrder event maker_fill holder × IsApplied maker_fill holder filled 1
deliver_lem_example =
    deliver_lem event maker_fill holder filled 1 (omega arith) holder-IsSolvent holder-Covers
      delivers_fill
