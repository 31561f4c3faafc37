-- ===== src/Handlers/Book/Tests.antt =====
-- A bid that is placed on an empty book of dex/src/state.rs, and canceled.
use openbook_dex.Prelude.{
  ◌≡◌, refl, [], ◌∷◌, ◌-◌, ◌+◌, ◌*◌, ◌^◌, u128_mod, arith, sub64, checked_add, checked_sub, add64,
  mul64,
}
use openbook_dex.Error.{ok, err, panic}
use openbook_dex.Types.{bid, limit, decrement_take}
use openbook_dex.Fees.{base, remove_taker_fee, taker_fee, tier_from_u8, tier_to_u8}
use openbook_dex.Queue.{push_back}
use openbook_dex.Event.{of_view}
use openbook_dex.Request.{RequestQueue, gen_order_id, gen_seq_num, lower_half}
use openbook_dex.OpenOrders.{
  OpenOrders, credit_locked_coin, credit_locked_pc, lock_free_pc, unlock_coin, unlock_pc, add_order,
  slot_is_free, add_side, slot_side,
}
use openbook_dex.Critbit.Node.{leaf_price, as_leaf, leaf_fee_tier, case, new_leaf}
use openbook_dex.Critbit.Alloc.{get, remove, insert, insert_bump}
use openbook_dex.Critbit.Find.{find_min, find_min_max, root, find_min_max_from, view_at}
use openbook_dex.Critbit.Insert.{insert_leaf, insert_root}
use openbook_dex.Critbit.Remove.{remove_by_key, remove_root}
use openbook_dex.Critbit.Ends.{unused_slab, unused_slab-Holds}
use openbook_dex.Instruction.{NewOrderInstructionV3, CancelOrderInstructionV2}
use openbook_dex.Matching.Sample.{market, no_events}
use openbook_dex.Matching.State.{
  Context, no_proceeds, extract_price_from_order_id, leaf_at, find_bbo, push_event, credit_coin,
  debit_native_pc, unlock_native_pc,
}
use openbook_dex.Matching.Bid.{
  new_bid, remaining_of, div64, round, finish, to_post_at, release, post, settle,
}
use openbook_dex.Matching.Order.{new_order, match_round, match_rounds}
use openbook_dex.Matching.Cancel
use openbook_dex.Matching.Cancel.{process_orderbook_request, cancel_leaf_node, locked_by, unlock}
use openbook_dex.Matching.Book.{HasBook}
use openbook_dex.Matching.Best.{SameBook-refl}
use openbook_dex.Place.{Placed, checked_mul, lock_bid, lock_funds, book_proceeds, place_order}
use openbook_dex.Handlers.Cancels.{CancelState, cancel_order_v2, process_cancel_order_v2}
use openbook_dex.Handlers.Book.{Trades, stays, placed, canceled, Trades-HasBook}

abbrev empty : Context
empty = record {
  bids = unused_slab 2;
  asks = unused_slab 2;
  market_state = market;
  event_q = no_events;
  proceeds = no_proceeds;
}

empty-HasBook : HasBook empty
empty-HasBook = record {
  buys = [];
  sells = [];
  holds_bids = unused_slab-Holds 2;
  holds_asks = unused_slab-Holds 2;
  uncrossed = tt;
}

abbrev trader : OpenOrders
trader = record {
  account_flags = 5;
  market = 1;
  owner = 2;
  native_coin_free = 0;
  native_coin_total = 0;
  native_pc_free = 100000;
  native_pc_total = 100000;
  free_slot_bits = u128_mod - 1;
  is_bid_bits = 0;
  orders = 0 ∷ 0 ∷ [];
  client_order_ids = 0 ∷ 0 ∷ [];
  referrer_rebates_accrued = 0;
}

abbrev requests : RequestQueue
requests = record {
  header = record { account_flags = 9; head = 0; count = 0; next_seq_num = 6 };
  buf = [];
}

abbrev order : NewOrderInstructionV3
order = record {
  side = bid;
  limit_price = 110;
  max_coin_qty = 4;
  max_native_pc_qty_including_fees = 60000;
  self_trade_behavior = decrement_take;
  order_type = limit;
  client_order_id = 0;
  limit = 5;
  max_ts = 100;
}

abbrev resting : Placed
resting = elim (place_order order 0 base 8 requests trader empty) [
  | ok p ↦ p
  | err e ↦ record { deposit_amount = 0; req_q = requests; open_orders = trader; context = empty }
  | panic ↦ record { deposit_amount = 0; req_q = requests; open_orders = trader; context = empty }
]

places : place_order order 0 base 8 requests trader empty ≡ ok resting
unfolding place_order lock_funds lock_bid lock_free_pc credit_locked_pc unlock_coin unlock_pc
    credit_locked_coin book_proceeds add_order slot_is_free add_side gen_order_id remove_taker_fee
    taker_fee credit_coin debit_native_pc gen_seq_num lower_half process_orderbook_request
    checked_mul new_order match_rounds match_round remaining_of extract_price_from_order_id new_bid
    round settle finish to_post_at release post div64 find_bbo leaf_at push_event unlock_native_pc
    find_min find_min_max root find_min_max_from view_at case as_leaf get leaf_price leaf_fee_tier
    tier_from_u8 tier_to_u8 insert_leaf insert_root insert insert_bump new_leaf push_back of_view
    checked_add checked_sub add64 sub64 mul64
places = refl

abbrev cancel : CancelOrderInstructionV2
cancel = record { side = bid; order_id = 110 * 2 ^ 64 + (2 ^ 64 - 1 - 6) }

abbrev before : CancelState
before = record { open_orders = resting.open_orders; context = resting.context }

abbrev after : CancelState
after = elim (process_cancel_order_v2 cancel 8 before) [
  | ok t ↦ t
  | err e ↦ before
  | panic ↦ before
]

cancels : process_cancel_order_v2 cancel 8 before ≡ ok after
unfolding process_cancel_order_v2 cancel_order_v2 Cancel.cancel_order_v2 cancel_leaf_node locked_by
    unlock unlock_pc slot_side leaf_price push_event push_back of_view remove_by_key remove_root
    remove root view_at get case checked_add add64 sub64 mul64 place_order lock_funds lock_bid
    lock_free_pc credit_locked_pc unlock_coin credit_locked_coin book_proceeds add_order
    slot_is_free add_side gen_order_id remove_taker_fee taker_fee credit_coin debit_native_pc
    gen_seq_num lower_half process_orderbook_request checked_mul new_order match_rounds match_round
    remaining_of extract_price_from_order_id new_bid round settle finish to_post_at release post
    div64 find_bbo leaf_at unlock_native_pc find_min find_min_max find_min_max_from as_leaf
    leaf_fee_tier tier_from_u8 tier_to_u8 insert_leaf insert_root insert insert_bump new_leaf
    checked_sub
cancels = refl

run : Trades empty after.context
run =
    placed order 0 base 8 requests trader resting (omega arith) (omega arith) places
      (canceled cancel 8 before after cancels (stays (SameBook-refl after.context)))

Trades-HasBook_example : HasBook after.context
Trades-HasBook_example = Trades-HasBook empty after.context empty-HasBook run
