-- ===== src/Matching/Order/Tests.antt =====
-- An order that buys ten lots at 110 in two rounds: `new_order` of dex/src/matching.rs.
use openbook_dex.Prelude.{
  ℕ, ◌+◌, ◌*◌, ◌^◌, ◌≡◌, refl, ap, ◌∙◌, Option, none, some, arith, add64, sub64, mul64, checked_add,
}
use openbook_dex.Error.{ok, err, panic}
use openbook_dex.Fees.{
  base, maker_rebate, taker_fee, remove_taker_fee, referrer_rebate, maker_rate, taker_rate,
  tier_from_u8, tier_to_u8,
}
use openbook_dex.Queue.{push_back}
use openbook_dex.Types.{bid, limit, decrement_take}
use openbook_dex.Event.{of_view}
use openbook_dex.Critbit.Node.{leaf_price, as_leaf, leaf_fee_tier, case, new_leaf}
use openbook_dex.Critbit.Alloc.{get, put, remove, insert, insert_bump}
use openbook_dex.Critbit.Find.{find_min, find_min_max, root, find_min_max_from, view_at}
use openbook_dex.Critbit.Insert.{insert_leaf, insert_root}
use openbook_dex.Critbit.Remove.{remove_by_key, remove_root}
use openbook_dex.Matching.State.{
  NewOrderParams, extract_price_from_order_id, Context, OrderRemaining, leaf_at, find_bbo,
  set_quantity, remove_order, push_event, credit_coin, debit_native_pc, unlock_native_pc,
}
use openbook_dex.Matching.Bid.{
  new_bid, remaining_of, remaining_of, div64, round, against, trade, settle, finish, to_post_at,
  release, post,
}
use openbook_dex.Matching.Order.{new_order, match_round, match_rounds}
use openbook_dex.Matching.Order.Drain.{new_order-IsDrained}
use openbook_dex.Matching.Book.{HasBook}
use openbook_dex.Matching.Cancel.{process_orderbook_request}
use openbook_dex.Matching.Cancel.Book.{process_orderbook_request-HasBook}
use openbook_dex.Matching.Sample.{with_offer, with_offer-HasBook}
use openbook_dex.Request.{RequestView}

abbrev order : NewOrderParams
order = record {
  side = bid;
  order_type = limit;
  order_id = 110 * 2 ^ 64 + 6;
  owner = 8;
  owner_slot = 0;
  fee_tier = base;
  max_coin_qty = 10;
  native_pc_qty_locked = some 60000;
  client_order_id = 0;
  self_trade_behavior = decrement_take;
}

-- With a limit of five rounds.
abbrev after : Option OrderRemaining × ℕ × Context
after = elim (new_order order 5 with_offer) [
  | ok r ↦ r
  | err e ↦ (none, 0, with_offer)
  | panic ↦ (none, 0, with_offer)
]

bought : new_order order 5 with_offer ≡ ok after
unfolding new_order match_rounds match_round remaining_of extract_price_from_order_id new_bid round
    against trade settle finish to_post_at release post div64 find_bbo leaf_at set_quantity
    remove_order push_event credit_coin debit_native_pc unlock_native_pc find_min find_min_max root
    find_min_max_from view_at case as_leaf get put leaf_price leaf_fee_tier tier_from_u8 tier_to_u8
    remove_by_key remove_root remove insert_leaf insert_root insert insert_bump new_leaf push_back
    of_view checked_add maker_rebate taker_fee remove_taker_fee referrer_rebate maker_rate
    taker_rate add64 sub64 mul64
bought = refl

new_order-IsDrained_example : after.0 ≡ none
new_order-IsDrained_example = new_order-IsDrained order 5 after.1 with_offer after.2 after.0 bought

-- The same order as a request.
abbrev request : RequestView
request = RequestView.new_order (record {
  side = bid;
  order_type = limit;
  order_id = 110 * 2 ^ 64 + 6;
  owner = 8;
  owner_slot = 0;
  fee_tier = base;
  max_coin_qty = 10;
  native_pc_qty_locked = some 60000;
  client_order_id = none;
  self_trade_behavior = decrement_take;
})

drained : new_order order 5 with_offer ≡ ok (none, after.1, after.2)
drained =
    bought
    ∙ ap (λ o. ok (o, after.1, after.2))
        (new_order-IsDrained order 5 after.1 with_offer after.2 after.0 bought)

requested : process_orderbook_request with_offer request 5 ≡ ok (none, after.1, after.2)
unfolding process_orderbook_request
requested = rw drained refl

process_orderbook_request-HasBook_example : HasBook after.2
process_orderbook_request-HasBook_example =
    process_orderbook_request-HasBook with_offer after.2 request 5 after.1 none with_offer-HasBook
      (omega arith) requested
