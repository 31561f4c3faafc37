-- ===== src/Matching/Bid/Tests.antt =====
-- An order that buys ten lots at 110 for 60000 native units meets an offer of four at 100:
-- `new_bid` of dex/src/matching.rs.
use openbook_dex.Prelude.{
  ◌+◌, ◌*◌, ◌^◌, ◌≡◌, refl, Option, none, some, true, false, arith, add64, sub64, mul64,
  checked_add,
}
use openbook_dex.Error.{ok, err, panic}
use openbook_dex.Fees.{
  base, maker_rebate, taker_fee, remove_taker_fee, referrer_rebate, maker_rate, taker_rate,
  tier_from_u8, tier_to_u8,
}
use openbook_dex.Queue.{push_back}
use openbook_dex.Types.{decrement_take}
use openbook_dex.Event.{of_view}
use openbook_dex.Critbit.Node.{leaf_price, as_leaf, leaf_fee_tier, case, new_leaf}
use openbook_dex.Critbit.Alloc.{get, put, remove, insert, insert_bump}
use openbook_dex.Critbit.Find.{find_min, find_min_max, root, find_min_max_from, view_at}
use openbook_dex.Critbit.Insert.{insert_leaf, insert_root}
use openbook_dex.Critbit.Remove.{remove_by_key, remove_root}
use openbook_dex.Matching.State.{
  Context, OrderRemaining, leaf_at, find_bbo, set_quantity, remove_order, push_event, credit_coin,
  debit_native_pc, unlock_native_pc,
}
use openbook_dex.Matching.Bid.{
  NewBidParams, new_bid, div64, round, against, trade, settle, finish, to_post_at, release, post,
}
use openbook_dex.Matching.Bid.Spec.{BidSpec, new_bid_lem}
use openbook_dex.Matching.Sample.{with_offer}

abbrev buying : NewBidParams
buying = record {
  taker = record {
    order_id = 110 * 2 ^ 64 + 6;
    owner = 8;
    owner_slot = 0;
    fee_tier = base;
    post_only = false;
    post_allowed = true;
    client_order_id = 0;
    self_trade_behavior = decrement_take;
  };
  max_coin_qty = 10;
  native_pc_qty_locked = 60000;
  limit_price = some 110;
}

abbrev after : Option OrderRemaining × Context
after = elim (new_bid buying with_offer) [
  | ok r ↦ r
  | err e ↦ (none, with_offer)
  | panic ↦ (none, with_offer)
]

bought : new_bid buying with_offer ≡ ok after
unfolding new_bid round against trade settle finish to_post_at release post div64 find_bbo leaf_at
    set_quantity remove_order push_event credit_coin debit_native_pc unlock_native_pc find_min
    find_min_max root find_min_max_from view_at case as_leaf get put leaf_price leaf_fee_tier
    tier_from_u8 tier_to_u8 remove_by_key remove_root remove insert_leaf insert_root insert
    insert_bump new_leaf push_back of_view checked_add maker_rebate taker_fee remove_taker_fee
    referrer_rebate maker_rate taker_rate add64 sub64 mul64
bought = refl

new_bid_lem_example : BidSpec buying with_offer after.0 after.1
new_bid_lem_example =
    new_bid_lem buying with_offer after.0 after.1 (omega arith) (omega arith) bought
