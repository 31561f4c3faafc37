-- ===== src/Matching/Order.antt =====
-- `new_order` of dex/src/matching.rs: an order in rounds, with a limit on their number. The `u16` limit
-- counts down, so the loop recurses on it.
pub mod Drain
pub mod Book
pub mod Ledger
pub mod Buy
mod Tests
use openbook_dex.Prelude.{ℕ, zero, suc, Bool, true, false, not, ◌||◌, Option, none, some, ◌==◌}
use openbook_dex.Error.{DexResult, ok, ◌>>=◌, ◌>>◌, unwrap, assert}
use openbook_dex.Types.{OrderType, limit, immediate_or_cancel, post_only, bid, ask, non_zero}
use openbook_dex.Matching.State.{
  Context, NewOrderParams, OrderRemaining, Taker, extract_price_from_order_id,
}
use openbook_dex.Matching.Ask.{NewAskParams, new_ask}
use openbook_dex.Matching.Bid.{NewBidParams, new_bid, is_some}

-- `(post_only, post_allowed)`.
abbrev pub posting_of : OrderType → Bool × Bool
posting_of limit = (false, true)
posting_of immediate_or_cancel = (false, false)
posting_of post_only = (true, true)

-- Out of cycles, the order only posts.
abbrev pub taker_of : NewOrderParams → ℕ → Taker
taker_of p cycles = record {
  order_id = p.order_id;
  owner = p.owner;
  owner_slot = p.owner_slot;
  fee_tier = p.fee_tier;
  post_only = cycles == 0 || (posting_of p.order_type).0;
  post_allowed = cycles == 0 || (posting_of p.order_type).1;
  client_order_id = p.client_order_id;
  self_trade_behavior = p.self_trade_behavior;
}

abbrev pub bid_params : NewOrderParams → ℕ → ℕ → ℕ → NewBidParams
bid_params p cycles max_coin_qty locked = record {
  taker = taker_of p cycles;
  max_coin_qty = max_coin_qty;
  native_pc_qty_locked = locked;
  limit_price = non_zero (extract_price_from_order_id p.order_id);
}

abbrev pub ask_params : NewOrderParams → ℕ → ℕ → ℕ → NewAskParams
ask_params p cycles max_coin_qty limit_price = record {
  taker = taker_of p cycles;
  max_qty = max_coin_qty;
  limit_price = limit_price;
}

-- One round: the call of `new_bid` or `new_ask`.
unfoldable pub match_round :
    NewOrderParams → ℕ → ℕ → Option ℕ → Context → DexResult (Option OrderRemaining × Context)
match_round p cycles max_coin_qty native_pc_qty_locked c = elim p.side [
  | bid ↦
      unwrap native_pc_qty_locked >>= λ locked. new_bid (bid_params p cycles max_coin_qty locked) c
  | ask ↦
      assert (not (is_some native_pc_qty_locked))
      >> (unwrap (non_zero (extract_price_from_order_id p.order_id)) >>= λ limit_price.
          new_ask (ask_params p cycles max_coin_qty limit_price) c)
]

-- The loop, with the limit that is left and the quantities that remain.
unfoldable pub match_rounds :
    NewOrderParams → ℕ → ℕ → Option ℕ → Context → DexResult (Option OrderRemaining × ℕ × Context)
unfolding match_round
match_rounds p zero max_coin_qty native_pc_qty_locked c =
    match_round p 0 max_coin_qty native_pc_qty_locked c >>= λ r. ok (r.0, 0, r.1)
match_rounds p (suc cycles) max_coin_qty native_pc_qty_locked c =
    match_round p (suc cycles) max_coin_qty native_pc_qty_locked c >>= λ r. elim r.0 [
      | none ↦ ok (none, cycles, r.1)
      | some o ↦ match_rounds p cycles o.coin_qty_remaining o.native_pc_qty_remaining r.1
    ]

unfoldable pub new_order :
    NewOrderParams → ℕ → Context → DexResult (Option OrderRemaining × ℕ × Context)
unfolding match_rounds
new_order p cycles c = match_rounds p cycles p.max_coin_qty p.native_pc_qty_locked c
