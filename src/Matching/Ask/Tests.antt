-- ===== src/Matching/Ask/Tests.antt =====
-- An order that sells ten lots at 90 meets a bid for four at 100: `new_ask` of dex/src/matching.rs.
use openbook_dex.Prelude.{
  ℕ, zero, suc, ◌+◌, ◌*◌, ◌^◌, ◌≡◌, ◌<◌, refl, Option, none, true, false, arith, IsU64, u64_mod,
  add64, sub64, mul64, ap, ◌∙◌, checked_add,
}
use openbook_dex.Error.{ok, err, panic}
use openbook_dex.Fees.{
  base, maker_rebate, taker_fee, referrer_rebate, maker_rate, taker_rate, tier_from_u8, tier_to_u8,
}
use openbook_dex.Queue.{event_header, push_back}
use openbook_dex.Types.{bid, decrement_take}
use openbook_dex.Event.{of_view}
use openbook_dex.Critbit.Node.{LeafNode, leaf_price, as_leaf, leaf_fee_tier, case}
use openbook_dex.Critbit.Alloc.{get, put, remove}
use openbook_dex.Critbit.Find.{find_max, find_min_max, root, find_min_max_from, view_at}
use openbook_dex.Critbit.Remove.{remove_by_key, remove_root}
use openbook_dex.Matching.State.{
  Context, OrderRemaining, leaf_at, find_bbo, set_quantity, remove_order, push_event,
  credit_native_pc, debit_coin,
}
use openbook_dex.Matching.Ask.{NewAskParams, new_ask, round, against, trade, settle, finish}
use openbook_dex.Matching.Ask.Lots.{Funded}
use openbook_dex.Matching.Ask.Spec.{AskSpec, new_ask_lem}
use openbook_dex.Matching.Sample.{resting, with_bid}

abbrev selling : NewAskParams
selling = record {
  taker = record {
    order_id = 90 * 2 ^ 64 + 6;
    owner = 8;
    owner_slot = 0;
    fee_tier = base;
    post_only = false;
    post_allowed = true;
    client_order_id = 0;
    self_trade_behavior = decrement_take;
  };
  max_qty = 10;
  limit_price = 90;
}

with_bid-Funded : Funded with_bid
unfolding leaf_at leaf_price get as_leaf
with_bid-Funded = record { lot_pos = omega arith; sizes = sizes; worth = worth }
  where
    sizes : (h : ℕ) (l : LeafNode) → leaf_at with_bid bid h ≡ ok l → IsU64 l.quantity
    sizes zero l e = let eq : resting ≡ l = cc in rw (← eq) (omega arith)
    sizes (suc h) l e = cc

    worth :
        (h : ℕ) (l : LeafNode) (price : ℕ)
        → leaf_at with_bid bid h ≡ ok l
        → leaf_price l ≡ ok price
        → l.quantity * price * 50 < u64_mod
    worth zero l price e e' =
        let eq : resting ≡ l = cc in
        let q : 4 ≡ l.quantity = ap (λ x. x.quantity) eq in
        let r : ok 100 ≡ ok price = ap leaf_price eq ∙ e' in
        let t : 100 ≡ price = cc in rw (← q, ← t) (omega arith)
    worth (suc h) l price e e' = cc

abbrev after : Option OrderRemaining × Context
after = elim (new_ask selling with_bid) [
  | ok r ↦ r
  | err e ↦ (none, with_bid)
  | panic ↦ (none, with_bid)
]

sold : new_ask selling with_bid ≡ ok after
unfolding new_ask round against trade settle finish find_bbo leaf_at set_quantity remove_order
    push_event credit_native_pc debit_coin find_max find_min_max root find_min_max_from view_at case
    as_leaf get put leaf_price leaf_fee_tier tier_from_u8 remove_by_key remove_root remove push_back
    of_view checked_add maker_rebate taker_fee referrer_rebate maker_rate taker_rate add64 sub64
    mul64 tier_to_u8
sold = refl

new_ask_lem_example : AskSpec selling with_bid after.0 after.1
new_ask_lem_example =
    new_ask_lem selling with_bid after.0 after.1 (omega arith) with_bid-Funded sold
