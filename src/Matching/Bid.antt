-- ===== src/Matching/Bid.antt =====
-- `new_bid` of dex/src/matching.rs: one round of matching for an order that buys. The body of its
-- `loop` runs once: each path through it breaks or returns.
pub mod Money
pub mod Loop
pub mod Ledger
pub mod Rest
pub mod Spec
pub mod PostOnly
pub mod Book
mod Tests
use Prim.Native.Nat.{min}
use openbook_dex.Prelude.{
  ℕ, ◌/◌, Bool, true, false, not, ◌&&◌, ◌||◌, Option, none, some, ltb, leb, ◌==◌, if◌then◌else◌,
  add64, sub64, mul64,
}
use openbook_dex.Error.{
  DexResult, ok, err, panic, ◌>>=◌, ◌>>◌, unwrap, error_code, check_assert, matching,
  would_self_trade,
}
use openbook_dex.Fees.{maker_rebate, taker_fee, remove_taker_fee, referrer_rebate}
use openbook_dex.Types.{
  bid, ask, SelfTradeBehavior, decrement_take, cancel_provide, abort_transaction, non_zero,
}
use openbook_dex.Event.{fill, out}
use openbook_dex.Critbit.Node.{LeafNode, new_leaf, leaf_price, leaf_fee_tier}
use openbook_dex.Critbit.Insert.{out_of_space, inserted, insert_leaf}
use openbook_dex.Critbit.Remove.{remove_min}
use openbook_dex.Matching.State.{
  Context, Taker, OrderRemaining, Round, returned, broke, find_bbo, leaf_at, set_quantity,
  remove_order, push_event, unlock_native_pc, credit_coin, debit_native_pc,
}

pub record NewBidParams : Type 0 where
  pub taker : Taker
  pub open taker use *
  pub max_coin_qty : ℕ
  pub native_pc_qty_locked : ℕ
  pub limit_price : Option ℕ

-- The variables that the loop leaves.
pub record Bought : Type 0 where
  pub coin_qty_remaining : ℕ
  pub pc_qty_remaining : ℕ
  pub accum_maker_rebates : ℕ

-- Integer division panics at 0.
unfoldable pub div64 : ℕ → ℕ → DexResult ℕ
div64 a b = if b == 0 then panic else ok (a / b)

abbrev pub is_some {ℓ} : {A : Type ℓ} → Option A → Bool
is_some none = false
is_some (some _) = true

-- `(cancelled_take_qty, cancelled_provide_qty)`.
unfoldable pub cancelled : SelfTradeBehavior → ℕ → ℕ → DexResult (ℕ × ℕ)
cancelled cancel_provide offer_size trade_qty = ok (0, offer_size)
cancelled decrement_take offer_size trade_qty = ok (trade_qty, trade_qty)
cancelled abort_transaction offer_size trade_qty = err (error_code would_self_trade)

-- What remains of an order, if both quantities do.
unfoldable pub remaining_of : ℕ → ℕ → Option OrderRemaining
remaining_of coin pc =
    if coin == 0
    then none
    else if pc == 0
    then none
    else some (record { coin_qty_remaining = coin; native_pc_qty_remaining = some pc })

-- `(native_qty_unlocked, native_qty_still_locked)` of a self trade.
pub unlocked_of : Option OrderRemaining → ℕ → ℕ → ℕ → ℕ × ℕ
unlocked_of (some _) locked unlocked still = (unlocked, still)
unlocked_of none locked unlocked still = (locked, 0)

-- The branch for an order that would trade with its own owner's offer.
unfoldable pub self_trade :
    NewBidParams → Context → ℕ → LeafNode → ℕ → ℕ → DexResult (Option OrderRemaining × Context)
unfolding remaining_of unlocked_of
self_trade p c h best_offer trade_price trade_qty =
    cancelled p.self_trade_behavior best_offer.quantity trade_qty >>= λ qty.
    (let taken = qty.0 in
      let provided = qty.1 in
      let remaining_provide_qty = sub64 best_offer.quantity provided in
      let pc_unlocked = mul64 (mul64 taken trade_price) c.market_state.pc_lot_size in
      let pc_still_locked = sub64 p.native_pc_qty_locked pc_unlocked in
      let order_remaining = remaining_of (sub64 p.max_coin_qty taken) pc_still_locked in
      let amounts =
        unlocked_of order_remaining p.native_pc_qty_locked pc_unlocked pc_still_locked in
      push_event c (
        out (record {
          side = ask;
          release_funds = true;
          native_qty_unlocked = mul64 provided c.market_state.coin_lot_size;
          native_qty_still_locked = mul64 remaining_provide_qty c.market_state.coin_lot_size;
          order_id = best_offer.key;
          owner = best_offer.owner;
          owner_slot = best_offer.owner_slot;
          client_order_id = non_zero best_offer.client_order_id;
        }))
      >>= λ c₁.
          (if remaining_provide_qty == 0
            then remove_order c₁ ask best_offer.key
            else set_quantity c₁ ask h best_offer remaining_provide_qty)
          >>= λ c₂. unlock_native_pc c₂ amounts.0 >>= λ c₃.
              push_event c₃ (
                out (record {
                  side = bid;
                  release_funds = false;
                  native_qty_unlocked = amounts.0;
                  native_qty_still_locked = amounts.1;
                  order_id = p.order_id;
                  owner = p.owner;
                  owner_slot = p.owner_slot;
                  client_order_id = non_zero p.client_order_id;
                }))
              >>= λ c₄. ok (order_remaining, c₄))

-- The trade with the best offer. The loop runs once, so the sum of the rebates starts from nothing.
unfoldable pub trade :
    NewBidParams → Context → ℕ → ℕ → LeafNode → ℕ → ℕ → DexResult (Bought × Context)
trade p c max_pc_qty h best_offer trade_price trade_qty =
    leaf_fee_tier best_offer >>= λ maker_fee_tier.
    (let native_maker_pc_qty = mul64 (mul64 trade_qty trade_price) c.market_state.pc_lot_size in
      let native_maker_rebate = maker_rebate maker_fee_tier native_maker_pc_qty in
      let left = sub64 best_offer.quantity trade_qty in
      push_event c (
        fill (record {
          side = ask;
          maker = true;
          native_qty_paid = mul64 trade_qty c.market_state.coin_lot_size;
          native_qty_received = add64 native_maker_pc_qty native_maker_rebate;
          native_fee_or_rebate = native_maker_rebate;
          order_id = best_offer.key;
          owner = best_offer.owner;
          owner_slot = best_offer.owner_slot;
          fee_tier = maker_fee_tier;
          client_order_id = non_zero best_offer.client_order_id;
        }))
      >>= λ c₁. set_quantity c₁ ask h best_offer left >>= λ c₂.
          (if left == 0
            then (push_event c₂ (
                  out (record {
                    side = ask;
                    release_funds = true;
                    native_qty_unlocked = 0;
                    native_qty_still_locked = 0;
                    order_id = best_offer.key;
                    owner = best_offer.owner;
                    owner_slot = best_offer.owner_slot;
                    client_order_id = non_zero best_offer.client_order_id;
                  }))
                >>= λ c₃. remove_order c₃ ask best_offer.key)
            else ok c₂)
          >>= λ c₄. ok (
            record {
              coin_qty_remaining = sub64 p.max_coin_qty trade_qty;
              pc_qty_remaining = sub64 max_pc_qty (mul64 trade_qty trade_price);
              accum_maker_rebates = add64 0 native_maker_rebate;
            },
            c₄,
          ))

abbrev pub untouched : NewBidParams → ℕ → Bought
untouched p max_pc_qty = record {
  coin_qty_remaining = p.max_coin_qty;
  pc_qty_remaining = max_pc_qty;
  accum_maker_rebates = 0;
}

-- A market order, with no limit price, crosses every offer.
abbrev pub crosses : Option ℕ → ℕ → Bool
crosses none trade_price = true
crosses (some limit_price) trade_price = leb trade_price limit_price

-- The loop below the test for a best offer.
unfoldable pub against : NewBidParams → Context → ℕ → ℕ → LeafNode → DexResult (Round Bought)
against p c max_pc_qty h best_offer = leaf_price best_offer >>= λ trade_price.
    (let crossed = crosses p.limit_price trade_price in
      if not crossed || p.post_only
      then ok (broke true crossed (untouched p max_pc_qty) c)
      else (div64 max_pc_qty trade_price >>= λ affordable.
          let trade_qty = min (min best_offer.quantity p.max_coin_qty) affordable in
          if trade_qty == 0
          then ok (broke true crossed (untouched p max_pc_qty) c)
          else if p.owner == best_offer.owner
          then (self_trade p c h best_offer trade_price trade_qty >>= λ r. ok (returned r.0 r.1))
          else (trade p c max_pc_qty h best_offer trade_price trade_qty >>= λ r.
              ok (broke false crossed r.0 r.1))))

unfoldable pub round : NewBidParams → Context → ℕ → DexResult (Round Bought)
unfolding against
round p c max_pc_qty = find_bbo c ask >>= λ best. elim best [
  | none ↦ ok (broke true false (untouched p max_pc_qty) c)
  | some h ↦ leaf_at c ask h >>= λ best_offer. against p c max_pc_qty h best_offer
]

-- The native worth of the trades, and what of the locked amount is left after it and the fee.
abbrev pub accum_fill : Context → ℕ → Bought → ℕ
accum_fill c max_pc_qty b = mul64 (sub64 max_pc_qty b.pc_qty_remaining) c.market_state.pc_lot_size

abbrev pub pc_left : NewBidParams → Context → ℕ → Bought → ℕ
pc_left p c max_pc_qty b =
    let worth = accum_fill c max_pc_qty b in
    sub64 (sub64 p.native_pc_qty_locked worth) (taker_fee p.fee_tier worth)

-- The taker's side of the trade: credit and debit, its fill event, the fees.
unfoldable pub settle : NewBidParams → ℕ → Bought → Context → DexResult Context
settle p max_pc_qty b c =
    (let worth = accum_fill c max_pc_qty b in
      let native_taker_fee = taker_fee p.fee_tier worth in
      let coin_lots_received = sub64 p.max_coin_qty b.coin_qty_remaining in
      let native_pc_paid = add64 worth native_taker_fee in
      let net_fees_before_referrer_rebate = sub64 native_taker_fee b.accum_maker_rebates in
      let rebate = referrer_rebate native_taker_fee in
      let net_fees = sub64 net_fees_before_referrer_rebate rebate in
      credit_coin c coin_lots_received >>= λ c₁. debit_native_pc c₁ native_pc_paid >>= λ c₂.
      (if ltb 0 worth
        then push_event c₂ (
            fill (record {
              side = bid;
              maker = false;
              native_qty_paid = native_pc_paid;
              native_qty_received = mul64 coin_lots_received c.market_state.coin_lot_size;
              native_fee_or_rebate = native_taker_fee;
              order_id = p.order_id;
              owner = p.owner;
              owner_slot = p.owner_slot;
              fee_tier = p.fee_tier;
              client_order_id = non_zero p.client_order_id;
            }))
        else ok c₂)
      >>= λ c₃.
          (let m = c₃.market_state in
            ok (record c₃ {
              market_state = record m {
                referrer_rebates_accrued = add64 m.referrer_rebates_accrued rebate;
                pc_fees_accrued = add64 m.pc_fees_accrued net_fees;
                pc_deposits_total = sub64 m.pc_deposits_total net_fees_before_referrer_rebate;
              };
            })))

-- `(coin_qty_to_post, pc_qty_to_keep_locked)`, by the limit price.
unfoldable pub to_post_at : NewBidParams → Context → Bool → ℕ → ℕ → Option ℕ → DexResult (ℕ × ℕ)
unfolding div64
to_post_at p c crossed coin pc none = ok (0, 0)
to_post_at p c crossed coin pc (some price) =
    if p.post_allowed && not crossed
    then (div64 pc c.market_state.pc_lot_size >>= λ lots. div64 lots price >>= λ affordable.
        (let qty = min coin affordable in ok (qty, mul64 qty price)))
    else ok (0, 0)

abbrev pub to_post : NewBidParams → Context → Bool → ℕ → ℕ → DexResult (ℕ × ℕ)
to_post p c crossed coin pc = to_post_at p c crossed coin pc p.limit_price

-- The least aggressive bid makes room for the new one.
unfoldable pub boot : Context → LeafNode → DexResult Context
boot c new_order = remove_min c.bids >>= λ r. unwrap r >>= λ removed.
    (let order = removed.0 in
      leaf_price order >>= λ price.
      push_event (record c { bids = removed.1 })
        (out (record {
          side = bid;
          release_funds = true;
          native_qty_unlocked = mul64 (mul64 order.quantity price) c.market_state.pc_lot_size;
          native_qty_still_locked = 0;
          order_id = order.key;
          owner = order.owner;
          owner_slot = order.owner_slot;
          client_order_id = non_zero order.client_order_id;
        }))
      >>= λ c₁. insert_leaf c₁.bids new_order >>= λ i. elim i.0 [
        | out_of_space ↦ panic
        | inserted _ _ ↦ ok (record c₁ { bids = i.1 })
      ])

unfoldable pub post : NewBidParams → ℕ → Context → DexResult Context
unfolding boot
post p qty c =
    (let new_order = new_leaf p.owner_slot p.order_id p.owner qty p.fee_tier p.client_order_id in
      insert_leaf c.bids new_order >>= λ i.
      (let c₁ = record c { bids = i.1 } in
        elim i.0 [ out_of_space ↦ boot c₁ new_order | inserted _ _ ↦ ok c₁ ]))

-- What is not kept locked is released, and the rest is posted.
unfoldable pub release : NewBidParams → ℕ → ℕ → ℕ → Context → DexResult Context
release p pc qty kept c =
    (let native_qty_still_locked = mul64 kept c.market_state.pc_lot_size in
      let native_qty_unlocked = sub64 pc native_qty_still_locked in
      unlock_native_pc c native_qty_unlocked >>= λ c₁.
      push_event c₁ (
        out (record {
          side = bid;
          release_funds = false;
          native_qty_unlocked = native_qty_unlocked;
          native_qty_still_locked = native_qty_still_locked;
          order_id = p.order_id;
          owner = p.owner;
          owner_slot = p.owner_slot;
          client_order_id = non_zero p.client_order_id;
        }))
      >>= λ c₂. if ltb 0 kept then post p qty c₂ else ok c₂)

-- After the loop.
unfoldable pub finish :
    NewBidParams → ℕ → Bool → Bool → Bought → Context → DexResult (Option OrderRemaining × Context)
finish p max_pc_qty done crossed b c =
    (let left = pc_left p c max_pc_qty b in
      settle p max_pc_qty b c >>= λ c₁.
      if not done && (ltb 0 b.coin_qty_remaining && ltb 0 left)
      then ok (remaining_of b.coin_qty_remaining left, c₁)
      else (to_post p c₁ crossed b.coin_qty_remaining left >>= λ q.
          release p left q.0 q.1 c₁ >>= λ c₂. ok (none, c₂)))

unfoldable pub new_bid : NewBidParams → Context → DexResult (Option OrderRemaining × Context)
unfolding div64
new_bid p c =
    check_assert matching 631 (not p.post_allowed || is_some p.limit_price)
    >> (remove_taker_fee p.fee_tier p.native_pc_qty_locked >>= λ spendable.
        div64 spendable c.market_state.pc_lot_size >>= λ max_pc_qty. round p c max_pc_qty >>= λ r.
        elim r [
          | returned o c' ↦ ok (o, c')
          | broke done crossed b c' ↦ finish p max_pc_qty done crossed b c'
        ])
