-- ===== src/Matching/Ask.antt =====
-- `new_ask` of dex/src/matching.rs: one round of matching for an order that sells. The body of its
-- `loop` runs once: each path through it breaks or returns.
pub mod Lots
pub mod Loop
pub mod Ledger
pub mod Spec
pub mod PostOnly
pub mod Book
mod Tests
use Prim.Native.Nat.{min}
use openbook_dex.Prelude.{
  ℕ, Bool, true, false, not, ◌&&◌, ◌||◌, Option, none, some, ltb, leb, ◌==◌, if◌then◌else◌, add64,
  sub64, mul64,
}
use openbook_dex.Error.{DexResult, ok, err, panic, ◌>>=◌, unwrap, error_code, would_self_trade}
use openbook_dex.Fees.{maker_rebate, taker_fee, referrer_rebate}
use openbook_dex.Types.{
  bid, ask, SelfTradeBehavior, decrement_take, cancel_provide, abort_transaction, non_zero,
}
use openbook_dex.Event.{fill, out}
use openbook_dex.Critbit.Node.{LeafNode, new_leaf, leaf_price, leaf_fee_tier}
use openbook_dex.Critbit.Insert.{out_of_space, inserted, insert_leaf}
use openbook_dex.Critbit.Remove.{remove_max}
use openbook_dex.Matching.State.{
  Context, Taker, OrderRemaining, Round, returned, broke, find_bbo, leaf_at, set_quantity,
  remove_order, push_event, unlock_coin, credit_native_pc, debit_coin,
}

pub record NewAskParams : Type 0 where
  pub taker : Taker
  pub open taker use *
  pub max_qty : ℕ
  pub limit_price : ℕ

-- The variables that the loop leaves.
pub record Filled : Type 0 where
  pub unfilled_qty : ℕ
  pub accum_fill_price : ℕ
  pub accum_maker_rebates : ℕ

-- `(cancelled_provide_qty, cancelled_take_qty)`.
unfoldable pub cancelled : SelfTradeBehavior → ℕ → ℕ → DexResult (ℕ × ℕ)
cancelled decrement_take bid_size trade_qty = ok (trade_qty, trade_qty)
cancelled cancel_provide bid_size trade_qty = ok (bid_size, 0)
cancelled abort_transaction bid_size trade_qty = err (error_code would_self_trade)

pub remaining_lots : ℕ → Option OrderRemaining
remaining_lots unfilled = elim (non_zero unfilled) [
  | none ↦ none
  | some n ↦ some (record { coin_qty_remaining = n; native_pc_qty_remaining = none })
]

-- The branch for an order that would trade with its own owner's bid.
unfoldable pub self_trade :
    NewAskParams → Context → ℕ → LeafNode → ℕ → ℕ → DexResult (Option OrderRemaining × Context)
unfolding remaining_lots
self_trade p c h best_bid trade_price trade_qty =
    cancelled p.self_trade_behavior best_bid.quantity trade_qty >>= λ qty.
    (let provided = qty.0 in
      let taken = qty.1 in
      let remaining_provide_size = sub64 best_bid.quantity provided in
      let unfilled_qty = sub64 p.max_qty taken in
      push_event c (
        out (record {
          side = bid;
          release_funds = true;
          native_qty_unlocked = mul64 (mul64 provided trade_price) c.market_state.pc_lot_size;
          native_qty_still_locked =
              mul64 (mul64 remaining_provide_size trade_price) c.market_state.pc_lot_size;
          order_id = best_bid.key;
          owner = best_bid.owner;
          owner_slot = best_bid.owner_slot;
          client_order_id = non_zero best_bid.client_order_id;
        }))
      >>= λ c₁.
          (if remaining_provide_size == 0
            then remove_order c₁ bid best_bid.key
            else set_quantity c₁ bid h best_bid remaining_provide_size)
          >>= λ c₂.
              push_event c₂ (
                out (record {
                  side = ask;
                  release_funds = false;
                  native_qty_unlocked = mul64 taken c.market_state.coin_lot_size;
                  native_qty_still_locked = unfilled_qty;
                  order_id = p.order_id;
                  owner = p.owner;
                  owner_slot = p.owner_slot;
                  client_order_id = non_zero p.client_order_id;
                }))
              >>= λ c₃. unlock_coin c₃ taken >>= λ c₄. ok (remaining_lots unfilled_qty, c₄))

-- The trade with the best bid. The loop runs once, so the sums start from nothing.
unfoldable pub trade : NewAskParams → Context → ℕ → LeafNode → ℕ → ℕ → DexResult (Filled × Context)
trade p c h best_bid trade_price trade_qty = leaf_fee_tier best_bid >>= λ maker_fee_tier.
    (let native_maker_pc_qty = mul64 (mul64 trade_qty trade_price) c.market_state.pc_lot_size in
      let native_maker_rebate = maker_rebate maker_fee_tier native_maker_pc_qty in
      let left = sub64 best_bid.quantity trade_qty in
      push_event c (
        fill (record {
          side = bid;
          maker = true;
          native_qty_paid = sub64 native_maker_pc_qty native_maker_rebate;
          native_qty_received = mul64 trade_qty c.market_state.coin_lot_size;
          native_fee_or_rebate = native_maker_rebate;
          order_id = best_bid.key;
          owner = best_bid.owner;
          owner_slot = best_bid.owner_slot;
          fee_tier = maker_fee_tier;
          client_order_id = non_zero best_bid.client_order_id;
        }))
      >>= λ c₁. set_quantity c₁ bid h best_bid left >>= λ c₂.
          (if left == 0
            then (push_event c₂ (
                  out (record {
                    side = bid;
                    release_funds = true;
                    native_qty_unlocked = 0;
                    native_qty_still_locked = 0;
                    order_id = best_bid.key;
                    owner = best_bid.owner;
                    owner_slot = best_bid.owner_slot;
                    client_order_id = non_zero best_bid.client_order_id;
                  }))
                >>= λ c₃. remove_order c₃ bid best_bid.key)
            else ok c₂)
          >>= λ c₄. ok (
            record {
              unfilled_qty = sub64 p.max_qty trade_qty;
              accum_fill_price = add64 0 (mul64 trade_qty trade_price);
              accum_maker_rebates = add64 0 native_maker_rebate;
            },
            c₄,
          ))

abbrev pub untouched : NewAskParams → Filled
untouched p = record { unfilled_qty = p.max_qty; accum_fill_price = 0; accum_maker_rebates = 0 }

-- The loop below the test for a best bid.
unfoldable pub against : NewAskParams → Context → ℕ → LeafNode → DexResult (Round Filled)
against p c h best_bid = leaf_price best_bid >>= λ trade_price.
    (let crossed = leb p.limit_price trade_price in
      let trade_qty = min best_bid.quantity p.max_qty in
      if not crossed || p.post_only
      then ok (broke true crossed (untouched p) c)
      else if trade_qty == 0
      then ok (broke true crossed (untouched p) c)
      else if p.owner == best_bid.owner
      then (self_trade p c h best_bid trade_price trade_qty >>= λ r. ok (returned r.0 r.1))
      else (trade p c h best_bid trade_price trade_qty >>= λ r. ok (broke false crossed r.0 r.1)))

unfoldable pub round : NewAskParams → Context → DexResult (Round Filled)
unfolding against
round p c = find_bbo c bid >>= λ best. elim best [
  | none ↦ ok (broke true false (untouched p) c)
  | some h ↦ leaf_at c bid h >>= λ best_bid. against p c h best_bid
]

-- The taker's side of the trade: credit and debit, its fill event, the fees.
unfoldable pub settle : NewAskParams → Filled → Context → DexResult Context
settle p f c =
    (let native_taker_pc_qty = mul64 f.accum_fill_price c.market_state.pc_lot_size in
      let native_taker_fee = taker_fee p.fee_tier native_taker_pc_qty in
      let net_taker_pc_qty = sub64 native_taker_pc_qty native_taker_fee in
      let coin_lots_traded = sub64 p.max_qty f.unfilled_qty in
      let net_fees_before_referrer_rebate = sub64 native_taker_fee f.accum_maker_rebates in
      let rebate = referrer_rebate native_taker_fee in
      let net_fees = sub64 net_fees_before_referrer_rebate rebate in
      credit_native_pc c net_taker_pc_qty >>= λ c₁. debit_coin c₁ coin_lots_traded >>= λ c₂.
      (if ltb 0 native_taker_pc_qty
        then push_event c₂ (
            fill (record {
              side = ask;
              maker = false;
              native_qty_paid = mul64 coin_lots_traded c.market_state.coin_lot_size;
              native_qty_received = net_taker_pc_qty;
              native_fee_or_rebate = native_taker_fee;
              order_id = p.order_id;
              owner = p.owner;
              owner_slot = p.owner_slot;
              fee_tier = p.fee_tier;
              client_order_id = non_zero p.client_order_id;
            }))
        else ok c₂)
      >>= λ c₃.
          (let m = c₃.market_state in
            ok (record c₃ {
              market_state = record m {
                referrer_rebates_accrued = add64 m.referrer_rebates_accrued rebate;
                pc_fees_accrued = add64 m.pc_fees_accrued net_fees;
                pc_deposits_total = sub64 m.pc_deposits_total net_fees_before_referrer_rebate;
              };
            })))

-- The least aggressive offer makes room for the new one.
unfoldable pub boot : Context → LeafNode → DexResult Context
boot c new_order = remove_max c.asks >>= λ r. unwrap r >>= λ removed.
    (let order = removed.0 in
      push_event (record c { asks = removed.1 })
        (out (record {
          side = ask;
          release_funds = true;
          native_qty_unlocked = mul64 order.quantity c.market_state.coin_lot_size;
          native_qty_still_locked = 0;
          order_id = order.key;
          owner = order.owner;
          owner_slot = order.owner_slot;
          client_order_id = non_zero order.client_order_id;
        }))
      >>= λ c₁. insert_leaf c₁.asks new_order >>= λ i. elim i.0 [
        | out_of_space ↦ panic
        | inserted _ _ ↦ ok (record c₁ { asks = i.1 })
      ])

unfoldable pub post : NewAskParams → ℕ → Context → DexResult Context
unfolding boot
post p unfilled_qty c =
    (let new_order =
        new_leaf p.owner_slot p.order_id p.owner unfilled_qty p.fee_tier p.client_order_id in
      insert_leaf c.asks new_order >>= λ i.
      (let c₁ = record c { asks = i.1 } in
        elim i.0 [ out_of_space ↦ boot c₁ new_order | inserted _ _ ↦ ok c₁ ]))

unfoldable pub release : NewAskParams → ℕ → Context → DexResult Context
release p unfilled_qty c = unlock_coin c unfilled_qty >>= λ c₁. push_event c₁ (
    out (record {
      side = ask;
      release_funds = false;
      native_qty_unlocked = mul64 unfilled_qty c.market_state.coin_lot_size;
      native_qty_still_locked = 0;
      order_id = p.order_id;
      owner = p.owner;
      owner_slot = p.owner_slot;
      client_order_id = non_zero p.client_order_id;
    }))

-- After the loop.
unfoldable pub finish :
    NewAskParams → Bool → Bool → Filled → Context → DexResult (Option OrderRemaining × Context)
unfolding remaining_lots
finish p done crossed f c = settle p f c >>= λ c₁.
    if not done && ltb 0 f.unfilled_qty
    then ok (remaining_lots f.unfilled_qty, c₁)
    else ((if p.post_allowed && (not crossed && ltb 0 f.unfilled_qty)
          then post p f.unfilled_qty c₁
          else release p f.unfilled_qty c₁)
        >>= λ c₂. ok (none, c₂))

unfoldable pub new_ask : NewAskParams → Context → DexResult (Option OrderRemaining × Context)
new_ask p c = round p c >>= λ r. elim r [
  | returned o c' ↦ ok (o, c')
  | broke done crossed f c' ↦ finish p done crossed f c'
]
