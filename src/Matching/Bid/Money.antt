-- ===== src/Matching/Bid/Money.antt =====
-- Where the money and the lots of an order that buys go: `new_bid` of dex/src/matching.rs, branch by
-- branch.
use openbook_dex.Prelude.{
  ℕ, ◌+◌, ◌*◌, ◌/◌, ◌≤◌, ◌<◌, ◌≡◌, refl, Option, arith, ◌==◌, IsU64, ◌∙◌, add64, sub64, mul64,
  sub64-eq, mul64-eq,
}
use openbook_dex.Fees.{taker_fee}
use openbook_dex.Fees.Bounds.{taker_fee_mono}
use openbook_dex.Types.{ask, SelfTradeBehavior, decrement_take, cancel_provide, abort_transaction}
use openbook_dex.Critbit.Node.{LeafNode, leaf_fee_tier}
use openbook_dex.Matching.State.{Context, OrderRemaining, RequestProceeds, no_proceeds}
use openbook_dex.Matching.Post.{
  Post, returns, fails, panics, Post->>=, Post-imp, Post-if, Post-eq, Same, Same-refl, Same-trans,
  push_event-Same, set_quantity-Same, remove_order-Same,
}
use openbook_dex.Matching.Proceeds.{
  lots_of, pc_of, Moves, Moves-Same-trans, unlock_native_pc-Moves, Same-Adds,
}
use openbook_dex.Matching.Bid.{
  NewBidParams, Bought, div64, cancelled, remaining_of, unlocked_of, self_trade, trade,
}

-- A product with a smaller factor is no larger.
pub mul-le_left : (a b y : ℕ) → a ≤ b → a * y ≤ b * y
mul-le_left a b y h = grind arith

pub mul-le_right : (a x y : ℕ) → x ≤ y → a * x ≤ a * y
mul-le_right a x y h = grind arith

pub mul-le_pos : (a y : ℕ) → 0 < y → a ≤ a * y
mul-le_pos a y h = grind arith

pub div-mul-le : (a b : ℕ) → 0 < b → a / b * b ≤ a
div-mul-le a b h = grind arith

pub div64-Post : (a b : ℕ) → Post (λ q. (q * b ≤ a) × (0 < b)) (div64 a b)
unfolding div64
div64-Post a b =
    Post-if (b == 0) (λ _. panics) λ f. returns (div-mul-le a b (ground arith), ground arith)

-- What a market lot count is worth stays within the locked amount, and so does the worth with its fee.
pub record Budget (p : NewBidParams) (c : Context) (max_pc_qty : ℕ) : Type 0 where
  pub coin : IsU64 p.max_coin_qty
  pub locked : IsU64 p.native_pc_qty_locked
  pub lot : 0 < c.market_state.pc_lot_size
  pub spendable : ℕ
  pub most : max_pc_qty * c.market_state.pc_lot_size ≤ spendable
  pub fee : spendable + taker_fee p.fee_tier spendable ≤ p.native_pc_qty_locked

-- The same for any number of lots of the quote currency within the maximum.
pub worth-Budget :
    (p : NewBidParams) (c : Context) (max_pc_qty n : ℕ)
    → Budget p c max_pc_qty
    → n ≤ max_pc_qty
    → (n * c.market_state.pc_lot_size + taker_fee p.fee_tier (n * c.market_state.pc_lot_size)
        ≤ p.native_pc_qty_locked)
      × (n ≤ n * c.market_state.pc_lot_size)
worth-Budget p c max_pc_qty n b le =
    let lot = c.market_state.pc_lot_size in
    let w = mul-le_left n max_pc_qty lot le in
    (
      omega (
        arith,
        b.most,
        b.fee,
        b.locked,
        taker_fee_mono p.fee_tier (n * lot) b.spendable (omega (arith, b.fee, b.locked))
            (omega (arith, b.most)),
      ),
      mul-le_pos n lot b.lot,
    )

-- No more is taken from the order than the round could trade.
cancelled-le :
    (b : SelfTradeBehavior) (offer_size trade_qty : ℕ)
    → Post (λ qty. qty.0 ≤ trade_qty) (cancelled b offer_size trade_qty)
unfolding cancelled
cancelled-le decrement_take offer_size trade_qty = returns (omega arith)
cancelled-le cancel_provide offer_size trade_qty = returns (omega arith)
cancelled-le abort_transaction offer_size trade_qty = fails

pub remaining_of-le : (coin pc : ℕ) → lots_of (remaining_of coin pc) ≤ coin
unfolding remaining_of
remaining_of-le coin pc = ground arith

-- What is not unlocked stays locked for the rest of the order.
pub unlocked_of-sum :
    (coin still locked unlocked : ℕ)
    → unlocked + still ≡ locked
    → let o = remaining_of coin still in (unlocked_of o locked unlocked still).0 + pc_of o ≡ locked
unfolding remaining_of unlocked_of
unlocked_of-sum coin still locked unlocked h = ground arith

abbrev pub unlocking : ℕ → RequestProceeds
unlocking n = record no_proceeds { native_pc_unlocked = n }

-- What a round that ends in a self trade does: it moves nothing but unlocked money, and each unit is
-- unlocked or stays locked for what remains.
abbrev pub Kept : NewBidParams → Context → Option OrderRemaining → Context → Type 0
Kept p c o d =
    (u : ℕ) × Moves c d (unlocking u)
    × (u + pc_of o ≡ p.native_pc_qty_locked)
    × (lots_of o ≤ p.max_coin_qty)

pub self_trade-Post :
    (p : NewBidParams) (c : Context) (h : ℕ) (l : LeafNode) (max_pc_qty price trade_qty : ℕ)
    → Budget p c max_pc_qty
    → trade_qty ≤ p.max_coin_qty
    → trade_qty * price ≤ max_pc_qty
    → Post (λ r. Kept p c r.0 r.1) (self_trade p c h l price trade_qty)
unfolding self_trade
self_trade-Post p c h l max_pc_qty price trade_qty budget le fits =
    Post->>= (cancelled-le p.self_trade_behavior l.quantity trade_qty) λ qty q.
      (let taken = qty.0 in
        let lot = c.market_state.pc_lot_size in
        let left = sub64 l.quantity qty.1 in
        let unlocked = mul64 (mul64 taken price) lot in
        let still = sub64 p.native_pc_qty_locked unlocked in
        let coin = sub64 p.max_coin_qty taken in
        let o = remaining_of coin still in
        let amounts = unlocked_of o p.native_pc_qty_locked unlocked still in
        Post->>= (push_event-Same c _) λ c₁ s₁.
          Post->>=
            (Post-if (left == 0) (λ _. remove_order-Same c₁ ask l.key)
              (λ _. set_quantity-Same c₁ ask h l left))
            λ c₂ s₂. Post->>= (unlock_native_pc-Moves c₂ amounts.0) λ c₃ m.
              Post->>= (push_event-Same c₃ _) λ c₄ s₄.
                (let z = Same-Adds c₃ c₄ s₄ in
                  let t = Moves-Same-trans c c₂ c₃ _ (Same-trans c c₁ c₂ s₁ s₂) m in
                  let a = t.adds in
                  let low = mul-le_left taken trade_qty price q in
                  let w = worth-Budget p c max_pc_qty (taken * price) budget (omega arith) in
                  let e = mul64-eq taken price (omega (arith, budget.locked)) in
                  let e' : unlocked ≡ taken * price * lot =
                    rw e (mul64-eq (taken * price) lot (omega (arith, budget.locked))) in
                  returns (
                    amounts.0,
                    record { adds = omega arith; market_state = s₄.market_state ∙ t.market_state },
                    unlocked_of-sum coin still p.native_pc_qty_locked unlocked
                        (omega (arith, budget.locked, sub64-eq p.native_pc_qty_locked unlocked)),
                    omega (
                      arith,
                      remaining_of-le coin still,
                      budget.coin,
                      sub64-eq p.max_coin_qty taken,
                    ),
                  )))

-- What the trade with the best offer leaves.
abbrev pub BoughtBy : NewBidParams → ℕ → ℕ → ℕ → ℕ → Bought → Type 0
BoughtBy p max_pc_qty price qty rebate b =
    (b.coin_qty_remaining ≡ sub64 p.max_coin_qty qty)
    × (b.pc_qty_remaining ≡ sub64 max_pc_qty (mul64 qty price))
    × (b.accum_maker_rebates ≡ add64 0 rebate)

pub trade-Post :
    (p : NewBidParams) (c : Context) (max_pc_qty h : ℕ) (l : LeafNode) (price qty : ℕ)
    → Post
        (λ r. Same c r.1 × ((rebate : ℕ) × BoughtBy p max_pc_qty price qty rebate r.0))
        (trade p c max_pc_qty h l price qty)
unfolding trade
trade-Post p c max_pc_qty h l price qty = Post->>= (Post-eq (leaf_fee_tier l)) λ tier _.
    Post->>= (push_event-Same c _) λ c₁ s₁.
      (let left = sub64 l.quantity qty in
        Post->>= (set_quantity-Same c₁ ask h l left) λ c₂ s₂.
          Post->>=
            (Post-if (left == 0)
              (λ _. Post->>= (push_event-Same c₂ _) λ c₃ s₃.
                Post-imp (remove_order-Same c₃ ask l.key) (λ c₄ s₄. Same-trans c₂ c₃ c₄ s₃ s₄))
              (λ _. returns (Same-refl c₂)))
            λ c₄ s₄.
              returns (Same-trans c c₂ c₄ (Same-trans c c₁ c₂ s₁ s₂) s₄, (_, (refl, refl, refl))))
