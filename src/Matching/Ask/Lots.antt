-- ===== src/Matching/Ask/Lots.antt =====
-- Where the lots and the proceeds of an order that sells go: `new_ask` of dex/src/matching.rs, branch
-- by branch.
use openbook_dex.Prelude.{
  ℕ, zero, suc, ◌+◌, ◌-◌, ◌*◌, ◌≤◌, ◌<◌, ◌≡◌, refl, arith, ◌==◌, IsU64, u64_mod, add64, sub64,
  mul64, add64-eq, sub64-eq, mul64-eq,
}
use openbook_dex.Error.{ok}
use openbook_dex.Types.{bid, SelfTradeBehavior, decrement_take, cancel_provide, abort_transaction}
use openbook_dex.Critbit.Node.{LeafNode, leaf_price, leaf_fee_tier}
use openbook_dex.Matching.State.{Context, RequestProceeds, no_proceeds, leaf_at}
use openbook_dex.Matching.Post.{
  Post, returns, fails, Post->>=, Post-imp, Post-if, Post-eq, Same, Same-refl, Same-trans,
  push_event-Same, set_quantity-Same, remove_order-Same,
}
use openbook_dex.Matching.Proceeds.{lots_of, Moves, Moves-Same-trans, unlock_coin-Moves}
use openbook_dex.Matching.Ask.{
  NewAskParams, Filled, cancelled, remaining_lots, self_trade, trade, untouched,
}

pub lots_of-remaining_lots : (n : ℕ) → lots_of (remaining_lots n) ≡ n
unfolding remaining_lots
lots_of-remaining_lots zero = refl
lots_of-remaining_lots (suc n) = ground arith

-- No more is taken from the order than the round could trade.
cancelled-le :
    (b : SelfTradeBehavior) (bid_size trade_qty : ℕ)
    → Post (λ qty. qty.1 ≤ trade_qty) (cancelled b bid_size trade_qty)
unfolding cancelled
cancelled-le decrement_take bid_size trade_qty = returns (omega arith)
cancelled-le cancel_provide bid_size trade_qty = returns (omega arith)
cancelled-le abort_transaction bid_size trade_qty = fails

abbrev pub unlocking : ℕ → RequestProceeds
unlocking n = record no_proceeds { coin_unlocked = n }

-- A self trade moves nothing but unlocked lots, and each lot is unlocked or remains.
pub self_trade-Post :
    (p : NewAskParams) (c : Context) (h : ℕ) (l : LeafNode) (price trade_qty : ℕ)
    → IsU64 p.max_qty
    → trade_qty ≤ p.max_qty
    → Post
        (λ r. (u : ℕ) × Moves c r.1 (unlocking u) × (u + lots_of r.0 ≡ p.max_qty))
        (self_trade p c h l price trade_qty)
unfolding self_trade
self_trade-Post p c h l price trade_qty small le =
    Post->>= (cancelled-le p.self_trade_behavior l.quantity trade_qty) λ qty q.
      Post->>= (push_event-Same c _) λ c₁ s₁.
        (let left = sub64 l.quantity qty.0 in
          Post->>=
            (Post-if (left == 0) (λ _. remove_order-Same c₁ bid l.key)
              (λ _. set_quantity-Same c₁ bid h l left))
            λ c₂ s₂. Post->>= (push_event-Same c₂ _) λ c₃ s₃.
              Post->>= (unlock_coin-Moves c₃ qty.1) λ c₄ m. returns (
                qty.1,
                Moves-Same-trans c c₃ c₄ _ (Same-trans c c₂ c₃ (Same-trans c c₁ c₂ s₁ s₂) s₃) m,
                omega (
                  arith,
                  lots_of-remaining_lots (sub64 p.max_qty qty.1),
                  sub64-eq p.max_qty qty.1,
                ),
              ))

-- What the trade with the best bid leaves, and that it moves nothing yet.
abbrev pub FilledBy : NewAskParams → ℕ → ℕ → ℕ → Filled → Type 0
FilledBy p price qty rebate f =
    (f.unfilled_qty ≡ sub64 p.max_qty qty)
    × (f.accum_fill_price ≡ add64 0 (mul64 qty price))
    × (f.accum_maker_rebates ≡ add64 0 rebate)

pub trade-Post :
    (p : NewAskParams) (c : Context) (h : ℕ) (l : LeafNode) (price qty : ℕ)
    → Post
        (λ r. Same c r.1 × ((rebate : ℕ) × FilledBy p price qty rebate r.0))
        (trade p c h l price qty)
unfolding trade
trade-Post p c h l price qty = Post->>= (Post-eq (leaf_fee_tier l)) λ tier _.
    Post->>= (push_event-Same c _) λ c₁ s₁.
      (let left = sub64 l.quantity qty in
        Post->>= (set_quantity-Same c₁ bid h l left) λ c₂ s₂.
          Post->>=
            (Post-if (left == 0)
              (λ _. Post->>= (push_event-Same c₂ _) λ c₃ s₃.
                Post-imp (remove_order-Same c₃ bid l.key) (λ c₄ s₄. Same-trans c₂ c₃ c₄ s₃ s₄))
              (λ _. returns (Same-refl c₂)))
            λ c₄ s₄.
              returns (Same-trans c c₂ c₄ (Same-trans c c₁ c₂ s₁ s₂) s₄, (_, (refl, refl, refl))))

-- The bids are worth what their owners have locked: the worth of each, in native units, is a `u64`.
pub record Funded (c : Context) : Type 0 where
  pub lot_pos : 0 < c.market_state.pc_lot_size
  pub sizes : (h : ℕ) (l : LeafNode) → leaf_at c bid h ≡ ok l → IsU64 l.quantity
  pub worth :
      (h : ℕ) (l : LeafNode) (price : ℕ)
      → leaf_at c bid h ≡ ok l
      → leaf_price l ≡ ok price
      → l.quantity * price * c.market_state.pc_lot_size < u64_mod

-- What the loop leaves for the code after it: the lots traded are worth the limit price each, or
-- more, and their worth in native units is a `u64`.
pub record IsFilled (p : NewAskParams) (c : Context) (f : Filled) : Type 0 where
  pub unfilled : f.unfilled_qty ≤ p.max_qty
  pub price : (p.max_qty - f.unfilled_qty) * p.limit_price ≤ f.accum_fill_price
  pub worth : f.accum_fill_price * c.market_state.pc_lot_size < u64_mod

pub untouched-IsFilled : (p : NewAskParams) (c : Context) → IsFilled p c (untouched p)
untouched-IsFilled p c = grind arith

-- A product with a smaller factor is still a `u64`.
mul-le_of_le : (a b x y : ℕ) → a ≤ b → a * x * y ≤ b * x * y
mul-le_of_le a b x y h = grind arith

mul-le-mul_pos : (a y : ℕ) → 0 < y → a ≤ a * y
mul-le-mul_pos a y h = grind arith

mul-le_right : (a x y : ℕ) → x ≤ y → a * x ≤ a * y
mul-le_right a x y h = grind arith

pub FilledBy-IsFilled :
    (p : NewAskParams) (c : Context) (l : LeafNode) (price qty rebate : ℕ) (f : Filled)
    → IsU64 p.max_qty
    → 0 < c.market_state.pc_lot_size
    → l.quantity * price * c.market_state.pc_lot_size < u64_mod
    → p.limit_price ≤ price
    → qty ≤ l.quantity
    → qty ≤ p.max_qty
    → FilledBy p price qty rebate f
    → IsFilled p c f
FilledBy-IsFilled p c l price qty rebate f small pos worth limit le le' (a, b, d) =
    let lot = c.market_state.pc_lot_size in
    let low = mul-le_of_le qty l.quantity price lot le in
    let up = mul-le-mul_pos (qty * price) lot pos in
    let e = mul64-eq qty price (omega arith) in
    let fit = sub64-eq p.max_qty qty small le' in
    let worth_f : f.accum_fill_price ≡ qty * price = omega (arith, add64-eq 0 (mul64 qty price)) in
    let traded : p.max_qty - f.unfilled_qty ≡ qty = omega arith in
    record {
      unfilled = omega arith;
      price = rw (traded, worth_f) (mul-le_right qty p.limit_price price limit);
      worth = rw worth_f (omega arith);
    }
