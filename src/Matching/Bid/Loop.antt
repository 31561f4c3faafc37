-- ===== src/Matching/Bid/Loop.antt =====
-- The loop of `new_bid` in dex/src/matching.rs as a whole, and the settlement after it.
use Prim.Native.Nat.{min}
use openbook_dex.Prelude.{
  ℕ, ◌+◌, ◌-◌, ◌*◌, ◌≤◌, ◌≡◌, ap, ◌∙◌, Option, ◌⊎◌, inl, inr, true, false, not, ◌||◌, none, some,
  arith, ltb, ◌==◌, add64-eq, sub64-eq, mul64-eq,
}
use openbook_dex.Error.{ok}
use openbook_dex.Fees.{taker_fee}
use openbook_dex.Types.{ask}
use openbook_dex.Critbit.Node.{LeafNode, leaf_price}
use openbook_dex.Matching.State.{Context, no_proceeds, Round, returned, broke, find_bbo, leaf_at}
use openbook_dex.Matching.Post.{
  Post, returns, Post->>=, Post-if, Post-eq, Same, Same-refl, push_event-Same,
}
use openbook_dex.Matching.Proceeds.{
  charged, Adds, Same-Adds, credit_coin-Moves, debit_native_pc-Moves,
}
use openbook_dex.Matching.Bid.{
  NewBidParams, Bought, crosses, untouched, against, round, settle, accum_fill,
}
use openbook_dex.Matching.Bid.Money.{
  Budget, worth-Budget, Kept, div64-Post, self_trade-Post, trade-Post, BoughtBy, mul-le_left,
  mul-le_right,
}

-- What the loop leaves for the code after it: the quote lots spent are the limit price for each lot
-- bought, or less.
pub record IsBought (p : NewBidParams) (max_pc_qty : ℕ) (b : Bought) : Type 0 where
  pub coin : b.coin_qty_remaining ≤ p.max_coin_qty
  pub pc : b.pc_qty_remaining ≤ max_pc_qty
  pub price :
      (limit : ℕ)
      → p.limit_price ≡ some limit
      → max_pc_qty - b.pc_qty_remaining ≤ (p.max_coin_qty - b.coin_qty_remaining) * limit

pub untouched-IsBought :
    (p : NewBidParams) (max_pc_qty : ℕ) → IsBought p max_pc_qty (untouched p max_pc_qty)
untouched-IsBought p max_pc_qty = record {
  coin = omega arith;
  pc = omega arith;
  price = λ limit e. omega arith;
}

crosses-le :
    (o : Option ℕ) (limit price : ℕ) → o ≡ some limit → crosses o price ≡ true → price ≤ limit
crosses-le none limit price e reach = cc
crosses-le (some x) limit price e reach =
    let eq : x ≡ limit = cc in let le : price ≤ x = ground arith in omega arith

BoughtBy-IsBought :
    (p : NewBidParams) (c : Context) (max_pc_qty price qty rebate : ℕ) (b : Bought)
    → Budget p c max_pc_qty
    → qty ≤ p.max_coin_qty
    → qty * price ≤ max_pc_qty
    → crosses p.limit_price price ≡ true
    → BoughtBy p max_pc_qty price qty rebate b
    → IsBought p max_pc_qty b
BoughtBy-IsBought p c max_pc_qty price qty rebate b budget le fits reach (x, y, z) =
    let w = worth-Budget p c max_pc_qty max_pc_qty budget (omega arith) in
    let e = mul64-eq qty price (omega (arith, budget.locked)) in
    let coin = sub64-eq p.max_coin_qty qty budget.coin le in
    let pc : b.pc_qty_remaining ≡ max_pc_qty - qty * price =
      y ∙ rw e (sub64-eq max_pc_qty (qty * price) (omega (arith, budget.locked)) fits) in
    let bought : p.max_coin_qty - b.coin_qty_remaining ≡ qty = omega arith in
    let spent : max_pc_qty - b.pc_qty_remaining ≡ qty * price = omega arith in
    record {
      coin = omega arith;
      pc = omega arith;
      price = λ limit e'.
          rw (bought, spent)
            (mul-le_right qty price limit (crosses-le p.limit_price limit price e' reach));
    }

-- No offer reaches the order's limit price: the book has none, or its best one is above.
abbrev pub NoOfferAt : NewBidParams → Context → Type 0
NoOfferAt p c =
    (find_bbo c ask ≡ ok none)
    ⊎ ((h : ℕ) × (l : LeafNode) × (price : ℕ) × (find_bbo c ask ≡ ok (some h))
        × (leaf_at c ask h ≡ ok l)
        × (leaf_price l ≡ ok price)
        × (crosses p.limit_price price ≡ false))

-- What holds at the end of the loop.
abbrev pub RoundPost : NewBidParams → Context → ℕ → Round Bought → Type 0
RoundPost p c max_pc_qty (returned o d) = Kept p c o d
RoundPost p c max_pc_qty (broke done crossed b d) =
    Same c d × IsBought p max_pc_qty b × (crossed ≡ false → NoOfferAt p c)

against-Post :
    (p : NewBidParams) (c : Context) (max_pc_qty h : ℕ) (l : LeafNode)
    → Budget p c max_pc_qty
    → find_bbo c ask ≡ ok (some h)
    → leaf_at c ask h ≡ ok l
    → Post (RoundPost p c max_pc_qty) (against p c max_pc_qty h l)
unfolding against
against-Post p c max_pc_qty h l budget best at = Post->>= (Post-eq (leaf_price l)) λ price e.
    let crossed = crosses p.limit_price price in
    let above : crossed ≡ false → NoOfferAt p c = λ f. inr (h, l, price, best, at, e, f) in
    let stop : RoundPost p c max_pc_qty (broke true crossed (untouched p max_pc_qty) c) =
      (Same-refl c, untouched-IsBought p max_pc_qty, above) in
    Post-if (not crossed || p.post_only) (λ _. returns stop)
      λ reach. Post->>= (div64-Post max_pc_qty price) λ affordable a.
        let qty = min (min l.quantity p.max_coin_qty) affordable in
        let low = mul-le_left qty affordable price (omega arith) in
        Post-if (qty == 0) (λ _. returns stop)
          λ _.
            Post-if (p.owner == l.owner)
              (λ _.
                Post->>=
                  (self_trade-Post p c h l max_pc_qty price qty budget (omega arith) (omega arith))
                  λ r s. returns s)
              λ _. Post->>= (trade-Post p c max_pc_qty h l price qty) λ r s. returns (
                s.0,
                BoughtBy-IsBought p c max_pc_qty price qty s.1.0 r.0 budget (omega arith)
                    (omega arith) (ground arith) s.1.1,
                above,
              )

pub round-Post :
    (p : NewBidParams) (c : Context) (max_pc_qty : ℕ)
    → Budget p c max_pc_qty
    → Post (RoundPost p c max_pc_qty) (round p c max_pc_qty)
unfolding round
round-Post p c max_pc_qty budget = Post->>= (Post-eq (find_bbo c ask)) (elim [
  | none ↦ λ e. returns (Same-refl c, untouched-IsBought p max_pc_qty, λ _. inl e)
  | some h ↦
      λ e. Post->>= (Post-eq (leaf_at c ask h)) λ l at. against-Post p c max_pc_qty h l budget e at
])

-- The worth of the trades, as a number that does not wrap.
pub accum_fill-eq :
    (p : NewBidParams) (c : Context) (max_pc_qty : ℕ) (b : Bought)
    → Budget p c max_pc_qty
    → IsBought p max_pc_qty b
    → (accum_fill c max_pc_qty b ≡ (max_pc_qty - b.pc_qty_remaining) * c.market_state.pc_lot_size)
      × (accum_fill c max_pc_qty b + taker_fee p.fee_tier (accum_fill c max_pc_qty b)
          ≤ p.native_pc_qty_locked)
accum_fill-eq p c max_pc_qty b budget bought =
    let spent = max_pc_qty - b.pc_qty_remaining in
    let lot = c.market_state.pc_lot_size in
    let all = worth-Budget p c max_pc_qty max_pc_qty budget (omega arith) in
    let w = worth-Budget p c max_pc_qty spent budget (omega arith) in
    let e = sub64-eq max_pc_qty b.pc_qty_remaining (omega (arith, budget.locked)) bought.pc in
    let e' : accum_fill c max_pc_qty b ≡ spent * lot =
      rw e (mul64-eq spent lot (omega (arith, budget.locked))) in
    (e', rw e' w.0)

-- The proceeds of a settlement: the bought lots are credited, the worth and the fee are debited.
abbrev pub Settled : NewBidParams → Context → ℕ → Bought → Context → Type 0
Settled p c max_pc_qty b d =
    let worth = accum_fill c max_pc_qty b in
    let fee = taker_fee p.fee_tier worth in
    Adds c d (record no_proceeds {
      coin_credit = p.max_coin_qty - b.coin_qty_remaining;
      native_pc_debit = worth + fee;
    })
    × (d.market_state ≡ charged c.market_state fee b.accum_maker_rebates)

pub settle-Post :
    (p : NewBidParams) (c : Context) (max_pc_qty : ℕ) (b : Bought)
    → Budget p c max_pc_qty
    → IsBought p max_pc_qty b
    → Post (Settled p c max_pc_qty b) (settle p max_pc_qty b c)
unfolding settle
settle-Post p c max_pc_qty b budget bought =
    let worth = accum_fill c max_pc_qty b in
    let fee = taker_fee p.fee_tier worth in
    let got = p.max_coin_qty - b.coin_qty_remaining in
    let fits = accum_fill-eq p c max_pc_qty b budget bought in
    let sum = add64-eq worth fee (omega (arith, budget.locked)) in
    let lots = sub64-eq p.max_coin_qty b.coin_qty_remaining budget.coin bought.coin in
    rw (sum, lots)
      (Post->>= (credit_coin-Moves c got) λ c₁ m₁.
        Post->>= (debit_native_pc-Moves c₁ (worth + fee)) λ c₂ m₂.
          Post->>= (Post-if (ltb 0 worth) (λ _. push_event-Same c₂ _) (λ _. returns (Same-refl c₂)))
            λ c₃ s.
              let z = Same-Adds c₂ c₃ s in
              let a₁ = m₁.adds in
              let a₂ = m₂.adds in
              returns (
                omega arith,
                ap (λ m. charged m fee b.accum_maker_rebates)
                    (s.market_state ∙ m₂.market_state ∙ m₁.market_state),
              ))
