-- ===== src/Matching/Order/Buy.antt =====
-- What a whole order that buys does: the rounds of `new_order` in dex/src/matching.rs together.
use openbook_dex.Prelude.{ℕ, ◌+◌, List, [], ◌∷◌, length, ◌*◌, ◌≤◌, ◌≡◌, ◌⊎◌, Option, none, some}
use openbook_dex.Fees.{FeeTier, taker_fee}
use openbook_dex.Types.{non_zero}
use openbook_dex.Matching.State.{
  Context, NewOrderParams, OrderRemaining, no_proceeds, extract_price_from_order_id,
}
use openbook_dex.Matching.Post.{Post}
use openbook_dex.Matching.Proceeds.{Adds, lots_of, pc_of}
use openbook_dex.Matching.Bid.{NewBidParams}
use openbook_dex.Matching.Bid.Spec.{BidSpec}
use openbook_dex.Matching.Order.{bid_params}

-- The limit price in an order's id, as the rounds of an order that buys take it.
abbrev pub limit_of : NewOrderParams → Option ℕ
limit_of p = non_zero (extract_price_from_order_id p.order_id)

-- The worth is the limit price for each lot, or less, if there is a limit price.
abbrev pub IsWithin : Option ℕ → ℕ → ℕ → ℕ → Type 0
IsWithin limit lot received worth =
    (limit ≡ none) ⊎ ((price : ℕ) × (limit ≡ some price) × (worth ≤ received * price * lot))

-- What a round trades: the lots received, and their worth in native units.
pub record Trade : Type 0 where
  pub received : ℕ
  pub worth : ℕ

abbrev pub total : (Trade → ℕ) → List Trade → ℕ
total f [] = 0
total f (t ∷ ts) = f t + total f ts

abbrev pub AllWithin : Option ℕ → ℕ → List Trade → Type 0
AllWithin limit lot [] = Unit
AllWithin limit lot (t ∷ ts) = IsWithin limit lot t.received t.worth × AllWithin limit lot ts

-- The worth of the trades, and the fee of each round on its worth.
abbrev pub paid_of : FeeTier → List Trade → ℕ
paid_of tier ts = total (λ t. t.worth + taker_fee tier t.worth) ts

-- The rounds, at most so many, trade for what is paid with the fees of the tier, each within the limit
-- price. Of `locked` native units, what is not paid is unlocked, kept for the lots posted, or stays
-- locked for what remains of the order; of `coin` lots, the lots received, posted and remaining are a
-- part.
pub record BuySpec (tier : FeeTier) (limit : Option ℕ) (rounds coin locked : ℕ) (c : Context)
    (o : Option OrderRemaining) (d : Context) : Type 0 where
  pub trades : List Trade
  pub unlocked : ℕ
  pub posted : ℕ
  pub kept : ℕ
  pub few : length trades ≤ rounds
  pub within : AllWithin limit c.market_state.pc_lot_size trades
  pub money : paid_of tier trades + unlocked + kept * c.market_state.pc_lot_size + pc_of o ≡ locked
  pub lots : total (λ t. t.received) trades + posted + lots_of o ≤ coin
  pub adds : Adds c d (record no_proceeds {
    native_pc_unlocked = unlocked;
    coin_credit = total (λ t. t.received) trades;
    native_pc_debit = paid_of tier trades;
  })
  pub cost :
      (posted ≡ 0) × (kept ≡ 0)
      ⊎ ((price : ℕ) × (limit ≡ some price) × (kept ≡ posted * price) × (o ≡ none))

abbrev trade_of :
    {p : NewBidParams} {c : Context} {o : Option OrderRemaining} {d : Context}
    → BidSpec p c o d
    → Trade
trade_of s = record { received = s.received; worth = s.worth }

-- What a round makes of the locked amount that it was given; without one it panics.
abbrev RoundOf :
    NewOrderParams → ℕ → ℕ → Option ℕ → Context → Option OrderRemaining × Context → Type 0
RoundOf p cycles coin none c r = ⊥
RoundOf p cycles coin (some locked) c r = BidSpec (bid_params p cycles coin locked) c r.0 r.1

-- What the rounds leave is what the order asked for.
abbrev Bought : NewOrderParams → ℕ → ℕ → ℕ → Context → Option OrderRemaining × ℕ × Context → Type 0
Bought p rounds coin locked c r = BuySpec p.fee_tier (limit_of p) rounds coin locked c r.0 r.2
