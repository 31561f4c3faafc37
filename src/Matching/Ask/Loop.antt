-- ===== src/Matching/Ask/Loop.antt =====
-- The loop of `new_ask` in dex/src/matching.rs as a whole, and the settlement after it.
use Prim.Native.Nat.{min}
use openbook_dex.Prelude.{
  ℕ, ◌+◌, ◌-◌, ◌*◌, ◌<◌, ◌≡◌, ap, ◌∙◌, ◌⊎◌, inl, inr, false, not, ◌||◌, none, some, arith, ltb, leb,
  ◌==◌, IsU64, sub64-eq, mul64-eq,
}
use openbook_dex.Error.{ok}
use openbook_dex.Fees.{taker_fee}
use openbook_dex.Fees.Bounds.{taker_fee-le}
use openbook_dex.Types.{bid}
use openbook_dex.Critbit.Node.{LeafNode, leaf_price}
use openbook_dex.Matching.State.{Context, no_proceeds, Round, returned, broke, find_bbo, leaf_at}
use openbook_dex.Matching.Post.{
  Post, returns, Post->>=, Post-if, Post-eq, Same, Same-refl, push_event-Same,
}
use openbook_dex.Matching.Proceeds.{
  lots_of, charged, Moves, Adds, Same-Adds, credit_native_pc-Moves, debit_coin-Moves,
}
use openbook_dex.Matching.Ask.{NewAskParams, Filled, against, round, settle}
use openbook_dex.Matching.Ask.Lots.{
  Funded, IsFilled, self_trade-Post, trade-Post, FilledBy-IsFilled, untouched-IsFilled, unlocking,
}

-- No bid reaches the order's limit price: the book has none, or its best one is below.
abbrev pub NoBidAt : NewAskParams → Context → Type 0
NoBidAt p c =
    (find_bbo c bid ≡ ok none)
    ⊎ ((h : ℕ) × (l : LeafNode) × (price : ℕ) × (find_bbo c bid ≡ ok (some h))
        × (leaf_at c bid h ≡ ok l)
        × (leaf_price l ≡ ok price)
        × (price < p.limit_price))

-- What holds at the end of the loop.
abbrev pub RoundPost : NewAskParams → Context → Round Filled → Type 0
RoundPost p c (returned o d) = (u : ℕ) × Moves c d (unlocking u) × (u + lots_of o ≡ p.max_qty)
RoundPost p c (broke done crossed f d) = Same c d × IsFilled p c f × (crossed ≡ false → NoBidAt p c)

against-Post :
    (p : NewAskParams) (c : Context) (h : ℕ) (l : LeafNode)
    → IsU64 p.max_qty
    → Funded c
    → find_bbo c bid ≡ ok (some h)
    → leaf_at c bid h ≡ ok l
    → Post (RoundPost p c) (against p c h l)
unfolding against
against-Post p c h l small funded best at = Post->>= (Post-eq (leaf_price l)) λ price e.
    let qty = min l.quantity p.max_qty in
    let crossed = leb p.limit_price price in
    let below : crossed ≡ false → NoBidAt p c = λ f. inr (h, l, price, best, at, e, ground arith) in
    Post-if (not crossed || p.post_only) (λ _. returns (Same-refl c, untouched-IsFilled p c, below))
      λ reach.
        Post-if (qty == 0) (λ _. returns (Same-refl c, untouched-IsFilled p c, below))
          λ _.
            Post-if (p.owner == l.owner)
              (λ _.
                Post->>= (self_trade-Post p c h l price qty small (omega arith)) λ r s. returns s)
              λ _. Post->>= (trade-Post p c h l price qty) λ r s. returns (
                s.0,
                FilledBy-IsFilled p c l price qty s.1.0 r.0 small funded.lot_pos
                    (funded.worth h l price at e) (ground arith) (omega arith) (omega arith) s.1.1,
                below,
              )

pub round-Post :
    (p : NewAskParams) (c : Context) → IsU64 p.max_qty → Funded c → Post (RoundPost p c) (round p c)
unfolding round
round-Post p c small funded = Post->>= (Post-eq (find_bbo c bid)) (elim [
  | none ↦ λ e. returns (Same-refl c, untouched-IsFilled p c, λ _. inl e)
  | some h ↦
      λ e. Post->>= (Post-eq (leaf_at c bid h)) λ l at. against-Post p c h l small funded e at
])

-- The proceeds of a settlement: the worth less the fee is credited, the traded lots are debited.
abbrev pub Settled : NewAskParams → Context → Filled → Context → Type 0
Settled p c f d =
    let worth = f.accum_fill_price * c.market_state.pc_lot_size in
    let fee = taker_fee p.fee_tier worth in
    Adds c d (record no_proceeds {
      native_pc_credit = worth - fee;
      coin_debit = p.max_qty - f.unfilled_qty;
    })
    × (d.market_state ≡ charged c.market_state fee f.accum_maker_rebates)

pub settle-Post :
    (p : NewAskParams) (f : Filled) (c : Context)
    → IsU64 p.max_qty
    → IsFilled p c f
    → Post (Settled p c f) (settle p f c)
unfolding settle
settle-Post p f c small filled =
    let worth = f.accum_fill_price * c.market_state.pc_lot_size in
    let fee = taker_fee p.fee_tier worth in
    let e = mul64-eq f.accum_fill_price c.market_state.pc_lot_size filled.worth in
    let net = sub64-eq worth fee filled.worth (taker_fee-le p.fee_tier worth filled.worth) in
    let traded = sub64-eq p.max_qty f.unfilled_qty small filled.unfilled in
    rw (e, net, traded)
      (Post->>= (credit_native_pc-Moves c (worth - fee)) λ c₁ m₁.
        Post->>= (debit_coin-Moves c₁ (p.max_qty - f.unfilled_qty)) λ c₂ m₂.
          Post->>= (Post-if (ltb 0 worth) (λ _. push_event-Same c₂ _) (λ _. returns (Same-refl c₂)))
            λ c₃ s.
              let z = Same-Adds c₂ c₃ s in
              let a₁ = m₁.adds in
              let a₂ = m₂.adds in
              returns (
                omega arith,
                ap (λ m. charged m fee f.accum_maker_rebates)
                    (s.market_state ∙ m₂.market_state ∙ m₁.market_state),
              ))
