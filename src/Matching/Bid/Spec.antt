-- ===== src/Matching/Bid/Spec.antt =====
-- What one round of `new_bid` (dex/src/matching.rs) does with an order that buys.
use openbook_dex.Prelude.{
  ℕ, ◌+◌, ◌-◌, ◌*◌, ◌≤◌, ◌<◌, ◌≡◌, refl, ap, ◌∙◌, ◌⊎◌, inl, inr, Bool, true, false, not, ◌&&◌, ◌||◌,
  Option, none, some, arith, ltb, IsU64, sub64, sub64-eq,
}
use openbook_dex.Error.{ok, check_assert, matching}
use openbook_dex.Fees.{taker_fee, remove_taker_fee}
use openbook_dex.Fees.Bounds.{taker_fee-le}
use openbook_dex.Fees.RoundTrip.{market_order_cannot_cheat}
use openbook_dex.Matching.State.{returned, broke, Context, OrderRemaining, no_proceeds}
use openbook_dex.Matching.Post.{
  Post, returns, Post->>=, Post-imp, Post-if, Post-eq, Post-ok, Same, Same-refl,
}
use openbook_dex.Matching.Proceeds.{Moves, Adds, Same-Moves, Same-Adds, lots_of, pc_of, charged}
use openbook_dex.Matching.Bid.{
  new_bid, NewBidParams, Bought, release, finish, remaining_of, accum_fill, pc_left, is_some,
}
use openbook_dex.Matching.Bid.Money.{Budget, unlocking, div64-Post, mul-le_left, remaining_of-le}
use openbook_dex.Matching.Bid.Loop.{
  round-Post, NoOfferAt, IsBought, Settled, settle-Post, accum_fill-eq,
}
use openbook_dex.Matching.Bid.Rest.{IsPosted, Affordable, to_post-Post, kept_lem, release-Post}

-- The order's lots are on the book at the limit price, which `kept` quote lots pay for.
pub record Rests (p : NewBidParams) (c : Context) (posted kept : ℕ) (d : Context) : Type 0 where
  pub limit : ℕ
  pub priced : p.limit_price ≡ some limit
  pub cost : kept ≡ posted * limit
  pub placed : IsPosted p posted d
  pub clear : NoOfferAt p c
  pub allowed : p.post_allowed ≡ true

-- The worth is the limit price for each lot, or less; a market order has no limit price.
abbrev pub Within : NewBidParams → Context → ℕ → ℕ → Type 0
Within p c received worth =
    (p.limit_price ≡ none)
    ⊎ ((limit : ℕ) × (p.limit_price ≡ some limit)
        × (worth ≤ received * limit * c.market_state.pc_lot_size))

limit_price-Within :
    (p : NewBidParams) (c : Context) (received worth : ℕ)
    → ((limit : ℕ)
        → p.limit_price ≡ some limit
        → worth ≤ received * limit * c.market_state.pc_lot_size)
    → Within p c received worth
limit_price-Within p c received worth f = go p.limit_price refl
  where
    go : (o : Option ℕ) → p.limit_price ≡ o → Within p c received worth
    go none e = inl e
    go (some limit) e = inr (limit, e, f limit e)

-- Every native unit that was locked is paid, as the worth of the trades or as the fee, unlocked,
-- kept for the lots that rest on the book, or stays locked for what remains of the order; the lots
-- bought, resting and remaining are no more than were asked for; the worth is the limit price for
-- each lot bought, or less; the market is charged as `charged` says or left alone; lots rest on the
-- book only where posting is allowed, nothing remains and no offer reaches the limit price.
pub record BidSpec (p : NewBidParams) (c : Context) (o : Option OrderRemaining) (d : Context)
    : Type 0 where
  pub received : ℕ
  pub unlocked : ℕ
  pub posted : ℕ
  pub kept : ℕ
  pub worth : ℕ
  pub money :
      worth + taker_fee p.fee_tier worth + unlocked + kept * c.market_state.pc_lot_size + pc_of o
      ≡ p.native_pc_qty_locked
  pub lots : received + posted + lots_of o ≤ p.max_coin_qty
  pub paid : Within p c received worth
  pub adds : Adds c d (record no_proceeds {
    native_pc_unlocked = unlocked;
    coin_credit = received;
    native_pc_debit = worth + taker_fee p.fee_tier worth;
  })
  pub market :
      (d.market_state ≡ c.market_state)
      ⊎ ((rebates : ℕ) × (d.market_state
            ≡ charged c.market_state (taker_fee p.fee_tier worth) rebates))
  pub book : (posted ≡ 0) × (kept ≡ 0) ⊎ Rests p c posted kept d × (o ≡ none)

remaining_of-pc : (coin pc : ℕ) → 0 < coin → 0 < pc → pc_of (remaining_of coin pc) ≡ pc
unfolding remaining_of
remaining_of-pc coin pc h k = ground arith

moved_Budget :
    (p : NewBidParams) (c c' : Context) (max_pc_qty : ℕ)
    → Same c c'
    → Budget p c max_pc_qty
    → Budget p c' max_pc_qty
moved_Budget p c c' max_pc_qty same b = record {
  coin = b.coin;
  locked = b.locked;
  lot = rw (same.market_state) b.lot;
  spendable = b.spendable;
  most = rw (same.market_state) b.most;
  fee = b.fee;
}

-- What the end of a round is put together from.
module _ (p : NewBidParams) (c c' : Context) (max_pc_qty : ℕ) (b : Bought) (same : Same c c')
    (budget : Budget p c' max_pc_qty) (bought : IsBought p max_pc_qty b) where
  abbrev worth_of : ℕ
  worth_of = accum_fill c' max_pc_qty b

  abbrev left_of : ℕ
  left_of = pc_left p c' max_pc_qty b

  left-eq :
      (worth_of + taker_fee p.fee_tier worth_of + left_of ≡ p.native_pc_qty_locked) × IsU64 left_of
  left-eq =
      let w = accum_fill-eq p c' max_pc_qty b budget bought in
      let e = sub64-eq p.native_pc_qty_locked worth_of budget.locked (omega arith) in
      let e' = sub64-eq (sub64 p.native_pc_qty_locked worth_of) (taker_fee p.fee_tier worth_of) in
      omega (arith, budget.locked)

  assemble :
      (o : Option OrderRemaining) (u qty kept : ℕ) (c₁ d : Context)
      → Settled p c' max_pc_qty b c₁
      → Moves c₁ d (unlocking u)
      → u + kept * c.market_state.pc_lot_size + pc_of o ≡ left_of
      → qty + lots_of o ≤ b.coin_qty_remaining
      → (qty ≡ 0) × (kept ≡ 0) ⊎ Rests p c qty kept d × (o ≡ none)
      → BidSpec p c o d
  assemble o u qty kept c₁ d s m money lots book =
      let z = Same-Adds c c' same in
      let a = s.0 in
      let x = m.adds in
      let w = accum_fill-eq p c' max_pc_qty b budget bought in
      record {
        received = p.max_coin_qty - b.coin_qty_remaining;
        unlocked = u;
        posted = qty;
        kept = kept;
        worth = worth_of;
        money = omega (arith, left-eq);
        lots = omega (arith, bought.coin);
        paid = limit_price-Within p c (p.max_coin_qty - b.coin_qty_remaining) worth_of λ limit e.
            rw (w.0, same.market_state)
              (mul-le_left _ _ c.market_state.pc_lot_size (bought.price limit e));
        adds = omega arith;
        market = inr (
          b.accum_maker_rebates,
          m.market_state
              ∙ s.1
              ∙ ap (λ m. charged m (taker_fee p.fee_tier worth_of) b.accum_maker_rebates)
                  same.market_state,
        );
        book = book;
      }

  -- The end of a round where the order rests or is released.
  resting :
      (crossed : Bool) (c₁ : Context) (q : ℕ × ℕ)
      → Settled p c' max_pc_qty b c₁
      → (crossed ≡ false → NoOfferAt p c)
      → Affordable p c₁ crossed b.coin_qty_remaining left_of q
      → Post (BidSpec p c none) (release p left_of q.0 q.1 c₁)
  resting crossed c₁ q s clear fit =
      let lot : c₁.market_state.pc_lot_size ≡ c.market_state.pc_lot_size =
        ap (λ m. m.pc_lot_size) s.1 ∙ ap (λ m. m.pc_lot_size) same.market_state in
      let le = kept_lem p c₁ crossed b.coin_qty_remaining left_of q fit in
      let unlocked = left_of - q.1 * c₁.market_state.pc_lot_size in
      let money : unlocked + q.1 * c.market_state.pc_lot_size + 0 ≡ left_of =
        rw (← lot) (omega arith) in
      Post-imp (release-Post p left_of q.0 q.1 c₁ left-eq.1 le) λ d r. elim r.1 [
        | inl e ↦
            assemble none unlocked 0 0 c₁ d s r.0
              (let z : q.1 * c.market_state.pc_lot_size ≡ 0 = rw e (omega arith) in omega arith)
              (omega arith) (inl (refl, refl))
        | inr placed ↦ elim fit [
          | inl f ↦ assemble none unlocked q.0 q.1 c₁ d s r.0 money (omega arith) (inl f)
          | inr (limit, e, coin, cost, k, uncrossed, allowed) ↦
              assemble none unlocked q.0 q.1 c₁ d s r.0 money (omega arith) (
                inr (
                  record {
                    limit = limit;
                    priced = e;
                    cost = k;
                    placed = placed;
                    clear = clear uncrossed;
                    allowed = allowed;
                  },
                  refl,
                ))
        ]
      ]

  finish-Post :
      (done crossed : Bool)
      → (crossed ≡ false → NoOfferAt p c)
      → Post (λ r. BidSpec p c r.0 r.1) (finish p max_pc_qty done crossed b c')
  unfolding finish
  finish-Post done crossed clear =
      let o = remaining_of b.coin_qty_remaining left_of in
      Post->>= (settle-Post p c' max_pc_qty b budget bought) λ c₁ s.
        Post-if (not done && (ltb 0 b.coin_qty_remaining && ltb 0 left_of))
          (λ t.
            let e = remaining_of-pc b.coin_qty_remaining left_of (ground arith) (ground arith) in
            returns (
              assemble o 0 0 0 c₁ c₁ s (Same-Moves c₁ c₁ (Same-refl c₁)) (omega arith)
                (omega (arith, remaining_of-le b.coin_qty_remaining left_of)) (inl (refl, refl))))
          λ _.
            Post->>= (to_post-Post p c₁ crossed b.coin_qty_remaining left_of left-eq.1)
              λ q fit. Post->>= (resting crossed c₁ q s clear fit) λ d spec. returns spec

-- What the removal of the fee leaves for the round.
remove_taker_fee-Budget :
    (p : NewBidParams) (c : Context) (spendable max_pc_qty : ℕ)
    → IsU64 p.max_coin_qty
    → IsU64 p.native_pc_qty_locked
    → remove_taker_fee p.fee_tier p.native_pc_qty_locked ≡ ok spendable
    → max_pc_qty * c.market_state.pc_lot_size ≤ spendable
    → 0 < c.market_state.pc_lot_size
    → Budget p c max_pc_qty
remove_taker_fee-Budget p c spendable max_pc_qty coin locked e most lot =
    let (w, e', fee, _) = market_order_cannot_cheat p.fee_tier p.native_pc_qty_locked locked in
    let same : w ≡ spendable = cc in
    record {
      coin = coin;
      locked = locked;
      lot = lot;
      spendable = w;
      most = rw same most;
      fee = fee;
    }

-- A round that ends in a self trade.
kept-Spec :
    (p : NewBidParams) (c d : Context) (o : Option OrderRemaining) (u : ℕ)
    → Moves c d (unlocking u)
    → u + pc_of o ≡ p.native_pc_qty_locked
    → lots_of o ≤ p.max_coin_qty
    → BidSpec p c o d
kept-Spec p c d o u m money lots =
    let a = m.adds in
    let free = taker_fee-le p.fee_tier 0 (omega arith) in
    record {
      received = 0;
      unlocked = u;
      posted = 0;
      kept = 0;
      worth = 0;
      money = omega arith;
      lots = omega arith;
      paid = limit_price-Within p c 0 0 (λ limit e. omega arith);
      adds = omega arith;
      market = inl m.market_state;
      book = inl (refl, refl);
    }

pub new_bid-Post :
    (p : NewBidParams) (c : Context)
    → IsU64 p.max_coin_qty
    → IsU64 p.native_pc_qty_locked
    → Post (λ r. BidSpec p c r.0 r.1) (new_bid p c)
unfolding new_bid
new_bid-Post p c coin locked =
    Post->>= (Post-eq (check_assert matching 631 (not p.post_allowed || is_some p.limit_price)))
      λ _ _. Post->>= (Post-eq (remove_taker_fee p.fee_tier p.native_pc_qty_locked)) λ spendable e.
        Post->>= (div64-Post spendable c.market_state.pc_lot_size) λ max_pc_qty m.
          let budget = remove_taker_fee-Budget p c spendable max_pc_qty coin locked e m.0 m.1 in
          Post->>= (round-Post p c max_pc_qty budget) (elim [
            | returned o d ↦ λ (u, m, money, lots). returns (kept-Spec p c d o u m money lots)
            | broke done crossed b d ↦ λ (same, bought, clear).
                finish-Post p c d max_pc_qty b same (moved_Budget p c d max_pc_qty same budget)
                  bought done crossed clear
          ])

-- A round of an order that buys, for `u64` quantities, ends as `BidSpec` says whenever it succeeds.
pub new_bid_lem :
    (p : NewBidParams) (c : Context) (o : Option OrderRemaining) (d : Context)
    → IsU64 p.max_coin_qty
    → IsU64 p.native_pc_qty_locked
    → new_bid p c ≡ ok (o, d)
    → BidSpec p c o d
new_bid_lem p c o d coin locked e = Post-ok (new_bid-Post p c coin locked) e
