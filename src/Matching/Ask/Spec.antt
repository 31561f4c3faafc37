-- ===== src/Matching/Ask/Spec.antt =====
-- What one round of `new_ask` (dex/src/matching.rs) does with an order that sells.
use openbook_dex.Prelude.{
  ℕ, ◌+◌, ◌-◌, ◌*◌, ◌≤◌, ◌≡◌, refl, ap, ◌∙◌, ◌⊎◌, inl, inr, Bool, true, false, not, ◌&&◌, Option,
  none, arith, ltb, IsU64,
}
use openbook_dex.Error.{panic, ok}
use openbook_dex.Fees.{taker_fee}
use openbook_dex.Critbit.Node.{LeafNode, new_leaf}
use openbook_dex.Critbit.Alloc.{Slab}
use openbook_dex.Critbit.Insert.{out_of_space, inserted, insert_leaf}
use openbook_dex.Critbit.Remove.{remove_max}
use openbook_dex.Matching.State.{returned, broke, Context, OrderRemaining, no_proceeds}
use openbook_dex.Matching.Post.{
  Post, returns, panics, Post->>=, Post-imp, Post-if, Post-eq, Post-unwrap, Post-ok, Same,
  Same-refl, Same-trans, push_event-Same,
}
use openbook_dex.Matching.Proceeds.{
  lots_of, charged, Moves, Adds, Same-Moves, Same-Adds, unlock_coin-Moves,
}
use openbook_dex.Matching.Ask.{
  new_ask, NewAskParams, Filled, boot, post, release, finish, remaining_lots,
}
use openbook_dex.Matching.Ask.Lots.{Funded, IsFilled, unlocking, lots_of-remaining_lots}
use openbook_dex.Matching.Ask.Loop.{round-Post, NoBidAt, Settled, settle-Post}

-- The asks of `d` are what inserting the order, with `qty` lots, has made of some slab.
abbrev pub IsPosted : NewAskParams → ℕ → Context → Type 0
IsPosted p qty d =
    (s : Slab) × (h : ℕ) × (old : Option LeafNode) × (insert_leaf s
        (new_leaf p.owner_slot p.order_id p.owner qty p.fee_tier p.client_order_id)
      ≡ ok (inserted h old, d.asks))

-- Every lot of the order is traded, unlocked, posted or remains; the trades are worth the limit
-- price or more, and that worth less the fee is credited; the market is charged as `charged` says or
-- left alone; lots are posted only where posting is allowed, nothing remains and no bid reaches the
-- limit price.
pub record AskSpec (p : NewAskParams) (c : Context) (o : Option OrderRemaining) (d : Context)
    : Type 0 where
  pub traded : ℕ
  pub unlocked : ℕ
  pub posted : ℕ
  pub worth : ℕ
  pub lots : traded + unlocked + posted + lots_of o ≡ p.max_qty
  pub paid : traded * p.limit_price * c.market_state.pc_lot_size ≤ worth
  pub fits : IsU64 worth
  pub adds : Adds c d (record no_proceeds {
    coin_unlocked = unlocked;
    native_pc_credit = worth - taker_fee p.fee_tier worth;
    coin_debit = traded;
  })
  pub market :
      (d.market_state ≡ c.market_state)
      ⊎ ((rebates : ℕ) × (d.market_state
            ≡ charged c.market_state (taker_fee p.fee_tier worth) rebates))
  pub book : (posted ≡ 0) ⊎ IsPosted p posted d × NoBidAt p c × (p.post_allowed ≡ true) × (o ≡ none)

-- The leaf that the order becomes.
abbrev leaf_of : NewAskParams → ℕ → LeafNode
leaf_of p qty = new_leaf p.owner_slot p.order_id p.owner qty p.fee_tier p.client_order_id

boot-Post :
    (p : NewAskParams) (qty : ℕ) (c : Context)
    → Post (λ d. Same c d × IsPosted p qty d) (boot c (leaf_of p qty))
unfolding boot
boot-Post p qty c = Post->>= (Post-eq (remove_max c.asks)) λ r _.
    Post->>= (Post-unwrap r) λ removed _.
      let c₀ = record c { asks = removed.1 } in
      let same : Same c c₀ = record { proceeds = refl; market_state = refl } in
      Post->>= (push_event-Same c₀ _) λ c₁ s.
        Post->>= (Post-eq (insert_leaf c₁.asks (leaf_of p qty))) λ i.
          elim i.0
            as (λ k.
              insert_leaf c₁.asks (leaf_of p qty) ≡ ok (k, i.1)
              → Post (λ d. Same c d × IsPosted p qty d)
                  (elim k [
                    | out_of_space ↦ panic
                    | inserted _ _ ↦ ok (record c₁ { asks = i.1 })
                  ])) [
                    | out_of_space ↦ λ e. panics
                    | inserted h old ↦ λ e.
                        let t = Same-trans c c₀ c₁ same s in
                        returns (
                          record { proceeds = t.proceeds; market_state = t.market_state },
                          (c₁.asks, h, old, e),
                        )
                  ]

pub post-Post :
    (p : NewAskParams) (qty : ℕ) (c : Context)
    → Post (λ d. Same c d × IsPosted p qty d) (post p qty c)
unfolding post
post-Post p qty c = Post->>= (Post-eq (insert_leaf c.asks (leaf_of p qty))) λ i.
    let c₁ = record c { asks = i.1 } in
    let same : Same c c₁ = record { proceeds = refl; market_state = refl } in
    elim i.0
      as (λ k.
        insert_leaf c.asks (leaf_of p qty) ≡ ok (k, i.1)
        → Post (λ d. Same c d × IsPosted p qty d)
            (elim k [ out_of_space ↦ boot c₁ (leaf_of p qty) | inserted _ _ ↦ ok c₁ ])) [
              | out_of_space ↦
                  λ e. Post-imp (boot-Post p qty c₁) (λ d q. (Same-trans c c₁ d same q.0, q.1))
              | inserted h old ↦ λ e. returns (same, (c.asks, h, old, e))
            ]

pub release-Post :
    (p : NewAskParams) (qty : ℕ) (c : Context)
    → Post (λ d. Moves c d (unlocking qty)) (release p qty c)
unfolding release
release-Post p qty c = Post->>= (unlock_coin-Moves c qty) λ c₁ m.
    Post-imp (push_event-Same c₁ _) λ d s.
      let z = Same-Adds c₁ d s in
      let a = m.adds in
      record { adds = omega arith; market_state = s.market_state ∙ m.market_state }

mul_mono : (a b n : ℕ) → a ≤ b → a * n ≤ b * n
mul_mono a b n h = grind arith

moved_filled :
    (p : NewAskParams) (f : Filled) (c c' : Context) → Same c c' → IsFilled p c f → IsFilled p c' f
moved_filled p f c c' same filled = record {
  unfilled = filled.unfilled;
  price = filled.price;
  worth = rw (same.market_state) filled.worth;
}

-- The parts of a round that `AskSpec` is put together from.
module _ (p : NewAskParams) (c c' : Context) (f : Filled) (same : Same c c') where
  abbrev worth_of : ℕ
  worth_of = f.accum_fill_price * c'.market_state.pc_lot_size

  Settled-market :
      {d : Context}
      → Settled p c' f d
      → d.market_state
        ≡ charged c.market_state (taker_fee p.fee_tier worth_of) f.accum_maker_rebates
  Settled-market s =
      s.1
      ∙ ap (λ m. charged m (taker_fee p.fee_tier worth_of) f.accum_maker_rebates) same.market_state

  paid_lem :
      IsFilled p c f
      → (p.max_qty - f.unfilled_qty) * p.limit_price * c.market_state.pc_lot_size ≤ worth_of
  paid_lem filled =
      rw (same.market_state) (mul_mono _ f.accum_fill_price c.market_state.pc_lot_size filled.price)

  fits_lem : IsFilled p c f → IsU64 worth_of
  fits_lem filled = rw (same.market_state) filled.worth

  -- Nothing posted: the rest of the order is unlocked or remains.
  spec_unposted :
      (o : Option OrderRemaining) (u : ℕ) (c₁ d : Context)
      → IsFilled p c f
      → Settled p c' f c₁
      → Moves c₁ d (unlocking u)
      → u + lots_of o ≡ f.unfilled_qty
      → AskSpec p c o d
  spec_unposted o u c₁ d filled s m e =
      let z = Same-Adds c c' same in
      let a = s.0 in
      let b = m.adds in
      record {
        traded = p.max_qty - f.unfilled_qty;
        unlocked = u;
        posted = 0;
        worth = worth_of;
        lots = omega (arith, filled.unfilled);
        paid = paid_lem filled;
        fits = fits_lem filled;
        adds = omega arith;
        market = inr (f.accum_maker_rebates, m.market_state ∙ Settled-market s);
        book = inl refl;
      }

  spec_posted :
      (c₁ d : Context)
      → IsFilled p c f
      → Settled p c' f c₁
      → Same c₁ d
      → IsPosted p f.unfilled_qty d
      → NoBidAt p c
      → p.post_allowed ≡ true
      → AskSpec p c none d
  spec_posted c₁ d filled s t placed clear allowed =
      let z = Same-Adds c c' same in
      let a = s.0 in
      let b = Same-Adds c₁ d t in
      record {
        traded = p.max_qty - f.unfilled_qty;
        unlocked = 0;
        posted = f.unfilled_qty;
        worth = worth_of;
        lots = omega (arith, filled.unfilled);
        paid = paid_lem filled;
        fits = fits_lem filled;
        adds = omega arith;
        market = inr (f.accum_maker_rebates, t.market_state ∙ Settled-market s);
        book = inr (placed, clear, allowed, refl);
      }

finish-Post :
    (p : NewAskParams) (done crossed : Bool) (f : Filled) (c c' : Context)
    → IsU64 p.max_qty
    → Same c c'
    → IsFilled p c f
    → (crossed ≡ false → NoBidAt p c)
    → Post (λ r. AskSpec p c r.0 r.1) (finish p done crossed f c')
unfolding finish
finish-Post p done crossed f c c' small same filled clear =
    Post->>= (settle-Post p f c' small (moved_filled p f c c' same filled)) λ c₁ s.
      Post-if (not done && ltb 0 f.unfilled_qty)
        (λ _. returns (
          spec_unposted p c c' f same (remaining_lots f.unfilled_qty) 0 c₁ c₁ filled s
            (Same-Moves c₁ c₁ (Same-refl c₁))
            (omega (arith, lots_of-remaining_lots f.unfilled_qty))))
        λ _.
          Post->>= {P = λ d. AskSpec p c none d}
            (Post-if (p.post_allowed && (not crossed && ltb 0 f.unfilled_qty))
              (λ t. Post-imp (post-Post p f.unfilled_qty c₁) λ d q.
                spec_posted p c c' f same c₁ d filled s q.0 q.1 (clear (ground arith))
                  (ground arith))
              (λ _. Post-imp (release-Post p f.unfilled_qty c₁) λ d m.
                spec_unposted p c c' f same none f.unfilled_qty c₁ d filled s m (omega arith)))
            λ d spec. returns spec

new_ask-Post :
    (p : NewAskParams) (c : Context)
    → IsU64 p.max_qty
    → Funded c
    → Post (λ r. AskSpec p c r.0 r.1) (new_ask p c)
unfolding new_ask
new_ask-Post p c small funded = Post->>= (round-Post p c small funded) (elim [
  | returned o d ↦ λ (u, m, e). returns (record {
    traded = 0;
    unlocked = u;
    posted = 0;
    worth = 0;
    lots = omega arith;
    paid = omega arith;
    fits = omega arith;
    adds = let a = m.adds in omega arith;
    market = inl m.market_state;
    book = inl refl;
  })
  | broke done crossed f d ↦
      λ (same, filled, clear). finish-Post p done crossed f c d small same filled clear
])

-- A round of an order that sells, for a `u64` quantity and bids that are worth what their owners
-- have locked, ends as `AskSpec` says whenever it succeeds.
pub new_ask_lem :
    (p : NewAskParams) (c : Context) (o : Option OrderRemaining) (d : Context)
    → IsU64 p.max_qty
    → Funded c
    → new_ask p c ≡ ok (o, d)
    → AskSpec p c o d
new_ask_lem p c o d small funded e = Post-ok (new_ask-Post p c small funded) e
