-- ===== src/Matching/Ask/Ledger.antt =====
-- What `new_ask` of dex/src/matching.rs does to the market, whatever the book and the order are.
use Prim.Native.Nat.{min}
use openbook_dex.Prelude.{
  ℕ, true, false, ◌≡◌, refl, ◌∙◌, Bool, not, ◌||◌, ◌&&◌, none, some, ltb, leb, ◌==◌, arith, sub64,
  mul64, IsU64, add64-lt,
}
use openbook_dex.Error.{ok}
use openbook_dex.Types.{bid}
use openbook_dex.Fees.{taker_fee}
use openbook_dex.Critbit.Node.{LeafNode, leaf_price}
use openbook_dex.Market.{MarketState}
use openbook_dex.Matching.State.{Round, Context, returned, broke, find_bbo, leaf_at}
use openbook_dex.Matching.Post.{
  Post, returns, Post->>=, Post-if, Post-eq, Post-imp, Same, Same-refl, push_event-Same,
  set_quantity-Same, remove_order-Same,
}
use openbook_dex.Matching.Proceeds.{unlock_coin-Moves, credit_native_pc-Moves, debit_coin-Moves}
use openbook_dex.Matching.Ledger.{
  IsBalanced, IsBalanced-eq, IsBalanced-trans, IsKeptBy, charged-IsBalanced, taker_fee-IsU64,
}
use openbook_dex.Matching.Ask.{
  NewAskParams, Filled, new_ask, against, round, settle, finish, cancelled, self_trade, untouched,
}
use openbook_dex.Matching.Ask.Lots.{trade-Post}
use openbook_dex.Matching.Ask.Spec.{post-Post, release-Post}

self_trade-Kept :
    (p : NewAskParams) (c : Context) (h : ℕ) (l : LeafNode) (price qty : ℕ)
    → Post (λ r. (r.1).market_state ≡ c.market_state) (self_trade p c h l price qty)
unfolding self_trade
self_trade-Kept p c h l price qty =
    Post->>= (Post-eq (cancelled p.self_trade_behavior l.quantity qty)) λ q _.
      Post->>= (push_event-Same c _) λ c₁ s₁.
        Post->>= {P = Same c₁}
          (Post-if (sub64 l.quantity q.0 == 0) (λ _. remove_order-Same c₁ bid l.key)
            (λ _. set_quantity-Same c₁ bid h l (sub64 l.quantity q.0)))
          λ c₂ s₂. Post->>= (push_event-Same c₂ _) λ c₃ s₃.
            Post->>= (unlock_coin-Moves c₃ q.1)
              λ c₄ m. returns (m.market_state ∙ s₃.market_state ∙ s₂.market_state ∙ s₁.market_state)

abbrev IsKept : MarketState → Round Filled → Type 0
IsKept = IsKeptBy (λ f. f.accum_maker_rebates)

-- A round that does not trade.
halted :
    (p : NewAskParams) (c : Context) (crossed : Bool)
    → Post (IsKept c.market_state) (ok (broke true crossed (untouched p) c))
halted p c crossed = returns {a = broke true crossed (untouched p) c} (refl, omega arith)

against-Kept :
    (p : NewAskParams) (c : Context) (h : ℕ) (l : LeafNode)
    → Post (IsKept c.market_state) (against p c h l)
unfolding against
against-Kept p c h l = Post->>= (Post-eq (leaf_price l)) λ price _.
    let crossed = leb p.limit_price price in
    Post-if (not crossed || p.post_only) (λ _. halted p c crossed)
      λ _.
        Post-if (min l.quantity p.max_qty == 0) (λ _. halted p c crossed)
          λ _.
            Post-if (p.owner == l.owner)
              (λ _. Post->>= (self_trade-Kept p c h l price _) λ r e. returns e)
              (λ _. Post->>= (trade-Post p c h l price _) λ r q.
                returns {a = broke false crossed r.0 r.1}
                  (q.0.market_state, (rw (q.1.1.2) (add64-lt 0 _))))

round-Kept : (p : NewAskParams) (c : Context) → Post (IsKept c.market_state) (round p c)
unfolding round
round-Kept p c = Post->>= (Post-eq (find_bbo c bid)) (elim [
  | none ↦ λ _. halted p c false
  | some h ↦ λ _. Post->>= (Post-eq (leaf_at c bid h)) λ l _. against-Kept p c h l
])

settle-IsBalanced :
    (p : NewAskParams) (f : Filled) (c : Context)
    → IsU64 f.accum_maker_rebates
    → Post (λ d. IsBalanced c.market_state d.market_state) (settle p f c)
unfolding settle
settle-IsBalanced p f c small =
    let worth = mul64 f.accum_fill_price c.market_state.pc_lot_size in
    let fee = taker_fee p.fee_tier worth in
    Post->>= (credit_native_pc-Moves c _) λ c₁ m₁. Post->>= (debit_coin-Moves c₁ _) λ c₂ m₂.
      Post->>= {P = Same c₂}
        (Post-if (ltb 0 worth) (λ _. push_event-Same c₂ _) (λ _. returns (Same-refl c₂)))
        λ c₃ s. returns (
          IsBalanced-trans _ c₃.market_state _
            (IsBalanced-eq _ _ (s.market_state ∙ m₂.market_state ∙ m₁.market_state))
            (charged-IsBalanced c₃.market_state fee f.accum_maker_rebates (taker_fee-IsU64 _ _)
              small))

finish-IsBalanced :
    (p : NewAskParams) (done crossed : Bool) (f : Filled) (c : Context)
    → IsU64 f.accum_maker_rebates
    → Post (λ r. IsBalanced c.market_state (r.1).market_state) (finish p done crossed f c)
unfolding finish
finish-IsBalanced p done crossed f c small = Post->>= (settle-IsBalanced p f c small) λ c₁ b.
    Post-if (not done && ltb 0 f.unfilled_qty) (λ _. returns b)
      λ _.
        Post->>= {P = λ d. d.market_state ≡ c₁.market_state}
          (Post-if (p.post_allowed && (not crossed && ltb 0 f.unfilled_qty))
            (λ _. Post-imp (post-Post p f.unfilled_qty c₁) λ d q. q.0.market_state)
            (λ _. Post-imp (release-Post p f.unfilled_qty c₁) λ d m. m.market_state))
          λ d e. returns (IsBalanced-trans _ c₁.market_state _ b (IsBalanced-eq _ _ e))

pub new_ask-IsBalanced :
    (p : NewAskParams) (c : Context)
    → Post (λ r. IsBalanced c.market_state (r.1).market_state) (new_ask p c)
unfolding new_ask
new_ask-IsBalanced p c = Post->>= (round-Kept p c) (elim [
  | returned o d ↦ λ e. returns (IsBalanced-eq _ _ e)
  | broke done crossed f d ↦ λ (e, small). rw (← e) (finish-IsBalanced p done crossed f d small)
])
