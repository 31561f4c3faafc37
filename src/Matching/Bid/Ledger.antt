-- ===== src/Matching/Bid/Ledger.antt =====
-- What `new_bid` of dex/src/matching.rs does to the market, whatever the book and the order are.
use Prim.Native.Nat.{min}
use openbook_dex.Prelude.{
  ℕ, true, false, ◌≡◌, refl, ◌∙◌, Bool, not, ◌||◌, ◌&&◌, none, some, ltb, ◌==◌, arith, sub64, IsU64,
  add64-lt,
}
use openbook_dex.Error.{ok, check_assert, matching}
use openbook_dex.Types.{ask}
use openbook_dex.Fees.{taker_fee, remove_taker_fee}
use openbook_dex.Critbit.Node.{LeafNode, leaf_price}
use openbook_dex.Market.{MarketState}
use openbook_dex.Matching.State.{Round, Context, returned, broke, find_bbo, leaf_at}
use openbook_dex.Matching.Post.{
  Post, returns, Post->>=, Post-if, Post-eq, Post-imp, Same, Same-refl, push_event-Same,
  set_quantity-Same, remove_order-Same,
}
use openbook_dex.Matching.Proceeds.{
  unlock_native_pc-Moves, credit_coin-Moves, debit_native_pc-Moves,
}
use openbook_dex.Matching.Ledger.{
  IsBalanced, IsBalanced-eq, IsBalanced-trans, IsKeptBy, charged-IsBalanced, taker_fee-IsU64,
}
use openbook_dex.Matching.Bid.{
  NewBidParams, Bought, new_bid, against, round, settle, finish, release, cancelled, self_trade,
  untouched, crosses, div64, is_some, accum_fill, pc_left, to_post,
}
use openbook_dex.Matching.Bid.Money.{trade-Post}
use openbook_dex.Matching.Bid.Rest.{post-Post}

self_trade-Kept :
    (p : NewBidParams) (c : Context) (h : ℕ) (l : LeafNode) (price qty : ℕ)
    → Post (λ r. (r.1).market_state ≡ c.market_state) (self_trade p c h l price qty)
unfolding self_trade
self_trade-Kept p c h l price qty =
    Post->>= (Post-eq (cancelled p.self_trade_behavior l.quantity qty)) λ q _.
      Post->>= (push_event-Same c _) λ c₁ s₁.
        Post->>= {P = Same c₁}
          (Post-if (sub64 l.quantity q.1 == 0) (λ _. remove_order-Same c₁ ask l.key)
            (λ _. set_quantity-Same c₁ ask h l (sub64 l.quantity q.1)))
          λ c₂ s₂. Post->>= (unlock_native_pc-Moves c₂ _) λ c₃ m.
            Post->>= (push_event-Same c₃ _) λ c₄ s₃.
              returns (s₃.market_state ∙ m.market_state ∙ s₂.market_state ∙ s₁.market_state)

abbrev IsKept : MarketState → Round Bought → Type 0
IsKept = IsKeptBy (λ f. f.accum_maker_rebates)

-- A round that does not trade.
halted :
    (p : NewBidParams) (c : Context) (max_pc_qty : ℕ) (crossed : Bool)
    → Post (IsKept c.market_state) (ok (broke true crossed (untouched p max_pc_qty) c))
halted p c max_pc_qty crossed =
    returns {a = broke true crossed (untouched p max_pc_qty) c} (refl, omega arith)

against-Kept :
    (p : NewBidParams) (c : Context) (max_pc_qty h : ℕ) (l : LeafNode)
    → Post (IsKept c.market_state) (against p c max_pc_qty h l)
unfolding against
against-Kept p c max_pc_qty h l = Post->>= (Post-eq (leaf_price l)) λ price _.
    let crossed = crosses p.limit_price price in
    Post-if (not crossed || p.post_only) (λ _. halted p c max_pc_qty crossed)
      λ _. Post->>= (Post-eq (div64 max_pc_qty price)) λ affordable _.
        Post-if (min (min l.quantity p.max_coin_qty) affordable == 0)
          (λ _. halted p c max_pc_qty crossed)
          λ _.
            Post-if (p.owner == l.owner)
              (λ _. Post->>= (self_trade-Kept p c h l price _) λ r e. returns e)
              (λ _. Post->>= (trade-Post p c max_pc_qty h l price _) λ r q.
                returns {a = broke false crossed r.0 r.1}
                  (q.0.market_state, (rw (q.1.1.2) (add64-lt 0 _))))

round-Kept :
    (p : NewBidParams) (c : Context) (max_pc_qty : ℕ)
    → Post (IsKept c.market_state) (round p c max_pc_qty)
unfolding round
round-Kept p c max_pc_qty = Post->>= (Post-eq (find_bbo c ask)) (elim [
  | none ↦ λ _. halted p c max_pc_qty false
  | some h ↦ λ _. Post->>= (Post-eq (leaf_at c ask h)) λ l _. against-Kept p c max_pc_qty h l
])

settle-IsBalanced :
    (p : NewBidParams) (max_pc_qty : ℕ) (b : Bought) (c : Context)
    → IsU64 b.accum_maker_rebates
    → Post (λ d. IsBalanced c.market_state d.market_state) (settle p max_pc_qty b c)
unfolding settle
settle-IsBalanced p max_pc_qty b c small =
    let worth = accum_fill c max_pc_qty b in
    let fee = taker_fee p.fee_tier worth in
    Post->>= (credit_coin-Moves c _) λ c₁ m₁. Post->>= (debit_native_pc-Moves c₁ _) λ c₂ m₂.
      Post->>= {P = Same c₂}
        (Post-if (ltb 0 worth) (λ _. push_event-Same c₂ _) (λ _. returns (Same-refl c₂)))
        λ c₃ s. returns (
          IsBalanced-trans _ c₃.market_state _
            (IsBalanced-eq _ _ (s.market_state ∙ m₂.market_state ∙ m₁.market_state))
            (charged-IsBalanced c₃.market_state fee b.accum_maker_rebates (taker_fee-IsU64 _ _)
              small))

release-Kept :
    (p : NewBidParams) (pc qty kept : ℕ) (c : Context)
    → Post (λ d. d.market_state ≡ c.market_state) (release p pc qty kept c)
unfolding release
release-Kept p pc qty kept c = Post->>= (unlock_native_pc-Moves c _) λ c₁ m.
    Post->>= (push_event-Same c₁ _) λ c₂ s.
      Post-if (ltb 0 kept)
        (λ _.
          Post-imp (post-Post p qty c₂) λ d q. q.0.market_state ∙ s.market_state ∙ m.market_state)
        (λ _. returns (s.market_state ∙ m.market_state))

finish-IsBalanced :
    (p : NewBidParams) (max_pc_qty : ℕ) (done crossed : Bool) (b : Bought) (c : Context)
    → IsU64 b.accum_maker_rebates
    → Post
        (λ r. IsBalanced c.market_state (r.1).market_state)
        (finish p max_pc_qty done crossed b c)
unfolding finish
finish-IsBalanced p max_pc_qty done crossed b c small =
    let left = pc_left p c max_pc_qty b in
    Post->>= (settle-IsBalanced p max_pc_qty b c small) λ c₁ e.
      Post-if (not done && (ltb 0 b.coin_qty_remaining && ltb 0 left)) (λ _. returns e)
        λ _. Post->>= (Post-eq (to_post p c₁ crossed b.coin_qty_remaining left)) λ q _.
          Post->>= (release-Kept p left q.0 q.1 c₁)
            λ d k. returns (IsBalanced-trans _ c₁.market_state _ e (IsBalanced-eq _ _ k))

pub new_bid-IsBalanced :
    (p : NewBidParams) (c : Context)
    → Post (λ r. IsBalanced c.market_state (r.1).market_state) (new_bid p c)
unfolding new_bid
new_bid-IsBalanced p c =
    Post->>= (Post-eq (check_assert matching 631 (not p.post_allowed || is_some p.limit_price)))
      λ _ _. Post->>= (Post-eq (remove_taker_fee p.fee_tier p.native_pc_qty_locked)) λ spendable _.
        Post->>= (Post-eq (div64 spendable c.market_state.pc_lot_size)) λ max_pc_qty _.
          Post->>= (round-Kept p c max_pc_qty) (elim [
            | returned o d ↦ λ e. returns (IsBalanced-eq _ _ e)
            | broke done crossed b d ↦
                λ (e, small). rw (← e) (finish-IsBalanced p max_pc_qty done crossed b d small)
          ])
