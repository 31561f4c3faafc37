-- ===== src/Matching/Bid/PostOnly.antt =====
-- A round of `new_bid` (dex/src/matching.rs) that may only post.
use openbook_dex.Prelude.{ℕ, ◌≡◌, refl, Bool, true, not, ◌||◌, none, some, arith}
use openbook_dex.Error.{check_assert, matching}
use openbook_dex.Fees.{remove_taker_fee}
use openbook_dex.Types.{ask}
use openbook_dex.Critbit.Node.{LeafNode, leaf_price}
use openbook_dex.Matching.State.{Context, returned, broke, find_bbo, leaf_at}
use openbook_dex.Matching.Post.{Post, returns, Post->>=, Post-if, Post-eq, IsDone, IsDrained}
use openbook_dex.Matching.Bid.{
  NewBidParams, Bought, new_bid, is_some, crosses, div64, against, round, settle, finish, to_post,
  release, pc_left,
}

against-IsDone :
    (p : NewBidParams) (c : Context) (max_pc_qty h : ℕ) (l : LeafNode)
    → p.post_only ≡ true
    → Post IsDone (against p c max_pc_qty h l)
unfolding against
against-IsDone p c max_pc_qty h l e = Post->>= (Post-eq (leaf_price l)) λ price _.
    Post-if (not (crosses p.limit_price price) || p.post_only) (λ _. returns refl)
      (λ f. absurd (ground arith))

round-IsDone :
    (p : NewBidParams) (c : Context) (max_pc_qty : ℕ)
    → p.post_only ≡ true
    → Post IsDone (round p c max_pc_qty)
unfolding round
round-IsDone p c max_pc_qty e = Post->>= (Post-eq (find_bbo c ask)) (elim [
  | none ↦ λ _. returns refl
  | some h ↦ λ _. Post->>= (Post-eq (leaf_at c ask h)) λ l _. against-IsDone p c max_pc_qty h l e
])

finish-IsDrained :
    (p : NewBidParams) (max_pc_qty : ℕ) (crossed : Bool) (b : Bought) (c : Context)
    → Post IsDrained (finish p max_pc_qty true crossed b c)
unfolding finish
finish-IsDrained p max_pc_qty crossed b c =
    let left = pc_left p c max_pc_qty b in
    Post->>= (Post-eq (settle p max_pc_qty b c)) λ c₁ _.
      Post->>= (Post-eq (to_post p c₁ crossed b.coin_qty_remaining left))
        λ q _. Post->>= (Post-eq (release p left q.0 q.1 c₁)) λ d _. returns refl

-- A round that may only post leaves nothing of the order.
pub new_bid-IsDrained :
    (p : NewBidParams) (c : Context) → p.post_only ≡ true → Post IsDrained (new_bid p c)
unfolding new_bid
new_bid-IsDrained p c e =
    Post->>= (Post-eq (check_assert matching 631 (not p.post_allowed || is_some p.limit_price)))
      λ _ _. Post->>= (Post-eq (remove_taker_fee p.fee_tier p.native_pc_qty_locked)) λ spendable _.
        Post->>= (Post-eq (div64 spendable c.market_state.pc_lot_size)) λ max_pc_qty _.
          Post->>= (round-IsDone p c max_pc_qty e) (elim [
            | returned o d ↦ λ f. absurd (cc)
            | broke done crossed b d ↦ λ f. rw f (finish-IsDrained p max_pc_qty crossed b d)
          ])
