-- ===== src/Matching/Bid/Book.antt =====
-- The two sides of the book in a round of `new_bid` of dex/src/matching.rs.
use Prim.Native.Nat.{min}
use openbook_dex.Prelude.{
  ℕ, ◌≤◌, ◌<◌, ◌≡◌, refl, sym, subst, inl, inr, Bool, true, false, not, ◌&&◌, ◌||◌, Option, none,
  some, ltb, ◌==◌, arith, sub64, u128_mod,
}
use openbook_dex.Error.{ok, check_assert, matching}
use openbook_dex.Fees.{remove_taker_fee}
use openbook_dex.Types.{ask}
use openbook_dex.Critbit.Node.{LeafNode, new_leaf, leaf_fee_tier}
use openbook_dex.Critbit.Alloc.{Slab}
use openbook_dex.Critbit.Insert.{Inserted, out_of_space, inserted}
use openbook_dex.Critbit.Trie.{All-imp}
use openbook_dex.Matching.State.{Context, Round, returned, broke}
use openbook_dex.Matching.Post.{Post, returns, Post->>=, Post-if, Post-eq}
use openbook_dex.Matching.Book.{price, IsBook, HasBook, remove_order-HasBook, MayBuy}
use openbook_dex.Matching.Best.{
  BestOffer, BestOffer-price, find_bbo-BestOffer, leaf_price-price, set_quantity-ask, SameBook,
  SameBook-refl, SameBook-trans, carry, push_event-SameBook, unlock_native_pc-SameBook,
  credit_coin-SameBook, debit_native_pc-SameBook,
}
use openbook_dex.Matching.Entry.{insert_leaf-bid, boot-bid}
use openbook_dex.Matching.Bid.{
  NewBidParams, Bought, cancelled, self_trade, trade, against, round, settle, boot, post, release,
  finish, new_bid, crosses, div64, accum_fill, pc_left, to_post_at, is_some,
}

-- A book whose offers are above the limit price, if there is one.
abbrev MayPost : Option ℕ → Slab → Slab → Type 0
MayPost limit bids asks = (n : ℕ) → limit ≡ some n → MayBuy n bids asks

-- What a round ends with: where it was not crossed, all the offers are above the limit.
abbrev RoundBook : NewBidParams → Round Bought → Type 0
RoundBook p (returned o d) = HasBook d
RoundBook p (broke done crossed f d) =
    HasBook d × (crossed ≡ false → MayPost p.limit_price d.bids d.asks)

module _ (p : NewBidParams) (c : Context) (h : ℕ) (l : LeafNode) where
  self_trade-HasBook :
      (trade_price trade_qty : ℕ)
      → BestOffer h l c.bids c.asks
      → Post (λ r. HasBook r.1) (self_trade p c h l trade_price trade_qty)
  unfolding self_trade
  self_trade-HasBook trade_price trade_qty b =
      Post->>= (Post-eq (cancelled p.self_trade_behavior l.quantity trade_qty)) λ qty _.
        Post->>= (push_event-SameBook c _) λ c₁ s₁.
          Post->>=
            (Post-if (sub64 l.quantity qty.1 == 0)
              (λ _. remove_order-HasBook c₁ ask l.key (carry IsBook s₁ b.book))
              (λ _. set_quantity-ask c₁ h (sub64 l.quantity qty.1) l (carry (BestOffer h l) s₁ b)))
            λ c₂ b₂. Post->>= (unlock_native_pc-SameBook c₂ _) λ c₃ s₃.
              Post->>= (push_event-SameBook c₃ _)
                λ c₄ s₄. returns (carry IsBook s₄ (carry IsBook s₃ b₂))

  trade-HasBook :
      (max_pc_qty trade_price trade_qty : ℕ)
      → BestOffer h l c.bids c.asks
      → Post (λ r. HasBook r.1) (trade p c max_pc_qty h l trade_price trade_qty)
  unfolding trade
  trade-HasBook max_pc_qty trade_price trade_qty b = Post->>= (Post-eq (leaf_fee_tier l)) λ tier _.
      Post->>= (push_event-SameBook c _) λ c₁ s₁.
        Post->>= (set_quantity-ask c₁ h (sub64 l.quantity trade_qty) l (carry (BestOffer h l) s₁ b))
          λ c₂ b₂.
            Post->>=
              (Post-if (sub64 l.quantity trade_qty == 0)
                (λ _.
                  Post->>= (push_event-SameBook c₂ _)
                    λ c₃ s₃. remove_order-HasBook c₃ ask l.key (carry IsBook s₃ b₂))
                (λ _. returns b₂))
              λ c₄ b₄. returns b₄

  below_best :
      (trade_price : ℕ)
      → BestOffer h l c.bids c.asks
      → trade_price ≡ price l.key
      → crosses p.limit_price trade_price ≡ false
      → MayPost p.limit_price c.bids c.asks
  below_best trade_price b e f n at =
      let not_reached : crosses (some n) trade_price ≡ false =
        subst (λ o. crosses o trade_price ≡ false) at f in
      (
        b.book,
        All-imp (λ o. price l.key ≤ price o.key) (λ o. n < price o.key) (b.book).sells
            (λ o le. ground arith) (BestOffer-price h l c.bids c.asks b),
      )

  against-RoundBook :
      (max_pc_qty : ℕ)
      → BestOffer h l c.bids c.asks
      → Post (RoundBook p) (against p c max_pc_qty h l)
  unfolding against
  against-RoundBook max_pc_qty b = Post->>= (leaf_price-price l) λ trade_price e.
      let below = below_best trade_price b e in
      let crossed = crosses p.limit_price trade_price in
      Post-if (not crossed || p.post_only) (λ _. returns (b.book, below))
        (λ reached. Post->>= (Post-eq (div64 max_pc_qty trade_price)) λ affordable _.
          Post-if (min (min l.quantity p.max_coin_qty) affordable == 0)
            (λ _. returns (b.book, below))
            (λ _.
              Post-if (p.owner == l.owner)
                (λ _. Post->>= (self_trade-HasBook trade_price _ b) λ r k. returns k)
                (λ _.
                  Post->>= (trade-HasBook max_pc_qty trade_price _ b)
                    λ r k. returns (k, λ f. absurd (ground arith)))))

round-RoundBook :
    (p : NewBidParams) (c : Context) (max_pc_qty : ℕ)
    → HasBook c
    → Post (RoundBook p) (round p c max_pc_qty)
unfolding round
round-RoundBook p c max_pc_qty book = elim (find_bbo-BestOffer c book) [
  | inl (e, empty) ↦
      let clear : MayPost p.limit_price c.bids c.asks = λ n at. (book, rw empty tt) in
      rw e (returns (book, λ _. clear))
  | inr (h, l, e, read, b) ↦ rw (e, read) (against-RoundBook p c h l max_pc_qty b)
]

settle-SameBook :
    (p : NewBidParams) (max_pc_qty : ℕ) (b : Bought) (c : Context)
    → Post (SameBook c) (settle p max_pc_qty b c)
unfolding settle
settle-SameBook p max_pc_qty b c = Post->>= (credit_coin-SameBook c _) λ c₁ s₁.
    Post->>= (debit_native_pc-SameBook c₁ _) λ c₂ s₂.
      Post->>=
        (Post-if (ltb 0 (accum_fill c max_pc_qty b)) (λ _. push_event-SameBook c₂ _)
          (λ _. returns (SameBook-refl c₂)))
        λ c₃ s₃. returns (
          SameBook-trans c c₁ _ s₁ (
            SameBook-trans c₁ c₂ _ s₂
              (record { same_bids = s₃.same_bids; same_asks = s₃.same_asks })))

-- Lots are kept for posting only where the order has a limit price and was not crossed.
Postable : NewBidParams → Bool → ℕ × ℕ → Type 0
Postable p crossed q = ltb 0 q.1 ≡ true → (crossed ≡ false) × (n : ℕ) × (p.limit_price ≡ some n)

to_post_at-Postable :
    (p : NewBidParams) (c : Context) (crossed : Bool) (coin pc : ℕ) (limit : Option ℕ)
    → p.limit_price ≡ limit
    → Post (Postable p crossed) (to_post_at p c crossed coin pc limit)
unfolding to_post_at Postable
to_post_at-Postable p c crossed coin pc none at = returns (λ f. absurd (ground arith))
to_post_at-Postable p c crossed coin pc (some n) at =
    Post-if (p.post_allowed && not crossed)
      (λ t. Post->>= (Post-eq (div64 pc c.market_state.pc_lot_size)) λ lots _.
        Post->>= (Post-eq (div64 lots n)) λ affordable _. returns (λ f. (ground arith, n, at)))
      (λ _. returns (λ f. absurd (ground arith)))

module _ (p : NewBidParams) (word : p.order_id < u128_mod)
    (priced : (n : ℕ) → p.limit_price ≡ some n → price p.order_id ≡ n) where
  posted :
      (c : Context) (l : LeafNode) (i : Inserted × Slab)
      → l.key ≡ p.order_id
      → MayBuy (price l.key) i.1 c.asks
      → Post HasBook (
          let c₁ = record c { bids = i.1 } in
          elim i.0 [ out_of_space ↦ boot c₁ l | inserted _ _ ↦ ok c₁ ])
  posted c l (out_of_space, u) same m = boot-bid (record c { bids = u }) l m (omega arith)
  posted c l (inserted h o, u) same m = returns m.0

  post-HasBook :
      (qty n : ℕ) (c : Context)
      → p.limit_price ≡ some n
      → MayBuy n c.bids c.asks
      → Post HasBook (post p qty c)
  unfolding post new_leaf
  post-HasBook qty n c at m =
      let l = new_leaf p.owner_slot p.order_id p.owner qty p.fee_tier p.client_order_id in
      let ready = subst (λ n. MayBuy n c.bids c.asks) (sym (priced n at)) m in
      Post->>= (insert_leaf-bid c.bids c.asks l ready word) λ i k. posted c l i refl k

  release-HasBook :
      (left : ℕ) (crossed : Bool) (q : ℕ × ℕ) (c : Context)
      → HasBook c
      → (crossed ≡ false → MayPost p.limit_price c.bids c.asks)
      → Postable p crossed q
      → Post HasBook (release p left q.0 q.1 c)
  unfolding release Postable
  release-HasBook left crossed q c book clear postable =
      Post->>= (unlock_native_pc-SameBook c _) λ c₁ s₁. Post->>= (push_event-SameBook c₁ _) λ c₂ s₂.
        Post-if (ltb 0 q.1)
          (λ t.
            (let (f, n, at) = postable t in
              post-HasBook q.0 n c₂ at (carry (MayBuy n) s₂ (carry (MayBuy n) s₁ (clear f n at)))))
          (λ _. returns (carry IsBook s₂ (carry IsBook s₁ book)))

  finish-HasBook :
      (max_pc_qty : ℕ) (done crossed : Bool) (b : Bought) (c : Context)
      → RoundBook p (broke done crossed b c)
      → Post (λ r. HasBook r.1) (finish p max_pc_qty done crossed b c)
  unfolding finish
  finish-HasBook max_pc_qty done crossed b c (book, clear) =
      let left = pc_left p c max_pc_qty b in
      Post->>= (settle-SameBook p max_pc_qty b c) λ c₁ s.
        Post-if (not done && (ltb 0 b.coin_qty_remaining && ltb 0 left))
          (λ _. returns (carry IsBook s book))
          (λ _.
            Post->>= (to_post_at-Postable p c₁ crossed b.coin_qty_remaining left p.limit_price refl)
              λ q postable.
                Post->>=
                  (release-HasBook left crossed q c₁ (carry IsBook s book)
                    (λ f n at. carry (MayBuy n) s (clear f n at)) postable)
                  λ d k. returns k)

  pub new_bid-HasBook : (c : Context) → HasBook c → Post (λ r. HasBook r.1) (new_bid p c)
  unfolding new_bid
  new_bid-HasBook c book =
      Post->>= (Post-eq (check_assert matching 631 (not p.post_allowed || is_some p.limit_price)))
        λ _ _.
          Post->>= (Post-eq (remove_taker_fee p.fee_tier p.native_pc_qty_locked)) λ spendable _.
            Post->>= (Post-eq (div64 spendable c.market_state.pc_lot_size)) λ max_pc_qty _.
              Post->>= (round-RoundBook p c max_pc_qty book) (elim [
                | returned o d ↦ λ k. returns k
                | broke done crossed b d ↦ λ k. finish-HasBook max_pc_qty done crossed b d k
              ])
