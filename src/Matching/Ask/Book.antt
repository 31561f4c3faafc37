-- ===== src/Matching/Ask/Book.antt =====
-- The two sides of the book in a round of `new_ask` of dex/src/matching.rs.
use Prim.Native.Nat.{min}
use openbook_dex.Prelude.{
  ℕ, ◌≤◌, ◌<◌, ◌≡◌, refl, sym, subst, inl, inr, Bool, false, not, ◌&&◌, ◌||◌, ltb, leb, ◌==◌, arith,
  sub64, mul64, u128_mod,
}
use openbook_dex.Error.{ok}
use openbook_dex.Types.{bid}
use openbook_dex.Critbit.Node.{LeafNode, new_leaf, leaf_fee_tier}
use openbook_dex.Critbit.Alloc.{Slab}
use openbook_dex.Critbit.Insert.{Inserted, out_of_space, inserted}
use openbook_dex.Critbit.Trie.{All-imp}
use openbook_dex.Matching.State.{Context, Round, returned, broke}
use openbook_dex.Matching.Post.{Post, returns, Post->>=, Post-if, Post-eq, Post-imp}
use openbook_dex.Matching.Book.{price, IsBook, HasBook, remove_order-HasBook, MaySell}
use openbook_dex.Matching.Best.{
  BestBid, BestBid-price, find_bbo-BestBid, leaf_price-price, set_quantity-bid, SameBook,
  SameBook-refl, SameBook-trans, carry, push_event-SameBook, unlock_coin-SameBook,
  credit_native_pc-SameBook, debit_coin-SameBook,
}
use openbook_dex.Matching.Entry.{insert_leaf-ask, boot-ask}
use openbook_dex.Matching.Ask.{
  NewAskParams, Filled, cancelled, self_trade, trade, against, round, settle, boot, post, release,
  finish, new_ask,
}

-- What a round ends with: where it was not crossed, all the bids are below the limit.
abbrev RoundBook : NewAskParams → Round Filled → Type 0
RoundBook p (returned o d) = HasBook d
RoundBook p (broke done crossed f d) =
    HasBook d × (crossed ≡ false → MaySell p.limit_price d.bids d.asks)

module _ (p : NewAskParams) (c : Context) (h : ℕ) (l : LeafNode) where
  self_trade-HasBook :
      (trade_price trade_qty : ℕ)
      → BestBid h l c.bids c.asks
      → Post (λ r. HasBook r.1) (self_trade p c h l trade_price trade_qty)
  unfolding self_trade
  self_trade-HasBook trade_price trade_qty b =
      Post->>= (Post-eq (cancelled p.self_trade_behavior l.quantity trade_qty)) λ qty _.
        Post->>= (push_event-SameBook c _) λ c₁ s₁.
          Post->>=
            (Post-if (sub64 l.quantity qty.0 == 0)
              (λ _. remove_order-HasBook c₁ bid l.key (carry IsBook s₁ b.book))
              (λ _. set_quantity-bid c₁ h (sub64 l.quantity qty.0) l (carry (BestBid h l) s₁ b)))
            λ c₂ b₂. Post->>= (push_event-SameBook c₂ _) λ c₃ s₃.
              Post->>= (unlock_coin-SameBook c₃ _)
                λ c₄ s₄. returns (carry IsBook s₄ (carry IsBook s₃ b₂))

  trade-HasBook :
      (trade_price trade_qty : ℕ)
      → BestBid h l c.bids c.asks
      → Post (λ r. HasBook r.1) (trade p c h l trade_price trade_qty)
  unfolding trade
  trade-HasBook trade_price trade_qty b = Post->>= (Post-eq (leaf_fee_tier l)) λ tier _.
      Post->>= (push_event-SameBook c _) λ c₁ s₁.
        Post->>= (set_quantity-bid c₁ h (sub64 l.quantity trade_qty) l (carry (BestBid h l) s₁ b))
          λ c₂ b₂.
            Post->>=
              (Post-if (sub64 l.quantity trade_qty == 0)
                (λ _.
                  Post->>= (push_event-SameBook c₂ _)
                    λ c₃ s₃. remove_order-HasBook c₃ bid l.key (carry IsBook s₃ b₂))
                (λ _. returns b₂))
              λ c₄ b₄. returns b₄

  against-RoundBook : BestBid h l c.bids c.asks → Post (RoundBook p) (against p c h l)
  unfolding against
  against-RoundBook b = Post->>= (leaf_price-price l) λ trade_price e.
      let below : leb p.limit_price trade_price ≡ false → MaySell p.limit_price c.bids c.asks = λ f.
        (
          b.book,
          All-imp (λ o. price o.key ≤ price l.key) (λ o. price o.key < p.limit_price) (b.book).buys
              (λ o le. ground arith) (BestBid-price h l c.bids c.asks b),
        ) in
      Post-if (not (leb p.limit_price trade_price) || p.post_only) (λ _. returns (b.book, below))
        (λ reached.
          Post-if (min l.quantity p.max_qty == 0) (λ _. returns (b.book, below))
            (λ _.
              Post-if (p.owner == l.owner)
                (λ _. Post->>= (self_trade-HasBook trade_price _ b) λ r k. returns k)
                (λ _.
                  Post->>= (trade-HasBook trade_price _ b)
                    λ r k. returns (k, λ f. absurd (ground arith)))))

round-RoundBook : (p : NewAskParams) (c : Context) → HasBook c → Post (RoundBook p) (round p c)
unfolding round
round-RoundBook p c book = elim (find_bbo-BestBid c book) [
  | inl (e, empty) ↦
      let clear : MaySell p.limit_price c.bids c.asks = (book, rw empty tt) in
      rw e (returns (book, λ _. clear))
  | inr (h, l, e, read, b) ↦ rw (e, read) (against-RoundBook p c h l b)
]

settle-SameBook : (p : NewAskParams) (f : Filled) (c : Context) → Post (SameBook c) (settle p f c)
unfolding settle
settle-SameBook p f c =
    let worth = mul64 f.accum_fill_price c.market_state.pc_lot_size in
    Post->>= (credit_native_pc-SameBook c _) λ c₁ s₁. Post->>= (debit_coin-SameBook c₁ _) λ c₂ s₂.
      Post->>=
        (Post-if (ltb 0 worth) (λ _. push_event-SameBook c₂ _) (λ _. returns (SameBook-refl c₂)))
        λ c₃ s₃. returns (
          SameBook-trans c c₁ _ s₁ (
            SameBook-trans c₁ c₂ _ s₂
              (record { same_bids = s₃.same_bids; same_asks = s₃.same_asks })))

module _ (p : NewAskParams) (word : p.order_id < u128_mod)
    (priced : price p.order_id ≡ p.limit_price) where
  posted :
      (c : Context) (l : LeafNode) (i : Inserted × Slab)
      → l.key ≡ p.order_id
      → MaySell (price l.key) c.bids i.1
      → Post HasBook (
          let c₁ = record c { asks = i.1 } in
          elim i.0 [ out_of_space ↦ boot c₁ l | inserted _ _ ↦ ok c₁ ])
  posted c l (out_of_space, u) same m = boot-ask (record c { asks = u }) l m (omega arith)
  posted c l (inserted h o, u) same m = returns m.0

  post-HasBook :
      (qty : ℕ) (c : Context) → MaySell p.limit_price c.bids c.asks → Post HasBook (post p qty c)
  unfolding post new_leaf
  post-HasBook qty c m =
      let l = new_leaf p.owner_slot p.order_id p.owner qty p.fee_tier p.client_order_id in
      let ready = subst (λ n. MaySell n c.bids c.asks) (sym priced) m in
      Post->>= (insert_leaf-ask c.bids c.asks l ready word) λ i k. posted c l i refl k

  finish-HasBook :
      (done crossed : Bool) (f : Filled) (c : Context)
      → RoundBook p (broke done crossed f c)
      → Post (λ r. HasBook r.1) (finish p done crossed f c)
  unfolding finish release
  finish-HasBook done crossed f c (book, clear) = Post->>= (settle-SameBook p f c) λ c₁ s.
      Post-if (not done && ltb 0 f.unfilled_qty) (λ _. returns (carry IsBook s book))
        (λ _.
          Post->>=
            (Post-if (p.post_allowed && (not crossed && ltb 0 f.unfilled_qty))
              (λ t.
                post-HasBook f.unfilled_qty c₁
                  (carry (MaySell p.limit_price) s (clear (ground arith))))
              (λ _. Post->>= (unlock_coin-SameBook c₁ f.unfilled_qty) λ c₂ s₂.
                Post-imp (push_event-SameBook c₂ _)
                  λ c₃ s₃. carry IsBook s₃ (carry IsBook s₂ (carry IsBook s book))))
            λ d k. returns k)

  pub new_ask-HasBook : (c : Context) → HasBook c → Post (λ r. HasBook r.1) (new_ask p c)
  unfolding new_ask
  new_ask-HasBook c book = Post->>= (round-RoundBook p c book) (elim [
    | returned o d ↦ λ k. returns k
    | broke done crossed f d ↦ λ k. finish-HasBook done crossed f d k
  ])
