-- ===== src/Matching/Entry.antt =====
-- A new order comes into the book of dex/src/matching.rs, on a side with room or in the place of the least
-- aggressive order there.
use openbook_dex.Prelude.{ℕ, ◌<◌, ◌≡◌, subst, inl, inr, ◌∷◌, [], Option, none, some, u128_mod}
use openbook_dex.Error.{ok, panic}
use openbook_dex.Critbit.Node.{LeafNode, leaf_price}
use openbook_dex.Critbit.Alloc.{Slab}
use openbook_dex.Critbit.Insert.{Inserted, out_of_space, inserted, insert_leaf}
use openbook_dex.Critbit.Remove.{remove_min, remove_max}
use openbook_dex.Critbit.Trie.{All, All-imp}
use openbook_dex.Critbit.Sorted.{upsert}
use openbook_dex.Critbit.Book.{Holds, insert_leaf_lem}
use openbook_dex.Critbit.Ends.{remove_min_lem, remove_max_lem}
use openbook_dex.Matching.State.{Context}
use openbook_dex.Matching.Post.{Post, returns, panics, Post->>=, Post-eq, Post-unwrap}
use openbook_dex.Matching.Book.{
  price, UnderAll, HasBook, All-upsert, All-split, with_bids, with_asks, MaySell, MayBuy,
}
use openbook_dex.Matching.Best.{All-both, carry, push_event-SameBook}
use openbook_dex.Matching.Ask
use openbook_dex.Matching.Bid

-- An offer above all the bids.
joins_asks :
    (bids asks u : Slab) (l : LeafNode) (m : MaySell (price l.key) bids asks)
    → Holds u (upsert l (m.0).sells)
    → MaySell (price l.key) bids u
joins_asks bids asks u l (book, clear) held = (
  record {
    buys = book.buys;
    sells = upsert l book.sells;
    holds_bids = book.holds_bids;
    holds_asks = held;
    uncrossed =
        All-imp (λ b. UnderAll book.sells (price b.key) × (price b.key < price l.key))
          (λ b. UnderAll (upsert l book.sells) (price b.key)) book.buys
          (λ b h. All-upsert (λ a. price b.key < price a.key) l book.sells h.1 h.0)
          (All-both (λ b. UnderAll book.sells (price b.key)) (λ b. price b.key < price l.key)
            book.buys book.uncrossed clear);
  },
  clear,
)

-- A bid below all the offers.
joins_bids :
    (bids asks u : Slab) (l : LeafNode) (m : MayBuy (price l.key) bids asks)
    → Holds u (upsert l (m.0).buys)
    → MayBuy (price l.key) u asks
joins_bids bids asks u l (book, clear) held = (
  with_bids book u (upsert l book.buys) held
      (All-upsert (λ b. UnderAll book.sells (price b.key)) l book.buys clear book.uncrossed),
  clear,
)

pub insert_leaf-ask :
    (bids asks : Slab) (l : LeafNode)
    → MaySell (price l.key) bids asks
    → l.key < u128_mod
    → Post (λ i. MaySell (price l.key) bids i.1) (insert_leaf asks l)
insert_leaf-ask bids asks l (book, clear) word =
    elim (insert_leaf_lem asks l book.sells book.holds_asks word) [
      | inl (u, e, held, full) ↦ rw e (returns (with_asks book u book.sells held (λ n x. x), clear))
      | inr (inl (h, u, e, held, new, read)) ↦
          rw e (returns (joins_asks bids asks u l (book, clear) held))
      | inr (inr (h, old, u, e, held, found, read)) ↦
          rw e (returns (joins_asks bids asks u l (book, clear) held))
    ]

pub insert_leaf-bid :
    (bids asks : Slab) (l : LeafNode)
    → MayBuy (price l.key) bids asks
    → l.key < u128_mod
    → Post (λ i. MayBuy (price l.key) i.1 asks) (insert_leaf bids l)
insert_leaf-bid bids asks l (book, clear) word =
    elim (insert_leaf_lem bids l book.buys book.holds_bids word) [
      | inl (u, e, held, full) ↦
          rw e (returns (with_bids book u book.buys held book.uncrossed, clear))
      | inr (inl (h, u, e, held, new, read)) ↦
          rw e (returns (joins_bids bids asks u l (book, clear) held))
      | inr (inr (h, old, u, e, held, found, read)) ↦
          rw e (returns (joins_bids bids asks u l (book, clear) held))
    ]

-- The least aggressive order goes.
abbrev Left : (Slab → Type 0) → Option (LeafNode × Slab) → Type 0
Left X r = (p : LeafNode × Slab) → r ≡ some p → X p.1

some-Left : (X : Slab → Type 0) (l : LeafNode) (u : Slab) → X u → Left X (some (l, u))
some-Left X l u x p f = let same : u ≡ p.1 = cc in subst X same x

none-Left : (X : Slab → Type 0) → Left X none
none-Left X p f = absurd (cc)

remove_max-ask :
    (bids asks : Slab) (n : ℕ)
    → MaySell n bids asks
    → Post (Left (MaySell n bids)) (remove_max asks)
remove_max-ask bids asks n (book, clear) = elim (remove_max_lem asks book.sells book.holds_asks) [
  | inl (e, none_left) ↦ rw e (returns (none-Left (MaySell n bids)))
  | inr (l, u, rest, e, ends, held) ↦
      let over = λ (m : ℕ) (all : UnderAll book.sells m).
        (All-split (λ a. m < price a.key) rest (l ∷ []) (subst (λ ls. UnderAll ls m) ends all)).0 in
      rw e (returns (some-Left (MaySell n bids) l u (with_asks book u rest held over, clear)))
]

remove_min-bid :
    (bids asks : Slab) (n : ℕ)
    → MayBuy n bids asks
    → Post (Left (λ u. MayBuy n u asks)) (remove_min bids)
remove_min-bid bids asks n (book, clear) = elim (remove_min_lem bids book.buys book.holds_bids) [
  | inl (e, none_left) ↦ rw e (returns (none-Left (λ u. MayBuy n u asks)))
  | inr (l, u, rest, e, ends, held) ↦
      let P = λ (b : LeafNode). UnderAll book.sells (price b.key) in
      let under = (subst (All P) ends book.uncrossed).1 in
      rw e
        (returns (some-Left (λ u. MayBuy n u asks) l u (with_bids book u rest held under, clear)))
]

-- What is made of the slab after an insertion.
after_ask :
    (c : Context) (n : ℕ) (i : Inserted × Slab)
    → MaySell n c.bids i.1
    → Post HasBook (elim i.0 [ out_of_space ↦ panic | inserted _ _ ↦ ok (record c { asks = i.1 }) ])
after_ask c n (out_of_space, u) m = panics
after_ask c n (inserted h o, u) m = returns m.0

after_bid :
    (c : Context) (n : ℕ) (i : Inserted × Slab)
    → MayBuy n i.1 c.asks
    → Post HasBook (elim i.0 [ out_of_space ↦ panic | inserted _ _ ↦ ok (record c { bids = i.1 }) ])
after_bid c n (out_of_space, u) m = panics
after_bid c n (inserted h o, u) m = returns m.0

pub boot-ask :
    (c : Context) (l : LeafNode)
    → MaySell (price l.key) c.bids c.asks
    → l.key < u128_mod
    → Post HasBook (Ask.boot c l)
unfolding Ask.boot
boot-ask c l m word = Post->>= (remove_max-ask c.bids c.asks (price l.key) m) λ r f.
    Post->>= (Post-unwrap r) λ p e.
      Post->>= (push_event-SameBook (record c { asks = p.1 }) _) λ d s.
        (let kept = carry (MaySell (price l.key)) s (f p e) in
          Post->>= (insert_leaf-ask d.bids d.asks l kept word) λ i x. after_ask d (price l.key) i x)

pub boot-bid :
    (c : Context) (l : LeafNode)
    → MayBuy (price l.key) c.bids c.asks
    → l.key < u128_mod
    → Post HasBook (Bid.boot c l)
unfolding Bid.boot
boot-bid c l m word = Post->>= (remove_min-bid c.bids c.asks (price l.key) m) λ r f.
    Post->>= (Post-unwrap r) λ p e. Post->>= (Post-eq (leaf_price p.0)) λ worth _.
      Post->>= (push_event-SameBook (record c { bids = p.1 }) _) λ d s.
        (let kept = carry (MayBuy (price l.key)) s (f p e) in
          Post->>= (insert_leaf-bid d.bids d.asks l kept word) λ i x. after_bid d (price l.key) i x)
