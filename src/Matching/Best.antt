-- ===== src/Matching/Best.antt =====
-- The best order of each side of the book of dex/src/matching.rs, and a new order that does not reach it.
use openbook_dex.Prelude.{
  ℕ, ◌/◌, ◌%◌, ◌^◌, ◌≤◌, ◌<◌, ◌≡◌, refl, sym, subst, ◌∙◌, ◌⊎◌, inl, inr, true, false, List, ◌∷◌, [],
  ◌++◌, Option, none, some, arith, u64_mod, u128_mod, checked_add,
}
use openbook_dex.Error.{ok, unwrap, ◌>>=◌}
use openbook_dex.Types.{bid, ask, non_zero}
use openbook_dex.Queue.{Pushed, pushed, rejected, push_back, EventQueueHeader, event_header}
use openbook_dex.Event.{Event, EventView, of_view}
use openbook_dex.Critbit.Node.{LeafNode, leaf_node, as_leaf, leaf_price}
use openbook_dex.Critbit.Alloc.{Slab, put}
use openbook_dex.Critbit.Find.{find_min, find_max}
use openbook_dex.Critbit.Trie.{All, All-append, All-imp}
use openbook_dex.Critbit.Sorted.{IsSorted}
use openbook_dex.Critbit.Book.{Holds}
use openbook_dex.Critbit.Extremes.{find_min_max_lem}
use openbook_dex.Critbit.Ends.{Holds-IsSorted, Holds-words, sorted-last}
use openbook_dex.Matching.State.{
  Context, extract_price_from_order_id, find_bbo, leaf_at, set_quantity, push_event, pushed_or_full,
  RequestProceeds, unlock_coin, unlock_native_pc, credit_coin, credit_native_pc, debit_coin,
  debit_native_pc,
}
use openbook_dex.Matching.Post.{Post, returns, fails, Post->>=, Post-eq, Post-unwrap, Post-imp}
use openbook_dex.Matching.Book.{price, UnderAll, IsBook, HasBook, All-split, with_bids, with_asks}

-- The step left the book alone.
pub record SameBook (c d : Context) : Type 0 where
  pub same_bids : d.bids ≡ c.bids
  pub same_asks : d.asks ≡ c.asks

pub SameBook-refl : (c : Context) → SameBook c c
SameBook-refl c = record { same_bids = refl; same_asks = refl }

pub carry :
    (X : Slab → Slab → Type 0) {c d : Context} → SameBook c d → X c.bids c.asks → X d.bids d.asks
carry X {c} {d} s x =
    subst (λ b. X b d.asks) (sym s.same_bids) (subst (λ a. X c.bids a) (sym s.same_asks) x)

pub push_event-SameBook : (c : Context) (v : EventView) → Post (SameBook c) (push_event c v)
unfolding push_event
push_event-SameBook c v = Post->>= (Post-eq (push_back c.event_q (of_view v))) λ r _. stored r
  where
    stored : (r : Pushed EventQueueHeader Event) → Post (SameBook c) (pushed_or_full c r)
    stored (pushed q) = returns (record { same_bids = refl; same_asks = refl })
    stored (rejected e) = fails

pub All-both {ℓ κ} :
    (P : LeafNode → Type ℓ) (Q : LeafNode → Type κ) (ls : List LeafNode)
    → All P ls
    → All Q ls
    → All (λ l. P l × Q l) ls
All-both P Q [] a b = tt
All-both P Q (l ∷ ls) a b = ((a.0, b.0), All-both P Q ls a.1 b.1)

pub price_mono : (a b : ℕ) → a ≤ b → b < u128_mod → price a ≤ price b
unfolding extract_price_from_order_id
price_mono a b h k = omega arith

pub non_zero-some : (n m : ℕ) → non_zero n ≡ some m → m ≡ n
non_zero-some n m e = ground arith

pub leaf_price-price : (l : LeafNode) → Post (λ n. n ≡ price l.key) (leaf_price l)
unfolding leaf_price extract_price_from_order_id
leaf_price-price l =
    Post-imp (Post-unwrap (non_zero (l.key / 2 ^ 64 % u64_mod)))
      λ n e. non_zero-some (l.key / 2 ^ 64 % u64_mod) n e

-- The bid at the handle `h` is the best, and a write to it is a write to the last of the bids.
pub record BestBid (h : ℕ) (l : LeafNode) (bids asks : Slab) : Type 0 where
  pub book : IsBook bids asks
  pub others : List LeafNode
  pub ends : book.buys ≡ others ++ l ∷ []
  pub edit :
      (l' : LeafNode)
      → l'.key ≡ l.key
      → (u : Slab) × (put bids h (leaf_node l') ≡ ok u) × Holds u (others ++ l' ∷ [])

pub record BestOffer (h : ℕ) (l : LeafNode) (bids asks : Slab) : Type 0 where
  pub book : IsBook bids asks
  pub others : List LeafNode
  pub ends : book.sells ≡ l ∷ others
  pub edit :
      (l' : LeafNode)
      → l'.key ≡ l.key
      → (u : Slab) × (put asks h (leaf_node l') ≡ ok u) × Holds u (l' ∷ others)

-- No bid is above the best.
pub BestBid-price :
    (h : ℕ) (l : LeafNode) (bids asks : Slab) (b : BestBid h l bids asks)
    → All (λ o. price o.key ≤ price l.key) (b.book).buys
BestBid-price h l bids asks b =
    let held = (b.book).holds_bids in
    let sorted = subst IsSorted b.ends (Holds-IsSorted bids (b.book).buys held) in
    let words = subst (All (λ l. l.key < u128_mod)) b.ends (Holds-words bids (b.book).buys held) in
    let word = (All-split (λ l. l.key < u128_mod) b.others (l ∷ []) words).1.0 in
    subst (All (λ o. price o.key ≤ price l.key)) (sym b.ends) (
      All-append (λ o. price o.key ≤ price l.key) b.others (l ∷ [])
        (All-imp (λ o. o.key < l.key) (λ o. price o.key ≤ price l.key) b.others
          (λ o lt. price_mono o.key l.key (omega arith) word) (sorted-last b.others l sorted))
        (omega arith, tt))

pub BestOffer-price :
    (h : ℕ) (l : LeafNode) (bids asks : Slab) (b : BestOffer h l bids asks)
    → All (λ o. price l.key ≤ price o.key) (b.book).sells
BestOffer-price h l bids asks b =
    let held = (b.book).holds_asks in
    let sorted = subst IsSorted b.ends (Holds-IsSorted asks (b.book).sells held) in
    let words = subst (All (λ l. l.key < u128_mod)) b.ends (Holds-words asks (b.book).sells held) in
    subst (All (λ o. price l.key ≤ price o.key)) (sym b.ends) (
      omega arith,
      All-imp (λ o. (l.key < o.key) × (o.key < u128_mod)) (λ o. price l.key ≤ price o.key) b.others
          (λ o h. price_mono l.key o.key (omega arith) h.1)
          (All-both (λ o. l.key < o.key) (λ o. o.key < u128_mod) b.others sorted.0 words.1),
    )

-- The best of each side, or there is none.
pub find_bbo-BestBid :
    (c : Context) (book : HasBook c)
    → ((find_bbo c bid ≡ ok none) × (book.buys ≡ []))
      ⊎ ((h : ℕ) × (l : LeafNode) × (find_bbo c bid ≡ ok (some h))
          × (leaf_at c bid h ≡ ok l)
          × BestBid h l c.bids c.asks)
unfolding find_bbo find_max leaf_at as_leaf
find_bbo-BestBid c book = elim (find_min_max_lem c.bids true book.buys book.holds_bids) [
  | inl f ↦ inl f
  | inr (h, l, rest, found, read, ends, edit) ↦
      inr
        (h, l, found, rw read refl, record { book = book; others = rest; ends = ends; edit = edit })
]

pub find_bbo-BestOffer :
    (c : Context) (book : HasBook c)
    → ((find_bbo c ask ≡ ok none) × (book.sells ≡ []))
      ⊎ ((h : ℕ) × (l : LeafNode) × (find_bbo c ask ≡ ok (some h))
          × (leaf_at c ask h ≡ ok l)
          × BestOffer h l c.bids c.asks)
unfolding find_bbo find_min leaf_at as_leaf
find_bbo-BestOffer c book = elim (find_min_max_lem c.asks false book.sells book.holds_asks) [
  | inl f ↦ inl f
  | inr (h, l, rest, found, read, ends, edit) ↦
      inr
        (h, l, found, rw read refl, record { book = book; others = rest; ends = ends; edit = edit })
]

-- A part of the best order is taken.
pub set_quantity-bid :
    (c : Context) (h n : ℕ) (l : LeafNode)
    → BestBid h l c.bids c.asks
    → Post HasBook (set_quantity c bid h l n)
unfolding set_quantity
set_quantity-bid c h n l b =
    let l' = record l { quantity = n } in
    let (u, wrote, held) = b.edit l' refl in
    let book = b.book in
    let P = λ (o : LeafNode). UnderAll book.sells (price o.key) in
    let under = All-split P b.others (l ∷ []) (subst (All P) b.ends book.uncrossed) in
    rw wrote (
      returns (
        with_bids book u (b.others ++ l' ∷ []) held
          (All-append P b.others (l' ∷ []) under.0 (under.1.0, tt))))

pub set_quantity-ask :
    (c : Context) (h n : ℕ) (l : LeafNode)
    → BestOffer h l c.bids c.asks
    → Post HasBook (set_quantity c ask h l n)
unfolding set_quantity
set_quantity-ask c h n l b =
    let l' = record l { quantity = n } in
    let (u, wrote, held) = b.edit l' refl in
    let book = b.book in
    rw wrote (
      returns (
        with_asks book u (l' ∷ b.others) held
          (λ m over. (let under = subst (λ ls. UnderAll ls m) b.ends over in (under.0, under.1)))))

-- The steps that only add to the proceeds.
proceeds-SameBook :
    (c : Context) (o : Option ℕ) (f : ℕ → RequestProceeds)
    → Post (SameBook c) (unwrap o >>= λ t. ok (record c { proceeds = f t }))
proceeds-SameBook c o f =
    Post->>= (Post-unwrap o) λ t _. returns (record { same_bids = refl; same_asks = refl })

module _ (c : Context) (n : ℕ) where
  pub unlock_coin-SameBook : Post (SameBook c) (unlock_coin c n)
  unfolding unlock_coin
  unlock_coin-SameBook =
      proceeds-SameBook c (checked_add c.proceeds.coin_unlocked n)
        (λ t. record c.proceeds { coin_unlocked = t })

  pub unlock_native_pc-SameBook : Post (SameBook c) (unlock_native_pc c n)
  unfolding unlock_native_pc
  unlock_native_pc-SameBook =
      proceeds-SameBook c (checked_add c.proceeds.native_pc_unlocked n)
        (λ t. record c.proceeds { native_pc_unlocked = t })

  pub credit_coin-SameBook : Post (SameBook c) (credit_coin c n)
  unfolding credit_coin
  credit_coin-SameBook =
      proceeds-SameBook c (checked_add c.proceeds.coin_credit n)
        (λ t. record c.proceeds { coin_credit = t })

  pub credit_native_pc-SameBook : Post (SameBook c) (credit_native_pc c n)
  unfolding credit_native_pc
  credit_native_pc-SameBook =
      proceeds-SameBook c (checked_add c.proceeds.native_pc_credit n)
        (λ t. record c.proceeds { native_pc_credit = t })

  pub debit_coin-SameBook : Post (SameBook c) (debit_coin c n)
  unfolding debit_coin
  debit_coin-SameBook =
      proceeds-SameBook c (checked_add c.proceeds.coin_debit n)
        (λ t. record c.proceeds { coin_debit = t })

  pub debit_native_pc-SameBook : Post (SameBook c) (debit_native_pc c n)
  unfolding debit_native_pc
  debit_native_pc-SameBook =
      proceeds-SameBook c (checked_add c.proceeds.native_pc_debit n)
        (λ t. record c.proceeds { native_pc_debit = t })

pub SameBook-trans : (c d e : Context) → SameBook c d → SameBook d e → SameBook c e
SameBook-trans c d e a b = record {
  same_bids = b.same_bids ∙ a.same_bids;
  same_asks = b.same_asks ∙ a.same_asks;
}
