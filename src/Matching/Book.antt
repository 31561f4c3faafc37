-- ===== src/Matching/Book.antt =====
-- The book of dex/src/matching.rs: two slabs that hold sorted orders, every bid below every offer. What the
-- steps that change a slab make of it.
use openbook_dex.Prelude.{
  ℕ, ◌<◌, ◌≡◌, ap, subst, ◌∙◌, inl, inr, List, ◌∷◌, [], ◌++◌, some, ◌==◌, Bool-cases, u128_mod, ltb,
}
use openbook_dex.Error.{ok}
use openbook_dex.Types.{Side, bid, ask}
use openbook_dex.Critbit.Node.{LeafNode}
use openbook_dex.Critbit.Alloc.{Slab}
use openbook_dex.Critbit.Remove.{remove_by_key}
use openbook_dex.Critbit.Trie.{All, All-imp}
use openbook_dex.Critbit.Sorted.{upsert, erase, find_key}
use openbook_dex.Critbit.Book.{Holds}
use openbook_dex.Critbit.Delete.{remove_by_key_lem}
use openbook_dex.Critbit.Ends.{Holds-words}
use openbook_dex.Matching.State.{
  Context, orders, set_orders, extract_price_from_order_id, remove_order,
}
use openbook_dex.Matching.Post.{Post, returns, Post->>=, Post-eq, Post-unwrap}

abbrev pub price : ℕ → ℕ
price key = extract_price_from_order_id key

-- A price below those of all the offers.
abbrev pub UnderAll : List LeafNode → ℕ → Type 0
UnderAll sells n = All (λ a. n < price a.key) sells

pub record IsBook (bids asks : Slab) : Type 0 where
  pub buys : List LeafNode
  pub sells : List LeafNode
  pub holds_bids : Holds bids buys
  pub holds_asks : Holds asks sells
  pub uncrossed : All (λ b. UnderAll sells (price b.key)) buys

abbrev pub HasBook : Context → Type 0
HasBook c = IsBook c.bids c.asks

module _ {ℓ} (P : LeafNode → Type ℓ) where
  pub All-erase : (k : ℕ) (ls : List LeafNode) → All P ls → All P (erase k ls)
  unfolding erase
  All-erase k [] a = a
  All-erase k (l ∷ ls) a = elim (Bool-cases (l.key == k)) [
    | inl e ↦ rw e a.1
    | inr e ↦ rw e (a.0, All-erase k ls a.1)
  ]

  pub All-upsert : (l : LeafNode) (ls : List LeafNode) → P l → All P ls → All P (upsert l ls)
  unfolding upsert
  All-upsert l [] p a = (p, tt)
  All-upsert l (x ∷ xs) p a = elim (Bool-cases (x.key == l.key)) [
    | inl e ↦ rw e (p, a.1)
    | inr e ↦ elim (Bool-cases (ltb l.key x.key)) [
      | inl f ↦ rw (e, f) (p, a)
      | inr f ↦ rw (e, f) (a.0, All-upsert l xs p a.1)
    ]
  ]

  pub All-split : (xs ys : List LeafNode) → All P (xs ++ ys) → All P xs × All P ys
  All-split [] ys a = (tt, a)
  All-split (x ∷ xs) ys a = let (b, c) = All-split xs ys a.1 in ((a.0, b), c)

-- One side of the book holds other orders, which are where those of before were.
module _ {bids asks : Slab} (book : IsBook bids asks) (u : Slab) where
  abbrev pub with_bids :
      (buys : List LeafNode)
      → Holds u buys
      → All (λ b. UnderAll book.sells (price b.key)) buys
      → IsBook u asks
  with_bids buys held under = record {
    buys = buys;
    sells = book.sells;
    holds_bids = held;
    holds_asks = book.holds_asks;
    uncrossed = under;
  }

  abbrev pub with_asks :
      (sells : List LeafNode)
      → Holds u sells
      → ((n : ℕ) → UnderAll book.sells n → UnderAll sells n)
      → IsBook bids u
  with_asks sells held over = record {
    buys = book.buys;
    sells = sells;
    holds_bids = book.holds_bids;
    holds_asks = held;
    uncrossed =
        All-imp (λ b. UnderAll book.sells (price b.key)) (λ b. UnderAll sells (price b.key))
          book.buys (λ b. over (price b.key)) book.uncrossed;
  }

-- A book whose bids are all below a limit, and one whose offers are all above it.
abbrev pub MaySell : ℕ → Slab → Slab → Type 0
MaySell limit bids asks = (book : IsBook bids asks) × All (λ b. price b.key < limit) book.buys

abbrev pub MayBuy : ℕ → Slab → Slab → Type 0
MayBuy limit bids asks = (book : IsBook bids asks) × UnderAll book.sells limit

-- An order of the side with the price may come in.
abbrev pub MayPlace : Side → ℕ → Slab → Slab → Type 0
MayPlace bid n bids asks = MayBuy n bids asks
MayPlace ask n bids asks = MaySell n bids asks

pub All-find {ℓ} :
    (P : LeafNode → Type ℓ) (k : ℕ) (ls : List LeafNode) (l : LeafNode)
    → All P ls
    → find_key k ls ≡ some l
    → P l
unfolding find_key
All-find P k [] l a f = absurd (cc)
All-find P k (x ∷ xs) l a f = elim (Bool-cases (x.key == k)) [
  | inl e ↦ let here : some x ≡ some l = rw e at f in let same : x ≡ l = cc in subst P same a.0
  | inr e ↦ let later : find_key k xs ≡ some l = rw e at f in All-find P k xs l a.1 later
]

-- Every bid is below an offer of the book.
below_offer :
    (buys sells : List LeafNode) (l : LeafNode) (k : ℕ)
    → All (λ b. UnderAll sells (price b.key)) buys
    → find_key k sells ≡ some l
    → All (λ b. price b.key < price l.key) buys
below_offer buys sells l k under f =
    All-imp (λ b. UnderAll sells (price b.key)) (λ b. price b.key < price l.key) buys
      (λ b all. All-find (λ a. price b.key < price a.key) k sells l all f) under

-- Taking an order off the book: it may come back in.
pub remove_by_key-MayPlace :
    (c : Context) (side : Side) (k : ℕ) (l : LeafNode) (u : Slab)
    → HasBook c
    → remove_by_key (orders c side) k ≡ ok (some (l, u))
    → let d = set_orders c side u in MayPlace side (price l.key) d.bids d.asks × (l.key < u128_mod)
remove_by_key-MayPlace c bid k l u book e =
    elim (remove_by_key_lem c.bids k book.buys book.holds_bids) [
      | inl g ↦ let g' = g.0 in absurd (cc)
      | inr (m, v, g, found, held) ↦
          let same : v ≡ u = cc in
          let it : m ≡ l = cc in
          let found' = subst (λ l. find_key k book.buys ≡ some l) it found in
          let P = λ (b : LeafNode). UnderAll book.sells (price b.key) in
          (
            (
              with_bids book u (erase k book.buys)
                  (subst (λ u. Holds u (erase k book.buys)) same held)
                  (All-erase P k book.buys book.uncrossed),
              All-find P k book.buys l book.uncrossed found',
            ),
            All-find (λ l. l.key < u128_mod) k book.buys l
                (Holds-words c.bids book.buys book.holds_bids) found',
          )
    ]
remove_by_key-MayPlace c ask k l u book e =
    elim (remove_by_key_lem c.asks k book.sells book.holds_asks) [
      | inl g ↦ let g' = g.0 in absurd (cc)
      | inr (m, v, g, found, held) ↦
          let same : v ≡ u = cc in
          let it : m ≡ l = cc in
          let found' = subst (λ l. find_key k book.sells ≡ some l) it found in
          (
            (
              with_asks book u (erase k book.sells)
                  (subst (λ u. Holds u (erase k book.sells)) same held)
                  (λ n. All-erase (λ a. n < price a.key) k book.sells),
              below_offer book.buys book.sells l k book.uncrossed found',
            ),
            All-find (λ l. l.key < u128_mod) k book.sells l
                (Holds-words c.asks book.sells book.holds_asks) found',
          )
    ]

pub MayPlace-IsBook :
    (side : Side) (n : ℕ) (bids asks : Slab) → MayPlace side n bids asks → IsBook bids asks
MayPlace-IsBook bid n bids asks m = m.0
MayPlace-IsBook ask n bids asks m = m.0

pub remove_order-HasBook :
    (c : Context) (side : Side) (k : ℕ) → HasBook c → Post HasBook (remove_order c side k)
unfolding remove_order
remove_order-HasBook c side k book = Post->>= (Post-eq (remove_by_key (orders c side) k)) λ r e.
    Post->>= (Post-unwrap r) λ p f.
      (let d = set_orders c side p.1 in
        returns (
          MayPlace-IsBook side (price p.0.key) d.bids d.asks
            (remove_by_key-MayPlace c side k p.0 p.1 book (e ∙ ap ok f)).0))

-- Taking an order off either side.
module _ (bids asks u : Slab) (k : ℕ) (l : LeafNode) (book : IsBook bids asks) where
  pub remove_bid-IsBook : remove_by_key bids k ≡ ok (some (l, u)) → IsBook u asks
  remove_bid-IsBook e = elim (remove_by_key_lem bids k book.buys book.holds_bids) [
    | inl g ↦ let g' = g.0 in absurd (cc)
    | inr (m, v, g, found, held) ↦
        let same : v ≡ u = cc in
        with_bids book u (erase k book.buys) (subst (λ u. Holds u (erase k book.buys)) same held)
          (All-erase (λ b. UnderAll book.sells (price b.key)) k book.buys book.uncrossed)
  ]

  pub remove_ask-IsBook : remove_by_key asks k ≡ ok (some (l, u)) → IsBook bids u
  remove_ask-IsBook e = elim (remove_by_key_lem asks k book.sells book.holds_asks) [
    | inl g ↦ let g' = g.0 in absurd (cc)
    | inr (m, v, g, found, held) ↦
        let same : v ≡ u = cc in
        with_asks book u (erase k book.sells) (subst (λ u. Holds u (erase k book.sells)) same held)
          (λ n. All-erase (λ a. n < price a.key) k book.sells)
  ]
