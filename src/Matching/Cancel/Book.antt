-- ===== src/Matching/Cancel/Book.antt =====
-- The two sides of the book in the requests and the cancels of dex/src/matching.rs.
use openbook_dex.Prelude.{
  ℕ, ◌<◌, ◌≡◌, ap, ◌∙◌, ◌&&◌, Option, none, some, ◌==◌, get_elem?, u128_mod, List, [], ◌∷◌,
}
use openbook_dex.Error.{
  ok, panic, ok_or, check_or, check_assert, matching, order_not_found, order_not_yours,
}
use openbook_dex.Error.Post.{ok_or-eq-ok}
use openbook_dex.Types.{Side, bid, ask, Address}
use openbook_dex.Request.{RequestView, new_order, cancel_order}
use openbook_dex.OpenOrders.{OpenOrders, slot_side}
use openbook_dex.Critbit.Node.{LeafNode}
use openbook_dex.Critbit.Alloc.{Slab}
use openbook_dex.Critbit.Insert.{Inserted, out_of_space, inserted, insert_leaf}
use openbook_dex.Critbit.Remove.{remove_by_key}
use openbook_dex.Critbit.Walk.{find_by}
use openbook_dex.Matching.State.{Context, orders, set_orders}
use openbook_dex.Matching.Post.{
  Post, returns, panics, Post->>=, Post-eq, Post-if, Post-imp, Post-unwrap, Post-ok,
}
use openbook_dex.Matching.Book.{
  price, IsBook, HasBook, MayPlace, MayPlace-IsBook, remove_by_key-MayPlace, remove_bid-IsBook,
  remove_ask-IsBook,
}
use openbook_dex.Matching.Best.{carry, push_event-SameBook}
use openbook_dex.Matching.Entry.{insert_leaf-ask, insert_leaf-bid}
use openbook_dex.Matching.Order.Book.{new_order-HasBook}
use openbook_dex.Matching.Cancel.{
  locked_by, unlock, holds_side, cancel_leaf_node, cancel_order_v2, cancel_found, cancel_expected,
  process_orderbook_request, remove_keys, remove_all,
}

-- An order that was taken off comes back in.
insert_leaf-MayPlace :
    (c : Context) (side : Side) (l : LeafNode)
    → MayPlace side (price l.key) c.bids c.asks
    → l.key < u128_mod
    → Post (λ i. HasBook (set_orders c side i.1)) (insert_leaf (orders c side) l)
insert_leaf-MayPlace c bid l m word = Post-imp (insert_leaf-bid c.bids c.asks l m word) λ i k. k.0
insert_leaf-MayPlace c ask l m word = Post-imp (insert_leaf-ask c.bids c.asks l m word) λ i k. k.0

after_insert :
    (c : Context) (side : Side) (i : Inserted × Slab)
    → HasBook (set_orders c side i.1)
    → Post HasBook (elim i.0 [ out_of_space ↦ panic | inserted _ _ ↦ ok (set_orders c side i.1) ])
after_insert c side (out_of_space, u) k = panics
after_insert c side (inserted h o, u) k = returns k

cancel_found-HasBook :
    (c : Context) (side : Side) (order_id : ℕ) (owner : Address) (owner_slot : ℕ) (l : LeafNode)
    → MayPlace side (price l.key) c.bids c.asks
    → l.key < u128_mod
    → Post HasBook (cancel_found c side order_id owner owner_slot l)
unfolding cancel_found
cancel_found-HasBook c side order_id owner owner_slot l m word =
    Post-if (l.owner == owner && l.owner_slot == owner_slot)
      (λ _. Post->>= (Post-eq (locked_by c side l)) λ n _.
        Post-imp (push_event-SameBook c _)
          λ d s. carry IsBook s (MayPlace-IsBook side (price l.key) c.bids c.asks m))
      (λ _. Post->>= (insert_leaf-MayPlace c side l m word) λ i k. after_insert c side i k)

cancel_expected-HasBook :
    (c : Context) (side : Side) (order_id : ℕ) (owner : Address) (owner_slot : ℕ)
    → HasBook c
    → Post HasBook (cancel_expected c side order_id owner owner_slot)
unfolding cancel_expected
cancel_expected-HasBook c side order_id owner owner_slot book =
    Post->>= (Post-eq (remove_by_key (orders c side) order_id)) (elim [
      | none ↦ λ _. returns book
      | some (l, u) ↦ λ e.
          (let (m, word) = remove_by_key-MayPlace c side order_id l u book e in
            cancel_found-HasBook (set_orders c side u) side order_id owner owner_slot l m word)
    ])

-- The numbers of a request are of their types.
abbrev pub HasU128Id : RequestView → Type 0
HasU128Id (new_order v) = v.order_id < u128_mod
HasU128Id (cancel_order v) = Unit {0}

abbrev BookAfter : Option RequestView × ℕ × Context → Type 0
BookAfter r = HasBook r.2

pub request-HasBook :
    (c : Context) (v : RequestView) (limit : ℕ)
    → HasBook c
    → HasU128Id v
    → Post (λ r. HasBook r.2) (process_orderbook_request c v limit)
unfolding process_orderbook_request
request-HasBook c (new_order v) limit book word =
    Post->>= (new_order-HasBook _ word limit c book) λ r k.
      elim r.0
        as (λ o. Post BookAfter (elim o [
          | none ↦ ok (none, r.1, r.2)
          | some remaining ↦ ok (
            some (
                new_order (record v {
                  max_coin_qty = remaining.coin_qty_remaining;
                  native_pc_qty_locked = remaining.native_pc_qty_remaining;
                })),
            r.1,
            r.2,
          )
        ])) [ none ↦ returns k | some remaining ↦ returns k ]
request-HasBook c (cancel_order v) limit book word =
    Post->>=
      (cancel_expected-HasBook c v.side v.order_id v.expected_owner v.expected_owner_slot book)
      λ d k. returns k

-- A request, with a `u128` order id where it is a new order, that succeeds leaves a book whose two
-- slabs hold orders in rising order of their keys, every bid at a lower price than every offer, if the
-- book was such a book. This holds over all the rounds of matching.
pub process_orderbook_request-HasBook :
    (c d : Context) (v : RequestView) (limit left : ℕ) (o : Option RequestView)
    → HasBook c
    → HasU128Id v
    → process_orderbook_request c v limit ≡ ok (o, left, d)
    → HasBook d
process_orderbook_request-HasBook c d v limit left o book word e =
    Post-ok (request-HasBook c v limit book word) e

pub cancel_leaf_node-HasBook :
    (c : Context) (l : LeafNode) (side : Side) (o : OpenOrders) (address order_id : ℕ)
    → HasBook c
    → Post (λ r. HasBook r.1) (cancel_leaf_node c l side o address order_id)
unfolding cancel_leaf_node
cancel_leaf_node-HasBook c l side o address order_id book =
    Post->>= (Post-eq (check_or (l.owner == address) order_not_yours)) λ _ _.
      Post->>= (Post-unwrap (get_elem? o.orders l.owner_slot)) λ held _.
        Post->>= (Post-eq (check_assert matching 965 (order_id == held))) λ _ _.
          Post->>=
            (Post-eq (check_assert matching 966 (holds_side side (slot_side o l.owner_slot))))
            λ _ _. Post->>= (Post-eq (locked_by c side l)) λ n _.
              Post->>= (Post-eq (unlock side o n))
                λ o' _. Post->>= (push_event-SameBook c _) λ d s. returns (carry IsBook s book)

pub cancel_order_v2-Post :
    (c : Context) (side : Side) (address : Address) (o : OpenOrders) (order_id : ℕ)
    → HasBook c
    → Post (λ r. HasBook r.1) (cancel_order_v2 c side address o order_id)
unfolding cancel_order_v2
cancel_order_v2-Post c side address o order_id book =
    Post->>= (Post-eq (remove_by_key (orders c side) order_id)) λ r f.
      Post->>= (Post-eq (ok_or r order_not_found)) λ p g.
        (let (m, word) =
            remove_by_key-MayPlace c side order_id p.0 p.1 book
              (f ∙ ap ok (ok_or-eq-ok r order_not_found g)) in
          let t = set_orders c side p.1 in
          cancel_leaf_node-HasBook t p.0 side o address order_id
            (MayPlace-IsBook side (price p.0.key) t.bids t.asks m))

remove_bids-IsBook :
    (keys : List ℕ) (bids asks : Slab)
    → IsBook bids asks
    → Post (λ r. IsBook r.1 asks) (remove_keys bids keys)
unfolding remove_keys
remove_bids-IsBook [] bids asks book = returns book
remove_bids-IsBook (key ∷ keys) bids asks book = Post->>= (Post-eq (remove_by_key bids key)) (elim [
  | none ↦ λ _. remove_bids-IsBook keys bids asks book
  | some (l, u) ↦ λ e.
      Post->>= (remove_bids-IsBook keys u asks (remove_bid-IsBook bids asks u key l book e))
        λ r k. returns k
])

remove_asks-IsBook :
    (keys : List ℕ) (bids asks : Slab)
    → IsBook bids asks
    → Post (λ r. IsBook bids r.1) (remove_keys asks keys)
unfolding remove_keys
remove_asks-IsBook [] bids asks book = returns book
remove_asks-IsBook (key ∷ keys) bids asks book = Post->>= (Post-eq (remove_by_key asks key)) (elim [
  | none ↦ λ _. remove_asks-IsBook keys bids asks book
  | some (l, u) ↦ λ e.
      Post->>= (remove_asks-IsBook keys bids u (remove_ask-IsBook bids asks u key l book e))
        λ r k. returns k
])

pub remove_all-HasBook :
    (c : Context) (address : Address) (limit : ℕ)
    → HasBook c
    → Post (λ r. HasBook r.2) (remove_all c address limit)
unfolding remove_all
remove_all-HasBook c address limit book = Post->>= (Post-eq (find_by c.asks limit _)) λ asks _.
    Post->>= (Post-eq (find_by c.bids asks.1 _)) λ bids _.
      Post->>= (remove_bids-IsBook bids.0 c.bids c.asks book)
        λ b k. Post->>= (remove_asks-IsBook asks.0 b.1 c.asks k) λ a k'. returns k'
