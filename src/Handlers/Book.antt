-- ===== src/Handlers/Book.antt =====
-- The two sides of the book over a run of instructions of dex/src/state.rs: placings, cancels, prunings.
mod Tests
use openbook_dex.Prelude.{
  ℕ, ◌+◌, ◌*◌, ◌^◌, ◌<◌, ◌≡◌, refl, List, [], ◌∷◌, Option, IsU64, get_elem?, ◌==◌, not, set,
}
use openbook_dex.Error.{
  program_error, error_code, DexErrorCode, order_not_found, client_id_not_found, ok_or,
  check_assert, DexResult, ok, err, panic, state,
}
use openbook_dex.Types.{Side, bid, ask, Address, non_zero}
use openbook_dex.Fees.{FeeTier}
use openbook_dex.Request.{RequestQueue, RequestView, new_order, gen_order_id}
use openbook_dex.Request.Ids.{gen_order_id-lt}
use openbook_dex.OpenOrders.{OpenOrders, add_order}
use openbook_dex.Instruction.{NewOrderInstructionV3, CancelOrderInstructionV2}
use openbook_dex.Place.{Placed, lock_funds, book_proceeds, place_order}
use openbook_dex.Critbit.Node.{LeafNode}
use openbook_dex.Matching.State.{Context, no_proceeds}
use openbook_dex.Matching.Bid.{is_some}
use openbook_dex.Matching.Post.{
  Post, returns, fails, panics, Post->>=, Post-eq, Post-unwrap, Post-ok,
}
use openbook_dex.Matching.Book.{HasBook, IsBook}
use openbook_dex.Matching.Best.{SameBook, carry}
use openbook_dex.Matching.Cancel
use openbook_dex.Matching.Cancel.Book.{
  request-HasBook, cancel_leaf_node-HasBook, cancel_order_v2-Post, remove_all-HasBook,
}
use openbook_dex.Handlers.Cancels.{
  CancelState, of_pair, ClientOrder, cancel_order_v2, or_continue, cancel_each, cancel_leaves,
  process_prune, process_cancel_order_v2, process_cancel_orders_by_client_ids,
  orders_with_client_ids, chosen, find_client_order, process_cancel_order_by_client_id_v2,
}

place_order-HasBook :
    (i : NewOrderInstructionV3) (balance : ℕ) (fee_tier : FeeTier) (address : Address)
    (q : RequestQueue) (o : OpenOrders) (c : Context)
    → HasBook c
    → IsU64 i.limit_price
    → IsU64 q.header.next_seq_num
    → Post (λ p. HasBook p.context) (place_order i balance fee_tier address q o c)
unfolding place_order
place_order-HasBook i balance fee_tier address q o c book price_word seq_word =
    let word = gen_order_id-lt q i.limit_price i.side price_word seq_word in
    Post->>= (Post-eq (check_assert state 3358 (q.header.count == 0))) λ _ _.
      Post->>= (Post-eq (lock_funds i balance c.market_state o)) λ l _.
        Post->>= (Post-eq (add_order l.open_orders (gen_order_id q i.limit_price i.side).0 i.side))
          λ added _.
            Post->>=
              (request-HasBook (record c { market_state = l.market; proceeds = no_proceeds })
                (new_order (record {
                  side = i.side;
                  order_type = i.order_type;
                  order_id = (gen_order_id q i.limit_price i.side).0;
                  fee_tier = fee_tier;
                  self_trade_behavior = i.self_trade_behavior;
                  owner = address;
                  owner_slot = added.0;
                  max_coin_qty = i.max_coin_qty;
                  native_pc_qty_locked = l.native_pc_qty_locked;
                  client_order_id = non_zero i.client_order_id;
                }))
                i.limit book word)
              λ r k. Post->>= (Post-eq (check_assert state 3431 (not (is_some r.0)))) λ _ _.
                Post->>=
                  (Post-eq (
                    book_proceeds (r.2).market_state.coin_lot_size (r.2).proceeds (record added.1 {
                      client_order_ids = set (added.1).client_order_ids added.0 i.client_order_id;
                    })))
                  λ _ _. returns k

-- The book that a cancel works on.
abbrev HasBookIn : CancelState → Type 0
HasBookIn s = HasBook s.context

cancel-HasBook :
    (side : Side) (address : Address) (order_id : ℕ) (s : CancelState)
    → HasBookIn s
    → Post HasBookIn (cancel_order_v2 side address order_id s)
unfolding cancel_order_v2
cancel-HasBook side address order_id s book =
    Post->>= (cancel_order_v2-Post s.context side address s.open_orders order_id book)
      λ p k. returns k

passed_over :
    (s : CancelState) (c : DexErrorCode)
    → HasBookIn s
    → Post HasBookIn (or_continue s (err (error_code c)))
passed_over s order_not_found book = returns book
passed_over s _ book = fails

or_continue-HasBook :
    (s : CancelState) (r : DexResult CancelState)
    → HasBookIn s
    → Post HasBookIn r
    → Post HasBookIn (or_continue s r)
or_continue-HasBook s (ok t) book p = p
or_continue-HasBook s (err (program_error n)) book p = fails
or_continue-HasBook s (err (error_code c)) book p = passed_over s c book
or_continue-HasBook s panic book p = panics

cancel_each-HasBook :
    (address : Address) (es : List ClientOrder) (s : CancelState)
    → HasBookIn s
    → Post HasBookIn (cancel_each address es s)
unfolding cancel_each
cancel_each-HasBook address [] s book = returns book
cancel_each-HasBook address (e ∷ es) s book =
    Post->>=
      (or_continue-HasBook s (cancel_order_v2 e.side address e.order_id s) book
        (cancel-HasBook e.side address e.order_id s book))
      λ t k. cancel_each-HasBook address es t k

cancel_leaves-HasBook :
    (side : Side) (address : Address) (ls : List LeafNode) (s : CancelState)
    → HasBookIn s
    → Post HasBookIn (cancel_leaves side address ls s)
unfolding cancel_leaves
cancel_leaves-HasBook side address [] s book = returns book
cancel_leaves-HasBook side address (l ∷ ls) s book =
    Post->>= (Post-unwrap (get_elem? s.open_orders.orders l.owner_slot)) λ order_id _.
      Post->>= (cancel_leaf_node-HasBook s.context l side s.open_orders address order_id book)
        λ p k. cancel_leaves-HasBook side address ls (of_pair p) k

process_prune-HasBook :
    (limit : ℕ) (address : Address) (s : CancelState)
    → HasBookIn s
    → Post HasBookIn (process_prune limit address s)
unfolding process_prune
process_prune-HasBook limit address s book =
    Post->>= (remove_all-HasBook s.context address limit book) λ r k.
      Post->>= (cancel_leaves-HasBook bid address r.0 (record s { context = r.2 }) k)
        λ t k₁. cancel_leaves-HasBook ask address r.1 t k₁

process_cancels-HasBook :
    (ids : List ℕ) (address : Address) (s : CancelState)
    → HasBookIn s
    → Post HasBookIn (process_cancel_orders_by_client_ids ids address s)
unfolding process_cancel_orders_by_client_ids
process_cancels-HasBook ids address s book =
    Post->>= (Post-eq (orders_with_client_ids s.open_orders))
      λ es _. cancel_each-HasBook address (chosen ids es) s book

process_cancel-HasBook :
    (id : ℕ) (address : Address) (s : CancelState)
    → HasBookIn s
    → Post HasBookIn (process_cancel_order_by_client_id_v2 id address s)
unfolding process_cancel_order_by_client_id_v2
process_cancel-HasBook id address s book =
    Post->>= (Post-eq (find_client_order s.open_orders id _)) λ r _.
      Post->>= (Post-eq (ok_or r client_id_not_found))
        λ e _. cancel-HasBook e.side address e.order_id s book

-- What may become of the book and the event queue of a market, step by step: an order is placed or
-- canceled, an account is pruned, or something changes that is not the book.
pub data Trades : Context → Context → Type 0 where
  stays : {c d : Context} → SameBook c d → Trades c d
  placed :
      {c d : Context} (i : NewOrderInstructionV3) (balance : ℕ) (fee_tier : FeeTier)
      (address : Address) (q : RequestQueue) (o : OpenOrders) (p : Placed)
      → IsU64 i.limit_price
      → IsU64 q.header.next_seq_num
      → place_order i balance fee_tier address q o c ≡ ok p
      → Trades p.context d
      → Trades c d
  canceled :
      {d : Context} (i : CancelOrderInstructionV2) (address : Address) (s t : CancelState)
      → process_cancel_order_v2 i address s ≡ ok t
      → Trades t.context d
      → Trades s.context d
  canceled_by_client_id :
      {d : Context} (id : ℕ) (address : Address) (s t : CancelState)
      → process_cancel_order_by_client_id_v2 id address s ≡ ok t
      → Trades t.context d
      → Trades s.context d
  canceled_by_client_ids :
      {d : Context} (ids : List ℕ) (address : Address) (s t : CancelState)
      → process_cancel_orders_by_client_ids ids address s ≡ ok t
      → Trades t.context d
      → Trades s.context d
  pruned :
      {d : Context} (limit : ℕ) (address : Address) (s t : CancelState)
      → process_prune limit address s ≡ ok t
      → Trades t.context d
      → Trades s.context d
  elsewhere : {c d e : Context} → SameBook c d → Trades d e → Trades c e

-- If the two slabs of a market hold orders in rising order of their keys, every bid at a lower
-- price than every offer, they still do after any run of placings, of cancels by id, by client id
-- or by several client ids, and of prunings, that succeed, for `u64` limit prices and sequence
-- numbers, whatever happens between them to the rest of the market.
pub Trades-HasBook : (c d : Context) → HasBook c → Trades c d → HasBook d
unfolding process_cancel_order_v2
Trades-HasBook c d book (stays same) = carry IsBook same book
Trades-HasBook c d book (placed i balance fee_tier address q o p price_word seq_word e run) =
    Trades-HasBook p.context d
      (Post-ok (place_order-HasBook i balance fee_tier address q o c book price_word seq_word) e)
      run
Trades-HasBook c d book (canceled i address s t e run) =
    Trades-HasBook t.context d (Post-ok (cancel-HasBook i.side address i.order_id s book) e) run
Trades-HasBook c d book (canceled_by_client_id id address s t e run) =
    Trades-HasBook t.context d (Post-ok (process_cancel-HasBook id address s book) e) run
Trades-HasBook c d book (canceled_by_client_ids ids address s t e run) =
    Trades-HasBook t.context d (Post-ok (process_cancels-HasBook ids address s book) e) run
Trades-HasBook c d book (pruned limit address s t e run) =
    Trades-HasBook t.context d (Post-ok (process_prune-HasBook limit address s book) e) run
Trades-HasBook c d book (elsewhere {d = m} same run) =
    Trades-HasBook m d (carry IsBook same book) run
