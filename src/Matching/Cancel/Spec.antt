-- ===== src/Matching/Cancel/Spec.antt =====
-- What a cancel and a request of dex/src/matching.rs do.
use openbook_dex.Prelude.{
  ℕ, ◌+◌, ◌*◌, ◌/◌, ◌%◌, ◌^◌, mul64, ◌≤◌, ◌≡◌, refl, ap, ◌∙◌, Bool, true, false, Option, none, some,
  arith, ◌==◌, leb, get_elem?, checked_add,
}
use openbook_dex.Error.{
  ok, ok_or, check_or, check_assert, matching, order_not_yours, order_not_found, assert,
}
use openbook_dex.Error.Post.{
  Post, returns, fails, panics, Post-both, Post->>=, Post-eq, Post-unwrap, Post-ok,
}
use openbook_dex.Types.{Side, bid, ask, Address}
use openbook_dex.Critbit.Node.{LeafNode, leaf_price}
use openbook_dex.Market.{MarketState}
use openbook_dex.Critbit.Alloc.{Slab}
use openbook_dex.Critbit.Remove.{remove_by_key}
use openbook_dex.OpenOrders.{OpenOrders, slot_side, unlock_coin, unlock_pc}
use openbook_dex.Request.{RequestView, new_order, cancel_order}
use openbook_dex.Matching.State.{Context, orders, set_orders}
use openbook_dex.Matching.Post.{Same, push_event-Same}
use openbook_dex.Matching.Best.{SameBook, push_event-SameBook}
use openbook_dex.Matching.Order
use openbook_dex.Matching.Order.Drain.{new_order-IsDrained}
use openbook_dex.Matching.Cancel.{
  locked_by, unlock, holds_side, cancel_leaf_node, cancel_order_v2, cancel_expected,
  process_orderbook_request,
}

-- The balance that an order's money goes back to.
abbrev pub free_of : Side → OpenOrders → ℕ
free_of bid o = o.native_pc_free
free_of ask o = o.native_coin_free

abbrev pub total_of : Side → OpenOrders → ℕ
total_of bid o = o.native_pc_total
total_of ask o = o.native_coin_total

abbrev pub freed : Side → OpenOrders → ℕ → OpenOrders
freed bid o n = record o { native_pc_free = o.native_pc_free + n }
freed ask o n = record o { native_coin_free = o.native_coin_free + n }

abbrev pub Unlocked : Side → OpenOrders → ℕ → OpenOrders → Type 0
Unlocked side o n d = (d ≡ freed side o n) × (free_of side o + n ≤ total_of side o)

-- What an order of a side has locked: an offer its lots, a bid their price, in native units that wrap.
abbrev pub locked_in : Side → LeafNode → MarketState → ℕ
locked_in bid l m = l.quantity * (l.key / 2 ^ 64 % 2 ^ 64) % 2 ^ 64 * m.pc_lot_size % 2 ^ 64
locked_in ask l m = l.quantity * m.coin_lot_size % 2 ^ 64

checked_add-some : (a b t : ℕ) → checked_add a b ≡ some t → t ≡ a + b
unfolding checked_add
checked_add-some a b t h = ground arith

assert-true : (b : Bool) → Post (λ _. b ≡ true) (assert b)
assert-true true = returns refl
assert-true false = panics

pub unlock-Unlocked :
    (side : Side) (o : OpenOrders) (n : ℕ) → Post (Unlocked side o n) (unlock side o n)
unfolding unlock unlock_pc unlock_coin
unlock-Unlocked bid o n = Post->>= (Post-unwrap (checked_add o.native_pc_free n)) λ f e.
    Post->>= (assert-true (leb f o.native_pc_total)) λ _ t.
      let sum = checked_add-some o.native_pc_free n f e in
      returns (ap (λ f. record o { native_pc_free = f }) sum, ground arith)
unlock-Unlocked ask o n = Post->>= (Post-unwrap (checked_add o.native_coin_free n)) λ f e.
    Post->>= (assert-true (leb f o.native_coin_total)) λ _ t.
      let sum = checked_add-some o.native_coin_free n f e in
      returns (ap (λ f. record o { native_coin_free = f }) sum, ground arith)

ok_or-some :
    (r : Option (LeafNode × Slab)) → Post (λ removed. r ≡ some removed) (ok_or r order_not_found)
ok_or-some none = fails
ok_or-some (some removed) = returns refl

check_or-true : (b : Bool) → Post (λ _. b ≡ true) (check_or b order_not_yours)
check_or-true true = returns refl
check_or-true false = fails

check_assert-true : (line : ℕ) (b : Bool) → Post (λ _. b ≡ true) (check_assert matching line b)
check_assert-true line true = returns refl
check_assert-true line false = fails

holds_side-eq : (side : Side) (o : Option Side) → holds_side side o ≡ true → o ≡ some side
holds_side-eq side none h = absurd (cc)
holds_side-eq bid (some bid) h = refl
holds_side-eq ask (some ask) h = refl
holds_side-eq bid (some ask) h = absurd (cc)
holds_side-eq ask (some bid) h = absurd (cc)

locked_by-locked_in :
    (c : Context) (side : Side) (u : Slab) (l : LeafNode) (n : ℕ)
    → locked_by (set_orders c side u) side l ≡ ok n
    → n ≡ locked_in side l c.market_state
unfolding locked_by mul64 leaf_price
locked_by-locked_in c bid u l n e = ground arith
locked_by-locked_in c ask u l n e = ground arith

-- A cancel takes an order of the account off the book: the order is the account's own, the account
-- holds its id and its side in the order's slot, and what the order had locked is added to the
-- account's free balance of that side, which stays within the total; nothing else of the account, the
-- market or the proceeds changes.
pub record CancelSpec (c : Context) (side : Side) (address : Address) (o : OpenOrders)
    (order_id : ℕ) (o' : OpenOrders) (d : Context) : Type 0 where
  pub leaf : LeafNode
  pub slab : Slab
  pub amount : ℕ
  pub found : remove_by_key (orders c side) order_id ≡ ok (some (leaf, slab))
  pub owner : leaf.owner ≡ address
  pub held : get_elem? o.orders leaf.owner_slot ≡ some order_id
  pub sided : slot_side o leaf.owner_slot ≡ some side
  pub locked : locked_by (set_orders c side slab) side leaf ≡ ok amount
  pub released : o' ≡ freed side o amount
  pub within : free_of side o + amount ≤ total_of side o
  pub worth : amount ≡ locked_in side leaf c.market_state
  pub same : Same (set_orders c side slab) d
  pub book : SameBook (set_orders c side slab) d

cancel_order_v2-Post :
    (c : Context) (side : Side) (address : Address) (o : OpenOrders) (order_id : ℕ)
    → Post
        (λ r. CancelSpec c side address o order_id r.0 r.1)
        (cancel_order_v2 c side address o order_id)
unfolding cancel_order_v2 cancel_leaf_node
cancel_order_v2-Post c side address o order_id =
    Post->>= (Post-eq (remove_by_key (orders c side) order_id)) λ r found.
      Post->>= (ok_or-some r) λ removed e.
        let l = removed.0 in
        let c₁ = set_orders c side removed.1 in
        Post->>= (check_or-true (l.owner == address)) λ _ owner.
          Post->>= (Post-unwrap (get_elem? o.orders l.owner_slot)) λ held h.
            Post->>= (check_assert-true 965 (order_id == held)) λ _ id.
              Post->>= (check_assert-true 966 _) λ _ sided.
                Post->>= (Post-eq (locked_by c₁ side l)) λ amount locked.
                  Post->>= (unlock-Unlocked side o amount) λ o' u.
                    Post->>= (Post-both (push_event-Same c₁ _) (push_event-SameBook c₁ _)) λ d s.
                      returns (record {
                        leaf = l;
                        slab = removed.1;
                        amount = amount;
                        found = found ∙ ap ok e;
                        owner = ground arith;
                        held = h ∙ ap some (let t : held ≡ order_id = ground arith in t);
                        sided = holds_side-eq side (slot_side o l.owner_slot) sided;
                        locked = locked;
                        released = u.0;
                        within = u.1;
                        worth = locked_by-locked_in c side removed.1 l amount locked;
                        same = s.0;
                        book = s.1;
                      })

-- A cancel that succeeds finds an order with the id on the book, which is the account's own, and whose
-- id and side the account holds in the order's slot; the book is then that without the order, as
-- `remove_by_key` leaves it, and the market and the proceeds are the same; what the order had locked, its
-- lots or their price in native units, in `u64`s that wrap, is added to the account's free balance of
-- that side, which stays within the total, and nothing else of the account changes.
pub cancel_order_v2_lem :
    (c d : Context) (side : Side) (address : Address) (o o' : OpenOrders) (order_id : ℕ)
    → cancel_order_v2 c side address o order_id ≡ ok (o', d)
    → CancelSpec c side address o order_id o' d
cancel_order_v2_lem c d side address o o' order_id e =
    Post-ok (cancel_order_v2-Post c side address o order_id) e

-- The request that a result of `process_orderbook_request` puts back.
abbrev Answered : Option RequestView × ℕ × Context → Type 0
Answered r = r.0 ≡ none

process_orderbook_request-Post :
    (c : Context) (v : RequestView) (limit : ℕ)
    → Post Answered (process_orderbook_request c v limit)
unfolding process_orderbook_request
process_orderbook_request-Post c (new_order v) limit =
    Post->>= (Post-eq (Order.new_order _ limit c))
      λ r e. let drained = new_order-IsDrained _ limit r.1 c r.2 r.0 e in rw drained (returns refl)
process_orderbook_request-Post c (cancel_order v) limit =
    Post->>= (Post-eq (cancel_expected c v.side v.order_id v.expected_owner v.expected_owner_slot))
      λ d _. returns refl

-- A request that succeeds is answered for good: none is put back for a later turn.
pub process_orderbook_request-none :
    (c d : Context) (v : RequestView) (limit left : ℕ) (o : Option RequestView)
    → process_orderbook_request c v limit ≡ ok (o, left, d)
    → o ≡ none
process_orderbook_request-none c d v limit left o e =
    Post-ok (process_orderbook_request-Post c v limit) e
