-- ===== src/Matching/Cancel.antt =====
-- The cancels of dex/src/matching.rs: `cancel_order_v2` with `cancel_leaf_node`, `cancel_order`, and
-- `process_orderbook_request` and `remove_all` on top of the matching.
pub mod Ledger
pub mod Book
pub mod Spec
mod Tests
use openbook_dex.Prelude.{
  ℕ, ◌+◌, ◌-◌, ◌%◌, ◌^◌, ◌&&◌, Bool, true, false, List, [], ◌∷◌, Option, none, some, ◌==◌,
  if◌then◌else◌, get_elem?, mul64,
}
use openbook_dex.Error.{
  DexResult, ok, panic, ◌>>=◌, ◌>>◌, unwrap, ok_or, check_or, check_assert, matching,
  order_not_found, order_not_yours,
}
use openbook_dex.Types.{Side, bid, ask, side_eq, Address, non_zero, get_or_zero}
use openbook_dex.Event.{out}
use openbook_dex.Request.{RequestView, new_order, cancel_order}
use openbook_dex.Critbit.Node.{LeafNode, leaf_price}
use openbook_dex.Critbit.Alloc.{Slab}
use openbook_dex.Critbit.Insert.{out_of_space, inserted, insert_leaf}
use openbook_dex.Critbit.Remove.{remove_by_key}
use openbook_dex.Critbit.Walk.{find_by}
use openbook_dex.OpenOrders.{OpenOrders, slot_side, unlock_coin, unlock_pc}
use openbook_dex.Matching.State.{Context, orders, set_orders, push_event}
use openbook_dex.Matching.Order

-- What an order on the book has locked, in native units.
unfoldable pub locked_by : Context → Side → LeafNode → DexResult ℕ
locked_by c bid l =
    leaf_price l >>= λ price. ok (mul64 (mul64 l.quantity price) c.market_state.pc_lot_size)
locked_by c ask l = ok (mul64 l.quantity c.market_state.coin_lot_size)

unfoldable pub unlock : Side → OpenOrders → ℕ → DexResult OpenOrders
unlock bid o n = unlock_pc o n
unlock ask o n = unlock_coin o n

-- `Some(side) == open_orders.slot_side(slot)`.
abbrev pub holds_side : Side → Option Side → Bool
holds_side side none = false
holds_side side (some s) = side_eq side s

unfoldable pub cancel_leaf_node :
    Context → LeafNode → Side → OpenOrders → Address → ℕ → DexResult (OpenOrders × Context)
cancel_leaf_node c l side o open_orders_address order_id =
    check_or (l.owner == open_orders_address) order_not_yours
    >> (unwrap (get_elem? o.orders l.owner_slot) >>= λ held.
        check_assert matching 965 (order_id == held)
        >> (check_assert matching 966 (holds_side side (slot_side o l.owner_slot))
            >> (locked_by c side l >>= λ native_qty_unlocked.
                unlock side o native_qty_unlocked >>= λ o'.
                push_event c (
                  out (record {
                    side = side;
                    release_funds = false;
                    native_qty_unlocked = native_qty_unlocked;
                    native_qty_still_locked = 0;
                    order_id = order_id;
                    owner = open_orders_address;
                    owner_slot = l.owner_slot;
                    client_order_id = non_zero l.client_order_id;
                  }))
                >>= λ c'. ok (o', c'))))

unfoldable pub cancel_order_v2 :
    Context → Side → Address → OpenOrders → ℕ → DexResult (OpenOrders × Context)
unfolding cancel_leaf_node
cancel_order_v2 c side open_orders_address o order_id =
    remove_by_key (orders c side) order_id >>= λ r. ok_or r order_not_found >>= λ removed.
    cancel_leaf_node (set_orders c side removed.1) removed.0 side o open_orders_address order_id

-- The order found by `cancel_order`: its event where it is the expected owner's, and back into the
-- book where it is not. The `debug_assert_eq!` is not in a release build.
unfoldable pub cancel_found : Context → Side → ℕ → Address → ℕ → LeafNode → DexResult Context
unfolding locked_by
cancel_found c side order_id expected_owner expected_owner_slot l =
    if l.owner == expected_owner && l.owner_slot == expected_owner_slot
    then (locked_by c side l >>= λ native_qty_unlocked. push_event c (
        out (record {
          side = side;
          release_funds = true;
          native_qty_unlocked = native_qty_unlocked;
          native_qty_still_locked = 0;
          order_id = order_id;
          owner = expected_owner;
          owner_slot = expected_owner_slot;
          client_order_id = non_zero l.client_order_id;
        })))
    else (insert_leaf (orders c side) l >>= λ i. elim i.0 [
      | out_of_space ↦ panic
      | inserted _ _ ↦ ok (set_orders c side i.1)
    ])

unfoldable pub cancel_expected : Context → Side → ℕ → Address → ℕ → DexResult Context
unfolding cancel_found
cancel_expected c side order_id expected_owner expected_owner_slot =
    remove_by_key (orders c side) order_id >>= λ r. elim r [
      | none ↦ ok c
      | some removed ↦
          cancel_found (set_orders c side removed.1) side order_id expected_owner
            expected_owner_slot removed.0
    ]

-- `process_orderbook_request`, with the `u16` limit, which a cancel counts down.
unfoldable pub process_orderbook_request :
    Context → RequestView → ℕ → DexResult (Option RequestView × ℕ × Context)
unfolding cancel_expected
process_orderbook_request c (new_order v) limit =
    Order.new_order
      (record {
        side = v.side;
        order_type = v.order_type;
        order_id = v.order_id;
        owner = v.owner;
        owner_slot = v.owner_slot;
        fee_tier = v.fee_tier;
        max_coin_qty = v.max_coin_qty;
        native_pc_qty_locked = v.native_pc_qty_locked;
        client_order_id = get_or_zero v.client_order_id;
        self_trade_behavior = v.self_trade_behavior;
      })
      limit c
    >>= λ r. elim r.0 [
      | none ↦ ok (none, r.1, r.2)
      | some remaining ↦ ok (
        some (
            new_order (record v {
              max_coin_qty = remaining.coin_qty_remaining;
              native_pc_qty_locked = remaining.native_pc_qty_remaining;
            })),
        r.1,
        r.2,
      )
    ]
process_orderbook_request c (cancel_order v) limit =
    cancel_expected c v.side v.order_id v.expected_owner v.expected_owner_slot >>= λ c'.
    ok (none, (limit + (2 ^ 16 - 1)) % 2 ^ 16, c')

-- `filter_map` of `remove_by_key` over the keys found.
unfoldable pub remove_keys : Slab → List ℕ → DexResult (List LeafNode × Slab)
remove_keys s [] = ok ([], s)
remove_keys s (key ∷ keys) = remove_by_key s key >>= λ r. elim r [
  | none ↦ remove_keys s keys
  | some removed ↦ remove_keys removed.1 keys >>= λ rest. ok (removed.0 ∷ rest.0, rest.1)
]

-- The bids and the offers removed.
unfoldable pub remove_all :
    Context → Address → ℕ → DexResult (List LeafNode × List LeafNode × Context)
unfolding remove_keys
remove_all c open_orders limit = find_by c.asks limit (λ l. l.owner == open_orders) >>= λ asks.
    find_by c.bids asks.1 (λ l. l.owner == open_orders) >>= λ bids.
    remove_keys c.bids bids.0 >>= λ bids_removed. remove_keys c.asks asks.0 >>= λ asks_removed.
    ok (bids_removed.0, asks_removed.0, record c { bids = bids_removed.1; asks = asks_removed.1 })
