-- ===== src/Matching/State.antt =====
-- What a request of dex/src/matching.rs works on: the two sides of the book, the market, the event
-- queue and the proceeds. The source passes them as mutable references; here they are one record.
use openbook_dex.Prelude.{ℕ, ◌/◌, ◌%◌, ◌^◌, Bool, Option, u64_mod, checked_add}
use openbook_dex.Error.{DexResult, ok, err, ◌>>=◌, unwrap, error_code, event_queue_full}
use openbook_dex.Fees.{FeeTier}
use openbook_dex.Queue.{Queue, EventQueueHeader, event_header, Pushed, pushed, rejected, push_back}
use openbook_dex.Types.{Side, bid, ask, Address, OrderType, SelfTradeBehavior}
use openbook_dex.Event.{Event, EventView, of_view}
use openbook_dex.Critbit.Node.{LeafNode, as_leaf, leaf_node}
use openbook_dex.Critbit.Alloc.{Slab, get, put}
use openbook_dex.Critbit.Find.{find_min, find_max}
use openbook_dex.Critbit.Remove.{remove_by_key}
use openbook_dex.Market.{MarketState}

abbrev pub EventQueue : Type 0
EventQueue = Queue EventQueueHeader Event

unfoldable pub extract_price_from_order_id : ℕ → ℕ
extract_price_from_order_id order_id = order_id / 2 ^ 64 % u64_mod

pub record RequestProceeds : Type 0 where
  pub coin_unlocked : ℕ
  pub native_pc_unlocked : ℕ
  pub coin_credit : ℕ
  pub native_pc_credit : ℕ
  pub coin_debit : ℕ
  pub native_pc_debit : ℕ

abbrev pub no_proceeds : RequestProceeds
no_proceeds = record {
  coin_unlocked = 0;
  native_pc_unlocked = 0;
  coin_credit = 0;
  native_pc_credit = 0;
  coin_debit = 0;
  native_pc_debit = 0;
}

pub record Context : Type 0 where
  pub bids : Slab
  pub asks : Slab
  pub market_state : MarketState
  pub event_q : EventQueue
  pub proceeds : RequestProceeds

abbrev pub orders : Context → Side → Slab
orders c bid = c.bids
orders c ask = c.asks

abbrev pub set_orders : Context → Side → Slab → Context
set_orders c bid s = record c { bids = s }
set_orders c ask s = record c { asks = s }

unfoldable pub find_bbo : Context → Side → DexResult (Option ℕ)
find_bbo c bid = find_max c.bids
find_bbo c ask = find_min c.asks

-- `orders_mut(side).get_mut(h).unwrap().as_leaf_mut().unwrap()`.
unfoldable pub leaf_at : Context → Side → ℕ → DexResult LeafNode
leaf_at c side h = unwrap (get (orders c side) h) >>= λ n. unwrap (as_leaf n)

-- `set_quantity` through that reference.
unfoldable pub set_quantity : Context → Side → ℕ → LeafNode → ℕ → DexResult Context
set_quantity c side h l quantity =
    put (orders c side) h (leaf_node (record l { quantity = quantity })) >>= λ s.
    ok (set_orders c side s)

-- `orders_mut(side).remove_by_key(key).unwrap()`.
unfoldable pub remove_order : Context → Side → ℕ → DexResult Context
remove_order c side key = remove_by_key (orders c side) key >>= λ r.
    unwrap r >>= λ removed. ok (set_orders c side removed.1)

-- `event_q.push_back(Event::new(view)).map_err(|_| EventQueueFull)?`.
abbrev pub pushed_or_full : Context → Pushed EventQueueHeader Event → DexResult Context
pushed_or_full c (pushed q) = ok (record c { event_q = q })
pushed_or_full c (rejected e) = err (error_code event_queue_full)

unfoldable pub push_event : Context → EventView → DexResult Context
push_event c v = push_back c.event_q (of_view v) >>= λ r. pushed_or_full c r

-- `impl_incr_method!`: each adds to its field, and panics where the sum is no `u64`.
unfoldable pub unlock_coin : Context → ℕ → DexResult Context
unlock_coin c n = unwrap (checked_add c.proceeds.coin_unlocked n) >>= λ t.
    ok (record c { proceeds = record c.proceeds { coin_unlocked = t } })

unfoldable pub unlock_native_pc : Context → ℕ → DexResult Context
unlock_native_pc c n = unwrap (checked_add c.proceeds.native_pc_unlocked n) >>= λ t.
    ok (record c { proceeds = record c.proceeds { native_pc_unlocked = t } })

unfoldable pub credit_coin : Context → ℕ → DexResult Context
credit_coin c n = unwrap (checked_add c.proceeds.coin_credit n) >>= λ t.
    ok (record c { proceeds = record c.proceeds { coin_credit = t } })

unfoldable pub credit_native_pc : Context → ℕ → DexResult Context
credit_native_pc c n = unwrap (checked_add c.proceeds.native_pc_credit n) >>= λ t.
    ok (record c { proceeds = record c.proceeds { native_pc_credit = t } })

unfoldable pub debit_coin : Context → ℕ → DexResult Context
debit_coin c n = unwrap (checked_add c.proceeds.coin_debit n) >>= λ t.
    ok (record c { proceeds = record c.proceeds { coin_debit = t } })

unfoldable pub debit_native_pc : Context → ℕ → DexResult Context
debit_native_pc c n = unwrap (checked_add c.proceeds.native_pc_debit n) >>= λ t.
    ok (record c { proceeds = record c.proceeds { native_pc_debit = t } })

pub record NewOrderParams : Type 0 where
  pub side : Side
  pub order_type : OrderType
  pub order_id : ℕ
  pub owner : Address
  pub owner_slot : ℕ
  pub fee_tier : FeeTier
  pub max_coin_qty : ℕ
  pub native_pc_qty_locked : Option ℕ
  pub client_order_id : ℕ
  pub self_trade_behavior : SelfTradeBehavior

pub record OrderRemaining : Type 0 where
  pub coin_qty_remaining : ℕ
  pub native_pc_qty_remaining : Option ℕ

-- What the rounds of one order share: the fields of `NewAskParams` and `NewBidParams` that describe
-- the order itself.
pub record Taker : Type 0 where
  pub order_id : ℕ
  pub owner : Address
  pub owner_slot : ℕ
  pub fee_tier : FeeTier
  pub post_only : Bool
  pub post_allowed : Bool
  pub client_order_id : ℕ
  pub self_trade_behavior : SelfTradeBehavior

-- How the `loop` of a round ends: by a `return`, or by `break done` with `crossed` set.
pub data Round (Acc : Type 0) : Type 0 where
  returned : Option OrderRemaining → Context → Round Acc
  broke : Bool → Bool → Acc → Context → Round Acc
