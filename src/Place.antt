-- ===== src/Place.antt =====
-- `process_new_order_v3` of dex/src/state.rs, from the check of the request queue to the proceeds: the
-- order's funds are locked, the order is matched, and what it did is booked on the open orders. The
-- payer's balance, which the handler reads from the token account, is an argument. `Deposit` has the
-- test of the time before it and the token transfer after.
pub mod Funds
pub mod Deposit
pub mod Ledger
mod Tests
use Prim.Native.Nat.{min}
use openbook_dex.Prelude.{
  ℕ, ◌*◌, Option, none, some, not, ltb, leb, ◌==◌, if◌then◌else◌, u64_mod, sub64, checked_add,
  checked_sub, set,
}
use openbook_dex.Error.{
  DexResult, ok, ◌>>=◌, ◌>>◌, unwrap, ok_or, check_or, check_assert, state, insufficient_funds,
}
use openbook_dex.Fees.{FeeTier}
use openbook_dex.Instruction.{NewOrderInstructionV3}
use openbook_dex.Types.{Side, bid, ask, Address, non_zero}
use openbook_dex.Market.{MarketState}
use openbook_dex.OpenOrders.{
  OpenOrders, credit_locked_coin, credit_locked_pc, lock_free_coin, lock_free_pc, unlock_coin,
  unlock_pc, add_order,
}
use openbook_dex.Request.{RequestQueue, gen_order_id, new_order}
use openbook_dex.Matching.State.{Context, RequestProceeds, no_proceeds}
use openbook_dex.Matching.Bid.{is_some}
use openbook_dex.Matching.Cancel.{process_orderbook_request}

-- `checked_mul` of two `u64`.
unfoldable pub checked_mul : ℕ → ℕ → Option ℕ
checked_mul a b = if ltb (a * b) u64_mod then some (a * b) else none

-- What locking leaves: the deposit, the locked amount of a bid, the market and the account.
pub record Locked : Type 0 where
  pub deposit_amount : ℕ
  pub native_pc_qty_locked : Option ℕ
  pub market : MarketState
  pub open_orders : OpenOrders

unfoldable pub lock_bid : NewOrderInstructionV3 → ℕ → MarketState → OpenOrders → DexResult Locked
lock_bid i balance m o =
    let lock_qty_native = i.max_native_pc_qty_including_fees in
    let free_qty_to_lock = min lock_qty_native o.native_pc_free in
    let deposit = sub64 lock_qty_native free_qty_to_lock in
    check_or (not (ltb balance deposit)) insufficient_funds
    >> (lock_free_pc o free_qty_to_lock >>= λ o₁. credit_locked_pc o₁ deposit >>= λ o₂.
        unwrap (checked_add m.pc_deposits_total deposit) >>= λ t. ok (record {
          deposit_amount = deposit;
          native_pc_qty_locked = some lock_qty_native;
          market = record m { pc_deposits_total = t };
          open_orders = o₂;
        }))

unfoldable pub lock_ask : NewOrderInstructionV3 → ℕ → MarketState → OpenOrders → DexResult Locked
unfolding checked_mul
lock_ask i balance m o =
    ok_or (checked_mul i.max_coin_qty m.coin_lot_size) insufficient_funds >>= λ lock_qty_native.
    (let free_qty_to_lock = min lock_qty_native o.native_coin_free in
      let deposit = sub64 lock_qty_native free_qty_to_lock in
      check_or (not (ltb balance deposit)) insufficient_funds
      >> (lock_free_coin o free_qty_to_lock >>= λ o₁. credit_locked_coin o₁ deposit >>= λ o₂.
          unwrap (checked_add m.coin_deposits_total deposit) >>= λ t. ok (record {
            deposit_amount = deposit;
            native_pc_qty_locked = none;
            market = record m { coin_deposits_total = t };
            open_orders = o₂;
          })))

unfoldable pub lock_funds : NewOrderInstructionV3 → ℕ → MarketState → OpenOrders → DexResult Locked
unfolding lock_bid lock_ask
lock_funds i balance m o = elim i.side [
  | bid ↦ lock_bid i balance m o
  | ask ↦ lock_ask i balance m o
]

-- The proceeds of the request, booked on the open orders.
unfoldable pub book_proceeds : ℕ → RequestProceeds → OpenOrders → DexResult OpenOrders
unfolding checked_mul
book_proceeds coin_lot_size p o =
    unwrap (checked_mul p.coin_unlocked coin_lot_size) >>= λ native_coin_unlocked.
    unwrap (checked_mul p.coin_credit coin_lot_size) >>= λ native_coin_credit.
    unwrap (checked_mul p.coin_debit coin_lot_size) >>= λ native_coin_debit.
    credit_locked_coin o native_coin_credit >>= λ o₁. unlock_coin o₁ native_coin_credit >>= λ o₂.
    unlock_coin o₂ native_coin_unlocked >>= λ o₃. credit_locked_pc o₃ p.native_pc_credit >>= λ o₄.
    unlock_pc o₄ p.native_pc_credit >>= λ o₅. unlock_pc o₅ p.native_pc_unlocked >>= λ o₆.
    unwrap (checked_sub o₆.native_coin_total native_coin_debit) >>= λ coin_total.
    unwrap (checked_sub o₆.native_pc_total p.native_pc_debit) >>= λ pc_total.
    check_assert state 3467 (leb o₆.native_coin_free coin_total)
    >> (check_assert state 3468 (leb o₆.native_pc_free pc_total)
        >> ok (record o₆ { native_coin_total = coin_total; native_pc_total = pc_total }))

-- What the handler leaves: the deposit still to be transferred, the queue, the account, the book.
pub record Placed : Type 0 where
  pub deposit_amount : ℕ
  pub req_q : RequestQueue
  pub open_orders : OpenOrders
  pub context : Context

unfoldable pub place_order :
    NewOrderInstructionV3
    → ℕ
    → FeeTier
    → Address
    → RequestQueue
    → OpenOrders
    → Context
    → DexResult Placed
unfolding lock_funds book_proceeds
place_order i balance fee_tier address q o c =
    check_assert state 3358 (q.header.count == 0)
    >> (lock_funds i balance c.market_state o >>= λ l.
        let g = gen_order_id q i.limit_price i.side in
        add_order l.open_orders g.0 i.side >>= λ added.
        let o₁ = record added.1 {
          client_order_ids = set (added.1).client_order_ids added.0 i.client_order_id;
        } in
        process_orderbook_request (record c { market_state = l.market; proceeds = no_proceeds })
          (new_order (record {
            side = i.side;
            order_type = i.order_type;
            order_id = g.0;
            fee_tier = fee_tier;
            self_trade_behavior = i.self_trade_behavior;
            owner = address;
            owner_slot = added.0;
            max_coin_qty = i.max_coin_qty;
            native_pc_qty_locked = l.native_pc_qty_locked;
            client_order_id = non_zero i.client_order_id;
          }))
          i.limit
        >>= λ r.
            check_assert state 3431 (not (is_some r.0))
            >> (book_proceeds (r.2).market_state.coin_lot_size (r.2).proceeds o₁ >>= λ o₂.
                ok (record {
                  deposit_amount = l.deposit_amount;
                  req_q = g.1;
                  open_orders = o₂;
                  context = r.2;
                })))
