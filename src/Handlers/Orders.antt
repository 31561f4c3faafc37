-- ===== src/Handlers/Orders.antt =====
-- `CloseOpenOrdersArgs` and `InitOpenOrdersArgs` of dex/src/state.rs, with their handlers.
use openbook_dex.Prelude.{
  ℕ, ◌-◌, true, false, ◌||◌, Option, none, some, ◌==◌, if◌then◌else◌, u128_mod, checked_add,
}
use openbook_dex.Error.{
  DexResult, ok, ◌>>=◌, ◌>>◌, unwrap, check_or, check_assert, state, too_many_open_orders,
}
use openbook_dex.Types.{Address}
use openbook_dex.OpenOrders.{OpenOrders}
use openbook_dex.Market.{closed_flag}
use openbook_dex.Market.Versions.{AccountInfo, MarketStateV2, load_market}
use openbook_dex.Market.Loads.{Rent, load_orders_mut}
use openbook_dex.Handlers.Accounts.{KeyAccount, signer_account}

-- The account that is closed and the one that gets its lamports.
pub record Closed : Type 0 where
  pub open_orders : AccountInfo OpenOrders
  pub dest : KeyAccount

-- `process_close_open_orders`; `o` is what was loaded from the account. An account passed twice loses
-- what it was given.
unfoldable pub process_close_open_orders :
    AccountInfo OpenOrders → KeyAccount → OpenOrders → DexResult Closed
process_close_open_orders open_orders dest o =
    unwrap (checked_add dest.lamports open_orders.lamports) >>= λ lamports. ok (record {
      open_orders = record open_orders {
        lamports = 0;
        contents = record o { account_flags = closed_flag };
      };
      dest = record dest { lamports = if open_orders.key == dest.key then 0 else lamports };
    })

unfoldable pub close_open_orders_instruction :
    Address
    → ℕ
    → AccountInfo OpenOrders
    → KeyAccount
    → KeyAccount
    → AccountInfo MarketStateV2
    → DexResult Closed
unfolding signer_account process_close_open_orders
close_open_orders_instruction program_id count open_orders owner dest market_acc =
    check_assert state 2608 (count == 4)
    >> (signer_account owner
        >> (load_market market_acc program_id true >>= λ market.
            load_orders_mut market open_orders (some owner.key) program_id none none >>= λ o.
            check_or (o.free_slot_bits == u128_mod - 1) too_many_open_orders
            >> (check_or (o.native_coin_total == 0) too_many_open_orders
                >> (check_or (o.native_pc_total == 0) too_many_open_orders
                    >> process_close_open_orders open_orders dest o))))

-- The authority is the last account, if there is one more than the four.
unfoldable pub authority_key : Option KeyAccount → DexResult (Option Address)
unfolding signer_account
authority_key none = ok none
authority_key (some account) = signer_account account >> ok (some account.key)

unfoldable pub init_open_orders_instruction :
    Address
    → Rent
    → ℕ
    → AccountInfo OpenOrders
    → KeyAccount
    → AccountInfo MarketStateV2
    → Option KeyAccount
    → DexResult (AccountInfo OpenOrders)
unfolding authority_key signer_account
init_open_orders_instruction program_id rent count open_orders owner market_acc authority =
    check_assert state 2663 (count == 4 || count == 5)
    >> (authority_key authority >>= λ key.
        signer_account owner
        >> (load_market market_acc program_id false >>= λ market.
            load_orders_mut market open_orders (some owner.key) program_id (some rent) key >>= λ o.
            ok (record open_orders { contents = o })))
