-- ===== src/Vault/Tests.antt =====
-- Payments of dex/src/state.rs from the vaults, with balances in a table for the token program.
use openbook_dex.Prelude.{
  ◌+◌, ◌≡◌, refl, [], some, arith, ◌==◌, if◌then◌else◌, add64, sub64, checked_sub,
}
use openbook_dex.Error.{ok, err, panic}
use openbook_dex.Market.{MarketState}
use openbook_dex.OpenOrders.{OpenOrders}
use openbook_dex.Vault.{Funds, send_from_vault, settle_rebates, settle_funds, sweep_fees}
use openbook_dex.Vault.Sample.{Table, tables, tables-TokenLaws}
use openbook_dex.Vault.Settle.{SettleSpec, settle_funds_lem, sweep_fees_lem}
use openbook_dex.Market.{pc_owed}

abbrev market : MarketState
market = record {
  account_flags = 3;
  own_address = 1;
  vault_signer_nonce = 0;
  coin_mint = 2;
  pc_mint = 3;
  coin_vault = 4;
  coin_deposits_total = 1000;
  coin_fees_accrued = 0;
  pc_vault = 5;
  pc_deposits_total = 100000;
  pc_fees_accrued = 70;
  pc_dust_threshold = 1;
  req_q = 6;
  event_q = 8;
  bids = 9;
  asks = 10;
  coin_lot_size = 10;
  pc_lot_size = 50;
  fee_rate_bps = 0;
  referrer_rebates_accrued = 30;
}

abbrev account : OpenOrders
account = record {
  account_flags = 5;
  market = 1;
  owner = 2;
  native_coin_free = 40;
  native_coin_total = 100;
  native_pc_free = 500;
  native_pc_total = 700;
  free_slot_bits = 0;
  is_bid_bits = 0;
  orders = [];
  client_order_ids = [];
  referrer_rebates_accrued = 20;
}

-- Both vaults hold 200000.
abbrev balances : Table
balances = λ x. if x == 4 then 200000 else if x == 5 then 200000 else 0

abbrev before : Funds Table
before = record { market = market; open_orders = account; tokens = balances }

abbrev after : Funds Table
after = elim (settle_funds tables 20 21 (some 22) before) [
  | ok f ↦ f
  | err e ↦ before
  | panic ↦ before
]

settled : settle_funds tables 20 21 (some 22) before ≡ ok after
unfolding settle_funds settle_rebates send_from_vault checked_sub add64 sub64
settled = refl

settle_funds_lem_example : SettleSpec tables tables-TokenLaws 20 21 (some 22) before after
settle_funds_lem_example =
    settle_funds_lem tables tables-TokenLaws before after 20 21 (some 22)
      (record {
        coin = omega arith;
        pc = omega arith;
        rebates = omega arith;
        coin_u64 = omega arith;
        pc_u64 = omega arith;
        rebates_u64 = omega arith;
        fees_u64 = omega arith;
      })
      (record {
        vaults = λ e. omega arith;
        coin_coin = λ e. omega arith;
        coin_pc = λ e. omega arith;
        pc_coin = λ e. omega arith;
        pc_pc = λ e. omega arith;
        coin_referrer = λ e. cc;
        pc_referrer = λ e. cc;
      })
      settled

abbrev swept : MarketState × Table
swept = elim (sweep_fees tables 23 market balances) [
  | ok r ↦ r
  | err e ↦ (market, balances)
  | panic ↦ (market, balances)
]

sweeps : sweep_fees tables 23 market balances ≡ ok swept
unfolding sweep_fees send_from_vault
sweeps = refl

sweep_fees_lem_example :
    (balances 5 + pc_owed swept.0 ≡ (swept.1) 5 + pc_owed market)
    × ((swept.0).pc_fees_accrued ≡ 0)
    × ((swept.1) 23 ≡ balances 23 + 70)
sweep_fees_lem_example =
    sweep_fees_lem tables tables-TokenLaws market swept.0 balances swept.1 23 (λ e. omega arith)
      sweeps
