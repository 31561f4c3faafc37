-- ===== src/Market.antt =====
-- `AccountFlag` and `MarketState` of dex/src/state.rs. `Versions` has the market with and without
-- authorities, `Loads` what reads the accounts that come with a market.
pub mod Versions
pub mod Loads
pub mod Flags
pub mod Claims
mod Tests
use Prim.Native.Nat.{bit_and, bit_or}
use openbook_dex.Prelude.{ℕ, ◌+◌, ◌^◌, ◌-◌, Bool, false, ◌||◌, leb, ◌==◌, if◌then◌else◌}
use openbook_dex.Error.{DexResult, ◌>>◌, assert, check_or, invalid_market_flags, market_is_disabled}
use openbook_dex.Types.{Address}

abbrev pub initialized_flag : ℕ
initialized_flag = 2 ^ 0

abbrev pub market_flag : ℕ
market_flag = 2 ^ 1

abbrev pub open_orders_flag : ℕ
open_orders_flag = 2 ^ 2

abbrev pub request_queue_flag : ℕ
request_queue_flag = 2 ^ 3

abbrev pub event_queue_flag : ℕ
event_queue_flag = 2 ^ 4

abbrev pub bids_flag : ℕ
bids_flag = 2 ^ 5

abbrev pub asks_flag : ℕ
asks_flag = 2 ^ 6

abbrev pub disabled_flag : ℕ
disabled_flag = 2 ^ 7

abbrev pub closed_flag : ℕ
closed_flag = 2 ^ 8

abbrev pub permissioned_flag : ℕ
permissioned_flag = 2 ^ 9

abbrev pub crank_authority_required_flag : ℕ
crank_authority_required_flag = 2 ^ 10

-- `BitFlags::<AccountFlag>::from_bits` accepts the eleven flags.
abbrev pub is_account_flags : ℕ → Bool
is_account_flags n = leb n (2 ^ 11 - 1)

pub record MarketState : Type 0 where
  pub account_flags : ℕ
  pub own_address : Address
  pub vault_signer_nonce : ℕ
  pub coin_mint : Address
  pub pc_mint : Address
  pub coin_vault : Address
  pub coin_deposits_total : ℕ
  pub coin_fees_accrued : ℕ
  pub pc_vault : Address
  pub pc_deposits_total : ℕ
  pub pc_fees_accrued : ℕ
  pub pc_dust_threshold : ℕ
  pub req_q : Address
  pub event_q : Address
  pub bids : Address
  pub asks : Address
  pub coin_lot_size : ℕ
  pub pc_lot_size : ℕ
  pub fee_rate_bps : ℕ
  pub referrer_rebates_accrued : ℕ

-- What the quote vault is there for: the deposits, the fees and the rebates.
abbrev pub pc_owed : MarketState → ℕ
pc_owed m = m.pc_deposits_total + m.pc_fees_accrued + m.referrer_rebates_accrued

unfoldable pub check_flags : MarketState → Bool → DexResult (Unit {0})
check_flags m allow_disabled =
    let required = bit_or initialized_flag market_flag in
    check_or (is_account_flags m.account_flags) invalid_market_flags
    >> check_or
        (m.account_flags == required
          || (if allow_disabled then m.account_flags == bit_or required disabled_flag else false))
        invalid_market_flags

unfoldable pub check_enabled : MarketState → DexResult (Unit {0})
check_enabled m =
    assert (is_account_flags m.account_flags)
    >> check_or (bit_and m.account_flags disabled_flag == 0) market_is_disabled

-- `process_disable_market`.
unfoldable pub disable_market : MarketState → MarketState
disable_market m = record m { account_flags = bit_or m.account_flags disabled_flag }
