-- ===== src/Market/Versions.antt =====
-- `Market` and `MarketStateV2` of dex/src/state.rs: a market may name authorities, and the flags of the
-- account say which layout it has. A mutable reference and a shared one are the same value here.
use Prim.Native.Nat.{bit_and, bit_or}
use openbook_dex.Prelude.{ℕ, Bool, not, ◌||◌, Option, none, some, ◌==◌, if◌then◌else◌}
use openbook_dex.Error.{
  DexResult, ok, ◌>>◌, assert, check_assert, check_or, state, invalid_market_flags,
}
use openbook_dex.Types.{Address}
use openbook_dex.Market.{
  MarketState, check_flags, is_account_flags, initialized_flag, market_flag, disabled_flag,
  permissioned_flag, crank_authority_required_flag,
}

-- An account that the runtime passes in. Its bytes are read as the contents that they hold.
pub record AccountInfo (A : Type 0) : Type 0 where
  pub key : Address
  pub owner : Address
  pub is_signer : Bool
  pub lamports : ℕ
  pub data_len : ℕ
  pub contents : A

pub record MarketStateV2 : Type 0 where
  pub inner : MarketState
  pub open_orders_authority : Address
  pub prune_authority : Address
  pub consume_events_authority : Address

-- `MarketStateV2::check_flags`.
unfoldable pub check_flags_v2 : MarketStateV2 → Bool → DexResult (Unit {0})
check_flags_v2 m allow_disabled =
    let flags = m.inner.account_flags in
    let required = bit_or (bit_or initialized_flag market_flag) permissioned_flag in
    let required_crank = bit_or required crank_authority_required_flag in
    let required_ok = flags == required || flags == required_crank in
    let disabled_ok =
      flags == bit_or required disabled_flag || flags == bit_or required_crank disabled_flag in
    check_or (is_account_flags flags) invalid_market_flags
    >> check_or (if allow_disabled then required_ok || disabled_ok else required_ok)
        invalid_market_flags

pub data Market : Type 0 where
  v1 : MarketState → Market
  v2 : MarketStateV2 → Market

-- `Deref for Market`.
abbrev pub market_state : Market → MarketState
market_state (v1 m) = m
market_state (v2 m) = m.inner

unfoldable pub open_orders_authority : Market → Option Address
open_orders_authority (v1 m) = none
open_orders_authority (v2 m) = some m.open_orders_authority

unfoldable pub prune_authority : Market → Option Address
prune_authority (v1 m) = none
prune_authority (v2 m) = some m.prune_authority

-- `BitFlags::from_bits(..).unwrap()` panics on a bit that is no flag.
unfoldable pub consume_events_authority : Market → DexResult (Option Address)
consume_events_authority (v1 m) = ok none
consume_events_authority (v2 m) =
    let flags = m.inner.account_flags in
    assert (is_account_flags flags)
    >> ok (
        if not (bit_and flags crank_authority_required_flag == 0)
        then some m.consume_events_authority
        else none)

-- `MarketState::load` and `MarketStateV2::load`, on a market account. A V1 account has no room for the
-- authorities, and nothing reads them there.
unfoldable pub load_v1 : AccountInfo MarketStateV2 → Address → Bool → DexResult Market
load_v1 account program_id allow_disabled =
    check_assert state 542 (account.owner == program_id)
    >> (check_flags account.contents.inner allow_disabled >> ok (v1 account.contents.inner))

unfoldable pub load_v2 : AccountInfo MarketStateV2 → Address → Bool → DexResult Market
unfolding check_flags_v2
load_v2 account program_id allow_disabled =
    check_assert state 279 (account.owner == program_id)
    >> (check_flags_v2 account.contents allow_disabled >> ok (v2 account.contents))

-- `Market::load`.
unfoldable pub load_market : AccountInfo MarketStateV2 → Address → Bool → DexResult Market
unfolding load_v1 load_v2
load_market account program_id allow_disabled =
    let flags = account.contents.inner.account_flags in
    check_or (is_account_flags flags) invalid_market_flags
    >> (if not (bit_and flags permissioned_flag == 0)
        then load_v2 account program_id allow_disabled
        else load_v1 account program_id allow_disabled)
