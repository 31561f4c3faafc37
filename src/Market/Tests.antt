-- ===== src/Market/Tests.antt =====
-- A market of dex/src/state.rs with an authority for its open orders, and an account that is claimed on
-- it.
use openbook_dex.Prelude.{◌≡◌, ◌⊎◌, refl, true, false, [], ◌∷◌, some, leb}
use openbook_dex.Error.{ok, err, panic, error_code, invalid_market_flags, market_is_disabled}
use openbook_dex.OpenOrders.{OpenOrders, check_flags, init}
use openbook_dex.Market.{MarketState, check_enabled}
use openbook_dex.Market.Versions.{
  AccountInfo, MarketStateV2, v2, market_state, load_market, open_orders_authority, check_flags_v2,
}
use openbook_dex.Market.Loads.{Rent, load_orders_mut}
use openbook_dex.Market.Flags.{disabled_account, disabled, disable_market_lem}
use openbook_dex.Market.Claims.{IsLoaded, IsClaimed, load_orders_mut_lem}

abbrev plain : MarketState
plain = record {
  account_flags = 515;
  own_address = 1;
  vault_signer_nonce = 0;
  coin_mint = 2;
  pc_mint = 3;
  coin_vault = 4;
  coin_deposits_total = 0;
  coin_fees_accrued = 0;
  pc_vault = 5;
  pc_deposits_total = 0;
  pc_fees_accrued = 0;
  pc_dust_threshold = 1;
  req_q = 6;
  event_q = 8;
  bids = 9;
  asks = 10;
  coin_lot_size = 10;
  pc_lot_size = 50;
  fee_rate_bps = 0;
  referrer_rebates_accrued = 0;
}

abbrev governed : MarketStateV2
governed = record {
  inner = plain;
  open_orders_authority = 30;
  prune_authority = 31;
  consume_events_authority = 32;
}

abbrev market_account : AccountInfo MarketStateV2
market_account = record {
  key = 1;
  owner = 20;
  is_signer = false;
  lamports = 9;
  data_len = 400;
  contents = governed;
}

loads : load_market market_account 20 true ≡ ok (v2 governed)
unfolding load_market check_flags_v2
loads = refl

disable_market_lem_example :
    (load_market (disabled_account market_account) 20 true ≡ ok (disabled (v2 governed)))
    × (load_market (disabled_account market_account) 20 false
        ≡ err (error_code invalid_market_flags))
    × (check_enabled (market_state (disabled (v2 governed))) ≡ err (error_code market_is_disabled))
disable_market_lem_example = disable_market_lem market_account 20 (v2 governed) loads

abbrev unused : OpenOrders
unused = record {
  account_flags = 0;
  market = 0;
  owner = 0;
  native_coin_free = 0;
  native_coin_total = 0;
  native_pc_free = 0;
  native_pc_total = 0;
  free_slot_bits = 0;
  is_bid_bits = 0;
  orders = 0 ∷ 0 ∷ [];
  client_order_ids = 0 ∷ 0 ∷ [];
  referrer_rebates_accrued = 0;
}

abbrev orders_account : AccountInfo OpenOrders
orders_account = record {
  key = 7;
  owner = 20;
  is_signer = false;
  lamports = 9;
  data_len = 4;
  contents = unused;
}

-- A lamport pays for a byte.
abbrev rent : Rent
rent lamports data_len = leb data_len lamports

abbrev claimed : OpenOrders
claimed = elim (init unused 1 2) [ ok o ↦ o | err e ↦ unused | panic ↦ unused ]

claims : load_orders_mut (v2 governed) orders_account (some 2) 20 (some rent) (some 30) ≡ ok claimed
unfolding load_orders_mut init check_flags open_orders_authority
claims = refl

load_orders_mut_lem_example :
    IsLoaded (v2 governed) orders_account (some 2) 20 claimed
    × ((claimed ≡ unused) ⊎ IsClaimed (v2 governed) orders_account (some rent) (some 30) claimed)
load_orders_mut_lem_example =
    load_orders_mut_lem (v2 governed) orders_account (some 2) 20 (some rent) (some 30) claimed
      claims
