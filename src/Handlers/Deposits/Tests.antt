-- ===== src/Handlers/Deposits/Tests.antt =====
-- The bid of `Sample` with client id 9 is canceled, and a new bid with that id takes its place:
-- `process_replace_orders_by_client_ids` of dex/src/state.rs.
use openbook_dex.Prelude.{
  ℕ, ◌+◌, ◌-◌, ◌*◌, ◌^◌, ◌≡◌, refl, true, [], ◌∷◌, arith, leb, u128_mod, checked_add, checked_sub,
  add64, sub64, mul64,
}
use openbook_dex.Error.{ok, err, panic}
use openbook_dex.Fees.{
  maker_rebate, taker_fee, remove_taker_fee, referrer_rebate, maker_rate, taker_rate, tier_from_u8,
  tier_to_u8, from_srm_and_msrm_balances,
}
use openbook_dex.Queue.{push_back}
use openbook_dex.Event.{of_view}
use openbook_dex.Types.{bid, limit, decrement_take}
use openbook_dex.Request.{gen_order_id, gen_seq_num, lower_half}
use openbook_dex.Critbit.Node.{leaf_price, as_leaf, leaf_fee_tier, case, new_leaf}
use openbook_dex.Critbit.Alloc.{get, put, remove, insert, insert_bump}
use openbook_dex.Critbit.Find.{find_min, find_min_max, root, find_min_max_from, view_at}
use openbook_dex.Critbit.Insert.{insert_leaf, insert_root}
use openbook_dex.Critbit.Remove.{remove_by_key, remove_root}
use openbook_dex.OpenOrders.{
  OpenOrders, check_flags, credit_locked_coin, credit_locked_pc, lock_free_pc, unlock_coin,
  unlock_pc, add_order, slot_is_free, add_side, slot_side, iter_filled_slots, iter_filled_from,
}
use openbook_dex.Instruction.{NewOrderInstructionV3}
use openbook_dex.Market
use openbook_dex.Market.{check_enabled}
use openbook_dex.Market.Versions.{AccountInfo, load_market}
use openbook_dex.Market.Loads.{
  Rent, TokenAccount, load_orders_mut, load_request_queue_mut, load_event_queue_mut, load_bids_mut,
  load_asks_mut, load_fee_tier, check_coin_vault, check_pc_vault, check_pc_payer,
}
use openbook_dex.Matching.Sample.{market, one_order, no_order, no_events}
use openbook_dex.Matching.State.{
  extract_price_from_order_id, leaf_at, find_bbo, set_quantity, remove_order, push_event,
  credit_coin, debit_native_pc, unlock_native_pc,
}
use openbook_dex.Matching.Bid.{
  new_bid, remaining_of, div64, round, against, trade, settle, finish, to_post_at, release, post,
}
use openbook_dex.Matching.Order.{new_order, match_round, match_rounds}
use openbook_dex.Matching.Cancel.{
  process_orderbook_request, locked_by, unlock, cancel_leaf_node, cancel_order_v2,
}
use openbook_dex.Vault.Sample.{Table, tables, tables-TokenLaws}
use openbook_dex.Place.{checked_mul, place_order}
use openbook_dex.Place.Deposit.{process_new_order_v3}
use openbook_dex.Handlers.Accounts.{KeyAccount}
use openbook_dex.Handlers.Cancels.{is_member, chosen}
use openbook_dex.Handlers.Placing.{
  NewOrderAccounts, replace_orders_by_client_ids_instruction, check_payer,
}
use openbook_dex.Handlers.Funded.{IsFunded}
use openbook_dex.Handlers.Deposits.{HasSigned, replace_orders_lem}

abbrev account_at : {A : Type 0} → ℕ → ℕ → A → AccountInfo A
account_at key owner contents = record {
  key = key;
  owner = owner;
  is_signer = true;
  lamports = 9;
  data_len = 400;
  contents = contents;
}

abbrev key_at : ℕ → KeyAccount
key_at key = account_at key 20 tt

-- The token program is 60.
abbrev tokens_at : ℕ → ℕ → AccountInfo TokenAccount
tokens_at key mint = account_at key 60 (record { mint = mint; owner = 2; balance = 100000 })

abbrev bid_id : ℕ
bid_id = 100 * 2 ^ 64 + 5

abbrev held : OpenOrders
held = record {
  account_flags = 5;
  market = 1;
  owner = 2;
  native_coin_free = 0;
  native_coin_total = 0;
  native_pc_free = 10;
  native_pc_total = 30000;
  free_slot_bits = u128_mod - 1 - 8;
  is_bid_bits = 8;
  orders = 0 ∷ 0 ∷ 0 ∷ bid_id ∷ [];
  client_order_ids = 0 ∷ 0 ∷ 0 ∷ 9 ∷ [];
  referrer_rebates_accrued = 0;
}

abbrev accounts : NewOrderAccounts
accounts = record {
  market = account_at 1 20 (record {
    inner = market;
    open_orders_authority = 0;
    prune_authority = 0;
    consume_events_authority = 0;
  });
  open_orders = account_at 7 20 held;
  req_q = account_at 6 20 (record {
    header = record { account_flags = 9; head = 0; count = 0; next_seq_num = 6 };
    buf = [];
  });
  event_q = account_at 8 20 no_events;
  bids = account_at 9 20 (record { account_flags = 33; slab = one_order });
  asks = account_at 10 20 (record { account_flags = 65; slab = no_order });
  payer = tokens_at 50 3;
  owner = key_at 2;
  coin_vault = tokens_at 4 2;
  pc_vault = tokens_at 5 3;
  spl_token_program = key_at 60;
  fee_discount = [];
}

abbrev order : NewOrderInstructionV3
order = record {
  side = bid;
  limit_price = 110;
  max_coin_qty = 10;
  max_native_pc_qty_including_fees = 60000;
  self_trade_behavior = decrement_take;
  order_type = limit;
  client_order_id = 9;
  limit = 5;
  max_ts = 100;
}

abbrev rent : Rent
rent lamports data_len = leb data_len lamports

abbrev start : Table
start = λ x. 100000

abbrev replaced : NewOrderAccounts × Table
replaced =
    elim (replace_orders_by_client_ids_instruction tables 60 20 rent 90 (order ∷ []) accounts
      start) [ ok r ↦ r | err e ↦ (accounts, start) | panic ↦ (accounts, start) ]

replaces :
    replace_orders_by_client_ids_instruction tables 60 20 rent 90 (order ∷ []) accounts start
    ≡ ok replaced
unfolding replace_orders_by_client_ids_instruction load_market Market.check_flags load_orders_mut
    check_flags load_request_queue_mut load_event_queue_mut load_bids_mut load_asks_mut
    load_fee_tier check_coin_vault check_pc_vault check_pc_payer check_enabled
    from_srm_and_msrm_balances cancel_order_v2 cancel_leaf_node locked_by unlock iter_filled_slots
    iter_filled_from slot_side is_member chosen check_payer process_new_order_v3 place_order
    lock_free_pc credit_locked_pc unlock_coin unlock_pc credit_locked_coin add_order slot_is_free
    add_side gen_order_id gen_seq_num lower_half process_orderbook_request checked_mul new_order
    match_rounds match_round remaining_of extract_price_from_order_id new_bid round against trade
    settle finish to_post_at release post div64 find_bbo leaf_at set_quantity remove_order
    push_event credit_coin debit_native_pc unlock_native_pc find_min find_min_max root
    find_min_max_from view_at case as_leaf get put leaf_price leaf_fee_tier tier_from_u8 tier_to_u8
    remove_by_key remove_root remove insert_leaf insert_root insert insert_bump new_leaf push_back
    of_view checked_add checked_sub maker_rebate taker_fee remove_taker_fee referrer_rebate
    maker_rate taker_rate add64 sub64 mul64
replaces = refl

replace_orders_lem_example :
    HasSigned 20 accounts × IsFunded tables accounts replaced.0 start replaced.1
replace_orders_lem_example =
    replace_orders_lem tables tables-TokenLaws 60 20 rent 90 (order ∷ []) accounts replaced.0 start
      replaced.1 (omega arith, tt)
      (record {
        vaults = λ e. absurd (omega (arith, e));
        payer_coin = λ e. absurd (omega (arith, e));
        payer_pc = λ e. absurd (omega (arith, e));
      })
      replaces
