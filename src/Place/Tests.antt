-- ===== src/Place/Tests.antt =====
-- A bid for 700 native units by an account with 500 free ones, in dex/src/state.rs.
use openbook_dex.Prelude.{
  ◌≡◌, refl, [], ◌∷◌, ◌-◌, u128_mod, none, arith, sub64, checked_add, checked_sub, add64, mul64,
}
use openbook_dex.Error.{ok, err, panic}
use openbook_dex.Types.{bid, limit, decrement_take}
use openbook_dex.OpenOrders.{
  OpenOrders, credit_locked_coin, credit_locked_pc, lock_free_pc, unlock_coin, unlock_pc, add_order,
  slot_is_free, slot_mask, add_side,
}
use openbook_dex.Matching.State.{RequestProceeds}
use openbook_dex.Matching.Sample.{market}
use openbook_dex.Instruction.{NewOrderInstructionV3}
use openbook_dex.Place.{Locked, checked_mul, lock_bid, lock_funds, book_proceeds, place_order}
use openbook_dex.Fees.{
  base, maker_rebate, taker_fee, remove_taker_fee, referrer_rebate, maker_rate, taker_rate,
  tier_from_u8, tier_to_u8,
}
use openbook_dex.Queue.{push_back}
use openbook_dex.Event.{of_view}
use openbook_dex.Request.{gen_order_id, gen_seq_num, lower_half}
use openbook_dex.Critbit.Node.{leaf_price, as_leaf, leaf_fee_tier, case, new_leaf}
use openbook_dex.Critbit.Alloc.{get, put, remove, insert, insert_bump}
use openbook_dex.Critbit.Find.{find_min, find_min_max, root, find_min_max_from, view_at}
use openbook_dex.Critbit.Insert.{insert_leaf, insert_root}
use openbook_dex.Critbit.Remove.{remove_by_key, remove_root}
use openbook_dex.Matching.State.{
  extract_price_from_order_id, leaf_at, find_bbo, set_quantity, remove_order, push_event,
  credit_coin, debit_native_pc, unlock_native_pc,
}
use openbook_dex.Matching.Bid.{
  new_bid, remaining_of, div64, round, against, trade, settle, finish, to_post_at, release, post,
}
use openbook_dex.Matching.Order.{new_order, match_round, match_rounds}
use openbook_dex.Matching.Cancel.{process_orderbook_request}
use openbook_dex.Matching.Sample.{with_offer}
use openbook_dex.Vault.Sample.{Table, tables, tables-TokenLaws}
use openbook_dex.Place.Deposit.{PlaceAccounts, PlaceState, process_new_order_v3}
use openbook_dex.Place.Ledger.{PlaceSpec, process_new_order_v3_lem}
use openbook_dex.Place.Funds.{Booked, BidLocked, book_proceeds_lem, lock_funds_lem}

abbrev account : OpenOrders
account = record {
  account_flags = 5;
  market = 1;
  owner = 2;
  native_coin_free = 40;
  native_coin_total = 100;
  native_pc_free = 500;
  native_pc_total = 700;
  free_slot_bits = 0;
  is_bid_bits = 0;
  orders = [];
  client_order_ids = [];
  referrer_rebates_accrued = 20;
}

abbrev buying : NewOrderInstructionV3
buying = record {
  side = bid;
  limit_price = 3;
  max_coin_qty = 4;
  max_native_pc_qty_including_fees = 700;
  self_trade_behavior = decrement_take;
  order_type = limit;
  client_order_id = 0;
  limit = 5;
  max_ts = 100;
}

abbrev nothing : Locked
nothing = record {
  deposit_amount = 0;
  native_pc_qty_locked = none;
  market = market;
  open_orders = account;
}

abbrev after : Locked
after = elim (lock_funds buying 1000 market account) [
  | ok l ↦ l
  | err e ↦ nothing
  | panic ↦ nothing
]

locked : lock_funds buying 1000 market account ≡ ok after
unfolding lock_funds lock_bid lock_free_pc credit_locked_pc checked_add checked_sub sub64
locked = refl

lock_funds_lem_example : BidLocked 1000 700 market account after
lock_funds_lem_example = lock_funds_lem buying 1000 market account after (omega arith) locked

-- Two lots bought for 150.
abbrev proceeds : RequestProceeds
proceeds = record {
  coin_unlocked = 0;
  native_pc_unlocked = 50;
  coin_credit = 2;
  native_pc_credit = 0;
  coin_debit = 0;
  native_pc_debit = 150;
}

abbrev booked : OpenOrders
booked = elim (book_proceeds 10 proceeds account) [ ok o ↦ o | err e ↦ account | panic ↦ account ]

books : book_proceeds 10 proceeds account ≡ ok booked
unfolding book_proceeds checked_mul credit_locked_coin credit_locked_pc unlock_coin unlock_pc
    checked_add checked_sub
books = refl

book_proceeds_lem_example : Booked 10 proceeds account booked
book_proceeds_lem_example = book_proceeds_lem 10 proceeds account booked books

-- A bid for ten lots at 110, by an account with free slots and a payer with 100000 quote units, on the
-- book with one offer.
abbrev trader : OpenOrders
trader = record account {
  free_slot_bits = u128_mod - 1;
  orders = 0 ∷ 0 ∷ [];
  client_order_ids = 0 ∷ 0 ∷ [];
}

abbrev order : NewOrderInstructionV3
order = record buying {
  limit_price = 110;
  max_coin_qty = 10;
  max_native_pc_qty_including_fees = 60000;
}

abbrev accounts : PlaceAccounts
accounts = record { open_orders = 8; payer = 50; coin_vault = 4; pc_vault = 5 }

abbrev start : PlaceState Table
start = record {
  req_q = record {
    header = record { account_flags = 9; head = 0; count = 0; next_seq_num = 6 };
    buf = [];
  };
  open_orders = trader;
  context = with_offer;
  tokens = λ x. 100000;
}

abbrev ended : PlaceState Table
ended = elim (process_new_order_v3 tables 90 order base accounts start) [
  | ok t ↦ t
  | err e ↦ start
  | panic ↦ start
]

places : process_new_order_v3 tables 90 order base accounts start ≡ ok ended
unfolding process_new_order_v3 place_order lock_free_pc credit_locked_pc unlock_coin unlock_pc
    credit_locked_coin add_order slot_is_free slot_mask add_side gen_order_id gen_seq_num lower_half
    process_orderbook_request checked_mul new_order match_rounds match_round remaining_of
    extract_price_from_order_id new_bid round against trade settle finish to_post_at release post
    div64 find_bbo leaf_at set_quantity remove_order push_event credit_coin debit_native_pc
    unlock_native_pc find_min find_min_max root find_min_max_from view_at case as_leaf get put
    leaf_price leaf_fee_tier tier_from_u8 tier_to_u8 remove_by_key remove_root remove insert_leaf
    insert_root insert insert_bump new_leaf push_back of_view checked_add checked_sub maker_rebate
    taker_fee remove_taker_fee referrer_rebate maker_rate taker_rate add64 sub64 mul64
places = refl

process_new_order_v3_lem_example : PlaceSpec tables tables-TokenLaws accounts start ended
process_new_order_v3_lem_example =
    process_new_order_v3_lem tables tables-TokenLaws 90 order base accounts start ended
      (omega arith)
      (record {
        vaults = λ e. absurd (omega (arith, e));
        payer_coin = λ e. absurd (omega (arith, e));
        payer_pc = λ e. absurd (omega (arith, e));
      })
      places
