-- ===== src/Handlers/Tests.antt =====
-- A cancel of the bid of `Sample` by its owner, its pruning by the market's authority, and the closing of
-- an empty account: handlers of dex/src/state.rs.
use openbook_dex.Prelude.{
  ℕ, ◌+◌, ◌-◌, ◌*◌, ◌^◌, ◌≡◌, refl, true, [], ◌∷◌, arith, u128_mod, add64, sub64, mul64,
  checked_add,
}
use openbook_dex.Error.{ok, err, panic}
use openbook_dex.Types.{bid}
use openbook_dex.Queue.{push_back}
use openbook_dex.Event.{of_view}
use openbook_dex.Critbit.Node.{case, leaf_price}
use openbook_dex.Critbit.Alloc.{get, remove}
use openbook_dex.Critbit.Find.{root, view_at}
use openbook_dex.Critbit.Remove.{remove_by_key, remove_root}
use openbook_dex.OpenOrders.{OpenOrders, slot_side, unlock_pc, check_flags}
use openbook_dex.Critbit.Walk.{find_by}
use openbook_dex.Market
use openbook_dex.Market.Versions.{
  AccountInfo, MarketStateV2, load_market, check_flags_v2, prune_authority,
}
use openbook_dex.Market.Loads.{
  BookAccount, load_orders_mut, load_bids_mut, load_asks_mut, load_event_queue_mut,
}
use openbook_dex.Matching.Sample.{market, one_order, no_order, no_events, with_bid}
use openbook_dex.Matching.State.{push_event}
use openbook_dex.Matching.Cancel.{locked_by, unlock, cancel_leaf_node, cancel_order_v2, remove_all}
use openbook_dex.Handlers.Accounts.{KeyAccount}
use openbook_dex.Handlers.Cancels.{
  CancelState, CancelAccounts, PruneAccounts, CancelRequest, by_order_id, cancel_request,
  prune_instruction,
}
use openbook_dex.Handlers.Orders.{Closed, close_open_orders_instruction}
use openbook_dex.Handlers.Signers.{
  IsCancelRun, IsPruneRun, cancel_request_lem, prune_instruction_lem,
}
use openbook_dex.Handlers.Closing.{IsClosed, close_open_orders_lem}

abbrev account_of : {A : Type 0} → ℕ → A → AccountInfo A
account_of key contents = record {
  key = key;
  owner = 20;
  is_signer = true;
  lamports = 9;
  data_len = 400;
  contents = contents;
}

abbrev key_account : ℕ → KeyAccount
key_account key = account_of key tt

abbrev bid_id : ℕ
bid_id = 100 * 2 ^ 64 + 5

abbrev orders : OpenOrders
orders = record {
  account_flags = 5;
  market = 1;
  owner = 2;
  native_coin_free = 0;
  native_coin_total = 0;
  native_pc_free = 10;
  native_pc_total = 30000;
  free_slot_bits = u128_mod - 1 - 8;
  is_bid_bits = 8;
  orders = 0 ∷ 0 ∷ 0 ∷ bid_id ∷ [];
  client_order_ids = 0 ∷ 0 ∷ 0 ∷ 0 ∷ [];
  referrer_rebates_accrued = 0;
}

-- The market with the authorities, or without.
abbrev market_account : ℕ → AccountInfo MarketStateV2
market_account flags = account_of 1 (record {
  inner = record market { account_flags = flags };
  open_orders_authority = 30;
  prune_authority = 31;
  consume_events_authority = 32;
})

abbrev bids : AccountInfo BookAccount
bids = account_of 9 (record { account_flags = 33; slab = one_order })

abbrev asks : AccountInfo BookAccount
asks = account_of 10 (record { account_flags = 65; slab = no_order })

abbrev cancel_accounts : CancelAccounts
cancel_accounts = record {
  count = 6;
  market = market_account 3;
  bids = bids;
  asks = asks;
  open_orders = account_of 7 orders;
  open_orders_signer = key_account 2;
  event_q = account_of 8 no_events;
}

abbrev request : CancelRequest
request = by_order_id (record { side = bid; order_id = bid_id })

abbrev start : CancelState
start = record { open_orders = orders; context = with_bid }

abbrev canceled : CancelState
canceled = elim (cancel_request 20 request cancel_accounts) [
  | ok s ↦ s
  | err e ↦ start
  | panic ↦ start
]

cancels : cancel_request 20 request cancel_accounts ≡ ok canceled
unfolding cancel_request load_market load_orders_mut load_bids_mut load_asks_mut
    load_event_queue_mut check_flags cancel_order_v2 cancel_leaf_node locked_by unlock unlock_pc
    slot_side leaf_price push_event push_back of_view remove_by_key remove_root remove root view_at
    get case checked_add add64 sub64 mul64 Market.check_flags
cancels = refl

cancel_request_lem_example : IsCancelRun 20 cancel_accounts canceled
cancel_request_lem_example = cancel_request_lem 20 request cancel_accounts canceled cancels

abbrev prune_accounts : PruneAccounts
prune_accounts = record {
  count = 7;
  market = market_account 515;
  bids = bids;
  asks = asks;
  prune_authority = key_account 31;
  open_orders = account_of 7 orders;
  open_orders_owner = key_account 2;
  event_q = account_of 8 no_events;
}

abbrev pruned : CancelState
pruned = elim (prune_instruction 20 5 prune_accounts) [ ok s ↦ s | err e ↦ start | panic ↦ start ]

prunes : prune_instruction 20 5 prune_accounts ≡ ok pruned
unfolding prune_instruction load_market check_flags_v2 prune_authority load_orders_mut load_bids_mut
    load_asks_mut load_event_queue_mut check_flags remove_all cancel_leaf_node locked_by unlock
    unlock_pc slot_side leaf_price push_event push_back of_view remove_by_key remove_root remove
    root view_at get case checked_add add64 sub64 mul64 find_by
prunes = refl

prune_instruction_lem_example : IsPruneRun 20 prune_accounts pruned
prune_instruction_lem_example = prune_instruction_lem 20 5 prune_accounts pruned prunes

abbrev empty : OpenOrders
empty = record orders {
  native_pc_free = 0;
  native_pc_total = 0;
  free_slot_bits = u128_mod - 1;
  is_bid_bits = 0;
}

abbrev closed : Closed
closed =
    elim (close_open_orders_instruction 20 4 (account_of 7 empty) (key_account 2) (key_account 50)
      (market_account 3)) [
        | ok r ↦ r
        | err e ↦ record { open_orders = account_of 7 empty; dest = key_account 50 }
        | panic ↦ record { open_orders = account_of 7 empty; dest = key_account 50 }
      ]

closes :
    close_open_orders_instruction 20 4
      (account_of 7 empty)
      (key_account 2)
      (key_account 50)
      (market_account 3)
    ≡ ok closed
unfolding close_open_orders_instruction load_market load_orders_mut check_flags checked_add
    Market.check_flags
closes = refl

close_open_orders_lem_example :
    IsClosed (account_of 7 empty) (key_account 2) (key_account 50) closed
close_open_orders_lem_example =
    close_open_orders_lem 20 4 (account_of 7 empty) (key_account 2) (key_account 50)
      (market_account 3) closed (λ e. absurd (omega (arith, e))) closes
