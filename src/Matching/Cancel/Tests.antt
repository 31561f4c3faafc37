-- ===== src/Matching/Cancel/Tests.antt =====
-- The cancel of the bid of `Sample` by its owner, in dex/src/matching.rs.
use openbook_dex.Prelude.{
  ℕ, ◌+◌, ◌-◌, ◌*◌, ◌^◌, ◌≡◌, refl, [], ◌∷◌, u128_mod, add64, sub64, mul64, checked_add,
}
use openbook_dex.Error.{ok, err, panic}
use openbook_dex.Types.{bid}
use openbook_dex.Queue.{push_back}
use openbook_dex.Event.{of_view}
use openbook_dex.Critbit.Node.{case, leaf_price}
use openbook_dex.Critbit.Alloc.{get, remove}
use openbook_dex.Critbit.Find.{root, view_at}
use openbook_dex.Critbit.Remove.{remove_by_key, remove_root}
use openbook_dex.OpenOrders.{OpenOrders, slot_side, unlock_pc}
use openbook_dex.Matching.Sample.{with_bid}
use openbook_dex.Matching.State.{Context, push_event}
use openbook_dex.Matching.Cancel.{locked_by, unlock, cancel_leaf_node, cancel_order_v2}
use openbook_dex.Matching.Cancel.Spec.{CancelSpec, cancel_order_v2_lem}

abbrev bid_id : ℕ
bid_id = 100 * 2 ^ 64 + 5

abbrev account : OpenOrders
account = record {
  account_flags = 5;
  market = 1;
  owner = 2;
  native_coin_free = 0;
  native_coin_total = 0;
  native_pc_free = 10;
  native_pc_total = 30000;
  free_slot_bits = u128_mod - 1 - 8;
  is_bid_bits = 8;
  orders = 0 ∷ 0 ∷ 0 ∷ bid_id ∷ [];
  client_order_ids = 0 ∷ 0 ∷ 0 ∷ 0 ∷ [];
  referrer_rebates_accrued = 0;
}

abbrev after : OpenOrders × Context
after = elim (cancel_order_v2 with_bid bid 7 account bid_id) [
  | ok r ↦ r
  | err e ↦ (account, with_bid)
  | panic ↦ (account, with_bid)
]

cancelled : cancel_order_v2 with_bid bid 7 account bid_id ≡ ok after
unfolding cancel_order_v2 cancel_leaf_node locked_by unlock unlock_pc slot_side leaf_price
    push_event push_back of_view remove_by_key remove_root remove root view_at get case checked_add
    add64 sub64 mul64
cancelled = refl

cancel_order_v2_lem_example : CancelSpec with_bid bid 7 account bid_id after.0 after.1
cancel_order_v2_lem_example =
    cancel_order_v2_lem with_bid after.1 bid 7 account after.0 bid_id cancelled
