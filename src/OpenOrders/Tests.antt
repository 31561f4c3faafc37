-- ===== src/OpenOrders/Tests.antt =====
-- An account with one order, in slot 0, of dex/src/state.rs.
use openbook_dex.Prelude.{
  ℕ, ◌-◌, ◌≡◌, ◌≢◌, ◌<◌, ◌≤◌, ◌⊎◌, refl, [], ◌∷◌, none, some, arith, u128_mod,
}
use openbook_dex.Error.{ok, err, panic, error_code, too_many_open_orders}
use openbook_dex.Types.{ask}
use openbook_dex.OpenOrders.{
  OpenOrders, add_order, remove_order, slot_side, slot_is_free, trailing_zeros, trailing_zeros_from,
  add_side,
}
use openbook_dex.OpenOrders.Slots.{
  written, assertion_at, add_order_lem, remove_order_lem, remove_order-add_order,
}

abbrev account : OpenOrders
account = record {
  account_flags = 5;
  market = 1;
  owner = 2;
  native_coin_free = 0;
  native_coin_total = 0;
  native_pc_free = 0;
  native_pc_total = 0;
  free_slot_bits = u128_mod - 2;
  is_bid_bits = 1;
  orders = 11 ∷ 0 ∷ 0 ∷ [];
  client_order_ids = 0 ∷ 0 ∷ 0 ∷ [];
  referrer_rebates_accrued = 0;
}

abbrev after : ℕ × OpenOrders
after = elim (add_order account 12 ask) [ ok r ↦ r | err e ↦ (0, account) | panic ↦ (0, account) ]

placed : add_order account 12 ask ≡ ok after
unfolding add_order slot_is_free trailing_zeros trailing_zeros_from add_side
placed = refl

add_order_lem_example :
    ((account.free_slot_bits ≡ 0)
      × (add_order account 12 ask ≡ err (error_code too_many_open_orders)))
    ⊎ ((slot : ℕ) × (d : OpenOrders) × (add_order account 12 ask ≡ ok (slot, d))
        × (slot < 128)
        × (slot_side account slot ≡ none)
        × (slot_side d 0 ≡ written slot (some ask) account 0))
add_order_lem_example = add_order_lem account 12 ask 0 (omega arith) (omega arith)

remove_order_lem_example :
    ((128 ≤ 0) × (remove_order account 0 ≡ err (assertion_at 911)))
    ⊎ ((0 < 128) × (slot_side account 0 ≡ none) × (remove_order account 0 ≡ err (assertion_at 912)))
    ⊎ ((0 < 128)
        × (slot_side account 0 ≢ none)
        × ((d : OpenOrders) × (remove_order account 0 ≡ ok d)
            × (slot_side d 1 ≡ written 0 none account 1)))
remove_order_lem_example = remove_order_lem account 0 1 (omega arith)

remove_order-add_order_example :
    (e : OpenOrders) × (remove_order after.1 after.0 ≡ ok e) × (slot_side e 1 ≡ slot_side account 1)
remove_order-add_order_example =
    remove_order-add_order account after.1 12 after.0 1 ask (omega arith) (omega arith) placed
