-- ===== src/OpenOrders.antt =====
-- `OpenOrders` of dex/src/state.rs: a trader's balances on one market and the slots of its orders.
-- Slots are bits of two `u128` words; a shift by a slot takes the slot modulo 128, as the release
-- build does.
pub mod Bits
pub mod Slots
pub mod Balances
mod Tests
use Prim.Native.Nat.{bit_and, bit_or}
use openbook_dex.Prelude.{
  ℕ, zero, suc, ◌-◌, ◌/◌, ◌%◌, ◌^◌, Bool, not, List, [], ◌∷◌, Option, none, some, ltb, leb, ◌==◌,
  if◌then◌else◌, set, u128_mod, checked_add, checked_sub,
}
use openbook_dex.Error.{
  DexResult, ok, ◌>>=◌, ◌>>◌, unwrap, assert, check_assert, check_or, state, invalid_market_flags,
  wrong_orders_account, too_many_open_orders,
}
use openbook_dex.Market.{initialized_flag, open_orders_flag, is_account_flags}
use openbook_dex.Types.{Address, Side, bid, ask}

pub record OpenOrders : Type 0 where
  pub account_flags : ℕ
  pub market : Address
  pub owner : Address
  pub native_coin_free : ℕ
  pub native_coin_total : ℕ
  pub native_pc_free : ℕ
  pub native_pc_total : ℕ
  pub free_slot_bits : ℕ
  pub is_bid_bits : ℕ
  pub orders : List ℕ
  pub client_order_ids : List ℕ
  pub referrer_rebates_accrued : ℕ

unfoldable pub check_flags : OpenOrders → DexResult (Unit {0})
check_flags o =
    check_or (is_account_flags o.account_flags) invalid_market_flags
    >> check_or (o.account_flags == bit_or initialized_flag open_orders_flag) wrong_orders_account

unfoldable pub init : OpenOrders → Address → Address → DexResult OpenOrders
init o market owner =
    check_assert state 780 (o.account_flags == 0)
    >> ok (record o {
      account_flags = bit_or initialized_flag open_orders_flag;
      market = market;
      owner = owner;
      native_coin_total = 0;
      native_coin_free = 0;
      native_pc_total = 0;
      native_pc_free = 0;
      free_slot_bits = u128_mod - 1;
    })

unfoldable pub credit_locked_coin : OpenOrders → ℕ → DexResult OpenOrders
credit_locked_coin o n =
    unwrap (checked_add o.native_coin_total n) >>= λ t. ok (record o { native_coin_total = t })

unfoldable pub credit_locked_pc : OpenOrders → ℕ → DexResult OpenOrders
credit_locked_pc o n =
    unwrap (checked_add o.native_pc_total n) >>= λ t. ok (record o { native_pc_total = t })

unfoldable pub lock_free_coin : OpenOrders → ℕ → DexResult OpenOrders
lock_free_coin o n =
    unwrap (checked_sub o.native_coin_free n) >>= λ f. ok (record o { native_coin_free = f })

unfoldable pub lock_free_pc : OpenOrders → ℕ → DexResult OpenOrders
lock_free_pc o n =
    unwrap (checked_sub o.native_pc_free n) >>= λ f. ok (record o { native_pc_free = f })

unfoldable pub unlock_coin : OpenOrders → ℕ → DexResult OpenOrders
unlock_coin o n = unwrap (checked_add o.native_coin_free n) >>= λ f.
    assert (leb f o.native_coin_total) >> ok (record o { native_coin_free = f })

unfoldable pub unlock_pc : OpenOrders → ℕ → DexResult OpenOrders
unlock_pc o n = unwrap (checked_add o.native_pc_free n) >>= λ f.
    assert (leb f o.native_pc_total) >> ok (record o { native_pc_free = f })

-- `1u128 << slot`, and `!mask`.
abbrev pub slot_mask : ℕ → ℕ
slot_mask slot = 2 ^ (slot % 128)

abbrev pub bit_not : ℕ → ℕ
bit_not mask = u128_mod - 1 - mask

unfoldable pub slot_is_free : OpenOrders → ℕ → Bool
slot_is_free o slot = not (bit_and o.free_slot_bits (slot_mask slot) == 0)

unfoldable pub slot_side : OpenOrders → ℕ → Option Side
slot_side o slot =
    if not (bit_and o.free_slot_bits (slot_mask slot) == 0)
    then none
    else if not (bit_and o.is_bid_bits (slot_mask slot) == 0)
    then some bid
    else some ask

-- `u128::trailing_zeros`, which is 128 at 0: `left` bits are still to be looked at.
unfoldable pub trailing_zeros_from : ℕ → ℕ → ℕ
trailing_zeros_from zero n = 0
trailing_zeros_from (suc left) n = if n % 2 == 0 then suc (trailing_zeros_from left (n / 2)) else 0

unfoldable pub trailing_zeros : ℕ → ℕ
unfolding trailing_zeros_from
trailing_zeros n = trailing_zeros_from 128 n

unfoldable pub remove_order : OpenOrders → ℕ → DexResult OpenOrders
unfolding slot_is_free
remove_order o slot =
    check_assert state 911 (ltb slot 128)
    >> check_assert state 912 (not (slot_is_free o slot))
    >> ok (record o {
      orders = set o.orders slot 0;
      client_order_ids = set o.client_order_ids slot 0;
      free_slot_bits = bit_or o.free_slot_bits (slot_mask slot);
      is_bid_bits = bit_and o.is_bid_bits (bit_not (slot_mask slot));
    })

unfoldable pub add_side : ℕ → ℕ → Side → ℕ
add_side bits mask bid = bit_or bits mask
add_side bits mask ask = bit_and bits (bit_not mask)

unfoldable pub add_order : OpenOrders → ℕ → Side → DexResult (ℕ × OpenOrders)
unfolding slot_is_free trailing_zeros add_side
add_order o id side =
    check_or (not (o.free_slot_bits == 0)) too_many_open_orders
    >> (let slot = trailing_zeros o.free_slot_bits in
        check_assert state 928 (slot_is_free o slot)
        >> ok (
          slot,
          record o {
            free_slot_bits = bit_and o.free_slot_bits (bit_not (slot_mask slot));
            is_bid_bits = add_side o.is_bid_bits (slot_mask slot) side;
            orders = set o.orders slot id;
          },
        ))

-- `iter_filled_slots`: the slots that are not free, the lowest first. Each round clears a bit, so
-- 128 rounds are enough.
unfoldable pub iter_filled_from : ℕ → ℕ → List ℕ
unfolding trailing_zeros
iter_filled_from zero bits = []
iter_filled_from (suc left) bits =
    let next = trailing_zeros bits in
    let rest = next ∷ iter_filled_from left (bit_and bits (bit_not (slot_mask next))) in
    if bits == 0 then [] else rest

unfoldable pub iter_filled_slots : OpenOrders → List ℕ
unfolding iter_filled_from
iter_filled_slots o = iter_filled_from 128 (bit_not o.free_slot_bits)
