-- ===== src/Event.antt =====
-- The events of dex/src/state.rs: `EventFlag`, the stored `Event` and its view. A `BitFlags` is its
-- `u8`; the padding bytes, which are always zero, are left out.
pub mod RoundTrip
mod Tests
use Prim.Native.Nat.{bit_and, bit_or}
use openbook_dex.Prelude.{
  ℕ, ◌+◌, ◌≡◌, Bool, true, false, Option, none, some, leb, ◌==◌, if◌then◌else◌,
}
use openbook_dex.Error.{DexResult, ok, err, panic, ◌>>=◌, ◌>>◌, assert, check_assert, state}
use openbook_dex.Fees.{FeeTier, tier_to_u8, tier_from_u8}
use openbook_dex.Types.{Side, bid, ask, Address, non_zero, get_or_zero}

abbrev pub fill_flag : ℕ
fill_flag = 0x1

abbrev pub out_flag : ℕ
out_flag = 0x2

abbrev pub bid_flag : ℕ
bid_flag = 0x4

abbrev pub maker_flag : ℕ
maker_flag = 0x8

abbrev pub release_funds_flag : ℕ
release_funds_flag = 0x10

-- `BitFlags::contains`: all the bits of `b` are among those of `a`.
abbrev pub contains : ℕ → ℕ → Bool
contains a b = bit_and a b == b

pub from_side : Side → ℕ
from_side bid = bid_flag
from_side ask = 0

pub flags_to_side : ℕ → Side
flags_to_side flags = if contains flags bid_flag then bid else ask

pub record Event : Type 0 where
  pub event_flags : ℕ
  pub owner_slot : ℕ
  pub fee_tier : ℕ
  pub native_qty_released : ℕ
  pub native_qty_paid : ℕ
  pub native_fee_or_rebate : ℕ
  pub order_id : ℕ
  pub owner : Address
  pub client_order_id : ℕ

pub record Fill : Type 0 where
  pub side : Side
  pub maker : Bool
  pub native_qty_paid : ℕ
  pub native_qty_received : ℕ
  pub native_fee_or_rebate : ℕ
  pub order_id : ℕ
  pub owner : Address
  pub owner_slot : ℕ
  pub fee_tier : FeeTier
  pub client_order_id : Option ℕ

pub record Out : Type 0 where
  pub side : Side
  pub release_funds : Bool
  pub native_qty_unlocked : ℕ
  pub native_qty_still_locked : ℕ
  pub order_id : ℕ
  pub owner : Address
  pub owner_slot : ℕ
  pub client_order_id : Option ℕ

pub data EventView : Type 0 where
  fill : Fill → EventView
  out : Out → EventView

unfoldable pub view_side : EventView → Side
view_side (fill v) = v.side
view_side (out v) = v.side

-- `Event::new`.
unfoldable pub of_view : EventView → Event
unfolding from_side
of_view (fill v) = record {
  event_flags = bit_or (bit_or (from_side v.side) fill_flag) (if v.maker then maker_flag else 0);
  owner_slot = v.owner_slot;
  fee_tier = tier_to_u8 v.fee_tier;
  native_qty_released = v.native_qty_received;
  native_qty_paid = v.native_qty_paid;
  native_fee_or_rebate = v.native_fee_or_rebate;
  order_id = v.order_id;
  owner = v.owner;
  client_order_id = get_or_zero v.client_order_id;
}
of_view (out v) = record {
  event_flags =
      bit_or (bit_or (from_side v.side) out_flag)
        (if v.release_funds then release_funds_flag else 0);
  owner_slot = v.owner_slot;
  fee_tier = 0;
  native_qty_released = v.native_qty_unlocked;
  native_qty_paid = v.native_qty_still_locked;
  native_fee_or_rebate = 0;
  order_id = v.order_id;
  owner = v.owner;
  client_order_id = get_or_zero v.client_order_id;
}

-- `FeeTier::try_from(..).or(check_unreachable!())?` at a line.
abbrev pub tier_or_fail : ℕ → Option FeeTier → DexResult FeeTier
tier_or_fail line none = check_assert state line false >> panic
tier_or_fail line (some t) = ok t

-- The two branches of `as_view`.
fill_view : Event → DexResult EventView
fill_view e =
    let allowed = bit_or (bit_or fill_flag bid_flag) maker_flag in
    check_assert state 1471 (contains allowed e.event_flags)
    >> (tier_or_fail 1484 (tier_from_u8 e.fee_tier) >>= λ tier. ok (
        fill (record {
          side = flags_to_side e.event_flags;
          maker = contains e.event_flags maker_flag;
          native_qty_paid = e.native_qty_paid;
          native_qty_received = e.native_qty_released;
          native_fee_or_rebate = e.native_fee_or_rebate;
          order_id = e.order_id;
          owner = e.owner;
          owner_slot = e.owner_slot;
          fee_tier = tier;
          client_order_id = non_zero e.client_order_id;
        })))

out_view : Event → DexResult EventView
out_view e =
    let allowed = bit_or (bit_or out_flag bid_flag) release_funds_flag in
    check_assert state 1492 (contains allowed e.event_flags)
    >> ok (
        out (record {
          side = flags_to_side e.event_flags;
          release_funds = contains e.event_flags release_funds_flag;
          native_qty_unlocked = e.native_qty_released;
          native_qty_still_locked = e.native_qty_paid;
          order_id = e.order_id;
          owner = e.owner;
          owner_slot = e.owner_slot;
          client_order_id = non_zero e.client_order_id;
        }))

-- `BitFlags::from_bits(..).unwrap()` panics on a bit that is no flag.
unfoldable pub as_view : Event → DexResult EventView
unfolding fill_view out_view flags_to_side
as_view e =
    assert (leb e.event_flags 0x1f)
    >> (if contains e.event_flags fill_flag then fill_view e else out_view e)
