-- ===== src/Request.antt =====
-- The requests of dex/src/state.rs: `RequestFlag`, the stored `Request`, its view, and the ids of the
-- request queue. The padding bytes, which are always zero, are left out.
pub mod RoundTrip
pub mod Ids
mod Tests
use Prim.Native.Nat.{bit_and, bit_or}
use openbook_dex.Prelude.{
  ℕ, ◌-◌, ◌*◌, ◌^◌, Bool, true, false, Option, none, some, leb, ◌==◌, if◌then◌else◌, u64_mod,
  u128_mod, ◌%◌, add64,
}
use openbook_dex.Error.{DexResult, ok, panic, ◌>>=◌, ◌>>◌, unwrap, assert, check_assert, state}
use openbook_dex.Fees.{FeeTier, tier_to_u8, tier_from_u8}
use openbook_dex.Types.{
  Side, bid, ask, OrderType, limit, immediate_or_cancel, post_only, SelfTradeBehavior,
  behavior_to_u8, behavior_from_u8, Address, non_zero, get_or_zero,
}
use openbook_dex.Queue.{Queue, RequestQueueHeader, request_header}
use openbook_dex.Event.{contains}

abbrev pub new_order_flag : ℕ
new_order_flag = 0x01

abbrev pub cancel_order_flag : ℕ
cancel_order_flag = 0x02

abbrev pub bid_flag : ℕ
bid_flag = 0x04

abbrev pub post_only_flag : ℕ
post_only_flag = 0x08

abbrev pub immediate_or_cancel_flag : ℕ
immediate_or_cancel_flag = 0x10

pub record Request : Type 0 where
  pub request_flags : ℕ
  pub owner_slot : ℕ
  pub fee_tier : ℕ
  pub self_trade_behavior : ℕ
  pub max_coin_qty_or_cancel_id : ℕ
  pub native_pc_qty_locked : ℕ
  pub order_id : ℕ
  pub owner : Address
  pub client_order_id : ℕ

pub record NewOrder : Type 0 where
  pub side : Side
  pub order_type : OrderType
  pub owner_slot : ℕ
  pub fee_tier : FeeTier
  pub order_id : ℕ
  pub max_coin_qty : ℕ
  pub native_pc_qty_locked : Option ℕ
  pub owner : Address
  pub client_order_id : Option ℕ
  pub self_trade_behavior : SelfTradeBehavior

pub record CancelOrder : Type 0 where
  pub side : Side
  pub order_id : ℕ
  pub cancel_id : ℕ
  pub expected_owner_slot : ℕ
  pub expected_owner : Address
  pub client_order_id : Option ℕ

pub data RequestView : Type 0 where
  new_order : NewOrder → RequestView
  cancel_order : CancelOrder → RequestView

side_flag : Side → ℕ → ℕ
side_flag bid flags = bit_or flags bid_flag
side_flag ask flags = flags

type_flag : OrderType → ℕ → ℕ
type_flag post_only flags = bit_or flags post_only_flag
type_flag immediate_or_cancel flags = bit_or flags immediate_or_cancel_flag
type_flag limit flags = flags

-- `Request::new`.
unfoldable pub of_view : RequestView → Request
unfolding side_flag type_flag
of_view (new_order v) = record {
  request_flags = type_flag v.order_type (side_flag v.side new_order_flag);
  owner_slot = v.owner_slot;
  fee_tier = tier_to_u8 v.fee_tier;
  self_trade_behavior = behavior_to_u8 v.self_trade_behavior;
  order_id = v.order_id;
  owner = v.owner;
  max_coin_qty_or_cancel_id = v.max_coin_qty;
  native_pc_qty_locked = get_or_zero v.native_pc_qty_locked;
  client_order_id = get_or_zero v.client_order_id;
}
of_view (cancel_order v) = record {
  request_flags = side_flag v.side cancel_order_flag;
  max_coin_qty_or_cancel_id = v.cancel_id;
  order_id = v.order_id;
  owner_slot = v.expected_owner_slot;
  fee_tier = 0;
  self_trade_behavior = 0;
  owner = v.expected_owner;
  native_pc_qty_locked = 0;
  client_order_id = get_or_zero v.client_order_id;
}

-- `.or(check_unreachable!())?` at a line.
abbrev pub or_unreachable : {A : Type 0} → ℕ → Option A → DexResult A
or_unreachable line none = check_assert state line false >> panic
or_unreachable line (some a) = ok a

-- The match on `(post_only, ioc)`.
order_type_of : Bool → Bool → DexResult OrderType
order_type_of true false = ok post_only
order_type_of false true = ok immediate_or_cancel
order_type_of false false = ok limit
order_type_of true true = panic

abbrev flags_to_side : ℕ → Side
flags_to_side flags = if contains flags bid_flag then bid else ask

-- The two branches of `as_view`.
new_order_view : Request → DexResult RequestView
unfolding order_type_of
new_order_view r =
    let allowed =
      bit_or (bit_or (bit_or new_order_flag bid_flag) post_only_flag) immediate_or_cancel_flag in
    let flags = r.request_flags in
    check_assert state 1248 (contains allowed flags)
    >> (order_type_of (contains flags post_only_flag) (contains flags immediate_or_cancel_flag)
        >>= λ order_type. or_unreachable 1257 (tier_from_u8 r.fee_tier) >>= λ fee_tier.
            or_unreachable 1260 (behavior_from_u8 r.self_trade_behavior) >>= λ self_trade_behavior.
            unwrap (non_zero r.max_coin_qty_or_cancel_id) >>= λ max_coin_qty. ok (
              new_order (record {
                side = flags_to_side flags;
                order_type = order_type;
                owner_slot = r.owner_slot;
                fee_tier = fee_tier;
                self_trade_behavior = self_trade_behavior;
                order_id = r.order_id;
                owner = r.owner;
                max_coin_qty = max_coin_qty;
                native_pc_qty_locked = non_zero r.native_pc_qty_locked;
                client_order_id = non_zero r.client_order_id;
              })))

cancel_order_view : Request → DexResult RequestView
cancel_order_view r =
    let flags = r.request_flags in
    check_assert state 1274 (contains flags cancel_order_flag)
    >> (check_assert state 1279 (contains (bit_or cancel_order_flag bid_flag) flags)
        >> ok (
            cancel_order (record {
              side = flags_to_side flags;
              cancel_id = r.max_coin_qty_or_cancel_id;
              order_id = r.order_id;
              expected_owner_slot = r.owner_slot;
              expected_owner = r.owner;
              client_order_id = non_zero r.client_order_id;
            })))

-- `BitFlags::from_bits(..).unwrap()` panics on a bit that is no flag.
unfoldable pub as_view : Request → DexResult RequestView
unfolding new_order_view cancel_order_view
as_view r =
    assert (leb r.request_flags 0x3f)
    >> (if contains r.request_flags new_order_flag then new_order_view r else cancel_order_view r)

abbrev pub RequestQueue : Type 0
RequestQueue = Queue RequestQueueHeader Request

unfoldable pub gen_seq_num : RequestQueue → ℕ × RequestQueue
gen_seq_num q = (
  q.header.next_seq_num,
  record q { header = record q.header { next_seq_num = add64 q.header.next_seq_num 1 } },
)

-- The lower half: `!seq_num` for a bid.
unfoldable pub lower_half : Side → ℕ → ℕ
lower_half bid seq_num = u64_mod - 1 - seq_num
lower_half ask seq_num = seq_num

unfoldable pub gen_order_id : RequestQueue → ℕ → Side → ℕ × RequestQueue
unfolding gen_seq_num lower_half
gen_order_id q limit_price side =
    let r = gen_seq_num q in (bit_or (limit_price * 2 ^ 64 % u128_mod) (lower_half side r.0), r.1)
