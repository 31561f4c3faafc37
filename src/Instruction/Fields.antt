-- ===== src/Instruction/Fields.antt =====
-- The enums and numbers in the structs of dex/src/instruction.rs, read back.
use openbook_dex.Prelude.{ℕ, ◌^◌, ◌<◌, ◌≡◌, refl, some, arith, IsU64}
use openbook_dex.Types.{
  Side, bid, ask, OrderType, immediate_or_cancel, post_only, SelfTradeBehavior, behavior_to_u8,
  behavior_from_u8, non_zero, decrement_take, cancel_provide, abort_transaction,
}
use openbook_dex.Instruction.Pack.{side_index, order_type_index}
use openbook_dex.Instruction.Unpack.{as_u8, side_from_u8, order_type_from_u8}

abbrev pub IsU16 : ℕ → Type 0
IsU16 n = n < 2 ^ 16

-- A `NonZeroU64`.
pub record IsNonZeroU64 (n : ℕ) : Type 0 where
  pub small : IsU64 n
  pub positive : 0 < n

pub side_lt : (s : Side) → side_index s < 256 ^ 4
side_lt bid = omega arith
side_lt ask = omega arith

pub order_type_lt : (t : OrderType) → order_type_index t < 256 ^ 4
order_type_lt t = ground arith

pub behavior_lt : (b : SelfTradeBehavior) → behavior_to_u8 b < 256 ^ 4
unfolding behavior_to_u8
behavior_lt b = ground arith

pub side_back : (s : Side) → side_from_u8 (side_index s) ≡ some s
unfolding side_from_u8
side_back bid = refl
side_back ask = refl

pub order_type_back : (t : OrderType) → order_type_from_u8 (order_type_index t) ≡ some t
unfolding order_type_from_u8
order_type_back OrderType.limit = refl
order_type_back immediate_or_cancel = refl
order_type_back post_only = refl

pub side_as : (s : Side) → as_u8 (side_index s) ≡ some (side_index s)
side_as bid = refl
side_as ask = refl

pub order_type_as : (t : OrderType) → as_u8 (order_type_index t) ≡ some (order_type_index t)
order_type_as OrderType.limit = refl
order_type_as immediate_or_cancel = refl
order_type_as post_only = refl

pub behavior_as : (b : SelfTradeBehavior) → as_u8 (behavior_to_u8 b) ≡ some (behavior_to_u8 b)
unfolding behavior_to_u8
behavior_as decrement_take = refl
behavior_as cancel_provide = refl
behavior_as abort_transaction = refl

pub behavior_back : (b : SelfTradeBehavior) → behavior_from_u8 (behavior_to_u8 b) ≡ some b
unfolding behavior_from_u8 behavior_to_u8
behavior_back decrement_take = refl
behavior_back cancel_provide = refl
behavior_back abort_transaction = refl

pub non_zero_back : (n : ℕ) → 0 < n → non_zero n ≡ some n
non_zero_back n h = ground arith
