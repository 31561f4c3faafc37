-- ===== src/Instruction/Orders.antt =====
-- Reading back the new orders of dex/src/instruction.rs from their bytes, whatever follows them.
use openbook_dex.Prelude.{
  ℕ, ◌+◌, ◌≡◌, refl, List, [], ◌++◌, some, arith, length, length-append, IsU64,
}
use mathlib.Core.List.{append_assoc}
use openbook_dex.Types.{behavior_to_u8}
use openbook_dex.Instruction.{SendTakeInstruction, NewOrderInstructionV3, NewOrderInstructionV1}
use openbook_dex.Instruction.Bytes.{to_le, length-to_le, read-to_le}
use openbook_dex.Instruction.Pack.{side_index, order_type_index}
use openbook_dex.Instruction.Unpack.{unpack_new_order_v3, unpack_new_order_v1, unpack_send_take}
use openbook_dex.Instruction.Fields.{
  IsU16, IsNonZeroU64, side_lt, order_type_lt, behavior_lt, side_back, order_type_back, side_as,
  order_type_as, behavior_as, behavior_back, non_zero_back,
}

pub record IsValidV3 (i : NewOrderInstructionV3) : Type 0 where
  pub limit_price : IsNonZeroU64 i.limit_price
  pub max_coin_qty : IsNonZeroU64 i.max_coin_qty
  pub max_native_pc_qty : IsNonZeroU64 i.max_native_pc_qty_including_fees
  pub client_order_id : IsU64 i.client_order_id
  pub limit : IsU16 i.limit
  pub max_ts : IsU64 i.max_ts

abbrev pub v3_bytes : NewOrderInstructionV3 → List ℕ → List ℕ
v3_bytes i rest =
    to_le 4 (side_index i.side)
    ++ (to_le 8 i.limit_price
        ++ (to_le 8 i.max_coin_qty
            ++ (to_le 8 i.max_native_pc_qty_including_fees
                ++ (to_le 4 (behavior_to_u8 i.self_trade_behavior)
                    ++ (to_le 4 (order_type_index i.order_type)
                        ++ (to_le 8 i.client_order_id
                            ++ (to_le 2 i.limit ++ (to_le 8 i.max_ts ++ rest))))))))

pub unpack_new_order_v3-bytes :
    (i : NewOrderInstructionV3) (rest : List ℕ)
    → IsValidV3 i
    → unpack_new_order_v3 (v3_bytes i rest) ≡ some i
unfolding unpack_new_order_v3
unpack_new_order_v3-bytes i rest v =
    rw
      (
        read-to_le 4 (side_index i.side) _ (side_lt i.side),
        read-to_le 8 i.limit_price _ v.limit_price.small,
        read-to_le 8 i.max_coin_qty _ v.max_coin_qty.small,
        read-to_le 8 i.max_native_pc_qty_including_fees _ v.max_native_pc_qty.small,
        read-to_le 4 (behavior_to_u8 i.self_trade_behavior) _ (behavior_lt i.self_trade_behavior),
        read-to_le 4 (order_type_index i.order_type) _ (order_type_lt i.order_type),
        read-to_le 8 i.client_order_id _ v.client_order_id,
        read-to_le 2 i.limit _ v.limit,
        read-to_le 8 i.max_ts _ v.max_ts,
        side_as i.side,
        side_back i.side,
        non_zero_back i.limit_price v.limit_price.positive,
        non_zero_back i.max_coin_qty v.max_coin_qty.positive,
        non_zero_back i.max_native_pc_qty_including_fees v.max_native_pc_qty.positive,
        behavior_as i.self_trade_behavior,
        behavior_back i.self_trade_behavior,
        order_type_as i.order_type,
        order_type_back i.order_type,
      )
      refl

pub v3_bytes-append :
    (i : NewOrderInstructionV3) (rest : List ℕ) → v3_bytes i rest ≡ v3_bytes i [] ++ rest
v3_bytes-append i rest = simp (append_assoc)

pub length-v3_bytes :
    (i : NewOrderInstructionV3) (rest : List ℕ) → length (v3_bytes i rest) ≡ 54 + length rest
length-v3_bytes i rest = simp (length-append, length-to_le) (omega arith)

pub record IsValidV1 (i : NewOrderInstructionV1) : Type 0 where
  pub limit_price : IsNonZeroU64 i.limit_price
  pub max_qty : IsNonZeroU64 i.max_qty
  pub client_id : IsU64 i.client_id

abbrev pub v1_bytes : NewOrderInstructionV1 → List ℕ → List ℕ
v1_bytes i rest =
    to_le 4 (side_index i.side)
    ++ (to_le 8 i.limit_price
        ++ (to_le 8 i.max_qty
            ++ (to_le 4 (order_type_index i.order_type) ++ (to_le 8 i.client_id ++ rest))))

pub unpack_new_order_v1-bytes :
    (i : NewOrderInstructionV1) (rest : List ℕ)
    → IsValidV1 i
    → unpack_new_order_v1 (v1_bytes i rest) ≡ some i
unfolding unpack_new_order_v1
unpack_new_order_v1-bytes i rest v =
    rw
      (
        read-to_le 4 (side_index i.side) _ (side_lt i.side),
        read-to_le 8 i.limit_price _ v.limit_price.small,
        read-to_le 8 i.max_qty _ v.max_qty.small,
        read-to_le 4 (order_type_index i.order_type) _ (order_type_lt i.order_type),
        read-to_le 8 i.client_id _ v.client_id,
        side_back i.side,
        non_zero_back i.limit_price v.limit_price.positive,
        non_zero_back i.max_qty v.max_qty.positive,
        order_type_back i.order_type,
      )
      refl

pub record IsValidSendTake (i : SendTakeInstruction) : Type 0 where
  pub limit_price : IsNonZeroU64 i.limit_price
  pub max_coin_qty : IsNonZeroU64 i.max_coin_qty
  pub max_native_pc_qty : IsNonZeroU64 i.max_native_pc_qty_including_fees
  pub min_coin_qty : IsU64 i.min_coin_qty
  pub min_native_pc_qty : IsU64 i.min_native_pc_qty
  pub limit : IsU16 i.limit

abbrev pub send_take_bytes : SendTakeInstruction → List ℕ → List ℕ
send_take_bytes i rest =
    to_le 4 (side_index i.side)
    ++ (to_le 8 i.limit_price
        ++ (to_le 8 i.max_coin_qty
            ++ (to_le 8 i.max_native_pc_qty_including_fees
                ++ (to_le 8 i.min_coin_qty
                    ++ (to_le 8 i.min_native_pc_qty ++ (to_le 2 i.limit ++ rest))))))

pub unpack_send_take-bytes :
    (i : SendTakeInstruction) (rest : List ℕ)
    → IsValidSendTake i
    → unpack_send_take (send_take_bytes i rest) ≡ some i
unfolding unpack_send_take
unpack_send_take-bytes i rest v =
    rw
      (
        read-to_le 4 (side_index i.side) _ (side_lt i.side),
        read-to_le 8 i.limit_price _ v.limit_price.small,
        read-to_le 8 i.max_coin_qty _ v.max_coin_qty.small,
        read-to_le 8 i.max_native_pc_qty_including_fees _ v.max_native_pc_qty.small,
        read-to_le 8 i.min_coin_qty _ v.min_coin_qty,
        read-to_le 8 i.min_native_pc_qty _ v.min_native_pc_qty,
        read-to_le 2 i.limit _ v.limit,
        side_as i.side,
        side_back i.side,
        non_zero_back i.limit_price v.limit_price.positive,
        non_zero_back i.max_coin_qty v.max_coin_qty.positive,
        non_zero_back i.max_native_pc_qty_including_fees v.max_native_pc_qty.positive,
      )
      refl
